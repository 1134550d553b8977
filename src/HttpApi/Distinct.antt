-- ===== src/HttpApi/Distinct.antt =====
-- The request IDs of a process: its exchanges one after another, in the order in which they add to
-- the atomic counter.
use grounded_search.Prelude.{
  ℕ, suc, ◌+◌, ◌%◌, ◌^◌, ◌<◌, ◌≤◌, ℤ, none, some, ◌≡◌, ◌≢◌, refl, arith, Bool, true, false, List,
  [], ◌∷◌, All, length, ◌&&◌, if◌then◌else◌, Bool-cases, inl, inr, ◌∙◌, ap, sym, subst,
}
use grounded_search.Go.Str.{Str, str_eq}
use grounded_search.Go.Http.{header_get}
use grounded_search.Go.Strconv.RoundTrip.{IsInt64}
use grounded_search.HttpApi.State.{Request}
use grounded_search.HttpApi.RequestId.{Entropy, generate_request_id, valid_request_id}
use grounded_search.HttpApi.Middleware.{request_id_header, choose_request_id}
use grounded_search.HttpApi.Unique.{failing, generate_request_id_injective}

-- What one exchange brings: the request, and what generateRequestID reads during it.
pub record Arrival : Type 0 where
  pub entropy : Entropy
  pub request : Request

abbrev chosen : Arrival → ℕ → ℕ × Str
chosen a counter = choose_request_id a.entropy a.request counter

-- The request has no valid ID and the source of random bytes fails.
unfoldable pub needs_fallback : Arrival → Bool
needs_fallback a =
    str_eq (valid_request_id (header_get request_id_header a.request.header)) []
    && (elim a.entropy.random [ none ↦ true | some bytes ↦ false ])

-- The IDs of the exchanges that need a fallback.
unfoldable pub fallback_ids : List Arrival → ℕ → List Str
unfolding needs_fallback
fallback_ids [] counter = []
fallback_ids (a ∷ more) counter =
    let later = fallback_ids more (chosen a counter).0 in
    if needs_fallback a then (chosen a counter).1 ∷ later else later

abbrev pub Distinct : List Str → Type 0
Distinct [] = Unit
Distinct (x ∷ xs) = All (λ y. x ≢ y) xs × Distinct xs

All-imp : {P Q : Str → Type 0} → ((s : Str) → P s → Q s) → (xs : List Str) → All P xs → All Q xs
All-imp f [] h = tt
All-imp f (x ∷ xs) (p, h) = (f x p, All-imp f xs h)

-- An ID made without random bytes, from one of the `n` values of the counter from `c` on.
record MadeFrom (c n : ℕ) (id : Str) : Type 0 where
  time : ℤ
  offset : ℕ
  time_fits : IsInt64 time
  near : offset < n
  made : id ≡ (generate_request_id (failing time) ((c + offset) % 2 ^ 64)).1

fallback_choice :
    (a : Arrival) (counter : ℕ)
    → needs_fallback a ≡ true
    → chosen a counter ≡ generate_request_id (failing a.entropy.unix_nano) counter
unfolding needs_fallback choose_request_id generate_request_id
fallback_choice a counter h = ground arith

other_choice :
    (a : Arrival) (counter : ℕ) → needs_fallback a ≡ false → (chosen a counter).0 ≡ counter
unfolding needs_fallback choose_request_id generate_request_id
other_choice a counter h = ground arith

next_of_fallback :
    (time : ℤ) (counter : ℕ)
    → (generate_request_id (failing time) counter).0 ≡ (counter + 1) % 2 ^ 64
unfolding generate_request_id
next_of_fallback time counter = refl

abbrev pub ClockFits : Arrival → Type 0
ClockFits a = IsInt64 a.entropy.unix_nano

later-MadeFrom : (c n : ℕ) (id : Str) → MadeFrom ((c + 1) % 2 ^ 64) n id → MadeFrom c (suc n) id
later-MadeFrom c n id m =
    let same : ((c + 1) % 2 ^ 64 + m.offset) % 2 ^ 64 ≡ (c + suc m.offset) % 2 ^ 64 = omega arith in
    record {
      time = m.time;
      offset = suc m.offset;
      time_fits = m.time_fits;
      near = omega (arith, m.near);
      made = m.made ∙ ap (λ k. (generate_request_id (failing m.time) k).1) same;
    }

more-MadeFrom : (c n : ℕ) (id : Str) → MadeFrom c n id → MadeFrom c (suc n) id
more-MadeFrom c n id m = record {
  time = m.time;
  offset = m.offset;
  time_fits = m.time_fits;
  near = omega (arith, m.near);
  made = m.made;
}

first-MadeFrom :
    (time : ℤ) (c n : ℕ)
    → IsInt64 time
    → c < 2 ^ 64
    → MadeFrom c (suc n) (generate_request_id (failing time) c).1
first-MadeFrom time c n h hc =
    let same : c ≡ (c + 0) % 2 ^ 64 = omega (arith, hc) in
    record {
      time = time;
      offset = 0;
      time_fits = h;
      near = omega arith;
      made = ap (λ k. (generate_request_id (failing time) k).1) same;
    }

-- The ID that is made first is not made again within a round of the counter.
first-Fresh :
    (time : ℤ) (c n : ℕ)
    → IsInt64 time
    → c < 2 ^ 64
    → n < 2 ^ 64
    → (id : Str) → MadeFrom ((c + 1) % 2 ^ 64) n id
    → (generate_request_id (failing time) c).1 ≢ id
first-Fresh time c n h hc hn id m e =
    let near = m.near in
    let (times, counters) =
      generate_request_id_injective time m.time c (((c + 1) % 2 ^ 64 + m.offset) % 2 ^ 64) h
        m.time_fits hc (omega arith) (e ∙ m.made) in
    absurd (omega (arith, counters))

fallback_ids_needed :
    (a : Arrival) (more : List Arrival) (c : ℕ)
    → needs_fallback a ≡ true
    → fallback_ids (a ∷ more) c
      ≡ (generate_request_id (failing a.entropy.unix_nano) c).1
        ∷ fallback_ids more ((c + 1) % 2 ^ 64)
unfolding fallback_ids
fallback_ids_needed a more c need =
    rw (need, fallback_choice a c need, next_of_fallback a.entropy.unix_nano c) refl

fallback_ids_other :
    (a : Arrival) (more : List Arrival) (c : ℕ)
    → needs_fallback a ≡ false
    → fallback_ids (a ∷ more) c ≡ fallback_ids more c
unfolding fallback_ids
fallback_ids_other a more c other = rw (other, other_choice a c other) refl

fallback_ids-MadeFrom :
    (arrivals : List Arrival) (c : ℕ)
    → All ClockFits arrivals
    → c < 2 ^ 64
    → All (MadeFrom c (length arrivals)) (fallback_ids arrivals c)
fallback_ids-MadeFrom [] c h hc = unfold fallback_ids in tt
fallback_ids-MadeFrom (a ∷ more) c (h, hs) hc = elim (Bool-cases (needs_fallback a)) [
  | inl need ↦
      let later = fallback_ids-MadeFrom more ((c + 1) % 2 ^ 64) hs (omega arith) in
      subst (All (MadeFrom c (suc (length more)))) (sym (fallback_ids_needed a more c need)) (
        first-MadeFrom a.entropy.unix_nano c (length more) h hc,
        All-imp (later-MadeFrom c (length more)) _ later,
      )
  | inr other ↦
      subst (All (MadeFrom c (suc (length more)))) (sym (fallback_ids_other a more c other))
        (All-imp (more-MadeFrom c (length more)) _ (fallback_ids-MadeFrom more c hs hc))
]

-- Whatever requests a process handles, 2^64 of them at most, with clocks that are int64: the request
-- IDs that it makes because a request has no valid one and the source of random bytes fails are
-- pairwise different, also where the clock stands still or goes back and where the counter, a uint64
-- of any value, wraps around.
pub fallback_ids-Distinct :
    (arrivals : List Arrival) (counter : ℕ)
    → All ClockFits arrivals
    → counter < 2 ^ 64
    → length arrivals ≤ 2 ^ 64
    → Distinct (fallback_ids arrivals counter)
fallback_ids-Distinct [] c h hc hn = unfold fallback_ids in tt
fallback_ids-Distinct (a ∷ more) c (h, hs) hc hn = elim (Bool-cases (needs_fallback a)) [
  | inl need ↦
      let made = fallback_ids-MadeFrom more ((c + 1) % 2 ^ 64) hs (omega arith) in
      subst Distinct (sym (fallback_ids_needed a more c need)) (
        All-imp (first-Fresh a.entropy.unix_nano c (length more) h hc (omega arith)) _ made,
        fallback_ids-Distinct more ((c + 1) % 2 ^ 64) hs (omega arith) (omega arith),
      )
  | inr other ↦
      subst Distinct (sym (fallback_ids_other a more c other))
        (fallback_ids-Distinct more c hs hc (omega arith))
]
