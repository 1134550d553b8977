-- ===== src/HttpApi/Unique.antt =====
-- The request IDs that are made without random bytes do not repeat.
use grounded_search.Prelude.{
  ℕ, ◌+◌, ◌%◌, ◌^◌, ◌<◌, ℤ, none, ◌≡◌, refl, arith, false, [], ◌∷◌, ◌++◌, All, ok, sym, ◌∙◌, ap,
}
use grounded_search.Go.Str.{Str, codes}
use grounded_search.Go.Strings.{contains_byte}
use grounded_search.Go.Strings.Prefix.{append_last_byte_injective}
use grounded_search.Go.Strconv.{format_nat, itoa, parse_uint}
use grounded_search.Go.Strconv.RoundTrip.{IsInt64, parse_uint-format_nat}
use grounded_search.Go.Strconv.Digits.{IsDigit, format_nat-IsDigit, itoa_injective}
use grounded_search.HttpApi.RequestId.{Entropy, generate_request_id}

digits-no_dash : (s : Str) → All IsDigit s → contains_byte s b'-' ≡ false
unfolding contains_byte
digits-no_dash [] h = refl
digits-no_dash (c ∷ s) (d, h) = ground (arith, digits-no_dash s h)

format_nat_injective : (m n : ℕ) → m < 2 ^ 64 → n < 2 ^ 64 → format_nat m ≡ format_nat n → m ≡ n
format_nat_injective m n hm hn e =
    let x : ok m ≡ ok n =
      sym (parse_uint-format_nat m hm) ∙ ap parse_uint e ∙ parse_uint-format_nat n hn in
    ground arith

-- The source of random bytes fails at a time of the clock.
abbrev pub failing : ℤ → Entropy
failing time = record { random = none; unix_nano = time }

abbrev next : ℕ → ℕ
next counter = (counter + 1) % 2 ^ 64

next_injective : (c d : ℕ) → c < 2 ^ 64 → d < 2 ^ 64 → next c ≡ next d → c ≡ d
next_injective c d hc hd e = omega (arith, hc, hd, e)

fallback_parts :
    (t u : ℤ) (m n : ℕ)
    → codes "fallback-" ++ (itoa t ++ (codes "-" ++ format_nat m))
      ≡ codes "fallback-" ++ (itoa u ++ (codes "-" ++ format_nat n))
    → (itoa t ≡ itoa u) × (format_nat m ≡ format_nat n)
fallback_parts t u m n e =
    append_last_byte_injective b'-' (itoa t) (itoa u) (format_nat m) (format_nat n)
      (digits-no_dash (format_nat m) (format_nat-IsDigit m))
      (digits-no_dash (format_nat n) (format_nat-IsDigit n)) (cc e)

-- Where the source of random bytes fails, two request IDs are equal only if they were made at the
-- same nanosecond of the clock, which is an int64, and from the same value of the counter, which
-- is a uint64.
pub generate_request_id_injective :
    (t u : ℤ) (c d : ℕ)
    → IsInt64 t
    → IsInt64 u
    → c < 2 ^ 64
    → d < 2 ^ 64
    → (generate_request_id (failing t) c).1 ≡ (generate_request_id (failing u) d).1
    → (t ≡ u) × (c ≡ d)
unfolding generate_request_id
generate_request_id_injective t u c d ht hu hc hd e =
    let (times, counters) = fallback_parts t u (next c) (next d) e in
    (
      itoa_injective t u ht hu times,
      next_injective c d hc hd
          (format_nat_injective (next c) (next d) (omega arith) (omega arith) counters),
    )
