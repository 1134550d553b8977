-- ===== src/Go/Json/Fuel.antt =====
-- What the decoder leaves of its input with any fuel.
pub mod Enough
use grounded_search.Prelude.{
  ℕ, zero, suc, ◌+◌, ◌*◌, ◌≤◌, ◌<◌, ◌≡◌, refl, arith, [], ◌∷◌, length, ok, err, ◌>>=◌, inl, inr,
  ◌⊎◌, Result-cases, ap, ◌∙◌,
}
use grounded_search.Go.Str.{Str}
use grounded_search.Go.Json.Value.{
  Value, Values, Members, Parsed, Failure, object, array, member, item, no_members, no_values,
}
use grounded_search.Go.Json.Shorter.{
  parse_key-lt, skip_space-le, after_value_ends-lt, after_value_goes_on-lt,
}
use grounded_search.Go.Json.Begins.{
  LeavesLess, fails, reads, opens_members, opens_values, begin_value-LeavesLess,
}
use grounded_search.Go.Json.Parser.{
  skip_space, parse_key, After, ends, goes_on, broken, after_value, Beginning, whole, inside_object,
  inside_array, begin_value, parse_value, parse_members, parse_values,
}

pub After-cases :
    (a : After)
    → ((t : Str) × (a ≡ ends t))
      ⊎ (((t : Str) × (a ≡ goes_on t)) ⊎ ((e : Failure) × (a ≡ broken e)))
After-cases (ends t) = inl (t, refl)
After-cases (goes_on t) = inr (inl (t, refl))
After-cases (broken e) = inr (inr (e, refl))

-- The text that follows a container's value, if the container goes on, is shorter.
pub next-lt :
    (close : ℕ) (s t : Str) → after_value close (skip_space s) ≡ goes_on t → length t < length s
next-lt close s t e =
    let space = skip_space-le s in
    let shorter = after_value_goes_on-lt close (skip_space s) t e in omega arith

last-lt : (close : ℕ) (s t : Str) → after_value close (skip_space s) ≡ ends t → length t < length s
last-lt close s t e =
    let space = skip_space-le s in
    let shorter = after_value_ends-lt close (skip_space s) t e in omega arith

-- What the three functions leave with a fuel.
pub record Leaves (fuel : ℕ) : Type 0 where
  pub values_le :
      (depth : ℕ) (s : Str) (v : Value) (rest : Str)
      → parse_value fuel depth s ≡ ok (v, rest)
      → length rest ≤ length s
  pub members_le :
      (depth : ℕ) (s : Str) (ms : Members) (rest : Str)
      → parse_members fuel depth s ≡ ok (ms, rest)
      → length rest ≤ length s
  pub items_le :
      (depth : ℕ) (s : Str) (vs : Values) (rest : Str)
      → parse_values fuel depth s ≡ ok (vs, rest)
      → length rest ≤ length s

module _ (fuel : ℕ) (less : Leaves fuel) where
  value_step-le :
      (depth : ℕ) (s : Str) (v : Value) (rest : Str)
      → parse_value (suc fuel) depth s ≡ ok (v, rest)
      → length rest ≤ length s
  unfolding parse_value
  value_step-le depth s v rest h =
      go (begin_value depth (skip_space s)) refl (begin_value-LeavesLess depth (skip_space s))
    where
      space : length (skip_space s) ≤ length s
      space = skip_space-le s

      go :
          (b : Beginning)
          → begin_value depth (skip_space s) ≡ b
          → LeavesLess (length (skip_space s)) b
          → length rest ≤ length s
      go _ e (fails f) = absurd (ground arith)
      go _ e (reads w t l) =
          let lengths : length t ≡ length rest = ground arith in omega (arith, space)
      go _ e (opens_members t l) = elim (Result-cases (parse_members fuel (depth + 1) t)) [
        | inl ((ms, r), k) ↦
            let inside = less.members_le (depth + 1) t ms r k in
            let lengths : length r ≡ length rest = ground arith in omega (arith, space)
        | inr (f, k) ↦ absurd (ground arith)
      ]
      go _ e (opens_values t l) = elim (Result-cases (parse_values fuel (depth + 1) t)) [
        | inl ((vs, r), k) ↦
            let inside = less.items_le (depth + 1) t vs r k in
            let lengths : length r ≡ length rest = ground arith in omega (arith, space)
        | inr (f, k) ↦ absurd (ground arith)
      ]

  -- The key of the first member and its value.
  member_parts :
      (depth : ℕ) (s : Str) (ms : Members) (rest : Str)
      → parse_members (suc fuel) depth s ≡ ok (ms, rest)
      → (k : Str) × (t : Str) × (v : Value) × (u : Str) × (parse_key (skip_space s) ≡ ok (k, t))
        × (parse_value fuel depth t ≡ ok (v, u))
  unfolding parse_members
  member_parts depth s ms rest h = elim (Result-cases (parse_key (skip_space s))) [
    | inl ((k, t), e) ↦ elim (Result-cases (parse_value fuel depth t)) [
      | inl ((v, u), l) ↦ (k, t, v, u, e, l)
      | inr (f, l) ↦ absurd (ground arith)
    ]
    | inr (f, e) ↦ absurd (ground arith)
  ]

  members_step-le :
      (depth : ℕ) (s : Str) (ms : Members) (rest : Str)
      → parse_members (suc fuel) depth s ≡ ok (ms, rest)
      → length rest ≤ length s
  unfolding parse_members
  members_step-le depth s ms rest h =
      let (k, t, v, u, e, l) = member_parts depth s ms rest h in
      let space = skip_space-le s in
      let key = parse_key-lt (skip_space s) k t e in
      let value = less.values_le depth t v u l in
      elim (After-cases (after_value b'}' (skip_space u))) [
        | inl (w, a) ↦
            let last = last-lt b'}' u w a in
            let lengths : length w ≡ length rest = ground arith in omega arith
        | inr (inl (w, a)) ↦ elim (Result-cases (parse_members fuel depth w)) [
          | inl ((later, r), q) ↦
              let next = next-lt b'}' u w a in
              let more = less.members_le depth w later r q in
              let lengths : length r ≡ length rest = ground arith in omega arith
          | inr (f, q) ↦ absurd (ground arith)
        ]
        | inr (inr (f, a)) ↦ absurd (ground arith)
      ]

  items_step-le :
      (depth : ℕ) (s : Str) (vs : Values) (rest : Str)
      → parse_values (suc fuel) depth s ≡ ok (vs, rest)
      → length rest ≤ length s
  unfolding parse_values
  items_step-le depth s vs rest h = elim (Result-cases (parse_value fuel depth s)) [
    | inl ((v, u), l) ↦
        let value = less.values_le depth s v u l in
        elim (After-cases (after_value b']' (skip_space u))) [
          | inl (w, a) ↦
              let last = last-lt b']' u w a in
              let lengths : length w ≡ length rest = ground arith in omega arith
          | inr (inl (w, a)) ↦ elim (Result-cases (parse_values fuel depth w)) [
            | inl ((later, r), q) ↦
                let next = next-lt b']' u w a in
                let more = less.items_le depth w later r q in
                let lengths : length r ≡ length rest = ground arith in omega arith
            | inr (f, q) ↦ absurd (ground arith)
          ]
          | inr (inr (f, a)) ↦ absurd (ground arith)
        ]
    | inr (f, l) ↦ absurd (ground arith)
  ]

no_fuel-Leaves : Leaves 0
unfolding parse_value
no_fuel-Leaves = record {
  values_le = λ depth s v rest h. absurd (cc h);
  members_le = λ depth s ms rest h. absurd (cc h);
  items_le = λ depth s vs rest h. absurd (cc h);
}

pub parse-Leaves : (fuel : ℕ) → Leaves fuel
parse-Leaves zero = no_fuel-Leaves
parse-Leaves (suc fuel) =
    let less = parse-Leaves fuel in
    record {
      values_le = value_step-le fuel less;
      members_le = members_step-le fuel less;
      items_le = items_step-le fuel less;
    }
