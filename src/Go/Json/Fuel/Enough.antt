-- ===== src/Go/Json/Fuel/Enough.antt =====
-- The decoder always has the fuel that it needs: two for every byte.
use grounded_search.Prelude.{
  ℕ, zero, suc, ◌+◌, ◌*◌, ◌≤◌, ◌<◌, ◌≡◌, refl, arith, length, ok, err, inl, inr, Result-cases, ap,
  sym, ◌∙◌,
}
use grounded_search.Go.Str.{Str}
use grounded_search.Go.Json.Value.{Value, Parsed}
use grounded_search.Go.Json.Shorter.{parse_key-lt, skip_space-le}
use grounded_search.Go.Json.Begins.{
  LeavesLess, fails, reads, opens_members, opens_values, begin_value-LeavesLess,
}
use grounded_search.Go.Json.Fuel.{After-cases, next-lt, parse-Leaves}
use grounded_search.Go.Json.Parser.{
  skip_space, parse_key, after_value, Beginning, whole, inside_object, inside_array, begin_value,
  parse_value, parse_members, parse_values,
}

-- Where a fuel is enough, so that more fuel gives the same.
pub record Enough (fuel : ℕ) : Type 0 where
  pub value :
      (depth : ℕ) (s : Str)
      → 2 * length s + 1 ≤ fuel
      → parse_value fuel depth s ≡ parse_value (suc fuel) depth s
  pub members :
      (depth : ℕ) (s : Str)
      → 2 * length s + 2 ≤ fuel
      → parse_members fuel depth s ≡ parse_members (suc fuel) depth s
  pub items :
      (depth : ℕ) (s : Str)
      → 2 * length s + 2 ≤ fuel
      → parse_values fuel depth s ≡ parse_values (suc fuel) depth s

value_of_members :
    (fuel more depth : ℕ) (s t : Str)
    → begin_value depth (skip_space s) ≡ inside_object t
    → parse_members fuel (depth + 1) t ≡ parse_members more (depth + 1) t
    → parse_value (suc fuel) depth s ≡ parse_value (suc more) depth s
unfolding parse_value
value_of_members fuel more depth s t e h = rw (parse_value, e, h) refl

value_of_items :
    (fuel more depth : ℕ) (s t : Str)
    → begin_value depth (skip_space s) ≡ inside_array t
    → parse_values fuel (depth + 1) t ≡ parse_values more (depth + 1) t
    → parse_value (suc fuel) depth s ≡ parse_value (suc more) depth s
unfolding parse_value
value_of_items fuel more depth s t e h = rw (parse_value, e, h) refl

value_of_whole :
    (fuel more depth : ℕ) (s : Str) (r : Parsed (Value × Str))
    → begin_value depth (skip_space s) ≡ whole r
    → parse_value (suc fuel) depth s ≡ parse_value (suc more) depth s
unfolding parse_value
value_of_whole fuel more depth s r e = rw (parse_value, e) refl

members_agree :
    (fuel more depth : ℕ) (s : Str)
    → ((t : Str) → length t < length s → parse_value fuel depth t ≡ parse_value more depth t)
    → ((t : Str) → length t < length s → parse_members fuel depth t ≡ parse_members more depth t)
    → parse_members (suc fuel) depth s ≡ parse_members (suc more) depth s
unfolding parse_members
members_agree fuel more depth s value members = elim (Result-cases (parse_key (skip_space s))) [
  | inl ((k, t), e) ↦
      let space = skip_space-le s in
      let key = parse_key-lt (skip_space s) k t e in
      let same = value t (omega arith) in
      elim (Result-cases (parse_value fuel depth t)) [
        | inl ((v, u), l) ↦
            let left = (parse-Leaves fuel).values_le depth t v u l in
            elim (After-cases (after_value b'}' (skip_space u))) [
              | inl (w, a) ↦ rw (parse_members, e) (ground arith)
              | inr (inl (w, a)) ↦
                  let next = next-lt b'}' u w a in
                  let later = members w (omega arith) in rw (parse_members, e) (ground arith)
              | inr (inr (f, a)) ↦ rw (parse_members, e) (ground arith)
            ]
        | inr (f, l) ↦ rw (parse_members, e) (ground arith)
      ]
  | inr (f, e) ↦ rw (parse_members, e) refl
]

items_agree :
    (fuel more depth : ℕ) (s : Str)
    → parse_value fuel depth s ≡ parse_value more depth s
    → ((t : Str) → length t < length s → parse_values fuel depth t ≡ parse_values more depth t)
    → parse_values (suc fuel) depth s ≡ parse_values (suc more) depth s
unfolding parse_values
items_agree fuel more depth s same items = elim (Result-cases (parse_value fuel depth s)) [
  | inl ((v, u), l) ↦
      let left = (parse-Leaves fuel).values_le depth s v u l in
      elim (After-cases (after_value b']' (skip_space u))) [
        | inl (w, a) ↦ ground arith
        | inr (inl (w, a)) ↦
            let next = next-lt b']' u w a in let later = items w (omega arith) in ground arith
        | inr (inr (f, a)) ↦ ground arith
      ]
  | inr (f, l) ↦ ground arith
]

module _ (fuel : ℕ) (enough : Enough fuel) where
  value_step :
      (depth : ℕ) (s : Str)
      → 2 * length s + 1 ≤ suc fuel
      → parse_value (suc fuel) depth s ≡ parse_value (suc (suc fuel)) depth s
  value_step depth s h =
      go (begin_value depth (skip_space s)) refl (begin_value-LeavesLess depth (skip_space s))
    where
      space : length (skip_space s) ≤ length s
      space = skip_space-le s

      go :
          (b : Beginning)
          → begin_value depth (skip_space s) ≡ b
          → LeavesLess (length (skip_space s)) b
          → parse_value (suc fuel) depth s ≡ parse_value (suc (suc fuel)) depth s
      go _ e (fails f) = value_of_whole fuel (suc fuel) depth s (err f) e
      go _ e (reads w t l) = value_of_whole fuel (suc fuel) depth s (ok (w, t)) e
      go _ e (opens_members t l) =
          value_of_members fuel (suc fuel) depth s t e
            (enough.members (depth + 1) t (omega (arith, h, l, space)))
      go _ e (opens_values t l) =
          value_of_items fuel (suc fuel) depth s t e
            (enough.items (depth + 1) t (omega (arith, h, l, space)))

  members_step :
      (depth : ℕ) (s : Str)
      → 2 * length s + 2 ≤ suc fuel
      → parse_members (suc fuel) depth s ≡ parse_members (suc (suc fuel)) depth s
  members_step depth s h =
      members_agree fuel (suc fuel) depth s
        (λ t shorter. enough.value depth t (omega (arith, h, shorter)))
        (λ t shorter. enough.members depth t (omega (arith, h, shorter)))

  items_step :
      (depth : ℕ) (s : Str)
      → 2 * length s + 2 ≤ suc fuel
      → parse_values (suc fuel) depth s ≡ parse_values (suc (suc fuel)) depth s
  items_step depth s h =
      items_agree fuel (suc fuel) depth s (enough.value depth s (omega (arith, h)))
        (λ t shorter. enough.items depth t (omega (arith, h, shorter)))

no_fuel-Enough : Enough 0
no_fuel-Enough = record {
  value = λ depth s h. absurd (omega (arith, h));
  members = λ depth s h. absurd (omega (arith, h));
  items = λ depth s h. absurd (omega (arith, h));
}

pub parse-Enough : (fuel : ℕ) → Enough fuel
parse-Enough zero = no_fuel-Enough
parse-Enough (suc fuel) =
    let enough = parse-Enough fuel in
    record {
      value = value_step fuel enough;
      members = members_step fuel enough;
      items = items_step fuel enough;
    }

-- With two for every byte and one more, all fuel gives the same value.
pub parse_value_enough :
    (extra depth : ℕ) (s : Str)
    → parse_value (2 * length s + 1 + extra) depth s ≡ parse_value (2 * length s + 1) depth s
parse_value_enough zero depth s = ap (λ f. parse_value f depth s) (omega arith)
parse_value_enough (suc extra) depth s =
    let next : 2 * length s + 1 + suc extra ≡ suc (2 * length s + 1 + extra) = omega arith in
    let step = (parse-Enough (2 * length s + 1 + extra)).value depth s (omega arith) in
    ap (λ f. parse_value f depth s) next ∙ sym step ∙ parse_value_enough extra depth s
