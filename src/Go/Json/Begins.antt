-- ===== src/Go/Json/Begins.antt =====
-- The beginning of a value leaves a shorter text.
use grounded_search.Prelude.{
  ℕ, suc, ◌≤◌, ◌<◌, arith, Bool, [], ◌∷◌, leb, length, ok, err, inl, inr, Result-cases, Bool-cases,
}
use grounded_search.Go.Str.{Str}
use grounded_search.Go.Json.Value.{Value, Failure, object, array, no_members, no_values}
use grounded_search.Go.Json.Strings.{string_body}
use grounded_search.Go.Json.Shorter.{string_body-lt, skip_space-le, expect-le, magnitude-le}
use grounded_search.Go.Json.Parser.{
  skip_space, expect, magnitude, tail, first_is, max_depth, Beginning, whole, inside_object,
  inside_array, open_container, begin_with, begin_value, lead, Lead, opens_object, opens_array,
  quotes, minus, digit, other, keyword,
}

-- What is left of a text that has `n` bytes.
pub data LeavesLess (n : ℕ) : Beginning → Type 0 where
  fails : (e : Failure) → LeavesLess n (whole (err e))
  reads : (v : Value) (rest : Str) → length rest ≤ n → LeavesLess n (whole (ok (v, rest)))
  opens_members : (t : Str) → length t < n → LeavesLess n (inside_object t)
  opens_values : (t : Str) → length t < n → LeavesLess n (inside_array t)

length-tail : (s : Str) → length (tail s) ≤ length s
length-tail [] = omega arith
length-tail (c ∷ s) = omega arith

open_container-LeavesLess :
    (depth : ℕ) (empty : Bool) (v : Value) (s : Str) (more : Beginning)
    → LeavesLess (suc (length s)) more
    → LeavesLess (suc (length s)) (open_container depth empty v s more)
unfolding open_container
open_container-LeavesLess depth empty v s more h = elim (Bool-cases (leb max_depth depth)) [
  | inl deep ↦ rw deep (fails _)
  | inr room ↦ elim (Bool-cases empty) [
    | inl e ↦
        let shorter = skip_space-le s in
        let last = length-tail (skip_space s) in
        rw (room, e) (reads v (tail (skip_space s)) (omega arith))
    | inr e ↦ rw (room, e) h
  ]
]

begin_with-LeavesLess :
    (depth : ℕ) (l : Lead) (c : ℕ) (s : Str) → LeavesLess (suc (length s)) (begin_with depth l c s)
unfolding begin_with
begin_with-LeavesLess depth opens_object c s =
    open_container-LeavesLess depth (first_is b'}' (skip_space s)) (object no_members) s
      (inside_object s) (opens_members s (omega arith))
begin_with-LeavesLess depth opens_array c s =
    open_container-LeavesLess depth (first_is b']' (skip_space s)) (array no_values) s
      (inside_array s) (opens_values s (omega arith))
begin_with-LeavesLess depth quotes c s = elim (Result-cases (string_body (length s) s)) [
  | inl ((b, t), e) ↦
      let shorter = string_body-lt (length s) s b t e in rw e (reads _ t (omega arith))
  | inr (f, e) ↦ rw e (fails f)
]
begin_with-LeavesLess depth minus c s = elim (Result-cases (magnitude s)) [
  | inl ((b, t), e) ↦ let shorter = magnitude-le s b t e in rw e (reads _ t (omega arith))
  | inr (f, e) ↦ rw e (fails f)
]
begin_with-LeavesLess depth digit c s = elim (Result-cases (magnitude (c ∷ s))) [
  | inl ((b, t), e) ↦ let shorter = magnitude-le (c ∷ s) b t e in rw e (reads _ t (omega arith))
  | inr (f, e) ↦ rw e (fails f)
]
begin_with-LeavesLess depth (keyword word v) c s = elim (Result-cases (expect word s)) [
  | inl (t, e) ↦ let shorter = expect-le word s t e in rw e (reads v t (omega arith))
  | inr (f, e) ↦ rw e (fails f)
]
begin_with-LeavesLess depth other c s = fails _

pub begin_value-LeavesLess : (depth : ℕ) (s : Str) → LeavesLess (length s) (begin_value depth s)
unfolding begin_value
begin_value-LeavesLess depth [] = fails _
begin_value-LeavesLess depth (c ∷ s) = begin_with-LeavesLess depth (lead c) c s
