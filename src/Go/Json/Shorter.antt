-- ===== src/Go/Json/Shorter.antt =====
-- What the functions of the decoder's grammar leave of their input.
use grounded_search.Prelude.{
  ℕ, zero, suc, ◌≤◌, ◌<◌, ◌≡◌, refl, arith, [], ◌∷◌, length, ok, inl, inr, ◌⊎◌, Result-cases, ap,
}
use grounded_search.Go.Str.{Str, codes}
use grounded_search.Go.Json.Value.{Failure}
use grounded_search.Go.Json.Strings.{CharStep, closes, reads, fails, char_step, string_body}
use grounded_search.Go.Json.Lengths.{char_step-lt, char_step_closes-lt}
use grounded_search.Go.Json.Parser.{
  skip_space, expect, span_digits, some_digits, integer_part, fraction, exponent_sign, exponent,
  magnitude, parse_key, ends, goes_on, after_value,
}

pub CharStep-cases :
    (x : CharStep)
    → ((rest : Str) × (x ≡ closes rest))
      ⊎ (((t : Str) × (rest : Str) × (x ≡ reads t rest)) ⊎ ((f : Failure) × (x ≡ fails f)))
CharStep-cases (closes rest) = inl (rest, refl)
CharStep-cases (reads t rest) = inr (inl (t, rest, refl))
CharStep-cases (fails f) = inr (inr (f, refl))

pub string_body-lt :
    (fuel : ℕ) (s b rest : Str) → string_body fuel s ≡ ok (b, rest) → length rest < length s
unfolding string_body
string_body-lt zero s b rest h = absurd (cc h)
string_body-lt (suc fuel) s b rest h = elim (CharStep-cases (char_step s)) [
  | inl (t, e) ↦ let shorter = char_step_closes-lt s t e in ground arith
  | inr (inl (u, t, e)) ↦
      let shorter = char_step-lt s u t e in
      elim (Result-cases (string_body fuel t)) [
        | inl ((d, r), k) ↦
            let later = string_body-lt fuel t d r k in
            let same : r ≡ rest = ground arith in let lengths = ap length same in omega arith
        | inr (f, k) ↦ absurd (ground arith)
      ]
  | inr (inr (f, e)) ↦ absurd (ground arith)
]

pub skip_space-le : (s : Str) → length (skip_space s) ≤ length s
unfolding skip_space
skip_space-le [] = omega arith
skip_space-le (c ∷ s) = let shorter = skip_space-le s in ground arith

pub expect-le : (word s rest : Str) → expect word s ≡ ok rest → length rest ≤ length s
unfolding expect
expect-le [] s rest h = ground arith
expect-le (x ∷ word) [] rest h = absurd (cc h)
expect-le (x ∷ word) (c ∷ s) rest h = let shorter = expect-le word s rest in ground arith

span_digits-le : (s : Str) → length (span_digits s).1 ≤ length s
unfolding span_digits
span_digits-le [] = omega arith
span_digits-le (c ∷ s) = let shorter = span_digits-le s in ground arith

some_digits-le : (s d rest : Str) → some_digits s ≡ ok (d, rest) → length rest ≤ length s
unfolding some_digits
some_digits-le [] d rest h = absurd (cc h)
some_digits-le (c ∷ s) d rest h = let shorter = span_digits-le (c ∷ s) in ground arith

integer_part-le : (s d rest : Str) → integer_part s ≡ ok (d, rest) → length rest ≤ length s
unfolding integer_part
integer_part-le [] d rest h = absurd (cc h)
integer_part-le (c ∷ s) d rest h = let shorter = span_digits-le (c ∷ s) in ground arith

fraction-le : (s d rest : Str) → fraction s ≡ ok (d, rest) → length rest ≤ length s
unfolding fraction
fraction-le [] d rest h = ground arith
fraction-le (c ∷ s) d rest h = elim (Result-cases (some_digits s)) [
  | inl ((e, r), k) ↦ let shorter = some_digits-le s e r k in ground arith
  | inr (f, k) ↦ ground arith
]

exponent_sign-le : (s : Str) → length (exponent_sign s).1 ≤ length s
exponent_sign-le [] = omega arith
exponent_sign-le (c ∷ s) = ground arith

exponent-le : (s d rest : Str) → exponent s ≡ ok (d, rest) → length rest ≤ length s
unfolding exponent
exponent-le [] d rest h = ground arith
exponent-le (c ∷ s) d rest h =
    let sign = exponent_sign-le s in
    elim (Result-cases (some_digits (exponent_sign s).1)) [
      | inl ((e, r), k) ↦ let shorter = some_digits-le (exponent_sign s).1 e r k in ground arith
      | inr (f, k) ↦ ground arith
    ]

pub magnitude-le : (s d rest : Str) → magnitude s ≡ ok (d, rest) → length rest ≤ length s
unfolding magnitude
magnitude-le s d rest h = elim (Result-cases (integer_part s)) [
  | inl ((i, t), e) ↦ elim (Result-cases (fraction t)) [
    | inl ((f, u), k) ↦ elim (Result-cases (exponent u)) [
      | inl ((x, w), l) ↦
          let first = integer_part-le s i t e in
          let second = fraction-le t f u k in
          let third = exponent-le u x w l in
          let lengths : length w ≡ length rest = ground arith in omega arith
      | inr (x, l) ↦ absurd (ground arith)
    ]
    | inr (x, k) ↦ absurd (ground arith)
  ]
  | inr (x, e) ↦ absurd (ground arith)
]

pub parse_key-lt : (s k rest : Str) → parse_key s ≡ ok (k, rest) → length rest < length s
unfolding parse_key
parse_key-lt [] k rest h = absurd (cc h)
parse_key-lt (c ∷ s) k rest h = elim (Result-cases (string_body (length s) s)) [
  | inl ((b, t), e) ↦
      let name = string_body-lt (length s) s b t e in
      let space = skip_space-le t in
      elim (Result-cases (expect (codes ":") (skip_space t))) [
        | inl (u, l) ↦ let colon = expect-le (codes ":") (skip_space t) u l in ground arith
        | inr (x, l) ↦ absurd (ground arith)
      ]
  | inr (x, e) ↦ absurd (ground arith)
]

pub after_value_ends-lt :
    (close : ℕ) (s rest : Str) → after_value close s ≡ ends rest → length rest < length s
unfolding after_value
after_value_ends-lt close [] rest h = absurd (cc h)
after_value_ends-lt close (c ∷ s) rest h = ground arith

pub after_value_goes_on-lt :
    (close : ℕ) (s rest : Str) → after_value close s ≡ goes_on rest → length rest < length s
unfolding after_value
after_value_goes_on-lt close [] rest h = absurd (cc h)
after_value_goes_on-lt close (c ∷ s) rest h = ground arith

-- The length of the input is fuel enough for a string.
pub string_body_enough :
    (fuel more : ℕ) (s : Str)
    → length s < fuel
    → length s < more
    → string_body fuel s ≡ string_body more s
unfolding string_body
string_body_enough zero more s h k = absurd (omega arith)
string_body_enough (suc fuel) zero s h k = absurd (omega arith)
string_body_enough (suc fuel) (suc more) s h k = elim (CharStep-cases (char_step s)) [
  | inl (t, e) ↦ ground arith
  | inr (inl (u, t, e)) ↦
      let shorter = char_step-lt s u t e in
      let later = string_body_enough fuel more t (omega arith) (omega arith) in ground arith
  | inr (inr (f, e)) ↦ ground arith
]
