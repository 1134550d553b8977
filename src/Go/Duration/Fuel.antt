-- ===== src/Go/Duration/Fuel.antt =====
-- The loop of ParseDuration always has the fuel that it needs: every round takes a byte.
use grounded_search.Prelude.{
  ℕ, zero, suc, ◌+◌, ◌-◌, ◌*◌, ◌/◌, ◌%◌, ◌^◌, ◌≤◌, ◌<◌, Bool, false, [], ◌∷◌, ok, ◌≡◌, refl, ap,
  arith, length, Result-cases, inl, inr, Bool-cases, ltb, ◌==◌, Option-cases, some, ◌||◌,
}
use grounded_search.Go.Str.{Str, str_eq}
use grounded_search.Go.Strconv.{is_digit}
use grounded_search.Go.Duration.{
  FloatScale, Fraction, leading_int, leading_fraction, unit_split, fraction_part, with_unit,
  unit_of_pair, rest_of_pair, one_pair, pairs, starts_digit, starts_number,
}

leading_int-le :
    (s : Str) (x v : ℕ) (rest : Str) → leading_int s x ≡ some (v, rest) → length rest ≤ length s
unfolding leading_int
leading_int-le [] x v rest e = ground arith
leading_int-le (c ∷ s) x v rest e = elim (Bool-cases (is_digit c)) [
  | inl digit ↦ elim (Bool-cases (ltb (2 ^ 63 / 10) x || ltb (2 ^ 63) (x * 10 + (c - b'0')))) [
    | inl big ↦ absurd (ground arith)
    | inr fits ↦
        let shorter = leading_int-le s (x * 10 + (c - b'0')) v rest (ground arith) in omega arith
  ]
  | inr other ↦ ground arith
]

le_of_le : {a b : ℕ} → a ≤ b → a ≤ suc b
le_of_le h = omega arith

leading_fraction-le :
    (s : Str) (x scale : ℕ) (overflow : Bool)
    → length (leading_fraction s x scale overflow).rest ≤ length s
unfolding leading_fraction
leading_fraction-le [] x scale overflow = omega arith
leading_fraction-le (c ∷ s) x scale overflow = elim (Bool-cases (is_digit c)) [
  | inl digit ↦ rw digit (le_of_le (leading_fraction-le s _ _ _))
  | inr other ↦ rw other (omega arith)
]

fraction_part-le : (s : Str) → length (fraction_part s).0.rest ≤ length s
unfolding fraction_part
fraction_part-le [] = omega arith
fraction_part-le (c ∷ s) = elim (Bool-cases (c == b'.')) [
  | inl point ↦ let shorter = leading_fraction-le s 0 1 false in rw point (omega arith)
  | inr other ↦ rw other (omega arith)
]

unit_split-length : (s : Str) → length (unit_split s).0 + length (unit_split s).1 ≡ length s
unfolding unit_split
unit_split-length [] = refl
unit_split-length (c ∷ s) = elim (Bool-cases (c == b'.' || is_digit c)) [
  | inl number ↦ rw number (omega arith)
  | inr other ↦ let whole = unit_split-length s in rw other (omega arith)
]

lt_of_split :
    (u r rest : Str) {n : ℕ}
    → str_eq u [] ≡ false
    → r ≡ rest
    → length u + length r ≡ n
    → length rest < n
unfolding str_eq
lt_of_split [] r rest h e whole = absurd (ground arith)
lt_of_split (c ∷ u) r rest h e whole = ground (arith, ap length e)

module _ (float_scale : FloatScale) (orig : Str) where
  unit_of_pair-lt :
      (v n : ℕ) (f : Fraction) (rest : Str)
      → unit_of_pair float_scale orig v f ≡ ok (n, rest)
      → length rest < length f.rest
  unfolding unit_of_pair
  unit_of_pair-lt v n f rest e = elim (Bool-cases (str_eq (unit_split f.rest).0 [])) [
    | inl missing ↦ absurd (ground arith)
    | inr given ↦ elim (Result-cases (with_unit float_scale orig v f (unit_split f.rest).0)) [
      | inl (d, known) ↦
          let tail : (unit_split f.rest).1 ≡ rest = ground arith in
          lt_of_split (unit_split f.rest).0 (unit_split f.rest).1 rest given tail
            (unit_split-length f.rest)
      | inr (x, unknown) ↦ absurd (ground arith)
    ]
  ]

  rest_of_pair-lt :
      (integral : Bool) (v n : ℕ) (after rest : Str)
      → rest_of_pair float_scale orig integral (some (v, after)) ≡ ok (n, rest)
      → length rest < length after
  unfolding rest_of_pair
  rest_of_pair-lt integral v n after rest e =
      elim (Bool-cases (integral || (fraction_part after).1)) [
        | inl number ↦
            let unit = unit_of_pair-lt v n (fraction_part after).0 rest (ground arith) in
            let point = fraction_part-le after in omega arith
        | inr other ↦ absurd (ground arith)
      ]

  -- A round of the loop takes a byte at least.
  one_pair-lt :
      (s rest : Str) (n : ℕ) → one_pair float_scale orig s ≡ ok (n, rest) → length rest < length s
  unfolding one_pair
  one_pair-lt s rest n e = elim (Bool-cases (starts_number s)) [
    | inl number ↦ elim (Option-cases (leading_int s 0)) [
      | inl big ↦ absurd (unfold rest_of_pair in ground arith)
      | inr ((v, after), read) ↦
          let digits = leading_int-le s 0 v after read in
          let unit = rest_of_pair-lt (starts_digit s) v n after rest (ground arith) in omega arith
    ]
    | inr other ↦ absurd (ground arith)
  ]

  -- With the length of the string as fuel or more, the loop gives what it gives with any more fuel:
  -- it never stops for want of it.
  pub pairs_enough :
      (fuel more : ℕ) (s : Str) (d : ℕ)
      → length s ≤ fuel
      → length s ≤ more
      → pairs float_scale orig fuel s d ≡ pairs float_scale orig more s d
  unfolding pairs
  pairs_enough zero zero s d h k = refl
  pairs_enough (suc fuel) zero [] d h k = refl
  pairs_enough zero (suc more) [] d h k = refl
  pairs_enough (suc fuel) (suc more) [] d h k = refl
  pairs_enough (suc fuel) zero (c ∷ s) d h k = absurd (omega arith)
  pairs_enough zero (suc more) (c ∷ s) d h k = absurd (omega arith)
  pairs_enough (suc fuel) (suc more) (c ∷ s) d h k =
      elim (Result-cases (one_pair float_scale orig (c ∷ s))) [
        | inl ((v, rest), read) ↦
            let shorter = one_pair-lt (c ∷ s) rest v read in
            let later =
              pairs_enough fuel more rest ((d + v) % 2 ^ 64) (omega arith) (omega arith) in
            rw (read, later) refl
        | inr (x, failed) ↦ rw failed refl
      ]
