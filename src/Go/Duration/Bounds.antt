-- ===== src/Go/Duration/Bounds.antt =====
-- A duration that parses is an int64.
use grounded_search.Prelude.{
  ℕ, zero, suc, ◌+◌, ◌%◌, ◌^◌, ◌≤◌, ℤ, Bool, true, false, [], ◌∷◌, ok, ◌≡◌, arith, length,
  Result-cases, inl, inr, Bool-cases, ltb, ◌==◌,
}
use grounded_search.Go.Str.{Str, str_eq, codes}
use grounded_search.Go.Strconv.RoundTrip.{IsInt64}
use grounded_search.Go.Duration.{FloatScale, one_pair, pairs, unsigned, parse_duration}

module _ (float_scale : FloatScale) (orig : Str) where
  pairs-le :
      (fuel : ℕ) (s : Str) (d n : ℕ)
      → d ≤ 2 ^ 63
      → pairs float_scale orig fuel s d ≡ ok n
      → n ≤ 2 ^ 63
  unfolding pairs
  pairs-le fuel [] d n h e = ground arith
  pairs-le zero (c ∷ s) d n h e = absurd (ground arith)
  pairs-le (suc fuel) (c ∷ s) d n h e = elim (Result-cases (one_pair float_scale orig (c ∷ s))) [
    | inl ((v, rest), read) ↦ elim (Bool-cases (ltb (2 ^ 63) ((d + v) % 2 ^ 64))) [
      | inl big ↦ absurd (ground arith)
      | inr fits ↦ pairs-le fuel rest ((d + v) % 2 ^ 64) n (ground arith) (ground arith)
    ]
    | inr (x, failed) ↦ absurd (ground arith)
  ]

  unsigned-IsInt64 :
      (negative : Bool) (s : Str) (n : ℤ) → unsigned float_scale orig negative s ≡ ok n → IsInt64 n
  unfolding unsigned
  unsigned-IsInt64 negative s n e = elim (Bool-cases (str_eq s (codes "0"))) [
    | inl bare ↦ ground arith
    | inr more ↦ elim (Bool-cases (str_eq s [])) [
      | inl blank ↦ absurd (ground arith)
      | inr some_text ↦ elim (Result-cases (pairs float_scale orig (length s) s 0)) [
        | inl (d, read) ↦ let bound = pairs-le (length s) s 0 d (omega arith) read in ground arith
        | inr (x, failed) ↦ absurd (ground arith)
      ]
    ]
  ]

-- Whatever the float arithmetic gives, a duration that parses is an int64.
pub parse_duration-IsInt64 :
    (float_scale : FloatScale) (s : Str) (n : ℤ) → parse_duration float_scale s ≡ ok n → IsInt64 n
unfolding parse_duration
parse_duration-IsInt64 float_scale [] n e = unsigned-IsInt64 float_scale [] false [] n e
parse_duration-IsInt64 float_scale (c ∷ s) n e = elim (Bool-cases (c == b'-')) [
  | inl minus ↦ unsigned-IsInt64 float_scale (c ∷ s) true s n (ground arith)
  | inr other ↦ elim (Bool-cases (c == b'+')) [
    | inl plus ↦ unsigned-IsInt64 float_scale (c ∷ s) false s n (ground arith)
    | inr digit ↦ unsigned-IsInt64 float_scale (c ∷ s) false (c ∷ s) n (ground arith)
  ]
]
