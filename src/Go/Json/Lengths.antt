-- ===== src/Go/Json/Lengths.antt =====
-- Every step inside a string takes a byte at least.
use grounded_search.Prelude.{
  ℕ, zero, suc, ◌+◌, ◌*◌, ◌≤◌, ◌<◌, ◌≡◌, arith, some, [], ◌∷◌, drop, length, ok, inl, inr,
  Result-cases, Option-cases, ◌≢◌, ap,
}
use grounded_search.Go.Str.{Str}
use grounded_search.Go.Json.{rune_width}
use grounded_search.Go.Json.Strings.{
  closes, reads, hex_value, hex_digits, low_surrogate, rune_step, escape_step, wide_step, char_step,
}

hex_digits-le :
    (count n : ℕ) (s : Str) (r : ℕ) (rest : Str)
    → hex_digits count n s ≡ ok (r, rest)
    → length rest ≤ length s
unfolding hex_digits
hex_digits-le zero n s r rest h = ground arith
hex_digits-le (suc count) n [] r rest h = absurd (cc h)
hex_digits-le (suc count) n (c ∷ s) r rest h = elim (Option-cases (hex_value c)) [
  | inl none_fits ↦ absurd (ground arith)
  | inr (d, e) ↦
      let shorter = hex_digits-le count (n * 16 + d) s r rest (ground arith) in omega arith
]

low_surrogate-le :
    (s : Str) (low : ℕ) (rest : Str) → low_surrogate s ≡ some (low, rest) → length rest ≤ length s
unfolding low_surrogate
low_surrogate-le [] low rest h = absurd (cc h)
low_surrogate-le (a ∷ []) low rest h = absurd (cc h)
low_surrogate-le (a ∷ b ∷ s) low rest h = elim (Result-cases (hex_digits 4 0 s)) [
  | inl ((r, t), e) ↦
      let shorter = hex_digits-le 4 0 s r t e in
      let same : t ≡ rest = ground arith in let lengths = ap length same in omega arith
  | inr (f, e) ↦ absurd (ground arith)
]

rune_step-le : (r : ℕ) (s t rest : Str) → rune_step r s ≡ reads t rest → length rest ≤ length s
unfolding rune_step
rune_step-le r s t rest h = elim (Option-cases (low_surrogate s)) [
  | inl lone ↦ ground arith
  | inr ((low, u), e) ↦ let shorter = low_surrogate-le s low u e in ground arith
]

rune_step-ne-closes : (r : ℕ) (s rest : Str) → rune_step r s ≢ closes rest
unfolding rune_step
rune_step-ne-closes r s rest h = ground arith

escape_step-le : (s t rest : Str) → escape_step s ≡ reads t rest → length rest ≤ length s
unfolding escape_step
escape_step-le [] t rest h = absurd (cc h)
escape_step-le (c ∷ s) t rest h = elim (Result-cases (hex_digits 4 0 s)) [
  | inl ((r, u), e) ↦
      let shorter = hex_digits-le 4 0 s r u e in ground (arith, rune_step-le r u t rest)
  | inr (f, e) ↦ ground arith
]

length-drop : (n : ℕ) (s : Str) → length (drop n s) ≤ length s
length-drop zero s = omega arith
length-drop (suc n) [] = omega arith
length-drop (suc n) (c ∷ s) = let shorter = length-drop n s in omega arith

wide_step-lt :
    (n c : ℕ) (s t rest : Str) → wide_step n (c ∷ s) ≡ reads t rest → length rest < suc (length s)
wide_step-lt zero c s t rest h = let shorter = length-drop 0 s in ground arith
wide_step-lt (suc n) c s t rest h = let shorter = length-drop n s in ground arith

wide_step-ne-closes : (n : ℕ) (s rest : Str) → wide_step n s ≢ closes rest
wide_step-ne-closes zero s rest h = absurd (cc h)
wide_step-ne-closes (suc n) s rest h = absurd (cc h)

escape_step-ne-closes : (s rest : Str) → escape_step s ≢ closes rest
unfolding escape_step
escape_step-ne-closes [] rest h = absurd (cc h)
escape_step-ne-closes (c ∷ s) rest h = elim (Result-cases (hex_digits 4 0 s)) [
  | inl ((r, u), e) ↦ absurd (ground (arith, rune_step-ne-closes r u rest))
  | inr (f, e) ↦ absurd (ground arith)
]

pub char_step-lt : (s t rest : Str) → char_step s ≡ reads t rest → length rest < length s
unfolding char_step
char_step-lt [] t rest h = absurd (cc h)
char_step-lt (c ∷ s) t rest h =
    let escape = escape_step-le s t rest in
    let wide = wide_step-lt (rune_width (c ∷ s)) c s t rest in ground arith

pub char_step_closes-lt : (s rest : Str) → char_step s ≡ closes rest → length rest < length s
unfolding char_step
char_step_closes-lt [] rest h = absurd (cc h)
char_step_closes-lt (c ∷ s) rest h =
    let escape = escape_step-ne-closes s rest in
    let wide = wide_step-ne-closes (rune_width (c ∷ s)) (c ∷ s) rest in ground arith
