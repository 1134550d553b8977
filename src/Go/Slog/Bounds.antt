-- ===== src/Go/Slog/Bounds.antt =====
-- A log level that parses is an int64: the offset is added with wrap-around.
use grounded_search.Prelude.{
  ℕ, ◌+◌, ◌-◌, ◌%◌, ◌^◌, ℤ, ok, ◌≡◌, pos_part, neg_part, refl, arith, Result-cases, inl, inr,
  add_int64, of_word,
}
use grounded_search.Go.Str.{Str}
use grounded_search.Go.Strings.{to_upper}
use grounded_search.Go.Strconv.RoundTrip.{IsInt64}
use grounded_search.Go.Slog.{cut_at_sign, named_level, level_offset, level_of_text, unmarshal_level}

of_word-IsInt64 : (u : ℕ) (z : ℤ) → z ≡ of_word (u % 2 ^ 64) → IsInt64 z
of_word-IsInt64 u z e = ground arith

add_int64-IsInt64 : (a b : ℤ) → IsInt64 (add_int64 a b)
unfolding add_int64
add_int64-IsInt64 a b =
    of_word-IsInt64
      (pos_part a + pos_part b + (2 ^ 64 - neg_part a % 2 ^ 64) + (2 ^ 64 - neg_part b % 2 ^ 64))
      (add_int64 a b) refl

level_of_text-IsInt64 : (s : Str) (n : ℤ) → level_of_text s ≡ ok n → IsInt64 n
unfolding level_of_text
level_of_text-IsInt64 s n h = elim (Result-cases (level_offset (cut_at_sign s).1)) [
  | inl (offset, read) ↦ elim (Result-cases (named_level (to_upper (cut_at_sign s).0))) [
    | inl (level, named) ↦ let bound = add_int64-IsInt64 level offset in ground arith
    | inr (e, unknown) ↦ absurd (ground arith)
  ]
  | inr (e, failed) ↦ absurd (ground arith)
]

pub unmarshal_level-IsInt64 : (s : Str) (n : ℤ) → unmarshal_level s ≡ ok n → IsInt64 n
unfolding unmarshal_level
unmarshal_level-IsInt64 s n h = elim (Result-cases (level_of_text s)) [
  | inl (level, read) ↦ level_of_text-IsInt64 s n (ground arith)
  | inr (e, failed) ↦ absurd (ground arith)
]
