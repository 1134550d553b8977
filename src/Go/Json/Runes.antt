-- ===== src/Go/Json/Runes.antt =====
-- The width of a character, and the characters outside ASCII inside a string.
use grounded_search.Prelude.{
  ℕ, zero, suc, ◌≤◌, ◌≡◌, refl, arith, Bool, true, false, ◌&&◌, [], ◌∷◌, ◌++◌, ltb, leb, take, drop,
  length, Bool-cases, inl, inr, ◌⊎◌, ℕ-cases, ap, ◌∙◌,
}
use grounded_search.Go.Str.{Str, codes}
use grounded_search.Go.Json.{rune_width, escape_front, is_separator, is_continuation, second_ok}
use grounded_search.Go.Json.Strings.{
  replacement, append_rune, reads, hex_digits, rune_step, escape_step, wide_step, char_step,
}
use grounded_search.Go.Json.Chars.{coerce_front, ascii_step}

abbrev two_ok : ℕ → ℕ → Bool
two_ok a b = leb 0xc2 a && leb a 0xdf && is_continuation b

abbrev three_ok : ℕ → ℕ → ℕ → Bool
three_ok a b c = leb 0xe0 a && leb a 0xef && second_ok a b && is_continuation c

abbrev four_ok : ℕ → ℕ → ℕ → ℕ → Bool
four_ok a b c d =
    leb 0xf0 a && leb a 0xf4 && second_ok a b && is_continuation c && is_continuation d

rune_width_two : (a b : ℕ) (t : Str) → two_ok a b ≡ true → rune_width (a ∷ b ∷ t) ≡ 2
unfolding rune_width
rune_width_two a b [] h = rw h refl
rune_width_two a b (x ∷ []) h = rw h refl
rune_width_two a b (x ∷ y ∷ t) h = rw h refl

two_of_three : (a b c : ℕ) → three_ok a b c ≡ true → two_ok a b ≡ false
two_of_three a b c h = ground arith

rune_width_three : (a b c : ℕ) (t : Str) → three_ok a b c ≡ true → rune_width (a ∷ b ∷ c ∷ t) ≡ 3
unfolding rune_width
rune_width_three a b c [] h = rw (two_of_three a b c h, h) refl
rune_width_three a b c (x ∷ t) h = rw (two_of_three a b c h, h) refl

-- The width is that of the character alone.
pub rune_width-take :
    (s t : Str) (m : ℕ) → rune_width s ≡ suc m → rune_width (take (suc m) s ++ t) ≡ suc m
unfolding rune_width
rune_width-take [] t m h = absurd (omega arith)
rune_width-take (a ∷ []) t m h = absurd (omega arith)
rune_width-take (a ∷ b ∷ []) t m h = elim (Bool-cases (two_ok a b)) [
  | inl two ↦ let w : m ≡ 1 = ground arith in rw w (rune_width_two a b t two)
  | inr narrow ↦ absurd (ground arith)
]
rune_width-take (a ∷ b ∷ c ∷ []) t m h = elim (Bool-cases (two_ok a b)) [
  | inl two ↦ let w : m ≡ 1 = ground arith in rw w (rune_width_two a b t two)
  | inr narrow ↦ elim (Bool-cases (three_ok a b c)) [
    | inl three ↦ let w : m ≡ 2 = ground arith in rw w (rune_width_three a b c t three)
    | inr short ↦ absurd (ground arith)
  ]
]
rune_width-take (a ∷ b ∷ c ∷ d ∷ s) t m h = elim (Bool-cases (two_ok a b)) [
  | inl two ↦ let w : m ≡ 1 = ground arith in rw w (rune_width_two a b t two)
  | inr narrow ↦ elim (Bool-cases (three_ok a b c)) [
    | inl three ↦ let w : m ≡ 2 = ground arith in rw w (rune_width_three a b c t three)
    | inr short ↦ elim (Bool-cases (four_ok a b c d)) [
      | inl four ↦ let w : m ≡ 3 = ground arith in rw (w, narrow, short, four) refl
      | inr bad ↦ absurd (ground arith)
    ]
  ]
]

take-take : (n : ℕ) (s t : Str) → n ≤ length s → take n (take n s ++ t) ≡ take n s
take-take zero s t h = refl
take-take (suc n) [] t h = absurd (omega arith)
take-take (suc n) (c ∷ s) t h = ap (λ u. c ∷ u) (take-take n s t (omega arith))

drop-take : (n : ℕ) (s t : Str) → n ≤ length s → drop n (take n s ++ t) ≡ t
drop-take zero s t h = refl
drop-take (suc n) [] t h = absurd (omega arith)
drop-take (suc n) (c ∷ s) t h = drop-take n s t (omega arith)

pub rune_width-le : (s : Str) → rune_width s ≤ length s
unfolding rune_width
rune_width-le [] = omega arith
rune_width-le (a ∷ []) = omega arith
rune_width-le (a ∷ b ∷ []) = ground arith
rune_width-le (a ∷ b ∷ c ∷ []) = ground arith
rune_width-le (a ∷ b ∷ c ∷ d ∷ s) = ground arith

high_step :
    (c : ℕ) (u : Str)
    → ltb c 0x80 ≡ false
    → char_step (c ∷ u) ≡ wide_step (rune_width (c ∷ u)) (c ∷ u)
unfolding char_step
high_step c u h = ground arith

-- A character outside ASCII that stands for itself.
rune_char_step :
    (c m : ℕ) (s t : Str)
    → ltb c 0x80 ≡ false
    → rune_width (c ∷ s) ≡ suc m
    → char_step (take (suc m) (c ∷ s) ++ t) ≡ reads (take (suc m) (c ∷ s)) t
rune_char_step c m s t h w =
    let width = rune_width-take (c ∷ s) t m w in
    let bound : m ≤ length s = omega (arith, rune_width-le (c ∷ s)) in
    high_step c (take m s ++ t) h
    ∙ ap (λ n. wide_step n (c ∷ (take m s ++ t))) width
    ∙ rw (take-take m s t bound, drop-take m s t bound) refl

separator_cases :
    (a b c : ℕ) (s : Str)
    → is_separator (a ∷ b ∷ c ∷ s) ≡ true
    → (a ≡ 0xe2) × (b ≡ 0x80) × ((c ≡ 0xa8) ⊎ (c ≡ 0xa9))
separator_cases a b c s h = ground arith

-- What is written for the character at the front is read as its bytes, and as many bytes are skipped.
abbrev pub FrontReads : Str → Type 0
FrontReads s =
    ((t : Str) → char_step ((escape_front s).0 ++ t) ≡ reads (coerce_front s).0 t)
    × ((escape_front s).1 ≡ (coerce_front s).1)

separator_reads :
    (a b c : ℕ) (s : Str)
    → a ≡ 0xe2
    → b ≡ 0x80
    → (c ≡ 0xa8) ⊎ (c ≡ 0xa9)
    → FrontReads (a ∷ b ∷ c ∷ s)
unfolding escape_front coerce_front char_step escape_step hex_digits rune_step append_rune
separator_reads a b c s p q (inl r) =
    let width = rune_width_three a b c s (ground arith) in rw (width, p, q, r) (λ t. refl, refl)
separator_reads a b c s p q (inr r) =
    let width = rune_width_three a b c s (ground arith) in rw (width, p, q, r) (λ t. refl, refl)

separator-FrontReads : (s : Str) → is_separator s ≡ true → FrontReads s
separator-FrontReads [] h = absurd (ground arith)
separator-FrontReads (a ∷ []) h = absurd (ground arith)
separator-FrontReads (a ∷ b ∷ []) h = absurd (ground arith)
separator-FrontReads (a ∷ b ∷ c ∷ s) h =
    let (p, q, r) = separator_cases a b c s h in separator_reads a b c s p q r

invalid_step : (t : Str) → char_step (codes "\\ufffd" ++ t) ≡ reads replacement t
unfolding char_step escape_step hex_digits rune_step append_rune
invalid_step t = refl

other-FrontReads :
    (c : ℕ) (s : Str) → ltb c 0x80 ≡ false → is_separator (c ∷ s) ≡ false → FrontReads (c ∷ s)
unfolding escape_front coerce_front
other-FrontReads c s h k = elim (ℕ-cases (rune_width (c ∷ s))) [
  | inl e ↦ rw (h, k, e) (invalid_step, refl)
  | inr (m, e) ↦ rw (h, k, e) (λ t. rune_char_step c m s t h e, refl)
]

pub front-FrontReads : (c : ℕ) (s : Str) → FrontReads (c ∷ s)
front-FrontReads c s = elim (Bool-cases (ltb c 0x80)) [
  | inl ascii ↦
      unfold escape_front coerce_front in rw ascii (λ t. ascii_step c t (ground arith), refl)
  | inr wide ↦ elim (Bool-cases (is_separator (c ∷ s))) [
    | inl separator ↦ separator-FrontReads (c ∷ s) separator
    | inr other ↦ other-FrontReads c s wide other
  ]
]
