-- ===== src/Go/Json/Chars.antt =====
-- A character that the encoder writes is the character that the decoder reads.
use grounded_search.Prelude.{
  ℕ, zero, suc, ◌+◌, ◌*◌, ◌/◌, ◌%◌, ◌<◌, ◌≡◌, refl, arith, Bool, true, false, ◌||◌, some, [], ◌∷◌,
  ◌++◌, ◌==◌, ltb, if◌then◌else◌, take, Bool-cases, inl, inr, ◌⊎◌,
}
use grounded_search.Go.Str.{Str, codes}
use grounded_search.Go.Json.{hex_digit, rune_width, escape_ascii}
use grounded_search.Go.Json.Strings.{
  replacement, append_rune, hex_value, reads, hex_digits, rune_step, escape_step, char_step,
}

-- The bytes that stand for the character at the front of a string, and how many bytes it has behind the
-- first: U+FFFD for what is no character.
unfoldable pub coerce_front : Str → Str × ℕ
unfolding rune_width
coerce_front [] = ([], 0)
coerce_front (c ∷ s) = if ltb c 0x80 then (c ∷ [], 0) else (elim (rune_width (c ∷ s)) [
  | zero ↦ (replacement, 0)
  | suc more ↦ (take (suc more) (c ∷ s), more)
])

hex_value-hex_digit : (n : ℕ) → n < 16 → hex_value (hex_digit n) ≡ some n
hex_value-hex_digit n h = ground arith

hex_step :
    (c : ℕ) (t : Str)
    → c < 0x80
    → escape_step (b'u' ∷ b'0' ∷ b'0' ∷ hex_digit (c / 16) ∷ hex_digit (c % 16) ∷ t)
      ≡ reads (c ∷ []) t
unfolding escape_step hex_digits rune_step append_rune
hex_step c t h =
    let high = hex_value-hex_digit (c / 16) (omega (arith, h)) in
    let low = hex_value-hex_digit (c % 16) (omega arith) in
    let whole : (0 + c / 16) * 16 + c % 16 ≡ c = omega arith in rw (high, low, whole) (ground arith)

-- The characters that are written as they are.
abbrev is_plain : ℕ → Bool
is_plain c =
    if c == b'"' || c == b'\\'
    then false
    else if ltb c 0x20 || c == b'<' || c == b'>' || c == b'&'
    then false
    else true

plain_text : (c : ℕ) → is_plain c ≡ true → escape_ascii c ≡ c ∷ []
unfolding escape_ascii
plain_text c h = ground arith

plain_step : (c : ℕ) (t : Str) → c < 0x80 → is_plain c ≡ true → char_step (c ∷ t) ≡ reads (c ∷ []) t
unfolding char_step
plain_step c t h p = ground arith

-- The characters with an escape of one letter.
abbrev is_short : ℕ → Bool
is_short c = c == b'"' || c == b'\\' || c == 8 || c == 12 || c == 10 || c == 13 || c == 9

short_cases :
    (c : ℕ)
    → is_short c ≡ true
    → (c ≡ b'"') ⊎ ((c ≡ b'\\') ⊎ ((c ≡ 8) ⊎ ((c ≡ 12) ⊎ ((c ≡ 10) ⊎ ((c ≡ 13) ⊎ (c ≡ 9))))))
short_cases c h = ground arith

short_step :
    (c : ℕ) (t : Str) → is_short c ≡ true → char_step (escape_ascii c ++ t) ≡ reads (c ∷ []) t
unfolding char_step escape_ascii escape_step
short_step c t h = elim (short_cases c h) [
  | inl e ↦ rw e refl
  | inr (inl e) ↦ rw e refl
  | inr (inr (inl e)) ↦ rw e refl
  | inr (inr (inr (inl e))) ↦ rw e refl
  | inr (inr (inr (inr (inl e)))) ↦ rw e refl
  | inr (inr (inr (inr (inr (inl e))))) ↦ rw e refl
  | inr (inr (inr (inr (inr (inr e))))) ↦ rw e refl
]

hex_text :
    (c : ℕ)
    → is_plain c ≡ false
    → is_short c ≡ false
    → escape_ascii c ≡ codes "\\u00" ++ (hex_digit (c / 16) ∷ hex_digit (c % 16) ∷ [])
unfolding escape_ascii
hex_text c p q = ground arith

pub ascii_step : (c : ℕ) (t : Str) → c < 0x80 → char_step (escape_ascii c ++ t) ≡ reads (c ∷ []) t
ascii_step c t h = elim (Bool-cases (is_plain c)) [
  | inl plain ↦ rw (plain_text c plain) (plain_step c t h plain)
  | inr special ↦ elim (Bool-cases (is_short c)) [
    | inl short ↦ short_step c t short
    | inr long ↦ rw (hex_text c special long) (unfold char_step in hex_step c t h)
  ]
]
