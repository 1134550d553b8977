-- ===== src/Go/Json/RoundTrip/Whole.antt =====
-- A call of Decode on an encoded value, and the strings that are kept as they are.
use grounded_search.Prelude.{
  ℕ, zero, suc, ◌+◌, ◌*◌, ◌≤◌, ◌≡◌, refl, arith, Bool, true, false, [], ◌∷◌, ◌++◌, ◌==◌, ltb,
  length, length-append, ok, err, some, ap, take, drop, Bool-cases, inl, inr, ℕ-cases,
}
use grounded_search.Go.Str.{Str}
use grounded_search.Go.Json.{Json, encode, rune_width}
use grounded_search.Go.Json.Value.{Value, truncated}
use grounded_search.Go.Json.Chars.{coerce_front}
use grounded_search.Go.Json.Parser.{skip_space, begin_value, parse_value, parse, parsed_first}
use grounded_search.Go.Json.Quotes.{to_valid, coerce_from}
use grounded_search.Go.Json.Numbers.{ends_number}
use grounded_search.Go.Json.RoundTrip.{value_of, height}
use grounded_search.Go.Json.RoundTrip.Objects.{encode-ReadsBack}

value_of_space :
    (s : Str) (f depth : ℕ) → skip_space s ≡ [] → parse_value (suc f) depth s ≡ err truncated
unfolding parse_value begin_value
value_of_space s f depth h = rw (parse_value, h) refl

parsed_of_first :
    (s t : Str) (f : ℕ) {v : Value} {rest : Str}
    → skip_space s ≡ t
    → 2 * length s + 2 ≡ suc f
    → parse_value (suc f) 0 s ≡ ok (v, rest)
    → parsed_first s t ≡ some (ok (v, rest))
parsed_of_first s [] f h e p = absurd (cc (value_of_space s f 0 h, p))
parsed_of_first s (c ∷ t) f h e p = rw e (ap some p)

pub parse_of_value :
    (s : Str) {v : Value} {rest : Str}
    → parse_value (suc (2 * length s + 1)) 0 s ≡ ok (v, rest)
    → parse s ≡ some (ok (v, rest))
unfolding parse
parse_of_value s p = parsed_of_first s (skip_space s) (2 * length s + 1) refl (omega arith) p

-- An encoded value is read back, in front of a text that ends a number, where its objects do not stand
-- too deep inside each other.
pub parse-encode :
    (j : Json) (rest : Str)
    → ends_number rest ≡ true
    → height j ≤ 10000
    → parse (encode j ++ rest) ≡ some (ok (value_of j, rest))
parse-encode j rest e h =
    let size = length-append (encode j) rest in
    parse_of_value (encode j ++ rest) (
      encode-ReadsBack j rest 0 (suc (2 * length (encode j ++ rest) + 1)) e (omega arith)
        (omega arith))

-- utf8.Valid, behind `skip` bytes of a character.
valid_from : ℕ → Str → Bool
unfolding rune_width
valid_from skip [] = skip == 0
valid_from (suc skip) (c ∷ s) = valid_from skip s
valid_from zero (c ∷ s) = elim (ltb c 0x80) [
  | true ↦ valid_from 0 s
  | false ↦ elim (rune_width (c ∷ s)) [ zero ↦ false | suc more ↦ valid_from more s ]
]

unfoldable pub valid_utf8 : Str → Bool
unfolding valid_from
valid_utf8 s = valid_from 0 s

take-drop : (n : ℕ) (s : Str) → take n s ++ drop n s ≡ s
take-drop zero s = refl
take-drop (suc n) [] = refl
take-drop (suc n) (c ∷ s) = ap (λ t. c ∷ t) (take-drop n s)

coerce_from-valid :
    (skip : ℕ) (s : Str) → valid_from skip s ≡ true → coerce_from skip s ≡ drop skip s
unfolding valid_from coerce_from coerce_front
coerce_from-valid zero [] h = refl
coerce_from-valid (suc skip) [] h = refl
coerce_from-valid (suc skip) (c ∷ s) h = coerce_from-valid skip s h
coerce_from-valid zero (c ∷ s) h = elim (Bool-cases (ltb c 0x80)) [
  | inl ascii ↦ let later = coerce_from-valid 0 s (ground arith) in rw (ascii, later) refl
  | inr wide ↦ elim (ℕ-cases (rune_width (c ∷ s))) [
    | inl none_fits ↦ absurd (ground arith)
    | inr (more, width) ↦
        let later = coerce_from-valid more s (ground arith) in
        rw (wide, width, later) (ap (λ t. c ∷ t) (take-drop more s))
  ]
]

-- A valid string is kept.
pub to_valid-valid : (s : Str) → valid_utf8 s ≡ true → to_valid s ≡ s
unfolding valid_utf8 to_valid
to_valid-valid s h = coerce_from-valid 0 s h
