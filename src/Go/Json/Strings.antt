-- ===== src/Go/Json/Strings.antt =====
-- The strings of encoding/json: one pass does what its scanner and its function unquote do.
use grounded_search.Prelude.{
  ℕ, zero, suc, ◌+◌, ◌-◌, ◌*◌, ◌/◌, ◌%◌, ◌&&◌, ◌||◌, Option, none, some, [], ◌∷◌, ◌++◌, ◌==◌, ltb,
  leb, if◌then◌else◌, take, drop, ok, err, ◌>>=◌,
}
use grounded_search.Go.Str.{Str}
use grounded_search.Go.Json.{rune_width}
use grounded_search.Go.Json.Value.{Failure, truncated, syntax, Parsed}

-- U+FFFD, which stands for what is no character.
abbrev pub replacement : Str
replacement = 0xef ∷ 0xbf ∷ 0xbd ∷ []

-- utf8.AppendRune, for a character that is no surrogate.
unfoldable pub append_rune : ℕ → Str
append_rune r =
    if ltb r 0x80
    then r ∷ []
    else if ltb r 0x800
    then (0xc0 + r / 64) ∷ (0x80 + r % 64) ∷ []
    else if ltb r 0x10000
    then (0xe0 + r / 4096) ∷ (0x80 + r / 64 % 64) ∷ (0x80 + r % 64) ∷ []
    else (0xf0 + r / 262144) ∷ (0x80 + r / 4096 % 64) ∷ (0x80 + r / 64 % 64) ∷ (0x80 + r % 64) ∷ []

-- The value of a hexadecimal digit.
abbrev pub hex_value : ℕ → Option ℕ
hex_value c =
    if leb b'0' c && leb c b'9'
    then some (c - b'0')
    else if leb b'a' c && leb c b'f'
    then some (c - 87)
    else if leb b'A' c && leb c b'F'
    then some (c - 55)
    else none

-- What the next characters of a string are: its end, a character with its bytes, or an error.
pub data CharStep : Type 0 where
  closes : Str → CharStep
  reads : Str → Str → CharStep
  fails : Failure → CharStep

abbrev hex_more : Option ℕ → ℕ → Option ℕ
hex_more none n = none
hex_more (some d) n = some (n * 16 + d)

-- `count` hexadecimal digits.
unfoldable pub hex_digits : ℕ → ℕ → Str → Parsed (ℕ × Str)
hex_digits zero n s = ok (n, s)
hex_digits (suc count) n [] = err truncated
hex_digits (suc count) n (c ∷ s) = elim (hex_value c) [
  | none ↦ err syntax
  | some d ↦ hex_digits count (n * 16 + d) s
]

-- A second escape behind a surrogate.
unfoldable pub low_surrogate : Str → Option (ℕ × Str)
unfolding hex_digits
low_surrogate (a ∷ b ∷ s) =
    if a == b'\\' && b == b'u'
    then (elim (hex_digits 4 0 s) [
      | err e ↦ none
      | ok (low, rest) ↦ if leb 0xdc00 low && ltb low 0xe000 then some (low, rest) else none
    ])
    else none
low_surrogate _ = none

-- A pair of surrogates is one character, and any other surrogate none.
unfoldable pub rune_step : ℕ → Str → CharStep
unfolding append_rune low_surrogate
rune_step r s =
    if leb 0xd800 r && ltb r 0xe000
    then (elim (low_surrogate s) [
      | none ↦ reads replacement s
      | some (low, rest) ↦
          if ltb r 0xdc00
          then reads (append_rune ((r - 0xd800) * 1024 + (low - 0xdc00) + 0x10000)) rest
          else reads replacement s
    ])
    else reads (append_rune r) s

-- Behind a backslash.
unfoldable pub escape_step : Str → CharStep
unfolding rune_step
escape_step [] = fails truncated
escape_step (c ∷ s) =
    if c == b'"' || c == b'\\' || c == b'/'
    then reads (c ∷ []) s
    else if c == b'b'
    then reads (8 ∷ []) s
    else if c == b'f'
    then reads (12 ∷ []) s
    else if c == b'n'
    then reads (10 ∷ []) s
    else if c == b'r'
    then reads (13 ∷ []) s
    else if c == b't'
    then reads (9 ∷ []) s
    else if c == b'u'
    then (elim (hex_digits 4 0 s) [ err e ↦ fails e | ok (r, rest) ↦ rune_step r rest ])
    else fails syntax

-- A character outside ASCII, whose width is known.
abbrev pub wide_step : ℕ → Str → CharStep
wide_step zero s = reads replacement (drop 1 s)
wide_step (suc more) s = reads (take (suc more) s) (drop (suc more) s)

unfoldable pub char_step : Str → CharStep
unfolding escape_step rune_width
char_step [] = fails truncated
char_step (c ∷ s) =
    if c == b'"'
    then closes s
    else if c == b'\\'
    then escape_step s
    else if ltb c 0x20
    then fails syntax
    else if ltb c 0x80
    then reads (c ∷ []) s
    else wide_step (rune_width (c ∷ s)) (c ∷ s)

-- A string behind its opening quote: its bytes, and what follows it. A step takes a byte at least, so
-- the length of the input bounds the steps.
unfoldable pub string_body : ℕ → Str → Parsed (Str × Str)
unfolding char_step
string_body zero s = err truncated
string_body (suc fuel) s = elim (char_step s) [
  | closes rest ↦ ok ([], rest)
  | fails e ↦ err e
  | reads t rest ↦ string_body fuel rest >>= λ p. ok (t ++ p.0, p.1)
]
