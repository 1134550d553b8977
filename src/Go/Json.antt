-- ===== src/Go/Json.antt =====
-- Go's encoding/json as far as the responses of the program need it: values, and their text as an
-- Encoder with SetEscapeHTML(true) writes it.
mod Tests
pub mod Value
pub mod Strings
pub mod Parser
pub mod Lengths
pub mod Shorter
pub mod Begins
pub mod Fuel
pub mod Chars
pub mod Runes
pub mod Quotes
pub mod Numbers
pub mod RoundTrip
use grounded_search.Prelude.{
  ℕ, zero, suc, ◌+◌, ◌/◌, ◌%◌, ℤ, Bool, true, false, ◌&&◌, ◌||◌, Option, none, some, List, [], ◌∷◌,
  ◌++◌, ◌==◌, ltb, leb, if◌then◌else◌, take,
}
use grounded_search.Go.Str.{Str, codes}
use grounded_search.Go.Strconv.{itoa}

mutual
  pub data Json : Type 0 where
    null : Json
    int : ℤ → Json
    str : Str → Json
    obj : Fields → Json

  pub data Fields : Type 0 where
    end : Fields
    field : Str → Json → Fields → Fields

-- A string pointer.
abbrev pub nullable : Option Str → Json
nullable none = null
nullable (some s) = str s

abbrev pub is_continuation : ℕ → Bool
is_continuation b = leb 0x80 b && leb b 0xbf

-- The bytes that may follow the first byte of a character of three or four bytes.
abbrev pub second_ok : ℕ → ℕ → Bool
second_ok a b =
    if a == 0xe0
    then leb 0xa0 b && leb b 0xbf
    else if a == 0xed
    then leb 0x80 b && leb b 0x9f
    else if a == 0xf0
    then leb 0x90 b && leb b 0xbf
    else if a == 0xf4
    then leb 0x80 b && leb b 0x8f
    else is_continuation b

-- The number of bytes of the character outside ASCII that a string begins with; 0 where its first
-- byte begins no valid one (unicode/utf8).
unfoldable pub rune_width : Str → ℕ
rune_width [] = 0
rune_width (a ∷ []) = 0
rune_width (a ∷ b ∷ []) = if leb 0xc2 a && leb a 0xdf && is_continuation b then 2 else 0
rune_width (a ∷ b ∷ c ∷ []) =
    if leb 0xc2 a && leb a 0xdf && is_continuation b
    then 2
    else if leb 0xe0 a && leb a 0xef && second_ok a b && is_continuation c
    then 3
    else 0
rune_width (a ∷ b ∷ c ∷ d ∷ s) =
    if leb 0xc2 a && leb a 0xdf && is_continuation b
    then 2
    else if leb 0xe0 a && leb a 0xef && second_ok a b && is_continuation c
    then 3
    else if leb 0xf0 a && leb a 0xf4 && second_ok a b && is_continuation c && is_continuation d
    then 4
    else 0

abbrev pub hex_digit : ℕ → ℕ
hex_digit n = if ltb n 10 then b'0' + n else 87 + n

abbrev pub escaped : ℕ → Str
escaped c = b'\\' ∷ c ∷ []

-- One ASCII character inside a JSON string.
unfoldable pub escape_ascii : ℕ → Str
escape_ascii c =
    if c == b'"' || c == b'\\'
    then escaped c
    else if c == 8
    then escaped b'b'
    else if c == 12
    then escaped b'f'
    else if c == 10
    then escaped b'n'
    else if c == 13
    then escaped b'r'
    else if c == 9
    then escaped b't'
    else if ltb c 0x20 || c == b'<' || c == b'>' || c == b'&'
    then codes "\\u00" ++ (hex_digit (c / 16) ∷ hex_digit (c % 16) ∷ [])
    else c ∷ []

-- U+2028 and U+2029 begin with these two bytes.
abbrev pub is_separator : Str → Bool
is_separator (a ∷ b ∷ c ∷ s) = a == 0xe2 && b == 0x80 && (c == 0xa8 || c == 0xa9)
is_separator _ = false

abbrev pub separator_text : Str → Str
separator_text (a ∷ b ∷ c ∷ s) = codes "\\u202" ++ ((b'8' + (c % 2)) ∷ [])
separator_text _ = []

-- What is written for the character at the front of a string, and how many bytes it has behind the
-- first.
unfoldable pub escape_front : Str → Str × ℕ
unfolding rune_width escape_ascii
escape_front [] = ([], 0)
escape_front (c ∷ s) =
    if ltb c 0x80
    then (escape_ascii c, 0)
    else if is_separator (c ∷ s)
    then (separator_text (c ∷ s), 2)
    else (elim (rune_width (c ∷ s)) [
      | zero ↦ (codes "\\ufffd", 0)
      | suc more ↦ (take (suc more) (c ∷ s), more)
    ])

unfoldable pub escape_from : ℕ → Str → Str
unfolding escape_front
escape_from skip [] = []
escape_from (suc skip) (c ∷ s) = escape_from skip s
escape_from zero (c ∷ s) = let (text, more) = escape_front (c ∷ s) in text ++ escape_from more s

unfoldable pub quote : Str → Str
unfolding escape_from
quote s = b'"' ∷ (escape_from 0 s ++ (b'"' ∷ []))

unfoldable mutual
  unfolding quote

  pub encode : Json → Str
  encode null = codes "null"
  encode (int n) = itoa n
  encode (str s) = quote s
  encode (obj fs) = b'{' ∷ (encode_fields fs ++ (b'}' ∷ []))

  pub encode_fields : Fields → Str
  encode_fields end = []
  encode_fields (field name v fs) = quote name ++ (b':' ∷ (encode v ++ encode_more fs))

  pub encode_more : Fields → Str
  encode_more end = []
  encode_more (field name v fs) = b',' ∷ (quote name ++ (b':' ∷ (encode v ++ encode_more fs)))
