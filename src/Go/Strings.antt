-- ===== src/Go/Strings.antt =====
-- Go's package strings: TrimSpace and TrimRight over the bytes of a UTF-8 string, and the searches
-- that the program uses.
pub mod Trim
pub mod Visible
pub mod Prefix
use mathlib.Core.List.{reverse}
use grounded_search.Prelude.{
  ℕ, zero, suc, Bool, true, false, ◌&&◌, ◌||◌, Option, none, some, List, [], ◌∷◌, ◌++◌, ◌==◌, leb,
  ◌-◌, if◌then◌else◌,
}
use grounded_search.Go.Str.{Str, str_eq}

abbrev pub is_ascii_space : ℕ → Bool
is_ascii_space a = (leb 9 a && leb a 13) || a == 32

-- U+0085 and U+00A0.
abbrev pub is_space2 : ℕ → ℕ → Bool
is_space2 a b = a == 0xc2 && (b == 0x85 || b == 0xa0)

-- U+1680, U+2000 to U+200A, U+2028, U+2029, U+202F, U+205F and U+3000.
abbrev pub is_space3 : ℕ → ℕ → ℕ → Bool
is_space3 a b c =
    (a == 0xe1 && b == 0x9a && c == 0x80)
    || (a == 0xe2 && b == 0x80 && (leb 0x80 c && leb c 0x8a || c == 0xa8 || c == 0xa9 || c == 0xaf))
    || (a == 0xe2 && b == 0x81 && c == 0x9f)
    || (a == 0xe3 && b == 0x80 && c == 0x80)

-- The number of bytes of the white space character (unicode.IsSpace) that a string begins with; 0
-- where it begins with none.
pub space_width : Str → ℕ
space_width [] = 0
space_width (a ∷ []) = if is_ascii_space a then 1 else 0
space_width (a ∷ b ∷ []) = if is_ascii_space a then 1 else if is_space2 a b then 2 else 0
space_width (a ∷ b ∷ c ∷ s) =
    if is_ascii_space a then 1 else if is_space2 a b then 2 else if is_space3 a b c then 3 else 0

-- The same for the character that a reversed string begins with.
pub space_width_back : Str → ℕ
space_width_back [] = 0
space_width_back (a ∷ []) = if is_ascii_space a then 1 else 0
space_width_back (b ∷ a ∷ []) = if is_ascii_space b then 1 else if is_space2 a b then 2 else 0
space_width_back (c ∷ b ∷ a ∷ s) =
    if is_ascii_space c then 1 else if is_space2 b c then 2 else if is_space3 a b c then 3 else 0

-- Drops `k` bytes, then characters as long as `width` finds one.
pub trim_from : (Str → ℕ) → ℕ → Str → Str
trim_from width k [] = []
trim_from width (suc k) (a ∷ s) = trim_from width k s
trim_from width zero (a ∷ s) = elim (width (a ∷ s)) [ zero ↦ a ∷ s | suc w ↦ trim_from width w s ]

pub trim_left : Str → Str
unfolding trim_from space_width
trim_left s = trim_from space_width 0 s

pub trim_right_space : Str → Str
unfolding trim_from space_width_back
trim_right_space s = reverse (trim_from space_width_back 0 (reverse s))

unfoldable pub trim_space : Str → Str
unfolding trim_left trim_right_space
trim_space s = trim_right_space (trim_left s)

-- strings.TrimRight with a cutset of one byte.
drop_byte : ℕ → Str → Str
drop_byte c [] = []
drop_byte c (a ∷ s) = if a == c then drop_byte c s else a ∷ s

unfoldable pub trim_right : Str → ℕ → Str
unfolding drop_byte
trim_right s c = reverse (drop_byte c (reverse s))

unfoldable pub contains_byte : Str → ℕ → Bool
contains_byte [] c = false
contains_byte (a ∷ s) c = a == c || contains_byte s c

unfoldable pub has_prefix : Str → Str → Bool
has_prefix s [] = true
has_prefix [] (p ∷ ps) = false
has_prefix (a ∷ s) (p ∷ ps) = a == p && has_prefix s ps

-- strings.ContainsAny with a cutset of ASCII bytes.
unfoldable pub contains_any : Str → Str → Bool
unfolding contains_byte
contains_any [] cutset = false
contains_any (a ∷ s) cutset = contains_byte cutset a || contains_any s cutset

unfoldable pub to_upper_byte : ℕ → ℕ
to_upper_byte c = if leb b'a' c && leb c b'z' then c - 32 else c

-- U+0131 and U+017F are the two characters outside ASCII whose upper case is in ASCII.
unfoldable pub upper_of_two : ℕ → ℕ → Option ℕ
upper_of_two a b =
    if a == 0xc4 && b == 0xb1 then some b'I' else if a == 0xc5 && b == 0xbf then some b'S' else none

-- strings.ToUpper as far as its ASCII bytes go: other characters outside ASCII stay as they are.
unfoldable pub to_upper : Str → Str
unfolding to_upper_byte upper_of_two
to_upper [] = []
to_upper (a ∷ []) = to_upper_byte a ∷ []
to_upper (a ∷ b ∷ s) = elim (upper_of_two a b) [
  | some u ↦ u ∷ to_upper s
  | none ↦ to_upper_byte a ∷ to_upper (b ∷ s)
]

-- strings.Join.
unfoldable pub join : List Str → Str → Str
join [] sep = []
join (s ∷ []) sep = s
join (s ∷ t ∷ ss) sep = s ++ (sep ++ join (t ∷ ss) sep)
