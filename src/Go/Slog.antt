-- ===== src/Go/Slog.antt =====
-- Go's slog.Level and its UnmarshalText: a level name with an optional offset, such as "warn-2".
pub mod Bounds
use grounded_search.Prelude.{
  ℤ, pos, negsuc, ◌||◌, [], ◌∷◌, ◌==◌, if◌then◌else◌, ok, err, ◌>>=◌, ◌≡◌, refl, add_int64,
}
use grounded_search.Go.Str.{Str, codes, str_eq}
use grounded_search.Go.Strings.{to_upper}
use grounded_search.Go.Strconv.{atoi}
use grounded_search.Go.Errors.{sentinel, message, quoted_wrap, Outcome}

-- slog.Level is an int.
abbrev pub Level : Type 0
Level = ℤ

abbrev pub level_info : Level
level_info = pos 0

abbrev pub level_error : Level
level_error = pos 8

-- The name before the first sign, and the rest from that sign.
unfoldable pub cut_at_sign : Str → Str × Str
cut_at_sign [] = ([], [])
cut_at_sign (c ∷ s) =
    if c == b'+' || c == b'-'
    then ([], c ∷ s)
    else let (name, offset) = cut_at_sign s in (c ∷ name, offset)

unfoldable pub named_level : Str → Outcome Level
named_level name =
    if str_eq name (codes "DEBUG")
    then ok (negsuc 3)
    else if str_eq name (codes "INFO")
    then ok level_info
    else if str_eq name (codes "WARN")
    then ok (pos 4)
    else if str_eq name (codes "ERROR")
    then ok (pos 8)
    else err (message (codes "unknown name"))

unfoldable pub level_offset : Str → Outcome ℤ
level_offset [] = ok (pos 0)
level_offset (c ∷ s) = elim (atoi (c ∷ s)) [ ok n ↦ ok n | err e ↦ err (sentinel e) ]

level_of_text : Str → Outcome Level
unfolding cut_at_sign named_level level_offset
level_of_text s =
    let (name, offset) = cut_at_sign s in
    do n ← level_offset offset; level ← named_level (to_upper name); ok (add_int64 level n)

unfoldable pub unmarshal_level : Str → Outcome Level
unfolding level_of_text
unmarshal_level s = elim (level_of_text s) [
  | ok level ↦ ok level
  | err e ↦ err (quoted_wrap (codes "slog: level string ") s (codes ": ") e)
]

warn_minus_two : unmarshal_level (codes "warn-2") ≡ ok (pos 2)
unfolding unmarshal_level to_upper atoi str_eq add_int64
warn_minus_two = refl
