-- ===== src/Go/Path.antt =====
-- URL paths as Go's ServeMux reads them: path.Clean with the trailing slash kept, and the segments of
-- an escaped path.
use grounded_search.Prelude.{
  ℕ, ◌+◌, ◌-◌, ◌*◌, Bool, true, false, ◌&&◌, ◌||◌, Option, none, some, List, [], ◌∷◌, ◌++◌, ◌==◌,
  leb, if◌then◌else◌, ◌≡◌, refl,
}
use grounded_search.Go.Str.{Str, str_eq, codes}

-- The pieces between the slashes.
unfoldable pub split_slash : Str → List Str
split_slash [] = [] ∷ []
split_slash (c ∷ s) =
    let rest = split_slash s in
    if c == b'/' then [] ∷ rest else (elim rest [ [] ↦ (c ∷ []) ∷ [] | p ∷ ps ↦ (c ∷ p) ∷ ps ])

-- The loop of path.Clean on a rooted path; the kept pieces have the last one first.
resolve : List Str → List Str → List Str
resolve kept [] = kept
resolve kept (p ∷ ps) =
    resolve
      (if str_eq p [] || str_eq p (codes ".")
        then kept
        else if str_eq p (codes "..")
        then (elim kept [ [] ↦ [] | _ ∷ ks ↦ ks ])
        else p ∷ kept)
      ps

rooted : List Str → Str → Str
rooted [] path = path
rooted (p ∷ kept) path = rooted kept (b'/' ∷ (p ++ path))

abbrev ends_in_slash : Str → Bool
ends_in_slash [] = false
ends_in_slash (c ∷ []) = c == b'/'
ends_in_slash (c ∷ d ∷ s) = ends_in_slash (d ∷ s)

abbrev starts_with_slash : Str → Bool
starts_with_slash [] = false
starts_with_slash (c ∷ s) = c == b'/'

-- http.cleanPath.
clean_rooted : Str → Str
unfolding split_slash resolve rooted
clean_rooted p = elim (rooted (resolve [] (split_slash p)) []) [
  | [] ↦ b'/' ∷ []
  | c ∷ np ↦ if ends_in_slash p then (c ∷ np) ++ (b'/' ∷ []) else c ∷ np
]

unfoldable pub clean_path : Str → Str
unfolding clean_rooted
clean_path p = if starts_with_slash p then clean_rooted p else clean_rooted (b'/' ∷ p)

abbrev hex_value : ℕ → Option ℕ
hex_value c =
    if leb b'0' c && leb c b'9'
    then some (c - b'0')
    else if leb b'a' c && leb c b'f'
    then some (c - 87)
    else if leb b'A' c && leb c b'F'
    then some (c - 55)
    else none

abbrev hex_pair : ℕ → ℕ → Option ℕ
hex_pair a b = elim (hex_value a) [
  | none ↦ none
  | some high ↦ (elim (hex_value b) [ none ↦ none | some low ↦ some (high * 16 + low) ])
]

abbrev prepend : ℕ → Option Str → Option Str
prepend c none = none
prepend c (some s) = some (c ∷ s)

-- url.PathUnescape.
unescape : Str → Option Str
unescape [] = some []
unescape (c ∷ []) = if c == b'%' then none else some (c ∷ [])
unescape (c ∷ a ∷ []) = if c == b'%' then none else prepend c (unescape (a ∷ []))
unescape (c ∷ a ∷ b ∷ s) = elim (c == b'%') [
  | true ↦ elim (hex_pair a b) [ none ↦ none | some d ↦ prepend d (unescape s) ]
  | false ↦ prepend c (unescape (a ∷ b ∷ s))
]

-- A segment that does not unescape is taken as it is.
abbrev unescape_segment : Str → Str
unescape_segment s = elim (unescape s) [ none ↦ s | some u ↦ u ]

-- The segments that the routing tree compares: the pieces of a path behind its first slash, unescaped;
-- a slash at the end is a segment of its own.
segments_of : List Str → List Str
unfolding unescape
segments_of [] = []
segments_of (p ∷ []) = if str_eq p [] then codes "/" ∷ [] else unescape_segment p ∷ []
segments_of (p ∷ q ∷ ps) = unescape_segment p ∷ segments_of (q ∷ ps)

unfoldable pub segments : Str → List Str
unfolding split_slash segments_of
segments [] = []
segments (c ∷ path) = segments_of (split_slash path)

clean_test : clean_path (codes "/a/./b//../c/") ≡ codes "/a/c/"
unfolding clean_path str_eq
clean_test = refl

segments_test : segments (codes "/v1/%73ystem/") ≡ codes "v1" ∷ codes "system" ∷ codes "/" ∷ []
unfolding segments str_eq
segments_test = refl
