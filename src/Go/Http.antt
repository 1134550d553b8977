-- ===== src/Go/Http.antt =====
-- Go's net/http as far as the program uses it: header maps, the requests of a client and what a
-- client returns.
pub mod HeaderLaws
use grounded_search.Prelude.{
  ℕ, ◌-◌, ◌+◌, Bool, true, false, ◌&&◌, ◌||◌, Option, none, some, List, [], ◌∷◌, ◌==◌, leb,
  if◌then◌else◌, ◌≡◌, refl, ok, ◌>>=◌, arith,
}
use grounded_search.Go.Str.{Str, str_eq, str_eq_iff, str_eq_refl, codes}
use grounded_search.Go.Strings.{to_upper_byte}
use grounded_search.Go.Errors.{Error, Outcome}
use grounded_search.Go.Url.{Url, UrlPackage}

unfoldable pub to_lower_byte : ℕ → ℕ
to_lower_byte c = if leb b'A' c && leb c b'Z' then c + 32 else c

-- http.CanonicalHeaderKey on a valid header name; `upper` is true at the start and after a dash.
unfoldable pub canonical_from : Bool → Str → Str
unfolding to_upper_byte to_lower_byte
canonical_from upper [] = []
canonical_from upper (c ∷ s) =
    (if upper then to_upper_byte c else to_lower_byte c) ∷ canonical_from (c == b'-') s

abbrev pub canonical_key : Str → Str
canonical_key name = canonical_from true name

-- A header map with one value for each name.
abbrev pub Header : Type 0
Header = List (Str × Str)

unfoldable pub find_key : Str → Header → Option Str
find_key key [] = none
find_key key ((k, v) ∷ h) = if str_eq k key then some v else find_key key h

unfoldable pub put_key : Str → Str → Header → Header
put_key key value [] = (key, value) ∷ []
put_key key value ((k, v) ∷ h) =
    if str_eq k key then (key, value) ∷ h else (k, v) ∷ put_key key value h

-- Header.Set and the value that is set, if any; Header.Get gives the empty string where none is.
unfoldable pub header_set : Str → Str → Header → Header
unfolding put_key canonical_from
header_set name value h = put_key (canonical_key name) value h

unfoldable pub header_find : Str → Header → Option Str
unfolding find_key canonical_from
header_find name h = find_key (canonical_key name) h

abbrev pub value_or_empty : Option Str → Str
value_or_empty none = []
value_or_empty (some v) = v

unfoldable pub header_get : Str → Header → Str
unfolding header_find
header_get name h = value_or_empty (header_find name h)

-- The methods of http.Method*.
abbrev pub method_get : Str
method_get = codes "GET"

-- A request of a client.
pub record ClientRequest : Type 0 where
  pub method : Str
  pub url : Url
  pub header : Header

-- A stream: its bytes, then the end of the file or an error, which comes with a later read.
pub record Reader : Type 0 where
  pub bytes : Str
  pub failure : Option Error

pub record ClientResponse : Type 0 where
  pub status_code : ℕ
  pub body : Reader

-- A host that ends in a colon with no port loses the colon.
unfoldable pub remove_empty_port : Str → Str
remove_empty_port [] = []
remove_empty_port (c ∷ []) = if c == b':' then [] else c ∷ []
remove_empty_port (c ∷ d ∷ s) = c ∷ remove_empty_port (d ∷ s)

-- http.NewRequestWithContext for a valid method and no body.
unfoldable pub new_request : UrlPackage → Str → Str → Outcome ClientRequest
unfolding remove_empty_port
new_request urls method url = do
  u ← urls.parse url
  ok (record { method = method; url = record u { host = remove_empty_port u.host }; header = [] })
