-- ===== src/Go/Url.antt =====
-- Go's net/url as far as the program uses it: the fields of url.URL that the code reads or writes,
-- and the package's two functions as an interface. The rest of the fields (RawPath, Opaque and the
-- flags of the query and the host) are carried in `remainder`, which only the package reads.
use grounded_search.Prelude.{Option}
use grounded_search.Go.Str.{Str}
use grounded_search.Go.Errors.{Outcome}

-- `user` is `some` where the URL has user information, even an empty one.
pub record Url : Type 0 where
  pub scheme : Str
  pub user : Option Str
  pub host : Str
  pub path : Str
  pub raw_query : Str
  pub fragment : Str
  pub remainder : Str

-- url.Parse and the String method of *url.URL.
pub record UrlPackage : Type 0 where
  pub parse : Str → Outcome Url
  pub to_string : Url → Str
