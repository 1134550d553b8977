-- ===== src/HttpApi/Exchange/Follows.antt =====
-- Each route handler, behind the recorder, follows its course.
use grounded_search.Prelude.{◌≡◌, refl, false, none, some, List, ◌++◌, if◌then◌else◌, ◌==◌, ◌∙◌}
use grounded_search.Go.Str.{Str, codes, str_eq}
use grounded_search.Go.Http.{Header, header_find, method_get, canonical_key, canonical_from}
use grounded_search.Go.Http.HeaderLaws.{header_find-header_set_self, header_find-header_set_ne}
use grounded_search.HttpApi.State.{State, Step, returned, panicked}
use grounded_search.HttpApi.Handlers.{json_type}
use grounded_search.HttpApi.Middleware.{request_id_header}
use grounded_search.HttpApi.Exchange.Reply.{Reply, Course, replies, breaks}
use grounded_search.HttpApi.Exchange.Writes.{json_headers, json_text}

-- The headers of an answer to a request whose ID stands in `before`.
pub record JsonHeaders (before headers : Header) : Type 0 where
  pub content_type : header_find (codes "Content-Type") headers ≡ some json_type
  pub cache_control : header_find (codes "Cache-Control") headers ≡ some (codes "no-store")
  pub request_id : header_find request_id_header headers ≡ header_find request_id_header before

-- What an exchange holds once a reply went out.
pub record Replied (s t : State) (r : Reply) : Type 0 where
  pub headers : Header
  pub sent : t.sent ≡ some (r.code, headers)
  pub json : JsonHeaders s.header headers
  pub allow :
      header_find (codes "Allow") headers
      ≡ (if r.code == 405 then some method_get else header_find (codes "Allow") s.header)
  pub body : t.body ≡ s.body ++ json_text r.payload
  pub log : t.log ≡ s.log ++ r.notes
  pub asked : t.asked ≡ s.asked ++ r.asked
  pub counter : t.counter ≡ s.counter

-- What it holds where the handler panicked before anything went out.
pub record Stopped (s t : State) (asked : List Str) : Type 0 where
  pub header : t.header ≡ s.header
  pub sent : t.sent ≡ none
  pub body : t.body ≡ s.body
  pub log : t.log ≡ s.log
  pub asked_for : t.asked ≡ s.asked ++ asked
  pub counter : t.counter ≡ s.counter

pub data Follows (s : State) (c : Course) (result : Step (Unit {0})) : Type 0 where
  answers :
      (r : Reply) (t : State)
      → c ≡ replies r
      → result ≡ returned tt t
      → Replied s t r
      → t.recorder.status ≡ r.code
      → Follows s c result
  stops :
      (p : Str) (asked : List Str) (t : State)
      → c ≡ breaks p asked
      → result ≡ panicked p t
      → Stopped s t asked
      → Follows s c result

cache_is_other_id :
    str_eq (canonical_key (codes "Cache-Control")) (canonical_key request_id_header) ≡ false
unfolding str_eq canonical_from
cache_is_other_id = refl

type_is_other_id :
    str_eq (canonical_key (codes "Content-Type")) (canonical_key request_id_header) ≡ false
unfolding str_eq canonical_from
type_is_other_id = refl

cache_is_other_type :
    str_eq (canonical_key (codes "Cache-Control")) (canonical_key (codes "Content-Type")) ≡ false
unfolding str_eq canonical_from
cache_is_other_type = refl

cache_is_other_allow :
    str_eq (canonical_key (codes "Cache-Control")) (canonical_key (codes "Allow")) ≡ false
unfolding str_eq canonical_from
cache_is_other_allow = refl

type_is_other_allow :
    str_eq (canonical_key (codes "Content-Type")) (canonical_key (codes "Allow")) ≡ false
unfolding str_eq canonical_from
type_is_other_allow = refl

pub allow_is_other_id :
    str_eq (canonical_key (codes "Allow")) (canonical_key request_id_header) ≡ false
unfolding str_eq canonical_from
allow_is_other_id = refl

pub json_headers-JsonHeaders : (h : Header) → JsonHeaders h (json_headers h)
json_headers-JsonHeaders h = record {
  content_type =
      header_find-header_set_ne (codes "Content-Type") (codes "Cache-Control") _ _
        cache_is_other_type
      ∙ header_find-header_set_self (codes "Content-Type") json_type h;
  cache_control = header_find-header_set_self (codes "Cache-Control") (codes "no-store") _;
  request_id =
      header_find-header_set_ne request_id_header (codes "Cache-Control") _ _ cache_is_other_id
      ∙ header_find-header_set_ne request_id_header (codes "Content-Type") _ _ type_is_other_id;
}

pub json_headers-allow :
    (h : Header) → header_find (codes "Allow") (json_headers h) ≡ header_find (codes "Allow") h
json_headers-allow h =
    header_find-header_set_ne (codes "Allow") (codes "Cache-Control") _ _ cache_is_other_allow
    ∙ header_find-header_set_ne (codes "Allow") (codes "Content-Type") _ _ type_is_other_allow
