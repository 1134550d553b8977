-- ===== src/MlClient/Defs.antt =====
-- The client, its two constructors and the metadata that it returns.
use grounded_search.Prelude.{
  ℕ, ℤ, pos, not, ◌||◌, Option, none, some, [], if◌then◌else◌, int_ltb, ok, err, ◌^◌,
}
use grounded_search.Go.Str.{Str, codes, str_eq}
use grounded_search.Go.Strings.{trim_space, trim_right}
use grounded_search.Go.Errors.{message, wrap, Outcome}
use grounded_search.Go.Url.{Url, UrlPackage}
use grounded_search.Go.Http.{ClientRequest, ClientResponse}
use grounded_search.Config.Values.{is_http, has_user}

abbrev pub model_info_path : Str
model_info_path = codes "/v1/model/info"

abbrev pub max_response_body_size : ℕ
max_response_body_size = 2 ^ 20

abbrev pub request_id_header : Str
request_id_header = codes "X-Request-ID"

-- HTTPDoer.
abbrev pub HttpDoer : Type 0
HttpDoer = ClientRequest → Outcome ClientResponse

-- The client's HTTP implementation: a http.Client with a timeout, or one that is injected.
pub data Transport : Type 0 where
  standard : ℤ → Transport
  injected : HttpDoer → Transport

pub record Client : Type 0 where
  pub base_url : Url
  pub http_client : Transport

module _ (urls : UrlPackage) where
  unfoldable pub new : Str → ℤ → Outcome Client
  new base_url timeout =
      if not (int_ltb (pos 0) timeout)
      then err (message (codes "ML service timeout must be greater than zero"))
      else (elim (urls.parse (trim_space base_url)) [
        | err e ↦ err (wrap (codes "parse ML service URL: ") e [])
        | ok parsed ↦
            if not (is_http parsed)
            then err (message (codes "ML service URL scheme must be http or https"))
            else if str_eq parsed.host []
            then err (message (codes "ML service URL must include a host"))
            else if has_user parsed
            then err (message (codes "ML service URL must not include credentials"))
            else if not (str_eq parsed.raw_query []) || not (str_eq parsed.fragment [])
            then err (message (codes "ML service URL must not include a query or fragment"))
            else ok (record {
              base_url = record parsed { path = trim_right parsed.path b'/' };
              http_client = standard timeout;
            })
      ])

  -- `none` is a nil HTTPDoer.
  unfoldable pub new_with_http_client : Str → Option HttpDoer → Outcome Client
  new_with_http_client base_url none = err (message (codes "HTTP client is nil"))
  new_with_http_client base_url (some http_client) = elim (urls.parse (trim_space base_url)) [
    | err e ↦ err (wrap (codes "parse ML service URL: ") e [])
    | ok parsed ↦
        if not (is_http parsed)
        then err (message (codes "ML service URL scheme must be http or https"))
        else if str_eq parsed.host []
        then err (message (codes "ML service URL must include a host"))
        else if has_user parsed
        then err (message (codes "ML service URL must not include credentials"))
        else if not (str_eq parsed.raw_query []) || not (str_eq parsed.fragment [])
        then err (message (codes "ML service URL must not include a query or fragment"))
        else ok (record {
          base_url = record parsed { path = trim_right parsed.path b'/' };
          http_client = injected http_client;
        })
  ]
