-- ===== src/MlClient/Fetch.antt =====
-- The method `ModelInfo`: the request, the bounded read, the decoding and the order of the checks.
use grounded_search.Prelude.{
  ℕ, ℤ, ◌+◌, not, Option, none, some, List, [], ◌∷◌, ◌++◌, ◌==◌, ltb, leb, length, take,
  if◌then◌else◌, ok, err, ◌>>=◌,
}
use grounded_search.Go.Str.{Str, codes, str_eq}
use grounded_search.Go.Strconv.{format_nat}
use grounded_search.Go.Errors.{
  Error, sentinel, invalid_response, unexpected_status, eof, wrap, wrap_shown, is, Outcome,
}
use grounded_search.Go.Url.{Url, UrlPackage}
use grounded_search.Go.Http.{
  ClientRequest, ClientResponse, Reader, header_set, method_get, new_request,
}
use grounded_search.MlClient.Defs.{
  Client, HttpDoer, Transport, standard, injected, model_info_path, max_response_body_size,
  request_id_header,
}
use grounded_search.MlClient.Info.{ModelInfo, invalid, validate_model_info}

-- encoding/json with DisallowUnknownFields: a call of Decode reads one value from the front of the
-- input, and leaves the rest of it.
pub record JsonPackage : Type 0 where
  pub decode_info : Str → Outcome (ModelInfo × Str)
  pub decode_any : Str → Outcome Str

-- io.LimitReader: the end of the file comes behind `n` bytes.
unfoldable pub limit_reader : Reader → ℕ → Reader
limit_reader r n =
    if leb n (length r.bytes) then record { bytes = take n r.bytes; failure = none } else r

-- io.ReadAll.
unfoldable pub read_all : Reader → Outcome Str
read_all r = elim r.failure [ none ↦ ok r.bytes | some e ↦ err e ]

abbrev pub too_large : ℕ → Error
too_large limit = invalid (codes ": response body exceeds " ++ (format_nat limit ++ codes " bytes"))

-- The body of readBoundedBody, for any limit.
unfoldable pub read_within : ℕ → Reader → Outcome Str
unfolding limit_reader read_all
read_within limit reader = elim (read_all (limit_reader reader (limit + 1))) [
  | err e ↦ err (wrap (codes "read ML service response: ") e [])
  | ok body ↦ if ltb limit (length body) then err (too_large limit) else ok body
]

unfoldable pub read_bounded_body : Reader → Outcome Str
unfolding read_within
read_bounded_body reader = read_within max_response_body_size reader

unfoldable pub ensure_single_json_value : JsonPackage → Str → Option Error
ensure_single_json_value json rest = elim (json.decode_any rest) [
  | ok more ↦ some (invalid (codes ": response contains multiple JSON values"))
  | err e ↦
      if is e eof
      then none
      else some (wrap_shown (sentinel invalid_response) (codes ": trailing response data: ") e)
]

-- A nil error lets the computation go on with `a`.
unfoldable pub unless_error {ℓ} : {A : Type ℓ} → Option Error → A → Outcome A
unless_error none a = ok a
unless_error (some e) a = err e

-- The checks behind the read of the body.
unfoldable pub decode_body : JsonPackage → Str → Outcome ModelInfo
unfolding ensure_single_json_value unless_error
decode_body json body = elim (json.decode_info body) [
  | err e ↦ err (wrap_shown (sentinel invalid_response) (codes ": decode JSON: ") e)
  | ok (info, rest) ↦ unless_error (ensure_single_json_value json rest) info >>= λ checked.
      unless_error (validate_model_info checked) checked
]

unfoldable pub interpret : JsonPackage → ClientResponse → Outcome ModelInfo
unfolding decode_body
interpret json response = elim (read_bounded_body response.body) [
  | err e ↦ err e
  | ok body ↦
      if not (response.status_code == 200)
      then err (
          wrap [] (sentinel unexpected_status)
            (codes ": status " ++ format_nat response.status_code))
      else decode_body json body
]

-- What a call does: the requests that it sends, how many bodies it closes, and what it returns.
pub record Call : Type 0 where
  pub sent : List ClientRequest
  pub closed : ℕ
  pub result : Outcome ModelInfo

-- `endpoint.Path += modelInfoPath` on a copy of the base URL.
unfoldable pub endpoint : Client → Url
endpoint client = let base = client.base_url in record base { path = base.path ++ model_info_path }

unfoldable pub with_headers : Str → ClientRequest → ClientRequest
with_headers request_id request = record request {
  header = header_set (codes "Accept") (codes "application/json") (
      if str_eq request_id []
      then request.header
      else header_set request_id_header request_id request.header);
}

-- `client.httpClient.Do`; `http_do` is that of a http.Client with the given timeout.
unfoldable pub do_request : (ℤ → HttpDoer) → Transport → HttpDoer
do_request http_do (standard timeout) = http_do timeout
do_request http_do (injected doer) = doer

module _ (urls : UrlPackage) (json : JsonPackage) (http_do : ℤ → HttpDoer) where
  unfoldable pub model_info : Client → Str → Call
  unfolding endpoint with_headers do_request
  model_info client request_id =
      elim (new_request urls method_get (urls.to_string (endpoint client))) [
        | err e ↦ record {
          sent = [];
          closed = 0;
          result = err (wrap (codes "create model info request: ") e []);
        }
        | ok bare ↦
            let request = with_headers request_id bare in
            elim (do_request http_do client.http_client request) [
              | err e ↦ record {
                sent = request ∷ [];
                closed = 0;
                result = err (wrap (codes "call ML service: ") e []);
              }
              | ok response ↦ record {
                sent = request ∷ [];
                closed = 1;
                result = interpret json response;
              }
            ]
      ]
