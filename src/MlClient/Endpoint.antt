-- ===== src/MlClient/Endpoint.antt =====
-- What a call sends, and that it closes what it opens.
use grounded_search.Prelude.{ℤ, ◌≡◌, none, some, [], ◌∷◌, if◌then◌else◌, ok, err}
use grounded_search.Go.Str.{Str, codes, str_eq}
use grounded_search.Go.Errors.{Error, wrap}
use grounded_search.Go.Url.{UrlPackage}
use grounded_search.Go.Http.{ClientRequest, ClientResponse, method_get, new_request, header_find}
use grounded_search.MlClient.Defs.{Client, HttpDoer, request_id_header}
use grounded_search.MlClient.Fetch.{JsonPackage, Call, interpret, endpoint, do_request}

-- The request of a call with a request ID.
pub record IsInfoRequest (urls : UrlPackage) (client : Client) (id : Str) (request : ClientRequest)
    : Type 0 where
  pub bare : ClientRequest
  pub built : new_request urls method_get (urls.to_string (endpoint client)) ≡ ok bare
  pub method : request.method ≡ method_get
  pub url : request.url ≡ bare.url
  pub accept : header_find (codes "Accept") request.header ≡ some (codes "application/json")
  pub request_id :
      header_find request_id_header request.header ≡ (if str_eq id [] then none else some id)

module _ (urls : UrlPackage) (json : JsonPackage) (http_do : ℤ → HttpDoer) (client : Client)
    (id : Str) where
  -- A call sends nothing and fails, or sends one request and returns what the answer means.
  pub data Conduct (call : Call) : Type 0 where
    refused : (e : Error) → call ≡ record { sent = []; closed = 0; result = err e } → Conduct call
    unanswered :
        (request : ClientRequest) (e : Error)
        → IsInfoRequest urls client id request
        → do_request http_do client.http_client request ≡ err e
        → call.sent ≡ request ∷ []
        → call.closed ≡ 0
        → call.result ≡ err (wrap (codes "call ML service: ") e [])
        → Conduct call
    answered :
        (request : ClientRequest) (response : ClientResponse)
        → IsInfoRequest urls client id request
        → do_request http_do client.http_client request ≡ ok response
        → call.sent ≡ request ∷ []
        → call.closed ≡ 1
        → call.result ≡ interpret json response
        → Conduct call
