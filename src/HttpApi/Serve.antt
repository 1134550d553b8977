-- ===== src/HttpApi/Serve.antt =====
-- `NewHandler`: the routes and the chain of middleware around them.
use grounded_search.Prelude.{ℤ, Bool, true, false, not, ◌&&◌, Option, List, [], ◌∷◌, if◌then◌else◌}
use grounded_search.Go.Str.{Str, codes, str_eq}
use grounded_search.Go.Strings.{trim_space}
use grounded_search.Go.Http.{method_get}
use grounded_search.Go.Path.{clean_path, segments}
use grounded_search.HttpApi.State.{Request, Handler}
use grounded_search.HttpApi.RequestId.{Entropy}
use grounded_search.HttpApi.Dependency.{Provider}
use grounded_search.HttpApi.Handlers.{Service, health, ready, system_status, not_found}
use grounded_search.HttpApi.Middleware.{
  require_method, access_log_middleware, recovery_middleware, request_id_middleware,
}

-- Where ServeMux sends a request. `fallback` is the pattern "/".
pub data Route : Type 0 where
  healthz readyz status fallback : Route
  -- the path is not clean: a redirect to this one
  redirect : Str → Route
  -- no pattern at all, for a CONNECT with no path
  unmatched : Route
  -- the request is for "*"
  asterisk : Route

abbrev segments_eq : List Str → List Str → Bool
segments_eq [] [] = true
segments_eq (x ∷ xs) (y ∷ ys) = str_eq x y && segments_eq xs ys
segments_eq _ _ = false

-- The patterns "/healthz", "/readyz", "/v1/system/status" and "/", the first three of which are exact.
unfoldable pub match_segments : List Str → Route
match_segments [] = unmatched
match_segments (p ∷ ps) =
    if segments_eq (p ∷ ps) (codes "healthz" ∷ [])
    then healthz
    else if segments_eq (p ∷ ps) (codes "readyz" ∷ [])
    then readyz
    else if segments_eq (p ∷ ps) (codes "v1" ∷ codes "system" ∷ codes "status" ∷ [])
    then status
    else fallback

unfoldable pub route : Request → Route
unfolding match_segments
route request =
    if str_eq request.request_uri (codes "*")
    then asterisk
    else if str_eq request.method (codes "CONNECT")
    then match_segments (segments request.escaped_path)
    else let clean = clean_path request.escaped_path in
      if not (str_eq clean request.escaped_path)
      then redirect clean
      else match_segments (segments clean)

-- The answers that ServeMux gives itself: the one to "*", its page for no pattern, and a redirect to
-- a path and a query.
pub record MuxPages : Type 0 where
  pub bad_request : Handler
  pub no_pattern : Handler
  pub redirect_to : Str → Str → Handler

module _ (pages : MuxPages) (service : Service) where
  unfoldable pub route_handler : Route → Handler
  route_handler healthz = require_method method_get (health service)
  route_handler readyz = require_method method_get (ready service)
  route_handler status = require_method method_get (system_status service)
  route_handler fallback = not_found
  route_handler unmatched = pages.no_pattern
  route_handler asterisk = pages.bad_request
  route_handler (redirect path) = λ w request. pages.redirect_to path request.raw_query w request

  unfoldable pub serve_mux : Handler
  unfolding route_handler
  serve_mux w request = route_handler (route request) w request

-- The version that is reported where none is given.
unfoldable pub version_or_dev : Str → Str
version_or_dev version = if str_eq (trim_space version) [] then codes "dev" else version

-- What differs from one request to the next besides the request.
pub record Moment : Type 0 where
  pub entropy : Entropy
  pub since_start : ℤ
  pub duration_ms : ℤ

unfoldable pub new_handler : MuxPages → Str → Option Provider → Moment → Handler
unfolding serve_mux version_or_dev
new_handler pages version client moment = request_id_middleware moment.entropy (
    recovery_middleware (
      access_log_middleware moment.duration_ms (
        serve_mux pages (record {
          version = version_or_dev version;
          since_start = moment.since_start;
          model_info_client = client;
        }))))
