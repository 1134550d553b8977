-- ===== src/HttpApi/Handlers.antt =====
-- The route handlers and the two functions that write responses.
use grounded_search.Prelude.{
  ℕ, ℤ, pos, not, Option, [], ◌++◌, ◌∷◌, if◌then◌else◌, int_ltb, div_trunc,
}
use grounded_search.Go.Str.{Str, codes, str_eq}
use grounded_search.Go.Json.{Json, Fields, str, int, obj, end, field, encode}
use grounded_search.HttpApi.State.{
  Request, Run, Writer, Handler, set_header, write_header, write, ◌>>=◌, ◌>>◌,
}
use grounded_search.HttpApi.RequestId.{request_id_from_request}
use grounded_search.HttpApi.Dependency.{
  Provider, MlServiceStatus, ml_service_status, ml_service_json,
}

abbrev pub service_name : Str
service_name = codes "search-api"

abbrev pub status_ok : ℕ
status_ok = 200

abbrev pub status_not_found : ℕ
status_not_found = 404

abbrev pub status_method_not_allowed : ℕ
status_method_not_allowed = 405

abbrev pub status_internal_server_error : ℕ
status_internal_server_error = 500

abbrev pub json_type : Str
json_type = codes "application/json; charset=utf-8"

-- Encode writes the whole text, with a line break, in one call.
unfoldable pub write_json : Writer → ℕ → Json → Run (Unit {0})
write_json w status payload = do
  set_header w (codes "Content-Type") json_type
  set_header w (codes "Cache-Control") (codes "no-store")
  write_header w status
  write w (encode payload ++ (10 ∷ []))

abbrev pub request_id_field : Str → Fields
request_id_field [] = end
request_id_field (c ∷ id) = field (codes "request_id") (str (c ∷ id)) end

-- apiErrorBody.
unfoldable pub api_error_json : Str → Str → Str → Json
api_error_json code message request_id = obj (
    field (codes "error")
      (obj (
        field (codes "code") (str code)
          (field (codes "message") (str message) (request_id_field request_id))))
      end)

unfoldable pub write_api_error : Writer → Request → ℕ → Str → Str → Run (Unit {0})
write_api_error w request status code message =
    write_json w status (api_error_json code message (request_id_from_request request))

-- healthResponse.
unfoldable pub health_json : Str → Str → Json
health_json status version = obj (
    field (codes "service") (str service_name)
      (field (codes "status") (str status) (field (codes "version") (str version) end)))

-- systemStatusResponse.
unfoldable pub system_status_json : Str → Str → ℤ → MlServiceStatus → Json
system_status_json status version uptime_seconds dependency = obj (
    field (codes "service") (str service_name) (
      field (codes "status") (str status) (
        field (codes "version") (str version) (
          field (codes "uptime_seconds") (int uptime_seconds) (
            field (codes "dependencies")
              (obj (field (codes "ml_service") (ml_service_json dependency) end)) end)))))

-- Handler, with what time.Since(handler.startedAt) gives during the request, in nanoseconds.
pub record Service : Type 0 where
  pub version : Str
  pub since_start : ℤ
  pub model_info_client : Option Provider

unfoldable pub health : Service → Handler
health service w request = write_json w status_ok (health_json (codes "healthy") service.version)

unfoldable pub ready : Service → Handler
ready service w request = write_json w status_ok (health_json (codes "ready") service.version)

-- Whole seconds, and none before the start.
unfoldable pub uptime_seconds : ℤ → ℤ
uptime_seconds uptime = div_trunc (if int_ltb uptime (pos 0) then pos 0 else uptime) 1000000000

unfoldable pub overall_status : MlServiceStatus → Str
overall_status dependency =
    if not (str_eq dependency.status (codes "ready")) then codes "degraded" else codes "healthy"

unfoldable pub system_status : Service → Handler
unfolding uptime_seconds overall_status
system_status service w request = do
  dependency ← ml_service_status service.model_info_client request
  write_json w status_ok (
      system_status_json (overall_status dependency) service.version
        (uptime_seconds service.since_start) dependency)

unfoldable pub not_found : Handler
not_found w request =
    write_api_error w request status_not_found (codes "not_found")
      (codes "the requested resource was not found")
