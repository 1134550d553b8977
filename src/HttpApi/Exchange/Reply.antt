-- ===== src/HttpApi/Exchange/Reply.antt =====
-- What the service is meant to answer, said with no writer, middleware or state: a status, a body and
-- the lines of the log.
use grounded_search.Prelude.{ℕ, Option, none, some, ok, err, List, [], ◌∷◌, ◌++◌, if◌then◌else◌}
use grounded_search.Go.Str.{Str, codes, str_eq}
use grounded_search.Go.Json.{Json}
use grounded_search.HttpApi.State.{Request, LogEntry, dependency_failed, panic_recovered}
use grounded_search.HttpApi.Dependency.{
  classify_dependency_error, MlServiceStatus, unavailable_ml_service_status,
  ready_ml_service_status, Provided, answered, crashed, Provider,
}
use grounded_search.HttpApi.Handlers.{
  Service, api_error_json, health_json, system_status_json, uptime_seconds, overall_status,
}
use grounded_search.HttpApi.Serve.{Route, healthz, readyz, status}

-- The body of a JSON answer, its status, and the lines that a handler logs before it answers.
pub record Reply : Type 0 where
  pub code : ℕ
  pub payload : Json
  pub notes : List LogEntry
  pub asked : List Str

-- A reply, or the panic of a handler with the requests that it made before.
pub data Course : Type 0 where
  replies : Reply → Course
  breaks : Str → List Str → Course

abbrev pub plain : ℕ → Json → Course
plain code payload = replies (record { code = code; payload = payload; notes = []; asked = [] })

abbrev pub status_reply : Service → MlServiceStatus → List LogEntry → List Str → Course
status_reply service dependency notes asked = replies (record {
  code = 200;
  payload =
      system_status_json (overall_status dependency) service.version
        (uptime_seconds service.since_start) dependency;
  notes = notes;
  asked = asked;
})

abbrev pub from_provided : Service → Str → Provided → Course
from_provided service id (crashed p) = breaks p (id ∷ [])
from_provided service id (answered (ok info)) =
    status_reply service (ready_ml_service_status info) [] (id ∷ [])
from_provided service id (answered (err e)) =
    status_reply service
      (unavailable_ml_service_status (classify_dependency_error e).1
        (classify_dependency_error e).0)
      (dependency_failed id (classify_dependency_error e).0 e ∷ []) (id ∷ [])

unfoldable pub status_course : Service → Str → Option Provider → Course
status_course service id none =
    status_reply service
      (unavailable_ml_service_status (codes "dependency_unavailable") (codes "unavailable")) [] []
status_course service id (some provider) = from_provided service id (provider id)

-- A resource that only answers GET.
abbrev pub get_only : Request → Str → Course → Course
get_only request id course =
    if str_eq request.method (codes "GET")
    then course
    else plain 405 (
        api_error_json (codes "method_not_allowed")
          (codes "method " ++ (request.method ++ codes " is not allowed for this resource")) id)

-- The three resources and the answer to every other path.
unfoldable pub course : Service → Request → Str → Route → Course
unfolding status_course
course service request id healthz =
    get_only request id (plain 200 (health_json (codes "healthy") service.version))
course service request id readyz =
    get_only request id (plain 200 (health_json (codes "ready") service.version))
course service request id status =
    get_only request id (status_course service id service.model_info_client)
course service request id _ =
    plain 404 (api_error_json (codes "not_found") (codes "the requested resource was not found") id)

-- The reply that goes out, and the last line of the log: a panic becomes an internal error that says
-- nothing of the panic.
unfoldable pub final_reply : Request → Str → Course → Reply
final_reply request id (replies r) = r
final_reply request id (breaks p asked) = record {
  code = 500;
  payload = api_error_json (codes "internal_error") (codes "an internal error occurred") id;
  notes = panic_recovered id request.method request.path p ∷ [];
  asked = asked;
}
