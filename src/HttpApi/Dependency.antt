-- ===== src/HttpApi/Dependency.antt =====
-- The state of the ML service as the search API reports it.
use grounded_search.Prelude.{Bool, false, Option, none, some, ok, err, [], ◌++◌, ◌∷◌, if◌then◌else◌}
use grounded_search.Go.Str.{Str, codes}
use grounded_search.Go.Errors.{
  Error, deadline_exceeded, invalid_response, is, as_net_error, Outcome,
}
use grounded_search.Go.Json.{Json, Fields, str, obj, end, field, nullable}
use grounded_search.MlClient.Info.{ModelInfo}
use grounded_search.HttpApi.State.{
  Request, Run, returned, panicked, dependency_failed, append_log, ◌>>◌, return,
}
use grounded_search.HttpApi.RequestId.{request_id_from_request}

-- The status and the code of an error.
abbrev answers_timeout : Error → Bool
answers_timeout e = elim (as_net_error e) [ none ↦ false | some timeout ↦ timeout ]

unfoldable pub classify_dependency_error : Error → Str × Str
classify_dependency_error e =
    if is e deadline_exceeded
    then (codes "timeout", codes "dependency_timeout")
    else if answers_timeout e
    then (codes "timeout", codes "dependency_timeout")
    else if is e invalid_response
    then (codes "invalid_response", codes "invalid_dependency_response")
    else (codes "unavailable", codes "dependency_unavailable")

-- mlServiceStatusResponse; an empty `error` is left out of the JSON text.
pub record MlServiceStatus : Type 0 where
  pub status : Str
  pub version : Option Str
  pub mode : Option Str
  pub embedding_model : Option Str
  pub reranker_model : Option Str
  pub python_version : Option Str
  pub environment : Option Str
  pub error : Str

unfoldable pub unavailable_ml_service_status : Str → Str → MlServiceStatus
unavailable_ml_service_status code status = record {
  status = status;
  version = none;
  mode = none;
  embedding_model = none;
  reranker_model = none;
  python_version = none;
  environment = none;
  error = code;
}

unfoldable pub ready_ml_service_status : ModelInfo → MlServiceStatus
ready_ml_service_status info = record {
  status = codes "ready";
  version = some info.version;
  mode = some info.mode;
  embedding_model = info.embedding_model;
  reranker_model = info.reranker_model;
  python_version = some info.python_version;
  environment = some info.environment;
  error = [];
}

-- What a call of the ML client does: it returns, or it panics.
pub data Provided : Type 0 where
  answered : Outcome ModelInfo → Provided
  crashed : Str → Provided

-- modelInfoProvider, as a function of the request ID.
abbrev pub Provider : Type 0
Provider = Str → Provided

-- `none` is a nil client.
unfoldable pub ml_service_status : Option Provider → Request → Run MlServiceStatus
unfolding unavailable_ml_service_status ready_ml_service_status request_id_from_request
ml_service_status none request s =
    returned (unavailable_ml_service_status (codes "dependency_unavailable") (codes "unavailable"))
      s
ml_service_status (some provider) request s =
    let id = request_id_from_request request in
    let asked = record s { asked = s.asked ++ (id ∷ []) } in
    elim (provider id) [
      | crashed p ↦ panicked p asked
      | answered (ok info) ↦ returned (ready_ml_service_status info) asked
      | answered (err e) ↦
          let (status, code) = classify_dependency_error e in
          (append_log (dependency_failed id status e)
              >> return (unavailable_ml_service_status code status))
            asked
    ]

abbrev pub error_field : Str → Fields
error_field [] = end
error_field (c ∷ e) = field (codes "error") (str (c ∷ e)) end

unfoldable pub ml_service_json : MlServiceStatus → Json
ml_service_json m = obj (
    field (codes "status") (str m.status) (
      field (codes "version") (nullable m.version) (
        field (codes "mode") (nullable m.mode) (
          field (codes "embedding_model") (nullable m.embedding_model) (
            field (codes "reranker_model") (nullable m.reranker_model) (
              field (codes "python_version") (nullable m.python_version)
                (field (codes "environment") (nullable m.environment) (error_field m.error))))))))
