-- ===== src/HttpApi/Examples.antt =====
-- Tests of the handler, and its theorems at concrete requests.
pub mod Whole
use grounded_search.Prelude.{negsuc, ok}
use grounded_search.HttpApi.Contract.{SystemStatusContract, system_status_json-Contract}
use grounded_search.HttpApi.State.{returned}
use grounded_search.HttpApi.Dependency.{answered, ml_service_status, ready_ml_service_status}
use grounded_search.HttpApi.Handlers.{system_status_json, overall_status, uptime_seconds}
use grounded_search.HttpApi.Serve.{version_or_dev}
use grounded_search.Samples.{sample_info}
use grounded_search.Go.Path.{clean_path, segments}
use grounded_search.Prelude.{
  pos, none, some, List, [], ◌∷◌, err, ◌≡◌, ◌≢◌, ◌↔◌, refl, arith, true, false,
}
use grounded_search.Go.Str.{Str, codes, str_eq}
use grounded_search.Go.Strings.{trim_space}
use grounded_search.Go.Errors.{Error, sentinel, unexpected_status, wrap}
use grounded_search.Go.Strconv.{format_nat}
use grounded_search.Go.Http.{header_get, header_set}
use grounded_search.MlClient.Fetch.{interpret, read_bounded_body}
use grounded_search.HttpApi.State.{Request, State, raw, Handler, return}
use grounded_search.HttpApi.RequestId.{valid_request_id, Entropy, with_request_id}
use grounded_search.HttpApi.Dependency.{Provider, classify_dependency_error, crashed}
use grounded_search.HttpApi.Middleware.{choose_request_id, request_id_header}
use grounded_search.HttpApi.Serve.{MuxPages, route, Moment, new_handler}
use grounded_search.HttpApi.Exchange.Reply.{course}
use grounded_search.HttpApi.Exchange.Dispatch.{IsServed}
use grounded_search.HttpApi.Exchange.Whole.{Ends, chosen, started, service, new_handler-Ends}
use grounded_search.HttpApi.Recorder.{WriterCall, set, header, bytes}
use grounded_search.HttpApi.RequestIds.{
  IsRequestId, IsEntropy, valid_request_id_iff, choose_request_id-IsRequestId,
}
use grounded_search.HttpApi.Classification.{classification, interpret-classification}
use grounded_search.Samples.{json, response_503}

abbrev silent : Handler
silent w request = return tt

abbrev pages : MuxPages
pages = record { bad_request = silent; no_pattern = silent; redirect_to = λ path query. silent }

abbrev request : Request
request = record {
  method = codes "GET";
  request_uri = codes "/v1/system/status";
  path = codes "/v1/system/status";
  escaped_path = codes "/v1/system/status";
  raw_query = [];
  header = header_set request_id_header (codes "r1") [];
  context_id = none;
}

abbrev idle : State
idle = record {
  header = [];
  sent = none;
  body = [];
  recorder = record { status = 200; wrote_header = false };
  counter = 0;
  log = [];
  asked = [];
}

-- The random source fails.
abbrev no_entropy : Entropy
no_entropy = record { random = none; unix_nano = pos 1700000000000000000 }

abbrev moment : Moment
moment = record { entropy = no_entropy; since_start = pos 0; duration_ms = pos 3 }

-- A client that panics.
abbrev broken_provider : Provider
broken_provider id = crashed (codes "nil map")

status-IsServed : IsServed (route request)
unfolding route str_eq clean_path segments
status-IsServed = tt

abbrev id : Str
id = (chosen pages (codes "1.0.0") (some broken_provider) moment request idle).1

new_handler-Ends_example :
    Ends
      (with_request_id id request)
      id
      (pos 3)
      (course
        (service pages (codes "1.0.0") (some broken_provider) moment request idle)
        request
        id
        (route request))
      (started pages (codes "1.0.0") (some broken_provider) moment request idle)
      (new_handler pages (codes "1.0.0") (some broken_provider) moment raw request idle)
new_handler-Ends_example =
    new_handler-Ends pages (codes "1.0.0") (some broken_provider) moment request idle refl
      status-IsServed

abbrev status_503 : Error
status_503 = wrap [] (sentinel unexpected_status) (codes ": status 503")

interpret_503 : interpret json response_503 ≡ err status_503
unfolding interpret read_bounded_body format_nat
interpret_503 = refl

interpret-classification_example :
    classify_dependency_error status_503 ≡ classification response_503
interpret-classification_example =
    interpret-classification json response_503 status_503 interpret_503

valid_request_id_iff_example :
    ((valid_request_id (codes " a b ") ≡ codes "a") × (codes "a" ≢ []))
    ↔ ((codes "a" ≡ trim_space (codes " a b ")) × IsRequestId (codes "a"))
valid_request_id_iff_example = valid_request_id_iff (codes " a b ") (codes "a")

no_entropy-IsEntropy : IsEntropy no_entropy
no_entropy-IsEntropy = record { bytes = λ b h. absurd (ground arith); clock = ground arith }

choose_request_id-IsRequestId_example :
    IsRequestId (choose_request_id no_entropy (record request { header = [] }) 7).1
choose_request_id-IsRequestId_example =
    choose_request_id-IsRequestId no_entropy (record request { header = [] }) 7 no_entropy-IsEntropy

abbrev calls : List WriterCall
calls = set (codes "A") (codes "b") ∷ header 404 ∷ header 200 ∷ bytes (codes "x") ∷ []

abbrev asked_once : State
asked_once = record idle { asked = codes "" ∷ [] }

status_reported :
    ml_service_status (some (λ id. answered (ok sample_info))) request idle
    ≡ returned (ready_ml_service_status sample_info) asked_once
unfolding ml_service_status
status_reported = refl

system_status_json-Contract_example : SystemStatusContract (
    system_status_json
      (overall_status (ready_ml_service_status sample_info))
      (version_or_dev (codes " "))
      (uptime_seconds (negsuc 5))
      (ready_ml_service_status sample_info))
system_status_json-Contract_example =
    system_status_json-Contract (codes " ") (negsuc 5) (some (λ id. answered (ok sample_info)))
      request idle asked_once (ready_ml_service_status sample_info) status_reported
