-- ===== src/HttpApi/EndToEnd.antt =====
-- One GET of the system's status through the whole chain: the middleware, the handler, the real
-- client of the ML service, and the answer.
use grounded_search.Prelude.{ℤ, ◌≡◌, ◌↔◌, some, List, [], ◌∷◌, ◌++◌, ok, err, All}
use grounded_search.Go.Str.{Str, codes}
use grounded_search.Go.Errors.{Error, Outcome}
use grounded_search.Go.Url.{UrlPackage}
use grounded_search.Go.Json.{Json}
use grounded_search.Go.Http.{Header, header_find}
use grounded_search.MlClient.Defs.{Client, HttpDoer}
use grounded_search.MlClient.Info.{ModelInfo}
use grounded_search.MlClient.Fetch.{JsonPackage, model_info}
use grounded_search.MlClient.Answers.{Obtains}
use grounded_search.HttpApi.State.{
  State, Request, Step, returned, LogEntry, completed, dependency_failed,
}
use grounded_search.HttpApi.Dependency as dependency
use grounded_search.HttpApi.Dependency.{
  MlServiceStatus, Provider, classify_dependency_error, ready_ml_service_status,
  unavailable_ml_service_status,
}
use grounded_search.HttpApi.Handlers.{Service, system_status_json, uptime_seconds}
use grounded_search.HttpApi.Middleware.{request_id_header}
use grounded_search.HttpApi.Report.{provider_of, report, system}
use grounded_search.HttpApi.Contract.{SystemStatusContract}
use grounded_search.HttpApi.Exchange.Writes.{json_text}

-- The line that the handler logs where the client fails.
abbrev pub failure_notes : Str → Outcome ModelInfo → List LogEntry
failure_notes id (ok info) = []
failure_notes id (err e) = dependency_failed id (classify_dependency_error e).0 e ∷ []

abbrev after_asking : Str → State → State
after_asking id s = record s { asked = s.asked ++ (id ∷ []) }

abbrev after_failure : Str → Error → State → State
after_failure id e s = record (after_asking id s) {
  log = s.log ++ (dependency_failed id (classify_dependency_error e).0 e ∷ []);
}

module _ (urls : UrlPackage) (json : JsonPackage) (http_do : ℤ → HttpDoer) (client : Client) where
  abbrev provider : Provider
  provider = provider_of urls json http_do client

  -- What the client returns in the exchange with this ID.
  abbrev pub outcome : Str → Outcome ModelInfo
  outcome id = (model_info urls json http_do client id).result

  abbrev pub status_json : Service → Str → Json
  status_json served id =
      system_status_json (system urls json http_do client id) served.version
        (uptime_seconds served.since_start) (report (outcome id))

  -- How a request for the status ends, for the ID of its exchange.
  pub record StatusExchange (served : Service) (request : Request) (id : Str) (duration_ms : ℤ)
      (s : State) (result : Step (Unit {0})) : Type 0 where
    pub t : State
    pub ends : result ≡ returned tt t
    pub headers : Header
    pub sent : t.sent ≡ some (200, headers)
    pub answered_id : header_find request_id_header headers ≡ some id
    pub sent_id :
        All
          (λ r. header_find request_id_header r.header ≡ some id)
          (model_info urls json http_do client id).sent
    pub body : t.body ≡ s.body ++ json_text (status_json served id)
    pub contract : SystemStatusContract (status_json served id)
    pub healthy :
        (system urls json http_do client id ≡ codes "healthy")
        ↔ ((info : ModelInfo) × Obtains urls json http_do client id info)
    pub log :
        t.log
        ≡ s.log
          ++ (failure_notes id (outcome id)
              ++ (completed id request.method request.path 200 duration_ms ∷ []))
    pub asked : t.asked ≡ s.asked ++ (id ∷ [])
