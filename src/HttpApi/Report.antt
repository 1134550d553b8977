-- ===== src/HttpApi/Report.antt =====
-- What the system status says of the ML service, for the real client.
use grounded_search.Prelude.{ℤ, ok, err}
use grounded_search.Go.Str.{Str}
use grounded_search.Go.Errors.{Outcome}
use grounded_search.Go.Url.{UrlPackage}
use grounded_search.MlClient.Defs.{Client, HttpDoer}
use grounded_search.MlClient.Info.{ModelInfo}
use grounded_search.MlClient.Fetch.{JsonPackage, model_info}
use grounded_search.HttpApi.Dependency.{
  MlServiceStatus, classify_dependency_error, unavailable_ml_service_status,
  ready_ml_service_status, Provider, answered,
}
use grounded_search.HttpApi.Handlers.{overall_status}

-- The real client as the provider of the handler.
unfoldable pub provider_of : UrlPackage → JsonPackage → (ℤ → HttpDoer) → Client → Provider
provider_of urls json http_do client id = answered (model_info urls json http_do client id).result

-- The report on a result of the client.
abbrev pub report : Outcome ModelInfo → MlServiceStatus
report (ok info) = ready_ml_service_status info
report (err e) =
    unavailable_ml_service_status (classify_dependency_error e).1 (classify_dependency_error e).0

module _ (urls : UrlPackage) (json : JsonPackage) (http_do : ℤ → HttpDoer) (client : Client)
    (id : Str) where
  -- The status of the system with the real client.
  abbrev pub system : Str
  system = overall_status (report (model_info urls json http_do client id).result)
