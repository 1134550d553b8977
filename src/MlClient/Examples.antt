-- ===== src/MlClient/Examples.antt =====
-- Tests of the client, and its theorems at a concrete service.
mod Bodies
use grounded_search.Go.Strings.{trim_right}
use grounded_search.Prelude.{
  pos, none, some, [], ok, err, ◌≡◌, ◌<ℤ◌, refl, arith, ltb, length, if◌then◌else◌,
}
use grounded_search.Go.Str.{Str, codes, str_eq}
use grounded_search.Go.Strings.{trim_space, has_prefix}
use grounded_search.Go.Errors.{Error, sentinel, unexpected_status, wrap}
use grounded_search.Go.Strconv.{format_nat}
use grounded_search.Go.Http.{Reader}
use grounded_search.Config.Values.{seconds, default_ml_service_url}
use grounded_search.MlClient.Defs.{
  Client, standard, injected, new, new_with_http_client, max_response_body_size,
}
use grounded_search.MlClient.Fetch.{too_large, read_bounded_body, interpret}
use grounded_search.MlClient.Bounded.{read_bounded_body_lem}
use grounded_search.MlClient.Failures.{Verdict, interpret-Verdict}
use grounded_search.MlClient.Construct.{IsClientFor, new-eq-ok}
use grounded_search.Samples.{urls, json, client, response_503}

abbrev id : Str
id = codes "request-1"

abbrev status_503 : Error
status_503 = wrap [] (sentinel unexpected_status) (codes ": status 503")

interpret_503 : interpret json response_503 ≡ err status_503
unfolding interpret read_bounded_body format_nat
interpret_503 = refl

interpret-Verdict_example : Verdict response_503 status_503
interpret-Verdict_example =
    interpret-Verdict json response_503 status_503 (λ e h. absurd (ground arith)) interpret_503

abbrev broken : Reader
broken = record { bytes = codes "{"; failure = some (sentinel unexpected_status) }

read_bounded_body_lem_example : read_bounded_body broken ≡ (
    if ltb max_response_body_size (length broken.bytes)
    then err (too_large max_response_body_size)
    else (elim broken.failure [
      | none ↦ ok broken.bytes
      | some e ↦ err (wrap (codes "read ML service response: ") e [])
    ]))
read_bounded_body_lem_example = read_bounded_body_lem broken

client_built : new urls default_ml_service_url (seconds 2) ≡ ok client
unfolding new str_eq has_prefix trim_space trim_right
client_built = refl

new-eq-ok_example :
    (pos 0 <ℤ seconds 2) × IsClientFor urls default_ml_service_url (standard (seconds 2)) client
new-eq-ok_example = (new-eq-ok urls default_ml_service_url (seconds 2) client).0 client_built
