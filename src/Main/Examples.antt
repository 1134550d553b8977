-- ===== src/Main/Examples.antt =====
-- Tests of the process, and its theorems on concrete events.
use grounded_search.Config.Address.{address}
use grounded_search.Go.Strings.{contains_byte}
use grounded_search.Go.Strconv.{itoa}
use grounded_search.Config.Values.{
  duration_value, int_value, log_level_value, string_value, url_value,
}
use grounded_search.Go.Strconv.{atoi}
use grounded_search.Main.Run.{second_result}
use grounded_search.Go.Errors.{is}
use grounded_search.Prelude.{
  pos, Option, none, some, List, [], ◌∷◌, ok, ◌≡◌, refl, arith, true, if◌then◌else◌,
}
use grounded_search.Go.Str.{Str, codes, str_eq}
use grounded_search.Go.Strings.{trim_space, has_prefix}
use grounded_search.Go.Errors.{Error, sentinel, server_closed}
use grounded_search.Go.Url.{Url}
use grounded_search.Config.Values.{default_ml_service_url}
use grounded_search.Config.Load.{load_from_lookup, load}
use grounded_search.MlClient.Defs.{Client, new}
use grounded_search.HttpApi.State.{Handler, return}
use grounded_search.HttpApi.Serve.{MuxPages}
use grounded_search.Main.Run.{
  Event, server_returns, signal, shutdown_returns, take_error, take_signal, initial, run, step,
}
use grounded_search.Main.Progress.{Moves, is_finished, run-Moves, run_finishes}
use grounded_search.Main.Launch.{World, launch, serve_with, main}
use grounded_search.Main.Start.{Reparses, StoppedCleanly, launch-serves, main-StoppedCleanly}
use grounded_search.Server as server
use grounded_search.Server.{Server, HttpPackage, listen_and_serve}
use grounded_search.Main.Serving.{
  runnable, serving_ends, shutdown_ends, signal_comes, error_taken, event_of, events_of,
}
use grounded_search.Main.Graceful.{ClosesOnShutdown, GracefulResult, run-GracefulResult}
use grounded_search.Main.Output.{logged, text_of, main_output}
use grounded_search.Main.Told.{Tells, main-Tells}
use grounded_search.Samples.{
  exact_scale, urls, ml_url, known_url, json, http_do, port_env, port_config,
}

-- A signal, then a shutdown after which the server returns ErrServerClosed.
abbrev graceful : List Event
graceful =
    signal
    ∷ take_signal
    ∷ server_returns (some (sentinel server_closed))
    ∷ shutdown_returns none
    ∷ take_error
    ∷ []

run-Moves_example : Moves take_signal (run (signal ∷ []) initial)
run-Moves_example = run-Moves (signal ∷ []) take_signal

abbrev closed : Option Error
closed = some (sentinel server_closed)

run_finishes_example :
    is_finished
      (run
        (shutdown_returns none ∷ take_error ∷ [])
        (run (signal ∷ take_signal ∷ server_returns closed ∷ []) initial)).phase
    ≡ true
unfolding run step
run_finishes_example =
    run_finishes (signal ∷ take_signal ∷ server_returns closed ∷ []) closed none refl

abbrev silent : Handler
silent w request = return tt

abbrev pages : MuxPages
pages = record { bad_request = silent; no_pattern = silent; redirect_to = λ path query. silent }

abbrev world : World
world = record {
  float_scale = exact_scale;
  urls = urls;
  json = json;
  http_do = http_do;
  pages = pages;
  lookup_env = port_env;
  version = codes "1.0.0";
}

known : (text : Str) (u : Url) → known_url text ≡ ok u → u ≡ ml_url
known text u h = ground arith

known_again : known_url default_ml_service_url ≡ ok ml_url
unfolding has_prefix
known_again = refl

default_trimmed : trim_space default_ml_service_url ≡ default_ml_service_url
unfolding trim_space
default_trimmed = refl

urls-Reparses : Reparses urls
urls-Reparses = record {
  again = λ text path u h a b c.
      let e = known text u h in
      (
        ml_url,
        known_again,
        record {
          scheme = rw e refl;
          user = rw e refl;
          host = rw e refl;
          raw_query = rw e refl;
          fragment = rw e refl;
        },
      );
  no_space = λ text path u h a b c. default_trimmed;
}

port_config_loads : load_from_lookup exact_scale urls (some port_env) ≡ ok port_config
unfolding load_from_lookup load str_eq int_value trim_space atoi duration_value url_value has_prefix
    string_value log_level_value
port_config_loads = refl

launch-serves_example :
    (built : Client) × (new urls port_config.ml_service_url port_config.ml_service_timeout
      ≡ ok built)
    × (launch world ≡ serve_with world port_config built)
launch-serves_example = launch-serves world urls-Reparses port_config port_config_loads

graceful_exit : main world graceful ≡ some 0
unfolding main launch load_from_lookup int_value str_eq trim_space atoi duration_value url_value
    has_prefix string_value log_level_value new run second_result is
graceful_exit = refl

main-StoppedCleanly_example : StoppedCleanly world graceful
main-StoppedCleanly_example = main-StoppedCleanly world graceful graceful_exit

graceful_output :
    main_output world graceful
    ≡ logged (pos 0) (codes "search API starting") (
        text_of (codes "address") (codes "0.0.0.0:9000")
        ∷ text_of (codes "version") (codes "1.0.0")
        ∷ text_of (codes "ml_service_url") default_ml_service_url
        ∷ [])
      ∷ logged (pos 0) (codes "shutdown signal received") []
      ∷ logged (pos 0) (codes "search API stopped") []
      ∷ []
unfolding main_output launch load_from_lookup int_value str_eq trim_space atoi duration_value
    url_value has_prefix string_value log_level_value new run second_result is server.new address
    contains_byte itoa
graceful_output = refl

main-Tells_example : Tells world graceful (main world graceful) (main_output world graceful)
main-Tells_example = main-Tells world graceful

-- A server that stops when it is asked to.
abbrev obedient : HttpPackage Handler Unit
obedient = record {
  listen_and_serve = λ server closing m. if closing then closed else none;
  shutdown = λ server expired m. none;
}

abbrev port_server : Server Handler
port_server = server.new port_config silent

obedient-ClosesOnShutdown : ClosesOnShutdown obedient
obedient-ClosesOnShutdown = record { closed = λ server m. refl }

run-GracefulResult_example : GracefulResult (runnable obedient port_server) none
unfolding run step events_of event_of runnable listen_and_serve second_result is
run-GracefulResult_example =
    run-GracefulResult obedient port_server (signal_comes ∷ [])
      (shutdown_ends tt ∷ serving_ends tt ∷ error_taken ∷ []) none obedient-ClosesOnShutdown refl
      refl refl refl
