-- ===== src/Main/Launch.antt =====
-- `main`: the configuration, the client, the handler and the server, then `run` and the exit code.
use grounded_search.Prelude.{ℕ, ℤ, Option, none, some, List, ok, err}
use grounded_search.Go.Str.{Str}
use grounded_search.Go.Errors.{Error}
use grounded_search.Go.Duration.{FloatScale}
use grounded_search.Go.Url.{UrlPackage}
use grounded_search.Config.Values.{LookupEnv}
use grounded_search.Config.Load.{Config, load_from_lookup}
use grounded_search.MlClient.Defs.{HttpDoer, Client, new}
use grounded_search.MlClient.Fetch.{JsonPackage}
use grounded_search.HttpApi.State.{Handler}
use grounded_search.HttpApi.Report.{provider_of}
use grounded_search.HttpApi.Serve.{MuxPages, Moment, new_handler}
use grounded_search.Server as server
use grounded_search.Server.{Server}
use grounded_search.Main.Run.{Phase, finished, Event, initial, run}

-- The packages and the environment that the process runs with.
pub record World : Type 0 where
  pub float_scale : FloatScale
  pub urls : UrlPackage
  pub json : JsonPackage
  pub http_do : ℤ → HttpDoer
  pub pages : MuxPages
  pub lookup_env : LookupEnv
  pub version : Str

-- How far `main` comes before it calls `run`; the two failures are printed and end the process.
pub data Launch : Type 0 where
  config_failed client_failed : Error → Launch
  serving : Config → Client → Server (Moment → Handler) → Launch

module _ (world : World) where
  unfoldable pub serve_with : Config → Client → Launch
  serve_with cfg client = serving cfg client (
      server.new cfg (
        new_handler world.pages world.version
          (some (provider_of world.urls world.json world.http_do client))))

  unfoldable pub launch : Launch
  unfolding serve_with
  launch = elim (load_from_lookup world.float_scale world.urls (some world.lookup_env)) [
    | err e ↦ config_failed e
    | ok cfg ↦ elim (new world.urls cfg.ml_service_url cfg.ml_service_timeout) [
      | err e ↦ client_failed e
      | ok client ↦ serve_with cfg client
    ]
  ]

-- `os.Exit(1)`, or the end of `main`.
unfoldable pub exit_of_run : Option Error → ℕ
exit_of_run none = 0
exit_of_run (some e) = 1

unfoldable pub exit_of_phase : Phase → Option ℕ
unfolding exit_of_run
exit_of_phase (finished result) = some (exit_of_run result)
exit_of_phase _ = none

-- The exit code of the process; `none` as long as it runs.
unfoldable pub exit_of_launch : Launch → List Event → Option ℕ
unfolding exit_of_phase
exit_of_launch (config_failed e) es = some 1
exit_of_launch (client_failed e) es = some 1
exit_of_launch (serving cfg client http) es = exit_of_phase (run es initial).phase

unfoldable pub main : World → List Event → Option ℕ
unfolding launch exit_of_launch
main world es = exit_of_launch (launch world) es
