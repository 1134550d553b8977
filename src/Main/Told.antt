-- ===== src/Main/Told.antt =====
-- What the records of the process tell its operator: they agree with the exit code and with the calls of
-- Shutdown.
use grounded_search.Prelude.{
  ℕ, ◌≤◌, ◌==◌, ◌≡◌, refl, sym, ap, subst, ◌∙◌, arith, false, Option, none, some, List, [], ◌∷◌,
  ◌++◌, append-nil, ok, err, if◌then◌else◌, Result-cases, inl, inr,
}
use grounded_search.Go.Str.{codes}
use grounded_search.Go.Errors.{Error}
use grounded_search.Go.Slog.{level_info, level_error}
use grounded_search.Config.Load.{Config, load_from_lookup}
use grounded_search.Config.Address.{address}
use grounded_search.MlClient.Defs.{Client, new}
use grounded_search.Main.Run.{
  Phase, waiting, shutting_down, draining, finished, Event, initial, run,
}
use grounded_search.Main.Progress.{is_finished}
use grounded_search.Main.Launch.{
  World, Launch, config_failed, client_failed, serve_with, launch, exit_of_run, exit_of_phase,
  exit_of_launch, main,
}
use grounded_search.Main.Signals.{called_at_most_once, logs_of_run}
use grounded_search.Main.Start.{launch_of}
use grounded_search.Server as server
use grounded_search.Main.Output.{
  Output, text_of, error_of, printed, log_at, signal_received, ending, starting, output_of_launch,
  main_output,
}

-- What a process that serves writes before its last record.
abbrev opening : World → Config → List Event → List Output
opening world cfg es =
    log_at cfg level_info (codes "search API starting") (
      text_of (codes "address") (address cfg)
      ∷ text_of (codes "version") world.version
      ∷ text_of (codes "ml_service_url") cfg.ml_service_url
      ∷ [])
    ++ (if (run es initial).shutdown_calls == 0 then [] else signal_received cfg)

module _ (world : World) (es : List Event) where
  -- A configuration that loads, and a client for it.
  pub record Serves (cfg : Config) (client : Client) : Type 0 where
    pub loaded : load_from_lookup world.float_scale world.urls (some world.lookup_env) ≡ ok cfg
    pub built : new world.urls cfg.ml_service_url cfg.ml_service_timeout ≡ ok client
    pub once : (run es initial).shutdown_calls ≤ 1

  -- The exit code and what was written.
  pub data Tells : Option ℕ → List Output → Type 0 where
    misconfigured :
        (e : Error)
        → load_from_lookup world.float_scale world.urls (some world.lookup_env) ≡ err e
        → Tells (some 1) (printed (codes "configuration error: ") e ∷ [])
    no_client :
        (cfg : Config) (e : Error)
        → load_from_lookup world.float_scale world.urls (some world.lookup_env) ≡ ok cfg
        → new world.urls cfg.ml_service_url cfg.ml_service_timeout ≡ err e
        → Tells (some 1) (printed (codes "ML client configuration error: ") e ∷ [])
    running :
        (cfg : Config) (client : Client)
        → Serves cfg client
        → is_finished (run es initial).phase ≡ false
        → Tells none (opening world cfg es)
    stopped :
        (cfg : Config) (client : Client)
        → Serves cfg client
        → (run es initial).phase ≡ finished none
        → Tells
            (some 0)
            (opening world cfg es ++ log_at cfg level_info (codes "search API stopped") [])
    failed :
        (cfg : Config) (client : Client) (e : Error)
        → Serves cfg client
        → (run es initial).phase ≡ finished (some e)
        → Tells (some 1) (
            opening world cfg es
            ++ log_at cfg level_error
                (codes "search API stopped with error")
                (error_of (codes "error") e ∷ []))

  still_running :
      (cfg : Config) (client : Client)
      → Serves cfg client
      → is_finished (run es initial).phase ≡ false
      → Tells none (opening world cfg es ++ [])
  still_running cfg client s e =
      subst (Tells none) (sym (append-nil (opening world cfg es))) (running cfg client s e)

  -- The end of a process that serves.
  phase-Tells :
      (cfg : Config) (client : Client)
      → Serves cfg client
      → (ph : Phase) → (run es initial).phase ≡ ph
      → Tells (exit_of_phase ph) (opening world cfg es ++ ending cfg ph)
  unfolding exit_of_phase exit_of_run ending
  phase-Tells cfg client s (finished none) e = stopped cfg client s e
  phase-Tells cfg client s (finished (some x)) e = failed cfg client x s e
  phase-Tells cfg client s waiting e = still_running cfg client s (ap is_finished e)
  phase-Tells cfg client s shutting_down e = still_running cfg client s (ap is_finished e)
  phase-Tells cfg client s draining e = still_running cfg client s (ap is_finished e)

  output_of_client :
      (cfg : Config) (client : Client)
      → launch world ≡ serve_with world cfg client
      → main_output world es ≡ opening world cfg es ++ ending cfg (run es initial).phase
  unfolding main_output output_of_launch starting serve_with server.new server.listen_address
  output_of_client cfg client e =
      ap (λ l. output_of_launch world.version l es) e
      ∙ ap
          (λ l.
            starting cfg (server.new cfg tt) world.version
            ++ l
            ++ ending cfg (run es initial).phase)
          (logs_of_run cfg es)

  launch-Tells :
      (l : Launch)
      → launch world ≡ l
      → Tells (exit_of_launch l es) (output_of_launch world.version l es)
      → Tells (main world es) (main_output world es)
  unfolding main main_output
  launch-Tells l e t =
      subst (λ m. Tells (exit_of_launch m es) (output_of_launch world.version m es)) (sym e) t

  client-Tells :
      (cfg : Config) (client : Client)
      → Serves cfg client
      → Tells (main world es) (main_output world es)
  unfolding main exit_of_launch serve_with
  client-Tells cfg client s =
      let served = launch_of world cfg client s.loaded s.built in
      let code = ap (λ l. exit_of_launch l es) served in
      subst (λ c. Tells c (main_output world es)) (sym code)
        (subst (Tells (exit_of_phase (run es initial).phase))
          (sym (output_of_client cfg client served))
          (phase-Tells cfg client s (run es initial).phase refl))

  load-Tells :
      (cfg : Config)
      → load_from_lookup world.float_scale world.urls (some world.lookup_env) ≡ ok cfg
      → Tells (main world es) (main_output world es)
  unfolding launch exit_of_launch output_of_launch
  load-Tells cfg loaded =
      elim (Result-cases (new world.urls cfg.ml_service_url cfg.ml_service_timeout)) [
        | inl (client, built) ↦
            client-Tells cfg client
              (record { loaded = loaded; built = built; once = called_at_most_once es })
        | inr (e, bad) ↦ launch-Tells (client_failed e) (ground arith) (no_client cfg e loaded bad)
      ]

  -- Whatever happens, what the process wrote agrees with its exit code. A configuration that does not
  -- load, or that gives no client, is printed with exit code 1. Otherwise the first record is the start
  -- with the address of the configuration, the record of the signal follows once exactly if Shutdown was
  -- called, and the process then still runs, or has ended with code 0 and the record that it stopped, or
  -- with code 1 and the record of the error that `run` returned. A record below the level of the
  -- configuration is left out.
  pub main-Tells : Tells (main world es) (main_output world es)
  unfolding launch exit_of_launch output_of_launch
  main-Tells =
      elim (Result-cases (load_from_lookup world.float_scale world.urls (some world.lookup_env))) [
        | inl (cfg, loaded) ↦ load-Tells cfg loaded
        | inr (e, bad) ↦ launch-Tells (config_failed e) (ground arith) (misconfigured e bad)
      ]
