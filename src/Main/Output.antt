-- ===== src/Main/Output.antt =====
-- What the process writes: the records of its logger, and the two errors that it prints before it has one.
use grounded_search.Prelude.{int_ltb, Bool, true, none, some, List, [], ◌∷◌, ◌++◌, if◌then◌else◌}
use grounded_search.Go.Str.{Str, codes}
use grounded_search.Go.Errors.{Error}
use grounded_search.Go.Slog.{Level, level_info, level_error}
use grounded_search.Config.Load.{Config}
use grounded_search.Server.{Server, listen_address}
use grounded_search.Main.Run.{
  Phase, waiting, finished, RunState, Event, take_signal, initial, step, run,
}
use grounded_search.Main.Launch.{World, Launch, config_failed, client_failed, serving, launch}

pub data Attribute : Type 0 where
  text_of : Str → Str → Attribute
  error_of : Str → Error → Attribute

-- A record on standard output, or a text and an error on standard error.
pub data Output : Type 0 where
  logged : Level → Str → List Attribute → Output
  printed : Str → Error → Output

-- The handler of the logger writes the records of its level and above.
unfoldable pub log_at : Config → Level → Str → List Attribute → List Output
log_at cfg level message attributes =
    if int_ltb level cfg.log_level then [] else logged level message attributes ∷ []

unfoldable pub starting : {H : Type 0} → Config → Server H → Str → List Output
unfolding log_at listen_address
starting cfg http version = log_at cfg level_info (codes "search API starting") (
    text_of (codes "address") (listen_address http)
    ∷ text_of (codes "version") version
    ∷ text_of (codes "ml_service_url") cfg.ml_service_url
    ∷ [])

unfoldable pub signal_received : Config → List Output
unfolding log_at
signal_received cfg = log_at cfg level_info (codes "shutdown signal received") []

-- The first `select` logs where it takes the signal.
unfoldable pub logged_on_take : Config → Phase → Bool → List Output
unfolding signal_received
logged_on_take cfg waiting true = signal_received cfg
logged_on_take cfg _ _ = []

unfoldable pub logged_by : Config → Event → RunState → List Output
unfolding logged_on_take
logged_by cfg take_signal s = logged_on_take cfg s.phase s.signalled
logged_by cfg _ s = []

unfoldable pub logged_in_run : Config → List Event → RunState → List Output
unfolding logged_by
logged_in_run cfg [] s = []
logged_in_run cfg (e ∷ es) s = logged_by cfg e s ++ logged_in_run cfg es (step e s)

-- The record at the end of `main`.
unfoldable pub ending : Config → Phase → List Output
unfolding log_at
ending cfg (finished none) = log_at cfg level_info (codes "search API stopped") []
ending cfg (finished (some e)) =
    log_at cfg level_error (codes "search API stopped with error") (error_of (codes "error") e ∷ [])
ending cfg _ = []

unfoldable pub output_of_launch : Str → Launch → List Event → List Output
unfolding starting logged_in_run ending
output_of_launch version (config_failed e) es = printed (codes "configuration error: ") e ∷ []
output_of_launch version (client_failed e) es =
    printed (codes "ML client configuration error: ") e ∷ []
output_of_launch version (serving cfg client http) es =
    starting cfg http version ++ logged_in_run cfg es initial ++ ending cfg (run es initial).phase

unfoldable pub main_output : World → List Event → List Output
unfolding launch output_of_launch
main_output world es = output_of_launch world.version (launch world) es
