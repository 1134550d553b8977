-- ===== src/Main/Serving.antt =====
-- `run` with the server that it is given: the interface `runnableServer`, and the events that its two
-- methods bring about.
use grounded_search.Prelude.{Bool, not, Option, List, [], ◌∷◌, ◌==◌}
use grounded_search.Go.Errors.{Error}
use grounded_search.Server as server
use grounded_search.Server.{Server, HttpPackage}
use grounded_search.Main.Run.{
  RunState, Event, server_returns, signal, shutdown_returns, deadline, take_error, take_signal,
  take_deadline, step,
}

pub record RunnableServer (Moment : Type 0) : Type 0 where
  pub listen_and_serve : Bool → Moment → Option Error
  pub shutdown : Bool → Moment → Option Error

-- The Server of package server has both methods.
unfoldable pub runnable :
    {H Moment : Type 0} → HttpPackage H Moment → Server H → RunnableServer Moment
unfolding server.listen_and_serve server.shutdown
runnable http s = record {
  listen_and_serve = server.listen_and_serve http s;
  shutdown = server.shutdown http s;
}

-- The events of `run`, with the moment at which a method returns in place of what it returns.
pub data Tick (Moment : Type 0) : Type 0 where
  serving_ends shutdown_ends : Moment → Tick Moment
  signal_comes deadline_ends error_taken signal_taken deadline_taken : Tick Moment

module _ {Moment : Type 0} (s : RunnableServer Moment) where
  unfoldable pub event_of : Tick Moment → RunState → Event
  event_of (serving_ends m) state =
      server_returns (s.listen_and_serve (not (state.shutdown_calls == 0)) m)
  event_of (shutdown_ends m) state = shutdown_returns (s.shutdown state.deadline_passed m)
  event_of signal_comes state = signal
  event_of deadline_ends state = deadline
  event_of error_taken state = take_error
  event_of signal_taken state = take_signal
  event_of deadline_taken state = take_deadline

  unfoldable pub events_of : List (Tick Moment) → RunState → List Event
  unfolding event_of
  events_of [] state = []
  events_of (t ∷ ts) state = let e = event_of t state in e ∷ events_of ts (step e state)
