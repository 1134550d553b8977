-- ===== src/Main/Run.antt =====
-- `run` as a state machine over the events of the process: what the goroutine of ListenAndServe, the
-- signal and the deadline do, and which ready case each `select` takes. An event that cannot happen
-- in a state leaves it as it is.
use grounded_search.Prelude.{
  ℕ, ◌+◌, Bool, true, false, Option, none, some, List, [], ◌∷◌, if◌then◌else◌,
}
use grounded_search.Go.Str.{codes}
use grounded_search.Go.Errors.{Error, sentinel, server_closed, deadline_exceeded, is, wrap}

-- `waiting` and `draining` are the two `select` statements, `shutting_down` the call of Shutdown
-- between them.
pub data Phase : Type 0 where
  waiting shutting_down draining : Phase
  finished : Option Error → Phase

-- `returned` is what ListenAndServe returned, once it did; `buffered` says whether that still stands
-- in the channel. `shutdown_calls` counts the calls of Shutdown.
pub record RunState : Type 0 where
  pub phase : Phase
  pub returned : Option (Option Error)
  pub buffered : Bool
  pub signalled : Bool
  pub deadline_passed : Bool
  pub shutdown_calls : ℕ

pub data Event : Type 0 where
  -- the server's goroutine, a signal, the end of Shutdown and the end of the shutdown timeout
  server_returns : Option Error → Event
  signal : Event
  shutdown_returns : Option Error → Event
  deadline : Event
  -- the case that a `select` takes
  take_error take_signal take_deadline : Event

abbrev pub initial : RunState
initial = record {
  phase = waiting;
  returned = none;
  buffered = false;
  signalled = false;
  deadline_passed = false;
  shutdown_calls = 0;
}

-- `err == nil || errors.Is(err, http.ErrServerClosed)`.
unfoldable pub is_clean : Option Error → Bool
is_clean none = true
is_clean (some e) = is e server_closed

abbrev error_of : Option Error → Error
error_of none = sentinel server_closed
error_of (some e) = e

-- What the two cases that receive from the channel return.
unfoldable pub first_result : Option Error → Option Error
unfolding is_clean
first_result r =
    if is_clean r then none else some (wrap (codes "listen and serve: ") (error_of r) [])

unfoldable pub second_result : Option Error → Option Error
unfolding is_clean
second_result r =
    if is_clean r then none else some (wrap (codes "server exit after shutdown: ") (error_of r) [])

abbrev pub deadline_error : Error
deadline_error =
    wrap (codes "server did not stop before shutdown deadline: ") (sentinel deadline_exceeded) []

-- The shutdown timeout runs from the moment that the signal is taken.
unfoldable pub on_deadline : RunState → Phase → RunState
on_deadline s shutting_down = record s { deadline_passed = true }
on_deadline s draining = record s { deadline_passed = true }
on_deadline s _ = s

unfoldable pub on_server_returns : Option Error → RunState → Option (Option Error) → RunState
on_server_returns r s none = record s { returned = some r; buffered = true }
on_server_returns r s (some _) = s

-- Receiving the server's error, in the first `select` or in the second.
unfoldable pub on_take_error : RunState → Phase → Option (Option Error) → Bool → RunState
on_take_error s waiting (some r) true = record s {
  phase = finished (first_result r);
  buffered = false;
}
on_take_error s draining (some r) true = record s {
  phase = finished (second_result r);
  buffered = false;
}
on_take_error s _ _ _ = s

unfoldable pub on_take_signal : RunState → Phase → Bool → RunState
on_take_signal s waiting true = record s {
  phase = shutting_down;
  shutdown_calls = s.shutdown_calls + 1;
}
on_take_signal s _ _ = s

unfoldable pub on_shutdown_returns : Option Error → RunState → Phase → RunState
on_shutdown_returns none s shutting_down = record s { phase = draining }
on_shutdown_returns (some e) s shutting_down = record s {
  phase = finished (some (wrap (codes "graceful shutdown: ") e []));
}
on_shutdown_returns _ s _ = s

unfoldable pub on_take_deadline : RunState → Phase → Bool → RunState
on_take_deadline s draining true = record s { phase = finished (some deadline_error) }
on_take_deadline s _ _ = s

unfoldable pub step : Event → RunState → RunState
unfolding on_server_returns on_take_error on_take_signal on_shutdown_returns on_take_deadline
    on_deadline
step (server_returns r) s = on_server_returns r s s.returned
step signal s = record s { signalled = true }
step (shutdown_returns r) s = on_shutdown_returns r s s.phase
step deadline s = on_deadline s s.phase
step take_error s = on_take_error s s.phase s.returned s.buffered
step take_signal s = on_take_signal s s.phase s.signalled
step take_deadline s = on_take_deadline s s.phase s.deadline_passed

unfoldable pub run : List Event → RunState → RunState
unfolding step
run [] s = s
run (e ∷ es) s = run es (step e s)
