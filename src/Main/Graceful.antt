-- ===== src/Main/Graceful.antt =====
-- `run` with a server that keeps what net/http documents of it.
use grounded_search.Prelude.{
  ℕ, ◌≡◌, refl, Bool, true, false, Option, none, some, List, [], ◌∷◌, subst,
}
use grounded_search.Go.Str.{codes}
use grounded_search.Go.Errors.{Error, sentinel, server_closed, wrap, is}
use grounded_search.Server.{Server, HttpServer, HttpPackage, listen_and_serve}
use grounded_search.Main.Run.{
  Phase, waiting, shutting_down, draining, finished, RunState, take_signal, initial, step, run,
  on_server_returns, on_take_error, on_take_signal, on_shutdown_returns, on_take_deadline,
  on_deadline, second_result, deadline_error,
}
use grounded_search.Main.Serving.{
  RunnableServer, runnable, Tick, serving_ends, shutdown_ends, signal_comes, deadline_ends,
  error_taken, signal_taken, deadline_taken, event_of, events_of,
}
use grounded_search.Main.Progress.{state}
use grounded_search.Main.Invariant.{PhaseHolds, run-Holds}

-- What net/http documents: once Shutdown was called, ListenAndServe returns ErrServerClosed.
pub record ClosesOnShutdown {H Moment : Type 0} (http : HttpPackage H Moment) : Type 0 where
  pub closed :
      (server : HttpServer H) (m : Moment)
      → http.listen_and_serve server true m ≡ some (sentinel server_closed)

module _ {Moment : Type 0} (s : RunnableServer Moment) where
  -- The results of `run` that are left when no error of the server itself is reported.
  pub data GracefulResult : Option Error → Type 0 where
    stopped : GracefulResult none
    late : GracefulResult (some deadline_error)
    shutdown_failed :
        (expired : Bool) (m : Moment) (e : Error)
        → s.shutdown expired m ≡ some e
        → GracefulResult (some (wrap (codes "graceful shutdown: ") e []))

  abbrev PhaseIsGraceful : Phase → Type 0
  PhaseIsGraceful waiting = ⊥
  PhaseIsGraceful (finished r) = GracefulResult r
  PhaseIsGraceful _ = Unit

  abbrev Served : Option (Option Error) → Type 0
  Served none = Unit
  Served (some r) = r ≡ some (sentinel server_closed)

  -- Shutdown was called, while the server served.
  abbrev IsGraceful : RunState → Type 0
  IsGraceful u = (u.shutdown_calls ≡ 1) × Served u.returned × PhaseIsGraceful u.phase

  second_result_of_closed :
      (r : Option Error) → r ≡ some (sentinel server_closed) → GracefulResult (second_result r)
  unfolding second_result is
  second_result_of_closed r e = rw e stopped

  after_shutdown :
      (b g d : Bool) (m : Moment) (o : Option (Option Error)) (ph : Phase) {n : ℕ}
      → n ≡ 1
      → Served o
      → PhaseIsGraceful ph
      → (r : Option Error) → s.shutdown d m ≡ r
      → IsGraceful (on_shutdown_returns r (state ph o b g d n) ph)
  unfolding on_shutdown_returns
  after_shutdown b g d m o shutting_down called served phase none e = (called, served, phase)
  after_shutdown b g d m o shutting_down called served phase (some x) e =
      (called, served, shutdown_failed d m x e)
  after_shutdown b g d m o draining called served phase none e = (called, served, phase)
  after_shutdown b g d m o draining called served phase (some x) e = (called, served, phase)
  after_shutdown b g d m o (finished y) called served phase none e = (called, served, phase)
  after_shutdown b g d m o (finished y) called served phase (some x) e = (called, served, phase)
  after_shutdown b g d m o waiting called served phase r e = absurd phase

  module _ (closed : (m : Moment) → s.listen_and_serve true m ≡ some (sentinel server_closed)) where
    at-IsGraceful :
        (ph : Phase) (o : Option (Option Error)) (b g d : Bool) (n : ℕ) (t : Tick Moment)
        → IsGraceful (state ph o b g d n)
        → IsGraceful (step (event_of s t (state ph o b g d n)) (state ph o b g d n))
    unfolding step event_of on_server_returns on_take_error on_take_signal on_shutdown_returns
        on_take_deadline on_deadline
    at-IsGraceful ph none b g d n (serving_ends m) (called, served, phase) =
        rw called (refl, closed m, phase)
    at-IsGraceful ph (some r) b g d n (serving_ends m) h = h
    at-IsGraceful ph o b g d n (shutdown_ends m) (called, served, phase) =
        after_shutdown b g d m o ph called served phase (s.shutdown d m) refl
    at-IsGraceful ph o b g d n signal_comes h = h
    at-IsGraceful shutting_down o b g d n deadline_ends h = h
    at-IsGraceful draining o b g d n deadline_ends h = h
    at-IsGraceful (finished r) o b g d n deadline_ends h = h
    at-IsGraceful shutting_down o b g d n error_taken h = h
    at-IsGraceful (finished r) o b g d n error_taken h = h
    at-IsGraceful draining none b g d n error_taken h = h
    at-IsGraceful draining (some r) false g d n error_taken h = h
    at-IsGraceful draining (some r) true g d n error_taken (called, served, phase) =
        (called, served, second_result_of_closed r served)
    at-IsGraceful shutting_down o b g d n signal_taken h = h
    at-IsGraceful draining o b g d n signal_taken h = h
    at-IsGraceful (finished r) o b g d n signal_taken h = h
    at-IsGraceful shutting_down o b g d n deadline_taken h = h
    at-IsGraceful draining o b g false n deadline_taken h = h
    at-IsGraceful draining o b g true n deadline_taken (called, served, phase) =
        (called, served, late)
    at-IsGraceful (finished r) o b g d n deadline_taken h = h
    at-IsGraceful waiting o b g d n t (called, served, phase) = absurd phase

    run-IsGraceful :
        (ts : List (Tick Moment)) (u : RunState)
        → IsGraceful u
        → IsGraceful (run (events_of s ts u) u)
    unfolding run events_of
    run-IsGraceful [] u h = h
    run-IsGraceful (t ∷ ts) u h = run-IsGraceful ts (step (event_of s t u) u) (
        at-IsGraceful u.phase u.returned u.buffered u.signalled u.deadline_passed u.shutdown_calls t
          h)

GracefulResult-of_phase :
    {Moment : Type 0} (s : RunnableServer Moment) (ph : Phase) (r : Option Error)
    → PhaseIsGraceful s ph
    → ph ≡ finished r
    → GracefulResult s r
GracefulResult-of_phase s ph r h e = subst (PhaseIsGraceful s) e h

IsGraceful-of_signal :
    {Moment : Type 0} (s : RunnableServer Moment) (ph : Phase) (o : Option (Option Error))
    (b g d : Bool) (n : ℕ)
    → PhaseHolds (state ph o b g d n) ph
    → ph ≡ waiting
    → g ≡ true
    → o ≡ none
    → IsGraceful s (step take_signal (state ph o b g d n))
unfolding step on_take_signal
IsGraceful-of_signal s ph o b g d n h w e q =
    let none_called : n ≡ 0 = (subst (PhaseHolds (state ph o b g d n)) w h).0 in
    rw (w, e, q, none_called) (refl, tt, tt)

module _ {H Moment : Type 0} (http : HttpPackage H Moment) (server : Server H)
    (before : List (Tick Moment)) where
  -- What `run` has come to after some ticks from its start.
  abbrev pub reached : RunState
  reached = run (events_of (runnable http server) before initial) initial

-- Let the HTTP server return ErrServerClosed once Shutdown was called, as net/http documents, and let
-- the signal come while `run` waits and the server still serves. When `run` then takes the signal,
-- whatever happens afterwards, its result is nil, the error of the deadline that passed, or the error
-- of Shutdown: no error of ListenAndServe is reported.
pub run-GracefulResult :
    {H Moment : Type 0} (http : HttpPackage H Moment) (server : Server H)
    (before after : List (Tick Moment)) (r : Option Error)
    → ClosesOnShutdown http
    → (reached http server before).phase ≡ waiting
    → (reached http server before).signalled ≡ true
    → (reached http server before).returned ≡ none
    → (run
        (events_of (runnable http server) (signal_taken ∷ after) (reached http server before))
        (reached http server before)).phase
      ≡ finished r
    → GracefulResult (runnable http server) r
unfolding run events_of event_of runnable listen_and_serve
run-GracefulResult http server before after r laws w g o e =
    let s = runnable http server in
    let u = reached http server before in
    let taken =
      IsGraceful-of_signal s u.phase u.returned u.buffered u.signalled u.deadline_passed
        u.shutdown_calls (run-Holds (events_of s before initial)) w g o in
    let graceful =
      run-IsGraceful s (laws.closed server.http_server) after (step take_signal u) taken in
    GracefulResult-of_phase s _ r graceful.2 e
