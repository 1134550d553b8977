-- ===== src/Main/Signals.antt =====
-- The record of the signal: one for each call of Shutdown, of which there is at most one.
use grounded_search.Prelude.{
  ℕ, zero, suc, ◌+◌, ◌≤◌, ◌==◌, ◌≡◌, refl, sym, ap, ◌∙◌, arith, Bool, Option, List, [], ◌∷◌, ◌++◌,
  append-nil, append_assoc, if◌then◌else◌,
}
use grounded_search.Go.Errors.{Error}
use grounded_search.Config.Load.{Config}
use grounded_search.Main.Run.{
  Phase, waiting, RunState, Event, initial, step, run, on_server_returns, on_take_error,
  on_take_signal, on_shutdown_returns, on_take_deadline, on_deadline,
}
use grounded_search.Main.Progress.{state}
use grounded_search.Main.Output.{Output, signal_received, logged_on_take, logged_by, logged_in_run}

-- One record for each call of Shutdown.
unfoldable signals : Config → ℕ → List Output
signals cfg zero = []
signals cfg (suc n) = signals cfg n ++ signal_received cfg

signals_next : (cfg : Config) (n : ℕ) → signals cfg (n + 1) ≡ signals cfg n ++ signal_received cfg
unfolding signals
signals_next cfg n = let same : n + 1 ≡ suc n = omega arith in ap (signals cfg) same

-- In `waiting`, Shutdown can still be called.
abbrev slot : Phase → ℕ
slot waiting = 1
slot _ = 0

module _ (ph : Phase) (o : Option (Option Error)) (b g d : Bool) (n : ℕ) where
  at_most_one_more :
      (e : Event)
      → (step e (state ph o b g d n)).shutdown_calls + slot (step e (state ph o b g d n)).phase
        ≤ n + slot ph
  unfolding step on_server_returns on_take_error on_take_signal on_shutdown_returns on_take_deadline
      on_deadline
  at_most_one_more e = ground arith

  step_logs :
      (cfg : Config) (e : Event)
      → signals cfg (step e (state ph o b g d n)).shutdown_calls
        ≡ signals cfg n ++ logged_by cfg e (state ph o b g d n)
  unfolding step on_server_returns on_take_error on_take_signal on_shutdown_returns on_take_deadline
      on_deadline logged_by logged_on_take signals
  step_logs cfg e = ground (arith, append-nil (signals cfg n), signals_next cfg n)

run_logs :
    (cfg : Config) (es : List Event) (s : RunState)
    → signals cfg (run es s).shutdown_calls ≡ signals cfg s.shutdown_calls ++ logged_in_run cfg es s
unfolding run logged_in_run
run_logs cfg [] s = sym (append-nil _)
run_logs cfg (e ∷ es) s =
    let stepped =
      step_logs s.phase s.returned s.buffered s.signalled s.deadline_passed s.shutdown_calls cfg
        e in
    run_logs cfg es (step e s)
    ∙ ap (λ l. l ++ logged_in_run cfg es (step e s)) stepped
    ∙ append_assoc (signals cfg s.shutdown_calls) (logged_by cfg e s)
        (logged_in_run cfg es (step e s))

at_most_once :
    (es : List Event) (s : RunState)
    → (run es s).shutdown_calls + slot (run es s).phase ≤ s.shutdown_calls + slot s.phase
unfolding run
at_most_once [] s = omega arith
at_most_once (e ∷ es) s =
    let now =
      at_most_one_more s.phase s.returned s.buffered s.signalled s.deadline_passed s.shutdown_calls
        e in
    omega (arith, now, at_most_once es (step e s))

signals_at_most_once :
    (cfg : Config) (n : ℕ) → n ≤ 1 → signals cfg n ≡ (if n == 0 then [] else signal_received cfg)
unfolding signals
signals_at_most_once cfg zero h = refl
signals_at_most_once cfg (suc zero) h = refl
signals_at_most_once cfg (suc (suc n)) h = absurd (omega (arith, h))

pub called_at_most_once : (es : List Event) → (run es initial).shutdown_calls ≤ 1
called_at_most_once es = omega (arith, at_most_once es initial)

pub logs_of_run :
    (cfg : Config) (es : List Event)
    → logged_in_run cfg es initial
      ≡ (if (run es initial).shutdown_calls == 0 then [] else signal_received cfg)
unfolding signals
logs_of_run cfg es =
    sym (run_logs cfg es initial)
    ∙ signals_at_most_once cfg (run es initial).shutdown_calls (called_at_most_once es)
