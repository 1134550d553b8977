-- ===== src/Main/Progress.antt =====
-- `run` moves on: the channel keeps the server's error until it is received, and no step waits for
-- ever once the server has returned.
use grounded_search.Prelude.{
  ℕ, ◌≡◌, ◌<◌, refl, Bool, true, false, ◌&&◌, Option, none, some, List, [], ◌∷◌, ◌==◌,
  if◌then◌else◌, arith,
}
use grounded_search.Go.Errors.{Error}
use grounded_search.Main.Run.{
  Phase, waiting, shutting_down, draining, finished, RunState, Event, server_returns, signal,
  shutdown_returns, deadline, take_error, take_signal, take_deadline, initial, step, run,
  on_server_returns, on_take_error, on_take_signal, on_shutdown_returns, on_take_deadline,
  on_deadline,
}

abbrev pub is_some : {A : Type 0} → Option A → Bool
is_some none = false
is_some (some x) = true

abbrev pub is_finished : Phase → Bool
is_finished (finished r) = true
is_finished _ = false

-- The number of steps that `run` still has to take at most.
abbrev pub rank : Phase → ℕ
rank waiting = 3
rank shutting_down = 2
rank draining = 1
rank (finished r) = 0

abbrev pub receives : Phase → Bool
receives waiting = true
receives draining = true
receives _ = false

-- What `run` does next, where it can.
abbrev pub ready : Event → RunState → Bool
ready take_error s = receives s.phase && is_some s.returned
ready take_signal s = rank s.phase == 3 && s.signalled
ready (shutdown_returns r) s = rank s.phase == 2
ready take_deadline s = rank s.phase == 1 && s.deadline_passed
ready _ s = false

-- Until `run` returns, the channel Buffers what the server returned.
abbrev Buffers : Phase → Option (Option Error) → Bool → Type 0
Buffers (finished r) o b = b ≡ b
Buffers ph o b = b ≡ is_some o

abbrev Channel : RunState → Type 0
Channel s = Buffers s.phase s.returned s.buffered

-- The same of a state given by its fields, so that the phase and the flags can be split.
abbrev pub state : Phase → Option (Option Error) → Bool → Bool → Bool → ℕ → RunState
state ph o b g d n = record {
  phase = ph;
  returned = o;
  buffered = b;
  signalled = g;
  deadline_passed = d;
  shutdown_calls = n;
}

Channel-at :
    (ph : Phase) (o : Option (Option Error)) (b g d : Bool) (n : ℕ) (e : Event)
    → Channel (state ph o b g d n)
    → Channel (step e (state ph o b g d n))
unfolding step on_server_returns on_take_error on_take_signal on_shutdown_returns on_take_deadline
    on_deadline
Channel-at ph o b g d n (server_returns r) h = ground arith
Channel-at ph o b g d n signal h = h
Channel-at ph o b g d n (shutdown_returns none) h = ground arith
Channel-at ph o b g d n (shutdown_returns (some e)) h = ground arith
Channel-at ph o b g d n deadline h = ground arith
Channel-at ph o b g d n take_error h = ground arith
Channel-at ph o b g d n take_signal h = ground arith
Channel-at ph o b g d n take_deadline h = ground arith

step-Channel : (s : RunState) (e : Event) → Channel s → Channel (step e s)
step-Channel s e h =
    Channel-at s.phase s.returned s.buffered s.signalled s.deadline_passed s.shutdown_calls e h

-- An event that `run` can take brings it forward, and no other moves it.
abbrev pub Moves : Event → RunState → Type 0
Moves e s = if ready e s then rank (step e s).phase < rank s.phase else (step e s).phase ≡ s.phase

Moves-at :
    (ph : Phase) (o : Option (Option Error)) (b g d : Bool) (n : ℕ) (e : Event)
    → Channel (state ph o b g d n)
    → Moves e (state ph o b g d n)
unfolding step on_server_returns on_take_error on_take_signal on_shutdown_returns on_take_deadline
    on_deadline
Moves-at ph o b g d n (server_returns r) h = ground arith
Moves-at ph o b g d n signal h = refl
Moves-at ph o b g d n (shutdown_returns none) h = ground arith
Moves-at ph o b g d n (shutdown_returns (some e)) h = ground arith
Moves-at ph o b g d n deadline h = ground arith
Moves-at ph o b g d n take_error h = ground arith
Moves-at ph o b g d n take_signal h = ground arith
Moves-at ph o b g d n take_deadline h = ground arith

run-Channel : (es : List Event) (s : RunState) → Channel s → Channel (run es s)
unfolding run
run-Channel [] s h = h
run-Channel (e ∷ es) s h = run-Channel es (step e s) (step-Channel s e h)

-- In every state that `run` reaches, an event that the code waits for (a receive from the channel
-- that holds what the server returned, a context that is done, the return of Shutdown) takes it to
-- a phase with fewer steps left, of which there are three at most, and any other event leaves the
-- phase, and so a result, as it is.
pub run-Moves : (es : List Event) (e : Event) → Moves e (run es initial)
run-Moves es e =
    let s : RunState = run es initial in
    Moves-at s.phase s.returned s.buffered s.signalled s.deadline_passed s.shutdown_calls e
      (run-Channel es initial refl)

finishes_at :
    (ph : Phase) (o : Option (Option Error)) (b g d : Bool) (n : ℕ) (r x : Option Error)
    → Channel (state ph o b g d n)
    → o ≡ some r
    → is_finished (run (shutdown_returns x ∷ take_error ∷ []) (state ph o b g d n)).phase ≡ true
unfolding run step on_take_error on_shutdown_returns
finishes_at ph o b g d n r none h e = ground arith
finishes_at ph o b g d n r (some y) h e = ground arith

-- Once the server has returned, whatever happened before, `run` returns as soon as Shutdown returns
-- and the channel is received from.
pub run_finishes :
    (es : List Event) (r x : Option Error)
    → (run es initial).returned ≡ some r
    → is_finished (run (shutdown_returns x ∷ take_error ∷ []) (run es initial)).phase ≡ true
run_finishes es r x e =
    let s : RunState = run es initial in
    finishes_at s.phase s.returned s.buffered s.signalled s.deadline_passed s.shutdown_calls r x
      (run-Channel es initial refl) e
