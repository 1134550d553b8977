-- ===== src/Main/Invariant.antt =====
-- What holds of `run` at every moment, and what its result says.
use grounded_search.Prelude.{
  ◌≡◌, refl, Bool, true, false, Option, none, some, List, [], ◌∷◌, inl, inr, arith, Bool-cases, sym,
  ◌∙◌, subst,
}
use grounded_search.Go.Str.{codes}
use grounded_search.Go.Errors.{Error, wrap}
use grounded_search.Main.Run.{
  Phase, waiting, shutting_down, draining, finished, RunState, Event, server_returns, signal,
  shutdown_returns, deadline, take_error, take_signal, take_deadline, initial, is_clean,
  first_result, second_result, deadline_error, step, run, on_server_returns, on_take_error,
  on_take_signal, on_shutdown_returns, on_take_deadline, on_deadline,
}

-- Why `run` returned what it did.
pub data Explains (s : RunState) : Option Error → Type 0 where
  -- the server stopped by itself, or after Shutdown, with no error but ErrServerClosed
  clean : (r : Option Error) → s.returned ≡ some r → is_clean r ≡ true → Explains s none
  -- it failed before any signal was taken
  serve_failed :
      (e : Error)
      → s.returned ≡ some (some e)
      → is_clean (some e) ≡ false
      → s.shutdown_calls ≡ 0
      → Explains s (some (wrap (codes "listen and serve: ") e []))
  -- Shutdown failed
  shutdown_failed :
      (e : Error)
      → s.shutdown_calls ≡ 1
      → Explains s (some (wrap (codes "graceful shutdown: ") e []))
  -- it failed after Shutdown
  exit_failed :
      (e : Error)
      → s.returned ≡ some (some e)
      → is_clean (some e) ≡ false
      → s.shutdown_calls ≡ 1
      → Explains s (some (wrap (codes "server exit after shutdown: ") e []))
  -- it did not stop in time
  late : s.deadline_passed ≡ true → s.shutdown_calls ≡ 1 → Explains s (some deadline_error)

-- What holds in each phase.
abbrev pub PhaseHolds : RunState → Phase → Type 0
PhaseHolds s waiting = (s.shutdown_calls ≡ 0) × (s.deadline_passed ≡ false)
PhaseHolds s shutting_down = (s.shutdown_calls ≡ 1) × (s.signalled ≡ true)
PhaseHolds s draining = (s.shutdown_calls ≡ 1) × (s.signalled ≡ true)
PhaseHolds s (finished r) = Explains s r

abbrev pub Holds : RunState → Type 0
Holds s = PhaseHolds s s.phase

-- An explanation stays one as long as what it cites does.
Explains-keeps :
    (s u : RunState) {r : Option Error}
    → u.shutdown_calls ≡ s.shutdown_calls
    → (s.deadline_passed ≡ true → u.deadline_passed ≡ true)
    → ((x : Option Error) → s.returned ≡ some x → u.returned ≡ some x)
    → Explains s r
    → Explains u r
Explains-keeps s u c d k (clean x e h) = clean x (k x e) h
Explains-keeps s u c d k (serve_failed e g h n) = serve_failed e (k (some e) g) h (c ∙ n)
Explains-keeps s u c d k (shutdown_failed e n) = shutdown_failed e (c ∙ n)
Explains-keeps s u c d k (exit_failed e g h n) = exit_failed e (k (some e) g) h (c ∙ n)
Explains-keeps s u c d k (late h n) = late (d h) (c ∙ n)

first_result-Explains :
    (s : RunState) (x : Option Error)
    → s.returned ≡ some x
    → s.shutdown_calls ≡ 0
    → Explains s (first_result x)
unfolding first_result is_clean
first_result-Explains s none e n = clean none e refl
first_result-Explains s (some d) e n = elim (Bool-cases (is_clean (some d))) [
  | inl good ↦ rw good (clean (some d) e good)
  | inr bad ↦ rw bad (serve_failed d e bad n)
]

second_result-Explains :
    (s : RunState) (x : Option Error)
    → s.returned ≡ some x
    → s.shutdown_calls ≡ 1
    → Explains s (second_result x)
unfolding second_result is_clean
second_result-Explains s none e n = clean none e refl
second_result-Explains s (some d) e n = elim (Bool-cases (is_clean (some d))) [
  | inl good ↦ rw good (clean (some d) e good)
  | inr bad ↦ rw bad (exit_failed d e bad n)
]

module _ (s : RunState) (h : Holds s) where
  stays : {u : RunState} → u ≡ s → Holds u
  stays e = subst Holds (sym e) h

  at_phase : (ph : Phase) → s.phase ≡ ph → PhaseHolds s ph
  at_phase ph e = subst (PhaseHolds s) e h

  -- A change that no phase looks at, but for an explanation that it keeps.
  moves :
      (u : RunState) (ph : Phase)
      → s.phase ≡ ph
      → u.phase ≡ ph
      → u.shutdown_calls ≡ s.shutdown_calls
      → (ph ≡ waiting → u.deadline_passed ≡ s.deadline_passed)
      → (s.deadline_passed ≡ true → u.deadline_passed ≡ true)
      → (s.signalled ≡ true → u.signalled ≡ true)
      → ((x : Option Error) → s.returned ≡ some x → u.returned ≡ some x)
      → Holds u
  moves u waiting e e' c w d g k =
      let (n, l) = at_phase waiting e in subst (PhaseHolds u) (sym e') (c ∙ n, w refl ∙ l)
  moves u shutting_down e e' c w d g k =
      let (n, l) = at_phase shutting_down e in subst (PhaseHolds u) (sym e') (c ∙ n, g l)
  moves u draining e e' c w d g k =
      let (n, l) = at_phase draining e in subst (PhaseHolds u) (sym e') (c ∙ n, g l)
  moves u (finished r) e e' c w d g k =
      subst (PhaseHolds u) (sym e') (Explains-keeps s u c d k (at_phase (finished r) e))

  server_returns-Holds :
      (r : Option Error) (o : Option (Option Error))
      → s.returned ≡ o
      → Holds (on_server_returns r s o)
  unfolding on_server_returns
  server_returns-Holds r none e =
      moves (record s { returned = some r; buffered = true }) s.phase refl refl refl (λ _. refl)
        (λ q. q) (λ q. q) (λ x q. absurd (ground arith))
  server_returns-Holds r (some x) e = h

  take_error-Holds :
      (ph : Phase) (o : Option (Option Error)) (b : Bool)
      → s.phase ≡ ph
      → s.returned ≡ o
      → Holds (on_take_error s ph o b)
  unfolding on_take_error
  take_error-Holds waiting (some r) true e q =
      first_result-Explains (record s { phase = finished (first_result r); buffered = false }) r q
        (at_phase waiting e).0
  take_error-Holds draining (some r) true e q =
      second_result-Explains (record s { phase = finished (second_result r); buffered = false }) r q
        (at_phase draining e).0
  take_error-Holds _ _ _ e q = h

  take_signal-Holds :
      (ph : Phase) (b : Bool) → s.phase ≡ ph → s.signalled ≡ b → Holds (on_take_signal s ph b)
  unfolding on_take_signal
  take_signal-Holds waiting true e q = (omega (arith, (at_phase waiting e).0), q)
  take_signal-Holds _ _ e q = h

  shutdown_returns-Holds :
      (r : Option Error) (ph : Phase) → s.phase ≡ ph → Holds (on_shutdown_returns r s ph)
  unfolding on_shutdown_returns
  shutdown_returns-Holds none shutting_down e = at_phase shutting_down e
  shutdown_returns-Holds (some x) shutting_down e = shutdown_failed x (at_phase shutting_down e).0
  shutdown_returns-Holds none _ e = h
  shutdown_returns-Holds (some x) _ e = h

  take_deadline-Holds :
      (ph : Phase) (b : Bool)
      → s.phase ≡ ph
      → s.deadline_passed ≡ b
      → Holds (on_take_deadline s ph b)
  unfolding on_take_deadline
  take_deadline-Holds draining true e q = late q (at_phase draining e).0
  take_deadline-Holds _ _ e q = h

  deadline-Holds : (ph : Phase) → s.phase ≡ ph → Holds (on_deadline s ph)
  unfolding on_deadline
  deadline-Holds shutting_down e =
      moves (record s { deadline_passed = true }) shutting_down e e refl (λ q. absurd (cc q))
        (λ _. refl) (λ q. q) (λ x q. q)
  deadline-Holds draining e =
      moves (record s { deadline_passed = true }) draining e e refl (λ q. absurd (cc q)) (λ _. refl)
        (λ q. q) (λ x q. q)
  deadline-Holds waiting e = h
  deadline-Holds (finished _) e = h

  step-Holds : (e : Event) → Holds (step e s)
  unfolding step
  step-Holds (server_returns r) = server_returns-Holds r s.returned refl
  step-Holds signal =
      moves (record s { signalled = true }) s.phase refl refl refl (λ _. refl) (λ q. q) (λ _. refl)
        (λ x q. q)
  step-Holds (shutdown_returns r) = shutdown_returns-Holds r s.phase refl
  step-Holds deadline = deadline-Holds s.phase refl
  step-Holds take_error = take_error-Holds s.phase s.returned s.buffered refl refl
  step-Holds take_signal = take_signal-Holds s.phase s.signalled refl refl
  step-Holds take_deadline = take_deadline-Holds s.phase s.deadline_passed refl refl

run-keeps : (es : List Event) (s : RunState) → Holds s → Holds (run es s)
unfolding run
run-keeps [] s h = h
run-keeps (e ∷ es) s h = run-keeps es (step e s) (step-Holds s h e)

pub run-Holds : (es : List Event) → Holds (run es initial)
run-Holds es = run-keeps es initial (refl, refl)
