-- ===== src/Projectctl/Order.antt =====
-- `verify-core` runs its steps in order and stops at the first failure.
use grounded_search.Prelude.{
  Option, none, some, List, [], ◌∷◌, ◌++◌, ok, err, ◌≡◌, refl, All, append_assoc, append-nil, ap,
  sym, ◌∙◌,
}
use grounded_search.Go.Str.{Str, codes}
use grounded_search.Go.Errors.{Error, wrap, Outcome}
use grounded_search.Projectctl.Commands.{
  Command, Action, printed, System, Application, Task, test_go_command, test_python_command,
  contracts_command, integration_command, test_go, test_python, contracts, build_go, integration,
  steps, run_steps, after_task, verify_core,
}
use grounded_search.Projectctl.Executed.{
  executed_of, executed_of-append, Stage, commands, outcome, stages, Runs, run_command-Runs,
  build_in-Runs,
}

module _ (os : System) where
  -- Tasks that run the steps of a list.
  data Fits : List (Str × Task) → List Stage → Type 0 where
    nil : Fits [] []
    cons :
        {name : Str} {task : Task} {stage : Outcome Command} {tasks : List (Str × Task)}
        {rest : List Stage}
        → ((actions : List Action) → Runs os task stage actions)
        → Fits tasks rest
        → Fits ((name, task) ∷ tasks) ((name, stage) ∷ rest)

  steps-Fits : (app : Application) → Fits (steps os app) (stages os app)
  unfolding steps contracts test_go test_python build_go integration
  steps-Fits app = cons (run_command-Runs os (contracts_command os app)) (
      cons (run_command-Runs os (test_go_command os app)) (
        cons (run_command-Runs os (test_python_command os app)) (
          cons (build_in-Runs os app os.mkdir_temp)
            (cons (run_command-Runs os (integration_command os app)) nil))))

  -- The steps `before` succeeded and were run in order. Either no step is left and the result is nil, or
  -- the next one was tried and failed, its error is returned with its name, and no other was run.
  pub data Verified (all : List Stage) (start done : List Command) : Option Error → Type 0 where
    passed :
        All (λ stage. outcome os stage.1 ≡ none) all
        → done ≡ start ++ commands all
        → Verified all start done none
    stopped :
        (before after : List Stage) (name : Str) (stage : Outcome Command) (e : Error)
        → all ≡ before ++ ((name, stage) ∷ after)
        → All (λ s. outcome os s.1 ≡ none) before
        → outcome os stage ≡ some e
        → done ≡ start ++ commands (before ++ ((name, stage) ∷ []))
        → Verified all start done (some (wrap (name ++ codes " failed: ") e []))

  commands_cons :
      (name : Str) (stage : Outcome Command) (rest : List Stage)
      → commands ((name, stage) ∷ rest) ≡ commands (([], stage) ∷ []) ++ commands rest
  commands_cons name (ok c) rest = refl
  commands_cons name (err e) rest = refl

  longer :
      (name : Str) (stage : Outcome Command) (rest : List Stage) (start next done : List Command)
      → next ≡ start ++ commands (([], stage) ∷ [])
      → done ≡ next ++ commands rest
      → done ≡ start ++ commands ((name, stage) ∷ rest)
  longer name stage rest start next done h k =
      k
      ∙ ap (λ r. r ++ commands rest) h
      ∙ append_assoc start (commands (([], stage) ∷ [])) (commands rest)
      ∙ ap (λ r. start ++ r) (sym (commands_cons name stage rest))

  after_success :
      (name : Str) (stage : Outcome Command) (rest : List Stage) (start next done : List Command)
      (result : Option Error)
      → outcome os stage ≡ none
      → next ≡ start ++ commands (([], stage) ∷ [])
      → Verified rest next done result
      → Verified ((name, stage) ∷ rest) start done result
  after_success name stage rest start next done _ good h (passed all k) =
      passed (good, all) (longer name stage rest start next done h k)
  after_success name stage rest start next done _ good h
        (stopped before after name' stage' e split all bad k) =
      stopped ((name, stage) ∷ before) after name' stage' e (ap (λ r. (name, stage) ∷ r) split)
        (good, all) bad (longer name stage (before ++ ((name', stage') ∷ [])) start next done h k)

  at_failure :
      (name : Str) (stage : Outcome Command) (rest : List Stage) (start done : List Command)
      (e : Error)
      → outcome os stage ≡ some e
      → done ≡ start ++ commands (([], stage) ∷ [])
      → Verified ((name, stage) ∷ rest) start done (some (wrap (name ++ codes " failed: ") e []))
  at_failure name stage rest start done e bad h =
      stopped [] rest name stage e refl tt bad
        (h ∙ ap (λ r. start ++ r) (sym (commands_cons name stage [] ∙ append-nil _)))

  module _ (app : Application) where
    abbrev Ends : List (Str × Task) → List Stage → List Action → Type 0
    Ends tasks stages actions =
        Verified stages (executed_of actions) (executed_of (run_steps os app tasks actions).1)
          (run_steps os app tasks actions).0

    banner : Str → List Action → List Action
    banner name actions = actions ++ (printed (codes "\n==> " ++ (name ++ codes "\n")) ∷ [])

    banner-executed :
        (name : Str) (actions : List Action)
        → executed_of (banner name actions) ≡ executed_of actions
    unfolding executed_of banner
    banner-executed name actions =
        executed_of-append actions (printed (codes "\n==> " ++ (name ++ codes "\n")) ∷ [])
        ∙ append-nil (executed_of actions)

    one_step :
        (name : Str) (stage : Outcome Command) (tasks : List (Str × Task)) (rest : List Stage)
        (start : List Command) (ran : Option Error × List Action)
        → ran.0 ≡ outcome os stage
        → executed_of ran.1 ≡ start ++ commands (([], stage) ∷ [])
        → Ends tasks rest ran.1
        → Verified
            ((name, stage) ∷ rest)
            start
            (executed_of (after_task name ran (run_steps os app tasks)).1)
            (after_task name ran (run_steps os app tasks)).0
    unfolding after_task
    one_step name stage tasks rest start (none, done) e k ih =
        after_success name stage rest start _ _ _ (sym e) k ih
    one_step name stage tasks rest start (some d, done) e k ih =
        at_failure name stage rest start _ d (sym e) k

    run_steps-Verified :
        (tasks : List (Str × Task)) (stages : List Stage) (actions : List Action)
        → Fits tasks stages
        → Ends tasks stages actions
    unfolding run_steps executed_of banner
    run_steps-Verified _ _ actions nil =
        passed tt (executed_of-append actions (printed (codes "\nCORE VERIFICATION PASSED\n") ∷ []))
    run_steps-Verified _ _ actions (cons {name} {task} {stage} {tasks} {rest} f fits) =
        let (result, ran) = f (banner name actions) in
        one_step name stage tasks rest (executed_of actions) (task (banner name actions)) result
          (ran ∙ ap (λ r. r ++ commands (([], stage) ∷ [])) (banner-executed name actions))
          (run_steps-Verified tasks rest (task (banner name actions)).1 fits)

    -- The core verification runs the contracts, the Go tests, the Python tests, the build and the
    -- integration tests in this order. It returns nil exactly where each of them succeeded; otherwise it
    -- returns the error of the first that failed, with its name, and runs none behind that one. Where no
    -- temporary directory can be made, that is the failure of the build, and no build is run.
    pub verify_core-Verified :
        (actions : List Action)
        → Verified
            (stages os app)
            (executed_of actions)
            (executed_of (verify_core os app actions).1)
            (verify_core os app actions).0
    unfolding verify_core
    verify_core-Verified actions =
        run_steps-Verified (steps os app) (stages os app) actions (steps-Fits app)
