-- ===== src/Projectctl/Executed.antt =====
-- The processes that the steps of `verify-core` run, and what each step returns.
use grounded_search.Prelude.{
  Option, none, some, List, [], ◌∷◌, ◌++◌, ok, err, ◌≡◌, refl, append-nil, ap, sym, ◌∙◌,
}
use grounded_search.Go.Str.{Str, codes}
use grounded_search.Go.Errors.{Error, wrap, Outcome}
use grounded_search.Projectctl.Commands.{
  Command, Action, printed, executed, created, removed, System, Application, Task, format_command,
  run_command, test_go_command, test_python_command, contracts_command, build_go_command,
  integration_command, build_in,
}

-- The processes that were run.
unfoldable pub executed_of : List Action → List Command
executed_of [] = []
executed_of (executed c ∷ actions) = c ∷ executed_of actions
executed_of (printed text ∷ actions) = executed_of actions
executed_of (created d ∷ actions) = executed_of actions
executed_of (removed d ∷ actions) = executed_of actions

pub executed_of-append : (a b : List Action) → executed_of (a ++ b) ≡ executed_of a ++ executed_of b
unfolding executed_of
executed_of-append [] b = refl
executed_of-append (executed c ∷ a) b = ap (λ r. c ∷ r) (executed_of-append a b)
executed_of-append (printed text ∷ a) b = executed_of-append a b
executed_of-append (created d ∷ a) b = executed_of-append a b
executed_of-append (removed d ∷ a) b = executed_of-append a b

-- A step: its name and its process, which the build has only with a temporary directory.
abbrev pub Stage : Type 0
Stage = Str × Outcome Command

abbrev build_stage : (Str → Command) → Outcome Str → Outcome Command
build_stage command (ok directory) = ok (command directory)
build_stage command (err e) = err e

abbrev pub commands : List Stage → List Command
commands [] = []
commands ((name, ok c) ∷ stages) = c ∷ commands stages
commands ((name, err e) ∷ stages) = commands stages

module _ (os : System) where
  abbrev run_error : Command → Option Error → Option Error
  run_error c none = none
  run_error c (some e) =
      some (wrap (codes "run " ++ (format_command os c.name c.args ++ codes ": ")) e [])

  -- What a step returns.
  abbrev pub outcome : Outcome Command → Option Error
  outcome (ok c) = run_error c (os.process c)
  outcome (err e) = some (wrap (codes "create temporary build directory: ") e [])

  abbrev pub stages : Application → List Stage
  stages app =
      (codes "contracts", ok (contracts_command os app))
      ∷ (codes "Go unit tests", ok (test_go_command os app))
      ∷ (codes "Python unit tests", ok (test_python_command os app))
      ∷ (codes "Go build", build_stage (build_go_command os app) os.mkdir_temp)
      ∷ (codes "service integration tests", ok (integration_command os app))
      ∷ []

  -- A task returns what its step returns, and runs its process.
  abbrev pub Runs : Task → Outcome Command → List Action → Type 0
  Runs task stage actions =
      ((task actions).0 ≡ outcome stage)
      × (executed_of (task actions).1 ≡ executed_of actions ++ commands (([], stage) ∷ []))

  executed_by_run :
      (c : Command) (text : Str) (actions : List Action)
      → executed_of ((actions ++ (printed text ∷ [])) ++ (executed c ∷ []))
        ≡ executed_of actions ++ (c ∷ [])
  unfolding executed_of
  executed_by_run c text actions =
      executed_of-append (actions ++ (printed text ∷ [])) (executed c ∷ [])
      ∙ ap (λ r. r ++ (c ∷ []))
          (executed_of-append actions (printed text ∷ []) ∙ append-nil (executed_of actions))

  pub run_command-Runs :
      (c : Command) (actions : List Action) → Runs (run_command os c) (ok c) actions
  unfolding run_command
  run_command-Runs c actions = (run_error_eq (os.process c), executed_by_run c _ actions)
    where
      run_error_eq :
          (o : Option Error)
          → (elim o [
            | none ↦ none
            | some e ↦
                some (wrap (codes "run " ++ (format_command os c.name c.args ++ codes ": ")) e [])
          ])
            ≡ run_error c o
      run_error_eq none = refl
      run_error_eq (some e) = refl

  pub build_in-Runs :
      (app : Application) (o : Outcome Str) (actions : List Action)
      → Runs (build_in os app o) (build_stage (build_go_command os app) o) actions
  unfolding build_in executed_of
  build_in-Runs app (err e) actions = (refl, sym (append-nil (executed_of actions)))
  build_in-Runs app (ok d) actions =
      let c = build_go_command os app d in
      let start = actions ++ (created d ∷ []) in
      let (result, ran) = run_command-Runs c start in
      (
        result,
        executed_of-append (run_command os c start).1 (removed d ∷ [])
            ∙ append-nil (executed_of (run_command os c start).1)
            ∙ ran
            ∙ ap (λ r. r ++ (c ∷ []))
                (executed_of-append actions (created d ∷ []) ∙ append-nil (executed_of actions)),
      )
