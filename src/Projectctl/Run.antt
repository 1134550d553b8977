-- ===== src/Projectctl/Run.antt =====
-- The function `run`: the repository, Python, and the one command of the arguments.
use grounded_search.Prelude.{Option, none, some, List, [], ◌∷◌, ◌++◌, ok, err, ◌≡◌}
use grounded_search.Go.Str.{Str, codes}
use grounded_search.Go.Strings.{join}
use grounded_search.Go.Errors.{Error, message, Outcome}
use grounded_search.Projectctl.Commands.{Action, System, Application, execute}
use grounded_search.Projectctl.Locate.{Files, find_repository_root, select_python}
use grounded_search.Projectctl.Cleanup.{IsTidy}

module _ (files : Files) (os : System) where
  unfoldable pub run_arguments : Application → List Str → Option Error × List Action
  unfolding execute
  run_arguments app [] = execute os app (codes "help") []
  run_arguments app (command ∷ []) = execute os app command []
  run_arguments app (command ∷ more ∷ rest) =
      (some (message (codes "unexpected arguments: " ++ join (more ∷ rest) (codes " "))), [])

  unfoldable pub run_with_python : Str → Outcome Str → List Str → Option Error × List Action
  unfolding run_arguments
  run_with_python root (err e) arguments = (some e, [])
  run_with_python root (ok python) arguments =
      run_arguments (record { repository_root = root; python = python }) arguments

  unfoldable pub run_in : Option (Outcome Str) → List Str → Option (Option Error × List Action)
  unfolding run_with_python select_python
  run_in none arguments = none
  run_in (some (err e)) arguments = some (some e, [])
  run_in (some (ok root)) arguments =
      some (run_with_python root (select_python files root) arguments)

  -- `none` where the search for the repository does not end.
  unfoldable pub run : List Str → Option (Option Error × List Action)
  unfolding run_in
  run arguments = run_in (find_repository_root files) arguments

  abbrev Ends : List Str → Option (Outcome Str) → Type 0
  Ends arguments found =
      (r : Option Error × List Action) × (run_in found arguments ≡ some r) × IsTidy [] r.1
