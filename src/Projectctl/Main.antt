-- ===== src/Projectctl/Main.antt =====
-- The function `main`, and what the exit code of the core verification says.
use grounded_search.Prelude.{ℕ, Option, none, some, List, [], ◌∷◌, ok, ◌≡◌, ◌↔◌, All}
use grounded_search.Go.Str.{Str, codes}
use grounded_search.Go.Errors.{Error, Outcome}
use grounded_search.Projectctl.Commands.{Action, System, Application}
use grounded_search.Projectctl.Executed.{Stage, outcome, stages}
use grounded_search.Projectctl.Locate.{Files, select_python}
use grounded_search.Projectctl.Run.{run_in, run}

-- The end of the process: its exit code, the error that was printed to standard error, and what it did.
pub record Exit : Type 0 where
  pub code : ℕ
  pub reported : Option Error
  pub actions : List Action

unfoldable pub exit_with : Option Error × List Action → Exit
exit_with (none, actions) = record { code = 0; reported = none; actions = actions }
exit_with (some e, actions) = record { code = 1; reported = some e; actions = actions }

-- `none` where `run` does not end.
unfoldable pub exit_of : Option (Option Error × List Action) → Option Exit
unfolding exit_with
exit_of none = none
exit_of (some r) = some (exit_with r)

unfoldable pub main : Files → System → List Str → Option Exit
unfolding exit_of run
main files os arguments = exit_of (run files os arguments)

module _ (os : System) where
  abbrev Good : Stage → Type 0
  Good stage = outcome os stage.1 ≡ none

  -- The five steps succeed: the process of each ends with no error, and a directory can be made.
  abbrev pub Succeeds : Application → Type 0
  Succeeds app = All Good (stages os app)

  module _ (files : Files) where
    abbrev pub arguments : List Str
    arguments = codes "verify-core" ∷ []

    -- The repository and Python are found, and the five steps succeed.
    pub record Passes (found : Outcome Str) : Type 0 where
      pub root : Str
      pub python : Str
      pub located : found ≡ ok root
      pub selected : select_python files root ≡ ok python
      pub succeeds : Succeeds (record { repository_root = root; python = python })

    abbrev Told : Option (Outcome Str) → Outcome Str → Type 0
    Told ran found =
        (x : Exit) × (exit_of (run_in files os ran arguments) ≡ some x)
        × ((x.code ≡ 0) ↔ Passes found)
