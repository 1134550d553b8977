-- ===== src/Projectctl/Commands.antt =====
-- The commands of `application`, which act by printing, running processes and keeping a temporary
-- directory. What they did is a list of actions, the latest at the end.
use grounded_search.Prelude.{Bool, Option, none, some, List, [], ◌∷◌, ◌++◌, if◌then◌else◌, ok, err}
use grounded_search.Go.Str.{Str, codes, str_eq}
use grounded_search.Go.Strings.{contains_any, join}
use grounded_search.Go.Errors.{Error, quoted, wrap, Outcome}
use grounded_search.Projectctl.Environment.{FilePaths, python_environment, integration_environment}

-- A process: the arguments of `Run`.
pub record Command : Type 0 where
  pub name : Str
  pub args : List Str
  pub directory : Str
  pub environment : List Str

pub data Action : Type 0 where
  printed : Str → Action
  executed : Command → Action
  created removed : Str → Action

-- What the operating system does: the end of a process, os.MkdirTemp, the write to standard output.
-- `quote` is the verb %q.
pub record System : Type 0 where
  pub paths : FilePaths
  pub environ : List Str
  pub windows : Bool
  pub quote : Str → Str
  pub process : Command → Option Error
  pub mkdir_temp : Outcome Str
  pub write_usage : Option Error

pub record Application : Type 0 where
  pub repository_root : Str
  pub python : Str

-- An operation on the actions so far; `none` is a nil error.
abbrev pub Task : Type 0
Task = List Action → Option Error × List Action

abbrev pub usage : Str
usage =
    codes
      "GroundedSearch project commands\n\nUsage:\n  go run ./tools/projectctl <command>\n\nCommands:\n  help             Show this help text\n  test-go          Run Go unit tests with coverage\n  test-python      Run Python tests with coverage\n  contracts        Validate the versioned API contracts\n  build-go         Build the Go search API in a temporary directory\n  integration      Run the service integration test suite\n  verify-core      Run contracts, unit tests, build, and integration tests\n"

-- The test of a step's error in the loop of verifyCore; `next` runs the steps behind it.
unfoldable pub after_task : Str → Option Error × List Action → Task → Option Error × List Action
after_task name (none, done) next = next done
after_task name (some e, done) next = (some (wrap (name ++ codes " failed: ") e []), done)

module _ (os : System) where
  format_part : Str → Str
  format_part part = if contains_any part (b' ' ∷ 9 ∷ 10 ∷ b'"' ∷ []) then os.quote part else part

  format_parts : List Str → List Str
  unfolding format_part
  format_parts [] = []
  format_parts (part ∷ parts) = format_part part ∷ format_parts parts

  unfoldable pub format_command : Str → List Str → Str
  unfolding format_parts
  format_command name args = join (format_parts (name ∷ args)) (codes " ")

  -- execRunner.Run.
  unfoldable pub run_command : Command → Task
  unfolding format_command
  run_command command actions =
      let text = format_command command.name command.args in
      let ran =
        (actions ++ (printed (codes "$ " ++ (text ++ codes "\n")) ∷ []))
        ++ (executed command ∷ []) in
      (
        (elim (os.process command) [
          | none ↦ none
          | some e ↦ some (wrap (codes "run " ++ (text ++ codes ": ")) e [])
        ]),
        ran,
      )

  module _ (app : Application) where
    abbrev in_root : List Str → Str
    in_root parts = os.paths.join (app.repository_root ∷ parts)

    abbrev pub test_go_command : Command
    test_go_command = record {
      name = codes "go";
      args = codes "test" ∷ codes "./..." ∷ codes "-cover" ∷ [];
      directory = in_root (codes "apps" ∷ codes "search-api" ∷ []);
      environment = os.environ;
    }

    abbrev pub test_python_command : Command
    test_python_command = record {
      name = app.python;
      args = codes "-m" ∷ codes "pytest" ∷ [];
      directory = in_root (codes "services" ∷ codes "ml-service" ∷ []);
      environment = python_environment os.paths os.environ app.repository_root;
    }

    abbrev pub contracts_command : Command
    contracts_command = record {
      name = app.python;
      args = in_root (codes "scripts" ∷ codes "validate_contracts.py" ∷ []) ∷ [];
      directory = app.repository_root;
      environment = python_environment os.paths os.environ app.repository_root;
    }

    abbrev output_name : Str
    output_name = if os.windows then codes "search-api" ++ codes ".exe" else codes "search-api"

    abbrev pub build_go_command : Str → Command
    build_go_command build_directory = record {
      name = codes "go";
      args =
          codes "build"
          ∷ codes "-o"
          ∷ os.paths.join (build_directory ∷ output_name ∷ [])
          ∷ codes "./cmd/server"
          ∷ [];
      directory = in_root (codes "apps" ∷ codes "search-api" ∷ []);
      environment = os.environ;
    }

    abbrev pub integration_command : Command
    integration_command = record {
      name = codes "go";
      args = codes "test" ∷ codes "./..." ∷ codes "-count=1" ∷ codes "-v" ∷ [];
      directory = in_root (codes "tests" ∷ codes "integration" ∷ []);
      environment = integration_environment os.paths os.environ app.repository_root app.python;
    }

    unfoldable pub test_go : Task
    unfolding run_command
    test_go = run_command test_go_command

    unfoldable pub test_python : Task
    unfolding run_command
    test_python = run_command test_python_command

    unfoldable pub contracts : Task
    unfolding run_command
    contracts = run_command contracts_command

    -- The build in the directory that os.MkdirTemp made, behind which the deferred RemoveAll runs.
    unfoldable pub build_in : Outcome Str → Task
    unfolding run_command
    build_in (err e) actions =
        (some (wrap (codes "create temporary build directory: ") e []), actions)
    build_in (ok directory) actions =
        let (result, built) =
          run_command (build_go_command directory) (actions ++ (created directory ∷ [])) in
        (result, built ++ (removed directory ∷ []))

    unfoldable pub build_go : Task
    unfolding build_in
    build_go = build_in os.mkdir_temp

    unfoldable pub integration : Task
    unfolding run_command
    integration = run_command integration_command

    unfoldable pub steps : List (Str × Task)
    unfolding contracts test_go test_python build_go integration
    steps =
        (codes "contracts", contracts)
        ∷ (codes "Go unit tests", test_go)
        ∷ (codes "Python unit tests", test_python)
        ∷ (codes "Go build", build_go)
        ∷ (codes "service integration tests", integration)
        ∷ []

    -- The loop of verifyCore, and the line behind it.
    unfoldable pub run_steps : List (Str × Task) → Task
    unfolding after_task
    run_steps [] actions = (none, actions ++ (printed (codes "\nCORE VERIFICATION PASSED\n") ∷ []))
    run_steps ((name, task) ∷ rest) actions =
        after_task name (task (actions ++ (printed (codes "\n==> " ++ (name ++ codes "\n")) ∷ [])))
          (run_steps rest)

    unfoldable pub verify_core : Task
    unfolding run_steps steps
    verify_core = run_steps steps

    unfoldable pub execute : Str → Task
    unfolding test_go test_python contracts build_go integration verify_core
    execute command actions =
        if str_eq command (codes "help")
        then (os.write_usage, actions ++ (printed usage ∷ []))
        else if str_eq command (codes "-h")
        then (os.write_usage, actions ++ (printed usage ∷ []))
        else if str_eq command (codes "--help")
        then (os.write_usage, actions ++ (printed usage ∷ []))
        else if str_eq command (codes "test-go")
        then test_go actions
        else if str_eq command (codes "test-python")
        then test_python actions
        else if str_eq command (codes "contracts")
        then contracts actions
        else if str_eq command (codes "build-go")
        then build_go actions
        else if str_eq command (codes "integration")
        then integration actions
        else if str_eq command (codes "verify-core")
        then verify_core actions
        else (some (quoted (codes "unknown command ") command (codes "\n\n" ++ usage)), actions)
