-- ===== src/Projectctl/Examples.antt =====
-- Tests of the project commands, and their theorems on a concrete system.
use grounded_search.Prelude.{
  ℕ, Option, none, some, List, [], ◌∷◌, ok, err, ◌≡◌, refl, false, if◌then◌else◌,
}
use grounded_search.Go.Str.{Str, codes, str_eq}
use grounded_search.Go.Strings.{join, to_upper, trim_space, contains_byte}
use grounded_search.Go.Errors.{Error, message}
use grounded_search.Projectctl.Environment.{
  FilePaths, python_path_key, python_key, python_source, integration_environment,
}
use grounded_search.Projectctl.Variables.{env_lookup, looked_up, integration_environment_lookup}
use grounded_search.Projectctl.Commands.{Command, System, Application, execute, verify_core}
use grounded_search.Projectctl.Executed.{executed_of, stages}
use grounded_search.Projectctl.Order.{Verified, verify_core-Verified}
use grounded_search.Projectctl.Cleanup.{IsTidy, execute-IsTidy}
use grounded_search.Projectctl.Locate.{Files, find_repository_root}
use grounded_search.Projectctl.Main.{Exit, main, arguments}

abbrev environ : List Str
environ = codes "pythonpath=/old" ∷ codes "HOME=/root" ∷ []

spelling_gone : looked_up environ python_path_key (codes "/new") (codes "pythonpath") ≡ none
unfolding str_eq to_upper
spelling_gone = refl

-- A path of one element, whose directory is the empty path.
abbrev paths : FilePaths
paths = record { join = λ parts. join parts (codes "/"); dir = λ path. [] }

integration_environment_lookup_example :
    env_lookup
      (integration_environment paths environ (codes "/repo") (codes "python3"))
      (codes "HOME")
    ≡ (if str_eq (codes "HOME") python_path_key
        then some (python_source paths (codes "/repo"))
        else if str_eq (to_upper (codes "HOME")) python_path_key
        then none
        else looked_up environ python_key (codes "python3") (codes "HOME"))
unfolding contains_byte
integration_environment_lookup_example =
    integration_environment_lookup paths environ (codes "/repo") (codes "python3") (codes "HOME")
      refl

-- The Go tests fail; everything else succeeds.
abbrev process : Command → Option Error
process command =
    if str_eq command.name (codes "go") then some (message (codes "exit status 1")) else none

abbrev os : System
os = record {
  paths = paths;
  environ = environ;
  windows = false;
  quote = λ part. part;
  process = process;
  mkdir_temp = ok (codes "/tmp/groundedsearch-build-1");
  write_usage = none;
}

abbrev app : Application
app = record { repository_root = codes "/repo"; python = codes "python3" }

verify_core-Verified_example :
    Verified os
      (stages os app)
      (executed_of [])
      (executed_of (verify_core os app []).1)
      (verify_core os app []).0
verify_core-Verified_example = verify_core-Verified os app []

execute-IsTidy_example : IsTidy [] (execute os app (codes "build-go") []).1
execute-IsTidy_example = execute-IsTidy os app (codes "build-go") []

-- Every path is a file.
abbrev files : Files
files = record {
  paths = paths;
  stat = λ path. ok false;
  getwd = ok (codes "repo");
  getenv = λ key. codes " python3.12 ";
  look_path = λ name. err (message (codes "not found"));
}

abbrev code_of : Option Exit → ℕ
code_of none = 0
code_of (some x) = x.code

-- The Go tests fail, so the exit code is 1.
exit_code_1 : code_of (main files os (arguments os files)) ≡ 1
unfolding main str_eq trim_space find_repository_root
exit_code_1 = refl
