-- ===== src/Projectctl/Locate.antt =====
-- The search for the root of the repository and for Python.
use grounded_search.Prelude.{
  ℕ, zero, suc, Bool, true, false, ◌&&◌, Option, none, some, List, [], ◌∷◌, if◌then◌else◌, ok, err,
  length,
}
use grounded_search.Go.Str.{Str, codes, str_eq}
use grounded_search.Go.Strings.{trim_space}
use grounded_search.Go.Errors.{Error, message, quoted, quoted_wrap, wrap, Outcome}
use grounded_search.Projectctl.Environment.{FilePaths, python_key}

-- What os.Stat, os.Getwd, os.Getenv and exec.LookPath answer; a path that exists is a directory or not.
pub record Files : Type 0 where
  pub paths : FilePaths
  pub stat : Str → Outcome Bool
  pub getwd : Outcome Str
  pub getenv : Str → Str
  pub look_path : Str → Outcome Str

abbrev pub not_located : Error
not_located = message (codes "could not locate the GroundedSearch repository root")

module _ (files : Files) where
  -- A path that exists and is no directory.
  unfoldable pub is_file : Str → Bool
  is_file path = elim (files.stat path) [
    | err e ↦ false
    | ok is_dir ↦ if is_dir then false else true
  ]

  all_files : List Str → Bool
  unfolding is_file
  all_files [] = true
  all_files (path ∷ rest) = is_file path && all_files rest

  unfoldable pub is_repository_root : Str → Bool
  unfolding all_files
  is_repository_root directory = all_files (
      files.paths.join (directory ∷ codes "apps" ∷ codes "search-api" ∷ codes "go.mod" ∷ [])
      ∷ files.paths.join
          (directory ∷ codes "services" ∷ codes "ml-service" ∷ codes "pyproject.toml" ∷ [])
      ∷ files.paths.join
          (directory ∷ codes "api" ∷ codes "internal" ∷ codes "ml-service-v1.yaml" ∷ [])
      ∷ [])

  -- The loop of findRepositoryRoot, on fuel; `none` where that is used up.
  unfoldable pub climb : ℕ → Str → Option (Outcome Str)
  unfolding is_repository_root
  climb zero directory = none
  climb (suc fuel) directory =
      let rest = climb fuel (files.paths.dir directory) in
      if is_repository_root directory
      then some (ok directory)
      else if str_eq (files.paths.dir directory) directory
      then some (err not_located)
      else rest

  -- A parent is shorter than its directory, so there are at most as many rounds as bytes, and one.
  unfoldable pub search_from : Outcome Str → Option (Outcome Str)
  unfolding climb
  search_from (err e) = some (err (wrap (codes "get current directory: ") e []))
  search_from (ok directory) = climb (suc (length directory)) directory

  unfoldable pub find_repository_root : Option (Outcome Str)
  unfolding search_from
  find_repository_root = search_from files.getwd

  abbrev in_venv : Str → List Str → Str
  in_venv root parts =
      files.paths.join (root ∷ codes "services" ∷ codes "ml-service" ∷ codes ".venv" ∷ parts)

  -- The candidates in the virtual environment.
  abbrev pub windows_python : Str → Str
  windows_python root = in_venv root (codes "Scripts" ∷ codes "python.exe" ∷ [])

  abbrev pub unix_python : Str → Str
  unix_python root = in_venv root (codes "bin" ∷ codes "python" ∷ [])

  unfoldable pub first_file : List Str → Option Str
  unfolding is_file
  first_file [] = none
  first_file (candidate ∷ candidates) =
      let rest = first_file candidates in if is_file candidate then some candidate else rest

  unfoldable pub look_up_python : Outcome Str
  look_up_python = elim (files.look_path (codes "python")) [
    | ok python ↦ ok python
    | err e ↦ elim (files.look_path (codes "python3")) [
      | ok python3 ↦ ok python3
      | err e3 ↦
          err (message (codes "Python was not found in the ML service virtual environment or PATH"))
    ]
  ]

  unfoldable pub configured_python : Str → Outcome Str
  configured_python configured = elim (files.stat configured) [
    | err e ↦ err (
        quoted_wrap (codes "configured GROUNDEDSEARCH_PYTHON ") configured
          (codes " is unavailable: ") e)
    | ok is_dir ↦
        if is_dir
        then err (
            quoted (codes "configured GROUNDEDSEARCH_PYTHON ") configured (codes " is a directory"))
        else ok configured
  ]

  unfoldable pub select_python : Str → Outcome Str
  unfolding configured_python first_file look_up_python
  select_python root =
      let configured = trim_space (files.getenv python_key) in
      if str_eq configured []
      then (elim (first_file (windows_python root ∷ unix_python root ∷ [])) [
        | some candidate ↦ ok candidate
        | none ↦ look_up_python
      ])
      else configured_python configured
