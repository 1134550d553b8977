-- ===== src/Projectctl/Environment.antt =====
-- `setEnvironment` and the two environments that the commands build with it.
use grounded_search.Prelude.{Bool, List, [], ◌∷◌, ◌++◌, if◌then◌else◌}
use grounded_search.Go.Str.{Str, codes}
use grounded_search.Go.Strings.{has_prefix, to_upper}

-- filepath.Join and filepath.Dir, which differ with the operating system.
pub record FilePaths : Type 0 where
  pub join : List Str → Str
  pub dir : Str → Str

-- The entries that `setEnvironment` leaves out.
unfoldable pub names_key : Str → Str → Bool
names_key key entry = has_prefix (to_upper entry) (to_upper key ++ codes "=")

unfoldable pub kept : Str → List Str → List Str
unfolding names_key
kept key [] = []
kept key (entry ∷ entries) =
    let rest = kept key entries in if names_key key entry then rest else entry ∷ rest

unfoldable pub set_environment : List Str → Str → Str → List Str
unfolding kept
set_environment environment key value = kept key environment ++ ((key ++ (codes "=" ++ value)) ∷ [])

abbrev pub python_path_key : Str
python_path_key = codes "PYTHONPATH"

abbrev pub python_key : Str
python_key = codes "GROUNDEDSEARCH_PYTHON"

abbrev pub python_source : FilePaths → Str → Str
python_source paths repository_root =
    paths.join (repository_root ∷ codes "services" ∷ codes "ml-service" ∷ codes "src" ∷ [])

unfoldable pub python_environment : FilePaths → List Str → Str → List Str
unfolding set_environment
python_environment paths environ repository_root =
    set_environment environ python_path_key (python_source paths repository_root)

unfoldable pub integration_environment : FilePaths → List Str → Str → Str → List Str
unfolding set_environment
integration_environment paths environ repository_root python =
    set_environment (set_environment environ python_key python) python_path_key
      (python_source paths repository_root)
