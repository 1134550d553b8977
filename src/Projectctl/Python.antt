-- ===== src/Projectctl/Python.antt =====
-- Which Python is selected.
use grounded_search.Prelude.{true, ok, ◌≡◌, ◌⊎◌}
use grounded_search.Go.Str.{Str, codes}
use grounded_search.Go.Strings.{trim_space}
use grounded_search.Projectctl.Environment.{python_key}
use grounded_search.Projectctl.Locate.{Files, is_file}

module _ (files : Files) where
  abbrev pub IsFound : Str → Type 0
  IsFound p =
      (is_file files p ≡ true)
      ⊎ ((files.look_path (codes "python") ≡ ok p) ⊎ (files.look_path (codes "python3") ≡ ok p))

  abbrev pub configured : Str
  configured = trim_space (files.getenv python_key)
