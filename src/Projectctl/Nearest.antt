-- ===== src/Projectctl/Nearest.antt =====
-- The repository that is found is the nearest one above the current directory.
use grounded_search.Prelude.{
  ℕ, zero, List, ◌∷◌, All, suc, ◌<◌, true, false, some, [], ok, err, length, ◌≡◌, ◌⊎◌,
}
use grounded_search.Go.Str.{Str}
use grounded_search.Go.Errors.{Outcome}
use grounded_search.Projectctl.Environment.{FilePaths}
use grounded_search.Projectctl.Locate.{Files, is_repository_root, not_located, climb}

-- The directory `k` levels above another.
unfoldable pub above : FilePaths → Str → ℕ → Str
above paths directory zero = directory
above paths directory (suc k) = above paths (paths.dir directory) k

-- A directory and those above it, `k` of them.
unfoldable pub climbed : FilePaths → Str → ℕ → List Str
climbed paths directory zero = []
climbed paths directory (suc k) = directory ∷ climbed paths (paths.dir directory) k

-- No directory of a list is a root.
abbrev pub NoRoot : Files → List Str → Type 0
NoRoot files = All (λ d. is_repository_root files d ≡ false)

-- The search ends at the nearest root, or at the top with no root up to there.
pub data Located (files : Files) (directory : Str) : Outcome Str → Type 0 where
  nearest :
      (k : ℕ)
      → is_repository_root files (above files.paths directory k) ≡ true
      → NoRoot files (climbed files.paths directory k)
      → Located files directory (ok (above files.paths directory k))
  nowhere :
      (k : ℕ)
      → files.paths.dir (above files.paths directory k) ≡ above files.paths directory k
      → NoRoot files (climbed files.paths directory (suc k))
      → Located files directory (err not_located)

module _ (files : Files)
    (shortens : (directory : Str)
      → (files.paths.dir directory ≡ directory)
        ⊎ (length (files.paths.dir directory) < length directory)) where
  abbrev Ends : ℕ → Str → Type 0
  Ends fuel directory =
      (r : Outcome Str) × (climb files fuel directory ≡ some r) × Located files directory r
