-- ===== src/Screening/Filter.antt =====
-- internal/resource/filter.go: sizes, generated contents and binaries of a platform.
pub mod Admitted
use sync_hub_for_agents.Base.{
  ℕ, zero, suc, ◌≡◌, refl, Bool, true, false, not, ◌&&◌, ◌||◌, List, [], ◌∷◌, ◌++◌, ℤ, pos, negsuc,
  All, arith, reverse,
}
use sync_hub_for_agents.Base.{◌==◌, nat_eq, leb, if◌then◌else◌}
use sync_hub_for_agents.Base.Text.{Text, text_eq, codes}
use sync_hub_for_agents.Base.Result.{Result, ok, err, ◌>>=◌, ◌>>◌, reject, >>=_succeeds}
use sync_hub_for_agents.Base.Strings.{slash, to_slash}
use sync_hub_for_agents.Resource.Model.{strategy_source_tree}
use sync_hub_for_agents.Resource.Namespace.{PathError, validate_repo_relative}
use sync_hub_for_agents.Screening.{Platform}
use sync_hub_for_agents.Screening.Secret.{path_ext}

-- `FilterPolicy`
pub record FilterPolicy : Type 0 where
  pub max_file_size : ℤ
  pub generated_globs : List Text
  pub executable_extensions : List Text

-- `DefaultFilterPolicy`
unfoldable pub default_filter_policy : FilterPolicy
default_filter_policy = record {
  max_file_size = pos 52428800;
  generated_globs =
      codes "**/.git/**"
      ∷ codes "**/.svn/**"
      ∷ codes "**/node_modules/**"
      ∷ codes "**/.venv/**"
      ∷ codes "**/venv/**"
      ∷ codes "**/__pycache__/**"
      ∷ codes "**/.vscode-test/**"
      ∷ codes "**/coverage/**"
      ∷ codes "**/.cache/**"
      ∷ codes "**/*.db"
      ∷ codes "**/*.db-*"
      ∷ codes "**/*.sqlite"
      ∷ codes "**/*.sqlite-*"
      ∷ codes "**/*.log"
      ∷ codes "**/*.lock"
      ∷ codes "**/*.tmp"
      ∷ [];
  executable_extensions =
      codes ".exe" ∷ codes ".dll" ∷ codes ".so" ∷ codes ".dylib" ∷ codes ".node" ∷ [];
}

abbrev pub is_negative : ℤ → Bool
is_negative (pos _) = false
is_negative (negsuc _) = true

-- Whether a size that is not negative reaches the limit, if there is one
unfoldable pub too_large : ℤ → ℤ → Bool
too_large (pos (suc limit)) (pos size) = leb (suc limit) size
too_large _ _ = false

abbrev pub has_failed : {A : Type 0} → Result PathError A → Bool
has_failed (ok _) = false
has_failed (err _) = true

-- What a glob that matches, and one that is malformed, lead to
abbrev pub unless_match : Result Text Bool → Result Text (Unit {0})
unless_match (ok true) = err (codes "generated-content")
unless_match (ok false) = ok tt
unless_match (err _) = err (codes "invalid-filter")

-- `strings.TrimSuffix(s, "/")`, from the last byte on
abbrev pub without_slash : Text → Text
without_slash [] = []
without_slash (c ∷ before) = if c == slash then reverse before else reverse (c ∷ before)

module _ (p : Platform) where
  unfoldable pub check_globs : List Text → Text → Result Text (Unit {0})
  check_globs [] rel = ok tt
  check_globs (g ∷ gs) rel = do unless_match (p.glob (to_slash g) rel); check_globs gs rel

  unfoldable pub check_extensions : List Text → Text → Result Text (Unit {0})
  check_extensions [] extension = ok tt
  check_extensions (x ∷ xs) extension = do
    reject (p.equal_fold extension x) (codes "platform-binary")
    check_extensions xs extension

  -- `Check`; an error is the code that it returns with `false`.
  unfoldable pub check : FilterPolicy → Text → ℤ → Text → Result Text (Unit {0})
  unfolding validate_repo_relative too_large check_globs check_extensions path_ext to_slash
  check policy path size strategy = do
    reject (has_failed (validate_repo_relative (to_slash path))) (codes "invalid-path")
    reject (is_negative size) (codes "invalid-size")
    reject (too_large policy.max_file_size size) (codes "file-too-large")
    check_globs policy.generated_globs (to_slash path)
    (if strategy == strategy_source_tree
        then check_extensions policy.executable_extensions (path_ext (to_slash path))
        else ok tt)

  -- A directory is matched as itself and by a file within it.
  unfoldable pub unless_either : Result Text Bool → Result Text Bool → Result Text (Unit {0})
  unless_either (ok true) probe = err (codes "generated-content")
  unless_either (ok false) probe = unless_match probe
  unless_either (err _) probe = err (codes "invalid-filter")

  unfoldable pub check_directory_globs : List Text → Text → Text → Result Text (Unit {0})
  unfolding unless_either
  check_directory_globs [] rel probe = ok tt
  check_directory_globs (g ∷ gs) rel probe = do
    unless_either (p.glob (to_slash g) rel) (p.glob (to_slash g) probe)
    check_directory_globs gs rel probe

  -- `CheckDirectory`
  unfoldable pub check_directory : FilterPolicy → Text → Result Text (Unit {0})
  unfolding validate_repo_relative check_directory_globs to_slash
  check_directory policy path = do
    reject (has_failed (validate_repo_relative (to_slash path))) (codes "invalid-path")
    check_directory_globs policy.generated_globs (to_slash path)
        (without_slash (reverse (to_slash path)) ++ codes "/.synchub-entry")
