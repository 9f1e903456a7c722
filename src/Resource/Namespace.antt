-- ===== src/Resource/Namespace.antt =====
-- internal/resource/namespace.go: where a file of a resource lies in the repository, and back.
pub mod Names
pub mod Forms
pub mod RoundTrip
use sync_hub_for_agents.Base.{ℕ, ◌≡◌, Bool, true, false, not, ◌&&◌, ◌||◌, List, [], ◌∷◌, ◌++◌}
use sync_hub_for_agents.Base.{◌==◌, nat_eq, contains, leb, if◌then◌else◌}
use sync_hub_for_agents.Base.Text.{Text, text_eq, codes, has_prefix}
use sync_hub_for_agents.Base.Result.{Result, ok, err, reject, ◌>>=◌, ◌>>◌}
use sync_hub_for_agents.Base.Strings.{
  is_blank, slash, backslash, dot, dot_dot, clean, split, join, path_join,
}
use sync_hub_for_agents.Resource.Identifier.{IdentifierError, validate_identifier}
use sync_hub_for_agents.Resource.Model.{
  category_sessions, category_config, categories, layout_legacy, layout_portable,
  legacy_resource_id, portable_provider_name,
}
use sync_hub_for_agents.Resource.Spec.{Spec}

pub record RepoRef : Type 0 where
  pub provider : Text
  pub category : Text
  pub resource_id : Text
  pub relative : Text
  pub portable : Bool
  pub common : Bool

pub data PathError : Type 0 where
  empty_path : PathError
  backslashes : PathError
  not_relative : PathError
  malformed : PathError
  bad_name : IdentifierError → PathError
  legacy_category : PathError
  unsupported_layout : PathError
  invalid_repo_path : PathError
  invalid_portable_path : PathError
  invalid_category : PathError

-- `isWindowsAbsolute`
unfoldable pub is_windows_absolute : Text → Bool
is_windows_absolute (drive ∷ colon ∷ third ∷ _) =
    colon == 0x3a
    && (((leb b'A' drive && leb drive b'Z') || (leb b'a' drive && leb drive b'z'))
        && third == slash)
is_windows_absolute _ = false

-- `validateRepoSegment` fails
unfoldable pub is_bad_segment : Text → Bool
is_bad_segment value =
    (value == [] || (value == dot || value == dot_dot)) || contains value backslash

unfoldable pub any_bad_segment : List Text → Bool
unfolding is_bad_segment
any_bad_segment [] = false
any_bad_segment (p ∷ ps) = is_bad_segment p || any_bad_segment ps

-- `validateRepoRelative`
unfoldable pub validate_repo_relative : Text → Result PathError (Unit {0})
unfolding is_windows_absolute any_bad_segment
validate_repo_relative value = do
  reject (is_blank value) empty_path
  reject (contains value backslash) backslashes
  reject (has_prefix value (slash ∷ []) || is_windows_absolute value) not_relative
  reject (not (clean value == value)) malformed
  reject (any_bad_segment (split slash value)) malformed

abbrev pub on_name : Result IdentifierError (Unit {0}) → Result PathError (Unit {0})
on_name (ok _) = ok tt
on_name (err e) = err (bad_name e)

abbrev pub agents : Text
agents = codes "agents"

abbrev pub config : Text
config = codes "config"

abbrev pub sessions : Text
sessions = codes "sessions"

abbrev pub common_name : Text
common_name = codes "common"

abbrev pub providers : Text
providers = codes "providers"

-- The section of a category in the legacy layout.
unfoldable pub legacy_section : Text → Result PathError Text
legacy_section category =
    if category == category_config
    then ok config
    else if category == category_sessions
    then ok sessions
    else err legacy_category

-- `SharedAs`, or the resource's own id
abbrev pub shared_id : Spec → Text
shared_id s = if s.shared_as == [] then s.id else s.shared_as

abbrev pub is_common : Spec → Bool
is_common s = not (s.shared_as == []) || s.provider == common_name

-- The elements of a path in front of the relative path.
unfoldable pub repo_names : Spec → Result PathError (List Text)
repo_names s =
    if s.layout == layout_legacy
    then (do section ← legacy_section s.category; ok (agents ∷ s.provider ∷ section ∷ []))
    else if s.layout == layout_portable
    then (if is_common s
        then (do
          on_name (validate_identifier (codes "shared_as") (shared_id s))
          ok (
              agents
              ∷ portable_provider_name
              ∷ config
              ∷ common_name
              ∷ s.category
              ∷ shared_id s
              ∷ []))
        else (do
          on_name (validate_identifier (codes "resource id") s.id)
          ok (
              agents ∷ portable_provider_name ∷ config ∷ providers ∷ s.provider ∷ s.category ∷ s.id
              ∷ [])))
    else err unsupported_layout

-- `RepoPath`
unfoldable pub repo_path : Spec → Text → Result PathError Text
unfolding validate_repo_relative repo_names legacy_section
repo_path s relative = do
  validate_repo_relative relative
  on_name (validate_identifier (codes "provider name") s.provider)
  names ← repo_names s
  ok (path_join (names ++ (relative ∷ [])))

-- `parseCategory`
unfoldable pub parse_category : Text → Result PathError Text
parse_category value = if contains categories value then ok value else err invalid_category

-- `parseLegacyCategory`
unfoldable pub parse_legacy_category : Text → Result PathError Text
unfolding parse_category
parse_legacy_category value = do
  category ← parse_category value
  reject (not (category == category_config) && not (category == category_sessions)) invalid_category
  ok category

unfoldable pub parse_legacy : Text → Text → List Text → Result PathError RepoRef
unfolding parse_legacy_category legacy_resource_id
parse_legacy provider section relative = do
  category ← parse_legacy_category section
  ok (record {
    provider = provider;
    category = category;
    resource_id = legacy_resource_id category;
    relative = join relative;
    portable = false;
    common = false;
  })

-- `case "common"`
unfoldable pub parse_common : Text → Text → List Text → Result PathError RepoRef
unfolding parse_category
parse_common category_name id relative = do
  category ← parse_category category_name
  ok (record {
    provider = common_name;
    category = category;
    resource_id = id;
    relative = join relative;
    portable = true;
    common = true;
  })

-- `case "providers"`
unfoldable pub parse_providers : Text → Text → Text → List Text → Result PathError RepoRef
unfolding parse_category
parse_providers provider category_name id [] = err invalid_portable_path
parse_providers provider category_name id (r ∷ relative) = do
  category ← parse_category category_name
  ok (record {
    provider = provider;
    category = category;
    resource_id = id;
    relative = join (r ∷ relative);
    portable = true;
    common = false;
  })

-- The elements from the third on, after `agents/_portable`.
unfoldable pub parse_portable : Text → Text → List Text → Result PathError RepoRef
unfolding parse_common parse_providers
parse_portable second third (p4 ∷ p5 ∷ p6 ∷ rest) =
    if second == config
    then (if third == common_name
        then parse_common p4 p5 (p6 ∷ rest)
        else if third == providers
        then parse_providers p4 p5 p6 rest
        else err invalid_portable_path)
    else err invalid_portable_path
parse_portable second third _ = err invalid_portable_path

unfoldable pub parse_parts : List Text → Result PathError RepoRef
unfolding parse_legacy parse_portable
parse_parts (first ∷ provider ∷ section ∷ r ∷ relative) =
    if first == agents
    then (if provider == portable_provider_name
        then parse_portable section r relative
        else parse_legacy provider section (r ∷ relative))
    else err invalid_repo_path
parse_parts _ = err invalid_repo_path

-- `ParseRepoPath`
unfoldable pub parse_repo_path : Text → Result PathError RepoRef
unfolding validate_repo_relative parse_parts
parse_repo_path path = validate_repo_relative path >> parse_parts (split slash path)
