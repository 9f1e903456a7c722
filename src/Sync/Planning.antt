-- ===== src/Sync/Planning.antt =====
-- internal/syncengine/resources.go and planning.go: which paths of the snapshots a pass looks at, and
-- the plan of its actions. The functions of `filepath` depend on the platform and are parameters, as
-- are `strings.ToLower` and the text of an error.
pub mod Split
pub mod Skipped
pub mod Ownership
use sync_hub_for_agents.Base.{
  ◌≡◌, Bool, true, false, not, ◌&&◌, ◌||◌, Option, none, some, List, [], ◌∷◌, ◌++◌, pos,
}
use sync_hub_for_agents.Base.{◌==◌, nat_eq, contains, if◌then◌else◌}
use sync_hub_for_agents.Base.Text.{Text, text_eq, codes, has_prefix}
use sync_hub_for_agents.Base.Dict.{Dict, lookup, insert}
use sync_hub_for_agents.Base.Sort.{add_key, sort_strings}
use sync_hub_for_agents.Base.Strings.{slash, split}
use sync_hub_for_agents.Base.Result.{Result}
use sync_hub_for_agents.State.{FileMeta, Snapshot}
use sync_hub_for_agents.Resource.Model.{Issue, layout_portable}
use sync_hub_for_agents.Resource.Spec.{Spec, owns}
use sync_hub_for_agents.Resource.Namespace.{RepoRef, PathError, parse_repo_path, repo_path}
use sync_hub_for_agents.Sync.Reconcile.{Action, reconcile_with_blocked}
use sync_hub_for_agents.Sync.FirstSync.{apply_first_sync_strategy}

-- `isInternalPortablePath`
unfoldable pub is_internal_portable_path : Text → Bool
is_internal_portable_path path = of_parts (split slash path)
  where
    is_metadata : Text → Text → Text → Bool
    is_metadata a b c = a == codes "agents" && (b == codes "_portable" && c == codes "config")

    of_parts : List Text → Bool
    of_parts (a ∷ b ∷ c ∷ d ∷ e ∷ []) = is_metadata a b c && (d == codes "install" && not (e == []))
    of_parts (a ∷ b ∷ c ∷ d ∷ e ∷ f ∷ []) =
        (is_metadata a b c && (d == codes "conflicts" && not (e == [])))
        && ((f == codes "record.json" || f == codes "base")
            || (f == codes "local" || f == codes "remote"))
    of_parts _ = false

-- `specForRef`
unfoldable pub spec_for_ref : Dict Text Spec → RepoRef → Option Spec
spec_for_ref specs ref =
    lookup ((if ref.common then codes "common" else ref.provider) ++ (slash ∷ ref.resource_id))
      specs

-- `strings.TrimSuffix`
unfoldable pub trim_suffix : Text → Text → Text
trim_suffix [] suffix = []
trim_suffix (c ∷ cs) suffix =
    let rest = trim_suffix cs suffix in if c ∷ cs == suffix then [] else c ∷ rest

-- `pathHasPrefix`
unfoldable pub path_has_prefix : Text → Text → Bool
unfolding trim_suffix
path_has_prefix path prefix =
    let bare = trim_suffix prefix (slash ∷ []) in
    path == bare || has_prefix path (bare ++ (slash ∷ []))

-- The inner loop of `withoutPrefixes`
unfoldable pub has_any_prefix : List Text → Text → Bool
unfolding path_has_prefix
has_any_prefix [] path = false
has_any_prefix (prefix ∷ prefixes) path =
    path_has_prefix path prefix || has_any_prefix prefixes path

-- `withoutPrefixes`
unfoldable pub without_prefixes : List Text → Snapshot → Snapshot
unfolding has_any_prefix
without_prefixes prefixes [] = []
without_prefixes prefixes ((p, m) ∷ s) =
    let rest = without_prefixes prefixes s in
    if has_any_prefix prefixes p then rest else (p, m) ∷ rest

-- `resourceRepoPrefix`
unfoldable pub resource_repo_prefix : Spec → Text
unfolding trim_suffix
resource_repo_prefix spec = elim (repo_path spec (codes "__synchub_resource_root__")) [
  | Result.err _ ↦ []
  | Result.ok path ↦ trim_suffix path (codes "__synchub_resource_root__")
]

-- What `SplitRemoteSnapshot` makes of one path.
pub data Side : Type 0 where
  owned_side : Side
  untouched_side : Side
  blocked_side : PathError → Side

-- The paths of the remote that belong to no known resource stay as they are.
pub record RemoteSplit : Type 0 where
  pub owned_files : Snapshot
  pub untouched_files : Snapshot
  pub blocked_issues : List Issue

-- The internal paths of the remote, and the files that are blocked there, join a snapshot.
unfoldable pub with_internal : Snapshot → Snapshot → Snapshot
unfolding is_internal_portable_path
with_internal [] local = local
with_internal ((p, m) ∷ s) local =
    with_internal s (if is_internal_portable_path p then insert p m local else local)

unfoldable pub with_blocked : List Text → Snapshot → Snapshot → Snapshot
with_blocked [] remote valid = valid
with_blocked (p ∷ ps) remote valid =
    with_blocked ps remote (elim (lookup p remote) [ none ↦ valid | some m ↦ insert p m valid ])

pub record ResourceActionPlan : Type 0 where
  pub base : Snapshot
  pub local : Snapshot
  pub remote : Snapshot
  pub skip_prefixes : List Text
  pub blocked_paths : List Text
  pub actions : List Action

module _ (to_lower : Text → Text) (is_abs : Text → Bool) (file_to_slash : Text → Text)
    (message_of : PathError → Text) (specs : Dict Text Spec) where
  -- `refMatchesSpec`
  unfoldable pub ref_matches_spec : RepoRef → Spec → Bool
  ref_matches_spec ref spec =
      owns to_lower spec ref.relative
      && (ref.category == spec.category && agree ref.portable (spec.layout == layout_portable))
    where
      agree : Bool → Bool → Bool
      agree true b = b
      agree false b = not b

  unfoldable pub side_of : Text → Side
  unfolding is_internal_portable_path spec_for_ref ref_matches_spec
  side_of path =
      if is_internal_portable_path path then owned_side else elim (parse_repo_path path) [
        | Result.err e ↦
            if has_prefix path (codes "agents/_portable/") then blocked_side e else untouched_side
        | Result.ok ref ↦ elim (spec_for_ref specs ref) [
          | none ↦ untouched_side
          | some spec ↦ if ref_matches_spec ref spec then owned_side else untouched_side
        ]
      ]

  abbrev path_issue : Text → PathError → Issue
  path_issue path e = record {
    resource_key = [];
    path = path;
    code = codes "remote-path-invalid";
    message = message_of e;
    bytes = pos 0;
  }

  abbrev add_file : Text → FileMeta → Side → RemoteSplit → RemoteSplit
  add_file p m owned_side r = record r { owned_files = (p, m) ∷ r.owned_files }
  add_file p m untouched_side r = record r { untouched_files = (p, m) ∷ r.untouched_files }
  add_file p m (blocked_side e) r = record r { blocked_issues = path_issue p e ∷ r.blocked_issues }

  -- `SplitRemoteSnapshot`
  unfoldable pub split_remote_snapshot : Snapshot → RemoteSplit
  unfolding side_of
  split_remote_snapshot [] = record { owned_files = []; untouched_files = []; blocked_issues = [] }
  split_remote_snapshot ((p, m) ∷ s) = add_file p m (side_of p) (split_remote_snapshot s)

  -- The prefix that one issue makes a pass skip, or nothing
  unfoldable pub skipped_prefix : Issue → Text
  unfolding resource_repo_prefix
  skipped_prefix issue = elim (lookup issue.resource_key specs) [
    | none ↦ []
    | some spec ↦
        if not (issue.path == []) && not (is_abs issue.path)
        then elim (repo_path spec (file_to_slash issue.path)) [
          | Result.err _ ↦ resource_repo_prefix spec
          | Result.ok path ↦ path
        ]
        else resource_repo_prefix spec
  ]

  unfoldable pub skipped_set : List Issue → List Text
  unfolding skipped_prefix
  skipped_set [] = []
  skipped_set (issue ∷ issues) =
      let rest = skipped_set issues in
      if skipped_prefix issue == [] then rest else add_key (skipped_prefix issue) rest

  -- `skippedRepoPrefixes`
  unfoldable pub skipped_repo_prefixes : List Issue → List Text
  unfolding skipped_set
  skipped_repo_prefixes issues = sort_strings (skipped_set issues)

  -- The path that one issue blocks
  unfoldable pub blocked_path : Issue → Option Text
  blocked_path issue =
      if has_prefix issue.path (codes "agents/")
      then some issue.path
      else elim (lookup issue.resource_key specs) [
        | none ↦ none
        | some spec ↦
            if issue.path == [] || is_abs issue.path
            then none
            else elim (repo_path spec (file_to_slash issue.path)) [
              | Result.err _ ↦ none
              | Result.ok path ↦ some path
            ]
      ]

  unfoldable pub blocked_set : List Issue → List Text
  unfolding blocked_path
  blocked_set [] = []
  blocked_set (issue ∷ issues) =
      let rest = blocked_set issues in
      elim (blocked_path issue) [ none ↦ rest | some p ↦ add_key p rest ]

  -- `blockedRepoPaths`
  unfoldable pub blocked_repo_paths : List Issue → List Text
  unfolding blocked_set
  blocked_repo_paths issues = sort_strings (blocked_set issues)

  -- `prepareResourcePlan`
  unfoldable pub prepare_resource_plan :
      Snapshot → Snapshot → Snapshot → Snapshot → List Issue → List Issue → ResourceActionPlan
  unfolding split_remote_snapshot with_internal with_blocked without_prefixes
  prepare_resource_plan base local remote_snapshot valid_remote skipped blocked =
      let prefixes = skipped_repo_prefixes skipped in
      let paths = blocked_repo_paths blocked in
      let base' = without_prefixes prefixes ((split_remote_snapshot base).owned_files) in
      let local' = without_prefixes prefixes (with_internal valid_remote local) in
      let remote' = with_blocked paths remote_snapshot (without_prefixes prefixes valid_remote) in
      record {
        base = base';
        local = local';
        remote = remote';
        skip_prefixes = prefixes;
        blocked_paths = paths;
        actions = reconcile_with_blocked base' local' remote' paths;
      }

  -- `PreviewResourceActions`
  unfoldable pub preview_resource_actions :
      Snapshot
      → Snapshot
      → Snapshot
      → Snapshot
      → List Issue
      → List Issue
      → Text
      → List Action × List Text
  unfolding prepare_resource_plan
  preview_resource_actions base local remote_snapshot valid_remote skipped blocked mode =
      let plan = prepare_resource_plan base local remote_snapshot valid_remote skipped blocked in
      (apply_first_sync_strategy plan.actions plan.local plan.remote mode, plan.blocked_paths)
