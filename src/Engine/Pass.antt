-- ===== src/Engine/Pass.antt =====
-- internal/syncengine/engine.go: what a pass computes from what it has read, without any call.
use sync_hub_for_agents.Base.{
  ℕ, ◌+◌, Bool, true, false, not, ◌&&◌, ◌||◌, none, some, List, [], ◌∷◌, ◌++◌, pos, map,
}
use sync_hub_for_agents.Base.{◌==◌, nat_eq, if◌then◌else◌}
use sync_hub_for_agents.Base.Text.{Text, text_eq, codes}
use sync_hub_for_agents.Base.Dict.{Dict, lookup, keys}
use sync_hub_for_agents.Base.Strings.{is_blank}
use sync_hub_for_agents.State.{Snapshot}
use sync_hub_for_agents.Resource.Model.{Issue, strategy_install_manifest}
use sync_hub_for_agents.Resource.Spec.{Spec}
use sync_hub_for_agents.Sync.Reconcile.{Action}
use sync_hub_for_agents.Sync.Planning.{
  ResourceActionPlan, is_internal_portable_path, has_any_prefix, path_has_prefix,
  resource_repo_prefix,
}
use sync_hub_for_agents.Conflict.Model.{Record}
use sync_hub_for_agents.Install.Manager.Reconcile.{ReconcileResult}
use sync_hub_for_agents.Engine.{Collected, Engine, Progress, SyncResult}
use sync_hub_for_agents.Engine.Resolve.{RemoteView, Resolved}

-- What a pass has read before it takes up the resolutions
pub record Prepared : Type 0 where
  pub base : Snapshot
  pub remote : RemoteView
  pub collected : Collected

-- What a pass has decided before it reads the conflicts
pub record Pass : Type 0 where
  pub resolved : Resolved
  pub plan : ResourceActionPlan
  pub actions : List Action
  pub result : SyncResult

-- The news of a stage
abbrev pub news_of : Text → ℕ → ℕ → ℕ → ℕ → SyncResult → Bool → Progress
news_of stage percentage completed total blocked r attention = record {
  stage = stage;
  percentage = percentage;
  completed_actions = completed;
  total_actions = total;
  blocked_files = blocked;
  restored = r.restored;
  reinstalled = r.reinstalled;
  skipped = r.skipped;
  conflicts = r.conflicts;
  pending_installs = r.pending_installs;
  needs_attention = attention;
}

-- `Result{}`
abbrev pub no_result : SyncResult
no_result = record {
  actions = [];
  blocked = [];
  issues = [];
  skipped_issues = [];
  blocked_issues = [];
  pushed = false;
  restored = 0;
  reinstalled = 0;
  skipped = 0;
  conflicts = 0;
  pending_installs = 0;
  needs_attention = false;
}

abbrev pub any_under : Text → List Text → Bool
any_under prefix [] = false
any_under prefix (p ∷ ps) = path_has_prefix p prefix || any_under prefix ps

-- The paths under one of the prefixes
unfoldable pub all_under : List Text → List Text → List Text
unfolding has_any_prefix
all_under prefixes [] = []
all_under prefixes (p ∷ ps) =
    let rest = all_under prefixes ps in if has_any_prefix prefixes p then p ∷ rest else rest

-- The root of a resource without files in the base or the remote may be missing.
unfoldable pub root_code : Dict Text Spec → Snapshot → Snapshot → Issue → Text
unfolding resource_repo_prefix path_has_prefix
root_code specs base owned i =
    let prefix : Text = elim (lookup i.resource_key specs) [
      | none ↦ []
      | some s ↦ resource_repo_prefix s
    ] in
    if not (i.code == codes "root-missing")
    then i.code
    else if prefix == [] || (any_under prefix (keys base) || any_under prefix (keys owned))
    then codes "root-unavailable"
    else i.code

unfoldable pub mark_roots : Dict Text Spec → Snapshot → Snapshot → List Issue → List Issue
unfolding root_code
mark_roots specs base owned [] = []
mark_roots specs base owned (i ∷ issues) =
    record i { code = root_code specs base owned i } ∷ mark_roots specs base owned issues

-- The snapshot of the repository without the internal paths
unfoldable pub without_internal : Snapshot → Snapshot
unfolding is_internal_portable_path
without_internal [] = []
without_internal ((p, m) ∷ s) =
    let rest = without_internal s in if is_internal_portable_path p then rest else (p, m) ∷ rest

abbrev pub record_paths : List Record → List Text
record_paths = map (λ r. r.repo_rel)

-- What the conflicts, the skipped resources and the held resolutions preserve
unfoldable pub preserved_paths : Pass → List Record → List Text
unfolding all_under
preserved_paths p records =
    record_paths records
    ++ (all_under p.plan.skip_prefixes (keys p.plan.base)
        ++ (all_under p.plan.skip_prefixes (keys p.resolved.remote.owned) ++ p.resolved.held))

-- `validate`: the resources need what installs them.
unfoldable pub validate_specs : Engine → List Spec → Bool
validate_specs e [] = true
validate_specs e (s ∷ ss) =
    (not (s.strategy == strategy_install_manifest)
      || (e.has_inventory && elim e.install_manager [ none ↦ false | some _ ↦ true ]))
    && validate_specs e ss

unfoldable pub specs_of : Dict Text Spec → List Spec
specs_of [] = []
specs_of ((k, s) ∷ d) = s ∷ specs_of d

-- `validate`
unfoldable pub validate : Engine → Bool
unfolding validate_specs specs_of
validate e =
    (e.has_git && (not (is_blank e.repo_dir) && not (is_blank e.state_path)))
    && (elim e.install_manager [ none ↦ true | some has_store ↦ has_store ]
        && validate_specs e (specs_of e.resources))

abbrev pub install_issue : Text × Text → Issue
install_issue (operation, message) = record {
  resource_key = operation;
  path = [];
  code = codes "install-failed";
  message = message;
  bytes = pos 0;
}

-- What the installer reports joins the result.
unfoldable pub with_installs : ReconcileResult → SyncResult → SyncResult
with_installs i r = record r {
  reinstalled = r.reinstalled + i.executed;
  pending_installs = r.pending_installs + i.pending;
  issues = r.issues ++ map install_issue i.errors;
}
