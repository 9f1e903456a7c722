-- ===== src/Engine/Resolve.antt =====
-- internal/syncengine/engine.go: the view of the remote, and the batch of resolutions that waits.
use sync_hub_for_agents.Base.{Bool, false, not, ◌&&◌, ◌||◌, Option, none, some, List, [], ◌∷◌, ◌++◌}
use sync_hub_for_agents.Base.{◌==◌, nat_eq, if◌then◌else◌}
use sync_hub_for_agents.Base.Text.{Text, text_eq, codes}
use sync_hub_for_agents.Base.Dict.{Dict, lookup, insert}
use sync_hub_for_agents.Base.Result.{ok}
use sync_hub_for_agents.Base.Stateful.{◌>>=◌, ◌>>◌, return}
use sync_hub_for_agents.Base.Strings.{slash, split}
use sync_hub_for_agents.State.{Snapshot}
use sync_hub_for_agents.Resource.Model.{Issue, strategy_install_manifest}
use sync_hub_for_agents.Resource.Spec.{Spec}
use sync_hub_for_agents.Sync.Planning.{
  split_remote_snapshot, skipped_repo_prefixes, blocked_repo_paths, has_any_prefix,
}
use sync_hub_for_agents.Conflict.Model.{Record, ResolutionBatch, ResolutionSelection}
use sync_hub_for_agents.Conflict.Transaction.{AppliedResolution}
use sync_hub_for_agents.Engine.{
  protect_specs, apply_batch, restore_resolved, close_stage, Step, Collected, Environment, Engine,
  try_call, perform, ask, apply_issue, spec_for_repo_path, sorted_resource_specs,
}

-- `remoteView`
pub record RemoteView : Type 0 where
  pub specs : Dict Text Spec
  pub whole : Snapshot
  pub owned : Snapshot
  pub valid : Snapshot
  pub ownership_blocked : List Issue
  pub validation_blocked : List Issue

-- The engine with the specs that `loadRemote` has changed
abbrev pub with_specs : Engine → RemoteView → Engine
with_specs e remote = record e { resources = remote.specs }

abbrev id_at : List Text → List Text → List Text
id_at (a ∷ b ∷ c ∷ d ∷ id ∷ _) ids =
    if (a == codes "agents" && b == codes "_portable")
      && ((c == codes "config" && d == codes "conflicts") && not (id == []))
    then id ∷ ids
    else ids
id_at _ ids = ids

-- `conflictIDsForIssues`
unfoldable pub conflict_ids_for_issues : List Issue → List Text
conflict_ids_for_issues [] = []
conflict_ids_for_issues (i ∷ is) = id_at (split slash i.path) (conflict_ids_for_issues is)

abbrev is_selected : List ResolutionSelection → Text → Bool
is_selected [] id = false
is_selected (s ∷ ss) id = id == s.id || is_selected ss id

-- What a resolved conflict leads to
pub data Adoption : Type 0 where
  adopted : Adoption
  left_alone : Adoption
  has_issue : Issue → Adoption

-- What the waiting batch leads to
pub record Resolved : Type 0 where
  pub plan_base : Snapshot
  pub resolution_issues : List Issue
  pub held : List Text
  pub remote : RemoteView
  pub collected : Collected

module _ (env : Environment) (e : Engine) where
  -- `loadRemote`: the call protects the specs of shared sources, which are changed.
  unfoldable pub load_remote : Step RemoteView
  unfolding ask perform split_remote_snapshot
  load_remote = do
    snapshot ← ask env env.snapshot_repo
    perform env protect_specs (codes "protect remote library sources")
    (λ w.
        let specs = env.protected_specs w.trace e.resources snapshot in
        let parts =
          split_remote_snapshot env.to_lower env.is_abs env.file_to_slash env.path_message specs
            snapshot in
        let (valid, blocked) = env.validate_remote w.trace parts.owned_files in
        (
          ok (record {
            specs = specs;
            whole = snapshot;
            owned = parts.owned_files;
            valid = valid;
            ownership_blocked = parts.blocked_issues;
            validation_blocked = blocked;
          }),
          w,
        ))

  -- The loop of `preflightResolutionBatch`: the issues, and the paths that are held
  unfoldable pub preflight_records :
      List Text → List ResolutionSelection → List Record → List Issue × List Text
  unfolding has_any_prefix
  preflight_records prefixes selections [] = ([], [])
  preflight_records prefixes selections (r ∷ rs) =
      let (issues, held) = preflight_records prefixes selections rs in
      if is_selected selections r.id
      then (
        (if has_any_prefix prefixes r.repo_rel
            then apply_issue env r.resource_key r.repo_rel (codes "resolution-preflight-blocked")
              ∷ issues
            else issues),
        r.repo_rel ∷ held,
      )
      else (issues, held)

  -- `preflightResolutionBatch`
  unfoldable pub preflight_resolution_batch :
      ResolutionBatch → Collected → Step (List Issue × List Text)
  unfolding preflight_records skipped_repo_prefixes blocked_repo_paths ask
  preflight_resolution_batch batch collected =
      let prefixes =
        skipped_repo_prefixes env.to_lower env.is_abs env.file_to_slash env.path_message e.resources
          collected.skipped_issues
        ++ blocked_repo_paths env.to_lower env.is_abs env.file_to_slash env.path_message e.resources
            collected.blocked_issues in
      elim prefixes [
        | [] ↦ return ([], [])
        | p ∷ ps ↦ (do
          records ← ask env env.list_conflicts
          return (preflight_records (p ∷ ps) batch.selections records))
      ]

  unfoldable pub restore_owned : Record → Option Spec → Step Adoption
  unfolding try_call
  restore_owned r none =
      return
        (has_issue (apply_issue env r.resource_key r.repo_rel (codes "resolution-restore-failed")))
  restore_owned r (some spec) =
      if spec.strategy == strategy_install_manifest then return left_alone else (do
        worked ← try_call env (restore_resolved r.repo_rel)
        return (
            if worked
            then adopted
            else has_issue
                (apply_issue env spec.key r.repo_rel (codes "resolution-restore-failed"))))

  -- `restoreResolution`
  unfoldable pub restore_resolution : AppliedResolution → Step Adoption
  unfolding restore_owned spec_for_repo_path
  restore_resolution a =
      if a.choice == codes "local"
      then return adopted
      else restore_owned a.applied (spec_for_repo_path env e.resources a.applied.repo_rel)

  -- One resolved conflict
  unfoldable pub adopt : AppliedResolution → Resolved → Adoption → Resolved
  adopt a r adopted = elim (lookup a.applied.repo_rel r.remote.valid) [
    | none ↦ r
    | some meta ↦ record r { plan_base = insert a.applied.repo_rel meta r.plan_base }
  ]
  adopt a r left_alone = r
  adopt a r (has_issue i) = record r {
    resolution_issues = r.resolution_issues ++ (i ∷ []);
    held = a.applied.repo_rel ∷ r.held;
  }

  -- The loop over the resolved conflicts
  unfoldable pub restore_each : List AppliedResolution → Resolved → Step Resolved
  unfolding restore_resolution adopt
  restore_each [] r = return r
  restore_each (a ∷ others) r = do
    adoption ← restore_resolution a
    restore_each others (adopt a r adoption)

module _ (env : Environment) (e : Engine) where
  -- The remote is read again, the local files restored, and then collected again.
  unfoldable pub adopt_resolutions : List AppliedResolution → Resolved → Step Resolved
  unfolding load_remote restore_each ask perform sorted_resource_specs
  adopt_resolutions [] r = return r
  adopt_resolutions (a ∷ others) r = do
    remote ← load_remote env e
    restored ← restore_each env (with_specs e remote) (a ∷ others) (record r { remote = remote })
    refreshed ← ask env (λ t. env.collect t (sorted_resource_specs remote.specs))
    perform env close_stage (codes "close pre-resolution resource stage")
    return (record restored { collected = refreshed })

  -- The preflight holds the batch, or it is applied.
  unfoldable pub apply_unless_held : Resolved → List Issue × List Text → Step Resolved
  unfolding adopt_resolutions perform
  apply_unless_held r ([], _) = do
    perform env apply_batch (codes "apply pending conflict batch")
    (λ w. adopt_resolutions (env.resolutions w.trace) r w)
  apply_unless_held r (i ∷ issues, held) =
      return (record r { resolution_issues = i ∷ issues; held = held })

  unfoldable pub resolve_batch : Resolved → Option ResolutionBatch → Step Resolved
  unfolding preflight_resolution_batch apply_unless_held
  resolve_batch r none = return r
  resolve_batch r (some batch) =
      if batch.status == codes "queued"
      then preflight_resolution_batch env e batch r.collected >>= apply_unless_held r
      else return r

  -- The batch of resolutions that waits, if one does
  unfoldable pub resolve_pending : Snapshot → RemoteView → Collected → Step Resolved
  unfolding resolve_batch ask
  resolve_pending base remote collected =
      ask env env.pending_batch
      >>= resolve_batch (record {
        plan_base = base;
        resolution_issues = [];
        held = [];
        remote = remote;
        collected = collected;
      })
