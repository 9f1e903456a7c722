-- ===== src/Engine/Cycle.antt =====
-- internal/syncengine/engine.go: the whole pass, and the passes after a rejected push.
use sync_hub_for_agents.Base.{
  ℕ, zero, suc, Bool, true, false, not, ◌&&◌, ◌||◌, Option, none, some, List, [], ◌∷◌, ◌++◌, ℤ, pos,
  negsuc, length,
}
use sync_hub_for_agents.Base.{◌==◌, nat_eq, if◌then◌else◌}
use sync_hub_for_agents.Base.Text.{Text, text_eq, codes}
use sync_hub_for_agents.Base.Dict.{Dict, insert}
use sync_hub_for_agents.Base.Result.{Result, ok, err}
use sync_hub_for_agents.Base.Stateful.{◌>>=◌, ◌>>◌, return, lift}
use sync_hub_for_agents.State.{Snapshot}
use sync_hub_for_agents.Resource.Model.{strategy_install_manifest}
use sync_hub_for_agents.Resource.Spec.{Spec}
use sync_hub_for_agents.Sync.FirstSync.{apply_first_sync_strategy}
use sync_hub_for_agents.Sync.Planning.{RemoteSplit, prepare_resource_plan, split_remote_snapshot}
use sync_hub_for_agents.Conflict.Model.{Record}
use sync_hub_for_agents.Install.{Plan}
use sync_hub_for_agents.Engine.{
  publish, set_line_endings, recover_transactions, pull_rebase, mirror_conflicts, make_stage_parent,
  close_stage, run_installs, add_all, commit, push, fetch_origin, reset_upstream, save_state,
  capture_base, saw_changes, Step, Artifact, Environment, Engine, Progress, SyncResult, log,
  try_call, perform, ask, spec_for_repo_path, preserve_snapshot, sorted_resource_specs,
}
use sync_hub_for_agents.Engine.Apply.{Context, Loop, apply_actions, has_issues}
use sync_hub_for_agents.Engine.Resolve.{
  Resolved, load_remote, with_specs, resolve_pending, conflict_ids_for_issues,
}
use sync_hub_for_agents.Engine.Pass.{
  Prepared, Pass, news_of, no_result, mark_roots, without_internal, record_paths, preserved_paths,
  validate, with_installs,
}

-- `SyncOnce`: how often a pass is attempted
unfoldable pub attempts_of : ℤ → ℕ
attempts_of (pos zero) = 3
attempts_of (pos (suc n)) = suc n
attempts_of (negsuc n) = 3

module _ (env : Environment) (e : Engine) where
  -- `publish` answers nothing.
  unfoldable pub announce_stage : Progress → Step (Unit {0})
  unfolding try_call
  announce_stage p = do try_call env (publish p); return tt

  -- Up to the collection of the local resources
  unfoldable pub prepare : Step Prepared
  unfolding perform announce_stage ask load_remote conflict_ids_for_issues sorted_resource_specs
  prepare = do
    perform env set_line_endings (codes "configure repository line endings")
    perform env recover_transactions (codes "recover conflict transaction")
    announce_stage (news_of (codes "pulling") 10 0 0 0 no_result false)
    perform env pull_rebase (codes "pull")
    base ← ask env env.load_state
    remote ← load_remote env e
    perform env
        (mirror_conflicts
          (conflict_ids_for_issues (remote.ownership_blocked ++ remote.validation_blocked)))
        (codes "mirror conflicts")
    perform env make_stage_parent (codes "create resource stage parent")
    announce_stage (news_of (codes "scanning") 30 0 0 0 no_result false)
    collected ← ask env (λ t. env.collect t (sorted_resource_specs remote.specs))
    return (record { base = base; remote = remote; collected = collected })

  -- The plan of the pass
  unfoldable pub plan_pass : Snapshot → Resolved → Pass
  unfolding mark_roots prepare_resource_plan apply_first_sync_strategy
  plan_pass base r =
      let skipped = mark_roots e.resources base r.remote.owned r.collected.skipped_issues in
      let blocked =
        r.collected.blocked_issues ++ (r.remote.ownership_blocked ++ r.remote.validation_blocked) in
      let plan =
        prepare_resource_plan env.to_lower env.is_abs env.file_to_slash env.path_message e.resources
          r.plan_base r.collected.snapshot r.remote.whole r.remote.valid skipped blocked in
      let actions =
        if e.first_sync_run
        then apply_first_sync_strategy plan.actions plan.local plan.remote e.first_sync_mode
        else plan.actions in
      record {
        resolved = r;
        plan = plan;
        actions = actions;
        result = record no_result {
          actions = actions;
          blocked = plan.blocked_paths;
          issues =
              r.collected.blocked_issues
              ++ (skipped
                  ++ (r.remote.ownership_blocked
                      ++ (r.remote.validation_blocked ++ r.resolution_issues)));
          skipped_issues = skipped;
          blocked_issues = blocked;
          skipped = length skipped;
        };
      }

  -- The plan that waits, if there is an install manager
  unfoldable pub pending_plan : Option Bool → Step (Option Plan)
  unfolding ask
  pending_plan none = return none
  pending_plan (some _) = ask env env.pending_installs

  -- The manifest that an artifact is, if it is one
  unfoldable pub manifest_in : Artifact → Option Spec → Step (Option (Text × Text))
  unfolding ask
  manifest_in a none = return none
  manifest_in a (some spec) =
      if spec.strategy == strategy_install_manifest && a.relative == codes "manifest.json"
      then (do
        text ← ask env (λ t. env.stage_content t a.stage_path)
        return (some (spec.key, text)))
      else return none

  abbrev pub with_found : Option (Text × Text) → Dict Text Text → Dict Text Text
  with_found none d = d
  with_found (some (k, text)) d = insert k text d

  -- The loop of `currentInstallManifests`
  unfoldable pub current_install_manifests :
      Dict Text Artifact → Dict Text Text → Step (Dict Text Text)
  unfolding manifest_in spec_for_repo_path
  current_install_manifests [] found = return found
  current_install_manifests ((p, a) ∷ artifacts) found = do
    manifest ← manifest_in a (spec_for_repo_path env e.resources p)
    current_install_manifests artifacts (with_found manifest found)

  -- The install manager, if there is one
  unfoldable pub install_pass : Option Bool → Pass → Loop → Step Loop
  unfolding current_install_manifests perform with_installs
  install_pass none p l = return l
  install_pass (some _) p l = do
    manifests ← current_install_manifests p.resolved.collected.artifacts []
    perform env (run_installs manifests) (codes "reconcile install plans")
    (λ w. (ok (record l { result = with_installs (env.install_result w.trace) l.result }), w))

  abbrev pub context_of : Pass → List Record → Option Plan → Context
  context_of p records pending = record {
    specs = e.resources;
    artifacts = p.resolved.collected.artifacts;
    held = p.resolved.held;
    conflict_paths = record_paths records;
    pending_plan = pending;
    total = length p.actions;
  }

  -- The loop's variables before the first action
  unfoldable pub first_loop : Pass → List Record → Loop
  unfolding preserved_paths
  first_loop p records = record {
    result = record p.result { conflicts = length records };
    preserve = preserved_paths p records;
  }

  -- The conflicts after the last action
  unfoldable pub with_conflicts : List Record → Loop → Loop
  with_conflicts records l = record {
    result = record l.result { conflicts = length records };
    preserve = record_paths records ++ l.preserve;
  }

  -- From the list of conflicts to the installs
  unfoldable pub apply_pass : Pass → Step Loop
  unfolding ask pending_plan announce_stage apply_actions first_loop with_conflicts install_pass
  apply_pass p = do
    records ← ask env env.list_conflicts
    pending ← pending_plan e.install_manager
    announce_stage (
        news_of (codes "applying") 60 0 (length p.actions) (length p.result.blocked) p.result false)
    l ← apply_actions env (context_of p records pending) 0 p.actions (first_loop p records)
    later ← ask env env.list_conflicts
    install_pass e.install_manager p (with_conflicts later l)

  -- `NeedsAttention` and `Pushed` of the result
  unfoldable pub final_result : Bool → SyncResult → SyncResult
  final_result pushed r = record r {
    pushed = pushed;
    needs_attention =
        has_issues r.issues || (not (r.conflicts == 0) || not (r.pending_installs == 0));
  }

  -- The state and then the base are recorded; without the base the old state is.
  unfoldable pub record_state : Snapshot → Pass → Loop → Bool → Snapshot → Step SyncResult
  unfolding perform try_call preserve_snapshot final_result
  record_state base p l pushed current = do
    perform env (save_state (preserve_snapshot p.plan.base current l.preserve)) (codes "save state")
    captured ← try_call env (capture_base current l.preserve)
    (if captured
        then return (final_result pushed l.result)
        else (do try_call env (save_state base); lift (err (codes "capture base"))))

  unfoldable pub record_split : Snapshot → Pass → Loop → Bool → RemoteSplit → Step SyncResult
  unfolding record_state without_internal
  record_split base p l pushed parts = elim parts.blocked_issues [
    | [] ↦ record_state base p l pushed (without_internal parts.owned_files)
    | _ ∷ _ ↦ lift (err (codes "malformed portable paths"))
  ]

  -- After the upload
  unfoldable pub finish : Snapshot → Pass → Loop → Bool → Step SyncResult
  unfolding ask record_split split_remote_snapshot
  finish base p l pushed = do
    current ← ask env env.snapshot_repo
    record_split base p l pushed (
        split_remote_snapshot env.to_lower env.is_abs env.file_to_slash env.path_message e.resources
          current)

  -- A rejected push: the repository is put back, and the pass is made again, if attempts are left.
  unfoldable pub rejected : Option (Engine → Step SyncResult) → Step SyncResult
  unfolding perform
  rejected none = lift (err (codes "push"))
  rejected (some again) = do
    perform env fetch_origin (codes "fetch after rejected push")
    perform env reset_upstream (codes "restore repository after rejected push")
    again e

  -- `HasChanges`
  unfoldable pub look_for_changes : Step Bool
  look_for_changes w = elim (env.has_changes w.trace) [
    | ok changed ↦ (ok changed, log saw_changes changed w)
    | err c ↦ (err c, w)
  ]

  unfoldable pub upload :
      Option (Engine → Step SyncResult) → Snapshot → Pass → Loop → Bool → Step SyncResult
  unfolding perform announce_stage try_call finish rejected
  upload retry base p l false = finish base p l false
  upload retry base p l true = do
    perform env commit (codes "commit")
    announce_stage (
        news_of (codes "uploading") 85 (length p.actions) (length p.actions)
          (length l.result.blocked) l.result
          (has_issues l.result.issues || not (l.result.conflicts == 0)))
    pushed ← try_call env push
    (if pushed then finish base p l true else rejected retry)

  -- The deferred call of `Close`, after the body
  unfoldable pub close_after : Result Text SyncResult → Step SyncResult
  unfolding try_call
  close_after r = do
    closed ← try_call env close_stage
    (if closed then lift r else elim r [ ok _ ↦ lift (err (codes "close")) | err c ↦ lift (err c) ])

  unfoldable pub with_stage : Step SyncResult → Step SyncResult
  unfolding close_after
  with_stage body w = let (r, v) = body w in close_after r v

module _ (env : Environment) where
  -- From the resolutions that wait to the end
  unfoldable pub reconcile_pass :
      Engine → Option (Engine → Step SyncResult) → Prepared → Step SyncResult
  unfolding resolve_pending plan_pass announce_stage apply_pass perform look_for_changes upload
  reconcile_pass e retry q = do
    r ← resolve_pending env (with_specs e q.remote) q.base q.remote q.collected
    (let e' = with_specs e r.remote in
        let p = plan_pass env e' q.base r in
        do
          announce_stage env e'
              (news_of (codes "comparing") 45 0 0 (length p.result.blocked_issues) p.result false)
          l ← apply_pass env e' p
          perform env add_all (codes "git add")
          changed ← look_for_changes env e'
          upload env e' retry q.base p l changed)

  -- One pass, with what is done after a rejected push
  unfoldable pub cycle : Engine → Option (Engine → Step SyncResult) → Step SyncResult
  unfolding validate prepare with_stage reconcile_pass
  cycle e retry =
      if validate e
      then (prepare env e >>= λ q. with_stage env e (reconcile_pass e retry q))
      else lift (err (codes "validate"))

  -- `syncOnce`
  unfoldable pub sync_attempts : ℕ → Engine → Step SyncResult
  unfolding cycle
  sync_attempts zero e = cycle e none
  sync_attempts (suc zero) e = cycle e none
  sync_attempts (suc (suc n)) e = cycle e (some (sync_attempts (suc n)))

  -- `SyncOnce`
  unfoldable pub sync_once : Engine → Step SyncResult
  unfolding sync_attempts attempts_of
  sync_once e = sync_attempts (attempts_of e.push_retries) e
