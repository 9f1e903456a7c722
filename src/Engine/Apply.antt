-- ===== src/Engine/Apply.antt =====
-- internal/syncengine/engine.go: merging of one resource, and the loop over the actions.
use sync_hub_for_agents.Base.{
  ℕ, suc, Bool, true, false, not, ◌&&◌, ◌||◌, Option, none, some, List, [], ◌∷◌, ◌++◌, length,
}
use sync_hub_for_agents.Base.{◌==◌, nat_eq, contains, if◌then◌else◌}
use sync_hub_for_agents.Base.Text.{Text, text_eq, codes}
use sync_hub_for_agents.Base.Dict.{Dict, lookup}
use sync_hub_for_agents.Base.Result.{Result, ok, err}
use sync_hub_for_agents.Base.Stateful.{◌>>=◌, ◌>>◌, return, lift}
use sync_hub_for_agents.Resource.Model.{
  Issue, strategy_install_manifest, strategy_structured_merge, strategy_text_tree,
}
use sync_hub_for_agents.Resource.Spec.{Spec}
use sync_hub_for_agents.Resource.Namespace.{parse_repo_path}
use sync_hub_for_agents.Sync.Reconcile.{
  Action, ActionType, push_to_remote, pull_to_local, delete_remote, delete_local, remove_remote,
  merge_both,
}
use sync_hub_for_agents.Conflict.Model.{Record}
use sync_hub_for_agents.Install.{Plan}
use sync_hub_for_agents.Engine.{
  Call, publish, create_conflict, write_merged, restore_merged, push_artifact, restore, soft_delete,
  delete_copies, remove_file, Step, Artifact, Merged, merged_contents, in_conflict, Progress,
  SyncResult, Environment, try_call, perform, ask, apply_issue, spec_for_repo_path,
  action_percentage, pending_install_for_adapter,
}

-- What a pass reads while it applies its actions
pub record Context : Type 0 where
  pub specs : Dict Text Spec
  pub artifacts : Dict Text Artifact
  pub held : List Text
  pub conflict_paths : List Text
  pub pending_plan : Option Plan
  pub total : ℕ

-- The loop's variables
pub record Loop : Type 0 where
  pub result : SyncResult
  pub preserve : List Text

-- After an action the loop goes on, with or without the news of it.
pub data Turn : Type 0 where
  quietly : Loop → Turn
  with_news : Loop → Turn

abbrev pub preserving : Text → Loop → Loop
preserving p l = record l { preserve = p ∷ l.preserve }

abbrev pub with_issue : Issue → Loop → Loop
with_issue i l = record l { result = record l.result { issues = l.result.issues ++ (i ∷ []) } }

abbrev pub one_restored : Loop → Loop
one_restored l = record l { result = record l.result { restored = suc l.result.restored } }

abbrev pub one_conflict : Loop → Loop
one_conflict l = record l { result = record l.result { conflicts = suc l.result.conflicts } }

abbrev pub has_issues : List Issue → Bool
has_issues [] = false
has_issues (_ ∷ _) = true

abbrev pub has_record : Text → List Record → Bool
has_record p [] = false
has_record p (r ∷ rs) = p == r.repo_rel || has_record p rs

module _ (env : Environment) where
  -- `os.ReadFile(artifact.StagePath)`
  unfoldable pub read_local : Option Artifact → Step (Option Text)
  unfolding ask
  read_local none = return none
  read_local (some a) = do
    text ← ask env (λ t. env.stage_content t a.stage_path)
    return (some text)

  unfoldable pub relative_of : Text → Result Text Text
  relative_of repo_rel = elim (parse_repo_path repo_rel) [
    | Result.err _ ↦ err (codes "malformed path")
    | Result.ok ref ↦ ok ref.relative
  ]

  -- What merging gives where a base may be missing
  unfoldable pub merge_inputs :
      Text → Spec → Option Text → Option Text → Option Text → Result Text Merged
  unfolding relative_of
  merge_inputs repo_rel spec none (some local) (some remote) =
      if spec.strategy == strategy_structured_merge
      then elim (relative_of repo_rel) [
        | err e ↦ err e
        | ok relative ↦ env.merge_initial relative local remote
      ]
      else ok in_conflict
  merge_inputs repo_rel spec (some base) (some local) (some remote) =
      if spec.strategy == strategy_structured_merge
      then elim (relative_of repo_rel) [
        | err e ↦ err e
        | ok relative ↦ env.merge_structured relative base local remote
      ]
      else if spec.strategy == strategy_text_tree
      then env.merge_text base local remote
      else ok (env.merge_binary base local remote)
  merge_inputs repo_rel spec _ _ _ = ok in_conflict

  -- The merge ends: `true` for a conflict.
  unfoldable pub finish_merge : Text → Spec → Merged → Step Bool
  unfolding perform relative_of ask
  finish_merge repo_rel spec in_conflict = do
    records ← ask env env.list_conflicts
    (if has_record repo_rel records
        then return true
        else (do perform env (create_conflict repo_rel) (codes "create conflict"); return true))
  finish_merge repo_rel spec (merged_contents text) = do
    perform env (write_merged repo_rel) (codes "write merged")
    (if spec.strategy == strategy_install_manifest then return false else (do
      relative ← lift (relative_of repo_rel)
      perform env (restore_merged repo_rel) (codes "restore merged")
      return false))

  -- `mergeResource`
  unfoldable pub merge_resource : Context → Text → Spec → Option Text → Step Bool
  unfolding read_local merge_inputs relative_of finish_merge ask
  merge_resource x repo_rel spec base = do
    local ← read_local (lookup repo_rel x.artifacts)
    remote ← ask env (λ t. env.remote_content t repo_rel)
    merged ← lift (merge_inputs repo_rel spec base local remote)
    finish_merge repo_rel spec merged

  -- `case MergeBoth`: an error of the merge is an issue.
  unfoldable pub merged_turn : Loop → Text → Spec → Result Text Bool → Turn
  merged_turn l repo_rel spec (err _) = quietly (
      preserving repo_rel (with_issue (apply_issue env spec.key repo_rel (codes "merge-failed")) l))
  merged_turn l repo_rel spec (ok true) = with_news (preserving repo_rel (one_conflict l))
  merged_turn l repo_rel spec (ok false) = with_news (one_restored l)

  unfoldable pub apply_merge : Context → Loop → Text → Spec → Step Turn
  unfolding merge_resource merged_turn ask
  apply_merge x l repo_rel spec = do
    base ← ask env (λ t. env.base_content t repo_rel)
    (λ w.
        let (r, v) = merge_resource x repo_rel spec base w in
        (ok (merged_turn l repo_rel spec r), v))

  -- A call on the local copies, whose error is an issue
  unfoldable pub call_or_issue : Call → Loop → Text → Spec → Text → Loop → Step Turn
  unfolding try_call
  call_or_issue c l repo_rel spec code done = do
    worked ← try_call env c
    return (
        if worked
        then with_news done
        else quietly (preserving repo_rel (with_issue (apply_issue env spec.key repo_rel code) l)))

  -- `case PushToRemote`
  unfoldable pub apply_push : Context → Loop → Text → Step Turn
  unfolding perform
  apply_push x l repo_rel = elim (lookup repo_rel x.artifacts) [
    | none ↦ lift (err (codes "no staged artifact"))
    | some _ ↦ (do
      perform env (push_artifact repo_rel) (codes "push resource")
      return (with_news l))
  ]

  -- `case RemoveRemote`
  unfoldable pub apply_remove : Loop → Text → Step Turn
  unfolding perform
  apply_remove l repo_rel = do
    perform env (remove_file repo_rel) (codes "remove blocked remote resource")
    return (with_news l)

  -- The `switch`, for an action whose path belongs to `spec`
  unfoldable pub apply_type : Context → Loop → Text → Spec → ActionType → Step Turn
  unfolding apply_merge apply_push apply_remove call_or_issue perform
  apply_type x l repo_rel spec merge_both = apply_merge x l repo_rel spec
  apply_type x l repo_rel spec push_to_remote = apply_push x l repo_rel
  apply_type x l repo_rel spec pull_to_local =
      if spec.strategy == strategy_install_manifest
      then return (with_news l)
      else call_or_issue (restore repo_rel) l repo_rel spec (codes "restore-failed")
          (one_restored l)
  apply_type x l repo_rel spec delete_remote = do
    perform env (soft_delete repo_rel) (codes "delete remote resource")
    (if spec.strategy == strategy_install_manifest
        then return (with_news l)
        else call_or_issue (delete_copies repo_rel) l repo_rel spec
            (codes "delete-local-alias-failed") l)
  apply_type x l repo_rel spec delete_local =
      if spec.strategy == strategy_install_manifest
      then return (with_news l)
      else call_or_issue (delete_copies repo_rel) l repo_rel spec (codes "delete-local-failed") l
  apply_type x l repo_rel spec remove_remote = apply_remove l repo_rel

  -- An action is left for later while the plugins it would remove are still to be installed.
  unfoldable pub waits_for_install : Context → Spec → ActionType → Bool
  unfolding pending_install_for_adapter
  waits_for_install x spec delete_remote =
      spec.strategy == strategy_install_manifest
      && pending_install_for_adapter x.pending_plan spec.installer
  waits_for_install x spec _ = false

  -- `spec` is that of the path, `none` if no resource owns it.
  unfoldable pub apply_owned : Context → Loop → Text → ActionType → Option Spec → Step Turn
  unfolding waits_for_install apply_type apply_remove
  apply_owned x l repo_rel remove_remote _ = apply_remove l repo_rel
  apply_owned x l repo_rel type none = lift (err (codes "no enabled resource owns the path"))
  apply_owned x l repo_rel type (some spec) =
      if waits_for_install x spec type
      then return (quietly (preserving repo_rel l))
      else apply_type x l repo_rel spec type

  -- A path in conflict is only merged or removed.
  abbrev pub settles : ActionType → Bool
  settles merge_both = true
  settles remove_remote = true
  settles _ = false

  -- One action
  unfoldable pub apply_action : Context → Loop → Action → Step Turn
  unfolding apply_owned spec_for_repo_path
  apply_action x l a =
      if contains x.held a.repo_rel
      then return (quietly l)
      else if contains x.conflict_paths a.repo_rel && not (settles a.type)
      then return (quietly (preserving a.repo_rel l))
      else apply_owned x l a.repo_rel a.type (spec_for_repo_path env x.specs a.repo_rel)

  abbrev pub news : Context → ℕ → Loop → Progress
  news x completed l = record {
    stage = codes "applying";
    percentage = action_percentage completed x.total;
    completed_actions = completed;
    total_actions = x.total;
    blocked_files = length l.result.blocked;
    restored = l.result.restored;
    reinstalled = l.result.reinstalled;
    skipped = l.result.skipped;
    conflicts = l.result.conflicts;
    pending_installs = l.result.pending_installs;
    needs_attention = has_issues l.result.issues || not (l.result.conflicts == 0);
  }

  -- The news of an action
  unfoldable pub announce : Context → ℕ → Turn → Step Loop
  unfolding try_call action_percentage
  announce x completed (quietly l) = return l
  announce x completed (with_news l) = do try_call env (publish (news x completed l)); return l

  -- The loop over the actions, `completed` of which are behind it
  unfoldable pub apply_actions : Context → ℕ → List Action → Loop → Step Loop
  unfolding apply_action announce
  apply_actions x completed [] l = return l
  apply_actions x completed (a ∷ rest) l = do
    turn ← apply_action x l a
    next ← announce x (suc completed) turn
    apply_actions x (suc completed) rest next
