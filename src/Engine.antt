-- ===== src/Engine.antt =====
-- internal/syncengine/engine.go and models.go: one synchronization pass as a program over the calls
-- that it makes. What a call answers may depend on all calls before it.
pub mod Bounds
pub mod Base
pub mod Only
pub mod Apply
pub mod Held
pub mod Resolve
pub mod Pass
pub mod Cycle
pub mod Protocol
pub mod Skipped
use sync_hub_for_agents.Base.{
  ℕ, suc, ◌+◌, ◌*◌, Bool, true, false, not, ◌&&◌, ◌||◌, Option, none, some, List, [], ◌∷◌, ◌++◌, ℤ,
  pos, length,
}
use Prim.Native.Nat.{◌/◌}
use sync_hub_for_agents.Base.{◌==◌, nat_eq, contains, if◌then◌else◌}
use sync_hub_for_agents.Base.Text.{Text, text_eq, codes}
use sync_hub_for_agents.Base.Dict.{Dict, lookup, insert, erase, keys}
use sync_hub_for_agents.Base.Sort.{sort_strings}
use sync_hub_for_agents.Base.Result.{Result, ok, err}
use sync_hub_for_agents.Base.Stateful.{Program, ◌>>=◌, ◌>>◌, return, lift}
use sync_hub_for_agents.State.{Snapshot}
use sync_hub_for_agents.Resource.Model.{Issue}
use sync_hub_for_agents.Resource.Spec.{Spec}
use sync_hub_for_agents.Resource.Namespace.{PathError, RepoRef, parse_repo_path}
use sync_hub_for_agents.Sync.Reconcile.{Action}
use sync_hub_for_agents.Sync.Planning.{spec_for_ref, ref_matches_spec}
use sync_hub_for_agents.Install.{Plan, Operation, install, update}
use sync_hub_for_agents.Install.Manager.Reconcile.{ReconcileResult}
use sync_hub_for_agents.Conflict.Model.{Record, ResolutionBatch}
use sync_hub_for_agents.Conflict.Transaction.{AppliedResolution}

-- `Progress`; `pushed` is never set here.
pub record Progress : Type 0 where
  pub stage : Text
  pub percentage : ℕ
  pub completed_actions : ℕ
  pub total_actions : ℕ
  pub blocked_files : ℕ
  pub restored : ℕ
  pub reinstalled : ℕ
  pub skipped : ℕ
  pub conflicts : ℕ
  pub pending_installs : ℕ
  pub needs_attention : Bool

-- The calls that change something outside the pass. A path is that of a file in the repository.
pub data Call : Type 0 where
  publish : Progress → Call
  set_line_endings : Call
  recover_transactions : Call
  pull_rebase : Call
  protect_specs : Call
  mirror_conflicts : List Text → Call
  make_stage_parent : Call
  close_stage : Call
  apply_batch : Call
  restore_resolved : Text → Call
  create_conflict : Text → Call
  write_merged : Text → Call
  restore_merged : Text → Call
  push_artifact : Text → Call
  restore : Text → Call
  soft_delete : Text → Call
  delete_copies : Text → Call
  remove_file : Text → Call
  run_installs : Dict Text Text → Call
  add_all : Call
  commit : Call
  push : Call
  fetch_origin : Call
  reset_upstream : Call
  save_state : Snapshot → Call
  capture_base : Snapshot → List Text → Call
  saw_changes : Call

-- `saw_changes` is the answer of `HasChanges`, where `worked` is that there are some.
pub record Event : Type 0 where
  pub call : Call
  pub worked : Bool

-- The calls of the pass, the last one first
pub record World : Type 0 where
  pub trace : List Event

-- `Artifact` of the collector, as far as a pass reads it
pub record Artifact : Type 0 where
  pub relative : Text
  pub stage_path : Text

pub record Collected : Type 0 where
  pub snapshot : Snapshot
  pub artifacts : Dict Text Artifact
  pub skipped_issues : List Issue
  pub blocked_issues : List Issue

-- What merging gives: contents, or a conflict
pub data Merged : Type 0 where
  merged_contents : Text → Merged
  in_conflict : Merged

-- The other components and the platform. An answer is given by the calls so far.
pub record Environment : Type 0 where
  pub works : List Event → Call → Bool
  pub load_state : List Event → Result Text Snapshot
  pub snapshot_repo : List Event → Result Text Snapshot
  pub protected_specs : List Event → Dict Text Spec → Snapshot → Dict Text Spec
  pub validate_remote : List Event → Snapshot → Snapshot × List Issue
  pub collect : List Event → List Spec → Result Text Collected
  pub pending_batch : List Event → Result Text (Option ResolutionBatch)
  pub resolutions : List Event → List AppliedResolution
  pub list_conflicts : List Event → Result Text (List Record)
  pub pending_installs : List Event → Result Text (Option Plan)
  pub base_content : List Event → Text → Result Text (Option Text)
  pub stage_content : List Event → Text → Result Text Text
  pub remote_content : List Event → Text → Result Text (Option Text)
  pub merge_initial : Text → Text → Text → Result Text Merged
  pub merge_structured : Text → Text → Text → Text → Result Text Merged
  pub merge_text : Text → Text → Text → Result Text Merged
  pub merge_binary : Text → Text → Text → Merged
  pub has_changes : List Event → Result Text Bool
  pub install_result : List Event → ReconcileResult
  pub is_abs : Text → Bool
  pub to_lower : Text → Text
  pub file_to_slash : Text → Text
  pub path_message : PathError → Text

-- `Engine`, as far as it is configuration
pub record Engine : Type 0 where
  pub has_git : Bool
  pub repo_dir : Text
  pub state_path : Text
  pub resources : Dict Text Spec
  pub has_inventory : Bool
  pub install_manager : Option Bool
  pub push_retries : ℤ
  pub first_sync_mode : Text
  pub first_sync_run : Bool

-- `Result`
pub record SyncResult : Type 0 where
  pub actions : List Action
  pub blocked : List Text
  pub issues : List Issue
  pub skipped_issues : List Issue
  pub blocked_issues : List Issue
  pub pushed : Bool
  pub restored : ℕ
  pub reinstalled : ℕ
  pub skipped : ℕ
  pub conflicts : ℕ
  pub pending_installs : ℕ
  pub needs_attention : Bool

-- An error is the text of what failed.
abbrev pub Step : Type 0 → Type 0
Step A = Program World Text A

abbrev pub log : Call → Bool → World → World
log c worked w = record { trace = record { call = c; worked = worked } ∷ w.trace }

module _ (env : Environment) where
  -- A call whose error is a value
  unfoldable pub try_call : Call → Step Bool
  try_call c w = let worked = env.works w.trace c in (ok worked, log c worked w)

  -- A call whose error ends the pass
  unfoldable pub perform : Call → Text → Step (Unit {0})
  unfolding try_call
  perform c problem = do worked ← try_call c; (if worked then return tt else lift (err problem))

  -- A question about the state outside the pass
  unfoldable pub ask : {A : Type 0} → (List Event → Result Text A) → Step A
  ask question w = (question w.trace, w)

  -- `applyIssue`, where the message, an error's text, is the code again
  abbrev pub apply_issue : Text → Text → Text → Issue
  apply_issue resource_key repo_rel code = record {
    resource_key = resource_key;
    path = repo_rel;
    code = code;
    message = code;
    bytes = pos 0;
  }

  -- `specForRepoPath`, `none` for its errors
  unfoldable pub spec_for_repo_path : Dict Text Spec → Text → Option Spec
  unfolding spec_for_ref ref_matches_spec
  spec_for_repo_path specs repo_rel = elim (parse_repo_path repo_rel) [
    | Result.err _ ↦ none
    | Result.ok ref ↦ elim (spec_for_ref specs ref) [
      | none ↦ none
      | some spec ↦
          if ref_matches_spec env.to_lower env.is_abs env.file_to_slash env.path_message specs ref
            spec
          then some spec
          else none
    ]
  ]

-- `actionPercentage`
unfoldable pub action_percentage : ℕ → ℕ → ℕ
action_percentage completed total = if total == 0 then 75 else 60 + (completed * 15) / total

-- The loop of `pendingInstallForAdapter`
unfoldable pub any_install : Text → List Operation → Bool
any_install adapter [] = false
any_install adapter (o ∷ os) =
    (o.adapter == adapter && (o.kind == install || o.kind == update)) || any_install adapter os

-- `pendingInstallForAdapter`
unfoldable pub pending_install_for_adapter : Option Plan → Text → Bool
unfolding any_install
pending_install_for_adapter none adapter = false
pending_install_for_adapter (some plan) adapter = any_install adapter plan.operations

-- The loop of `preserveSnapshot` over a set of paths
unfoldable pub preserve_each : Snapshot → List Text → Snapshot → Snapshot
preserve_each previous [] next = next
preserve_each previous (p ∷ ps) next =
    preserve_each previous ps
      (elim (lookup p previous) [ none ↦ erase p next | some meta ↦ insert p meta next ])

-- `preserveSnapshot`
unfoldable pub preserve_snapshot : Snapshot → Snapshot → List Text → Snapshot
unfolding preserve_each
preserve_snapshot previous current preserve = preserve_each previous preserve current

-- `sortedResourceSpecs`
abbrev pub specs_at : Dict Text Spec → List Text → List Spec
specs_at specs [] = []
specs_at specs (k ∷ ks) = elim (lookup k specs) [
  | none ↦ specs_at specs ks
  | some s ↦ s ∷ specs_at specs ks
]

unfoldable pub sorted_resource_specs : Dict Text Spec → List Spec
sorted_resource_specs specs = specs_at specs (sort_strings (keys specs))
