-- ===== src/Sync/Planning/Skipped.antt =====
-- A plan leaves the files of a skipped resource alone, on both sides.
use sync_hub_for_agents.Base.{
  ◌≡◌, refl, ◌∙◌, Bool, true, false, Option, none, some, List, [], ◌∷◌, arith, Bool-cases, inl, inr,
}
use sync_hub_for_agents.Base.{option_eq, contains, eq_of_true}
use sync_hub_for_agents.Base.Text.{Text, text_eq}
use sync_hub_for_agents.Base.Dict.{Dict, lookup, insert, lookup-insert}
use sync_hub_for_agents.State.{FileMeta, Snapshot}
use sync_hub_for_agents.Resource.Model.{Issue}
use sync_hub_for_agents.Resource.Spec.{Spec}
use sync_hub_for_agents.Resource.Namespace.{PathError}
use sync_hub_for_agents.Sync.Reconcile.Decision.{on_path, on_path-reconcile_with_blocked}
use sync_hub_for_agents.Sync.Planning.{
  has_any_prefix, without_prefixes, with_internal, with_blocked, split_remote_snapshot,
  skipped_repo_prefixes, blocked_repo_paths, prepare_resource_plan,
}

pub lookup-without_prefixes :
    (prefixes : List Text) (s : Snapshot) (p : Text)
    → has_any_prefix prefixes p ≡ true
    → lookup p (without_prefixes prefixes s) ≡ none
unfolding without_prefixes lookup
lookup-without_prefixes prefixes [] p h = refl
lookup-without_prefixes prefixes ((q, m) ∷ s) p h = elim (Bool-cases (has_any_prefix prefixes q)) [
  | inl e ↦ rw e (lookup-without_prefixes prefixes s p h)
  | inr n ↦ rw n (ground (arith, lookup-without_prefixes prefixes s p h, eq_of_true p q))
]

lookup-with_blocked :
    (ps : List Text) (remote valid : Snapshot) (p : Text)
    → contains ps p ≡ false
    → lookup p (with_blocked ps remote valid) ≡ lookup p valid
unfolding with_blocked
lookup-with_blocked [] remote valid p h = refl
lookup-with_blocked (q ∷ ps) remote valid p h =
    lookup-with_blocked ps remote _ p (ground arith) ∙ unchanged (lookup q remote)
  where
    unchanged :
        (v : Option FileMeta)
        → lookup p (elim v [ none ↦ valid | some m ↦ insert q m valid ]) ≡ lookup p valid
    unchanged none = refl
    unchanged (some m) = ground (arith, lookup-insert p q m valid)

module _ (to_lower : Text → Text) (is_abs : Text → Bool) (file_to_slash : Text → Text)
    (message_of : PathError → Text) (specs : Dict Text Spec) where
  -- Of a path that an issue makes the pass skip, and that no issue blocks, the plan has no action:
  -- neither the local file nor the one in the repository is written or removed.
  pub prepare_resource_plan-skips :
      (base local remote_snapshot valid_remote : Snapshot) (skipped blocked : List Issue) (p : Text)
      → has_any_prefix
          (skipped_repo_prefixes to_lower is_abs file_to_slash message_of specs skipped)
          p
        ≡ true
      → contains (blocked_repo_paths to_lower is_abs file_to_slash message_of specs blocked) p
        ≡ false
      → on_path p (
          (prepare_resource_plan to_lower is_abs file_to_slash message_of specs base local
            remote_snapshot valid_remote skipped blocked).actions)
        ≡ []
  unfolding prepare_resource_plan option_eq
  prepare_resource_plan-skips base local remote_snapshot valid_remote skipped blocked p s b =
      on_path-reconcile_with_blocked _ _ _
        (blocked_repo_paths to_lower is_abs file_to_slash message_of specs blocked) p
      ∙ rw
          (
            b,
            lookup-without_prefixes
                (skipped_repo_prefixes to_lower is_abs file_to_slash message_of specs skipped)
                ((split_remote_snapshot to_lower is_abs file_to_slash message_of specs
                  base).owned_files)
                p s,
            lookup-without_prefixes
                (skipped_repo_prefixes to_lower is_abs file_to_slash message_of specs skipped)
                (with_internal valid_remote local) p s,
            lookup-with_blocked
                (blocked_repo_paths to_lower is_abs file_to_slash message_of specs blocked)
                remote_snapshot
                (without_prefixes
                  (skipped_repo_prefixes to_lower is_abs file_to_slash message_of specs skipped)
                  valid_remote)
                p b,
            lookup-without_prefixes
                (skipped_repo_prefixes to_lower is_abs file_to_slash message_of specs skipped)
                valid_remote p s,
          )
          refl
