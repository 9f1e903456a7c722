-- ===== src/Engine/Held.antt =====
-- Which files the loop over the actions touches.
use mathlib.Core.List.{Memᴰ}
use mathlib.Core.List.Memᴰ.{head, tail}
use sync_hub_for_agents.Base.{
  ℕ, suc, ◌≡◌, refl, Bool, true, false, not, ◌&&◌, Option, none, some, List, [], ◌∷◌, ◌⊎◌, inl, inr,
}
use sync_hub_for_agents.Base.{nat_eq, contains, if◌then◌else◌}
use sync_hub_for_agents.Base.Text.{Text, text_eq, codes}
use sync_hub_for_agents.Base.Dict.{lookup}
use sync_hub_for_agents.Base.Result.{Result, ok, err}
use sync_hub_for_agents.Base.Stateful.{◌>>◌, return, lift, After}
use sync_hub_for_agents.Resource.Spec.{Spec}
use sync_hub_for_agents.Sync.Reconcile.{
  Action, ActionType, push_to_remote, pull_to_local, delete_remote, delete_local, remove_remote,
  merge_both,
}
use sync_hub_for_agents.Engine.{
  Call, publish, create_conflict, write_merged, restore_merged, push_artifact, restore, soft_delete,
  delete_copies, remove_file, Step, World, Artifact, Merged, merged_contents, in_conflict,
  Environment, perform, spec_for_repo_path,
}
use sync_hub_for_agents.Engine.Apply.{
  Context, Loop, Turn, quietly, with_news, preserving, read_local, finish_merge, merge_resource,
  apply_merge, call_or_issue, apply_push, apply_remove, apply_type, apply_owned, settles,
  apply_action, news, announce, apply_actions,
}
use sync_hub_for_agents.Engine.Only.{
  Extends, Only, Only-return, Only-lift, Only-bind, Only-if, Only-try_call, Only-perform, Only-ask,
  Only-weaken,
}

-- The file that a call of the loop concerns; `none` for the calls that are made elsewhere.
abbrev pub touched : Call → Option Text
touched (create_conflict p) = some p
touched (write_merged p) = some p
touched (restore_merged p) = some p
touched (push_artifact p) = some p
touched (restore p) = some p
touched (soft_delete p) = some p
touched (delete_copies p) = some p
touched (remove_file p) = some p
touched _ = none

abbrev pub is_news : Call → Bool
is_news (publish _) = true
is_news _ = false

module _ (env : Environment) where
  abbrev Touches : Text → Call → Type 0
  Touches p c = touched c ≡ some p

  read_local-Only : {P : Call → Type 0} (a : Option Artifact) → Only P (read_local env a)
  unfolding read_local
  read_local-Only none = Only-return
  read_local-Only (some a) = Only-bind (Only-ask env _) (λ text. Only-return)

  finish_merge-Touches :
      (p : Text) (spec : Spec) (m : Merged) → Only (Touches p) (finish_merge env p spec m)
  unfolding finish_merge
  finish_merge-Touches p spec in_conflict = Only-bind (Only-ask env _) (λ records.
      Only-if _ Only-return
        (Only-bind (Only-perform env (create_conflict p) _ refl) (λ _. Only-return)))
  finish_merge-Touches p spec (merged_contents text) =
      Only-bind (Only-perform env (write_merged p) _ refl) (λ _. Only-if _ Only-return (
        Only-bind Only-lift
          (λ relative. Only-bind (Only-perform env (restore_merged p) _ refl) (λ _. Only-return))))

  merge_resource-Touches :
      (x : Context) (p : Text) (spec : Spec) (base : Option Text)
      → Only (Touches p) (merge_resource env x p spec base)
  unfolding merge_resource
  merge_resource-Touches x p spec base =
      Only-bind (read_local-Only (lookup p x.artifacts)) (λ local.
        Only-bind (Only-ask env _)
          (λ remote. Only-bind Only-lift (λ merged. finish_merge-Touches p spec merged)))

  apply_merge-Touches :
      (x : Context) (l : Loop) (p : Text) (spec : Spec)
      → Only (Touches p) (apply_merge env x l p spec)
  unfolding apply_merge
  apply_merge-Touches x l p spec = Only-bind (Only-ask env _) (λ base. record {
    from = λ w.
        by_end base w (merge_resource env x p spec base w)
          ((merge_resource-Touches x p spec base).from w);
  })
    where
      by_end :
          (base : Option Text) (w : World) (r : Result Text Bool × World)
          → After (λ _ v. Extends (Touches p) w v) (Extends (Touches p) w) r
          → Extends (Touches p) w r.1
      by_end base w (ok b, v) e = e
      by_end base w (err c, v) e = e

  call_or_issue-Touches :
      (c : Call) (l : Loop) {p : Text} (spec : Spec) (code : Text) (done : Loop)
      → Touches p c
      → Only (Touches p) (call_or_issue env c l p spec code done)
  unfolding call_or_issue
  call_or_issue-Touches c l spec code done t =
      Only-bind (Only-try_call env c t) (λ worked. Only-return)

  apply_push-Touches : (x : Context) (l : Loop) (p : Text) → Only (Touches p) (apply_push env x l p)
  unfolding apply_push
  apply_push-Touches x l p = by_artifact (lookup p x.artifacts)
    where
      by_artifact :
          (a : Option Artifact)
          → Only (Touches p) (elim a as (λ _. Step Turn) [
            | none ↦ lift (err (codes "no staged artifact"))
            | some _ ↦ (do
              perform env (push_artifact p) (codes "push resource")
              return (with_news l))
          ])
      by_artifact none = Only-lift
      by_artifact (some a) =
          Only-bind (Only-perform env (push_artifact p) _ refl) (λ _. Only-return)

  apply_remove-Touches : (l : Loop) (p : Text) → Only (Touches p) (apply_remove env l p)
  unfolding apply_remove
  apply_remove-Touches l p = Only-bind (Only-perform env (remove_file p) _ refl) (λ _. Only-return)

  apply_type-Touches :
      (x : Context) (l : Loop) (p : Text) (spec : Spec) (t : ActionType)
      → Only (Touches p) (apply_type env x l p spec t)
  unfolding apply_type
  apply_type-Touches x l p spec merge_both = apply_merge-Touches x l p spec
  apply_type-Touches x l p spec push_to_remote = apply_push-Touches x l p
  apply_type-Touches x l p spec pull_to_local =
      Only-if _ Only-return (call_or_issue-Touches (restore p) l spec _ _ refl)
  apply_type-Touches x l p spec delete_remote =
      Only-bind (Only-perform env (soft_delete p) _ refl)
        (λ _. Only-if _ Only-return (call_or_issue-Touches (delete_copies p) l spec _ _ refl))
  apply_type-Touches x l p spec delete_local =
      Only-if _ Only-return (call_or_issue-Touches (delete_copies p) l spec _ _ refl)
  apply_type-Touches x l p spec remove_remote = apply_remove-Touches l p

  apply_owned-Touches :
      (x : Context) (l : Loop) (p : Text) (t : ActionType) (spec : Option Spec)
      → Only (Touches p) (apply_owned env x l p t spec)
  unfolding apply_owned
  apply_owned-Touches x l p remove_remote spec = apply_remove-Touches l p
  apply_owned-Touches x l p merge_both none = Only-lift
  apply_owned-Touches x l p push_to_remote none = Only-lift
  apply_owned-Touches x l p pull_to_local none = Only-lift
  apply_owned-Touches x l p delete_remote none = Only-lift
  apply_owned-Touches x l p delete_local none = Only-lift
  apply_owned-Touches x l p merge_both (some spec) = apply_type-Touches x l p spec merge_both
  apply_owned-Touches x l p push_to_remote (some spec) =
      apply_type-Touches x l p spec push_to_remote
  apply_owned-Touches x l p pull_to_local (some spec) = apply_type-Touches x l p spec pull_to_local
  apply_owned-Touches x l p delete_remote (some spec) =
      Only-if _ Only-return (apply_type-Touches x l p spec delete_remote)
  apply_owned-Touches x l p delete_local (some spec) = apply_type-Touches x l p spec delete_local

  -- A call that the loop may make: news, or one on the file of an action that is not held, and that
  -- settles the conflict of the file if it is in one.
  pub data MayCall (x : Context) (actions : List Action) (c : Call) : Type 0 where
    for_action :
        (a : Action)
        → Memᴰ a actions
        → contains x.held a.repo_rel ≡ false
        → (contains x.conflict_paths a.repo_rel ≡ false) ⊎ (settles env a.type ≡ true)
        → touched c ≡ some a.repo_rel
        → MayCall x actions c
    news_only : is_news c ≡ true → MayCall x actions c

  apply_action-MayCall :
      (x : Context) (l : Loop) (a : Action) (actions : List Action)
      → Memᴰ a actions
      → Only (MayCall x actions) (apply_action env x l a)
  unfolding apply_action
  apply_action-MayCall x l a actions i =
      by_held (contains x.held a.repo_rel) (contains x.conflict_paths a.repo_rel)
        (settles env a.type) refl refl refl
    where
      owned : Step Turn
      owned = apply_owned env x l a.repo_rel a.type (spec_for_repo_path env x.specs a.repo_rel)

      by_held :
          (held conflict settled : Bool)
          → contains x.held a.repo_rel ≡ held
          → contains x.conflict_paths a.repo_rel ≡ conflict
          → settles env a.type ≡ settled
          → Only (MayCall x actions) (
              if held
              then return (quietly l)
              else if conflict && not settled
              then return (quietly (preserving a.repo_rel l))
              else owned)
      by_held true conflict settled h c s = Only-return
      by_held false true false h c s = Only-return
      by_held false false settled h c s =
          Only-weaken (λ call t. for_action a i h (inl c) t)
            (apply_owned-Touches x l a.repo_rel a.type (spec_for_repo_path env x.specs a.repo_rel))
      by_held false true true h c s =
          Only-weaken (λ call t. for_action a i h (inr s) t)
            (apply_owned-Touches x l a.repo_rel a.type (spec_for_repo_path env x.specs a.repo_rel))

  announce-MayCall :
      (x : Context) (completed : ℕ) (t : Turn) (actions : List Action)
      → Only (MayCall x actions) (announce env x completed t)
  unfolding announce
  announce-MayCall x completed (quietly l) actions = Only-return
  announce-MayCall x completed (with_news l) actions =
      Only-bind (Only-try_call env (publish (news env x completed l)) (news_only refl))
        (λ _. Only-return)

  apply_each-MayCall :
      (x : Context) (completed : ℕ) (rest actions : List Action) (l : Loop)
      → ((a : Action) → Memᴰ a rest → Memᴰ a actions)
      → Only (MayCall x actions) (apply_actions env x completed rest l)
  unfolding apply_actions
  apply_each-MayCall x completed [] actions l within = Only-return
  apply_each-MayCall x completed (a ∷ rest) actions l within =
      Only-bind (apply_action-MayCall x l a actions (within a (head refl))) (λ turn.
        Only-bind (announce-MayCall x (suc completed) turn actions) (λ next.
          apply_each-MayCall x (suc completed) rest actions next (λ b i. within b (tail i))))

  -- Whatever its calls answer, the loop over the actions only gives news and touches files of actions, never one
  -- that is held for a resolution, and one that is in conflict only to merge or to remove it.
  pub apply_actions-MayCall :
      (x : Context) (actions : List Action) (l : Loop)
      → Only (MayCall x actions) (apply_actions env x 0 actions l)
  apply_actions-MayCall x actions l = apply_each-MayCall x 0 actions actions l (λ a i. i)
