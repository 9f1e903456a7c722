-- ===== src/Sync/FirstSync/Direction.antt =====
-- A first pass makes the other side equal to the preferred one.
use sync_hub_for_agents.Base.{
  ◌≡◌, refl, sym, ap, ℕ_discrete, nat_eq, false, Option, none, some, List, [], ◌∷◌, map, arith,
  Bool-cases, inl, inr,
}
use sync_hub_for_agents.Base.{◌==◌, contains, option_eq, eq_of_true}
use sync_hub_for_agents.Base.Text.{Text, text_eq}
use sync_hub_for_agents.Base.Dict.{lookup, lookup-nil}
use sync_hub_for_agents.State.{FileMeta, Snapshot}
use sync_hub_for_agents.Sync.Reconcile.{ActionType, Action, reconcile_with_blocked}
use sync_hub_for_agents.Sync.Reconcile.Decision.{
  content, decided, on_path, on_path-reconcile_with_blocked,
}
use sync_hub_for_agents.Sync.Reconcile.Convergence.{carry_out_all, sides}
use sync_hub_for_agents.Sync.FirstSync.{
  use_cloud, use_local, cloud_type, local_type, retype, apply_first_sync_strategy,
}

on_path-retype :
    (f : Option FileMeta → ActionType → ActionType) (side : Snapshot) (p : Text)
    (actions : List Action)
    → on_path p (map (retype f side) actions) ≡ map (f (lookup p side)) (on_path p actions)
unfolding retype
on_path-retype f side p [] = refl
on_path-retype f side p (a ∷ actions) = elim (Bool-cases (p == a.repo_rel)) [
  | inl e ↦
      rw (e, on_path-retype f side p actions)
        (ap (λ q. f (lookup q side) a.type ∷ map (f (lookup p side)) (on_path p actions))
          (sym (eq_of_true p a.repo_rel e)))
  | inr e ↦ rw (e, on_path-retype f side p actions)
]

mode_cloud :
    (actions : List Action) (local remote : Snapshot)
    → apply_first_sync_strategy actions local remote use_cloud
      ≡ map (retype cloud_type remote) actions
unfolding apply_first_sync_strategy text_eq nat_eq ℕ_discrete
mode_cloud actions local remote = refl

mode_local :
    (actions : List Action) (local remote : Snapshot)
    → apply_first_sync_strategy actions local remote use_local
      ≡ map (retype local_type local) actions
unfolding apply_first_sync_strategy text_eq nat_eq ℕ_discrete
mode_local actions local remote = refl

cloud_decided :
    (l r : Option FileMeta)
    → carry_out_all (map (cloud_type r) (decided false none l r)) (sides l r)
      ≡ record { local = content r; remote = content r }
unfolding cloud_type option_eq
cloud_decided none none = refl
cloud_decided none (some r) = refl
cloud_decided (some l) none = refl
cloud_decided (some l) (some r) = ground arith

local_decided :
    (l r : Option FileMeta)
    → carry_out_all (map (local_type l) (decided false none l r)) (sides l r)
      ≡ record { local = content l; remote = content l }
unfolding local_type option_eq
local_decided none none = refl
local_decided none (some r) = refl
local_decided (some l) none = refl
local_decided (some l) (some r) = ground arith

module _ (local remote : Snapshot) (blocked : List Text) (p : Text) where
  -- In mode `use-cloud` a first pass (with an empty base) leaves the local side with the remote
  -- content of each path that is not blocked, present or not, and the remote side unchanged.
  pub apply_first_sync_strategy-use_cloud :
      contains blocked p ≡ false
      → carry_out_all
          (on_path p (
            apply_first_sync_strategy
              (reconcile_with_blocked [] local remote blocked)
              local
              remote
              use_cloud))
          (sides (lookup p local) (lookup p remote))
        ≡ record { local = content (lookup p remote); remote = content (lookup p remote) }
  apply_first_sync_strategy-use_cloud free =
      rw (mode_cloud, on_path-retype, on_path-reconcile_with_blocked, free, lookup-nil)
        (cloud_decided (lookup p local) (lookup p remote))

  -- In mode `use-local` a first pass leaves the remote side with the local content of each path
  -- that is not blocked, present or not, and the local side unchanged.
  pub apply_first_sync_strategy-use_local :
      contains blocked p ≡ false
      → carry_out_all
          (on_path p (
            apply_first_sync_strategy
              (reconcile_with_blocked [] local remote blocked)
              local
              remote
              use_local))
          (sides (lookup p local) (lookup p remote))
        ≡ record { local = content (lookup p local); remote = content (lookup p local) }
  apply_first_sync_strategy-use_local free =
      rw (mode_local, on_path-retype, on_path-reconcile_with_blocked, free, lookup-nil)
        (local_decided (lookup p local) (lookup p remote))
