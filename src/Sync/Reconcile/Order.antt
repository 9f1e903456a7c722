-- ===== src/Sync/Reconcile/Order.antt =====
-- The order in which `ReconcileWithBlocked` lists its actions.
use sync_hub_for_agents.Base.{
  ◌≡◌, true, false, ◌⊎◌, inl, inr, Bool, Option, none, some, List, [], ◌∷◌, arith, map, All,
}
use sync_hub_for_agents.Base.{contains}
use sync_hub_for_agents.Base.Text.{Text, text_eq, text_lt}
use sync_hub_for_agents.Base.Sort.{Ascending}
use sync_hub_for_agents.Base.Dict.{lookup}
use sync_hub_for_agents.State.{FileMeta, Snapshot}
use sync_hub_for_agents.Sync.Reconcile.{
  Action, reconcile_path, reconcile_keys, reconcile_with_blocked, emit,
}
use sync_hub_for_agents.Sync.Reconcile.Keys.{union_keys-Ascending}

abbrev pub paths : List Action → List Text
paths = map (λ a. a.repo_rel)

paths-emit :
    (blocked : Bool) (p : Text) (b l r : Option FileMeta) (rest : List Action)
    → let actions = emit (reconcile_path blocked p b l r) rest in
      (paths actions ≡ paths rest) ⊎ (paths actions ≡ p ∷ paths rest)
unfolding reconcile_path
paths-emit true p b l none rest = ground arith
paths-emit true p b l (some r) rest = ground arith
paths-emit false p none none none rest = ground arith
paths-emit false p none none (some r) rest = ground arith
paths-emit false p none (some l) none rest = ground arith
paths-emit false p none (some l) (some r) rest = ground arith
paths-emit false p (some b) none none rest = ground arith
paths-emit false p (some b) none (some r) rest = ground arith
paths-emit false p (some b) (some l) none rest = ground arith
paths-emit false p (some b) (some l) (some r) rest = ground arith

module _ (base local remote : Snapshot) (blocked : List Text) where
  paths-reconcile_keys :
      (k : Text) (ks : List Text)
      → let rest = reconcile_keys base local remote blocked ks in
        let actions = reconcile_keys base local remote blocked (k ∷ ks) in
        (paths actions ≡ paths rest) ⊎ (paths actions ≡ k ∷ paths rest)
  unfolding reconcile_keys
  paths-reconcile_keys k ks =
      paths-emit (contains blocked k) k (lookup k base) (lookup k local) (lookup k remote) _

  All-reconcile_keys :
      (i : Text) (ks : List Text)
      → All (λ j. text_lt i j ≡ true) ks
      → All (λ j. text_lt i j ≡ true) (paths (reconcile_keys base local remote blocked ks))
  unfolding reconcile_keys
  All-reconcile_keys i [] a = tt
  All-reconcile_keys i (k ∷ ks) a = elim (paths-reconcile_keys k ks) [
    | inl e ↦ rw e (All-reconcile_keys i ks a.1)
    | inr e ↦ rw e (a.0, All-reconcile_keys i ks a.1)
  ]

  reconcile_keys-Ascending :
      (ks : List Text)
      → Ascending ks
      → Ascending (paths (reconcile_keys base local remote blocked ks))
  unfolding reconcile_keys
  reconcile_keys-Ascending [] a = tt
  reconcile_keys-Ascending (k ∷ ks) a = elim (paths-reconcile_keys k ks) [
    | inl e ↦ rw e (reconcile_keys-Ascending ks a.1)
    | inr e ↦ rw e (All-reconcile_keys k ks a.0, reconcile_keys-Ascending ks a.1)
  ]

  -- The actions are listed in the strictly ascending byte order of their paths, whatever the order
  -- of the snapshots.
  pub reconcile_with_blocked-Ascending :
      Ascending (paths (reconcile_with_blocked base local remote blocked))
  unfolding reconcile_with_blocked
  reconcile_with_blocked-Ascending =
      reconcile_keys-Ascending _ (union_keys-Ascending base local remote)
