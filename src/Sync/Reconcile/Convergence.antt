-- ===== src/Sync/Reconcile/Convergence.antt =====
-- What the two sides hold once the actions of a pass are carried out.
use sync_hub_for_agents.Base.{
  ◌≡◌, ◌≢◌, ◌↔◌, ◌⊎◌, Bool, true, false, Option, none, some, List, [], ◌∷◌, arith, inl, inr,
}
use sync_hub_for_agents.Base.{◌==◌, contains, if◌then◌else◌, option_eq, eq_of_true, true_of_eq}
use sync_hub_for_agents.Base.Text.{Text, text_eq}
use sync_hub_for_agents.Base.Dict.{lookup, is_some}
use sync_hub_for_agents.State.{FileMeta, Snapshot}
use sync_hub_for_agents.Sync.Reconcile.{
  ActionType, push_to_remote, pull_to_local, delete_remote, delete_local, remove_remote, merge_both,
  reconcile_with_blocked,
}
use sync_hub_for_agents.Sync.Reconcile.Decision.{
  content, three_way, decided, on_path, on_path-reconcile_with_blocked,
}

-- The contents of one path on the local and on the remote side.
pub record Sides : Type 0 where
  pub local : Option Text
  pub remote : Option Text

-- The documented effect of an action on its path. A merge has no effect of its own here: its
-- outcome is the strategy's.
abbrev pub carry_out : ActionType → Sides → Sides
carry_out push_to_remote s = record s { remote = s.local }
carry_out pull_to_local s = record s { local = s.remote }
carry_out delete_remote s = record s { remote = none }
carry_out delete_local s = record s { local = none }
carry_out remove_remote s = record s { remote = none }
carry_out merge_both s = s

abbrev pub carry_out_all : List ActionType → Sides → Sides
carry_out_all [] s = s
carry_out_all (a ∷ as') s = carry_out_all as' (carry_out a s)

abbrev pub sides : Option FileMeta → Option FileMeta → Sides
sides l r = record { local = content l; remote = content r }

-- The content that both sides should get: that of the side which left the base.
abbrev pub survivor : Option Text → Option Text → Option Text → Option Text
survivor base local remote = if remote == base then local else remote

-- The same with the three tests as variables.
carry_out_tested :
    (b l r : Option Text) (lr lb rb : Bool)
    → (lr ≡ true → l ≡ r)
    → (lb ≡ true → l ≡ b)
    → (rb ≡ true → r ≡ b)
    → (lr ≡ true) ⊎ (lb ≡ true) ⊎ (rb ≡ true)
    → carry_out_all
        (if lr
          then []
          else if rb
          then (if is_some l then push_to_remote else delete_remote) ∷ []
          else if lb
          then (if is_some r then pull_to_local else delete_local) ∷ []
          else merge_both ∷ [])
        (record { local = l; remote = r })
      ≡ record { local = if rb then l else r; remote = if rb then l else r }
carry_out_tested b none none lr lb rb p q s h = ground arith
carry_out_tested b none (some r) lr lb rb p q s h = ground arith
carry_out_tested b (some l) none lr lb rb p q s h = ground arith
carry_out_tested b (some l) (some r) lr lb rb p q s h = ground arith

carry_out-three_way :
    (b l r : Option Text)
    → (l ≡ r) ⊎ (l ≡ b) ⊎ (r ≡ b)
    → carry_out_all (three_way b l r) (record { local = l; remote = r })
      ≡ record { local = survivor b l r; remote = survivor b l r }
carry_out-three_way b l r h =
    carry_out_tested b l r (l == r) (l == b) (r == b) (eq_of_true l r) (eq_of_true l b)
      (eq_of_true r b)
      (elim h [
        | inl e ↦ inl (true_of_eq l r e)
        | inr k ↦ elim k [
          | inl e ↦ inr (inl (true_of_eq l b e))
          | inr e ↦ inr (inr (true_of_eq r b e))
        ]
      ])

decided_merges :
    (blocked : Bool) (b l r : Option FileMeta)
    → (decided blocked b l r ≡ merge_both ∷ [])
      ↔ (blocked ≡ false)
        × (content l ≢ content r)
        × (content l ≢ content b)
        × (content r ≢ content b)
decided_merges true b l none = ground arith
decided_merges true b l (some r) = ground arith
decided_merges false b none none = ground arith
decided_merges false b none (some r) = ground arith
decided_merges false b (some l) none = ground arith
decided_merges false b (some l) (some r) = ground arith

module _ (base local remote : Snapshot) (blocked : List Text) (p : Text) where
  -- Of a path that is not blocked, and that at most one side changed or both changed alike, the
  -- actions leave both sides with the same content: that of the side which left the base.
  pub reconcile_with_blocked-converges :
      contains blocked p ≡ false
      → (content (lookup p local) ≡ content (lookup p remote))
        ⊎ (content (lookup p local) ≡ content (lookup p base))
        ⊎ (content (lookup p remote) ≡ content (lookup p base))
      → let kept =
          survivor
            (content (lookup p base))
            (content (lookup p local))
            (content (lookup p remote)) in
        carry_out_all
          (on_path p (reconcile_with_blocked base local remote blocked))
          (sides (lookup p local) (lookup p remote))
        ≡ record { local = kept; remote = kept }
  reconcile_with_blocked-converges free h =
      rw (on_path-reconcile_with_blocked, free)
        (carry_out-three_way (content (lookup p base)) (content (lookup p local))
          (content (lookup p remote)) h)

  -- A merge is asked for exactly if the path is not blocked and no two of the three contents agree.
  pub reconcile_with_blocked-merges :
      (on_path p (reconcile_with_blocked base local remote blocked) ≡ merge_both ∷ [])
      ↔ (contains blocked p ≡ false)
        × (content (lookup p local) ≢ content (lookup p remote))
        × (content (lookup p local) ≢ content (lookup p base))
        × (content (lookup p remote) ≢ content (lookup p base))
  reconcile_with_blocked-merges =
      rw on_path-reconcile_with_blocked
        (decided_merges (contains blocked p) (lookup p base) (lookup p local) (lookup p remote))
