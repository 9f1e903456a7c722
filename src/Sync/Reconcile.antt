-- ===== src/Sync/Reconcile.antt =====
-- internal/syncengine/reconcile.go: the three-way comparison of snapshots.
-- What Go reads as `meta, present := snapshot[p]` is one value of `Option FileMeta` here.
pub mod Keys
pub mod Decision
pub mod Order
pub mod Convergence
use sync_hub_for_agents.Base.{Bool, true, false, not, ◌&&◌, Option, none, some, List, [], ◌∷◌}
use sync_hub_for_agents.Base.{◌==◌, contains, if◌then◌else◌}
use sync_hub_for_agents.Base.Text.{Text, text_eq}
use sync_hub_for_agents.Base.Sort.{add_key, sort_strings}
use sync_hub_for_agents.Base.Dict.{lookup}
use sync_hub_for_agents.State.{FileMeta, Snapshot}

pub data ActionType : Type 0 where
  push_to_remote : ActionType
  pull_to_local : ActionType
  delete_remote : ActionType
  delete_local : ActionType
  remove_remote : ActionType
  merge_both : ActionType

pub record Action : Type 0 where
  pub type : ActionType
  pub repo_rel : Text

unfoldable pub side_changed : Option FileMeta → Option FileMeta → Bool
side_changed none none = false
side_changed none (some _) = true
side_changed (some _) none = true
side_changed (some base) (some side) = not (base.hash == side.hash)

unfoldable pub resolve_conflict : Text → Option FileMeta → Option FileMeta → Option Action
resolve_conflict p (some l) (some r) =
    if l.hash == r.hash then none else some (record { type = merge_both; repo_rel = p })
resolve_conflict p (some _) none = some (record { type = merge_both; repo_rel = p })
resolve_conflict p none (some _) = some (record { type = merge_both; repo_rel = p })
resolve_conflict p none none = none

unfoldable pub add_keys : Snapshot → List Text → List Text
add_keys [] ks = ks
add_keys ((k, _) ∷ s) ks = add_keys s (add_key k ks)

unfoldable pub union_keys : Snapshot → Snapshot → Snapshot → List Text
unfolding add_keys
union_keys base local remote = sort_strings (add_keys remote (add_keys local (add_keys base [])))

abbrev present_or : Option FileMeta → ActionType → ActionType → Text → Option Action
present_or (some _) yes_type no_type p = some (record { type = yes_type; repo_rel = p })
present_or none yes_type no_type p = some (record { type = no_type; repo_rel = p })

-- The body of the loop for one path; the last two arguments say which sides changed.
abbrev by_change : Text → Option FileMeta → Option FileMeta → Bool → Bool → Option Action
by_change p l r false false = none
by_change p l r true false = present_or l push_to_remote delete_remote p
by_change p l r false true = present_or r pull_to_local delete_local p
by_change p l r true true = resolve_conflict p l r

abbrev removal : Text → Option FileMeta → Option Action
removal p (some _) = some (record { type = remove_remote; repo_rel = p })
removal p none = none

unfoldable pub reconcile_path :
    Bool → Text → Option FileMeta → Option FileMeta → Option FileMeta → Option Action
unfolding resolve_conflict side_changed
reconcile_path true p b l r = removal p r
reconcile_path false p b l r = by_change p l r (side_changed b l) (side_changed b r)

-- `append(actions, a)` if there is an action.
abbrev pub emit : Option Action → List Action → List Action
emit none rest = rest
emit (some a) rest = a ∷ rest

module _ (base local remote : Snapshot) (blocked : List Text) where
  unfoldable pub reconcile_at : Text → Option Action
  reconcile_at p =
      reconcile_path (contains blocked p) p (lookup p base) (lookup p local) (lookup p remote)

  unfoldable pub reconcile_keys : List Text → List Action
  unfolding reconcile_at
  reconcile_keys [] = []
  reconcile_keys (p ∷ ps) = emit (reconcile_at p) (reconcile_keys ps)

  unfoldable pub reconcile_with_blocked : List Action
  unfolding reconcile_keys union_keys
  reconcile_with_blocked = reconcile_keys (union_keys base local remote)

unfoldable pub reconcile : Snapshot → Snapshot → Snapshot → List Action
unfolding reconcile_with_blocked
reconcile base local remote = reconcile_with_blocked base local remote []
