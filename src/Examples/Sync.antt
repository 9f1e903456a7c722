-- ===== src/Examples/Sync.antt =====
-- Snapshots with a path for each case of the three-way rule.
use sync_hub_for_agents.Base.{
  ◌≡◌, ◌≢◌, ◌↔◌, refl, inr, false, none, some, List, [], ◌∷◌, pos, nat_eq, ℕ_discrete, option_eq,
  contains,
}
use sync_hub_for_agents.Base.Text.{Text, codes, text_eq, text_lt}
use sync_hub_for_agents.Base.Sort.{Ascending, add_key, sort_strings}
use sync_hub_for_agents.Base.Dict.{lookup}
use sync_hub_for_agents.State.{FileMeta, Snapshot}
use sync_hub_for_agents.Sync.Reconcile.{
  push_to_remote, pull_to_local, delete_remote, delete_local, remove_remote, merge_both,
  reconcile_path, reconcile_with_blocked,
}
use sync_hub_for_agents.Sync.Reconcile.Decision.{
  content, decided, on_path, on_path-reconcile_with_blocked,
}
use sync_hub_for_agents.Sync.Reconcile.Order.{paths, reconcile_with_blocked-Ascending}
use sync_hub_for_agents.Sync.Reconcile.Convergence.{
  carry_out_all, sides, reconcile_with_blocked-converges, reconcile_with_blocked-merges,
}
use sync_hub_for_agents.Sync.FirstSync.{use_cloud, use_local, apply_first_sync_strategy}
use sync_hub_for_agents.Sync.FirstSync.Direction.{
  apply_first_sync_strategy-use_cloud, apply_first_sync_strategy-use_local,
}

abbrev file : Text → FileMeta
file hash = record { hash = hash; mod_time = pos 0; size = pos 1 }

abbrev h1 : FileMeta
h1 = file (codes "1")

abbrev h2 : FileMeta
h2 = file (codes "2")

abbrev base : Snapshot
base = (codes "d", h1) ∷ (codes "a", h1) ∷ (codes "b", h1) ∷ (codes "c", h1) ∷ (codes "x", h1) ∷ []

abbrev local : Snapshot
local = (codes "a", h2) ∷ (codes "c", h1) ∷ (codes "x", h2) ∷ (codes "n", h2) ∷ (codes "d", h1) ∷ []

abbrev remote : Snapshot
remote =
    (codes "a", h1) ∷ (codes "b", h1) ∷ (codes "d", h2) ∷ (codes "n", h1) ∷ (codes "x", h1) ∷ []

abbrev blocked : List Text
blocked = codes "x" ∷ []

mixed_pass :
    reconcile_with_blocked base local remote blocked
    ≡ record { type = push_to_remote; repo_rel = codes "a" }
      ∷ record { type = delete_remote; repo_rel = codes "b" }
      ∷ record { type = delete_local; repo_rel = codes "c" }
      ∷ record { type = pull_to_local; repo_rel = codes "d" }
      ∷ record { type = merge_both; repo_rel = codes "n" }
      ∷ record { type = remove_remote; repo_rel = codes "x" }
      ∷ []
unfolding reconcile_with_blocked reconcile_path lookup text_eq nat_eq ℕ_discrete text_lt
    sort_strings add_key
mixed_pass = refl

on_path-reconcile_with_blocked_example :
    on_path (codes "n") (reconcile_with_blocked base local remote blocked)
    ≡ decided
        (contains blocked (codes "n"))
        (lookup (codes "n") base)
        (lookup (codes "n") local)
        (lookup (codes "n") remote)
on_path-reconcile_with_blocked_example =
    on_path-reconcile_with_blocked base local remote blocked (codes "n")

reconcile_with_blocked-Ascending_example :
    Ascending (paths (reconcile_with_blocked base local remote blocked))
reconcile_with_blocked-Ascending_example =
    reconcile_with_blocked-Ascending base local remote blocked

reconcile_with_blocked-converges_example :
    carry_out_all
      (on_path (codes "a") (reconcile_with_blocked base local remote blocked))
      (sides (some h2) (some h1))
    ≡ record { local = some (codes "2"); remote = some (codes "2") }
unfolding lookup text_eq nat_eq ℕ_discrete option_eq
reconcile_with_blocked-converges_example =
    reconcile_with_blocked-converges base local remote blocked (codes "a") refl (inr (inr refl))

reconcile_with_blocked-merges_example :
    (on_path (codes "n") (reconcile_with_blocked base local remote blocked) ≡ merge_both ∷ [])
    ↔ (contains blocked (codes "n") ≡ false)
      × (content (lookup (codes "n") local) ≢ content (lookup (codes "n") remote))
      × (content (lookup (codes "n") local) ≢ content (lookup (codes "n") base))
      × (content (lookup (codes "n") remote) ≢ content (lookup (codes "n") base))
reconcile_with_blocked-merges_example =
    reconcile_with_blocked-merges base local remote blocked (codes "n")

apply_first_sync_strategy-use_cloud_example :
    carry_out_all
      (on_path (codes "n") (
        apply_first_sync_strategy
          (reconcile_with_blocked [] local remote blocked)
          local
          remote
          use_cloud))
      (sides (some h2) (some h1))
    ≡ record { local = some (codes "1"); remote = some (codes "1") }
unfolding lookup text_eq nat_eq ℕ_discrete
apply_first_sync_strategy-use_cloud_example =
    apply_first_sync_strategy-use_cloud local remote blocked (codes "n") refl

apply_first_sync_strategy-use_local_example :
    carry_out_all
      (on_path (codes "b") (
        apply_first_sync_strategy
          (reconcile_with_blocked [] local remote blocked)
          local
          remote
          use_local))
      (sides none (some h1))
    ≡ record { local = none; remote = none }
unfolding lookup text_eq nat_eq ℕ_discrete
apply_first_sync_strategy-use_local_example =
    apply_first_sync_strategy-use_local local remote blocked (codes "b") refl
