-- ===== src/Sync/Reconcile/Keys.antt =====
-- The keys that `ReconcileWithBlocked` walks: each path of the three snapshots, once, in order.
use sync_hub_for_agents.Base.{◌≡◌, refl, ◌∙◌, ◌||◌, List, [], ◌∷◌, arith}
use sync_hub_for_agents.Base.{contains}
use sync_hub_for_agents.Base.Text.{Text, text_eq}
use sync_hub_for_agents.Base.Sort.{
  DistinctKeys, add_key-DistinctKeys, contains-add_key, Ascending, sort_strings-Ascending,
  contains-sort_strings,
}
use sync_hub_for_agents.Base.Dict.{lookup, is_some}
use sync_hub_for_agents.State.{Snapshot}
use sync_hub_for_agents.Sync.Reconcile.{add_keys, union_keys}

add_keys-DistinctKeys :
    (s : Snapshot) (ks : List Text) → DistinctKeys ks → DistinctKeys (add_keys s ks)
unfolding add_keys
add_keys-DistinctKeys [] ks d = d
add_keys-DistinctKeys ((k, _) ∷ s) ks d = add_keys-DistinctKeys s _ (add_key-DistinctKeys k ks d)

contains-add_keys :
    (p : Text) (s : Snapshot) (ks : List Text)
    → contains (add_keys s ks) p ≡ (is_some (lookup p s) || contains ks p)
unfolding add_keys lookup
contains-add_keys p [] ks = refl
contains-add_keys p ((k, _) ∷ s) ks =
    contains-add_keys p s _ ∙ ground (arith, contains-add_key p k ks)

pub union_keys-Ascending : (base local remote : Snapshot) → Ascending (union_keys base local remote)
unfolding union_keys
union_keys-Ascending base local remote = sort_strings-Ascending _ (
    add_keys-DistinctKeys remote _
      (add_keys-DistinctKeys local _ (add_keys-DistinctKeys base [] tt)))

pub contains-union_keys :
    (p : Text) (base local remote : Snapshot)
    → contains (union_keys base local remote) p
      ≡ (is_some (lookup p remote) || (is_some (lookup p local) || is_some (lookup p base)))
unfolding union_keys
contains-union_keys p base local remote = ground (
  arith,
  contains-sort_strings p (add_keys remote (add_keys local (add_keys base []))),
  contains-add_keys p remote (add_keys local (add_keys base [])),
  contains-add_keys p local (add_keys base []),
  contains-add_keys p base [],
)
