-- ===== src/Sync/Reconcile/Decision.antt =====
-- What a pass decides for each path, against the three-way rule.
use sync_hub_for_agents.Base.{
  ◌≡◌, refl, sym, ◌∙◌, Bool, true, false, ◌||◌, Option, none, some, List, [], ◌∷◌, ◌++◌, arith, ap,
  append-nil,
}
use sync_hub_for_agents.Base.{◌==◌, contains, if◌then◌else◌, option_eq}
use sync_hub_for_agents.Base.Text.{Text, text_eq}
use sync_hub_for_agents.Base.Sort.{DistinctKeys, Ascending-DistinctKeys}
use sync_hub_for_agents.Base.Dict.{lookup, is_some}
use sync_hub_for_agents.State.{FileMeta, Snapshot}
use sync_hub_for_agents.Sync.Reconcile.{
  ActionType, Action, push_to_remote, pull_to_local, delete_remote, delete_local, remove_remote,
  merge_both, reconcile_path, reconcile_keys, reconcile_with_blocked, emit, union_keys,
}
use sync_hub_for_agents.Sync.Reconcile.Keys.{union_keys-Ascending, contains-union_keys}

-- The content of a side, if the side has the path.
abbrev pub content : Option FileMeta → Option Text
content none = none
content (some m) = some m.hash

-- The rule: sides that agree need nothing; one that kept the base takes what the other has; else
-- the two are merged.
abbrev pub three_way : Option Text → Option Text → Option Text → List ActionType
three_way base local remote =
    if local == remote
    then []
    else if remote == base
    then (if is_some local then push_to_remote else delete_remote) ∷ []
    else if local == base
    then (if is_some remote then pull_to_local else delete_local) ∷ []
    else merge_both ∷ []

-- A blocked path only loses its remote copy.
abbrev pub decided : Bool → Option FileMeta → Option FileMeta → Option FileMeta → List ActionType
decided blocked base local remote =
    if blocked
    then (if is_some remote then remove_remote ∷ [] else [])
    else three_way (content base) (content local) (content remote)

-- The actions of a list that are for `p`.
abbrev pub on_path : Text → List Action → List ActionType
on_path p [] = []
on_path p (a ∷ actions) =
    let rest = on_path p actions in if p == a.repo_rel then a.type ∷ rest else rest

reconcile_path-decided :
    (blocked : Bool) (p q : Text) (b l r : Option FileMeta) (rest : List Action)
    → on_path q (emit (reconcile_path blocked p b l r) rest)
      ≡ (if q == p then decided blocked b l r ++ on_path q rest else on_path q rest)
unfolding reconcile_path option_eq
reconcile_path-decided true p q b l none rest = ground arith
reconcile_path-decided true p q b l (some r) rest = ground arith
reconcile_path-decided false p q none none none rest = ground arith
reconcile_path-decided false p q none none (some r) rest = ground arith
reconcile_path-decided false p q none (some l) none rest = ground arith
reconcile_path-decided false p q none (some l) (some r) rest = ground arith
reconcile_path-decided false p q (some b) none none rest = ground arith
reconcile_path-decided false p q (some b) none (some r) rest = ground arith
reconcile_path-decided false p q (some b) (some l) none rest = ground arith
reconcile_path-decided false p q (some b) (some l) (some r) rest = ground arith

at_head :
    (F : Text → List ActionType) (q k : Text) (ks : List Text)
    → contains ks k ≡ false
    → (if q == k
        then F k ++ (if contains ks q then F q else [])
        else (if contains ks q then F q else []))
      ≡ (if contains (k ∷ ks) q then F q else [])
at_head F q k ks fresh = ground (arith, append-nil (F k))

decided_absent : (blocked : Bool) → decided blocked none none none ≡ []
unfolding option_eq
decided_absent true = refl
decided_absent false = refl

decided_on_keys :
    (b l r : Option FileMeta) (blocked : Bool)
    → (if is_some r || (is_some l || is_some b) then decided blocked b l r else [])
      ≡ decided blocked b l r
decided_on_keys none none none blocked = sym (decided_absent blocked)
decided_on_keys b l (some r) blocked = refl
decided_on_keys b (some l) none blocked = refl
decided_on_keys (some b) none none blocked = refl

module _ (base local remote : Snapshot) (blocked : List Text) where
  pub decided_at : Text → List ActionType
  decided_at p = decided (contains blocked p) (lookup p base) (lookup p local) (lookup p remote)

  on_path-reconcile_keys :
      (q : Text) (ks : List Text)
      → DistinctKeys ks
      → on_path q (reconcile_keys base local remote blocked ks)
        ≡ (if contains ks q then decided_at q else [])
  unfolding reconcile_keys decided_at
  on_path-reconcile_keys q [] d = refl
  on_path-reconcile_keys q (k ∷ ks) d =
      reconcile_path-decided (contains blocked k) k q (lookup k base) (lookup k local)
        (lookup k remote) (reconcile_keys base local remote blocked ks)
      ∙ rw (on_path-reconcile_keys q ks d.1) (at_head decided_at q k ks d.0)

  -- The actions for a path are those that the three-way rule decides for its contents, at most
  -- one, and a blocked path is only removed from the remote side, if it is there.
  pub on_path-reconcile_with_blocked :
      (p : Text)
      → on_path p (reconcile_with_blocked base local remote blocked)
        ≡ decided (contains blocked p) (lookup p base) (lookup p local) (lookup p remote)
  unfolding reconcile_with_blocked decided_at
  on_path-reconcile_with_blocked p =
      on_path-reconcile_keys p (union_keys base local remote)
        (Ascending-DistinctKeys _ (union_keys-Ascending base local remote))
      ∙ ap (λ b. if b then decided_at p else []) (contains-union_keys p base local remote)
      ∙ decided_on_keys (lookup p base) (lookup p local) (lookup p remote) (contains blocked p)
