-- ===== src/Merge/Paths.antt =====
-- A merge without a conflict is the three-way rule at every path into the documents.
use mathlib.Core.Path.{subst}
use mathlib.Core.Option.{some-injective}
use sync_hub_for_agents.Base.{
  ℕ, zero, suc, ◌≡◌, refl, sym, ap, ◌∙◌, false, Option, none, some, List, [], ◌∷◌, Bool-cases, inl,
  inr,
}
use sync_hub_for_agents.Base.{◌==◌, option_eq, if◌then◌else◌, true_of_eq, eq_of_true}
use sync_hub_for_agents.Base.Text.{Text, text_eq}
use sync_hub_for_agents.Merge.Document.{
  Json, null, boolean, number, string, array, object, Members, no_members, json_eq, find,
  depth_members,
}
use sync_hub_for_agents.Merge.Structured.{
  Merge, merged, merge_node, merge_objects, as_map, base_map, merge_maps, merge_documents,
}
use sync_hub_for_agents.Merge.Keys.{find-merge_maps, and_then-merged, merged-injective}

-- What stands at a path of keys.
abbrev pub at_path : List Text → Option Json → Option Json
at_path [] v = v
at_path (k ∷ ks) (some (object m)) = at_path ks (find k m)
at_path (k ∷ ks) _ = none

-- The three-way rule for one value.
pub record ThreeWay (base local remote result : Option Json) : Type 0 where
  pub local_kept : local ≡ base → result ≡ remote
  pub remote_kept : remote ≡ base → result ≡ local
  pub agreed : local ≡ remote → result ≡ local

abbrev ThreeWayAt : Option Json → Option Json → Option Json → Option Json → Type 0
ThreeWayAt b l r v =
    (p : List Text) → ThreeWay (at_path p b) (at_path p l) (at_path p r) (at_path p v)

agree-ThreeWayAt : (b l r : Option Json) → l ≡ r → ThreeWayAt b l r l
agree-ThreeWayAt b l r e p = record {
  local_kept = λ _. ap (at_path p) e;
  remote_kept = λ _. refl;
  agreed = λ _. refl;
}

local_kept-ThreeWayAt : (b l r : Option Json) → b ≡ l → ThreeWayAt b l r r
local_kept-ThreeWayAt b l r e p = record {
  local_kept = λ _. refl;
  remote_kept = λ h. h ∙ ap (at_path p) e;
  agreed = sym;
}

remote_kept-ThreeWayAt : (b l r : Option Json) → b ≡ r → ThreeWayAt b l r l
remote_kept-ThreeWayAt b l r e p = record {
  local_kept = λ h. h ∙ ap (at_path p) e;
  remote_kept = λ _. refl;
  agreed = λ _. refl;
}

pub at_path-as_map :
    (v : Option Json) (m : Members) (k : Text) (ks : List Text)
    → as_map v ≡ some m
    → at_path (k ∷ ks) v ≡ at_path ks (find k m)
at_path-as_map (some (object n)) m k ks h =
    ap (λ (x : Members). at_path ks (find k x)) (some-injective n m h)
at_path-as_map none m k ks h = cc
at_path-as_map (some null) m k ks h = cc
at_path-as_map (some (boolean _)) m k ks h = cc
at_path-as_map (some (number _)) m k ks h = cc
at_path-as_map (some (string _)) m k ks h = cc
at_path-as_map (some (array _)) m k ks h = cc

at_path-none : (ks : List Text) → at_path ks none ≡ none
at_path-none [] = refl
at_path-none (k ∷ ks) = refl

pub at_path-base_map :
    (v : Option Json) (m : Members) (k : Text) (ks : List Text)
    → base_map v ≡ some m
    → at_path (k ∷ ks) v ≡ at_path ks (find k m)
unfolding find
at_path-base_map none m k ks h =
    sym (at_path-none ks)
    ∙ ap (λ (x : Members). at_path ks (find k x)) (some-injective no_members m h)
at_path-base_map (some v) m k ks h = at_path-as_map (some v) m k ks h

module _ (within : Members → Members → Members → Merge Members)
    (ih : (b l r m : Members)
      → within b l r ≡ merged m
      → (k : Text) → ThreeWayAt (find k b) (find k l) (find k r) (find k m)) where
  merge_objects-ThreeWay :
      (bm lm rm : Option Members) (b l r v : Option Json) (k : Text) (ks : List Text)
      → base_map b ≡ bm
      → as_map l ≡ lm
      → as_map r ≡ rm
      → merge_objects within bm lm rm ≡ merged v
      → ThreeWay (at_path (k ∷ ks) b) (at_path (k ∷ ks) l) (at_path (k ∷ ks) r) (at_path (k ∷ ks) v)
  merge_objects-ThreeWay (some bm) (some lm) (some rm) b l r v k ks eb el er h =
      let (m, (hm, e)) = and_then-merged (within bm lm rm) _ v h in
      rw
        (
          at_path-base_map b bm k ks eb,
          at_path-as_map l lm k ks el,
          at_path-as_map r rm k ks er,
          sym (merged-injective _ _ e),
        )
        (ih bm lm rm m hm k ks)
  merge_objects-ThreeWay none lm rm b l r v k ks eb el er h = absurd cc
  merge_objects-ThreeWay (some bm) none rm b l r v k ks eb el er h = absurd cc
  merge_objects-ThreeWay (some bm) (some lm) none b l r v k ks eb el er h = absurd cc

  merge_objects-ThreeWayAt :
      (b l r v : Option Json)
      → (l == r) ≡ false
      → (b == l) ≡ false
      → (b == r) ≡ false
      → merge_objects within (base_map b) (as_map l) (as_map r) ≡ merged v
      → ThreeWayAt b l r v
  merge_objects-ThreeWayAt b l r v lr bl br h [] = record {
    local_kept = λ e. cc (true_of_eq b l (sym e), bl);
    remote_kept = λ e. cc (true_of_eq b r (sym e), br);
    agreed = λ e. cc (true_of_eq l r e, lr);
  }
  merge_objects-ThreeWayAt b l r v lr bl br h (k ∷ ks) =
      merge_objects-ThreeWay (base_map b) (as_map l) (as_map r) b l r v k ks refl refl refl h

  merge_node-ThreeWayAt :
      (b l r v : Option Json) → merge_node within b l r ≡ merged v → ThreeWayAt b l r v
  unfolding merge_node
  merge_node-ThreeWayAt b l r v h = elim (Bool-cases (l == r)) [
    | inl q ↦
        subst (ThreeWayAt b l r) (merged-injective _ _ (rw q at h))
          (agree-ThreeWayAt b l r (eq_of_true l r q))
    | inr lr ↦ elim (Bool-cases (b == l)) [
      | inl q ↦
          subst (ThreeWayAt b l r) (merged-injective _ _ (rw (lr, q) at h))
            (local_kept-ThreeWayAt b l r (eq_of_true b l q))
      | inr bl ↦ elim (Bool-cases (b == r)) [
        | inl q ↦
            subst (ThreeWayAt b l r) (merged-injective _ _ (rw (lr, bl, q) at h))
              (remote_kept-ThreeWayAt b l r (eq_of_true b r q))
        | inr br ↦ merge_objects-ThreeWayAt b l r v lr bl br (rw (lr, bl, br) at h)
      ]
    ]
  ]

merge_maps-ThreeWayAt :
    (n : ℕ) (b l r m : Members)
    → merge_maps n b l r ≡ merged m
    → (k : Text) → ThreeWayAt (find k b) (find k l) (find k r) (find k m)
unfolding merge_maps
merge_maps-ThreeWayAt zero b l r m h k = absurd cc
merge_maps-ThreeWayAt (suc n) b l r m h k =
    merge_node-ThreeWayAt (merge_maps n) (merge_maps-ThreeWayAt n) (find k b) (find k l) (find k r)
      (find k m) (find-merge_maps n b l r m k h)

-- The value that one place has after a merge, where the place itself decides it.
abbrev pub three_way : Option Json → Option Json → Option Json → Option (Option Json)
three_way base local remote =
    if local == base
    then some remote
    else if remote == base
    then some local
    else if local == remote
    then some local
    else none

three_way-ThreeWay : (b l r v x : Option Json) → three_way b l r ≡ some x → ThreeWay b l r v → v ≡ x
three_way-ThreeWay b l r v x h t = elim (Bool-cases (l == b)) [
  | inl q ↦ t.local_kept (eq_of_true l b q) ∙ some-injective r x (rw q at h)
  | inr lb ↦ elim (Bool-cases (r == b)) [
    | inl q ↦ t.remote_kept (eq_of_true r b q) ∙ some-injective l x (rw (lb, q) at h)
    | inr rb ↦ elim (Bool-cases (l == r)) [
      | inl q ↦ t.agreed (eq_of_true l r q) ∙ some-injective l x (rw (lb, rb, q) at h)
      | inr lr ↦ absurd (cc (rw (lb, rb, lr) at h))
    ]
  ]
]

-- When the merge of three documents has no conflict, then at each path into them, however deep: what
-- only the remote side changed is the remote value, what only the local side changed is the local
-- value, and what both sides hold alike is that value; an absent value counts as a value.
pub merge_documents-three_way :
    (b l r m : Members) (k : Text) (ks : List Text) (x : Option Json)
    → merge_documents b l r ≡ merged m
    → three_way
        (at_path (k ∷ ks) (some (object b)))
        (at_path (k ∷ ks) (some (object l)))
        (at_path (k ∷ ks) (some (object r)))
      ≡ some x
    → at_path (k ∷ ks) (some (object m)) ≡ x
unfolding merge_documents
merge_documents-three_way b l r m k ks x h t =
    three_way-ThreeWay _ _ _ _ x t (merge_maps-ThreeWayAt (suc (depth_members l)) b l r m h k ks)
