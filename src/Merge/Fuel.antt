-- ===== src/Merge/Fuel.antt =====
-- The fuel of the merge: the depth of the local document is enough.
use mathlib.Core.Path.{subst}
use mathlib.Core.Option.{some-injective}
use sync_hub_for_agents.Base.{
  ℕ, zero, suc, ◌≤◌, ◌≡◌, refl, Bool, true, false, Option, none, some, List, [], ◌∷◌, arith,
  Bool-cases, inl, inr,
}
use sync_hub_for_agents.Base.{◌==◌, option_eq}
use sync_hub_for_agents.Base.Text.{Text, text_eq}
use sync_hub_for_agents.Merge.Document.{
  Json, null, boolean, number, string, array, object, Members, no_members, member, json_eq, find,
  depth, depth_members,
}
use sync_hub_for_agents.Merge.Structured.{
  Merge, merged, conflict, out_of_fuel, and_then, merge_node, merge_keys, merge_objects, as_map,
  base_map, merge_maps, merge_documents,
}

abbrev pub has_ended {ℓ} : {A : Type ℓ} → Merge A → Bool
has_ended out_of_fuel = false
has_ended _ = true

has_ended-and_then :
    {A B : Type 0} (a : Merge A) (k : A → Merge B)
    → has_ended a ≡ true
    → ((x : A) → has_ended (k x) ≡ true)
    → has_ended (and_then a k) ≡ true
has_ended-and_then (merged a) k h f = f a
has_ended-and_then conflict k h f = refl
has_ended-and_then out_of_fuel k h f = h

depth-as_map :
    (v : Json) (lm : Members) → as_map (some v) ≡ some lm → suc (depth_members lm) ≤ depth v
unfolding depth
depth-as_map (object m) lm h =
    subst (λ (x : Members). suc (depth_members x) ≤ suc (depth_members m)) (some-injective m lm h)
      (omega arith)
depth-as_map null lm h = cc
depth-as_map (boolean _) lm h = cc
depth-as_map (number _) lm h = cc
depth-as_map (string _) lm h = cc
depth-as_map (array _) lm h = cc

depth-find :
    (k : Text) (m lm : Members)
    → as_map (find k m) ≡ some lm
    → suc (depth_members lm) ≤ depth_members m
unfolding find depth
depth-find k no_members lm h = cc
depth-find k (member j v m) lm h = elim (Bool-cases (k == j)) [
  | inl q ↦ let deep = depth-as_map v lm (rw q at h) in omega (arith, deep)
  | inr q ↦ let deep = depth-find k m lm (rw q at h) in omega (arith, deep)
]

module _ (within : Members → Members → Members → Merge Members) (n : ℕ)
    (ih : (b l r : Members) → suc (depth_members l) ≤ n → has_ended (within b l r) ≡ true) where
  has_ended-merge_objects :
      (b l r : Option Members)
      → ((lm : Members) → l ≡ some lm → suc (depth_members lm) ≤ n)
      → has_ended (merge_objects within b l r) ≡ true
  has_ended-merge_objects (some b) (some l) (some r) h =
      has_ended-and_then (within b l r) _ (ih b l r (h l refl)) (λ _. refl)
  has_ended-merge_objects none l r h = refl
  has_ended-merge_objects (some b) none r h = refl
  has_ended-merge_objects (some b) (some l) none h = refl

  has_ended-merge_node :
      (b l r : Option Json)
      → ((lm : Members) → as_map l ≡ some lm → suc (depth_members lm) ≤ n)
      → has_ended (merge_node within b l r) ≡ true
  unfolding merge_node
  has_ended-merge_node b l r h =
      ground (arith, has_ended-merge_objects (base_map b) (as_map l) (as_map r) h)

  has_ended-merge_keys :
      (ks : List Text) (b l r : Members)
      → depth_members l ≤ n
      → has_ended (merge_keys within ks b l r) ≡ true
  unfolding merge_keys
  has_ended-merge_keys [] b l r h = refl
  has_ended-merge_keys (k ∷ ks) b l r h =
      has_ended-and_then (merge_node within (find k b) (find k l) (find k r)) _
        (has_ended-merge_node (find k b) (find k l) (find k r)
          (λ lm e. omega (arith, depth-find k l lm e, h)))
        (λ v.
          has_ended-and_then (merge_keys within ks b l r) _ (has_ended-merge_keys ks b l r h)
            (λ _. refl))

has_ended-merge_maps :
    (n : ℕ) (b l r : Members) → suc (depth_members l) ≤ n → has_ended (merge_maps n b l r) ≡ true
unfolding merge_maps
has_ended-merge_maps zero b l r h = absurd (omega arith)
has_ended-merge_maps (suc n) b l r h =
    has_ended-merge_keys (merge_maps n) n (has_ended-merge_maps n) _ b l r (omega arith)

-- The merge of documents ends, with a document or with a conflict.
pub merge_documents-has_ended : (b l r : Members) → has_ended (merge_documents b l r) ≡ true
unfolding merge_documents
merge_documents-has_ended b l r = has_ended-merge_maps (suc (depth_members l)) b l r (omega arith)
