-- ===== src/Merge/Keys.antt =====
-- What `mergeMaps` makes of one key: the merge of the three values there.
use mathlib.Core.Path.{subst}
use sync_hub_for_agents.Base.{
  ℕ, suc, ◌≡◌, refl, sym, ap, ◌∙◌, true, false, ◌||◌, ◌&&◌, Option, none, some, List, [], ◌∷◌,
  arith, Bool-cases, ◌⊎◌, inl, inr,
}
use sync_hub_for_agents.Base.{
  ◌==◌, nat_eq, option_eq, contains, if◌then◌else◌, true_of_eq, eq_of_true,
}
use sync_hub_for_agents.Base.Text.{Text, text_eq}
use sync_hub_for_agents.Base.Dict.{is_some}
use sync_hub_for_agents.Base.Sort.{contains-add_key, contains-sort_strings}
use sync_hub_for_agents.Merge.Document.{Json, Members, no_members, member, json_eq, find, keys_of}
use sync_hub_for_agents.Merge.Structured.{
  Merge, merged, conflict, out_of_fuel, put, and_then, merge_node, merge_keys, all_keys, merge_maps,
}

contains-keys_of :
    (k : Text) (m : Members) (ks : List Text)
    → contains (keys_of m ks) k ≡ (is_some (find k m) || contains ks k)
unfolding keys_of find
contains-keys_of k no_members ks = refl
contains-keys_of k (member j v m) ks =
    contains-keys_of k m _ ∙ ground (arith, contains-add_key k j ks)

contains-all_keys :
    (k : Text) (b l r : Members)
    → contains (all_keys b l r) k
      ≡ (is_some (find k r) || (is_some (find k l) || is_some (find k b)))
unfolding all_keys
contains-all_keys k b l r = ground (
  arith,
  contains-sort_strings k (keys_of r (keys_of l (keys_of b []))),
  contains-keys_of k r (keys_of l (keys_of b [])),
  contains-keys_of k l (keys_of b []),
  contains-keys_of k b [],
)

find-put :
    (j k : Text) (v : Option Json) (m : Members)
    → find j (put k v m) ≡ (if j == k && is_some v then v else find j m)
unfolding find
find-put j k none m = ground arith
find-put j k (some v) m = ground arith

find-put_same :
    (k : Text) (v : Option Json) (m : Members)
    → (find k m ≡ none) ⊎ (find k m ≡ v)
    → find k (put k v m) ≡ v
find-put_same k none m (inl e) = e
find-put_same k none m (inr e) = e
find-put_same k (some v) m e = find-put k k (some v) m ∙ ground (arith, true_of_eq k k refl)

pub merged-injective : {A : Type 0} (x y : A) → ◌≡◌ {A = Merge A} (merged x) (merged y) → x ≡ y
merged-injective x y h = cc

pub and_then-merged :
    {A B : Type 0} (a : Merge A) (k : A → Merge B) (c : B)
    → and_then a k ≡ merged c
    → (x : A) × ((a ≡ merged x) × (k x ≡ merged c))
and_then-merged (merged x) k c h = (x, (refl, h))
and_then-merged conflict k c h = absurd (cc)
and_then-merged out_of_fuel k c h = absurd (cc)

module _ (within : Members → Members → Members → Merge Members) (b l r : Members) where
  abbrev at_key : Text → Merge (Option Json)
  at_key k = merge_node within (find k b) (find k l) (find k r)

  merge_keys_step :
      (j : Text) (ks : List Text) (m : Members)
      → merge_keys within (j ∷ ks) b l r ≡ merged m
      → (v : Option Json) × ((at_key j ≡ merged v)
          × ((n : Members) × ((merge_keys within ks b l r ≡ merged n) × (put j v n ≡ m))))
  unfolding merge_keys
  merge_keys_step j ks m h =
      let (v, (hv, rest)) = and_then-merged (at_key j) _ m h in
      let (n, (hn, e)) = and_then-merged (merge_keys within ks b l r) _ m rest in
      (v, (hv, (n, (hn, merged-injective _ _ e))))

  find-merge_keys_other :
      (k : Text) (ks : List Text) (m : Members)
      → contains ks k ≡ false
      → merge_keys within ks b l r ≡ merged m
      → find k m ≡ none
  unfolding merge_keys find
  find-merge_keys_other k [] m c h = ap (find k) (sym (merged-injective no_members m h))
  find-merge_keys_other k (j ∷ ks) m c h =
      let (v, (_, (n, (hn, e)))) = merge_keys_step j ks m h in
      ap (find k) (sym e)
      ∙ ground (arith, find-put k j v n, find-merge_keys_other k ks n (ground arith) hn)

  find-merge_keys :
      (k : Text) (ks : List Text) (m : Members)
      → contains ks k ≡ true
      → merge_keys within ks b l r ≡ merged m
      → at_key k ≡ merged (find k m)
  find-merge_keys k [] m c h = absurd (cc)
  find-merge_keys k (j ∷ ks) m c h =
      let (v, (hv, (n, (hn, e)))) = merge_keys_step j ks m h in
      elim (Bool-cases (k == j)) [
        | inl same ↦
            let here : at_key k ≡ merged v =
              subst (λ (i : Text). at_key i ≡ merged v) (sym (eq_of_true k j same)) hv in
            here
            ∙ ap merged (
                sym (
                  ap (find k) (sym e)
                  ∙ subst (λ (i : Text). find k (put i v n) ≡ v) (eq_of_true k j same)
                      (find-put_same k v n (elim (Bool-cases (contains ks k)) [
                        | inl again ↦ inr (
                            merged-injective (find k n) v
                              (sym (find-merge_keys k ks n again hn) ∙ here))
                        | inr once ↦ inl (find-merge_keys_other k ks n once hn)
                      ]))))
        | inr other ↦
            find-merge_keys k ks n (rw other at c) hn
            ∙ ap merged (sym (ap (find k) (sym e) ∙ find-put k j v n ∙ rw other refl))
      ]

pub merge_node_agree :
    (within : Members → Members → Members → Merge Members) (b l r : Option Json)
    → l ≡ r
    → merge_node within b l r ≡ merged l
unfolding merge_node
merge_node_agree within b l r e = rw (true_of_eq l r e) refl

none_of : (v : Option Json) → is_some v ≡ false → v ≡ none
none_of none h = refl
none_of (some _) h = cc

-- Each key of the result, in any document: the three values there are merged, and none is left
-- where there was none.
pub find-merge_maps :
    (n : ℕ) (b l r m : Members) (k : Text)
    → merge_maps (suc n) b l r ≡ merged m
    → merge_node (merge_maps n) (find k b) (find k l) (find k r) ≡ merged (find k m)
unfolding merge_maps
find-merge_maps n b l r m k h = elim (Bool-cases (contains (all_keys b l r) k)) [
  | inl listed ↦ find-merge_keys (merge_maps n) b l r k (all_keys b l r) m listed h
  | inr absent ↦
      let in_local : find k l ≡ none =
        none_of (find k l) (ground (arith, contains-all_keys k b l r, absent)) in
      let in_remote : find k r ≡ none =
        none_of (find k r) (ground (arith, contains-all_keys k b l r, absent)) in
      merge_node_agree (merge_maps n) (find k b) (find k l) (find k r) (in_local ∙ sym in_remote)
      ∙ ap merged (
          in_local ∙ sym (find-merge_keys_other (merge_maps n) b l r k (all_keys b l r) m absent h))
]
