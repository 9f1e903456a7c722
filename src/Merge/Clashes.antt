-- ===== src/Merge/Clashes.antt =====
-- A conflict of the merge is a place at which all three documents differ.
use sync_hub_for_agents.Base.{
  ℕ, zero, suc, ◌≡◌, ◌≢◌, refl, Bool, true, false, ◌⊎◌, Option, none, some, List, [], ◌∷◌,
  Bool-cases, inl, inr,
}
use sync_hub_for_agents.Base.{Eq, ◌==◌, option_eq, true_of_eq}
use sync_hub_for_agents.Base.Text.{Text, text_eq}
use sync_hub_for_agents.Merge.Document.{Json, Members, json_eq, find, depth_members}
use sync_hub_for_agents.Merge.Structured.{
  Merge, merged, conflict, out_of_fuel, and_then, merge_node, merge_keys, merge_objects, as_map,
  base_map, merge_maps, all_keys, merge_documents,
}
use sync_hub_for_agents.Merge.Paths.{at_path, at_path-as_map, at_path-base_map}

-- Whether two values are objects, and the base is one or absent.
abbrev pub are_objects : Option Members → Option Members → Option Members → Bool
are_objects (some _) (some _) (some _) = true
are_objects _ _ _ = false

-- No two of the values agree, and they are not all objects.
pub record Differ (base local remote : Option Json) : Type 0 where
  pub sides : local ≢ remote
  pub by_local : base ≢ local
  pub by_remote : base ≢ remote
  pub closed : are_objects (base_map base) (as_map local) (as_map remote) ≡ false

abbrev pub Clash : Option Json → Option Json → Option Json → Type 0
Clash b l r = (p : List Text) × Differ (at_path p b) (at_path p l) (at_path p r)

and_then-conflict :
    {A B : Type 0} (a : Merge A) (k : A → Merge B)
    → and_then a k ≡ conflict
    → (a ≡ conflict) ⊎ ((x : A) × (k x ≡ conflict))
and_then-conflict (merged x) k h = inr (x, h)
and_then-conflict conflict k h = inl refl
and_then-conflict out_of_fuel k h = absurd cc

never_both : {A : Type 0} (x : A) → ¬ (◌≡◌ {A = Merge A} (merged x) conflict)
never_both x h = cc

≢_of_false : {A : Type 0} ⦃e : Eq A⦄ (x y : A) → (x == y) ≡ false → x ≢ y
≢_of_false x y h q = cc (true_of_eq x y q, h)

module _ (within : Members → Members → Members → Merge Members)
    (ih : (b l r : Members)
      → within b l r ≡ conflict
      → (k : Text) × Clash (find k b) (find k l) (find k r)) where
  merge_objects-Clash :
      (bm lm rm : Option Members) (b l r : Option Json)
      → base_map b ≡ bm
      → as_map l ≡ lm
      → as_map r ≡ rm
      → l ≢ r
      → b ≢ l
      → b ≢ r
      → merge_objects within bm lm rm ≡ conflict
      → Clash b l r
  merge_objects-Clash (some bm) (some lm) (some rm) b l r eb el er lr bl br h =
      elim (and_then-conflict (within bm lm rm) _ h) [
        | inl c ↦
            let (k, (p, d)) = ih bm lm rm c in
            (
              k ∷ p,
              rw
                  (
                    at_path-base_map b bm k p eb,
                    at_path-as_map l lm k p el,
                    at_path-as_map r rm k p er,
                  )
                  d,
            )
        | inr (x, e) ↦ absurd (never_both _ e)
      ]
  merge_objects-Clash none lm rm b l r eb el er lr bl br h =
      ([], record { sides = lr; by_local = bl; by_remote = br; closed = rw eb refl })
  merge_objects-Clash (some bm) none rm b l r eb el er lr bl br h =
      ([], record { sides = lr; by_local = bl; by_remote = br; closed = rw (eb, el) refl })
  merge_objects-Clash (some bm) (some lm) none b l r eb el er lr bl br h =
      ([], record { sides = lr; by_local = bl; by_remote = br; closed = rw (eb, el, er) refl })

  merge_node-Clash : (b l r : Option Json) → merge_node within b l r ≡ conflict → Clash b l r
  unfolding merge_node
  merge_node-Clash b l r h = elim (Bool-cases (l == r)) [
    | inl q ↦ absurd (never_both l (rw q at h))
    | inr lr ↦ elim (Bool-cases (b == l)) [
      | inl q ↦ absurd (never_both r (rw (lr, q) at h))
      | inr bl ↦ elim (Bool-cases (b == r)) [
        | inl q ↦ absurd (never_both l (rw (lr, bl, q) at h))
        | inr br ↦
            merge_objects-Clash (base_map b) (as_map l) (as_map r) b l r refl refl refl
              (≢_of_false l r lr) (≢_of_false b l bl) (≢_of_false b r br) (rw (lr, bl, br) at h)
      ]
    ]
  ]

  merge_keys-Clash :
      (ks : List Text) (b l r : Members)
      → merge_keys within ks b l r ≡ conflict
      → (k : Text) × Clash (find k b) (find k l) (find k r)
  unfolding merge_keys
  merge_keys-Clash [] b l r h = absurd (never_both _ h)
  merge_keys-Clash (k ∷ ks) b l r h =
      elim (and_then-conflict (merge_node within (find k b) (find k l) (find k r)) _ h) [
        | inl c ↦ (k, merge_node-Clash (find k b) (find k l) (find k r) c)
        | inr (v, e) ↦ elim (and_then-conflict (merge_keys within ks b l r) _ e) [
          | inl c ↦ merge_keys-Clash ks b l r c
          | inr (m, e') ↦ absurd (never_both _ e')
        ]
      ]

merge_maps-Clash :
    (n : ℕ) (b l r : Members)
    → merge_maps n b l r ≡ conflict
    → (k : Text) × Clash (find k b) (find k l) (find k r)
unfolding merge_maps
merge_maps-Clash zero b l r h = absurd cc
merge_maps-Clash (suc n) b l r h =
    merge_keys-Clash (merge_maps n) (merge_maps-Clash n) (all_keys b l r) b l r h

-- A conflict is never reported without cause: there is a path into the documents at which all three
-- values differ from each other and which cannot be merged further down.
pub merge_documents-Clash :
    (b l r : Members)
    → merge_documents b l r ≡ conflict
    → (k : Text) × Clash (find k b) (find k l) (find k r)
unfolding merge_documents
merge_documents-Clash b l r h = merge_maps-Clash (suc (depth_members l)) b l r h
