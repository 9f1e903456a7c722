-- ===== src/Sync/Planning/Ownership.antt =====
-- Which part of `SplitRemoteSnapshot` a path is in, by its own name and the specs.
use sync_hub_for_agents.Base.{
  ◌≡◌, refl, sym, ◌∙◌, Bool, true, false, ◌⊎◌, inl, inr, some, ◌∷◌, ◌++◌, arith, Bool-cases,
  Option-cases,
}
use sync_hub_for_agents.Base.{◌==◌, if◌then◌else◌, true_of_eq, eq_of_true}
use sync_hub_for_agents.Base.Text.{Text, text_eq, codes, has_prefix}
use sync_hub_for_agents.Base.Dict.{Dict, lookup}
use sync_hub_for_agents.Base.Strings.{slash}
use sync_hub_for_agents.Base.Result.{Result, ok, err}
use sync_hub_for_agents.State.{Snapshot}
use sync_hub_for_agents.Resource.Model.{layout_portable}
use sync_hub_for_agents.Resource.Spec.{Spec, owns}
use sync_hub_for_agents.Resource.Namespace.{RepoRef, PathError, parse_repo_path}
use sync_hub_for_agents.Sync.Planning.{
  Side, owned_side, untouched_side, blocked_side, is_internal_portable_path, spec_for_ref,
  ref_matches_spec, side_of, split_remote_snapshot,
}
use sync_hub_for_agents.Sync.Planning.Split.{IsSplit, split_remote_snapshot-IsSplit}

-- A path that cannot be read as the path of a resource, though it lies where those are.
pub record IsBroken (p : Text) (e : PathError) : Type 0 where
  pub is_outside : is_internal_portable_path p ≡ false
  pub is_unreadable : parse_repo_path p ≡ err e
  pub is_portable : has_prefix p (codes "agents/_portable/") ≡ true

module _ (to_lower : Text → Text) (specs : Dict Text Spec) where
  -- The path names a resource whose spec is known, has its category and its layout, and owns the
  -- rest of the path.
  pub record IsNamed (p : Text) (ref : RepoRef) (spec : Spec) : Type 0 where
    pub is_parsed : parse_repo_path p ≡ ok ref
    pub is_known :
        lookup
          ((if ref.common then codes "common" else ref.provider) ++ (slash ∷ ref.resource_id))
          specs
        ≡ some spec
    pub is_owned : owns to_lower spec ref.relative ≡ true
    pub same_category : ref.category ≡ spec.category
    pub same_layout : ref.portable ≡ (spec.layout == layout_portable)

  -- The metadata of the program, and the files of the known resources
  abbrev pub IsOurs : Text → Type 0
  IsOurs p =
      (is_internal_portable_path p ≡ true)
      ⊎ ((ref : RepoRef) × ((spec : Spec) × IsNamed p ref spec))

  -- The side of a path, by its name
  pub data IsSide (p : Text) : Side → Type 0 where
    ours : IsOurs p → IsSide p owned_side
    broken : (e : PathError) → IsBroken p e → IsSide p (blocked_side e)
    neither : ¬ IsOurs p → ((e : PathError) → ¬ IsBroken p e) → IsSide p untouched_side

module _ (to_lower : Text → Text) (is_abs : Text → Bool) (file_to_slash : Text → Text)
    (message_of : PathError → Text) (specs : Dict Text Spec) where
  ref_matches_spec-IsNamed :
      (p : Text) (ref : RepoRef) (spec : Spec)
      → parse_repo_path p ≡ ok ref
      → spec_for_ref specs ref ≡ some spec
      → ref_matches_spec to_lower is_abs file_to_slash message_of specs ref spec ≡ true
      → IsNamed to_lower specs p ref spec
  unfolding spec_for_ref ref_matches_spec
  ref_matches_spec-IsNamed p ref spec e k m = record {
    is_parsed = e;
    is_known = k;
    is_owned = ground arith;
    same_category = eq_of_true ref.category spec.category (ground arith);
    same_layout = elim (Bool-cases ref.portable) [ inl y ↦ ground arith | inr n ↦ ground arith ];
  }

  IsNamed-ref_matches_spec :
      (p : Text) (ref : RepoRef) (spec : Spec)
      → IsNamed to_lower specs p ref spec
      → ref_matches_spec to_lower is_abs file_to_slash message_of specs ref spec ≡ true
  unfolding ref_matches_spec
  IsNamed-ref_matches_spec p ref spec h = elim (Bool-cases ref.portable) [
    | inl y ↦
        rw (h.is_owned, true_of_eq ref.category spec.category h.same_category, y, sym h.same_layout)
          y
    | inr n ↦
        rw (h.is_owned, true_of_eq ref.category spec.category h.same_category, n, sym h.same_layout)
          (rw n refl)
  ]

  side_of-IsOurs :
      (p : Text)
      → IsOurs to_lower specs p
      → side_of to_lower is_abs file_to_slash message_of specs p ≡ owned_side
  unfolding side_of spec_for_ref
  side_of-IsOurs p (inl i) = rw i refl
  side_of-IsOurs p (inr (ref, (spec, h))) = elim (Bool-cases (is_internal_portable_path p)) [
    | inl i ↦ rw i refl
    | inr n ↦ rw (n, h.is_parsed, h.is_known, IsNamed-ref_matches_spec p ref spec h) refl
  ]

  side_of-IsSide :
      (p : Text)
      → IsSide to_lower specs p (side_of to_lower is_abs file_to_slash message_of specs p)
  unfolding side_of
  side_of-IsSide p = elim (Bool-cases (is_internal_portable_path p)) [
    | inl i ↦ rw i (ours (inl i))
    | inr n ↦ by_parse n (parse_repo_path p) refl
  ]
    where
      not_ours :
          (side_of to_lower is_abs file_to_slash message_of specs p ≡ untouched_side)
          → ¬ IsOurs to_lower specs p
      not_ours u o = cc (sym (side_of-IsOurs p o) ∙ u)

      by_parse :
          (is_internal_portable_path p ≡ false)
          → (r : Result PathError RepoRef) → parse_repo_path p ≡ r
          → IsSide to_lower specs p (side_of to_lower is_abs file_to_slash message_of specs p)
      by_parse n (err e) h = elim (Bool-cases (has_prefix p (codes "agents/_portable/"))) [
        | inl y ↦
            rw (n, h, y) (broken e (record { is_outside = n; is_unreadable = h; is_portable = y }))
        | inr y ↦
            rw (n, h, y)
              (neither (not_ours (rw (n, h, y) refl)) (λ e' b. cc (sym b.is_portable ∙ y)))
      ]
      by_parse n (ok ref) h = elim (Option-cases (spec_for_ref specs ref)) [
        | inl k ↦
            rw (n, h, k)
              (neither (not_ours (rw (n, h, k) refl)) (λ e' b. cc (sym b.is_unreadable ∙ h)))
        | inr (spec, k) ↦
            elim (Bool-cases
              (ref_matches_spec to_lower is_abs file_to_slash message_of specs ref spec)) [
                | inl y ↦
                    rw (n, h, k, y)
                      (ours (inr (ref, (spec, ref_matches_spec-IsNamed p ref spec h k y))))
                | inr y ↦
                    rw (n, h, k, y)
                      (neither (not_ours (rw (n, h, k, y) refl))
                        (λ e' b. cc (sym b.is_unreadable ∙ h)))
              ]
      ]

  -- A path of the remote snapshot is in exactly one part of its split, with its record: in the owned
  -- files if it is metadata of the program or names a known resource whose spec has its category and
  -- its layout and owns the rest of the path; in the issues if it cannot be read as the path of a
  -- resource though it starts with `agents/_portable/`; else in the untouched files. No part has
  -- another path.
  pub split_remote_snapshot-IsSide :
      (s : Snapshot) (p : Text)
      → (d : Side) × (IsSide to_lower specs p d
          × IsSplit d p s (split_remote_snapshot to_lower is_abs file_to_slash message_of specs s))
  split_remote_snapshot-IsSide s p = (
    side_of to_lower is_abs file_to_slash message_of specs p,
    (
      side_of-IsSide p,
      split_remote_snapshot-IsSplit to_lower is_abs file_to_slash message_of specs s p,
    ),
  )
