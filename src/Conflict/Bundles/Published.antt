-- ===== src/Conflict/Bundles/Published.antt =====
-- `Create` publishes a bundle on both sides or on none, and `ResolveVariant` drops a conflict only
-- after its content is in the canonical file.
use mathlib.Core.Path.{subst}
use mathlib.Core.Option.{some-injective}
use sync_hub_for_agents.Base.{
  ℕ, ◌≡◌, refl, sym, ap, ◌∙◌, Bool, true, false, not, ◌&&◌, ◌||◌, ◌⊎◌, Option, none, some, List,
  Bool-cases, inl, inr,
}
use sync_hub_for_agents.Base.{◌==◌, if◌then◌else◌, true_of_eq, eq_of_true}
use sync_hub_for_agents.Base.Dict.{is_some}
use sync_hub_for_agents.Base.Text.{Text, text_eq, codes}
use sync_hub_for_agents.Base.Result.{Result, ok, err}
use sync_hub_for_agents.Conflict.Model.{
  Record, Bundle, Disk, Cause, invalid_record, scan_rejected, already_exists, update,
  is_valid_record, choice_local, choice_remote,
}
use sync_hub_for_agents.Conflict.Effect.{Outcome, World, ◌>>=◌, read}
use sync_hub_for_agents.Conflict.Effect.Rules.{After, After-handle, After-weaken}
use sync_hub_for_agents.Conflict.Effect.Steps.{After-guard_known, After-guard}
use sync_hub_for_agents.Conflict.Effect.Failing.{
  NoFailure, OneFailure, one_failure, no_more, any_failures, After-end_write, After-tried_write,
  After-tried_attempt, After-tried_read,
}
use sync_hub_for_agents.Conflict.Transaction.{accepted, read_record, read_variant, variant_of}
use sync_hub_for_agents.Conflict.Transaction.Apply.{read_record-bundle, read_variant-content}
use sync_hub_for_agents.Conflict.Bundles.{
  publish, publish_local, publish_repo, all_accepted, stamped, create, remove_bundle, resolve,
  resolve_variant,
}

-- The bundle was acceptable and new, and is now on both sides.
pub record IsPublished (b : Bundle) (acceptable : Bool) (before after : Disk) : Type 0 where
  pub valid : is_valid_record b.record_file ≡ true
  pub scanned : acceptable ≡ true
  pub free_local : before.local_bundles b.record_file.id ≡ none
  pub free_repo : before.repo_bundles b.record_file.id ≡ none
  pub both : after ≡ publish_repo b (publish_local b before)

-- Nothing has changed, or only the local side has the bundle.
abbrev pub IsPartly : Bundle → Disk → Disk → Type 0
IsPartly b before after = (after ≡ before) ⊎ (after ≡ publish_local b before)

-- Nothing has changed but the list of directory names, which may have one that is no longer there.
pub record IsUnchanged (before after : Disk) : Type 0 where
  pub rest_same : after ≡ record before { ids = after.ids; local_bundles = after.local_bundles }
  pub local_same : (id : Text) → after.local_bundles id ≡ before.local_bundles id

unchanged : (d : Disk) → IsUnchanged d d
unchanged d = record { rest_same = refl; local_same = λ id. refl }

same-IsUnchanged : (before after : Disk) → after ≡ before → IsUnchanged before after
same-IsUnchanged before after e = subst (λ d. IsUnchanged before d) (sym e) (unchanged before)

-- The local side is taken back.
abbrev taken_back : Text → Disk → Disk
taken_back id d = record d { local_bundles = update d.local_bundles id none }

taken_back-IsUnchanged :
    (b : Bundle) (before : Disk)
    → before.local_bundles b.record_file.id ≡ none
    → IsUnchanged before (taken_back b.record_file.id (publish_local b before))
unfolding update
taken_back-IsUnchanged b before free = record {
  rest_same = refl;
  local_same = λ id. elim (Bool-cases (id == b.record_file.id)) [
    | inl e ↦ rw e (sym (ap before.local_bundles (eq_of_true id b.record_file.id e) ∙ free))
    | inr e ↦ rw e refl
  ];
}

publish-both :
    (b : Bundle) (before : Disk) (w : World)
    → w.disk ≡ before
    → before.local_bundles b.record_file.id ≡ none
    → OneFailure w.script
    → After
        (λ _ v. v.disk ≡ publish_repo b (publish_local b before))
        (λ v. IsUnchanged before v.disk)
        (IsPartly b before)
        (publish b w)
unfolding publish
publish-both b before w e free n =
    After-tried_write one_failure _ F C _ _ w n (inl e) (λ s n. same s)
      (λ s n.
        After-tried_write one_failure _ F C _ _ _ n (inl e) (λ s n. same s)
          (λ s n.
            After-tried_write one_failure _ F C _ _ _ n (inl e) (λ s n. same s)
              (λ s n.
                After-handle _ (λ v. (v.disk ≡ publish_local b before) × NoFailure v.script) F C _ _
                  _
                  (After-end_write one_failure _ _ C _ _ n (inr (ap (publish_local b) e))
                    (λ s n. (ap (publish_local b) e, n))
                    (λ s n. ap (λ d. publish_repo b (publish_local b d)) e))
                  (λ c v h.
                    After-tried_attempt no_more _ F C _ _ v h.1 (inr h.0)
                      (λ s impossible. absurd impossible)
                      (λ s n.
                        subst (λ d. IsUnchanged before (taken_back b.record_file.id d)) (sym h.0)
                          (taken_back-IsUnchanged b before free))))))
  where
    F : World → Type 0
    F v = IsUnchanged before v.disk

    C : Disk → Type 0
    C = IsPartly b before

    same : (s : List Outcome) → F (record w { script = s })
    same s = same-IsUnchanged before w.disk e

free_sides :
    (l r : Option Bundle) → (not (is_some l) && not (is_some r)) ≡ true → (l ≡ none) × (r ≡ none)
free_sides none none h = (refl, refl)
free_sides (some _) r h = absurd cc
free_sides none (some _) h = absurd cc

free_of_ok :
    (b : Bool) (u : Unit {0})
    → ◌≡◌ {A = Result Cause (Unit {0})} (if b then ok tt else err already_exists) (ok u)
    → b ≡ true
free_of_ok true u h = refl
free_of_ok false u h = absurd cc

module _ (scanner : Option (Record → Text → Text → Bool)) (digest : Bundle → Text) where
  -- `Create`, when at most one operation on the files fails, and each may be the last before a stop:
  -- with a result, the record is valid, the scanner accepts the variants, neither side had the id,
  -- and both have the bundle now, with nothing else changed; with an error, nothing has changed but
  -- perhaps the list of directory names, which may have one that is gone again; at a stop, nothing or
  -- only the local side.
  pub create-IsPublished :
      (now : ℕ) (bundle : Bundle) (w : World)
      → OneFailure w.script
      → After
          (λ _ v.
            IsPublished
              (stamped now bundle)
              (all_accepted scanner digest (stamped now bundle))
              w.disk
              v.disk)
          (λ v. IsUnchanged w.disk v.disk)
          (IsPartly (stamped now bundle) w.disk)
          (create scanner digest now bundle w)
  unfolding create
  create-IsPublished now bundle w n =
      After-guard_known _ F C (is_valid_record b.record_file) invalid_record _ w (unchanged w.disk)
        (λ valid.
          After-guard_known _ F C (all_accepted scanner digest b) scan_rejected _ w
            (unchanged w.disk)
            (λ scanned.
              After-tried_read one_failure _ F C _ _ w n (inl refl) (λ s. unchanged w.disk)
                (λ u s free n.
                  let sides = free_sides _ _ (free_of_ok _ u free) in
                  After-weaken (λ _ v. v.disk ≡ publish_repo b (publish_local b w.disk))
                    (λ _ v. IsPublished b (all_accepted scanner digest b) w.disk v.disk) F F C
                    (publish b (record w { script = s }))
                    (λ _ v both. record {
                      valid = valid;
                      scanned = scanned;
                      free_local = sides.0;
                      free_repo = sides.1;
                      both = both;
                    })
                    (λ v e. e) (publish-both b w.disk (record w { script = s }) refl sides.0 n))))
    where
      b : Bundle
      b = stamped now bundle

      F : World → Type 0
      F v = IsUnchanged w.disk v.disk

      C : Disk → Type 0
      C = IsPartly b w.disk

-- What a variant of a bundle is resolved to: the content is in the canonical file of its record.
pub record IsStored (id variant : Text) (before : Disk) (repo : Text → Option Text) : Type 0 where
  pub bundle : Bundle
  pub content : Text
  pub found : before.local_bundles id ≡ some bundle
  pub chosen : variant_of bundle variant ≡ some content
  pub stored : repo ≡ update before.repo bundle.record_file.repo_rel (some content)

pub record IsResolved (id variant : Text) (before after : Disk) : Type 0 where
  pub stored : IsStored id variant before after.repo
  pub local_gone : after.local_bundles id ≡ none
  pub repo_gone : after.repo_bundles id ≡ none

abbrev pub IsKept : Text → Text → Disk → Disk → Type 0
IsKept id variant before after = (after ≡ before) ⊎ IsStored id variant before after.repo

update_at : {A : Type 0} (f : Text → A) (p : Text) (v : A) → update f p v p ≡ v
unfolding update
update_at f p v = rw (true_of_eq p p refl) refl

remove_bundle-IsResolved :
    (id variant : Text) (before : Disk) (w : World)
    → IsStored id variant before w.disk.repo
    → After
        (λ _ v. IsResolved id variant before v.disk)
        (λ v. IsKept id variant before v.disk)
        (IsKept id variant before)
        (remove_bundle id w)
unfolding remove_bundle
remove_bundle-IsResolved id variant before w h =
    After-tried_attempt any_failures _ F C _ _ w tt (inr h)
      (λ s _. After-tried_attempt any_failures _ F C _ _ _ tt (inr h) (λ s _. inr h) (λ s _. inr h))
      (λ s _.
        After-tried_attempt any_failures _ F C _ _ _ tt (inr h) (λ s _. inr h)
          (λ s _. record {
            stored = h;
            local_gone = update_at w.disk.local_bundles id none;
            repo_gone = update_at w.disk.repo_bundles id none;
          }))
  where
    C : Disk → Type 0
    C = IsKept id variant before

    F : World → Type 0
    F v = C v.disk

module _ (scanner : Option (Record → Text → Text → Bool)) (digest : Bundle → Text) where
  resolve-IsResolved :
      (id variant : Text) (b : Bundle) (content : Text) (w : World)
      → w.disk.local_bundles id ≡ some b
      → variant_of b variant ≡ some content
      → After
          (λ _ v. IsResolved id variant w.disk v.disk)
          (λ v. IsKept id variant w.disk v.disk)
          (IsKept id variant w.disk)
          (resolve scanner digest id content w)
  unfolding resolve
  resolve-IsResolved id variant b content w e c =
      After-tried_read any_failures _ F C (read_record scanner digest id) _ w tt (inl refl)
        (λ s. inl refl)
        (λ found s r _.
          let (a, facts) = read_record-bundle scanner digest id w.disk found r in
          let same : b.record_file ≡ found =
            ap (λ (x : Bundle). x.record_file) (some-injective b a (sym e ∙ facts.0)) ∙ facts.1 in
          After-guard _ F C (accepted scanner digest found (codes "merged") content) _ _ _
            (inl refl)
            (After-tried_write any_failures _ F C _ _ _ tt (inl refl) (λ s _. inl refl)
              (λ s _. remove_bundle-IsResolved id variant w.disk _ (record {
                bundle = b;
                content = content;
                found = e;
                chosen = c;
                stored =
                    ap (λ (x : Record). update w.disk.repo x.repo_rel (some content)) (sym same);
              }))))
    where
      C : Disk → Type 0
      C = IsKept id variant w.disk

      F : World → Type 0
      F v = C v.disk

  -- `ResolveVariant`, whatever operations on the files fail, and though each may be the last before a
  -- stop: with a result, the canonical file holds the chosen variant of the bundle and both copies
  -- of the bundle are gone; with an error or at a stop, nothing has changed, or the canonical file
  -- holds the variant.
  pub resolve_variant-IsResolved :
      (id variant : Text) (w : World)
      → After
          (λ _ v. IsResolved id variant w.disk v.disk)
          (λ v. IsKept id variant w.disk v.disk)
          (IsKept id variant w.disk)
          (resolve_variant scanner digest id variant w)
  unfolding resolve_variant
  resolve_variant-IsResolved id variant w =
      elim (Bool-cases (variant == choice_local || variant == choice_remote)) [
        | inr q ↦ rw q (inl refl)
        | inl q ↦ rw q (
            After-tried_read any_failures _ F C (read_record scanner digest id)
              (λ _. read (read_variant scanner digest id variant) >>= resolve scanner digest id) w
              tt (inl refl) (λ s. inl refl)
              (λ found s r _.
                let (b, facts) = read_record-bundle scanner digest id w.disk found r in
                After-tried_read any_failures _ F C (read_variant scanner digest id variant)
                  (resolve scanner digest id) (record w { script = s }) tt (inl refl)
                  (λ s. inl refl)
                  (λ content s c _.
                    resolve-IsResolved id variant b content (record w { script = s }) facts.0
                      (read_variant-content scanner digest id variant w.disk content b facts.0 c))))
      ]
    where
      C : Disk → Type 0
      C = IsKept id variant w.disk

      F : World → Type 0
      F v = C v.disk
