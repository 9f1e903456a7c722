-- ===== src/Conflict/Transaction/Apply.antt =====
-- The first loop of `ApplyPendingBatch`: after each selection the transaction can be undone.
use sync_hub_for_agents.Base.{
  ◌≡◌, refl, sym, ap, ◌∙◌, Bool, true, false, inl, inr, Option, none, some, List, [], ◌∷◌, ◌++◌,
  ◌⊎◌, reverse, arith, Option-cases,
}
use sync_hub_for_agents.Base.{◌==◌, if◌then◌else◌}
use sync_hub_for_agents.Base.Text.{Text, text_eq}
use sync_hub_for_agents.Base.Result.{Result, ok}
use sync_hub_for_agents.Conflict.Model.{
  Record, Bundle, ResolutionSelection, ResolutionBatch, Disk, Cause, choice_merged, update,
  bytes_of,
}
use sync_hub_for_agents.Conflict.Effect.{Outcome, World, Program, ◌>>=◌, return, read}
use sync_hub_for_agents.Conflict.Effect.Rules.{After}
use sync_hub_for_agents.Conflict.Effect.Failing.{any_failures, After-tried_write, After-tried_read}
use sync_hub_for_agents.Conflict.Effect.Steps.{
  After-get_entries, After-set_entries, After-guard, After-return,
}
use sync_hub_for_agents.Conflict.Transaction.{
  accepted, read_record, check_revision, variant_of, read_variant, chosen, store_content,
  apply_selection,
}
use sync_hub_for_agents.Conflict.Transaction.Undo.{Repo, undo_all, undo_all_grown, undo_all_written}
use sync_hub_for_agents.Conflict.Transaction.RolledBack.{journal_entries, is_applying, Recoverable}

-- What a selection chooses: the text in the batch or a variant of its bundle.
abbrev pub content_of : ResolutionSelection → Bundle → Option Text
content_of s b =
    if s.choice == choice_merged then some (bytes_of s.content) else variant_of b s.choice

abbrev pub written : Option Bundle → ResolutionSelection → Repo → Repo
written none s r = r
written (some b) s r = update r b.record_file.repo_rel (content_of s b)

-- The repository in which all selections are resolved, by the bundles of this machine.
abbrev pub resolved : (Text → Option Bundle) → List ResolutionSelection → Repo → Repo
resolved B [] r = r
resolved B (s ∷ ss) r = resolved B ss (written (B s.id) s r)

-- The transaction can be undone by the journal, and by the variable that it is written from.
pub record Undoable (R : Repo) (w : World) : Type 0 where
  pub applying : is_applying w.disk.pending ≡ true
  pub journaled : journal_entries w.disk.journal ≡ w.entries
  pub undone : undo_all (reverse w.entries) w.disk.repo ≡ R

-- An operation of the transaction has failed. The variable holds what the journal holds, or one more
-- entry, for a path that still has its first content, whose journal could not be written.
pub record Failing (R : Repo) (w : World) : Type 0 where
  pub applying : is_applying w.disk.pending ≡ true
  pub undone : undo_all (reverse (journal_entries w.disk.journal)) w.disk.repo ≡ R
  pub held :
      (journal_entries w.disk.journal ≡ w.entries)
      ⊎ ((path : Text) × (w.entries
            ≡ journal_entries w.disk.journal
              ++ (record { path = path; original = w.disk.repo path } ∷ [])))

-- The selections `rest` are left to do, and lead to `T`.
pub record Progress (B : Text → Option Bundle) (R T : Repo) (rest : List ResolutionSelection)
    (w : World) : Type 0 where
  pub undoable : Undoable R w
  pub bundles : w.disk.local_bundles ≡ B
  pub leads : resolved B rest w.disk.repo ≡ T

module _ (R T : Repo) where
  pub Undoable-Recoverable : (w : World) → Undoable R w → Recoverable R T w.disk
  Undoable-Recoverable w h = inl (record {
    applying = h.applying;
    undone = ap (λ es. undo_all (reverse es) w.disk.repo) h.journaled ∙ h.undone;
  })

  -- Only the answers to come have changed.
  pub Undoable-Failing :
      (w : World) (s : List Outcome) → Undoable R w → Failing R (record w { script = s })
  Undoable-Failing w s h = record {
    applying = h.applying;
    undone = ap (λ es. undo_all (reverse es) w.disk.repo) h.journaled ∙ h.undone;
    held = inl h.journaled;
  }

read_value : {x y : Option Text} → ◌≡◌ {A = Result Cause (Option Text)} (ok x) (ok y) → y ≡ x
read_value e = cc

-- The variable has one entry more than the journal.
grown_held :
    (w : World) (p : Text) (original : Option Text)
    → original ≡ w.disk.repo p
    → journal_entries w.disk.journal ≡ w.entries
    → w.entries ++ (record { path = p; original = original } ∷ [])
      ≡ journal_entries w.disk.journal ++ (record { path = p; original = w.disk.repo p } ∷ [])
grown_held w p original e j =
    ap (λ o. w.entries ++ (record { path = p; original = o } ∷ [])) e
    ∙ ap (λ es. es ++ (record { path = p; original = w.disk.repo p } ∷ [])) (sym j)

module _ (scanner : Option (Record → Text → Text → Bool)) (digest : Bundle → Text) where
  -- The record that is read is the one of the bundle.
  pub read_record-bundle :
      (id : Text) (d : Disk) (r : Record)
      → read_record scanner digest id d ≡ ok r
      → (b : Bundle) × ((d.local_bundles id ≡ some b) × (b.record_file ≡ r))
  unfolding read_record
  read_record-bundle id d r h = elim (Option-cases (d.local_bundles id)) [
    | inl e ↦ absurd (ground arith)
    | inr (b, e) ↦ (b, (e, ground arith))
  ]

  pub read_variant-content :
      (id choice : Text) (d : Disk) (c : Text) (b : Bundle)
      → d.local_bundles id ≡ some b
      → read_variant scanner digest id choice d ≡ ok c
      → variant_of b choice ≡ some c
  unfolding read_variant
  read_variant-content id choice d c b e h = ground arith

  chosen_then :
      {B : Type 0} (Q : B → World → Type 0) (F : World → Type 0) (C : Disk → Type 0)
      (sel : ResolutionSelection) (b : Bundle) (k : Text → Program B) (w : World)
      → w.disk.local_bundles sel.id ≡ some b
      → C w.disk
      → ((s : List Outcome) → F (record w { script = s }))
      → ((c : Text) (s : List Outcome)
          → content_of sel b ≡ some c
          → After Q F C (k c (record w { script = s })))
      → After Q F C ((chosen scanner digest sel >>= k) w)
  unfolding chosen
  chosen_then Q F C sel b k w e c bad good = by_choice (sel.choice == choice_merged) refl
    where
      by_choice :
          (m : Bool)
          → (sel.choice == choice_merged) ≡ m
          → After Q F C (
              ((if m
                    then return (bytes_of sel.content)
                    else read (read_variant scanner digest sel.id sel.choice))
                  >>= k)
                w)
      by_choice true h =
          After-return Q F C (bytes_of sel.content) k w
            (good (bytes_of sel.content) w.script (rw h refl))
      by_choice false h =
          After-tried_read any_failures Q F C (read_variant scanner digest sel.id sel.choice) k w tt
            c bad
            (λ t s r _. good t s (rw h (read_variant-content sel.id sel.choice w.disk t b e r)))

  -- The selection is what `resolved` does next.
  written_next :
      (B : Text → Option Bundle) (R T : Repo) (sel : ResolutionSelection)
      (rest : List ResolutionSelection) (b : Bundle) (found : Record) (c : Text) (w : World)
      → Progress B R T (sel ∷ rest) w
      → w.disk.local_bundles sel.id ≡ some b
      → b.record_file ≡ found
      → content_of sel b ≡ some c
      → resolved B rest (update w.disk.repo found.repo_rel (some c)) ≡ T
  written_next B R T sel rest b found c w h e r k =
      ap (resolved B rest) (
        sym (
          ap (λ (m : Text → Option Bundle). written (m sel.id) sel w.disk.repo) (sym h.bundles)
          ∙ ap (λ x. written x sel w.disk.repo) e
          ∙ ap (λ (x : Record). update w.disk.repo x.repo_rel (content_of sel b)) r
          ∙ ap (update w.disk.repo found.repo_rel) k))
      ∙ h.leads

  -- The journal is written before the path.
  store_content-Progress :
      (B : Text → Option Bundle) (R T : Repo) (batch : ResolutionBatch) (sel : ResolutionSelection)
      (rest : List ResolutionSelection) (b : Bundle) (found : Record) (c : Text) (w : World)
      (s : List Outcome)
      → Progress B R T (sel ∷ rest) w
      → w.disk.local_bundles sel.id ≡ some b
      → b.record_file ≡ found
      → content_of sel b ≡ some c
      → After
          (λ _. Progress B R T rest)
          (Failing R)
          (Recoverable R T)
          (store_content scanner digest batch sel found c (record w { script = s }))
  unfolding store_content
  store_content-Progress B R T batch sel rest b found c w s h eb ef ec =
      After-tried_read any_failures _ (Failing R) (Recoverable R T)
        (λ d. ok (d.repo found.repo_rel)) _ _ tt (Undoable-Recoverable R T w h.undoable)
        (λ s. Undoable-Failing R T w s h.undoable)
        (λ original s e _. After-get_entries _ (Failing R) (Recoverable R T) _ _ (
          After-set_entries _ (Failing R) (Recoverable R T) _ _ _ (
            After-tried_write any_failures _ (Failing R) (Recoverable R T) _ _ _ tt
              (Undoable-Recoverable R T w h.undoable)
              (λ s _. record {
                applying = h.undoable.applying;
                undone = (Undoable-Failing R T w s h.undoable).undone;
                held = inr (
                  found.repo_rel,
                  grown_held w found.repo_rel original (read_value e) h.undoable.journaled,
                );
              })
              (λ s _.
                After-tried_write any_failures _ (Failing R) (Recoverable R T) _ _ _ tt
                  (inl (record {
                    applying = h.undoable.applying;
                    undone = grown original (read_value e);
                  }))
                  (λ s _. record {
                    applying = h.undoable.applying;
                    undone = grown original (read_value e);
                    held = inl refl;
                  })
                  (λ s _. record {
                    undoable = record {
                      applying = h.undoable.applying;
                      journaled = refl;
                      undone =
                          ap
                            (λ o.
                              undo_all
                                (reverse (
                                  w.entries
                                  ++ (record { path = found.repo_rel; original = o } ∷ [])))
                                (update w.disk.repo found.repo_rel (some c)))
                            (read_value e)
                          ∙ undo_all_written w.entries w.disk.repo found.repo_rel (some c)
                          ∙ h.undoable.undone;
                    };
                    bundles = h.bundles;
                    leads = written_next B R T sel rest b found c w h eb ef ec;
                  })))))
    where
      grown :
          (original : Option Text)
          → original ≡ w.disk.repo found.repo_rel
          → undo_all
              (reverse (w.entries ++ (record { path = found.repo_rel; original = original } ∷ [])))
              w.disk.repo
            ≡ R
      grown original e =
          ap
            (λ o.
              undo_all
                (reverse (w.entries ++ (record { path = found.repo_rel; original = o } ∷ [])))
                w.disk.repo)
            e
          ∙ undo_all_grown w.entries w.disk.repo found.repo_rel
          ∙ h.undoable.undone

  -- One selection is resolved, or all can be undone.
  pub apply_selection-Progress :
      (B : Text → Option Bundle) (R T : Repo) (batch : ResolutionBatch) (sel : ResolutionSelection)
      (rest : List ResolutionSelection) (w : World)
      → Progress B R T (sel ∷ rest) w
      → After
          (λ _. Progress B R T rest)
          (Failing R)
          (Recoverable R T)
          (apply_selection scanner digest batch sel w)
  unfolding apply_selection
  apply_selection-Progress B R T batch sel rest w h =
      After-tried_read any_failures _ (Failing R) (Recoverable R T)
        (read_record scanner digest sel.id) _ w tt (Undoable-Recoverable R T w h.undoable)
        (λ s. Undoable-Failing R T w s h.undoable)
        (λ found s r _.
          let (b, facts) = read_record-bundle sel.id w.disk found r in
          After-tried_read any_failures _ (Failing R) (Recoverable R T)
            (check_revision scanner digest sel) _ _ tt (Undoable-Recoverable R T w h.undoable)
            (λ s. Undoable-Failing R T w s h.undoable)
            (λ _ s _ _.
              chosen_then _ (Failing R) (Recoverable R T) sel b _ (record w { script = s }) facts.0
                (Undoable-Recoverable R T w h.undoable) (λ s. Undoable-Failing R T w s h.undoable)
                (λ c s e.
                  After-guard _ (Failing R) (Recoverable R T)
                    (accepted scanner digest found sel.choice c) _ _ _
                    (Undoable-Failing R T w s h.undoable)
                    (store_content-Progress B R T batch sel rest b found c w s h facts.0 facts.1
                      e))))
