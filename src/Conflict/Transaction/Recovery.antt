-- ===== src/Conflict/Transaction/Recovery.antt =====
-- `fail` and `RecoverTransactions` restore the repository, though the process may stop anywhere.
use mathlib.Core.Path.{subst}
use mathlib.Core.List.{reverse-append}
use sync_hub_for_agents.Base.{
  ◌≡◌, refl, sym, ap, ◌∙◌, true, ◌⊎◌, inl, inr, Option, none, some, List, [], ◌∷◌, ◌++◌, reverse,
}
use sync_hub_for_agents.Base.Text.{Text, text_eq}
use sync_hub_for_agents.Base.Result.{Result}
use sync_hub_for_agents.Conflict.Model.{
  ResolutionBatch, TransactionEntry, TransactionJournal, Disk, Cause, io_error,
}
use sync_hub_for_agents.Conflict.Effect.{World, ◌>>=◌, read}
use sync_hub_for_agents.Conflict.Effect.Rules.{
  no_failure, After, After-bind, After-read, After-handle, After-weaken,
}
use sync_hub_for_agents.Conflict.Effect.Steps.{
  After-write_then, After-attempt_then, After-read_then, After-get_entries, After-checked,
}
use sync_hub_for_agents.Conflict.Transaction.{
  rollback_entries, fail, recover_with, read_journal, recover_transactions, recover_pending,
}
use sync_hub_for_agents.Conflict.Transaction.Apply.{Failing}
use sync_hub_for_agents.Conflict.Transaction.Undo.{Repo, undo_all, All-mentions}
use sync_hub_for_agents.Conflict.Transaction.RolledBack.{
  journal_entries, is_applying, Interrupted, Settled, Recoverable, RolledBack, Restored,
  RolledBack-Recoverable_by, RolledBack-Recoverable, rollback_entries-RolledBack,
  rollback_entries-extra, clear_then, marked,
}

-- Whatever the entries are, if rolling them back restores the repository.
fail-Restored_by :
    {A : Type 0} (Q : A → World → Type 0) (R T : Repo) (batch : ResolutionBatch) (cause : Cause)
    (w : World)
    → After
        (λ b v. (b ≡ true) × RolledBack R w.disk.journal v)
        (Restored R)
        (Recoverable R T)
        (rollback_entries (reverse w.entries) w)
    → After Q (Restored R) (Recoverable R T) (fail batch cause w)
unfolding fail
fail-Restored_by Q R T batch cause w undone =
    After-get_entries Q (Restored R) (Recoverable R T) _ w (
      After-bind (λ b v. (b ≡ true) × RolledBack R w.disk.journal v) Q (Restored R)
        (Recoverable R T) (rollback_entries (reverse w.entries)) _ w undone
        (λ b v h.
          After-attempt_then Q (Restored R) (Recoverable R T) _ _ v h.1.clean
            (RolledBack-Recoverable R T (Restored R) w.disk.journal v h.1)
            (λ s n'.
              clear_then R T (Restored R) Q w.disk.journal _ _
                (marked R T (Restored R) w.disk.journal _ s v n' h.1) (λ v e. e))))

-- `fail` restores the repository, also when the journal lacks the last entry.
pub fail-Restored :
    {A : Type 0} (Q : A → World → Type 0) (R T : Repo) (batch : ResolutionBatch) (cause : Cause)
    (w : World)
    → no_failure w.script ≡ true
    → Failing R w
    → After Q (Restored R) (Recoverable R T) (fail batch cause w)
fail-Restored Q R T batch cause w n h = fail-Restored_by Q R T batch cause w (by_held h.held)
  where
    entries : List TransactionEntry
    entries = journal_entries w.disk.journal

    by_held :
        ((entries ≡ w.entries)
          ⊎ ((path : Text) × (w.entries
                ≡ entries ++ (record { path = path; original = w.disk.repo path } ∷ []))))
        → After
            (λ b v. (b ≡ true) × RolledBack R w.disk.journal v)
            (Restored R)
            (Recoverable R T)
            (rollback_entries (reverse w.entries) w)
    by_held (inl j) =
        subst
          (λ (es : List TransactionEntry).
            After (λ b v. (b ≡ true) × RolledBack R w.disk.journal v) (Restored R) (Recoverable R T)
              (rollback_entries (reverse es) w))
          j
          (rollback_entries-RolledBack R T (Restored R) w.disk.journal (reverse entries) w
            (All-mentions (reverse entries)) n h.applying refl h.undone h.undone)
    by_held (inr (p, e)) =
        subst
          (λ (es : List TransactionEntry).
            After (λ b v. (b ≡ true) × RolledBack R w.disk.journal v) (Restored R) (Recoverable R T)
              (rollback_entries es w))
          (sym (
            ap reverse e
            ∙ reverse-append entries (record { path = p; original = w.disk.repo p } ∷ [])))
          (rollback_entries-extra R T (Restored R) w.disk.journal (reverse entries) p w
            (All-mentions (reverse entries)) n h.applying refl h.undone h.undone)

recover_with-Restored :
    (R T : Repo) (batch : ResolutionBatch) (jr : Option TransactionJournal) (w : World)
    → w.disk.journal ≡ jr
    → no_failure w.script ≡ true
    → is_applying w.disk.pending ≡ true
    → undo_all (reverse (journal_entries jr)) w.disk.repo ≡ R
    → After (λ _ v. Restored R v) (Restored R) (Recoverable R T) (recover_with batch jr w)
unfolding recover_with
recover_with-Restored R T batch none w j n p u =
    After-attempt_then _ (Restored R) (Recoverable R T) _ _ w n
      (RolledBack-Recoverable_by R T (Restored R) none w p j u)
      (λ s n'.
        clear_then R T (Restored R) _ none _ _
          (record { clean = n'; applying = p; journaled = j; undone = u; restored = u }) (λ v e. e))
recover_with-Restored R T batch (some jr) w j n p u =
    After-bind (λ b v. (b ≡ true) × RolledBack R (some jr) v) _ (Restored R) (Recoverable R T)
      (rollback_entries (reverse jr.entries)) _ w
      (rollback_entries-RolledBack R T (Restored R) (some jr) (reverse jr.entries) w
        (All-mentions (reverse jr.entries)) n p j u u)
      (λ b v h. After-checked _ (Restored R) (Recoverable R T) b io_error _ v h.0 (
        After-write_then _ (Restored R) (Recoverable R T) _ _ v h.1.clean
          (RolledBack-Recoverable R T (Restored R) (some jr) v h.1)
          (λ s n'.
            clear_then R T (Restored R) _ (some jr) _ _
              (marked R T (Restored R) (some jr) _ s v n' h.1) (λ v e. e))))

-- The journal is read, or there is none.
read_journal-journal :
    (C : Disk → Type 0) (F : World → Type 0) (w : World)
    → no_failure w.script ≡ true
    → C w.disk
    → After
        (λ j v. (j ≡ w.disk.journal) × ((v.disk ≡ w.disk) × (no_failure v.script ≡ true)))
        F
        C
        (read_journal w)
unfolding read_journal
read_journal-journal C F w n c =
    After-handle _ (λ _. ⊥) F C (read (λ d. Result.ok d.journal)) _ w
      (After-read (λ _. ⊥) C _ (λ d. Result.ok d.journal) w n c (λ s n'. (refl, (refl, n'))))
      (λ _ _ impossible. absurd impossible)

abbrev Ended : Repo → Repo → World → Type 0
Ended R T v = Settled R T v.disk

pub Restored-Settled : (R T : Repo) (w : World) → Restored R w → Settled R T w.disk
Restored-Settled R T w h = record { not_applying = h.not_applying; whole = inl h.restored }

read_then_recover :
    (R T : Repo) (b : ResolutionBatch) (w : World)
    → no_failure w.script ≡ true
    → Interrupted R w.disk
    → After (λ _. Ended R T) (Ended R T) (Recoverable R T) ((read_journal >>= recover_with b) w)
read_then_recover R T b w n h =
    After-bind _ (λ _. Ended R T) (Ended R T) (Recoverable R T) read_journal (recover_with b) w
      (read_journal-journal (Recoverable R T) (Ended R T) w n (inl h))
      (λ j v f.
        After-weaken (λ _. Restored R) _ (Restored R) (Ended R T) (Recoverable R T)
          (recover_with b j v) (λ _. Restored-Settled R T) (Restored-Settled R T)
          (recover_with-Restored R T b j v (ap (λ d. d.journal) f.1.0 ∙ sym f.0) f.1.1
            (ap (λ d. is_applying d.pending) f.1.0 ∙ h.applying)
            (ap (λ x. undo_all (reverse (journal_entries x)) v.disk.repo) f.0
              ∙ ap (λ (d : Disk). undo_all (reverse (journal_entries w.disk.journal)) d.repo) f.1.0
              ∙ h.undone)))

recover_pending-Settled :
    (R T : Repo) (p : Option ResolutionBatch) (w : World)
    → w.disk.pending ≡ p
    → no_failure w.script ≡ true
    → Recoverable R T w.disk
    → After (λ _. Ended R T) (Ended R T) (Recoverable R T) (recover_pending p w)
unfolding recover_pending
recover_pending-Settled R T none w e n (inl h) = cc (sym (ap is_applying e) ∙ h.applying)
recover_pending-Settled R T none w e n (inr h) = h
recover_pending-Settled R T (some b) w e n (inl h) =
    rw (sym (ap is_applying e) ∙ h.applying) (read_then_recover R T b w n h)
recover_pending-Settled R T (some b) w e n (inr h) = rw (sym (ap is_applying e) ∙ h.not_applying) h

-- `RecoverTransactions`, when no operation on the files fails but each may be the last before a
-- stop, from files where a batch is marked as applying and undoing the journal gives `R`, or where
-- none is and the repository is `R` or `T`: where it ends, no batch is marked as applying and the
-- repository is `R` or `T`, and where it is stopped the files are still such that it can be run again.
pub recover_transactions-Settled :
    (R T : Repo) (w : World)
    → no_failure w.script ≡ true
    → Recoverable R T w.disk
    → After
        (λ _ v. Settled R T v.disk)
        (λ v. Settled R T v.disk)
        (Recoverable R T)
        (recover_transactions w)
unfolding recover_transactions
recover_transactions-Settled R T w n h =
    After-read_then _ (Ended R T) (Recoverable R T) (λ d. Result.ok d.pending) _ w n h
      (λ s n'. recover_pending-Settled R T w.disk.pending (record w { script = s }) refl n' h)
