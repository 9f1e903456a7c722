-- ===== src/Conflict/Transaction/RolledBack.antt =====
-- The files of an interrupted transaction, and how `rollbackEntries` and the end of a failure leave
-- them.
use mathlib.Core.Path.{subst}
use sync_hub_for_agents.Base.{
  ◌≡◌, refl, sym, ap, ◌∙◌, Bool, true, false, ◌⊎◌, inl, inr, Option, none, some, List, [], ◌∷◌,
  reverse, All,
}
use sync_hub_for_agents.Base.{◌==◌}
use sync_hub_for_agents.Base.Text.{Text, text_eq}
use sync_hub_for_agents.Conflict.Model.{
  ResolutionBatch, TransactionEntry, TransactionJournal, Disk, status_applying, update,
}
use sync_hub_for_agents.Conflict.Effect.{Outcome, World, Program, ◌>>=◌}
use sync_hub_for_agents.Conflict.Effect.Rules.{no_failure, After, After-bind}
use sync_hub_for_agents.Conflict.Effect.Steps.{After-attempt_then}
use sync_hub_for_agents.Conflict.Transaction.{rollback_entries, clear_transaction}
use sync_hub_for_agents.Conflict.Transaction.Undo.{
  Repo, undo_all, mentions, undo_all-update, update_self,
}

abbrev pub journal_entries : Option TransactionJournal → List TransactionEntry
journal_entries none = []
journal_entries (some j) = j.entries

abbrev pub is_applying : Option ResolutionBatch → Bool
is_applying none = false
is_applying (some b) = b.status == status_applying

-- A batch is marked as applying, and undoing the journal gives the repository `R`.
pub record Interrupted (R : Repo) (d : Disk) : Type 0 where
  pub applying : is_applying d.pending ≡ true
  pub undone : undo_all (reverse (journal_entries d.journal)) d.repo ≡ R

-- No batch is marked as applying, and the repository is `R` or `T`.
pub record Settled (R T : Repo) (d : Disk) : Type 0 where
  pub not_applying : is_applying d.pending ≡ false
  pub whole : (d.repo ≡ R) ⊎ (d.repo ≡ T)

abbrev pub Recoverable : Repo → Repo → Disk → Type 0
Recoverable R T d = Interrupted R d ⊎ Settled R T d

-- A transaction in progress whose repository is restored, but not yet marked as failed.
pub record RolledBack (R : Repo) (jr : Option TransactionJournal) (w : World) : Type 0 where
  pub clean : no_failure w.script ≡ true
  pub applying : is_applying w.disk.pending ≡ true
  pub journaled : w.disk.journal ≡ jr
  pub undone : undo_all (reverse (journal_entries jr)) w.disk.repo ≡ R
  pub restored : w.disk.repo ≡ R

-- The transaction has ended with the repository `R`.
pub record Restored (R : Repo) (w : World) : Type 0 where
  pub not_applying : is_applying w.disk.pending ≡ false
  pub restored : w.disk.repo ≡ R

module _ (R T : Repo) (F : World → Type 0) where
  pub RolledBack-Recoverable_by :
      (jr : Option TransactionJournal) (w : World)
      → is_applying w.disk.pending ≡ true
      → w.disk.journal ≡ jr
      → undo_all (reverse (journal_entries jr)) w.disk.repo ≡ R
      → Recoverable R T w.disk
  RolledBack-Recoverable_by jr w p j u = inl (record {
    applying = p;
    undone = ap (λ j. undo_all (reverse (journal_entries j)) w.disk.repo) j ∙ u;
  })

  pub RolledBack-Recoverable :
      (jr : Option TransactionJournal) (w : World) → RolledBack R jr w → Recoverable R T w.disk
  RolledBack-Recoverable jr w h = RolledBack-Recoverable_by jr w h.applying h.journaled h.undone

  pub rollback_entries-RolledBack :
      (jr : Option TransactionJournal) (es : List TransactionEntry) (w : World)
      → All (λ e. mentions (reverse (journal_entries jr)) e.path ≡ true) es
      → no_failure w.script ≡ true
      → is_applying w.disk.pending ≡ true
      → w.disk.journal ≡ jr
      → undo_all (reverse (journal_entries jr)) w.disk.repo ≡ R
      → undo_all es w.disk.repo ≡ R
      → After (λ b v. (b ≡ true) × RolledBack R jr v) F (Recoverable R T) (rollback_entries es w)
  unfolding rollback_entries
  rollback_entries-RolledBack jr [] w m n p j u r =
      (refl, record { clean = n; applying = p; journaled = j; undone = u; restored = r })
  rollback_entries-RolledBack jr (e ∷ es) w m n p j u r =
      After-attempt_then _ F (Recoverable R T)
        (λ d. record d { repo = update d.repo e.path e.original }) _ w n
        (RolledBack-Recoverable_by jr w p j u)
        (λ s n'.
          After-bind (λ b v. (b ≡ true) × RolledBack R jr v) _ F (Recoverable R T)
            (rollback_entries es) _ _
            (rollback_entries-RolledBack jr es
              (record w {
                disk = record (w.disk) { repo = update w.disk.repo e.path e.original };
                script = s;
              })
              m.1 n' p j
              (undo_all-update (reverse (journal_entries jr)) w.disk.repo e.path e.original m.0 ∙ u)
              r)
            (λ b v h. h))

  -- An entry before them that records what its path holds changes nothing.
  pub rollback_entries-extra :
      (jr : Option TransactionJournal) (es : List TransactionEntry) (p : Text) (w : World)
      → All (λ e. mentions (reverse (journal_entries jr)) e.path ≡ true) es
      → no_failure w.script ≡ true
      → is_applying w.disk.pending ≡ true
      → w.disk.journal ≡ jr
      → undo_all (reverse (journal_entries jr)) w.disk.repo ≡ R
      → undo_all es w.disk.repo ≡ R
      → After
          (λ b v. (b ≡ true) × RolledBack R jr v)
          F
          (Recoverable R T)
          (rollback_entries (record { path = p; original = w.disk.repo p } ∷ es) w)
  unfolding rollback_entries
  rollback_entries-extra jr es p w m n a j u r =
      After-attempt_then _ F (Recoverable R T)
        (λ d. record d { repo = update d.repo p (w.disk.repo p) }) _ w n
        (RolledBack-Recoverable_by jr w a j u)
        (λ s n'.
          After-bind (λ b v. (b ≡ true) × RolledBack R jr v) _ F (Recoverable R T)
            (rollback_entries es) _ _
            (rollback_entries-RolledBack jr es
              (record w {
                disk = record (w.disk) { repo = update w.disk.repo p (w.disk.repo p) };
                script = s;
              })
              m n' a j
              (ap (undo_all (reverse (journal_entries jr))) (update_self w.disk.repo p) ∙ u)
              (ap (undo_all es) (update_self w.disk.repo p) ∙ r))
            (λ b v h. h))

  -- The end of a transaction in progress whose repository is restored.
  pub clear_transaction-Restored :
      (jr : Option TransactionJournal) (w : World)
      → RolledBack R jr w
      → After (λ b v. (b ≡ true) × Restored R v) F (Recoverable R T) (clear_transaction w)
  unfolding clear_transaction
  clear_transaction-Restored jr w h =
      After-attempt_then _ F (Recoverable R T) (λ d. record d { pending = none }) _ w h.clean
        (RolledBack-Recoverable jr w h)
        (λ s n.
          After-attempt_then _ F (Recoverable R T) (λ d. record d { view = none }) _ _ n
            (inr (record { not_applying = refl; whole = inl h.restored }))
            (λ s' n'.
              After-attempt_then _ F (Recoverable R T) (λ d. record d { journal = none }) _ _ n'
                (inr (record { not_applying = refl; whole = inl h.restored }))
                (λ s'' n''. (refl, record { not_applying = refl; restored = h.restored }))))

  -- And whatever follows it.
  pub clear_then :
      {B : Type 0} (Q : B → World → Type 0) (jr : Option TransactionJournal) (k : Bool → Program B)
      (w : World)
      → RolledBack R jr w
      → ((v : World) → Restored R v → After Q F (Recoverable R T) (k true v))
      → After Q F (Recoverable R T) ((clear_transaction >>= k) w)
  clear_then Q jr k w h rest =
      After-bind (λ c v. (c ≡ true) × Restored R v) Q F (Recoverable R T) clear_transaction k w
        (clear_transaction-Restored jr w h)
        (λ c v e. subst (λ (x : Bool). After Q F (Recoverable R T) (k x v)) (sym e.0) (rest v e.1))

  -- The batch is marked as failed.
  pub marked :
      (jr : Option TransactionJournal) (b : Option ResolutionBatch) (s : List Outcome) (w : World)
      → no_failure s ≡ true
      → RolledBack R jr w
      → RolledBack R jr (record w { disk = record (w.disk) { failed = b }; script = s })
  marked jr b s w n h = record {
    clean = n;
    applying = h.applying;
    journaled = h.journaled;
    undone = h.undone;
    restored = h.restored;
  }
