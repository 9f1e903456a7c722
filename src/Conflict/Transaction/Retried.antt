-- ===== src/Conflict/Transaction/Retried.antt =====
-- `RecoverTransactions` after its journal was read, when its operations may fail.
use sync_hub_for_agents.Base.{
  ◌≡◌, refl, ap, ◌∙◌, Bool, true, false, ◌&&◌, ◌⊎◌, inl, inr, Option, none, some, List, [], ◌∷◌,
  reverse, All, arith,
}
use sync_hub_for_agents.Base.{if◌then◌else◌}
use sync_hub_for_agents.Conflict.Model.{
  ResolutionBatch, TransactionEntry, TransactionJournal, io_error, missing_journal, update,
}
use sync_hub_for_agents.Conflict.Effect.{World, ◌>>=◌, return, throw, write, attempt}
use sync_hub_for_agents.Conflict.Effect.Rules.{After, After-bind}
use sync_hub_for_agents.Conflict.Effect.Steps.{After-guard_known}
use sync_hub_for_agents.Conflict.Effect.Failing.{
  any_failures, After-tried_write, After-tried_attempt,
}
use sync_hub_for_agents.Conflict.Transaction.{rollback_entries, clear_transaction, recover_with}
use sync_hub_for_agents.Conflict.Transaction.Undo.{
  Repo, undo_all, mentions, undo_all-update, All-mentions,
}
use sync_hub_for_agents.Conflict.Transaction.RolledBack.{
  journal_entries, is_applying, Restored, Recoverable,
}

-- The journal `jr` undoes the transaction, and its repository is restored unless `b` says that a
-- write failed.
record Tried (R : Repo) (jr : Option TransactionJournal) (b : Bool) (w : World) : Type 0 where
  applying : is_applying w.disk.pending ≡ true
  journaled : w.disk.journal ≡ jr
  undone : undo_all (reverse (journal_entries jr)) w.disk.repo ≡ R
  restored : (b ≡ false) ⊎ (w.disk.repo ≡ R)

-- The repository is restored, and the batch is pending only if `b` says that its removal failed.
record Over (R : Repo) (b : Bool) (w : World) : Type 0 where
  restored : w.disk.repo ≡ R
  undone : undo_all (reverse (journal_entries w.disk.journal)) w.disk.repo ≡ R
  over : ((b ≡ false) × (is_applying w.disk.pending ≡ true)) ⊎ (is_applying w.disk.pending ≡ false)

module _ (R T : Repo) (F : World → Type 0) where
  Tried-Recoverable :
      (jr : Option TransactionJournal) (b : Bool) (w : World)
      → Tried R jr b w
      → Recoverable R T w.disk
  Tried-Recoverable jr b w h = inl (record {
    applying = h.applying;
    undone = ap (λ j. undo_all (reverse (journal_entries j)) w.disk.repo) h.journaled ∙ h.undone;
  })

  Over-Recoverable : (b : Bool) (w : World) → Over R b w → Recoverable R T w.disk
  Over-Recoverable b w h = by_over h.over
    where
      by_over :
          (((b ≡ false) × (is_applying w.disk.pending ≡ true))
            ⊎ (is_applying w.disk.pending ≡ false))
          → Recoverable R T w.disk
      by_over (inl (_, a)) = inl (record { applying = a; undone = h.undone })
      by_over (inr n) = inr (record { not_applying = n; whole = inl h.restored })

  -- The entries are rolled back, `ok` saying that none has failed so far.
  rollback_entries-Tried :
      (jr : Option TransactionJournal) (ok : Bool) (es : List TransactionEntry) (w : World)
      → All (λ e. mentions (reverse (journal_entries jr)) e.path ≡ true) es
      → is_applying w.disk.pending ≡ true
      → w.disk.journal ≡ jr
      → undo_all (reverse (journal_entries jr)) w.disk.repo ≡ R
      → ((ok ≡ false) ⊎ (undo_all es w.disk.repo ≡ R))
      → After (λ b v. Tried R jr (ok && b) v) F (Recoverable R T) (rollback_entries es w)
  unfolding rollback_entries
  rollback_entries-Tried jr ok [] w m p j u r = record {
    applying = p;
    journaled = j;
    undone = u;
    restored = elim r [ inl e ↦ inl (ground arith) | inr q ↦ inr q ];
  }
  rollback_entries-Tried jr ok (e ∷ es) w m p j u r =
      After-tried_attempt any_failures _ F (Recoverable R T)
        (λ d. record d { repo = update d.repo e.path e.original }) _ w tt
        (Tried-Recoverable jr false w
          (record { applying = p; journaled = j; undone = u; restored = inl refl }))
        (λ s _.
          After-bind (λ b v. Tried R jr (false && b) v) _ F (Recoverable R T) (rollback_entries es)
            _ _ (rollback_entries-Tried jr false es (record w { script = s }) m.1 p j u (inl refl))
            (λ b v h. record {
              applying = h.applying;
              journaled = h.journaled;
              undone = h.undone;
              restored = inl (ground arith);
            }))
        (λ s _.
          After-bind (λ b v. Tried R jr (ok && b) v) _ F (Recoverable R T) (rollback_entries es) _ _
            (rollback_entries-Tried jr ok es
              (record w {
                disk = record (w.disk) { repo = update w.disk.repo e.path e.original };
                script = s;
              })
              m.1 p j
              (undo_all-update (reverse (journal_entries jr)) w.disk.repo e.path e.original m.0 ∙ u)
              r)
            (λ b v h. h))

  -- The three removals at the end of a transaction whose repository is restored, from the last on
  journal_gone :
      (a b : Bool) (w : World)
      → Over R a w
      → After
          (λ c v. Over R c v)
          F
          (Recoverable R T)
          ((attempt (write (λ d. record d { journal = none })) >>= λ c. return (a && (b && c))) w)
  journal_gone a b w h =
      After-tried_attempt any_failures (λ c v. Over R c v) F (Recoverable R T) _ _ w tt
        (Over-Recoverable a w h)
        (λ s _. record { restored = h.restored; undone = h.undone; over = weaker false h.over })
        (λ s _. record { restored = h.restored; undone = h.restored; over = weaker true h.over })
    where
      weaker :
          (c : Bool)
          → (((a ≡ false) × (is_applying w.disk.pending ≡ true))
              ⊎ (is_applying w.disk.pending ≡ false))
          → ((((a && (b && c)) ≡ false) × (is_applying w.disk.pending ≡ true))
              ⊎ (is_applying w.disk.pending ≡ false))
      weaker c (inl (e, p)) = inl (rw e refl, p)
      weaker c (inr n) = inr n

  view_gone :
      (a : Bool) (w : World)
      → Over R a w
      → After
          (λ c v. Over R c v)
          F
          (Recoverable R T)
          ((attempt (write (λ d. record d { view = none })) >>= λ b.
              attempt (write (λ d. record d { journal = none })) >>= λ c. return (a && (b && c)))
            w)
  view_gone a w h =
      After-tried_attempt any_failures (λ c v. Over R c v) F (Recoverable R T) _ _ w tt
        (Over-Recoverable a w h)
        (λ s _.
          journal_gone a false _
            (record { restored = h.restored; undone = h.undone; over = h.over }))
        (λ s _.
          journal_gone a true _
            (record { restored = h.restored; undone = h.undone; over = h.over }))

  clear_transaction-Over :
      (w : World)
      → is_applying w.disk.pending ≡ true
      → w.disk.repo ≡ R
      → undo_all (reverse (journal_entries w.disk.journal)) w.disk.repo ≡ R
      → After (λ c v. Over R c v) F (Recoverable R T) (clear_transaction w)
  unfolding clear_transaction
  clear_transaction-Over w p r u =
      After-tried_attempt any_failures (λ c v. Over R c v) F (Recoverable R T) _ _ w tt
        (inl (record { applying = p; undone = u }))
        (λ s _. view_gone false _ (record { restored = r; undone = u; over = inl (refl, p) }))
        (λ s _. view_gone true _ (record { restored = r; undone = u; over = inr refl }))

abbrev Ready : Repo → Repo → World → Type 0
Ready R T v = Recoverable R T v.disk

-- After the mark as failed
clear_checked :
    (R T : Repo) (w : World)
    → is_applying w.disk.pending ≡ true
    → w.disk.repo ≡ R
    → undo_all (reverse (journal_entries w.disk.journal)) w.disk.repo ≡ R
    → After
        (λ _ v. Restored R v)
        (Ready R T)
        (Recoverable R T)
        ((clear_transaction >>= λ c. if c then return tt else throw io_error) w)
clear_checked R T w p r u =
    After-bind (λ c v. Over R c v) _ (Ready R T) (Recoverable R T) clear_transaction _ w
      (clear_transaction-Over R T (Ready R T) w p r u) by_cleared
  where
    by_cleared :
        (c : Bool) (v : World)
        → Over R c v
        → After
            (λ _ v. Restored R v)
            (Ready R T)
            (Recoverable R T)
            ((if c then return tt else throw io_error) v)
    by_cleared false v h = Over-Recoverable R T (Ready R T) false v h
    by_cleared true v h = elim h.over [
      | inl (e, _) ↦ cc
      | inr n ↦ record { not_applying = n; restored = h.restored }
    ]

-- The end of `RecoverTransactions`, when the journal `jr` that it read is the one on the disk and
-- undoing it gives `R`, whatever operations on the files fail or are the last before a stop: with a
-- result, no batch is marked as applying and the repository is `R`; after an error or a stop the files
-- are still such that it can be run again.
pub recover_with-Recoverable :
    (R T : Repo) (batch : ResolutionBatch) (jr : Option TransactionJournal) (w : World)
    → w.disk.journal ≡ jr
    → is_applying w.disk.pending ≡ true
    → undo_all (reverse (journal_entries jr)) w.disk.repo ≡ R
    → After
        (λ _ v. Restored R v)
        (λ v. Recoverable R T v.disk)
        (Recoverable R T)
        (recover_with batch jr w)
unfolding recover_with
recover_with-Recoverable R T batch none w j p u =
    After-tried_attempt any_failures _ (Ready R T) (Recoverable R T) _ _ w tt
      (inl (record { applying = p; undone = unjournaled }))
      (λ s _. then_refused (record w { script = s }) p u unjournaled)
      (λ s _. then_refused _ p u unjournaled)
  where
    unjournaled : undo_all (reverse (journal_entries w.disk.journal)) w.disk.repo ≡ R
    unjournaled = ap (λ x. undo_all (reverse (journal_entries x)) w.disk.repo) j ∙ u

    then_refused :
        (v : World)
        → is_applying v.disk.pending ≡ true
        → v.disk.repo ≡ R
        → undo_all (reverse (journal_entries v.disk.journal)) v.disk.repo ≡ R
        → After
            (λ _ v. Restored R v)
            (Ready R T)
            (Recoverable R T)
            ((clear_transaction >>= λ _. throw {A = Unit {0}} missing_journal) v)
    then_refused v p r u =
        After-bind (λ c v. Over R c v) _ (Ready R T) (Recoverable R T) clear_transaction _ v
          (clear_transaction-Over R T (Ready R T) v p r u)
          (λ c v h. Over-Recoverable R T (Ready R T) c v h)
recover_with-Recoverable R T batch (some jr) w j p u =
    After-bind (λ b v. Tried R (some jr) b v) _ (Ready R T) (Recoverable R T)
      (rollback_entries (reverse jr.entries)) _ w
      (rollback_entries-Tried R T (Ready R T) (some jr) true (reverse jr.entries) w
        (All-mentions (reverse jr.entries)) p j u (inr u))
      (λ b v h.
        After-guard_known _ (Ready R T) (Recoverable R T) b io_error _ v
          (Tried-Recoverable R T (Ready R T) (some jr) b v h)
          (λ t. elim h.restored [
            | inl e ↦ cc
            | inr q ↦
                After-tried_write any_failures _ (Ready R T) (Recoverable R T) _ _ v tt
                  (Tried-Recoverable R T (Ready R T) (some jr) b v h)
                  (λ s _. Tried-Recoverable R T (Ready R T) (some jr) b v h)
                  (λ s _. clear_checked R T _ h.applying q (
                    ap (λ x. undo_all (reverse (journal_entries x)) v.disk.repo) h.journaled
                    ∙ h.undone))
          ]))
