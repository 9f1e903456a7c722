-- ===== src/Conflict/Transaction/Restart.antt =====
-- `ApplyPendingBatch`, a stop of the process, and `RecoverTransactions` at the next start.
use sync_hub_for_agents.Base.{◌≡◌, Bool, true, false, inr, Option, none, List, []}
use sync_hub_for_agents.Base.Text.{Text, text_eq}
use sync_hub_for_agents.Conflict.Model.{Record, Bundle}
use sync_hub_for_agents.Conflict.Effect.{Outcome, World, Run, done, failed, stopped}
use sync_hub_for_agents.Conflict.Effect.Rules.{no_failure, After}
use sync_hub_for_agents.Conflict.Effect.Beside.{IsCalm}
use sync_hub_for_agents.Conflict.Transaction.{
  AppliedResolution, apply_pending_batch, recover_transactions,
}
use sync_hub_for_agents.Conflict.Transaction.Undo.{Repo}
use sync_hub_for_agents.Conflict.Transaction.Recovery.{
  Restored-Settled, recover_transactions-Settled,
}
use sync_hub_for_agents.Conflict.Transaction.RolledBack.{
  is_applying, Settled, Recoverable, Restored,
}
use sync_hub_for_agents.Conflict.Transaction.Atomic.{
  Committed, target, attempted_batch, apply_pending_batch-Committed,
}

-- The next start of the program, if the process has stopped: `RecoverTransactions` with the
-- answers `script`.
unfoldable pub restart : {A : Type 0} → List Outcome → Run A × World → Run (Unit {0}) × World
restart script (done _, w) = (done tt, w)
restart script (failed c, w) = (failed c, w)
restart script (stopped, w) =
    recover_transactions (record { disk = w.disk; script = script; entries = [] })

-- `ApplyPendingBatch`, and `RecoverTransactions` at the next start if the process stopped, when no
-- batch is marked as applying and there is no journal before them, no operation on the files fails
-- after a first error of the batch itself, and none fails in `RecoverTransactions`; each operation
-- may be the last before a stop. Where one of the two ends, with a result or an error, no batch is
-- marked as applying, though a journal may be left, and the repository is the old one or the one
-- with all selections resolved. Where `RecoverTransactions` is stopped too, undoing the journal
-- still gives the old one, or no batch is marked as applying and the repository is one of the two.
pub restart-Settled :
    (scanner : Option (Record → Text → Text → Bool)) (digest : Bundle → Text) (w : World)
    (again : List Outcome)
    → IsCalm (attempted_batch scanner digest w)
    → no_failure again ≡ true
    → is_applying w.disk.pending ≡ false
    → w.disk.journal ≡ none
    → After
        (λ _ v. Settled w.disk.repo (target w.disk) v.disk)
        (λ v. Settled w.disk.repo (target w.disk) v.disk)
        (Recoverable w.disk.repo (target w.disk))
        (restart again (apply_pending_batch scanner digest w))
unfolding restart
restart-Settled scanner digest w again calm m na j =
    by_end w.disk.repo (target w.disk) (apply_pending_batch scanner digest w)
      (apply_pending_batch-Committed scanner digest w calm na j)
  where
    by_end :
        (R T : Repo) (r : Run (List AppliedResolution × Bool) × World)
        → After (λ r. Committed T r.1) (Restored R) (Recoverable R T) r
        → After
            (λ _ v. Settled R T v.disk)
            (λ v. Settled R T v.disk)
            (Recoverable R T)
            (restart again r)
    by_end R T (done a, v) h = record { not_applying = h.not_applying; whole = inr h.whole }
    by_end R T (failed c, v) h = Restored-Settled R T v h
    by_end R T (stopped, v) h = recover_transactions-Settled R T _ m h
