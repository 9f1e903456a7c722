-- ===== src/Conflict/Transaction/Atomic.antt =====
-- `ApplyPendingBatch` changes all canonical paths of the batch or none, though operations fail.
use mathlib.Core.Path.{subst}
use sync_hub_for_agents.Base.{
  ◌≡◌, refl, sym, ap, Bool, true, false, ◌⊎◌, inl, inr, Option, none, some, List, [], ◌∷◌,
  Bool-cases, ◌&&◌, arith,
}
use sync_hub_for_agents.Base.{◌==◌, true_of_eq, if◌then◌else◌}
use sync_hub_for_agents.Base.Text.{Text, text_eq}
use sync_hub_for_agents.Base.Result.{Result, ok}
use sync_hub_for_agents.Conflict.Model.{
  Record, Bundle, ResolutionSelection, ResolutionBatch, Disk, Cause, invalid_status,
  status_applying, status_queued, update,
}
use sync_hub_for_agents.Conflict.Effect.{
  Outcome, World, Program, ◌>>=◌, ◌>>◌, return, throw, write, read, set_entries, attempt, handle,
}
use sync_hub_for_agents.Conflict.Effect.Rules.{After, After-bind}
use sync_hub_for_agents.Conflict.Effect.Steps.{After-set_entries}
use sync_hub_for_agents.Conflict.Effect.Failing.{
  any_failures, After-tried_write, After-tried_attempt,
}
use sync_hub_for_agents.Conflict.Effect.Beside.{
  IsCalm, set_entries-IsCalm, After-handle_calm, After-write_beside, After-read_beside,
}
use sync_hub_for_agents.Conflict.Transaction.{
  AppliedResolution, apply_selection, apply_selections, remove_bundles, clear_after_commit,
  list_visible, resolve_all, apply_queued, apply_batch, apply_pending_batch, fail, apply_found,
}
use sync_hub_for_agents.Conflict.Transaction.Undo.{Repo}
use sync_hub_for_agents.Conflict.Transaction.Recovery.{fail-Restored}
use sync_hub_for_agents.Conflict.Transaction.RolledBack.{
  journal_entries, is_applying, Recoverable, Restored,
}
use sync_hub_for_agents.Conflict.Transaction.Apply.{
  resolved, Undoable, Failing, Progress, Undoable-Recoverable, Undoable-Failing,
  apply_selection-Progress,
}

-- The batch is no longer pending, the repository is `T`, and the journal is gone unless the result
-- says that a file was not cleared.
pub record Committed (T : Repo) (cleared : Bool) (w : World) : Type 0 where
  pub not_applying : is_applying w.disk.pending ≡ false
  pub whole : w.disk.repo ≡ T
  pub is_cleared : (cleared ≡ false) ⊎ (w.disk.journal ≡ none)

-- The batch was resolved up to its commit.
record Resolved (T : Repo) (w : World) : Type 0 where
  not_applying : is_applying w.disk.pending ≡ false
  whole : w.disk.repo ≡ T

read_pending :
    {x y : Option ResolutionBatch}
    → ◌≡◌ {A = Result Cause (Option ResolutionBatch)} (ok x) (ok y)
    → x ≡ y
read_pending e = cc

-- What the pending batch resolves to.
abbrev pub target : Disk → Repo
target d = elim d.pending [ none ↦ d.repo | some b ↦ resolved d.local_bundles b.selections d.repo ]

module _ (scanner : Option (Record → Text → Text → Bool)) (digest : Bundle → Text) where
  -- `ApplyPendingBatch` without what it does after an error of the batch, and after the commit
  abbrev attempted_queued : ResolutionBatch → Program (List AppliedResolution)
  attempted_queued b = do
    view ← read (list_visible scanner digest)
    write (λ d. record d { view = some view })
    write (λ d. record d { pending = some (record b { status = status_applying }) })
    set_entries []
    resolve_all scanner digest (record b { status = status_applying })

  abbrev attempted_found : Option ResolutionBatch → Program (List AppliedResolution)
  attempted_found none = return []
  attempted_found (some b) =
      if b.status == status_queued then attempted_queued b else throw invalid_status

  abbrev pub attempted_batch : Program (List AppliedResolution)
  attempted_batch = read (λ d. ok d.pending) >>= attempted_found

  apply_selections-Progress :
      (B : Text → Option Bundle) (R T : Repo) (batch : ResolutionBatch)
      (sels : List ResolutionSelection) (w : World)
      → Progress B R T sels w
      → After
          (λ _. Progress B R T [])
          (Failing R)
          (Recoverable R T)
          (apply_selections scanner digest batch sels w)
  unfolding apply_selections
  apply_selections-Progress B R T batch [] w h = h
  apply_selections-Progress B R T batch (sel ∷ sels) w h =
      After-bind _ _ (Failing R) (Recoverable R T) (apply_selection scanner digest batch sel) _ w
        (apply_selection-Progress scanner digest B R T batch sel sels w h)
        (λ a v p.
          After-bind _ _ (Failing R) (Recoverable R T) (apply_selections scanner digest batch sels)
            _ v (apply_selections-Progress B R T batch sels v p) (λ _ _ q. q))

  Undoable-bundles :
      (R : Repo) (l r : Text → Option Bundle) (s : List Outcome) (w : World)
      → Undoable R w
      → Undoable R
          (record w { disk = record (w.disk) { local_bundles = l; repo_bundles = r }; script = s })
  Undoable-bundles R l r s w h = record {
    applying = h.applying;
    journaled = h.journaled;
    undone = h.undone;
  }

  -- The removal of the bundles leaves the repository.
  remove_bundles-Undoable :
      (R T : Repo) (sels : List ResolutionSelection) (w : World)
      → Undoable R w
      → w.disk.repo ≡ T
      → After
          (λ _ v. Undoable R v × (v.disk.repo ≡ T))
          (Failing R)
          (Recoverable R T)
          (remove_bundles sels w)
  unfolding remove_bundles
  remove_bundles-Undoable R T [] w h e = (h, e)
  remove_bundles-Undoable R T (sel ∷ sels) w h e =
      After-tried_write any_failures _ (Failing R) (Recoverable R T) _ _ w tt
        (Undoable-Recoverable R T w h) (λ s _. Undoable-Failing R T w s h)
        (λ s _.
          After-tried_write any_failures _ (Failing R) (Recoverable R T) _
            (λ _. remove_bundles sels)
            (record w {
              disk = record (w.disk) { local_bundles = update w.disk.local_bundles sel.id none };
              script = s;
            })
            tt (Undoable-Recoverable R T _ (Undoable-bundles R _ w.disk.repo_bundles s w h))
            (λ s' _. Undoable-Failing R T _ s' (Undoable-bundles R _ w.disk.repo_bundles s w h))
            (λ s' _. remove_bundles-Undoable R T sels _ (Undoable-bundles R _ _ s' w h) e))

  -- The commit is the removal of the pending batch.
  resolve_all-Resolved :
      (B : Text → Option Bundle) (R T : Repo) (batch : ResolutionBatch) (w : World)
      → Progress B R T batch.selections w
      → After (λ _. Resolved T) (Failing R) (Recoverable R T) (resolve_all scanner digest batch w)
  unfolding resolve_all
  resolve_all-Resolved B R T batch w h =
      After-bind _ _ (Failing R) (Recoverable R T)
        (apply_selections scanner digest batch batch.selections) _ w
        (apply_selections-Progress B R T batch batch.selections w h)
        (λ a v p.
          After-bind _ _ (Failing R) (Recoverable R T) (remove_bundles batch.selections) _ v
            (remove_bundles-Undoable R T batch.selections v p.undoable p.leads)
            (λ _ u q.
              After-tried_write any_failures _ (Failing R) (Recoverable R T) _ _ u tt
                (Undoable-Recoverable R T u q.0) (λ s _. Undoable-Failing R T u s q.0)
                (λ s _. record { not_applying = refl; whole = q.1 })))

  -- The clearing after the commit, from its second and from its third removal on
  journal_step :
      (R T : Repo) (F : World → Type 0) (a b : Bool) (w : World)
      → Resolved T w
      → After
          (Committed T)
          F
          (Recoverable R T)
          ((attempt (write (λ d. record d { journal = none })) >>= λ c. return (a && (b && c))) w)
  journal_step R T F a b w h =
      After-tried_attempt any_failures (Committed T) F (Recoverable R T) _ _ w tt
        (inr (record { not_applying = h.not_applying; whole = inr h.whole }))
        (λ s _. record {
          not_applying = h.not_applying;
          whole = h.whole;
          is_cleared = inl (ground arith);
        })
        (λ s _. record { not_applying = h.not_applying; whole = h.whole; is_cleared = inr refl })

  view_step :
      (R T : Repo) (F : World → Type 0) (a : Bool) (w : World)
      → Resolved T w
      → After (Committed T) F (Recoverable R T) (
          (attempt (write (λ d. record d { view = none })) >>= λ b.
          attempt (write (λ d. record d { journal = none })) >>= λ c. return (a && (b && c)))
            w)
  view_step R T F a w h =
      After-tried_attempt any_failures (Committed T) F (Recoverable R T) _ _ w tt
        (inr (record { not_applying = h.not_applying; whole = inr h.whole }))
        (λ s _.
          journal_step R T F a false _ (record { not_applying = h.not_applying; whole = h.whole }))
        (λ s _.
          journal_step R T F a true _ (record { not_applying = h.not_applying; whole = h.whole }))

  clear_after_commit-Committed :
      (R T : Repo) (F : World → Type 0) (w : World)
      → Resolved T w
      → After (Committed T) F (Recoverable R T) (clear_after_commit w)
  unfolding clear_after_commit
  clear_after_commit-Committed R T F w h =
      After-tried_attempt any_failures (Committed T) F (Recoverable R T) _ _ w tt
        (inr (record { not_applying = h.not_applying; whole = inr h.whole }))
        (λ s _. view_step R T F false _ (record { not_applying = h.not_applying; whole = h.whole }))
        (λ s _. view_step R T F true _ (record { not_applying = h.not_applying; whole = h.whole }))

  apply_queued-Committed :
      (R T : Repo) (b : ResolutionBatch) (w : World)
      → IsCalm (attempted_queued b w)
      → is_applying w.disk.pending ≡ false
      → w.disk.journal ≡ none
      → w.disk.repo ≡ R
      → resolved w.disk.local_bundles b.selections w.disk.repo ≡ T
      → After
          (λ r. Committed T r.1)
          (Restored R)
          (Recoverable R T)
          (apply_queued scanner digest b w)
  unfolding apply_queued
  apply_queued-Committed R T b w calm na j r t =
      After-read_beside _ (Restored R) (Recoverable R T) (list_visible scanner digest) _ _ w calm
        (inr (record { not_applying = na; whole = inl r }))
        (λ s. record { not_applying = na; restored = r })
        (λ view s _ calm.
          After-write_beside _ (Restored R) (Recoverable R T) _ _ _ _ calm
            (inr (record { not_applying = na; whole = inl r }))
            (λ s. record { not_applying = na; restored = r })
            (λ s calm.
              After-write_beside _ (Restored R) (Recoverable R T) _ _ _ _ calm
                (inr (record { not_applying = na; whole = inl r }))
                (λ s. record { not_applying = na; restored = r })
                (λ s calm. After-set_entries _ (Restored R) (Recoverable R T) [] _ _ (
                  After-bind (λ _. Resolved T) _ (Restored R) (Recoverable R T)
                    (handle (resolve_all scanner digest (record b { status = status_applying }))
                      (fail (record b { status = status_applying })))
                    _ _
                    (After-handle_calm _ (Failing R) (Restored R) (Recoverable R T)
                      (resolve_all scanner digest (record b { status = status_applying }))
                      (fail (record b { status = status_applying })) _
                      (set_entries-IsCalm [] _ _ calm)
                      (resolve_all-Resolved w.disk.local_bundles R T
                        (record b { status = status_applying }) _
                        (record {
                          undoable = record {
                            applying = true_of_eq status_applying status_applying refl;
                            journaled = ap journal_entries j;
                            undone = r;
                          };
                          bundles = refl;
                          leads = t;
                        }))
                      (λ c v h n.
                        fail-Restored _ R T (record b { status = status_applying }) c v n h))
                    (λ applied v h.
                      After-bind (λ c u. Committed T c u) _ (Restored R) (Recoverable R T)
                        clear_after_commit _ v (clear_after_commit-Committed R T (Restored R) v h)
                        (λ c u k. k))))))

  apply_found-Committed :
      (p : Option ResolutionBatch) (w : World)
      → w.disk.pending ≡ p
      → IsCalm (attempted_found p w)
      → is_applying w.disk.pending ≡ false
      → w.disk.journal ≡ none
      → After
          (λ r. Committed (target w.disk) r.1)
          (Restored w.disk.repo)
          (Recoverable w.disk.repo (target w.disk))
          (apply_found scanner digest p w)
  unfolding apply_batch
  apply_found-Committed none w e calm na j = record {
    not_applying = na;
    whole = rw e refl;
    is_cleared = inr j;
  }
  apply_found-Committed (some b) w e calm na j = elim (Bool-cases (b.status == status_queued)) [
    | inl q ↦ rw q (
        apply_queued-Committed w.disk.repo (target w.disk) b w (rw q at calm) na j refl (rw e refl))
    | inr q ↦ rw q (record { not_applying = na; restored = refl })
  ]

  pub apply_pending_batch-Committed :
      (w : World)
      → IsCalm (attempted_batch w)
      → is_applying w.disk.pending ≡ false
      → w.disk.journal ≡ none
      → After
          (λ r. Committed (target w.disk) r.1)
          (Restored w.disk.repo)
          (Recoverable w.disk.repo (target w.disk))
          (apply_pending_batch scanner digest w)
  unfolding apply_pending_batch
  apply_pending_batch-Committed w calm na j =
      After-read_beside _ (Restored w.disk.repo) (Recoverable w.disk.repo (target w.disk))
        (λ d. ok d.pending) (apply_found scanner digest) attempted_found w calm
        (inr (record { not_applying = na; whole = inl refl }))
        (λ s. record { not_applying = na; restored = refl })
        (λ p s e calm.
          subst
            (λ (q : Option ResolutionBatch).
              After (λ r. Committed (target w.disk) r.1) (Restored w.disk.repo)
                (Recoverable w.disk.repo (target w.disk))
                (apply_found scanner digest q (record w { script = s })))
            (read_pending e)
            (apply_found-Committed w.disk.pending (record w { script = s }) refl
              (subst
                (λ (q : Option ResolutionBatch).
                  IsCalm (attempted_found q (record w { script = s })))
                (sym (read_pending e)) calm)
              na j))
