-- ===== src/Conflict/Queue/Stored.antt =====
-- What `QueueBatch` has done when it returns, on each of its ends.
use sync_hub_for_agents.Base.{
  ℕ, ◌≡◌, refl, ap, ◌∙◌, Bool, true, Option, none, some, List, [], arith,
}
use sync_hub_for_agents.Base.{◌==◌, nat_eq, length, eq_of_true}
use sync_hub_for_agents.Base.Text.{Text, text_eq}
use sync_hub_for_agents.Base.Result.{Result, ok, err}
use sync_hub_for_agents.Conflict.Model.{
  Record, Bundle, ResolutionSelection, ResolutionBatch, VisibleConflict, Disk, Cause, status_queued,
  not_all_selected,
}
use sync_hub_for_agents.Conflict.Effect.{World, Program, ◌>>=◌}
use sync_hub_for_agents.Conflict.Effect.Rules.{no_failure, After}
use sync_hub_for_agents.Conflict.Effect.Steps.{
  After-guard_known, After-read_result, After-write_then, After-attempt_then, After-read_then,
}
use sync_hub_for_agents.Conflict.Transaction.{list_visible}
use sync_hub_for_agents.Conflict.Queue.{
  check_selections, queue_batch, store_batch, queued_batch, lift, sort_selections,
}
use sync_hub_for_agents.Conflict.Queue.Complete.{
  all_current, all_selected, checked_selected, check_selections-current,
  all_current-sort_selections,
}

After-lift :
    {B : Type 0} (Q : B → World → Type 0) (F : World → Type 0) (C : Disk → Type 0)
    (r : Result Cause (Unit {0})) (k : Unit {0} → Program B) (w : World)
    → F w
    → (r ≡ ok tt → After Q F C (k tt w))
    → After Q F C ((lift r >>= k) w)
unfolding ◌>>=◌
After-lift Q F C (ok tt) k w f h = h refl
After-lift Q F C (err c) k w f h = f

-- The batch is stored, no other was, and it chooses for each visible conflict, at the revision that
-- is visible.
pub record IsQueued (listed : Result Cause (List VisibleConflict)) (before : Disk)
    (b : ResolutionBatch) (after : World) : Type 0 where
  pub view : List VisibleConflict
  pub shown : listed ≡ ok view
  pub was_idle : before.pending ≡ none
  pub stored : after.disk.pending ≡ some b
  pub queued : b.status ≡ status_queued
  pub current : all_current view b.selections ≡ true
  pub selected : all_selected b.selections view ≡ true

-- The canonical files and the journal are as before.
pub record IsAside (before after : Disk) : Type 0 where
  pub repo : after.repo ≡ before.repo
  pub journal : after.journal ≡ before.journal

module _ (scanner : Option (Record → Text → Text → Bool)) (digest : Bundle → Text)
    (hash : List ResolutionSelection → Text) (now : ℕ) where
  store_batch-IsQueued :
      (before : Disk) (view : List VisibleConflict) (sels : List ResolutionSelection)
      (p : Option ResolutionBatch) (w : World)
      → w.disk ≡ before
      → before.pending ≡ p
      → no_failure w.script ≡ true
      → list_visible scanner digest before ≡ ok view
      → all_current view (sort_selections sels) ≡ true
      → all_selected (sort_selections sels) view ≡ true
      → After
          (IsQueued (list_visible scanner digest before) before)
          (λ v. v.disk ≡ before)
          (IsAside before)
          (store_batch scanner digest hash now
            (queued_batch scanner digest hash now (sort_selections sels))
            p
            w)
  unfolding store_batch
  store_batch-IsQueued before view sels (some b) w d e n l c s = d
  store_batch-IsQueued before view sels none w d e n l c s =
      After-write_then _ (λ v. v.disk ≡ before) (IsAside before) _ _ w n
        (record { repo = ap (λ x. x.repo) d; journal = ap (λ x. x.journal) d })
        (λ o n.
          After-attempt_then _ (λ v. v.disk ≡ before) (IsAside before) _ _ _ n
            (record { repo = ap (λ x. x.repo) d; journal = ap (λ x. x.journal) d })
            (λ o n. record {
              view = view;
              shown = l;
              was_idle = e;
              stored = refl;
              queued = refl;
              current = c;
              selected = s;
            }))

  -- `QueueBatch`, when no operation on the files fails, though each may be the last before a stop:
  -- with a result, no batch was pending, the result is stored as queued, each of its selections is
  -- of a visible conflict at its visible revision, and each visible conflict is selected; with an
  -- error, no file has changed; and at a stop, no canonical file and no journal.
  pub queue_batch-IsQueued :
      (sels : List ResolutionSelection) (w : World)
      → no_failure w.script ≡ true
      → After
          (IsQueued (list_visible scanner digest w.disk) w.disk)
          (λ v. v.disk ≡ w.disk)
          (IsAside w.disk)
          (queue_batch scanner digest hash now sels w)
  unfolding queue_batch
  queue_batch-IsQueued sels w n =
      After-read_result _ (λ v. v.disk ≡ w.disk) (IsAside w.disk) (list_visible scanner digest) _ w
        n (record { repo = refl; journal = refl }) (λ s n. refl)
        (λ view s l n.
          After-guard_known _ (λ v. v.disk ≡ w.disk) (IsAside w.disk) (length sels == length view)
            not_all_selected _ _ refl
            (λ same.
              After-lift _ (λ v. v.disk ≡ w.disk) (IsAside w.disk)
                (check_selections scanner digest view [] sels) _ _ refl
                (λ checked.
                  After-read_then _ (λ v. v.disk ≡ w.disk) (IsAside w.disk) (λ d. ok d.pending) _ _
                    n (record { repo = refl; journal = refl })
                    (λ s n.
                      store_batch-IsQueued w.disk view sels w.disk.pending (record w { script = s })
                        refl refl n l
                        (all_current-sort_selections view sels
                          ∙ ground
                              (arith, check_selections-current scanner digest view [] sels checked))
                        (checked_selected scanner digest view sels
                          (eq_of_true (length sels) (length view) same) checked)))))
