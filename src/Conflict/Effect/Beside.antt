-- ===== src/Conflict/Effect/Beside.antt =====
-- Rules for a program under any answers, which follow a second program that does the same operations
-- first, such as the program without what it does after an error.
use sync_hub_for_agents.Base.{◌≡◌, refl, true, List, [], ◌∷◌}
use sync_hub_for_agents.Base.Result.{Result, ok, err}
use sync_hub_for_agents.Conflict.Model.{Disk, Cause, TransactionEntry}
use sync_hub_for_agents.Conflict.Effect.{
  Outcome, works, fails, stops, World, Run, done, failed, stopped, Program, ◌>>=◌, write, read,
  from_result, handle, set_entries,
}
use sync_hub_for_agents.Conflict.Effect.Rules.{no_failure, After}

-- The answers that are left when a program gives an error
abbrev pub after_error : {A : Type 0} → Run A × World → List Outcome
after_error (done a, w) = []
after_error (failed c, w) = w.script
after_error (stopped, w) = []

abbrev pub IsCalm : {A : Type 0} → Run A × World → Type 0
IsCalm r = no_failure (after_error r) ≡ true

pub After-handle_calm :
    {A : Type 0} (Q : A → World → Type 0) (E F : World → Type 0) (C : Disk → Type 0) (m : Program A)
    (h : Cause → Program A) (w : World)
    → IsCalm (m w)
    → After Q E C (m w)
    → ((c : Cause) (v : World) → E v → no_failure v.script ≡ true → After Q F C (h c v))
    → After Q F C (handle m h w)
unfolding handle
After-handle_calm {A} Q E F C m h w calm end repair = by_end (m w) calm end
  where
    by_end :
        (r : Run A × World)
        → IsCalm r
        → After Q E C r
        → After Q F C (
            let (e, v) = r in
            elim e [ done a ↦ (done a, v) | failed c ↦ h c v | stopped ↦ (stopped, v) ])
    by_end (done a, v) calm end = end
    by_end (failed c, v) calm end = repair c v end calm
    by_end (stopped, v) calm end = end

pub set_entries-IsCalm :
    {D : Type 0} (es : List TransactionEntry) (k : Unit {0} → Program D) (w : World)
    → IsCalm ((set_entries es >>= k) w)
    → IsCalm (k tt (record w { entries = es }))
unfolding ◌>>=◌
set_entries-IsCalm es k w calm = calm

module _ {B D : Type 0} (Q : B → World → Type 0) (F : World → Type 0) (C : Disk → Type 0) where
  pub After-write_beside :
      (f : Disk → Disk) (k : Unit {0} → Program B) (k' : Unit {0} → Program D) (w : World)
      → IsCalm ((write f >>= k') w)
      → C w.disk
      → ((s : List Outcome) → F (record w { script = s }))
      → ((s : List Outcome)
          → IsCalm (k' tt (record w { disk = f w.disk; script = s }))
          → After Q F C (k tt (record w { disk = f w.disk; script = s })))
      → After Q F C ((write f >>= k) w)
  unfolding write ◌>>=◌
  After-write_beside f k k' w = by_answer w.disk w.script w.entries
    where
      by_answer :
          (d : Disk) (os : List Outcome) (es : List TransactionEntry)
          → IsCalm ((write f >>= k') (record { disk = d; script = os; entries = es }))
          → C d
          → ((s : List Outcome) → F (record { disk = d; script = s; entries = es }))
          → ((s : List Outcome)
              → IsCalm (k' tt (record { disk = f d; script = s; entries = es }))
              → After Q F C (k tt (record { disk = f d; script = s; entries = es })))
          → After Q F C ((write f >>= k) (record { disk = d; script = os; entries = es }))
      by_answer d [] es calm c bad good = good [] calm
      by_answer d (works ∷ os) es calm c bad good = good os calm
      by_answer d (fails ∷ os) es calm c bad good = bad os
      by_answer d (stops ∷ os) es calm c bad good = c

  pub After-read_beside :
      {A : Type 0} (f : Disk → Result Cause A) (k : A → Program B) (k' : A → Program D) (w : World)
      → IsCalm ((read f >>= k') w)
      → C w.disk
      → ((s : List Outcome) → F (record w { script = s }))
      → ((a : A) (s : List Outcome)
          → f w.disk ≡ ok a
          → IsCalm (k' a (record w { script = s }))
          → After Q F C (k a (record w { script = s })))
      → After Q F C ((read f >>= k) w)
  unfolding read ◌>>=◌
  After-read_beside {A} f k k' w = by_answer w.disk w.script w.entries
    where
      by_result :
          (r : Result Cause A) (v : World)
          → IsCalm (((λ (u : World). (from_result r, u)) >>= k') v)
          → F v
          → ((a : A) → r ≡ ok a → IsCalm (k' a v) → After Q F C (k a v))
          → After Q F C (((λ (u : World). (from_result r, u)) >>= k) v)
      by_result (ok a) v calm bad good = good a refl calm
      by_result (err c) v calm bad good = bad

      by_answer :
          (d : Disk) (os : List Outcome) (es : List TransactionEntry)
          → IsCalm ((read f >>= k') (record { disk = d; script = os; entries = es }))
          → C d
          → ((s : List Outcome) → F (record { disk = d; script = s; entries = es }))
          → ((a : A) (s : List Outcome)
              → f d ≡ ok a
              → IsCalm (k' a (record { disk = d; script = s; entries = es }))
              → After Q F C (k a (record { disk = d; script = s; entries = es })))
          → After Q F C ((read f >>= k) (record { disk = d; script = os; entries = es }))
      by_answer d [] es calm c bad good = by_result (f d) _ calm (bad []) (λ a. good a [])
      by_answer d (works ∷ os) es calm c bad good = by_result (f d) _ calm (bad os) (λ a. good a os)
      by_answer d (fails ∷ os) es calm c bad good = bad os
      by_answer d (stops ∷ os) es calm c bad good = c
