-- ===== src/Conflict/Effect/Failing.antt =====
-- Rules for what holds after a program when operations may fail: as often as they like, at most once,
-- or no longer.
use sync_hub_for_agents.Base.{◌≡◌, refl, Bool, true, false, List, [], ◌∷◌}
use sync_hub_for_agents.Base.Result.{Result}
use sync_hub_for_agents.Conflict.Model.{Disk, Cause, TransactionEntry}
use sync_hub_for_agents.Conflict.Effect.{
  Outcome, works, fails, stops, World, Program, ◌>>=◌, write, read, from_result, attempt,
}
use sync_hub_for_agents.Conflict.Effect.Rules.{no_failure, After, After-bind}

-- `P` holds of the answers to come while operations work, and `P'` from a failure on.
pub record Allows (P P' : List Outcome → Type 0) : Type 0 where
  pub at_end : P []
  pub on_works : (os : List Outcome) → P (works ∷ os) → P os
  pub on_fails : (os : List Outcome) → P (fails ∷ os) → P' os

abbrev pub NoFailure : List Outcome → Type 0
NoFailure os = no_failure os ≡ true

-- At most one operation of the script fails.
abbrev pub fails_once : List Outcome → Bool
fails_once [] = true
fails_once (works ∷ os) = fails_once os
fails_once (fails ∷ os) = no_failure os
fails_once (stops ∷ os) = fails_once os

abbrev pub OneFailure : List Outcome → Type 0
OneFailure os = fails_once os ≡ true

abbrev pub AnyAnswers : List Outcome → Type 0
AnyAnswers os = Unit

pub one_failure : Allows OneFailure NoFailure
one_failure = record { at_end = refl; on_works = λ os h. h; on_fails = λ os h. h }

pub no_more : Allows NoFailure (λ _. ⊥)
no_more = record { at_end = refl; on_works = λ os h. h; on_fails = λ os h. cc }

pub any_failures : Allows AnyAnswers AnyAnswers
any_failures = record { at_end = tt; on_works = λ os h. tt; on_fails = λ os h. tt }

module _ {P P' : List Outcome → Type 0} (a : Allows P P') where
  -- One write, at the end of a program
  pub After-end_write :
      (Q : Unit {0} → World → Type 0) (F : World → Type 0) (C : Disk → Type 0) (f : Disk → Disk)
      (w : World)
      → P w.script
      → C w.disk
      → ((s : List Outcome) → P' s → F (record w { script = s }))
      → ((s : List Outcome) → P s → Q tt (record w { disk = f w.disk; script = s }))
      → After Q F C (write f w)
  unfolding write
  After-end_write Q F C f w = write_by w.disk w.script w.entries
    where
      write_by :
          (d : Disk) (os : List Outcome) (es : List TransactionEntry)
          → P os
          → C d
          → ((s : List Outcome) → P' s → F (record { disk = d; script = s; entries = es }))
          → ((s : List Outcome) → P s → Q tt (record { disk = f d; script = s; entries = es }))
          → After Q F C (write f (record { disk = d; script = os; entries = es }))
      write_by d [] es p c bad good = good [] a.at_end
      write_by d (works ∷ os) es p c bad good = good os (a.on_works os p)
      write_by d (fails ∷ os) es p c bad good = bad os (a.on_fails os p)
      write_by d (stops ∷ os) es p c bad good = c

  end_attempt :
      (Q : Bool → World → Type 0) (F : World → Type 0) (C : Disk → Type 0) (f : Disk → Disk)
      (w : World)
      → P w.script
      → C w.disk
      → ((s : List Outcome) → P' s → Q false (record w { script = s }))
      → ((s : List Outcome) → P s → Q true (record w { disk = f w.disk; script = s }))
      → After Q F C (attempt (write f) w)
  unfolding write attempt
  end_attempt Q F C f w = attempt_by w.disk w.script w.entries
    where
      attempt_by :
          (d : Disk) (os : List Outcome) (es : List TransactionEntry)
          → P os
          → C d
          → ((s : List Outcome) → P' s → Q false (record { disk = d; script = s; entries = es }))
          → ((s : List Outcome) → P s → Q true (record { disk = f d; script = s; entries = es }))
          → After Q F C (attempt (write f) (record { disk = d; script = os; entries = es }))
      attempt_by d [] es p c bad good = good [] a.at_end
      attempt_by d (works ∷ os) es p c bad good = good os (a.on_works os p)
      attempt_by d (fails ∷ os) es p c bad good = bad os (a.on_fails os p)
      attempt_by d (stops ∷ os) es p c bad good = c

  end_read :
      {A : Type 0} (Q : A → World → Type 0) (F : World → Type 0) (C : Disk → Type 0)
      (f : Disk → Result Cause A) (w : World)
      → P w.script
      → C w.disk
      → ((s : List Outcome) → F (record w { script = s }))
      → ((x : A) (s : List Outcome) → f w.disk ≡ Result.ok x → P s → Q x (record w { script = s }))
      → After Q F C (read f w)
  unfolding read
  end_read {A} Q F C f w = read_by w.disk w.script w.entries
    where
      by_result :
          (d : Disk) (s : List Outcome) (es : List TransactionEntry) (r : Result Cause A)
          → f d ≡ r
          → P s
          → F (record { disk = d; script = s; entries = es })
          → ((x : A) (s : List Outcome)
              → f d ≡ Result.ok x
              → P s
              → Q x (record { disk = d; script = s; entries = es }))
          → After Q F C (from_result r, record { disk = d; script = s; entries = es })
      by_result d s es (Result.ok x) e p bad good = good x s e p
      by_result d s es (Result.err c) e p bad good = bad

      read_by :
          (d : Disk) (os : List Outcome) (es : List TransactionEntry)
          → P os
          → C d
          → ((s : List Outcome) → F (record { disk = d; script = s; entries = es }))
          → ((x : A) (s : List Outcome)
              → f d ≡ Result.ok x
              → P s
              → Q x (record { disk = d; script = s; entries = es }))
          → After Q F C (read f (record { disk = d; script = os; entries = es }))
      read_by d [] es p c bad good = by_result d [] es (f d) refl a.at_end (bad []) good
      read_by d (works ∷ os) es p c bad good =
          by_result d os es (f d) refl (a.on_works os p) (bad os) good
      read_by d (fails ∷ os) es p c bad good = bad os
      read_by d (stops ∷ os) es p c bad good = c

  module _ {B : Type 0} (Q : B → World → Type 0) (F : World → Type 0) (C : Disk → Type 0) where
    -- An operation with the program that follows
    pub After-tried_write :
        (f : Disk → Disk) (k : Unit {0} → Program B) (w : World)
        → P w.script
        → C w.disk
        → ((s : List Outcome) → P' s → F (record w { script = s }))
        → ((s : List Outcome) → P s → After Q F C (k tt (record w { disk = f w.disk; script = s })))
        → After Q F C ((write f >>= k) w)
    After-tried_write f k w p c bad good =
        After-bind (λ u v. After Q F C (k u v)) Q F C (write f) k w
          (After-end_write (λ u v. After Q F C (k u v)) F C f w p c bad good) (λ u v h. h)

    pub After-tried_attempt :
        (f : Disk → Disk) (k : Bool → Program B) (w : World)
        → P w.script
        → C w.disk
        → ((s : List Outcome) → P' s → After Q F C (k false (record w { script = s })))
        → ((s : List Outcome)
            → P s
            → After Q F C (k true (record w { disk = f w.disk; script = s })))
        → After Q F C ((attempt (write f) >>= k) w)
    After-tried_attempt f k w p c bad good =
        After-bind (λ b v. After Q F C (k b v)) Q F C (attempt (write f)) k w
          (end_attempt (λ b v. After Q F C (k b v)) F C f w p c bad good) (λ b v h. h)

    pub After-tried_read :
        {A : Type 0} (f : Disk → Result Cause A) (k : A → Program B) (w : World)
        → P w.script
        → C w.disk
        → ((s : List Outcome) → F (record w { script = s }))
        → ((x : A) (s : List Outcome)
            → f w.disk ≡ Result.ok x
            → P s
            → After Q F C (k x (record w { script = s })))
        → After Q F C ((read f >>= k) w)
    After-tried_read f k w p c bad good =
        After-bind (λ x v. After Q F C (k x v)) Q F C (read f) k w
          (end_read (λ x v. After Q F C (k x v)) F C f w p c bad good) (λ x v h. h)
