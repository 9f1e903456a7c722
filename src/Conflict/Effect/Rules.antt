-- ===== src/Conflict/Effect/Rules.antt =====
-- Rules for what holds after a program, on each of its three ends, when no operation fails but the
-- process may stop at any of them.
use sync_hub_for_agents.Base.{◌≡◌, refl, Bool, true, false, List, [], ◌∷◌}
use sync_hub_for_agents.Base.Result.{Result}
use sync_hub_for_agents.Conflict.Model.{Disk, Cause, TransactionEntry}
use sync_hub_for_agents.Conflict.Effect.{
  Outcome, works, fails, stops, World, Run, done, failed, stopped, Program, ◌>>=◌, write, read,
  from_result, attempt, handle,
}

-- No operation of the script fails.
abbrev pub no_failure : List Outcome → Bool
no_failure [] = true
no_failure (works ∷ os) = no_failure os
no_failure (fails ∷ os) = false
no_failure (stops ∷ os) = no_failure os

module _ {A : Type 0} (Q : A → World → Type 0) (F : World → Type 0) (C : Disk → Type 0) where
  -- `Q` holds after a result, `F` after an error, and `C` of the files after a stop.
  abbrev pub After : Run A × World → Type 0
  After (done a, w) = Q a w
  After (failed c, w) = F w
  After (stopped, w) = C w.disk

pub After-bind :
    {A B : Type 0} (P : A → World → Type 0) (Q : B → World → Type 0) (F : World → Type 0)
    (C : Disk → Type 0) (m : Program A) (k : A → Program B) (w : World)
    → After P F C (m w)
    → ((a : A) (v : World) → P a v → After Q F C (k a v))
    → After Q F C ((m >>= k) w)
unfolding ◌>>=◌
After-bind {A} {B} P Q F C m k w h rest = by_end (m w) h
  where
    by_end :
        (r : Run A × World)
        → After P F C r
        → After Q F C (
            let (e, v) = r in
            elim e [ done a ↦ k a v | failed c ↦ (failed c, v) | stopped ↦ (stopped, v) ])
    by_end (done a, v) h = rest a v h
    by_end (failed c, v) h = h
    by_end (stopped, v) h = h

module _ (F : World → Type 0) (C : Disk → Type 0) where
  After-write_by :
      (Q : Unit {0} → World → Type 0) (f : Disk → Disk) (d : Disk) (os : List Outcome)
      (es : List TransactionEntry)
      → no_failure os ≡ true
      → C d
      → ((s : List Outcome)
          → no_failure s ≡ true
          → Q tt (record { disk = f d; script = s; entries = es }))
      → After Q F C (write f (record { disk = d; script = os; entries = es }))
  unfolding write
  After-write_by Q f d [] es n c q = q [] refl
  After-write_by Q f d (works ∷ os) es n c q = q os n
  After-write_by Q f d (fails ∷ os) es n c q = cc
  After-write_by Q f d (stops ∷ os) es n c q = c

  After-read_by :
      {A : Type 0} (Q : A → World → Type 0) (f : Disk → Result Cause A) (d : Disk)
      (os : List Outcome) (es : List TransactionEntry)
      → no_failure os ≡ true
      → C d
      → ((s : List Outcome)
          → no_failure s ≡ true
          → After Q F C (from_result (f d), record { disk = d; script = s; entries = es }))
      → After Q F C (read f (record { disk = d; script = os; entries = es }))
  unfolding read
  After-read_by Q f d [] es n c q = q [] refl
  After-read_by Q f d (works ∷ os) es n c q = q os n
  After-read_by Q f d (fails ∷ os) es n c q = cc
  After-read_by Q f d (stops ∷ os) es n c q = c

  pub After-write :
      (Q : Unit {0} → World → Type 0) (f : Disk → Disk) (w : World)
      → no_failure w.script ≡ true
      → C w.disk
      → ((s : List Outcome) → no_failure s ≡ true → Q tt (record w { disk = f w.disk; script = s }))
      → After Q F C (write f w)
  After-write Q f w = After-write_by Q f w.disk w.script w.entries

  pub After-read :
      {A : Type 0} (Q : A → World → Type 0) (f : Disk → Result Cause A) (w : World)
      → no_failure w.script ≡ true
      → C w.disk
      → ((s : List Outcome)
          → no_failure s ≡ true
          → After Q F C (from_result (f w.disk), record w { script = s }))
      → After Q F C (read f w)
  After-read Q f w = After-read_by Q f w.disk w.script w.entries

  -- A write as one of several that are tried: it is not refused.
  pub After-attempt :
      (Q : Bool → World → Type 0) (f : Disk → Disk) (w : World)
      → no_failure w.script ≡ true
      → C w.disk
      → ((s : List Outcome)
          → no_failure s ≡ true
          → Q true (record w { disk = f w.disk; script = s }))
      → After Q F C (attempt (write f) w)
  unfolding write attempt
  After-attempt Q f w = attempt_by Q f w.disk w.script w.entries
    where
      attempt_by :
          (Q : Bool → World → Type 0) (f : Disk → Disk) (d : Disk) (os : List Outcome)
          (es : List TransactionEntry)
          → no_failure os ≡ true
          → C d
          → ((s : List Outcome)
              → no_failure s ≡ true
              → Q true (record { disk = f d; script = s; entries = es }))
          → After Q F C (attempt (write f) (record { disk = d; script = os; entries = es }))
      attempt_by Q f d [] es n c q = q [] refl
      attempt_by Q f d (works ∷ os) es n c q = q os n
      attempt_by Q f d (fails ∷ os) es n c q = cc
      attempt_by Q f d (stops ∷ os) es n c q = c

-- What holds after a program may be weakened.
pub After-weaken :
    {A : Type 0} (P Q : A → World → Type 0) (E F : World → Type 0) (C : Disk → Type 0)
    (r : Run A × World)
    → ((a : A) (v : World) → P a v → Q a v)
    → ((v : World) → E v → F v)
    → After P E C r
    → After Q F C r
After-weaken P Q E F C (done a, v) f g h = f a v h
After-weaken P Q E F C (failed c, v) f g h = g v h
After-weaken P Q E F C (stopped, v) f g h = h

pub After-handle :
    {A : Type 0} (Q : A → World → Type 0) (E F : World → Type 0) (C : Disk → Type 0) (m : Program A)
    (h : Cause → Program A) (w : World)
    → After Q E C (m w)
    → ((c : Cause) (v : World) → E v → After Q F C (h c v))
    → After Q F C (handle m h w)
unfolding handle
After-handle {A} Q E F C m h w end repair = by_end (m w) end
  where
    by_end :
        (r : Run A × World)
        → After Q E C r
        → After Q F C (
            let (e, v) = r in
            elim e [ done a ↦ (done a, v) | failed c ↦ h c v | stopped ↦ (stopped, v) ])
    by_end (done a, v) end = end
    by_end (failed c, v) end = repair c v end
    by_end (stopped, v) end = end
