-- ===== src/Conflict/Effect/Steps.antt =====
-- Rules for an operation with the program that follows, from `Rules`.
use sync_hub_for_agents.Base.{◌≡◌, refl, Bool, true, false, List}
use sync_hub_for_agents.Base.{if◌then◌else◌}
use sync_hub_for_agents.Base.Result.{Result}
use sync_hub_for_agents.Conflict.Model.{Disk, Cause, TransactionEntry}
use sync_hub_for_agents.Conflict.Effect.{
  Outcome, World, Program, ◌>>=◌, write, read, from_result, attempt, return, throw, get_entries,
  set_entries,
}
use sync_hub_for_agents.Conflict.Effect.Rules.{
  no_failure, After, After-bind, After-write, After-attempt, After-read,
}

-- The same for an operation with the program that follows.
module _ {B : Type 0} (Q : B → World → Type 0) (F : World → Type 0) (C : Disk → Type 0) where
  pub After-write_then :
      (f : Disk → Disk) (k : Unit {0} → Program B) (w : World)
      → no_failure w.script ≡ true
      → C w.disk
      → ((s : List Outcome)
          → no_failure s ≡ true
          → After Q F C (k tt (record w { disk = f w.disk; script = s })))
      → After Q F C ((write f >>= k) w)
  After-write_then f k w n c rest =
      After-bind (λ u v. After Q F C (k u v)) Q F C (write f) k w
        (After-write F C (λ u v. After Q F C (k u v)) f w n c rest) (λ u v h. h)

  pub After-attempt_then :
      (f : Disk → Disk) (k : Bool → Program B) (w : World)
      → no_failure w.script ≡ true
      → C w.disk
      → ((s : List Outcome)
          → no_failure s ≡ true
          → After Q F C (k true (record w { disk = f w.disk; script = s })))
      → After Q F C ((attempt (write f) >>= k) w)
  After-attempt_then f k w n c rest =
      After-bind (λ b v. After Q F C (k b v)) Q F C (attempt (write f)) k w
        (After-attempt F C (λ b v. After Q F C (k b v)) f w n c rest) (λ b v h. h)

  pub After-read_then :
      {A : Type 0} (f : Disk → Result Cause A) (k : A → Program B) (w : World)
      → no_failure w.script ≡ true
      → C w.disk
      → ((s : List Outcome)
          → no_failure s ≡ true
          → After
              (λ a v. After Q F C (k a v))
              F
              C
              (from_result (f w.disk), record w { script = s }))
      → After Q F C ((read f >>= k) w)
  After-read_then f k w n c rest =
      After-bind (λ a v. After Q F C (k a v)) Q F C (read f) k w
        (After-read F C (λ a v. After Q F C (k a v)) f w n c rest) (λ a v h. h)

  -- The variable of the journal is read and written at once.
  pub After-get_entries :
      (k : List TransactionEntry → Program B) (w : World)
      → After Q F C (k w.entries w)
      → After Q F C ((get_entries >>= k) w)
  unfolding ◌>>=◌
  After-get_entries k w h = h

  pub After-set_entries :
      (es : List TransactionEntry) (k : Unit {0} → Program B) (w : World)
      → After Q F C (k tt (record w { entries = es }))
      → After Q F C ((set_entries es >>= k) w)
  unfolding ◌>>=◌
  After-set_entries es k w h = h

  -- An error value that is checked.
  pub After-checked :
      (b : Bool) (c : Cause) (k : Unit {0} → Program B) (w : World)
      → b ≡ true
      → After Q F C (k tt w)
      → After Q F C (((if b then return tt else throw c) >>= k) w)
  unfolding ◌>>=◌
  After-checked true c k w b h = h
  After-checked false c k w b h = cc

  -- A condition on which the program goes on.
  pub After-guard :
      (b : Bool) (c : Cause) (k : Unit {0} → Program B) (w : World)
      → F w
      → After Q F C (k tt w)
      → After Q F C (((if b then return tt else throw c) >>= k) w)
  unfolding ◌>>=◌
  After-guard true c k w f h = h
  After-guard false c k w f h = f

  -- A read whose answer is used.
  pub After-read_result :
      {A : Type 0} (f : Disk → Result Cause A) (k : A → Program B) (w : World)
      → no_failure w.script ≡ true
      → C w.disk
      → ((s : List Outcome) → no_failure s ≡ true → F (record w { script = s }))
      → ((a : A) (s : List Outcome)
          → f w.disk ≡ Result.ok a
          → no_failure s ≡ true
          → After Q F C (k a (record w { script = s })))
      → After Q F C ((read f >>= k) w)
  After-read_result {A} f k w n c bad good =
      After-read_then f k w n c (λ s n'. by_result s n' (f w.disk) refl)
    where
      by_result :
          (s : List Outcome)
          → no_failure s ≡ true
          → (r : Result Cause A) → f w.disk ≡ r
          → After (λ a v. After Q F C (k a v)) F C (from_result r, record w { script = s })
      by_result s n (Result.ok a) e = good a s e n
      by_result s n (Result.err x) e = bad s n

  -- A result that is returned at once.
  pub After-return :
      {A : Type 0} (a : A) (k : A → Program B) (w : World)
      → After Q F C (k a w)
      → After Q F C ((return a >>= k) w)
  unfolding ◌>>=◌
  After-return a k w h = h

  -- A condition that the rest relies on.
  pub After-guard_known :
      (b : Bool) (c : Cause) (k : Unit {0} → Program B) (w : World)
      → F w
      → (b ≡ true → After Q F C (k tt w))
      → After Q F C (((if b then return tt else throw c) >>= k) w)
  unfolding ◌>>=◌
  After-guard_known true c k w f h = h refl
  After-guard_known false c k w f h = f
