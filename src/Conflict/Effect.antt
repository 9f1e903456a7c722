-- ===== src/Conflict/Effect.antt =====
-- Programs over the files in which any single operation may fail, or be the last one before the
-- process stops.
pub mod Rules
pub mod Steps
pub mod Failing
pub mod Beside
use sync_hub_for_agents.Base.{ℕ, ◌≡◌, refl, Bool, true, false, List, [], ◌∷◌, ◌&&◌, arith}
use sync_hub_for_agents.Base.Result.{Result}
use sync_hub_for_agents.Conflict.Model.{Disk, Cause, io_error, TransactionEntry}

-- How the operating system answers an operation.
pub data Outcome : Type 0 where
  works : Outcome
  fails : Outcome
  stops : Outcome

-- `script` holds the answers to come; past its end all operations work. `entries` is the variable
-- `journal.Entries` of `ApplyPendingBatch`.
pub record World : Type 0 where
  pub disk : Disk
  pub script : List Outcome
  pub entries : List TransactionEntry

pub data Run (A : Type 0) : Type 0 where
  done : A → Run A
  failed : Cause → Run A
  stopped : Run A

abbrev pub Program : Type 0 → Type 0
Program A = World → Run A × World

infixl 5 ◌>>=◌ ◌>>◌
unfoldable pub ◌>>=◌ : {A B : Type 0} → Program A → (A → Program B) → Program B
◌>>=◌ m k w =
    let (r, w') = m w in
    elim r [ done a ↦ k a w' | failed c ↦ (failed c, w') | stopped ↦ (stopped, w') ]

abbrev pub ◌>>◌ : {A B : Type 0} → Program A → Program B → Program B
m >> k = m >>= λ _. k

abbrev pub return : {A : Type 0} → A → Program A
return a w = (done a, w)

abbrev pub throw : {A : Type 0} → Cause → Program A
throw c w = (failed c, w)

abbrev answer : List Outcome → Outcome
answer [] = works
answer (o ∷ _) = o

abbrev later : List Outcome → List Outcome
later [] = []
later (_ ∷ os) = os

-- One operation that changes the files.
unfoldable pub write : (Disk → Disk) → Program (Unit {0})
write f w =
    let w' = record w { script = later w.script } in
    elim (answer w.script) [
      | works ↦ (done tt, record w' { disk = f w.disk })
      | fails ↦ (failed io_error, w')
      | stops ↦ (stopped, w')
    ]

abbrev pub from_result : {A : Type 0} → Result Cause A → Run A
from_result (Result.ok a) = done a
from_result (Result.err c) = failed c

-- One operation that reads them.
unfoldable pub read : {A : Type 0} → (Disk → Result Cause A) → Program A
read f w =
    let w' = record w { script = later w.script } in
    elim (answer w.script) [
      | works ↦ (from_result (f w.disk), w')
      | fails ↦ (failed io_error, w')
      | stops ↦ (stopped, w')
    ]

-- The variable of the journal.
abbrev pub set_entries : List TransactionEntry → Program (Unit {0})
set_entries es w = (done tt, record w { entries = es })

abbrev pub get_entries : Program (List TransactionEntry)
get_entries w = (done w.entries, w)

-- An error is a value: `false`.
unfoldable pub attempt : Program (Unit {0}) → Program Bool
attempt m w =
    let (r, w') = m w in
    elim r [ done _ ↦ (done true, w') | failed _ ↦ (done false, w') | stopped ↦ (stopped, w') ]

-- What is done on an error.
unfoldable pub handle : {A : Type 0} → Program A → (Cause → Program A) → Program A
handle m h w =
    let (r, w') = m w in
    elim r [ done a ↦ (done a, w') | failed c ↦ h c w' | stopped ↦ (stopped, w') ]
