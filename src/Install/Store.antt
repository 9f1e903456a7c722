-- ===== src/Install/Store.antt =====
-- internal/installplan/store.go: the three files of the store, and an account of the commands that
-- were run. Every operation on a file may fail.
pub mod Contents
use sync_hub_for_agents.Base.{Bool, true, false, not, ◌||◌, Option, none, some, List, [], ◌∷◌, ◌++◌}
use sync_hub_for_agents.Base.{◌==◌, nat_eq, option_eq, if◌then◌else◌}
use sync_hub_for_agents.Base.Text.{Text, text_eq}
use sync_hub_for_agents.Base.Dict.{Dict, lookup, insert}
use sync_hub_for_agents.Base.Result.{Result, ok, err, reject}
use sync_hub_for_agents.Base.Stateful.{Program, ◌>>=◌, ◌>>◌, return, lift}
use sync_hub_for_agents.Install.{
  Declaration, Operation, Plan, InstallError, store_failed, incomplete_identity,
  reject_shell_syntax, operation_identity,
}

-- What lies at a path of the store: nothing, what `json.Unmarshal` refuses, or a value.
pub data Stored (A : Type 0) : Type 0 where
  missing : Stored A
  damaged : Stored A
  holds : A → Stored A

-- `answers` says of each operation on the files to come whether it works; past its end all do.
-- `runs` has the operations whose command was run, the last one first, and `skill_manifest` the
-- declarations in the repository's manifest of skill dependencies, if it is there.
pub record World : Type 0 where
  pub pending : Stored Plan
  pub approvals : Stored (Dict Text Bool)
  pub applied : Stored (Dict Text Bool)
  pub answers : List Bool
  pub runs : List Operation
  pub skill_manifest : Option (List Declaration)

abbrev pub Step : Type 0 → Type 0
Step A = Program World InstallError A

abbrev first_answer : List Bool → Bool
first_answer [] = true
first_answer (a ∷ _) = a

abbrev other_answers : List Bool → List Bool
other_answers [] = []
other_answers (_ ∷ rest) = rest

-- The next operation on the files, if it works.
unfoldable pub next_answer : Step (Unit {0})
next_answer w = (
  if first_answer w.answers then ok tt else err store_failed,
  record w { answers = other_answers w.answers },
)

-- `readJSON`: `none` for a file that is not there
abbrev pub decoded : {A : Type 0} → Stored A → Result InstallError (Option A)
decoded missing = ok none
decoded damaged = err store_failed
decoded (holds a) = ok (some a)

unfoldable pub read_json : {A : Type 0} → (World → Stored A) → Step (Option A)
unfolding next_answer ◌>>=◌
read_json file = next_answer >> λ w. (decoded (file w), w)

-- `writeJSON`: the file is replaced as a whole, or stays.
unfoldable pub write_json : (World → World) → Step (Unit {0})
unfolding next_answer ◌>>=◌
write_json replace = next_answer >> λ w. (ok tt, replace w)

-- `SavePending`
unfoldable pub save_pending : Plan → Step (Unit {0})
unfolding write_json
save_pending plan = write_json (λ w. record w { pending = holds plan })

-- `Pending`
unfoldable pub load_pending : Step (Option Plan)
unfolding read_json
load_pending = read_json (λ w. w.pending)

-- `loadSet`: a file that is not there is an empty set.
unfoldable pub load_set : (World → Stored (Dict Text Bool)) → Step (Dict Text Bool)
unfolding read_json ◌>>=◌
load_set file = do found ← read_json file; return (elim found [ none ↦ [] | some values ↦ values ])

-- A key that is missing reads as false.
unfoldable pub in_set : Text → Dict Text Bool → Bool
in_set key values = elim (lookup key values) [ none ↦ false | some value ↦ value ]

-- `ClearPending`
unfoldable pub clear_pending : Text → Step (Unit {0})
unfolding read_json write_json ◌>>=◌
clear_pending id = do
  found ← read_json (λ w. w.pending)
  elim found [
    | none ↦ return tt
    | some plan ↦
        if plan.id == id then write_json (λ w. record w { pending = missing }) else return tt
  ]

abbrev pub with_applied : Stored (Dict Text Bool) → World → World
with_applied applied w = record w { applied = applied }

-- `sha256` and `hex`, of the bytes of a key.
module _ (digest : Text → Text) where
  -- `approvalKey`
  unfoldable pub approval_key : Operation → Text
  approval_key o = digest (o.adapter ++ (0 ∷ o.source))

  -- `appliedKey`
  unfoldable pub applied_key : Operation → Text
  unfolding operation_identity
  applied_key o = digest (operation_identity o)

  -- `Approve`
  unfoldable pub approve : Operation → Step (Unit {0})
  unfolding approval_key load_set write_json reject_shell_syntax ◌>>=◌
  approve o = do
    lift (reject (o.adapter == [] || o.source == []) incomplete_identity)
    lift (reject_shell_syntax o.source)
    approvals ← load_set (λ w. w.approvals)
    write_json (λ w. record w { approvals = holds (insert (approval_key o) true approvals) })

  -- `approvalStatus`
  unfoldable pub approval_status : Operation → Step Bool
  unfolding approval_key load_set in_set ◌>>=◌
  approval_status o = do
    approvals ← load_set (λ w. w.approvals)
    return (in_set (approval_key o) approvals)

  -- `MarkApplied`
  unfoldable pub mark_applied : Operation → Step (Unit {0})
  unfolding applied_key load_set write_json ◌>>=◌
  mark_applied o = do
    applied ← load_set (λ w. w.applied)
    write_json (with_applied (holds (insert (applied_key o) true applied)))

  -- `IsApplied`
  unfoldable pub is_applied : Operation → Step Bool
  unfolding applied_key load_set in_set ◌>>=◌
  is_applied o = do applied ← load_set (λ w. w.applied); return (in_set (applied_key o) applied)
