-- ===== src/Install/Executor.antt =====
-- internal/installplan/executor.go: a plan is run operation by operation.
pub mod Progress
pub mod Approved
pub mod Pending
pub mod Settled
use sync_hub_for_agents.Base.{Bool, true, false, not, ◌||◌, Option, none, some, List, [], ◌∷◌, ◌++◌}
use sync_hub_for_agents.Base.{◌==◌, nat_eq, if◌then◌else◌}
use sync_hub_for_agents.Base.Text.{Text, text_eq, codes}
use sync_hub_for_agents.Base.Dict.{Dict, insert}
use sync_hub_for_agents.Base.Result.{Result, ok, err, reject}
use sync_hub_for_agents.Base.Stateful.{Program, ◌>>=◌, ◌>>◌, return, lift}
use sync_hub_for_agents.Base.Strings.{trim_space}
use sync_hub_for_agents.Install.{
  Operation, Plan, InstallError, missing_part, check_all, validate_operation,
}
use sync_hub_for_agents.Install.Store.{
  World, Step, is_applied, approval_status, mark_applied, clear_pending, save_pending,
}

-- How a command ended: `error` is the text of the error of `Run`, if there is one.
pub record RunResult : Type 0 where
  pub error : Option Text
  pub stderr : Text

-- What a command does depends on those that ran before it.
abbrev pub Runner : Type 0
Runner = List Operation → Operation → RunResult

-- `Executor`
pub record Executor : Type 0 where
  pub runner : Option Runner
  pub has_store : Bool
  pub before_run : Option (Operation → Result InstallError (Unit {0}))

pub record ExecutionResult : Type 0 where
  pub executed : List Operation
  pub pending : List Operation
  pub errors : Dict Text Text

-- The message of a failed run
unfoldable pub failure_message : Text → Text → Text
failure_message error stderr =
    let shown = trim_space stderr in if shown == [] then error else error ++ (codes ": " ++ shown)

-- `e.Runner.Run(...)`
unfoldable pub run_command : Runner → Operation → Step RunResult
run_command runner o w = (ok (runner w.runs o), record w { runs = o ∷ w.runs })

-- `e.BeforeRun(operation)`
abbrev pub call_before :
    Option (Operation → Result InstallError (Unit {0})) → Operation → Step (Unit {0})
call_before none o = return tt
call_before (some f) o = lift (f o)

-- The pending plan is cleared, or what is left of the plan is stored in its place.
unfoldable pub finish_plan : Plan → ExecutionResult → Step ExecutionResult
unfolding clear_pending save_pending ◌>>=◌
finish_plan plan result = elim result.pending [
  | [] ↦ (do if plan.id == [] then return tt else clear_pending plan.id; return result)
  | o ∷ os ↦ (do
    save_pending (record plan { operations = o ∷ os; approved = false; errors = result.errors })
    return result)
]

module _ (digest : Text → Text) where
  -- What is left of one operation after its command ran
  unfoldable pub after_run : ExecutionResult → Operation → RunResult → Step ExecutionResult
  unfolding mark_applied failure_message ◌>>=◌
  after_run result o ran = elim ran.error [
    | some error ↦ return (record result {
      pending = result.pending ++ (o ∷ []);
      errors = insert o.id (failure_message error ran.stderr) result.errors;
    })
    | none ↦ (do
      mark_applied digest o
      return (record result { executed = result.executed ++ (o ∷ []) }))
  ]

  -- An approved operation
  unfoldable pub run_approved :
      Runner
      → Option (Operation → Result InstallError (Unit {0}))
      → ExecutionResult
      → Operation
      → Step ExecutionResult
  unfolding run_command after_run ◌>>=◌
  run_approved runner before result o = do
    call_before before o
    ran ← run_command runner o
    after_run result o ran

  -- An operation that is not applied
  unfoldable pub run_unapplied :
      Runner
      → Option (Operation → Result InstallError (Unit {0}))
      → ExecutionResult
      → Operation
      → Step ExecutionResult
  unfolding approval_status run_approved ◌>>=◌
  run_unapplied runner before result o = do
    approved ← approval_status digest o
    (if approved
        then run_approved runner before result o
        else return (record result { pending = result.pending ++ (o ∷ []) }))

  -- One operation of the loop
  unfoldable pub execute_one :
      Runner
      → Option (Operation → Result InstallError (Unit {0}))
      → ExecutionResult
      → Operation
      → Step ExecutionResult
  unfolding is_applied run_unapplied ◌>>=◌
  execute_one runner before result o = do
    applied ← is_applied digest o
    if applied then return result else run_unapplied runner before result o

  unfoldable pub execute_each :
      Runner
      → Option (Operation → Result InstallError (Unit {0}))
      → List Operation
      → ExecutionResult
      → Step ExecutionResult
  unfolding execute_one ◌>>=◌
  execute_each runner before [] result = return result
  execute_each runner before (o ∷ os) result =
      execute_one runner before result o >>= execute_each runner before os

  -- `Execute`
  unfoldable pub execute : Executor → Plan → Step ExecutionResult
  unfolding check_all validate_operation execute_each finish_plan ◌>>=◌
  execute e plan = elim e.runner [
    | none ↦ lift (err missing_part)
    | some runner ↦ (do
      lift (reject (not e.has_store) missing_part)
      lift (check_all validate_operation plan.operations)
      result ←
          execute_each runner e.before_run plan.operations
            (record { executed = []; pending = []; errors = [] })
      finish_plan plan result)
  ]
