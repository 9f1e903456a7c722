-- ===== src/Install/Executor/Settled.antt =====
-- A whole plan: what is run was due, and what is not applied in the end is pending.
use mathlib.Core.Path.{subst}
use mathlib.Core.List.{Memᴰ}
use mathlib.Core.List.Memᴰ.{head, tail}
use sync_hub_for_agents.Base.{
  ◌≡◌, refl, sym, ◌∙◌, ap, Bool, true, false, not, Option, none, some, List, [], ◌∷◌, ◌++◌, All,
  ◌⊎◌, inl, inr,
}
use sync_hub_for_agents.Base.{◌==◌, nat_eq, if◌then◌else◌}
use sync_hub_for_agents.Base.Text.{Text, text_eq}
use sync_hub_for_agents.Base.Dict.{Dict}
use sync_hub_for_agents.Base.Result.{>>=_succeeds, Result, ok, err, reject}
use sync_hub_for_agents.Base.Stateful.{
  ◌>>=◌, ◌>>◌, lift, After, After-bind, After-weaken, After-check, return,
}
use sync_hub_for_agents.Install.{
  Operation, Plan, InstallError, missing_part, validate_operation, check_all,
}
use sync_hub_for_agents.Install.Store.{
  holds, World, Step, clear_pending, save_pending, in_set, applied_key,
}
use sync_hub_for_agents.Install.Executor.{
  Executor, ExecutionResult, Runner, execute_each, finish_plan, execute,
}
use sync_hub_for_agents.Install.Store.Contents.{
  Same-refl, set_of, Same, applied_in, write_json-Same,
}
use sync_hub_for_agents.Install.Executor.Progress.{IsDue, Progress}
use sync_hub_for_agents.Install.Executor.Pending.{
  Beside, Beside-Same, Beside-pending, clear_pending-Gone,
}
use sync_hub_for_agents.Install.Executor.Approved.{AllSettled, execute_each-AllSettled}

-- What is pending after a plan: what is left of it, or no plan of its name.
abbrev pub PendingOf : Plan → Dict Text Text → List Operation → World → Type 0
PendingOf plan errors [] v =
    (plan.id == []) ≡ false → (p : Plan) → v.pending ≡ holds p → (p.id == plan.id) ≡ false
PendingOf plan errors (o ∷ os) v =
    v.pending ≡ holds (record plan { operations = o ∷ os; approved = false; errors = errors })

valid_each :
    (os operations : List Operation)
    → ((o : Operation) → Memᴰ o os → Memᴰ o operations)
    → check_all validate_operation os ≡ ok tt
    → All (λ o. Memᴰ o operations × (validate_operation o ≡ ok tt)) os
unfolding check_all
valid_each [] operations within h = tt
valid_each (o ∷ os) operations within h =
    let (u, rest, valid) =
      >>=_succeeds (validate_operation o) (λ _. check_all validate_operation os) h in
    ((within o (head refl), valid), valid_each os operations (λ p i. within p (tail i)) rest)

module _ (digest : Text → Text) (e : Executor) (plan : Plan) (w : World) where
  Progress-Beside :
      (u v : World)
      → Progress digest plan.operations w u
      → Beside u v
      → Progress digest plan.operations w v
  Progress-Beside u v g b = record {
    new_runs = g.new_runs;
    runs_grow = b.beside_runs ∙ g.runs_grow;
    all_due = g.all_due;
    approvals_stay = b.beside_approvals ∙ g.approvals_stay;
    applied_grow = λ p h.
        ap (λ a. in_set (applied_key digest p) (set_of a)) b.beside_applied ∙ g.applied_grow p h;
  }

  -- What holds after a plan was executed.
  pub record Executed (result : ExecutionResult) (v : World) : Type 0 where
    pub progress : Progress digest plan.operations w v
    pub all_settled :
        (o : Operation)
        → Memᴰ o plan.operations
        → (applied_in digest v o ≡ true) ⊎ Memᴰ o result.pending
    pub executed_applied : (o : Operation) → Memᴰ o result.executed → applied_in digest v o ≡ true
    pub pending_is : PendingOf plan result.errors result.pending v

  nothing : ExecutionResult
  nothing = record { executed = []; pending = []; errors = [] }

  finish :
      (result : ExecutionResult) (u v : World)
      → AllSettled digest plan.operations w plan.operations nothing w result u
      → Beside u v
      → PendingOf plan result.errors result.pending v
      → Executed result v
  unfolding nothing
  finish result u v a b p = record {
    progress = Progress-Beside u v a.progress b;
    all_settled = λ o i. elim (a.all_settled o i) [
      | inl done ↦ inl (ap (λ s. in_set (applied_key digest o) (set_of s)) b.beside_applied ∙ done)
      | inr waits ↦ inr waits
    ];
    executed_applied = λ o i. elim (a.executed_applied o i) [
      | inl never ↦ elim never [ ]
      | inr done ↦ ap (λ s. in_set (applied_key digest o) (set_of s)) b.beside_applied ∙ done
    ];
    pending_is = p;
  }

  finish_plan-Executed :
      (result : ExecutionResult) (u : World)
      → AllSettled digest plan.operations w plan.operations nothing w result u
      → After Executed (Progress digest plan.operations w) (finish_plan plan result u)
  unfolding finish_plan save_pending
  finish_plan-Executed result u a = by_pending result.pending refl
    where
      by_pending :
          (ps : List Operation)
          → result.pending ≡ ps
          → After Executed (Progress digest plan.operations w) (
              (elim ps as (λ _. Step ExecutionResult) [
                | [] ↦ (do
                  if plan.id == [] then return tt else clear_pending plan.id
                  return result)
                | o ∷ os ↦ (do
                  save_pending (record plan {
                    operations = o ∷ os;
                    approved = false;
                    errors = result.errors;
                  })
                  return result)
              ])
                u)
      by_pending [] none_left =
          After-bind
            (λ _ v.
              Beside u v
              × ((plan.id == []) ≡ false
                  → (p : Plan) → v.pending ≡ holds p
                  → (p.id == plan.id) ≡ false))
            Executed (Progress digest plan.operations w)
            (if plan.id == [] then return tt else clear_pending plan.id) (λ _. return result) u
            (by_id (plan.id == []) refl)
            (λ _ v h.
              finish result u v a h.0
                (subst (λ ps. PendingOf plan result.errors ps v) (sym none_left) h.1))
        where
          by_id :
              (b : Bool)
              → (plan.id == []) ≡ b
              → After
                  (λ _ v.
                    Beside u v
                    × ((plan.id == []) ≡ false
                        → (p : Plan) → v.pending ≡ holds p
                        → (p.id == plan.id) ≡ false))
                  (Progress digest plan.operations w)
                  ((if b then return tt else clear_pending plan.id) u)
          by_id true unnamed = (Beside-Same u u (Same-refl u), λ named. cc)
          by_id false named =
              After-weaken
                (λ _ v. Beside u v × ((p : Plan) → v.pending ≡ holds p → (p.id == plan.id) ≡ false))
                (λ _ v.
                  Beside u v
                  × ((plan.id == []) ≡ false
                      → (p : Plan) → v.pending ≡ holds p
                      → (p.id == plan.id) ≡ false))
                (Beside u) (Progress digest plan.operations w) (clear_pending plan.id u)
                (λ _ v h. (h.0, λ _. h.1)) (λ v b. Progress-Beside u v a.progress b)
                (clear_pending-Gone plan.id u)
      by_pending (o ∷ os) left =
          let rest = record plan {
            operations = o ∷ os;
            approved = false;
            errors = result.errors;
          } in
          After-bind (λ _ v. (x : World) × Same u x × (v ≡ record x { pending = holds rest }))
            Executed (Progress digest plan.operations w) (save_pending rest) (λ _. return result) u
            (After-weaken (λ _ v. (x : World) × Same u x × (v ≡ record x { pending = holds rest }))
              (λ _ v. (x : World) × Same u x × (v ≡ record x { pending = holds rest })) (Same u)
              (Progress digest plan.operations w) (save_pending rest u) (λ _ v h. h)
              (λ v s. Progress-Beside u v a.progress (Beside-Same u v s))
              (write_json-Same (λ v. record v { pending = holds rest }) u))
            (λ _ v h.
              let (x, s, written) = h in
              finish result u v a
                (subst (Beside u) (sym written)
                  (Beside-pending u x (holds rest) (Beside-Same u x s)))
                (subst (λ ps. PendingOf plan result.errors ps v) (sym left)
                  (ap (λ (z : World). z.pending) written)))

  Progress-refl : Progress digest plan.operations w w
  Progress-refl = record {
    new_runs = [];
    runs_grow = refl;
    all_due = tt;
    approvals_stay = refl;
    applied_grow = λ p h. h;
  }

  -- Whatever the files and the commands answer, `Execute` only runs operations of the plan that are
  -- accepted, approved and not applied, and keeps the approvals and what was applied; when it gives
  -- a result, each operation of the plan is applied or pending, what it executed is applied, and the
  -- pending plan is what is left of the plan, or no plan of its name.
  pub execute-Executed :
      After Executed (Progress digest plan.operations w) (execute digest e plan w)
  unfolding execute nothing
  execute-Executed = by_runner e.runner
    where
      Ends : {A : Type 0} → (A → World → Type 0) → Result InstallError A × World → Type 0
      Ends Q = After Q (Progress digest plan.operations w)

      run_all : Runner → Unit {0} → Step ExecutionResult
      run_all runner _ =
          execute_each digest runner e.before_run plan.operations nothing >>= finish_plan plan

      by_runner :
          (r : Option Runner)
          → Ends Executed (
              (elim r as (λ _. Step ExecutionResult) [
                | none ↦ lift (err missing_part)
                | some runner ↦
                    lift (reject (not e.has_store) missing_part)
                    >> (lift (check_all validate_operation plan.operations) >>= run_all runner)
              ])
                w)
      by_runner none = Progress-refl
      by_runner (some runner) =
          After-check Executed (Progress digest plan.operations w)
            (reject (not e.has_store) missing_part)
            (lift (check_all validate_operation plan.operations) >>= run_all runner) w Progress-refl
            (λ _.
              After-check Executed (Progress digest plan.operations w)
                (check_all validate_operation plan.operations) (run_all runner tt) w Progress-refl
                (λ valid.
                  After-bind
                    (λ r v. AllSettled digest plan.operations w plan.operations nothing w r v)
                    Executed (Progress digest plan.operations w)
                    (execute_each digest runner e.before_run plan.operations nothing)
                    (finish_plan plan) w
                    (execute_each-AllSettled digest plan.operations w runner e.before_run
                      plan.operations nothing w
                      (valid_each plan.operations plan.operations (λ o i. i) valid) Progress-refl)
                    (λ r v a. finish_plan-Executed r v a)))

  -- A plan whose operations are all applied runs nothing.
  pub execute_idle :
      ((o : Operation) → Memᴰ o plan.operations → applied_in digest w o ≡ true)
      → After (λ _ v. v.runs ≡ w.runs) (λ v. v.runs ≡ w.runs) (execute digest e plan w)
  execute_idle all_applied =
      After-weaken Executed (λ _ v. v.runs ≡ w.runs) (Progress digest plan.operations w)
        (λ v. v.runs ≡ w.runs) (execute digest e plan w) (λ _ v h. unchanged v h.progress) unchanged
        execute-Executed
    where
      unchanged : (v : World) → Progress digest plan.operations w v → v.runs ≡ w.runs
      unchanged v g = none_due g.new_runs g.all_due g.runs_grow
        where
          none_due :
              (os : List Operation)
              → All (IsDue digest plan.operations w) os
              → v.runs ≡ os ++ w.runs
              → v.runs ≡ w.runs
          none_due [] due grow = grow
          none_due (o ∷ os) due grow =
              let (i, _, _, not_applied) = due.0 in cc (sym (all_applied o i) ∙ not_applied)
