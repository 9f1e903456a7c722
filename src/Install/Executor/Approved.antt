-- ===== src/Install/Executor/Approved.antt =====
-- Only operations that were approved and not applied are run.
use mathlib.Core.Path.{subst}
use mathlib.Core.List.{Memᴰ}
use mathlib.Core.List.Memᴰ.{cases_cons}
use sync_hub_for_agents.Base.{
  ◌≡◌, sym, ◌∙◌, Bool, true, false, Option, List, [], ◌∷◌, ◌++◌, All, ◌⊎◌, inl, inr,
}
use sync_hub_for_agents.Base.{nat_eq, if◌then◌else◌}
use sync_hub_for_agents.Base.Text.{Text, text_eq}
use sync_hub_for_agents.Base.Result.{Result, ok}
use sync_hub_for_agents.Base.Stateful.{After, After-bind, After-weaken, return}
use sync_hub_for_agents.Install.{Operation, InstallError, validate_operation}
use sync_hub_for_agents.Install.Store.{World, is_applied, approval_status}
use sync_hub_for_agents.Install.Executor.{
  ExecutionResult, Runner, run_approved, run_unapplied, execute_one, execute_each,
}
use sync_hub_for_agents.Install.Store.Contents.{
  Same, approved_in, applied_in, is_applied-Same, approval_status-Same,
}
use sync_hub_for_agents.Install.Executor.Progress.{
  Progress, Progress-Same, Settled, stays_pending, Settled-later, applied_in-Same,
  run_approved-Settled,
}

module _ (digest : Text → Text) (operations : List Operation) (w : World) where
  run_unapplied-Settled :
      (runner : Runner) (before : Option (Operation → Result InstallError (Unit {0})))
      (result : ExecutionResult) (o : Operation) (u : World)
      → Memᴰ o operations
      → validate_operation o ≡ ok tt
      → Progress digest operations w u
      → applied_in digest u o ≡ false
      → After
          (λ r v. Settled digest operations w o result u r v)
          (Progress digest operations w)
          (run_unapplied digest runner before result o u)
  unfolding run_unapplied
  run_unapplied-Settled runner before result o u i valid g n =
      After-bind (λ b v. Same u v × (b ≡ approved_in digest v o))
        (λ r v. Settled digest operations w o result u r v) (Progress digest operations w)
        (approval_status digest o)
        (λ b.
          if b
          then run_approved digest runner before result o
          else return (record result { pending = result.pending ++ (o ∷ []) }))
        u
        (After-weaken (λ b v. Same u v × (b ≡ approved_in digest v o))
          (λ b v. Same u v × (b ≡ approved_in digest v o)) (Same u) (Progress digest operations w)
          (approval_status digest o u) (λ _ v m. m)
          (λ v s. Progress-Same digest operations w u v g s) (approval_status-Same digest o u))
        (λ b v h. by_answer b v h.0 h.1)
    where
      by_answer :
          (b : Bool) (v : World)
          → Same u v
          → b ≡ approved_in digest v o
          → After
              (λ r x. Settled digest operations w o result u r x)
              (Progress digest operations w)
              ((if b
                  then run_approved digest runner before result o
                  else return (record result { pending = result.pending ++ (o ∷ []) }))
                v)
      by_answer true v s e =
          After-weaken (λ r x. Settled digest operations w o result v r x)
            (λ r x. Settled digest operations w o result u r x) (Progress digest operations w)
            (Progress digest operations w) (run_approved digest runner before result o v)
            (λ r x.
              Settled-later digest operations w o result u v r x
                (λ p h. applied_in-Same digest operations w u v p s ∙ h))
            (λ x h. h)
            (run_approved-Settled digest operations w runner before result o v i valid
              (Progress-Same digest operations w u v g s)
              (applied_in-Same digest operations w u v o s ∙ n) (sym e))
      by_answer false v s e =
          stays_pending digest operations w o result u v result.errors
            (Progress-Same digest operations w u v g s) s.same_applied

  execute_one-Settled :
      (runner : Runner) (before : Option (Operation → Result InstallError (Unit {0})))
      (result : ExecutionResult) (o : Operation) (u : World)
      → Memᴰ o operations
      → validate_operation o ≡ ok tt
      → Progress digest operations w u
      → After
          (λ r v. Settled digest operations w o result u r v)
          (Progress digest operations w)
          (execute_one digest runner before result o u)
  unfolding execute_one
  execute_one-Settled runner before result o u i valid g =
      After-bind (λ b v. Same u v × (b ≡ applied_in digest v o))
        (λ r v. Settled digest operations w o result u r v) (Progress digest operations w)
        (is_applied digest o)
        (λ b. if b then return result else run_unapplied digest runner before result o) u
        (After-weaken (λ b v. Same u v × (b ≡ applied_in digest v o))
          (λ b v. Same u v × (b ≡ applied_in digest v o)) (Same u) (Progress digest operations w)
          (is_applied digest o u) (λ _ v m. m) (λ v s. Progress-Same digest operations w u v g s)
          (is_applied-Same digest o u))
        (λ b v h. by_answer b v h.0 h.1)
    where
      by_answer :
          (b : Bool) (v : World)
          → Same u v
          → b ≡ applied_in digest v o
          → After
              (λ r x. Settled digest operations w o result u r x)
              (Progress digest operations w)
              ((if b then return result else run_unapplied digest runner before result o) v)
      by_answer true v s e = record {
        progress = Progress-Same digest operations w u v g s;
        keeps_applied = λ p h. applied_in-Same digest operations w u v p s ∙ h;
        keeps_pending = λ p h. h;
        settled = inl (sym e);
        executed_applied = λ p h. inl h;
      }
      by_answer false v s e =
          After-weaken (λ r x. Settled digest operations w o result v r x)
            (λ r x. Settled digest operations w o result u r x) (Progress digest operations w)
            (Progress digest operations w) (run_unapplied digest runner before result o v)
            (λ r x.
              Settled-later digest operations w o result u v r x
                (λ p h. applied_in-Same digest operations w u v p s ∙ h))
            (λ x h. h)
            (run_unapplied-Settled runner before result o v i valid
              (Progress-Same digest operations w u v g s) (sym e))

  -- Every operation of `os` is applied or pending, and what was executed is applied.
  pub record AllSettled (os : List Operation) (before : ExecutionResult) (u : World)
      (after : ExecutionResult) (v : World) : Type 0 where
    pub progress : Progress digest operations w v
    pub keeps_applied :
        (p : Operation) → applied_in digest u p ≡ true → applied_in digest v p ≡ true
    pub keeps_pending : (p : Operation) → Memᴰ p before.pending → Memᴰ p after.pending
    pub all_settled :
        (p : Operation) → Memᴰ p os → (applied_in digest v p ≡ true) ⊎ Memᴰ p after.pending
    pub executed_applied :
        (p : Operation)
        → Memᴰ p after.executed
        → Memᴰ p before.executed ⊎ (applied_in digest v p ≡ true)

  then_rest :
      (o : Operation) (os : List Operation) (result r q : ExecutionResult) (u v x : World)
      → Settled digest operations w o result u r v
      → AllSettled os r v q x
      → AllSettled (o ∷ os) result u q x
  then_rest o os result r q u v x h k = record {
    progress = k.progress;
    keeps_applied = λ p a. k.keeps_applied p (h.keeps_applied p a);
    keeps_pending = λ p i. k.keeps_pending p (h.keeps_pending p i);
    all_settled = λ p i. by_place p (cases_cons i);
    executed_applied = λ p i. elim (k.executed_applied p i) [
      | inr now ↦ inr now
      | inl there ↦ elim (h.executed_applied p there) [
        | inl before ↦ inl before
        | inr then_applied ↦ inr (k.keeps_applied p then_applied)
      ]
    ];
  }
    where
      first : (applied_in digest x o ≡ true) ⊎ Memᴰ o q.pending
      first = elim h.settled [
        | inl a ↦ inl (k.keeps_applied o a)
        | inr i ↦ inr (k.keeps_pending o i)
      ]

      by_place :
          (p : Operation) → (p ≡ o) ⊎ Memᴰ p os → (applied_in digest x p ≡ true) ⊎ Memᴰ p q.pending
      by_place p (inl e) =
          subst (λ z. (applied_in digest x z ≡ true) ⊎ Memᴰ z q.pending) (sym e) first
      by_place p (inr i) = k.all_settled p i

  pub execute_each-AllSettled :
      (runner : Runner) (before : Option (Operation → Result InstallError (Unit {0})))
      (os : List Operation) (result : ExecutionResult) (u : World)
      → All (λ o. Memᴰ o operations × (validate_operation o ≡ ok tt)) os
      → Progress digest operations w u
      → After
          (λ r v. AllSettled os result u r v)
          (Progress digest operations w)
          (execute_each digest runner before os result u)
  unfolding execute_each
  execute_each-AllSettled runner before [] result u a g = record {
    progress = g;
    keeps_applied = λ p h. h;
    keeps_pending = λ p h. h;
    all_settled = λ p h. elim h [ ];
    executed_applied = λ p h. inl h;
  }
  execute_each-AllSettled runner before (o ∷ os) result u a g =
      After-bind (λ r v. Settled digest operations w o result u r v)
        (λ r v. AllSettled (o ∷ os) result u r v) (Progress digest operations w)
        (execute_one digest runner before result o) (execute_each digest runner before os) u
        (execute_one-Settled runner before result o u a.0.0 a.0.1 g)
        (λ r v h.
          After-weaken (λ q x. AllSettled os r v q x) (λ q x. AllSettled (o ∷ os) result u q x)
            (Progress digest operations w) (Progress digest operations w)
            (execute_each digest runner before os r v)
            (λ q x k. then_rest o os result r q u v x h k) (λ x k. k)
            (execute_each-AllSettled runner before os r v a.1 h.progress))
