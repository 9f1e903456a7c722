-- ===== src/Install/Executor/Progress.antt =====
-- What the runs of a plan's operations change, and what one operation leaves behind.
use mathlib.Core.Path.{subst}
use mathlib.Core.List.{Memᴰ}
use mathlib.Core.List.Memᴰ.{head, append_left, append_right, append_cases, eq_of_singleton}
use sync_hub_for_agents.Base.{
  ◌≡◌, refl, sym, ◌∙◌, ap, true, false, Option, none, some, List, [], ◌∷◌, ◌++◌, All, Bool-cases,
  ◌⊎◌, inl, inr,
}
use sync_hub_for_agents.Base.{nat_eq}
use sync_hub_for_agents.Base.Text.{Text, text_eq}
use sync_hub_for_agents.Base.Dict.{Dict, insert}
use sync_hub_for_agents.Base.Result.{Result, ok, err}
use sync_hub_for_agents.Base.Stateful.{◌>>=◌, ◌>>◌, lift, After, After-bind, After-weaken, return}
use sync_hub_for_agents.Install.{Operation, InstallError, validate_operation}
use sync_hub_for_agents.Install.Store.{World, Step, mark_applied, in_set, approval_key, applied_key}
use sync_hub_for_agents.Install.Executor.{
  ExecutionResult, Runner, RunResult, run_command, after_run, run_approved, failure_message,
  call_before,
}
use sync_hub_for_agents.Install.Store.Contents.{
  set_of, Same, approved_in, applied_in, Marked, mark_applied-Marked,
}

-- What the runs of a plan's operations may change, and why each one was run: the operation is of the
-- plan, it is accepted, and when the plan began it was approved and not applied.
module _ (digest : Text → Text) (operations : List Operation) (w : World) where
  abbrev pub IsDue : Operation → Type 0
  IsDue o =
      Memᴰ o operations
      × (validate_operation o ≡ ok tt)
      × (approved_in digest w o ≡ true)
      × (applied_in digest w o ≡ false)

  pub record Progress (v : World) : Type 0 where
    pub new_runs : List Operation
    pub runs_grow : v.runs ≡ new_runs ++ w.runs
    pub all_due : All IsDue new_runs
    pub approvals_stay : v.approvals ≡ w.approvals
    pub applied_grow : (p : Operation) → applied_in digest w p ≡ true → applied_in digest v p ≡ true

  pub Progress-Same : (u v : World) → Progress u → Same u v → Progress v
  Progress-Same u v g s = record {
    new_runs = g.new_runs;
    runs_grow = s.same_runs ∙ g.runs_grow;
    all_due = g.all_due;
    approvals_stay = s.same_approvals ∙ g.approvals_stay;
    applied_grow = λ p h.
        ap (λ a. in_set (applied_key digest p) (set_of a)) s.same_applied ∙ g.applied_grow p h;
  }

  pub Progress-Marked :
      (o : Operation) (u v : World) → Progress u → Marked digest o u v → Progress v
  Progress-Marked o u v g m = record {
    new_runs = g.new_runs;
    runs_grow = m.marked_runs ∙ g.runs_grow;
    all_due = g.all_due;
    approvals_stay = m.marked_approvals ∙ g.approvals_stay;
    applied_grow = λ p h. m.still_applied p (g.applied_grow p h);
  }

  Progress-run :
      (o : Operation) (u : World)
      → Progress u
      → Memᴰ o operations
      → validate_operation o ≡ ok tt
      → approved_in digest u o ≡ true
      → applied_in digest u o ≡ false
      → Progress (record u { runs = o ∷ u.runs })
  Progress-run o u g i v a n = record {
    new_runs = o ∷ g.new_runs;
    runs_grow = ap (λ rs. o ∷ rs) g.runs_grow;
    all_due = (
      (
        i,
        v,
        ap (λ s. in_set (approval_key digest o) (set_of s)) (sym g.approvals_stay) ∙ a,
        not_before (Bool-cases (applied_in digest w o)),
      ),
      g.all_due,
    );
    approvals_stay = g.approvals_stay;
    applied_grow = g.applied_grow;
  }
    where
      not_before :
          (applied_in digest w o ≡ true) ⊎ (applied_in digest w o ≡ false)
          → applied_in digest w o ≡ false
      not_before (inl before) = cc (g.applied_grow o before)
      not_before (inr h) = h

  -- What one operation leaves behind.
  pub record Settled (o : Operation) (before : ExecutionResult) (u : World)
      (after : ExecutionResult) (v : World) : Type 0 where
    pub progress : Progress v
    pub keeps_applied :
        (p : Operation) → applied_in digest u p ≡ true → applied_in digest v p ≡ true
    pub keeps_pending : (p : Operation) → Memᴰ p before.pending → Memᴰ p after.pending
    pub settled : (applied_in digest v o ≡ true) ⊎ Memᴰ o after.pending
    pub executed_applied :
        (p : Operation)
        → Memᴰ p after.executed
        → Memᴰ p before.executed ⊎ (applied_in digest v p ≡ true)

  pub stays_pending :
      (o : Operation) (result : ExecutionResult) (u v : World) (errors : Dict Text Text)
      → Progress v
      → v.applied ≡ u.applied
      → Settled o result u
          (record result { pending = result.pending ++ (o ∷ []); errors = errors })
          v
  stays_pending o result u v errors g e = record {
    progress = g;
    keeps_applied = λ p h. ap (λ a. in_set (applied_key digest p) (set_of a)) e ∙ h;
    keeps_pending = λ p h. append_left (o ∷ []) h;
    settled = inr (append_right result.pending (head refl));
    executed_applied = λ p h. inl h;
  }

  pub after_run-Settled :
      (result : ExecutionResult) (o : Operation) (ran : RunResult) (u : World)
      → Progress u
      → After (λ r v. Settled o result u r v) Progress (after_run digest result o ran u)
  unfolding after_run
  after_run-Settled result o ran u g = by_error ran.error
    where
      by_error :
          (e : Option Text)
          → After
              (λ r v. Settled o result u r v)
              Progress
              ((elim e as (λ _. Step ExecutionResult) [
                | some error ↦ return (record result {
                  pending = result.pending ++ (o ∷ []);
                  errors = insert o.id (failure_message error ran.stderr) result.errors;
                })
                | none ↦ (do
                  mark_applied digest o
                  return (record result { executed = result.executed ++ (o ∷ []) }))
              ])
                u)
      by_error (some error) = stays_pending o result u u _ g refl
      by_error none =
          After-bind (λ _ v. Marked digest o u v) (λ r v. Settled o result u r v) Progress
            (mark_applied digest o)
            (λ _. return (record result { executed = result.executed ++ (o ∷ []) })) u
            (After-weaken (λ _ v. Marked digest o u v) (λ _ v. Marked digest o u v) (Same u)
              Progress (mark_applied digest o u) (λ _ v m. m) (λ v s. Progress-Same u v g s)
              (mark_applied-Marked digest o u))
            (λ _ v m. record {
              progress = Progress-Marked o u v g m;
              keeps_applied = m.still_applied;
              keeps_pending = λ p h. h;
              settled = inl m.marked;
              executed_applied = λ p h. elim (append_cases result.executed h) [
                | inl there ↦ inl there
                | inr here ↦ inr (
                    subst (λ q. applied_in digest v q ≡ true) (sym (eq_of_singleton here)) m.marked)
              ];
            })

  -- An invariant that only looks at what `Same` keeps.
  pub Settled-later :
      (o : Operation) (result : ExecutionResult) (u v : World) (r : ExecutionResult) (x : World)
      → ((p : Operation) → applied_in digest u p ≡ true → applied_in digest v p ≡ true)
      → Settled o result v r x
      → Settled o result u r x
  Settled-later o result u v r x f h = record {
    progress = h.progress;
    keeps_applied = λ p a. h.keeps_applied p (f p a);
    keeps_pending = h.keeps_pending;
    settled = h.settled;
    executed_applied = h.executed_applied;
  }

  pub applied_in-Same :
      (u v : World) (p : Operation) → Same u v → applied_in digest v p ≡ applied_in digest u p
  applied_in-Same u v p s = ap (λ a. in_set (applied_key digest p) (set_of a)) s.same_applied

  pub run_approved-Settled :
      (runner : Runner) (before : Option (Operation → Result InstallError (Unit {0})))
      (result : ExecutionResult) (o : Operation) (u : World)
      → Memᴰ o operations
      → validate_operation o ≡ ok tt
      → Progress u
      → applied_in digest u o ≡ false
      → approved_in digest u o ≡ true
      → After
          (λ r v. Settled o result u r v)
          Progress
          (run_approved digest runner before result o u)
  unfolding run_approved run_command
  run_approved-Settled runner before result o u i valid g n a =
      After-bind (λ _ v. u ≡ v) (λ r v. Settled o result u r v) Progress (call_before before o)
        (λ _. run_command runner o >>= after_run digest result o) u (by_before before)
        (λ _ v e.
          subst
            (λ x.
              After (λ r v. Settled o result u r v) Progress
                ((run_command runner o >>= after_run digest result o) x))
            e
            (After-weaken (λ r v. Settled o result u' r v) (λ r v. Settled o result u r v) Progress
              Progress (after_run digest result o (runner u.runs o) u')
              (λ r x. Settled-later o result u u' r x (λ p h. h)) (λ x h. h)
              (after_run-Settled result o (runner u.runs o) u' (Progress-run o u g i valid a n))))
    where
      u' : World
      u' = record u { runs = o ∷ u.runs }

      by_before :
          (b : Option (Operation → Result InstallError (Unit {0})))
          → After (λ _ v. u ≡ v) Progress (call_before b o u)
      by_before none = refl
      by_before (some f) = by_answer (f o)
        where
          by_answer :
              (r : Result InstallError (Unit {0})) → After (λ _ v. u ≡ v) Progress (lift r u)
          by_answer (ok _) = refl
          by_answer (err _) = g
