-- ===== src/Install/Executor/Pending.antt =====
-- What clearing the pending plan changes.
use mathlib.Core.Path.{subst}
use mathlib.Core.Option.{some-injective}
use sync_hub_for_agents.Base.{◌≡◌, refl, sym, ◌∙◌, ap, Bool, true, false, Option, none, some}
use sync_hub_for_agents.Base.{◌==◌, nat_eq, if◌then◌else◌}
use sync_hub_for_agents.Base.Text.{Text, text_eq}
use sync_hub_for_agents.Base.Result.{ok-injective, ok}
use sync_hub_for_agents.Base.Stateful.{After, After-bind, After-weaken, return}
use sync_hub_for_agents.Install.{Plan}
use sync_hub_for_agents.Install.Store.{
  Stored, missing, holds, World, Step, clear_pending, read_json, write_json, decoded,
}
use sync_hub_for_agents.Install.Store.Contents.{Same-trans, Same, read_json-Same, write_json-Same}

-- Two worlds that differ at most in the pending plan and the answers to come.
pub record Beside (w v : World) : Type 0 where
  pub beside_approvals : v.approvals ≡ w.approvals
  pub beside_applied : v.applied ≡ w.applied
  pub beside_runs : v.runs ≡ w.runs

pub Beside-Same : (w v : World) → Same w v → Beside w v
Beside-Same w v s = record {
  beside_approvals = s.same_approvals;
  beside_applied = s.same_applied;
  beside_runs = s.same_runs;
}

pub Beside-pending :
    (w v : World) (p : Stored Plan) → Beside w v → Beside w (record v { pending = p })
Beside-pending w v p b = record {
  beside_approvals = b.beside_approvals;
  beside_applied = b.beside_applied;
  beside_runs = b.beside_runs;
}

pub clear_pending-Gone :
    (id : Text) (w : World)
    → After
        (λ _ v. Beside w v × ((p : Plan) → v.pending ≡ holds p → (p.id == id) ≡ false))
        (Beside w)
        (clear_pending id w)
unfolding clear_pending
clear_pending-Gone id w =
    After-bind (λ o v. Same w v × (decoded v.pending ≡ ok o))
      (λ _ v. Beside w v × ((p : Plan) → v.pending ≡ holds p → (p.id == id) ≡ false)) (Beside w)
      (read_json (λ v. v.pending))
      (λ found. elim found as (λ _. Step (Unit {0})) [
        | none ↦ return tt
        | some plan ↦
            if plan.id == id then write_json (λ v. record v { pending = missing }) else return tt
      ])
      w
      (After-weaken (λ o v. Same w v × (decoded v.pending ≡ ok o))
        (λ o v. Same w v × (decoded v.pending ≡ ok o)) (Same w) (Beside w)
        (read_json (λ v. v.pending) w) (λ _ v h. h) (Beside-Same w)
        (read_json-Same (λ v. v.pending) w))
      (λ o v h. by_found o v h.0 h.1)
  where
    only :
        (p : Plan) (v : World) (o : Option Plan)
        → v.pending ≡ holds p
        → decoded v.pending ≡ ok o
        → o ≡ some p
    only p v o e d = sym (ok-injective (sym (ap decoded e) ∙ d))

    by_found :
        (o : Option Plan) (v : World)
        → Same w v
        → decoded v.pending ≡ ok o
        → After
            (λ _ u. Beside w u × ((p : Plan) → u.pending ≡ holds p → (p.id == id) ≡ false))
            (Beside w)
            ((elim o as (λ _. Step (Unit {0})) [
              | none ↦ return tt
              | some plan ↦
                  if plan.id == id
                  then write_json (λ v. record v { pending = missing })
                  else return tt
            ])
              v)
    by_found none v s d = (Beside-Same w v s, λ p e. cc (only p v none e d))
    by_found (some plan) v s d = by_test (plan.id == id) refl
      where
        Gone : Unit {0} → World → Type 0
        Gone _ u = Beside w u × ((p : Plan) → u.pending ≡ holds p → (p.id == id) ≡ false)

        by_test :
            (b : Bool)
            → (plan.id == id) ≡ b
            → After Gone
                (Beside w)
                ((if b then write_json (λ v. record v { pending = missing }) else return tt) v)
        by_test true e =
            After-weaken (λ _ u. (x : World) × Same v x × (u ≡ record x { pending = missing })) Gone
              (Same v) (Beside w) (write_json (λ v. record v { pending = missing }) v)
              (λ _ u k.
                let (x, t, written) = k in
                subst (Gone tt) (sym written) (
                  Beside-pending w x missing (Beside-Same w x (Same-trans w v x s t)),
                  λ p gone. cc gone,
                ))
              (λ u t. Beside-Same w u (Same-trans w v u s t))
              (write_json-Same (λ v. record v { pending = missing }) v)
        by_test false e = (
          Beside-Same w v s,
          λ p there.
              subst (λ (q : Plan). (q.id == id) ≡ false)
                (some-injective plan p (only p v (some plan) there d)) e,
        )
