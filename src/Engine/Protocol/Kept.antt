-- ===== src/Engine/Protocol/Kept.antt =====
-- Single calls, and programs of work, in the order of the calls.
use sync_hub_for_agents.Base.{
  ◌≡◌, refl, ◌∙◌, ap, Bool, true, false, Option, some, List, [], ◌∷◌, ◌++◌, All, arith, ◌⊎◌, inl,
  inr,
}
use sync_hub_for_agents.Base.{if◌then◌else◌}
use sync_hub_for_agents.Base.Text.{Text}
use sync_hub_for_agents.Base.Result.{Result, ok, err}
use sync_hub_for_agents.Base.Stateful.{return, lift, After, After-bind, After-weaken}
use sync_hub_for_agents.Engine.{Call, Event, World, Step, Environment, try_call, perform, ask}
use sync_hub_for_agents.Engine.Only.{Extends, Only}
use sync_hub_for_agents.Engine.Protocol.{
  Phase, working, always_allowed, is_work, advance, after_event, phase_of, In, Allowed, allow,
}

-- A call of work, or one that any phase allows
abbrev pub Work : Call → Type 0
Work c = (is_work c ≡ true) ⊎ (always_allowed c ≡ true)

either :
    (free work : Bool) (p : Phase) (x : Option Phase)
    → (work ≡ true) ⊎ (free ≡ true)
    → (if free then some p else if work then some p else x) ≡ some p
either true work p x h = refl
either false true p x h = refl
either false false p x (inl h) = ground arith
either false false p x (inr h) = ground arith

when_free :
    (free : Bool) (p : Phase) (x : Option Phase)
    → free ≡ true
    → (if free then some p else x) ≡ some p
when_free true p x h = refl
when_free false p x h = ground arith

advance-Work : (c : Call) (worked : Bool) → Work c → advance working c worked ≡ some working
advance-Work c worked h = either (always_allowed c) (is_work c) working _ h

pub after_event-some :
    (es : List Event) (p : Phase) (e : Event) (q : Option Phase)
    → phase_of es ≡ some p
    → advance p e.call e.worked ≡ q
    → phase_of (e ∷ es) ≡ q
after_event-some es p e q h a = ap (λ o. after_event o e) h ∙ a

stays_working :
    (es ds : List Event)
    → All (λ (e : Event). Work e.call) es
    → phase_of ds ≡ some working
    → phase_of (es ++ ds) ≡ some working
stays_working [] ds a h = h
stays_working (e ∷ es) ds a h =
    after_event-some (es ++ ds) working e (some working) (stays_working es ds a.1 h)
      (advance-Work e.call e.worked a.0)

-- A program of work, in the phase of work
pub After-Work :
    {A : Type 0} (m : Step A) (w : World)
    → Only Work m
    → In working w
    → After (λ _ v. In working v) Allowed (m w)
After-Work m w only h =
    After-weaken (λ _ v. Extends Work w v) (λ _ v. In working v) (Extends Work w) Allowed (m w)
      (λ _ v e. still v e) (λ v e. allow working v (still v e)) (only.from w)
  where
    still : (v : World) → Extends Work w v → In working v
    still v e = ap phase_of e.trace_grows ∙ stays_working e.new_events w.trace e.all_of_kind h

module _ (env : Environment) where
  -- The phase after a call, worked or not
  pub In-try_call :
      (c : Call) (w : World) (p q r : Phase)
      → In p w
      → advance p c true ≡ some q
      → advance p c false ≡ some r
      → After (λ worked v. In (if worked then q else r) v) Allowed (try_call env c w)
  unfolding try_call
  In-try_call c w p q r h t f =
      after_event-some w.trace p _ (some (if env.works w.trace c then q else r)) h
        (by_answer (env.works w.trace c))
    where
      by_answer : (worked : Bool) → advance p c worked ≡ some (if worked then q else r)
      by_answer true = t
      by_answer false = f

  pub In-perform :
      (c : Call) (problem : Text) (w : World) (p q r : Phase)
      → In p w
      → advance p c true ≡ some q
      → advance p c false ≡ some r
      → After (λ _ v. In q v) Allowed (perform env c problem w)
  unfolding perform
  In-perform c problem w p q r h t f =
      After-bind (λ worked v. In (if worked then q else r) v) (λ _ v. In q v) Allowed
        (try_call env c) _ w (In-try_call c w p q r h t f) (λ worked v g. by_answer worked v g)
    where
      by_answer :
          (worked : Bool) (v : World)
          → In (if worked then q else r) v
          → After (λ _ v. In q v) Allowed ((if worked then return tt else lift (err problem)) v)
      by_answer true v g = g
      by_answer false v g = allow r v g

  -- A call that every phase allows
  pub In-free :
      (c : Call) (w : World) (p : Phase)
      → always_allowed c ≡ true
      → In p w
      → After (λ _ v. In p v) Allowed (try_call env c w)
  unfolding try_call
  In-free c w p free h =
      after_event-some w.trace p _ (some p) h (when_free (always_allowed c) p _ free)

  pub In-ask :
      {A : Type 0} (question : List Event → Result Text A) (w : World) (p : Phase)
      → In p w
      → After (λ _ v. In p v) Allowed (ask env question w)
  unfolding ask
  In-ask {A} question w p h = by_answer (question w.trace)
    where
      by_answer : (r : Result Text A) → After (λ _ v. In p v) Allowed (r, w)
      by_answer (ok a) = h
      by_answer (err c) = allow p w h
