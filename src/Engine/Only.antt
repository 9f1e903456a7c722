-- ===== src/Engine/Only.antt =====
-- Programs that make only calls of a kind, whatever these answer.
use sync_hub_for_agents.Base.{
  ◌≡◌, refl, sym, ◌∙◌, ap, Bool, true, false, List, [], ◌∷◌, ◌++◌, All, append_assoc,
}
use sync_hub_for_agents.Base.{if◌then◌else◌}
use sync_hub_for_agents.Base.Text.{Text}
use sync_hub_for_agents.Base.Result.{Result, ok, err}
use sync_hub_for_agents.Base.Stateful.{◌>>=◌, return, lift, After, After-bind, After-weaken}
use sync_hub_for_agents.Engine.{Call, Event, World, Step, Environment, try_call, perform, ask}

-- The calls from `w` to `v` are of a kind.
pub record Extends (P : Call → Type 0) (w v : World) : Type 0 where
  pub new_events : List Event
  pub trace_grows : v.trace ≡ new_events ++ w.trace
  pub all_of_kind : All (λ (e : Event). P e.call) new_events

pub Extends-refl : (P : Call → Type 0) (w : World) → Extends P w w
Extends-refl P w = record { new_events = []; trace_grows = refl; all_of_kind = tt }

All-both :
    (P : Call → Type 0) (xs ys : List Event)
    → All (λ (e : Event). P e.call) xs
    → All (λ (e : Event). P e.call) ys
    → All (λ (e : Event). P e.call) (xs ++ ys)
All-both P [] ys a b = b
All-both P (x ∷ xs) ys a b = (a.0, All-both P xs ys a.1 b)

pub Extends-trans :
    (P : Call → Type 0) (u v w : World) → Extends P u v → Extends P v w → Extends P u w
Extends-trans P u v w a b = record {
  new_events = b.new_events ++ a.new_events;
  trace_grows =
      b.trace_grows
      ∙ ap (λ t. b.new_events ++ t) a.trace_grows
      ∙ sym (append_assoc b.new_events a.new_events u.trace);
  all_of_kind = All-both P b.new_events a.new_events b.all_of_kind a.all_of_kind;
}

-- On each end of a program the calls made are of the kind.
pub record Only (P : Call → Type 0) {A : Type 0} (m : Step A) : Type 0 where
  pub from : (w : World) → After (λ _ v. Extends P w v) (Extends P w) (m w)

module _ {P : Call → Type 0} where
  pub Only-return : {A : Type 0} {a : A} → Only P (return a)
  Only-return = record { from = λ w. Extends-refl P w }

  pub Only-lift : {A : Type 0} {r : Result Text A} → Only P (lift r)
  Only-lift {A} {r} = record { from = λ w. by_result r w }
    where
      by_result :
          (r : Result Text A) (w : World) → After (λ _ v. Extends P w v) (Extends P w) (lift r w)
      by_result (ok a) w = Extends-refl P w
      by_result (err e) w = Extends-refl P w

  pub Only-bind :
      {A B : Type 0} {m : Step A} {k : A → Step B}
      → Only P m
      → ((a : A) → Only P (k a))
      → Only P (m >>= k)
  Only-bind {m} {k} first rest = record {
    from = λ w.
        After-bind (λ _ v. Extends P w v) (λ _ v. Extends P w v) (Extends P w) m k w (first.from w)
          (λ a v e.
            After-weaken (λ _ u. Extends P v u) (λ _ u. Extends P w u) (Extends P v) (Extends P w)
              (k a v) (λ _ u f. Extends-trans P w v u e f) (λ u f. Extends-trans P w v u e f)
              ((rest a).from v));
  }

  pub Only-if :
      {A : Type 0} (b : Bool) {m n : Step A} → Only P m → Only P n → Only P (if b then m else n)
  Only-if true f g = f
  Only-if false f g = g

  pub Only-try_call : (env : Environment) (c : Call) → P c → Only P (try_call env c)
  unfolding try_call
  Only-try_call env c p = record {
    from = λ w. record {
      new_events = record { call = c; worked = env.works w.trace c } ∷ [];
      trace_grows = refl;
      all_of_kind = (p, tt);
    };
  }

  pub Only-perform :
      (env : Environment) (c : Call) (problem : Text) → P c → Only P (perform env c problem)
  unfolding perform
  Only-perform env c problem p =
      Only-bind (Only-try_call env c p) (λ worked. Only-if worked Only-return Only-lift)

  pub Only-ask :
      {A : Type 0} (env : Environment) (question : List Event → Result Text A)
      → Only P (ask env question)
  unfolding ask
  Only-ask {A} env question = record { from = λ w. by_answer (question w.trace) w }
    where
      by_answer :
          (r : Result Text A) (w : World) → After (λ _ v. Extends P w v) (Extends P w) (r, w)
      by_answer (ok a) w = Extends-refl P w
      by_answer (err e) w = Extends-refl P w

pub Only-weaken :
    {A : Type 0} {P Q : Call → Type 0} {m : Step A} → ((c : Call) → P c → Q c) → Only P m → Only Q m
Only-weaken {P} {Q} {m} f h = record {
  from = λ w.
      After-weaken (λ _ v. Extends P w v) (λ _ v. Extends Q w v) (Extends P w) (Extends Q w) (m w)
        (λ _ v. each w v) (each w) (h.from w);
}
  where
    all : (es : List Event) → All (λ (e : Event). P e.call) es → All (λ (e : Event). Q e.call) es
    all [] a = tt
    all (e ∷ es) a = (f e.call a.0, all es a.1)

    each : (w v : World) → Extends P w v → Extends Q w v
    each w v e = record {
      new_events = e.new_events;
      trace_grows = e.trace_grows;
      all_of_kind = all e.new_events e.all_of_kind;
    }

-- What is read of the world, and a program that is given by it
pub Only-read : {A : Type 0} {P : Call → Type 0} {f : World → A} → Only P (λ w. (ok (f w), w))
Only-read {P} = record { from = λ w. Extends-refl P w }

pub Only-given :
    {A B : Type 0} {P : Call → Type 0} {f : World → A} {m : A → Step B}
    → ((a : A) → Only P (m a))
    → Only P (λ w. m (f w) w)
Only-given {f} h = record { from = λ w. (h (f w)).from w }
