-- ===== src/Install/Store/Contents.antt =====
-- What the operations of the store read and change.
use mathlib.Core.Path.{subst}
use sync_hub_for_agents.Base.{
  ◌≡◌, refl, sym, ◌∙◌, ap, Bool, true, false, ◌||◌, Option, none, some, List, [], arith,
}
use sync_hub_for_agents.Base.{◌==◌, true_of_eq, nat_eq, if◌then◌else◌}
use sync_hub_for_agents.Base.Text.{Text, text_eq}
use sync_hub_for_agents.Base.Dict.{Dict, insert, lookup-insert}
use sync_hub_for_agents.Base.Result.{ok, err}
use sync_hub_for_agents.Base.Stateful.{After, After-bind, After-weaken, return}
use sync_hub_for_agents.Install.{Operation, store_failed}
use sync_hub_for_agents.Install.Store.{
  Stored, missing, damaged, holds, World, is_applied, approval_status, mark_applied, in_set,
  approval_key, applied_key, load_set, read_json, write_json, next_answer, with_applied, decoded,
}

abbrev pub set_of : Stored (Dict Text Bool) → Dict Text Bool
set_of missing = []
set_of damaged = []
set_of (holds values) = values

in_set-insert :
    (j k : Text) (d : Dict Text Bool) → in_set j (insert k true d) ≡ (j == k || in_set j d)
unfolding in_set
in_set-insert j k d = ground (arith, lookup-insert j k true d)

or_true : (a b : Bool) → b ≡ true → (a || b) ≡ true
or_true true b h = refl
or_true false b h = h

-- Two worlds that differ at most in the answers to come.
pub record Same (w v : World) : Type 0 where
  pub same_pending : v.pending ≡ w.pending
  pub same_approvals : v.approvals ≡ w.approvals
  pub same_applied : v.applied ≡ w.applied
  pub same_runs : v.runs ≡ w.runs

pub Same-refl : (w : World) → Same w w
Same-refl w = record {
  same_pending = refl;
  same_approvals = refl;
  same_applied = refl;
  same_runs = refl;
}

pub Same-trans : (u v w : World) → Same u v → Same v w → Same u w
Same-trans u v w a b = record {
  same_pending = b.same_pending ∙ a.same_pending;
  same_approvals = b.same_approvals ∙ a.same_approvals;
  same_applied = b.same_applied ∙ a.same_applied;
  same_runs = b.same_runs ∙ a.same_runs;
}

other_answers_only : (w : World) (rest : List Bool) → Same w (record w { answers = rest })
other_answers_only w rest = record {
  same_pending = refl;
  same_approvals = refl;
  same_applied = refl;
  same_runs = refl;
}

next_answer-Same : (w : World) → After (λ _ v. Same w v) (Same w) (next_answer w)
unfolding next_answer
next_answer-Same w = by_answer _ _ (other_answers_only w _)
  where
    by_answer :
        (b : Bool) (v : World)
        → Same w v
        → After (λ _ u. Same w u) (Same w) ((if b then ok tt else err store_failed), v)
    by_answer true v s = s
    by_answer false v s = s

pub read_json-Same :
    {A : Type 0} (file : World → Stored A) (w : World)
    → After (λ o v. Same w v × (decoded (file v) ≡ ok o)) (Same w) (read_json file w)
unfolding read_json
read_json-Same {A} file w =
    After-bind (λ _ v. Same w v) (λ o v. Same w v × (decoded (file v) ≡ ok o)) (Same w) next_answer
      (λ _ v. (decoded (file v), v)) w (next_answer-Same w) (λ _ v s. by_file (file v) v s refl)
  where
    by_file :
        (f : Stored A) (v : World)
        → Same w v
        → file v ≡ f
        → After (λ o u. Same w u × (decoded (file u) ≡ ok o)) (Same w) (decoded f, v)
    by_file missing v s e = (s, ap decoded e)
    by_file damaged v s e = s
    by_file (holds a) v s e = (s, ap decoded e)

pub load_set-Same :
    (file : World → Stored (Dict Text Bool)) (w : World)
    → After (λ d v. Same w v × (d ≡ set_of (file v))) (Same w) (load_set file w)
unfolding load_set
load_set-Same file w =
    After-bind (λ o v. Same w v × (decoded (file v) ≡ ok o))
      (λ d v. Same w v × (d ≡ set_of (file v))) (Same w) (read_json file)
      (λ o. return (elim o [ none ↦ [] | some values ↦ values ])) w (read_json-Same file w)
      (λ o v h. (h.0, by_file (file v) o h.1))
  where
    by_file :
        (f : Stored (Dict Text Bool)) (o : Option (Dict Text Bool))
        → decoded f ≡ ok o
        → elim o [ none ↦ [] | some values ↦ values ] ≡ set_of f
    by_file missing o h = ground arith
    by_file damaged o h = cc
    by_file (holds a) o h = ground arith

-- A write changes one file, or nothing.
pub write_json-Same :
    (replace : World → World) (w : World)
    → After (λ _ v. (u : World) × Same w u × (v ≡ replace u)) (Same w) (write_json replace w)
unfolding write_json
write_json-Same replace w =
    After-bind (λ _ v. Same w v) (λ _ v. (u : World) × Same w u × (v ≡ replace u)) (Same w)
      next_answer (λ _ v. (ok tt, replace v)) w (next_answer-Same w) (λ _ v s. (v, s, refl))

module _ (digest : Text → Text) where
  abbrev pub approved_in : World → Operation → Bool
  approved_in w o = in_set (approval_key digest o) (set_of w.approvals)

  abbrev pub applied_in : World → Operation → Bool
  applied_in w o = in_set (applied_key digest o) (set_of w.applied)

  pub is_applied-Same :
      (o : Operation) (w : World)
      → After (λ b v. Same w v × (b ≡ applied_in v o)) (Same w) (is_applied digest o w)
  unfolding is_applied
  is_applied-Same o w =
      After-bind (λ d v. Same w v × (d ≡ set_of v.applied)) (λ b v. Same w v × (b ≡ applied_in v o))
        (Same w) (load_set (λ v. v.applied)) (λ d. return (in_set (applied_key digest o) d)) w
        (load_set-Same (λ v. v.applied) w) (λ d v h. (h.0, ap (in_set (applied_key digest o)) h.1))

  pub approval_status-Same :
      (o : Operation) (w : World)
      → After (λ b v. Same w v × (b ≡ approved_in v o)) (Same w) (approval_status digest o w)
  unfolding approval_status
  approval_status-Same o w =
      After-bind (λ d v. Same w v × (d ≡ set_of v.approvals))
        (λ b v. Same w v × (b ≡ approved_in v o)) (Same w) (load_set (λ v. v.approvals))
        (λ d. return (in_set (approval_key digest o) d)) w (load_set-Same (λ v. v.approvals) w)
        (λ d v h. (h.0, ap (in_set (approval_key digest o)) h.1))

  -- After an operation is marked it is applied, and what was applied stays so.
  pub record Marked (o : Operation) (w v : World) : Type 0 where
    pub marked : applied_in v o ≡ true
    pub still_applied : (p : Operation) → applied_in w p ≡ true → applied_in v p ≡ true
    pub marked_approvals : v.approvals ≡ w.approvals
    pub marked_pending : v.pending ≡ w.pending
    pub marked_runs : v.runs ≡ w.runs

  with_applied-Marked :
      (o : Operation) (d : Dict Text Bool) (w u : World)
      → Same w u
      → d ≡ set_of u.applied
      → Marked o w (with_applied (holds (insert (applied_key digest o) true d)) u)
  with_applied-Marked o d w u s e = record {
    marked =
        in_set-insert (applied_key digest o) (applied_key digest o) d
        ∙ ap (λ b. b || in_set (applied_key digest o) d)
            (true_of_eq (applied_key digest o) (applied_key digest o) refl);
    still_applied = λ p h.
        in_set-insert (applied_key digest p) (applied_key digest o) d
        ∙ or_true _ _ (ap (in_set (applied_key digest p)) (e ∙ ap set_of s.same_applied) ∙ h);
    marked_approvals = s.same_approvals;
    marked_pending = s.same_pending;
    marked_runs = s.same_runs;
  }

  pub mark_applied-Marked :
      (o : Operation) (w : World) → After (λ _ v. Marked o w v) (Same w) (mark_applied digest o w)
  unfolding mark_applied
  mark_applied-Marked o w =
      let replace = λ (d : Dict Text Bool) (v : World).
        with_applied (holds (insert (applied_key digest o) true d)) v in
      After-bind (λ d v. Same w v × (d ≡ set_of v.applied)) (λ _ v. Marked o w v) (Same w)
        (load_set (λ v. v.applied)) (λ d. write_json (replace d)) w
        (load_set-Same (λ v. v.applied) w)
        (λ d v h.
          After-weaken (λ _ t. (u : World) × Same v u × (t ≡ replace d u)) (λ _ t. Marked o w t)
            (Same v) (Same w) (write_json (replace d) v)
            (λ _ t k.
              let (u, same, written) = k in
              subst (Marked o w) (sym written) (
                with_applied-Marked o d w u (Same-trans w v u h.0 same)
                  (h.1 ∙ ap set_of (sym same.same_applied))))
            (λ t k. Same-trans w v t h.0 k) (write_json-Same (replace d) v))
