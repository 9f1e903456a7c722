-- ===== src/Engine/Protocol/Followed.antt =====
-- Every pass follows the order of the calls.
use sync_hub_for_agents.Base.{
  ℕ, zero, suc, refl, Bool, true, false, Option, none, some, List, [], ◌∷◌, inl,
}
use sync_hub_for_agents.Base.{nat_eq, if◌then◌else◌}
use sync_hub_for_agents.Base.Text.{Text, codes}
use sync_hub_for_agents.Base.Result.{Result, ok, err}
use sync_hub_for_agents.Base.Stateful.{◌>>=◌, ◌>>◌, return, lift, After, After-bind}
use sync_hub_for_agents.State.{Snapshot}
use sync_hub_for_agents.Resource.Model.{Issue}
use sync_hub_for_agents.Sync.Planning.{RemoteSplit, split_remote_snapshot}
use sync_hub_for_agents.Engine.{
  publish, close_stage, commit, push, fetch_origin, reset_upstream, add_all, saw_changes, log,
  save_state, capture_base, World, Step, Environment, Engine, Progress, SyncResult, try_call,
  perform, ask, preserve_snapshot,
}
use sync_hub_for_agents.Engine.Apply.{Loop}
use sync_hub_for_agents.Engine.Pass.{Prepared, Pass, validate, without_internal}
use sync_hub_for_agents.Engine.Cycle.{
  announce_stage, final_result, record_state, record_split, finish, rejected, look_for_changes,
  upload, plan_pass, reconcile_pass, close_after, with_stage, cycle, prepare, apply_pass,
  sync_attempts, attempts_of, sync_once,
}
use sync_hub_for_agents.Engine.Resolve.{with_specs, resolve_pending}
use sync_hub_for_agents.Engine.Only.{Only-perform}
use sync_hub_for_agents.Engine.Protocol.{
  Phase, working, changed, committed, push_rejected, fetched, uploaded, recorded, done, uncaptured,
  stopped, In, Allowed, allow,
}
use sync_hub_for_agents.Engine.Protocol.Kept.{
  After-Work, In-try_call, In-perform, In-free, In-ask, after_event-some,
}
use sync_hub_for_agents.Engine.Protocol.Work.{prepare-Work, resolve_pending-Work, apply_pass-Work}

-- A pass with a result has captured the base, and the result knows whether there was a push.
abbrev pub Finished : SyncResult → World → Type 0
Finished r v = In (done r.pushed) v

-- From a phase on, a program ends as a pass ends.
abbrev Follows : Phase → Step SyncResult → Type 0
Follows p m = (w : World) → In p w → After Finished Allowed (m w)

-- What is done after a rejected push ends as a pass ends.
abbrev Retried : Option (Engine → Step SyncResult) → Type 0
Retried none = Unit
Retried (some again) = (e : Engine) → Follows working (again e)

-- The phase after the look for changes
abbrev phase_by : Bool → Phase
phase_by true = changed
phase_by false = uploaded false

module _ (env : Environment) (e : Engine) where
  record_state-Follows :
      (base : Snapshot) (p : Pass) (l : Loop) (b : Bool) (current : Snapshot)
      → Follows (uploaded b) (record_state env e base p l b current)
  unfolding record_state final_result
  record_state-Follows base p l b current w h =
      After-bind (λ _ v. In (recorded b) v) Finished Allowed
        (perform env (save_state (preserve_snapshot p.plan.base current l.preserve))
          (codes "save state"))
        _ w (In-perform env _ _ w (uploaded b) (recorded b) stopped h refl refl)
        (λ _ v g.
          After-bind (λ captured u. In (if captured then done b else uncaptured) u) Finished Allowed
            (try_call env (capture_base current l.preserve)) _ v
            (In-try_call env _ v (recorded b) (done b) uncaptured g refl refl)
            (λ captured u k. by_captured captured u k))
    where
      by_captured :
          (captured : Bool) (u : World)
          → In (if captured then done b else uncaptured) u
          → After Finished Allowed (
              (if captured
                  then return (final_result env e b l.result)
                  else (do try_call env (save_state base); lift (err (codes "capture base"))))
                u)
      by_captured true u k = k
      by_captured false u k =
          After-bind (λ worked x. In (if worked then stopped else stopped) x) Finished Allowed
            (try_call env (save_state base)) _ u
            (In-try_call env _ u uncaptured stopped stopped k refl refl)
            (λ worked x i. allow (if worked then stopped else stopped) x i)

  record_split-Follows :
      (base : Snapshot) (p : Pass) (l : Loop) (b : Bool) (parts : RemoteSplit)
      → Follows (uploaded b) (record_split env e base p l b parts)
  unfolding record_split
  record_split-Follows base p l b parts w h = by_blocked parts.blocked_issues
    where
      by_blocked :
          (blocked : List Issue)
          → After Finished Allowed (
              (elim blocked as (λ _. Step SyncResult) [
                | [] ↦ record_state env e base p l b (without_internal parts.owned_files)
                | _ ∷ _ ↦ lift (err (codes "malformed portable paths"))
              ])
                w)
      by_blocked [] = record_state-Follows base p l b _ w h
      by_blocked (_ ∷ _) = allow (uploaded b) w h

  finish-Follows :
      (base : Snapshot) (p : Pass) (l : Loop) (b : Bool)
      → Follows (uploaded b) (finish env e base p l b)
  unfolding finish
  finish-Follows base p l b w h =
      After-bind (λ _ v. In (uploaded b) v) Finished Allowed (ask env env.snapshot_repo) _ w
        (In-ask env env.snapshot_repo w (uploaded b) h)
        (λ current v g.
          record_split-Follows base p l b
            (split_remote_snapshot env.to_lower env.is_abs env.file_to_slash env.path_message
              e.resources current)
            v g)

  rejected-Follows :
      (retry : Option (Engine → Step SyncResult))
      → Retried retry
      → Follows push_rejected (rejected env e retry)
  unfolding rejected
  rejected-Follows none f w h = allow push_rejected w h
  rejected-Follows (some again) f w h =
      After-bind (λ _ v. In fetched v) Finished Allowed (perform env fetch_origin _) _ w
        (In-perform env _ _ w push_rejected fetched stopped h refl refl)
        (λ _ v g.
          After-bind (λ _ u. In working u) Finished Allowed (perform env reset_upstream _) _ v
            (In-perform env _ _ v fetched working stopped g refl refl) (λ _ u k. f e u k))

  look_for_changes-In :
      (w : World)
      → In working w
      → After (λ b v. In (phase_by b) v) Allowed (look_for_changes env e w)
  unfolding look_for_changes
  look_for_changes-In w h = by_answer (env.has_changes w.trace)
    where
      by_answer :
          (r : Result Text Bool)
          → After
              (λ b v. In (phase_by b) v)
              Allowed
              (elim r as (λ _. Result Text Bool × World) [
                | ok b ↦ (ok b, log saw_changes b w)
                | err c ↦ (err c, w)
              ])
      by_answer (ok true) = after_event-some w.trace working _ _ h refl
      by_answer (ok false) = after_event-some w.trace working _ _ h refl
      by_answer (err c) = allow working w h

  announce_stage-In :
      (p : Progress) (phase : Phase) (w : World)
      → In phase w
      → After (λ _ v. In phase v) Allowed (announce_stage env e p w)
  unfolding announce_stage
  announce_stage-In p phase w h =
      After-bind (λ _ v. In phase v) (λ _ v. In phase v) Allowed (try_call env (publish p)) _ w
        (In-free env (publish p) w phase refl h) (λ _ v g. g)

  upload-Follows :
      (retry : Option (Engine → Step SyncResult)) (base : Snapshot) (p : Pass) (l : Loop) (b : Bool)
      → Retried retry
      → Follows (phase_by b) (upload env e retry base p l b)
  unfolding upload
  upload-Follows retry base p l false f w h = finish-Follows base p l false w h
  upload-Follows retry base p l true f w h =
      After-bind (λ _ v. In committed v) Finished Allowed (perform env commit _) _ w
        (In-perform env _ _ w changed committed stopped h refl refl)
        (λ _ v g.
          After-bind (λ _ u. In committed u) Finished Allowed (announce_stage env e _) _ v
            (announce_stage-In _ committed v g)
            (λ _ u k.
              After-bind (λ pushed x. In (if pushed then uploaded true else push_rejected) x)
                Finished Allowed (try_call env push) _ u
                (In-try_call env push u committed (uploaded true) push_rejected k refl refl)
                (λ pushed x i. by_push pushed x i)))
    where
      by_push :
          (pushed : Bool) (x : World)
          → In (if pushed then uploaded true else push_rejected) x
          → After Finished Allowed
              ((if pushed then finish env e base p l true else rejected env e retry) x)
      by_push true x i = finish-Follows base p l true x i
      by_push false x i = rejected-Follows retry f x i

  close_after-Follows :
      (r : Result Text SyncResult) (v : World)
      → After Finished Allowed (r, v)
      → After Finished Allowed (close_after env e r v)
  unfolding close_after
  close_after-Follows (ok a) v h =
      After-bind (λ _ u. In (done a.pushed) u) Finished Allowed (try_call env close_stage) _ v
        (In-free env close_stage v (done a.pushed) refl h) (λ closed u g. by_closed closed u g)
    where
      by_closed :
          (closed : Bool) (u : World)
          → In (done a.pushed) u
          → After Finished Allowed ((if closed then return a else lift (err (codes "close"))) u)
      by_closed true u g = g
      by_closed false u g = allow (done a.pushed) u g
  close_after-Follows (err c) v h =
      After-bind (λ _ u. In h.phase u) Finished Allowed (try_call env close_stage) _ v
        (In-free env close_stage v h.phase refl h.is_in) (λ closed u g. by_closed closed u g)
    where
      by_closed :
          (closed : Bool) (u : World)
          → In h.phase u
          → After Finished Allowed
              ((if closed then lift {A = SyncResult} (err c) else lift (err c)) u)
      by_closed true u g = allow h.phase u g
      by_closed false u g = allow h.phase u g

module _ (env : Environment) where
  reconcile_pass-Follows :
      (e : Engine) (retry : Option (Engine → Step SyncResult)) (q : Prepared)
      → Retried retry
      → Follows working (reconcile_pass env e retry q)
  unfolding reconcile_pass
  reconcile_pass-Follows e retry q f w h =
      After-bind (λ _ v. In working v) Finished Allowed
        (resolve_pending env (with_specs e q.remote) q.base q.remote q.collected) _ w
        (After-Work _ w
          (resolve_pending-Work env (with_specs e q.remote) q.base q.remote q.collected) h)
        (λ r v g.
          After-bind (λ _ u. In working u) Finished Allowed
            (announce_stage env (with_specs e r.remote) _) _ v
            (announce_stage-In env (with_specs e r.remote) _ working v g)
            (λ _ u k.
              After-bind (λ _ x. In working x) Finished Allowed
                (apply_pass env (with_specs e r.remote)
                  (plan_pass env (with_specs e r.remote) q.base r))
                _ u
                (After-Work _ u
                  (apply_pass-Work env (with_specs e r.remote)
                    (plan_pass env (with_specs e r.remote) q.base r))
                  k)
                (λ l x i.
                  After-bind (λ _ y. In working y) Finished Allowed (perform env add_all _) _ x
                    (After-Work _ x (Only-perform env add_all _ (inl refl)) i)
                    (λ _ y j.
                      After-bind (λ b z. In (phase_by b) z) Finished Allowed
                        (look_for_changes env (with_specs e r.remote)) _ y
                        (look_for_changes-In env (with_specs e r.remote) y j)
                        (λ b z t.
                          upload-Follows env (with_specs e r.remote) retry q.base
                            (plan_pass env (with_specs e r.remote) q.base r) l b f z t)))))

  cycle-Follows :
      (e : Engine) (retry : Option (Engine → Step SyncResult))
      → Retried retry
      → Follows working (cycle env e retry)
  unfolding cycle with_stage
  cycle-Follows e retry f w h = by_valid (validate e)
    where
      by_valid :
          (valid : Bool)
          → After Finished Allowed (
              (if valid
                  then (prepare env e >>= λ q. with_stage env e (reconcile_pass env e retry q))
                  else lift (err (codes "validate")))
                w)
      by_valid false = allow working w h
      by_valid true =
          After-bind (λ _ v. In working v) Finished Allowed (prepare env e) _ w
            (After-Work _ w (prepare-Work env e) h)
            (λ q v g. close_after-Follows env e _ _ (reconcile_pass-Follows e retry q f v g))

  sync_attempts-Follows : (n : ℕ) (e : Engine) → Follows working (sync_attempts env n e)
  unfolding sync_attempts
  sync_attempts-Follows zero e = cycle-Follows e none tt
  sync_attempts-Follows (suc zero) e = cycle-Follows e none tt
  sync_attempts-Follows (suc (suc n)) e =
      cycle-Follows e (some (sync_attempts env (suc n))) (sync_attempts-Follows (suc n))

  -- Whatever the calls answer, a synchronization ends, with all its attempts, and its calls follow the
  -- order: the repository is only committed to when it has changes, pushed to after a commit, and
  -- only fetched and put back after a rejected push; the state is only saved when the push went
  -- through or there was nothing to push, the base only captured after that, and the state only saved
  -- again if that fails. If the synchronization has a result, the base was captured, nothing but news
  -- and the closing of the stage came after it, and `pushed` tells whether there was a push.
  pub sync_once-Follows :
      (e : Engine) → After Finished Allowed (sync_once env e (record { trace = [] }))
  unfolding sync_once
  sync_once-Follows e = sync_attempts-Follows (attempts_of e.push_retries) e _ refl
