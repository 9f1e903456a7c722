-- ===== src/Scheduler/System.antt =====
-- `Run`, `runAndRearm` and `runCycleBeforeTerminal` of internal/scheduler/scheduler.go, with the
-- calls of other goroutines in between. One step is one region under the lock, one operation on a
-- channel or the timer, or one test of the context; any event may come at any time, and one that
-- is not enabled changes nothing.
use sync_hub_for_agents.Base.{
  ℕ, zero, suc, Bool, true, false, not, ◌&&◌, Option, none, some, List, [], ◌∷◌, ◌++◌, ℤ,
}
use sync_hub_for_agents.Base.{◌==◌, nat_eq, if◌then◌else◌}
use sync_hub_for_agents.Scheduler.{
  State, Scheduler, new, idle, updating, done, error, notify_interval_change, store_interval,
  trigger as request_run, mark_paused, mark_paused_if_idle, mark_resumed, set_state, enter_cycle,
  leave_cycle, begin_run, cancel_run, end_run, reset_timer, timer_event_current, rearm_after_cycle,
}

-- Where the goroutine of `Run` stands.
pub data Loop : Type 0 where
  off : Loop  -- not in `Run`
  begun : Loop  -- before the first look at `NextRun`
  waiting : Loop  -- in the `select`
  called : Loop  -- in `runAndRearm`, before the cycle's first lock
  entered : Loop  -- before `setState(StateUpdating)`
  working : Loop  -- in the job
  returned : Bool → Loop  -- the job is back, with an error or not
  rearming : Bool → Loop  -- the context was not cancelled
  rearmed : Bool → Loop  -- before `isPaused`
  concluding : State → Loop  -- before the last `setState`
  leaving : Loop  -- before the deferred unlock of the job
  stopping : Loop  -- in the deferred function of `Run`

-- What a caller that has left the lock still has to do.
pub data Owed : Type 0 where
  publish : State → Owed
  notify : Owed

pub record System : Type 0 where
  pub sched : Scheduler
  pub loop : Loop
  pub timer : Option ℕ
  pub ctx_done : Bool
  pub owed : List Owed

pub data Event : Type 0 where
  set_interval : ℤ → ℕ → Event
  trigger : Event
  pause : Event
  pause_if_idle : Event
  resume : ℕ → Event
  serve : ℕ → Event  -- the caller at this place goes on
  run : ℕ → Event
  cancel : Event  -- of the context
  watch : Event  -- the watcher's `cancelRun`
  on_interval_change : ℕ → Event
  on_timer : ℕ → ℕ → Event  -- at a time, with the timer's own
  on_trigger : Event
  on_done : Event
  advance : ℕ → Bool → Event  -- the loop goes on; a job returns an error or not

abbrev owe : Owed → System → System
owe o y = record y { owed = y.owed ++ (o ∷ []) }

-- The entry at a place, and the list without it.
unfoldable pub pick : ℕ → List Owed → Option (Owed × List Owed)
pick i [] = none
pick zero (o ∷ os) = some (o, os)
pick (suc i) (o ∷ os) = elim (pick i os) [ none ↦ none | some (p, ps) ↦ some (p, o ∷ ps) ]

abbrev pub serve_one : System → Option (Owed × List Owed) → System
serve_one y none = y
serve_one y (some (publish st, rest)) = record y {
  sched = (set_state st y.sched).0;
  owed = rest ++ (notify ∷ []);
}
serve_one y (some (notify, rest)) = record y { sched = notify_interval_change y.sched; owed = rest }

abbrev with_interval : System → Scheduler × Option ℕ → System
with_interval y (s, none) = y
with_interval y (s, some interval) = record y {
  sched = s;
  loop = begun;
  timer = some interval;
  ctx_done = false;
}

abbrev enter : System → Option Scheduler → System
enter y none = record y { loop = waiting }
enter y (some s) = record y { sched = s; loop = entered }

abbrev rearm : System → Bool → Scheduler × Option ℕ → System
rearm y failed (s, none) = record y { sched = s; loop = leaving }
rearm y failed (s, some delay) = record y { sched = s; loop = rearmed failed; timer = some delay }

-- The goroutine of `Run` at one place, outside of the `select`.
unfoldable pub advance_loop : Loop → ℕ → Bool → System → System
unfolding set_state enter_cycle cancel_run rearm_after_cycle leave_cycle end_run
advance_loop begun now failed y =
    let t = if y.sched.next_run == 0 then none else y.timer in
    record y { loop = waiting; timer = t }
advance_loop called now failed y = enter y (enter_cycle y.sched)
advance_loop entered now failed y = record y {
  sched = (set_state updating y.sched).0;
  loop = working;
}
advance_loop working now failed y = record y { loop = returned failed }
advance_loop (returned e) now failed y =
    if y.ctx_done
    then record y { sched = cancel_run y.sched; loop = leaving }
    else record y { loop = rearming e }
advance_loop (rearming e) now failed y = rearm y e (rearm_after_cycle now y.sched)
advance_loop (rearmed e) now failed y = record y {
  loop = if y.sched.paused then leaving else concluding (if e then error else done);
}
advance_loop (concluding st) now failed y = record y {
  sched = (set_state st y.sched).0;
  loop = leaving;
}
advance_loop leaving now failed y = record y { sched = leave_cycle y.sched; loop = waiting }
advance_loop stopping now failed y =
    let s = if y.ctx_done then cancel_run y.sched else y.sched in
    record y { sched = end_run s; loop = off; timer = none }
advance_loop off now failed y = y
advance_loop waiting now failed y = y

-- A case of the `select`, which `received` is left by: the context is looked at first.
unfoldable pub select_case : Loop → System → System → System → System
select_case waiting y received chosen =
    if received.ctx_done then record received { loop = stopping } else chosen
select_case _ y received chosen = y

abbrev pub is_off : Loop → Bool
is_off off = true
is_off _ = false

unfoldable pub step : Event → System → System
unfolding advance_loop select_case store_interval request_run mark_paused mark_paused_if_idle
    mark_resumed begin_run reset_timer timer_event_current notify_interval_change
step (set_interval interval now) y =
    owe notify (record y { sched = store_interval interval now y.sched })
step trigger y = record y { sched = request_run y.sched }
step pause y = owe (publish State.paused) (record y { sched = mark_paused y.sched })
step pause_if_idle y =
    let (s, idle_now) = mark_paused_if_idle y.sched in
    if idle_now then owe (publish State.paused) (record y { sched = s }) else y
step (resume now) y = owe (publish idle) (record y { sched = mark_resumed now y.sched })
step (serve i) y = serve_one y (pick i y.owed)
step (run now) y = if is_off y.loop then with_interval y (begin_run now y.sched) else y
step cancel y = record y { ctx_done = true }
step watch y =
    if y.ctx_done && not (is_off y.loop) then record y { sched = cancel_run y.sched } else y
step (on_interval_change now) y =
    if y.sched.interval_change
    then select_case y.loop y (record y { sched = record (y.sched) { interval_change = false } })
        (record y {
          sched = record (y.sched) { interval_change = false };
          timer = reset_timer now y.sched;
        })
    else y
step (on_timer now fired_at) y =
    select_case y.loop y (record y { timer = none })
      (if timer_event_current fired_at y.sched
        then record y { timer = none; loop = called }
        else record y { timer = reset_timer now y.sched })
step on_trigger y =
    if y.sched.trigger
    then select_case y.loop y (record y { sched = record (y.sched) { trigger = false } })
        (record y { sched = record (y.sched) { trigger = false }; timer = none; loop = called })
    else y
step on_done y = if y.ctx_done then select_case y.loop y y y else y
step (advance now failed) y = advance_loop y.loop now failed y

-- A schedule of events.
unfoldable pub run_events : List Event → System → System
run_events [] y = y
run_events (e ∷ es) y = run_events es (step e y)

-- A scheduler that nobody uses yet.
unfoldable pub start : ℤ → System
unfolding new
start interval = record {
  sched = new interval;
  loop = off;
  timer = none;
  ctx_done = false;
  owed = [];
}
