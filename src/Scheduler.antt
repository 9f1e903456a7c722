-- ===== src/Scheduler.antt =====
-- internal/scheduler/scheduler.go: the state of `Scheduler` and what its methods do under the lock.
-- A duration is a count of nanoseconds. A time is one too, from Go's zero time, which is 0. A full
-- channel of capacity 1 is `true`. The clock's reading is the argument `now`.
pub mod System
pub mod Schedule
pub mod Pausing
pub mod Visible
use sync_hub_for_agents.Base.{
  ℕ, suc, ◌+◌, ◌-◌, Bool, true, false, not, ◌&&◌, ◌||◌, Option, none, some, List, [], ◌∷◌, map, ℤ,
  pos, negsuc,
}
use sync_hub_for_agents.Base.{◌==◌, nat_eq, ltb, if◌then◌else◌}
use Prim.Native.Nat.{zero, ◌%◌, ◌^◌}

pub data State : Type 0 where
  idle : State
  updating : State
  done : State
  error : State
  paused : State

-- The observers are known by their subscription numbers.
pub record Scheduler : Type 0 where
  pub interval : ℕ
  pub paused : Bool
  pub state : State
  pub next_run : ℕ
  pub running : Bool
  pub job_running : Bool
  pub cancelled : Bool
  pub next_sub_id : ℕ
  pub subscribers : List ℕ
  pub trigger : Bool
  pub interval_change : Bool

abbrev pub default_interval : ℕ
default_interval = 600_000_000_000

-- Non-positive intervals become the default.
unfoldable pub positive_interval : ℤ → ℕ
positive_interval (pos zero) = default_interval
positive_interval (pos (suc n)) = suc n
positive_interval (negsuc n) = default_interval

-- `New`
unfoldable pub new : ℤ → Scheduler
unfolding positive_interval
new interval = record {
  interval = positive_interval interval;
  paused = false;
  state = idle;
  next_run = 0;
  running = false;
  job_running = false;
  cancelled = false;
  next_sub_id = 0;
  subscribers = [];
  trigger = false;
  interval_change = false;
}

-- `notifyIntervalChange`
unfoldable pub notify_interval_change : Scheduler → Scheduler
notify_interval_change s = record s { interval_change = true }

-- `SetInterval` under the lock
unfoldable pub store_interval : ℤ → ℕ → Scheduler → Scheduler
unfolding positive_interval
store_interval interval now s =
    let i = positive_interval interval in
    if s.running && (not s.paused && not s.cancelled)
    then record s { interval = i; next_run = now + i }
    else record s { interval = i }

without : ℕ → List ℕ → List ℕ
without id [] = []
without id (j ∷ ids) = let rest = without id ids in if id == j then rest else j ∷ rest

-- The function that `Subscribe` returns
unfoldable pub unsubscribe : ℕ → Scheduler → Scheduler
unfolding without
unsubscribe id s = record s { subscribers = without id s.subscribers }

-- `Subscribe`
unfoldable pub subscribe : Scheduler → ℕ × Scheduler
unfolding without
subscribe s = (
  s.next_sub_id,
  record s {
    next_sub_id = (s.next_sub_id + 1) % 2 ^ 64;
    subscribers = s.next_sub_id ∷ without s.next_sub_id s.subscribers;
  },
)

-- `Trigger`
unfoldable pub trigger : Scheduler → Scheduler
trigger s = if s.running && s.cancelled then s else record s { trigger = true }

-- `Pause` under the lock
unfoldable pub mark_paused : Scheduler → Scheduler
mark_paused s = record s { paused = true; next_run = 0 }

-- `PauseIfIdle` under the lock
unfoldable pub mark_paused_if_idle : Scheduler → Scheduler × Bool
unfolding mark_paused
mark_paused_if_idle s = if s.job_running then (s, false) else (mark_paused s, true)

-- `Resume` under the lock
unfoldable pub mark_resumed : ℕ → Scheduler → Scheduler
mark_resumed now s =
    if s.running && not s.cancelled
    then record s { paused = false; next_run = now + s.interval }
    else record s { paused = false }

-- `setState`, with the calls of the observers
unfoldable pub set_state : State → Scheduler → Scheduler × List (ℕ × State)
set_state st s = (record s { state = st }, map (λ observer. (observer, st)) s.subscribers)

-- `runCycleBeforeTerminal` up to the job, under the lock; `none` if the scheduler is paused
unfoldable pub enter_cycle : Scheduler → Option Scheduler
enter_cycle s = if s.paused then none else some (record s { job_running = true })

-- Its deferred function
unfoldable pub leave_cycle : Scheduler → Scheduler
leave_cycle s = record s { job_running = false }

-- `beginRun`; the interval is given if the run is armed
unfoldable pub begin_run : ℕ → Scheduler → Scheduler × Option ℕ
begin_run now s = if s.running then (s, none) else (
  record s {
    running = true;
    cancelled = false;
    next_run = if s.paused then 0 else now + s.interval;
  },
  some s.interval,
)

-- `cancelRun`
unfoldable pub cancel_run : Scheduler → Scheduler
cancel_run s = if s.running then record s { cancelled = true; next_run = 0; trigger = false } else s

-- `endRun`
unfoldable pub end_run : Scheduler → Scheduler
end_run s = record s { running = false; cancelled = false; next_run = 0 }

-- Whether a run is scheduled at all
abbrev pub is_unscheduled : Scheduler → Bool
is_unscheduled s = (s.paused || (not s.running || s.cancelled)) || s.next_run == 0

-- `resetTimer`: the delay that the timer is set to, if it is. A delay below 0 becomes 0, as does
-- the difference of natural numbers.
unfoldable pub reset_timer : ℕ → Scheduler → Option ℕ
reset_timer now s = if is_unscheduled s then none else some (s.next_run - now)

-- `timerEventCurrent`
unfoldable pub timer_event_current : ℕ → Scheduler → Bool
timer_event_current fired_at s = if is_unscheduled s then false else not (ltb fired_at s.next_run)

-- `rearmAfterCycle` with the delay for the timer; `none` stands for its result `false`
unfoldable pub rearm_after_cycle : ℕ → Scheduler → Scheduler × Option ℕ
rearm_after_cycle now s =
    if s.paused || (not s.running || s.cancelled)
    then (record s { next_run = 0 }, none)
    else (record s { next_run = now + s.interval }, some s.interval)

-- The methods as wholes, when no other goroutine comes between their steps.

-- `Pause`
unfoldable pub pause : Scheduler → Scheduler × List (ℕ × State)
unfolding mark_paused set_state notify_interval_change
pause s =
    let (s', calls) = set_state State.paused (mark_paused s) in (notify_interval_change s', calls)

-- `Resume`
unfoldable pub resume : ℕ → Scheduler → Scheduler × List (ℕ × State)
unfolding mark_resumed set_state notify_interval_change
resume now s =
    let (s', calls) = set_state idle (mark_resumed now s) in (notify_interval_change s', calls)

-- `SetInterval`
unfoldable pub set_interval : ℤ → ℕ → Scheduler → Scheduler
unfolding store_interval notify_interval_change
set_interval interval now s = notify_interval_change (store_interval interval now s)
