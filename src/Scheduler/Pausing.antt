-- ===== src/Scheduler/Pausing.antt =====
-- What `Pause`, `PauseIfIdle` and `Trigger` achieve when other goroutines come in between.
use sync_hub_for_agents.Base.{ℕ, ◌≡◌, refl, Bool, true, false, ◌&&◌, List, [], ◌∷◌, arith}
use sync_hub_for_agents.Scheduler.System.{Loop, off, System, Event, advance_loop, step, run_events}
use sync_hub_for_agents.Scheduler.Schedule.{in_cycle, Inv}

-- The scheduler is paused and no cycle is in progress.
pub record IsQuiet (y : System) : Type 0 where
  pub is_paused : y.sched.paused ≡ true
  pub no_job : y.sched.job_running ≡ false
  pub no_cycle : in_cycle y.loop ≡ false

-- The event is not `Resume`.
abbrev pub no_resume : Event → Bool
no_resume (Event.resume _) = false
no_resume _ = true

abbrev pub never_resumed : List Event → Bool
never_resumed [] = true
never_resumed (e ∷ es) = no_resume e && never_resumed es

advance_loop-IsQuiet :
    (l : Loop) (y : System) (now : ℕ) (failed : Bool)
    → y.loop ≡ l
    → IsQuiet y
    → IsQuiet (advance_loop l now failed y)
unfolding advance_loop
advance_loop-IsQuiet off y now failed e h = h
advance_loop-IsQuiet _ y now failed e h = ground arith

step-IsQuiet : (e : Event) (y : System) → no_resume e ≡ true → IsQuiet y → IsQuiet (step e y)
unfolding step
step-IsQuiet (Event.set_interval i now) y n h = ground arith
step-IsQuiet Event.trigger y n h = ground arith
step-IsQuiet Event.pause y n h = ground arith
step-IsQuiet Event.pause_if_idle y n h = ground arith
step-IsQuiet (Event.resume now) y n h = cc
step-IsQuiet (Event.serve i) y n h = ground arith
step-IsQuiet (Event.run now) y n h = ground arith
step-IsQuiet Event.cancel y n h = ground arith
step-IsQuiet Event.watch y n h = ground arith
step-IsQuiet (Event.on_interval_change now) y n h = ground arith
step-IsQuiet (Event.on_timer now fired) y n h = ground arith
step-IsQuiet Event.on_trigger y n h = ground arith
step-IsQuiet Event.on_done y n h = ground arith
step-IsQuiet (Event.advance now failed) y n h = advance_loop-IsQuiet y.loop y now failed refl h

run_events-IsQuiet :
    (es : List Event) (y : System) → never_resumed es ≡ true → IsQuiet y → IsQuiet (run_events es y)
unfolding run_events
run_events-IsQuiet [] y n h = h
run_events-IsQuiet (e ∷ es) y n h =
    run_events-IsQuiet es (step e y) (ground arith) (step-IsQuiet e y (ground arith) h)

pause_if_idle-IsQuiet :
    (y : System) → Inv y → y.sched.job_running ≡ false → IsQuiet (step Event.pause_if_idle y)
unfolding step
pause_if_idle-IsQuiet y h j = ground arith

-- Once `PauseIfIdle` has found no job running, no cycle starts before `Resume`, whatever events
-- follow: no job runs, and the loop stands at none of a cycle's places.
pub pause_if_idle_blocks :
    (y : System) (es : List Event)
    → Inv y
    → y.sched.job_running ≡ false
    → never_resumed es ≡ true
    → IsQuiet (run_events es (step Event.pause_if_idle y))
pause_if_idle_blocks y es h j n = run_events-IsQuiet es _ n (pause_if_idle-IsQuiet y h j)
