-- ===== src/Scheduler/Schedule.antt =====
-- When a run is scheduled: the fields of the scheduler agree with each other and with the place
-- of the goroutine of `Run`, whatever other goroutines do in between.
use sync_hub_for_agents.Base.{
  ℕ, zero, suc, ◌<◌, ◌≡◌, refl, Bool, true, false, ◌⊎◌, List, [], ◌∷◌, arith, ℤ, pos, negsuc,
  nat_eq,
}
use sync_hub_for_agents.Scheduler.{positive_interval}
use sync_hub_for_agents.Scheduler.System.{
  Loop, off, entered, working, returned, rearming, rearmed, concluding, leaving, System, Event,
  advance_loop, step, run_events, start,
}

-- The places between the lock that starts a cycle and the one that ends it.
abbrev pub in_cycle : Loop → Bool
in_cycle entered = true
in_cycle working = true
in_cycle (returned _) = true
in_cycle (rearming _) = true
in_cycle (rearmed _) = true
in_cycle (concluding _) = true
in_cycle leaving = true
in_cycle _ = false

-- Whether `Run` is in progress.
abbrev pub in_run : Loop → Bool
in_run off = false
in_run _ = true

pub record Inv (y : System) : Type 0 where
  pub interval_positive : 0 < y.sched.interval
  pub scheduled :
      y.sched.running ≡ true
      → y.sched.paused ≡ false
      → y.sched.cancelled ≡ false
      → 0 < y.sched.next_run
  pub unscheduled :
      (y.sched.running ≡ false) ⊎ (y.sched.paused ≡ true) ⊎ (y.sched.cancelled ≡ true)
      → y.sched.next_run ≡ 0
  pub cancelled_runs : y.sched.cancelled ≡ true → y.sched.running ≡ true
  pub cancelled_drained : y.sched.cancelled ≡ true → y.sched.trigger ≡ false
  pub job_in_cycle : y.sched.job_running ≡ in_cycle y.loop
  pub runs_in_loop : y.sched.running ≡ in_run y.loop

positive_interval_pos : (i : ℤ) → 0 < positive_interval i
unfolding positive_interval
positive_interval_pos (pos zero) = omega arith
positive_interval_pos (pos (suc n)) = omega arith
positive_interval_pos (negsuc n) = omega arith

pub start-Inv : (i : ℤ) → Inv (start i)
unfolding start
start-Inv i = ground (arith, positive_interval_pos i)

advance_loop-Inv :
    (l : Loop) (y : System) (now : ℕ) (failed : Bool)
    → y.loop ≡ l
    → Inv y
    → Inv (advance_loop l now failed y)
unfolding advance_loop
advance_loop-Inv off y now failed e h = h
advance_loop-Inv _ y now failed e h = ground arith

pub step-Inv : (e : Event) (y : System) → Inv y → Inv (step e y)
unfolding step
step-Inv (Event.set_interval i now) y h = ground (arith, positive_interval_pos i)
step-Inv Event.trigger y h = ground arith
step-Inv Event.pause y h = ground arith
step-Inv Event.pause_if_idle y h = ground arith
step-Inv (Event.resume now) y h = ground arith
step-Inv (Event.serve i) y h = ground arith
step-Inv (Event.run now) y h = ground arith
step-Inv Event.cancel y h = ground arith
step-Inv Event.watch y h = ground arith
step-Inv (Event.on_interval_change now) y h = ground arith
step-Inv (Event.on_timer now fired) y h = ground arith
step-Inv Event.on_trigger y h = ground arith
step-Inv Event.on_done y h = ground arith
step-Inv (Event.advance now failed) y h = advance_loop-Inv y.loop y now failed refl h

run_events-Inv_from : (es : List Event) (y : System) → Inv y → Inv (run_events es y)
unfolding run_events
run_events-Inv_from [] y h = h
run_events-Inv_from (e ∷ es) y h = run_events-Inv_from es (step e y) (step-Inv e y h)

-- After any events of any goroutines, from a new scheduler: the interval is positive, the next run
-- is set exactly while `Run` is in progress and the scheduler neither paused nor cancelled, a
-- cancelled scheduler is still in `Run` and has no pending trigger, and the job counts as running
-- exactly at the places of the loop from the start of a cycle to its end.
pub run_events-Inv : (i : ℤ) (es : List Event) → Inv (run_events es (start i))
run_events-Inv i es = run_events-Inv_from es (start i) (start-Inv i)
