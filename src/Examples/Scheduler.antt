-- ===== src/Examples/Scheduler.antt =====
-- A scheduler with a period of 5, through runs, pauses and triggers.
use sync_hub_for_agents.Base.{◌≡◌, refl, true, false, List, [], ◌∷◌, pos, nat_eq, ℕ_discrete}
use sync_hub_for_agents.Scheduler.{done}
use sync_hub_for_agents.Scheduler.System.{System, Event, start, run_events, step, pick, leaving}
use sync_hub_for_agents.Scheduler.Schedule.{Inv, run_events-Inv}
use sync_hub_for_agents.Scheduler.Pausing.{IsQuiet, pause_if_idle_blocks}
use sync_hub_for_agents.Scheduler.Visible.{ShowsPaused, run_events-ShowsPaused, pause_overwritten}

abbrev begin : List Event
begin = Event.run 100 ∷ Event.advance 100 false ∷ []

-- A triggered cycle up to its last `setState`.
abbrev nearly_done : List Event
nearly_done =
    Event.run 100
    ∷ Event.advance 100 false
    ∷ Event.trigger
    ∷ Event.on_trigger
    ∷ Event.advance 101 false
    ∷ Event.advance 101 false
    ∷ Event.advance 102 false
    ∷ Event.advance 102 false
    ∷ Event.advance 102 false
    ∷ Event.advance 102 false
    ∷ []

abbrev waits : System
waits = run_events begin (start (pos 5))

abbrev late : System
late = run_events nearly_done (start (pos 5))

run_events-Inv_example : Inv late
run_events-Inv_example = run_events-Inv (pos 5) nearly_done

pause_if_idle_blocks_example : IsQuiet (
    run_events
      (Event.trigger ∷ Event.on_trigger ∷ Event.advance 104 false ∷ [])
      (step Event.pause_if_idle waits))
unfolding run_events step start nat_eq ℕ_discrete
pause_if_idle_blocks_example =
    pause_if_idle_blocks waits (Event.trigger ∷ Event.on_trigger ∷ Event.advance 104 false ∷ [])
      (run_events-Inv (pos 5) begin) refl refl

pause_overwritten_example :
    let z =
      run_events
        (Event.pause ∷ Event.serve 0 ∷ Event.serve 0 ∷ Event.advance 103 false ∷ [])
        late in
    (z.sched.paused ≡ true) × (z.sched.state ≡ done) × (z.owed ≡ []) × (z.loop ≡ leaving)
unfolding run_events step start nat_eq ℕ_discrete
pause_overwritten_example = pause_overwritten late done 103 false refl refl

-- Paused while the job runs.
abbrev paused_in_job : System
paused_in_job =
    run_events
      (Event.run 100
        ∷ Event.advance 100 false
        ∷ Event.trigger
        ∷ Event.on_trigger
        ∷ Event.advance 101 false
        ∷ Event.advance 101 false
        ∷ Event.pause
        ∷ Event.serve 0
        ∷ [])
      (start (pos 5))

run_events-ShowsPaused_example : ShowsPaused (
    run_events (Event.advance 102 true ∷ Event.advance 102 true ∷ Event.serve 0 ∷ []) paused_in_job)
unfolding run_events step start pick nat_eq ℕ_discrete
run_events-ShowsPaused_example =
    run_events-ShowsPaused (Event.advance 102 true ∷ Event.advance 102 true ∷ Event.serve 0 ∷ [])
      paused_in_job refl
      (record { is_paused = refl; shown = refl; not_publishing = refl; owes_paused = refl })
