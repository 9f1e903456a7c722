-- ===== src/Scheduler/Visible.antt =====
-- Which of `Pause`'s and the cycle's visible states lasts.
use sync_hub_for_agents.Base.{
  ℕ, zero, suc, ◌≡◌, refl, Bool, true, false, ◌&&◌, none, some, List, [], ◌∷◌, ◌++◌, arith, Option,
}
use sync_hub_for_agents.Scheduler.{
  State, idle, updating, done, error, set_state, notify_interval_change,
}
use sync_hub_for_agents.Scheduler.System.{
  Loop, off, entered, concluding, leaving, System, Event, advance_loop, step, run_events, pick,
  Owed, publish, notify, serve_one,
}
use sync_hub_for_agents.Scheduler.Pausing.{no_resume, never_resumed}

-- Every `setState` that a caller still owes shows `Paused`.
abbrev pub only_paused : List Owed → Bool
only_paused [] = true
only_paused (publish State.paused ∷ os) = only_paused os
only_paused (publish _ ∷ os) = false
only_paused (notify ∷ os) = only_paused os

-- The loop is about to call `setState`.
abbrev pub is_publishing : Loop → Bool
is_publishing entered = true
is_publishing (concluding _) = true
is_publishing _ = false

-- Paused and shown as such, and no other state is about to be shown.
pub record ShowsPaused (y : System) : Type 0 where
  pub is_paused : y.sched.paused ≡ true
  pub shown : y.sched.state ≡ State.paused
  pub not_publishing : is_publishing y.loop ≡ false
  pub owes_paused : only_paused y.owed ≡ true

only_paused-append :
    (os : List Owed) (o : Owed)
    → only_paused (os ++ (o ∷ [])) ≡ (only_paused os && only_paused (o ∷ []))
only_paused-append [] o = refl
only_paused-append (publish idle ∷ os) o = refl
only_paused-append (publish updating ∷ os) o = refl
only_paused-append (publish done ∷ os) o = refl
only_paused-append (publish error ∷ os) o = refl
only_paused-append (publish State.paused ∷ os) o = only_paused-append os o
only_paused-append (notify ∷ os) o = only_paused-append os o

only_paused-cons :
    (o : Owed) (os : List Owed) → only_paused (o ∷ os) ≡ (only_paused (o ∷ []) && only_paused os)
only_paused-cons (publish idle) os = refl
only_paused-cons (publish updating) os = refl
only_paused-cons (publish done) os = refl
only_paused-cons (publish error) os = refl
only_paused-cons (publish State.paused) os = refl
only_paused-cons notify os = refl

-- What a caller owes, and what the others owe.
abbrev PickedPaused : Option (Owed × List Owed) → Type 0
PickedPaused none = Unit
PickedPaused (some (o, os)) = (only_paused (o ∷ []) ≡ true) × (only_paused os ≡ true)

put_back-PickedPaused :
    (o : Owed) (r : Option (Owed × List Owed))
    → only_paused (o ∷ []) ≡ true
    → PickedPaused r
    → PickedPaused (elim r [ none ↦ none | some (p, ps) ↦ some (p, o ∷ ps) ])
put_back-PickedPaused o none h k = tt
put_back-PickedPaused o (some (p, ps)) h k = (k.0, ground (arith, only_paused-cons o ps))

pick-only_paused : (i : ℕ) (os : List Owed) → only_paused os ≡ true → PickedPaused (pick i os)
unfolding pick
pick-only_paused i [] h = tt
pick-only_paused zero (o ∷ os) h = ground (arith, only_paused-cons o os)
pick-only_paused (suc i) (o ∷ os) h =
    put_back-PickedPaused o (pick i os) (ground (arith, only_paused-cons o os))
      (pick-only_paused i os (ground (arith, only_paused-cons o os)))

advance_loop-ShowsPaused :
    (l : Loop) (y : System) (now : ℕ) (failed : Bool)
    → y.loop ≡ l
    → ShowsPaused y
    → ShowsPaused (advance_loop l now failed y)
unfolding advance_loop
advance_loop-ShowsPaused off y now failed e h = h
advance_loop-ShowsPaused _ y now failed e h = ground arith

serve_one-ShowsPaused :
    (y : System) (r : Option (Owed × List Owed))
    → PickedPaused r
    → ShowsPaused y
    → ShowsPaused (serve_one y r)
unfolding set_state notify_interval_change
serve_one-ShowsPaused y none p h = h
serve_one-ShowsPaused y (some (publish idle, os)) p h = cc p.0
serve_one-ShowsPaused y (some (publish updating, os)) p h = cc p.0
serve_one-ShowsPaused y (some (publish done, os)) p h = cc p.0
serve_one-ShowsPaused y (some (publish error, os)) p h = cc p.0
serve_one-ShowsPaused y (some (publish State.paused, os)) p h =
    ground (arith, only_paused-append os notify)
serve_one-ShowsPaused y (some (notify, os)) p h = ground arith

step-ShowsPaused :
    (e : Event) (y : System) → no_resume e ≡ true → ShowsPaused y → ShowsPaused (step e y)
unfolding step
step-ShowsPaused (Event.set_interval i now) y n h = ground (arith, only_paused-append y.owed notify)
step-ShowsPaused Event.trigger y n h = ground arith
step-ShowsPaused Event.pause y n h =
    ground (arith, only_paused-append y.owed (publish State.paused))
step-ShowsPaused Event.pause_if_idle y n h =
    ground (arith, only_paused-append y.owed (publish State.paused))
step-ShowsPaused (Event.resume now) y n h = cc
step-ShowsPaused (Event.serve i) y n h =
    serve_one-ShowsPaused y (pick i y.owed) (pick-only_paused i y.owed h.owes_paused) h
step-ShowsPaused (Event.run now) y n h = ground arith
step-ShowsPaused Event.cancel y n h = ground arith
step-ShowsPaused Event.watch y n h = ground arith
step-ShowsPaused (Event.on_interval_change now) y n h = ground arith
step-ShowsPaused (Event.on_timer now fired) y n h = ground arith
step-ShowsPaused Event.on_trigger y n h = ground arith
step-ShowsPaused Event.on_done y n h = ground arith
step-ShowsPaused (Event.advance now failed) y n h =
    advance_loop-ShowsPaused y.loop y now failed refl h

-- A pause that is shown while the loop is not about to show a state of its own, and no caller is
-- about to show another, stays shown until `Resume`, also when a job that was running ends.
pub run_events-ShowsPaused :
    (es : List Event) (y : System)
    → never_resumed es ≡ true
    → ShowsPaused y
    → ShowsPaused (run_events es y)
unfolding run_events
run_events-ShowsPaused [] y n h = h
run_events-ShowsPaused (e ∷ es) y n h =
    run_events-ShowsPaused es (step e y) (ground arith) (step-ShowsPaused e y (ground arith) h)

-- A whole `Pause` that comes between the loop's look at `isPaused` and its last `setState` is
-- overwritten: the scheduler is paused, nothing is owed, and the cycle's own state is shown.
pub pause_overwritten :
    (y : System) (st : State) (now : ℕ) (failed : Bool)
    → y.loop ≡ concluding st
    → y.owed ≡ []
    → let z =
        run_events
          (Event.pause ∷ Event.serve 0 ∷ Event.serve 0 ∷ Event.advance now failed ∷ [])
          y in
      (z.sched.paused ≡ true) × (z.sched.state ≡ st) × (z.owed ≡ []) × (z.loop ≡ leaving)
unfolding run_events step pick
pause_overwritten y st now failed l o = ground arith
