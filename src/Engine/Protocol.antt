-- ===== src/Engine/Protocol.antt =====
-- The order of the calls of a pass, as an automaton over its trace.
pub mod Work
pub mod Kept
pub mod Followed
use sync_hub_for_agents.Base.{
  ◌≡◌, refl, sym, ◌∙◌, ap, Bool, true, false, Option, none, some, List, [], ◌∷◌,
}
use sync_hub_for_agents.Base.{if◌then◌else◌}
use sync_hub_for_agents.Engine.{
  Call, publish, set_line_endings, recover_transactions, pull_rebase, protect_specs,
  mirror_conflicts, make_stage_parent, close_stage, apply_batch, restore_resolved, run_installs,
  add_all, commit, push, fetch_origin, reset_upstream, save_state, capture_base, saw_changes, Event,
  World,
}
use sync_hub_for_agents.Engine.Held.{touched}

-- How far a pass is. `uploaded`, `recorded` and `done` know whether there was a push.
pub data Phase : Type 0 where
  working : Phase
  changed : Phase
  committed : Phase
  push_rejected : Phase
  fetched : Phase
  uploaded : Bool → Phase
  recorded : Bool → Phase
  done : Bool → Phase
  uncaptured : Phase
  stopped : Phase

-- The calls that any phase allows
abbrev pub always_allowed : Call → Bool
always_allowed (publish _) = true
always_allowed close_stage = true
always_allowed _ = false

abbrev pub prepares : Call → Bool
prepares set_line_endings = true
prepares recover_transactions = true
prepares pull_rebase = true
prepares protect_specs = true
prepares (mirror_conflicts _) = true
prepares make_stage_parent = true
prepares apply_batch = true
prepares (restore_resolved _) = true
prepares (run_installs _) = true
prepares add_all = true
prepares _ = false

-- The calls before the upload, that may fail without an end of the pass
abbrev pub is_work : Call → Bool
is_work c = elim (touched c) [ some _ ↦ true | none ↦ prepares c ]

abbrev pub look : Call → Bool → Option Phase
look saw_changes true = some changed
look saw_changes false = some (uploaded false)
look _ _ = none

-- What any other call leads to, if the phase allows it
abbrev pub move : Phase → Call → Bool → Option Phase
move working c worked = if is_work c then some working else look c worked
move changed commit worked = some (if worked then committed else stopped)
move committed push worked = some (if worked then uploaded true else push_rejected)
move push_rejected fetch_origin worked = some (if worked then fetched else stopped)
move fetched reset_upstream worked = some (if worked then working else stopped)
move (uploaded b) (save_state _) worked = some (if worked then recorded b else stopped)
move (recorded b) (capture_base _ _) worked = some (if worked then done b else uncaptured)
move uncaptured (save_state _) worked = some stopped
move _ _ _ = none

abbrev pub advance : Phase → Call → Bool → Option Phase
advance p c worked = if always_allowed c then some p else move p c worked

abbrev pub after_event : Option Phase → Event → Option Phase
after_event none e = none
after_event (some p) e = advance p e.call e.worked

-- The phase after the calls, the last one of which is first; `none` if one was not allowed.
abbrev pub phase_of : List Event → Option Phase
phase_of [] = some working
phase_of (e ∷ es) = after_event (phase_of es) e

abbrev pub In : Phase → World → Type 0
In p w = phase_of w.trace ≡ some p

-- Every call was allowed.
pub record Allowed (w : World) : Type 0 where
  pub phase : Phase
  pub is_in : In phase w

pub allow : (p : Phase) (w : World) → In p w → Allowed w
allow p w h = record { phase = p; is_in = h }
