-- ===== src/Examples/Engine.antt =====
-- A pass with one skill that a machine does not have, and one whose calls all work.
use sync_hub_for_agents.Base.{
  suc, ◌+◌, ◌<◌, ◌≡◌, ◌≤◌, ◌*◌, refl, Bool, true, false, none, List, [], ◌∷◌, pos, nat_eq,
  ℕ_discrete, arith,
}
use sync_hub_for_agents.Base.Text.{Text, codes, text_eq}
use sync_hub_for_agents.Base.Strings.{is_blank}
use sync_hub_for_agents.Base.Sort.{sort_strings, add_key}
use sync_hub_for_agents.Base.Dict.{lookup}
use sync_hub_for_agents.Base.Result.{Result, ok, err}
use sync_hub_for_agents.Base.Stateful.{After, ◌>>=◌}
use sync_hub_for_agents.Sync.Reconcile.{Action, pull_to_local, reconcile_with_blocked}
use sync_hub_for_agents.Examples.Planning.{
  lower, absolute, no_message, specs, skipped_file, remote, unreadable,
}
use sync_hub_for_agents.Engine.{
  World, Collected, Environment, Engine, SyncResult, in_conflict, action_percentage,
}
use sync_hub_for_agents.Engine.Apply.{Context, Loop, apply_actions}
use sync_hub_for_agents.Engine.Resolve.{Resolved}
use sync_hub_for_agents.Engine.Pass.{no_result}
use sync_hub_for_agents.Engine.Cycle.{sync_once}
use sync_hub_for_agents.Engine.Only.{Only}
use sync_hub_for_agents.Engine.Bounds.{action_percentage-bounds}
use sync_hub_for_agents.Engine.Held.{MayCall, apply_actions-MayCall}
use sync_hub_for_agents.Engine.Protocol.{Allowed}
use sync_hub_for_agents.Engine.Protocol.Followed.{Finished, sync_once-Follows}

abbrev collected : Collected
collected = record {
  snapshot = [];
  artifacts = [];
  skipped_issues = unreadable;
  blocked_issues = [];
}

abbrev env : Environment
env = record {
  works = λ _ _. true;
  load_state = λ _. ok remote;
  snapshot_repo = λ _. ok remote;
  protected_specs = λ _ specs _. specs;
  validate_remote = λ _ s. (s, []);
  collect = λ _ _. ok collected;
  pending_batch = λ _. ok none;
  resolutions = λ _. [];
  list_conflicts = λ _. ok [];
  pending_installs = λ _. ok none;
  base_content = λ _ _. ok none;
  stage_content = λ _ _. ok [];
  remote_content = λ _ _. ok none;
  merge_initial = λ _ _ _. ok in_conflict;
  merge_structured = λ _ _ _ _. ok in_conflict;
  merge_text = λ _ _ _. ok in_conflict;
  merge_binary = λ _ _ _. in_conflict;
  has_changes = λ _. ok true;
  install_result = λ _. record { executed = 0; pending = 0; errors = [] };
  is_abs = absolute;
  to_lower = lower;
  file_to_slash = lower;
  path_message = no_message;
}

abbrev engine : Engine
engine = record {
  has_git = true;
  repo_dir = codes "/home/u/repo";
  state_path = codes "/home/u/state.json";
  resources = specs;
  has_inventory = false;
  install_manager = none;
  push_retries = pos 0;
  first_sync_mode = [];
  first_sync_run = false;
}

abbrev context : Context
context = record {
  specs = specs;
  artifacts = [];
  held = [];
  conflict_paths = [];
  pending_plan = none;
  total = 1;
}

abbrev loop : Loop
loop = record { result = no_result; preserve = [] }

abbrev pull : List Action
pull = record { type = pull_to_local; repo_rel = skipped_file } ∷ []

apply_actions-MayCall_example :
    Only (MayCall env context pull) (apply_actions env context 0 pull loop)
apply_actions-MayCall_example = apply_actions-MayCall env context pull loop

sync_once-Follows_example : After Finished Allowed (sync_once env engine (record { trace = [] }))
sync_once-Follows_example = sync_once-Follows env engine

action_percentage-bounds_example :
    (3 * action_percentage 1 3 ≤ 3 * 60 + 1 * 15)
    × (3 * 60 + 1 * 15 < 3 * suc (action_percentage 1 3))
    × (60 ≤ action_percentage 1 3)
    × (action_percentage 1 3 ≤ 75)
    × (action_percentage 1 3 ≤ action_percentage 2 3)
    × (action_percentage 3 3 ≡ 75)
    × (action_percentage 0 0 ≡ 75)
    × (1 * 15 < 9223372036854775808)
action_percentage-bounds_example = action_percentage-bounds 1 2 (omega arith) (omega arith)

abbrev outcome : Resolved
outcome = record {
  plan_base = remote;
  resolution_issues = [];
  held = [];
  remote = record {
    specs = specs;
    whole = remote;
    owned = remote;
    valid = remote;
    ownership_blocked = [];
    validation_blocked = [];
  };
  collected = collected;
}

abbrev has_pushed : Result Text SyncResult × World → Bool
has_pushed (ok r, _) = r.pushed
has_pushed (err _, _) = false

abbrev nothing : Collected
nothing = record { snapshot = []; artifacts = []; skipped_issues = []; blocked_issues = [] }

abbrev bare : Environment
bare = record env {
  load_state = λ _. ok [];
  snapshot_repo = λ _. ok [];
  collect = λ _ _. ok nothing;
}

-- A pass over nothing whose commit is pushed
sync_once_pushes :
    has_pushed (sync_once bare (record engine { resources = [] }) (record { trace = [] })) ≡ true
unfolding sync_once ◌>>=◌ is_blank nat_eq ℕ_discrete text_eq sort_strings add_key lookup
    reconcile_with_blocked
sync_once_pushes = refl
