-- ===== src/Sync/FirstSync.antt =====
-- internal/syncengine/planning.go, `ApplyFirstSyncStrategy`: the direction chosen for a first pass.
pub mod Direction
use sync_hub_for_agents.Base.{Bool, Option, none, some, List, map}
use sync_hub_for_agents.Base.{◌==◌, if◌then◌else◌}
use sync_hub_for_agents.Base.Text.{Text, text_eq, codes}
use sync_hub_for_agents.Base.Dict.{lookup}
use sync_hub_for_agents.State.{FileMeta, Snapshot}
use sync_hub_for_agents.Sync.Reconcile.{
  ActionType, Action, push_to_remote, pull_to_local, delete_remote, delete_local, remove_remote,
  merge_both,
}

abbrev pub use_cloud : Text
use_cloud = codes "use-cloud"

abbrev pub use_local : Text
use_local = codes "use-local"

abbrev pub if_exists : Option FileMeta → ActionType → ActionType → ActionType
if_exists (some _) a b = a
if_exists none a b = b

-- The two mappings of an action's type, by what the preferred side has at its path.
unfoldable pub cloud_type : Option FileMeta → ActionType → ActionType
cloud_type remote push_to_remote = delete_local
cloud_type remote merge_both = if_exists remote pull_to_local delete_local
cloud_type remote pull_to_local = pull_to_local
cloud_type remote delete_remote = delete_remote
cloud_type remote delete_local = delete_local
cloud_type remote remove_remote = remove_remote

unfoldable pub local_type : Option FileMeta → ActionType → ActionType
local_type local pull_to_local = delete_remote
local_type local merge_both = if_exists local push_to_remote delete_remote
local_type local push_to_remote = push_to_remote
local_type local delete_remote = delete_remote
local_type local delete_local = delete_local
local_type local remove_remote = remove_remote

unfoldable pub retype : (Option FileMeta → ActionType → ActionType) → Snapshot → Action → Action
retype f side a = record { type = f (lookup a.repo_rel side) a.type; repo_rel = a.repo_rel }

-- `ApplyFirstSyncStrategy`
unfoldable pub apply_first_sync_strategy : List Action → Snapshot → Snapshot → Text → List Action
unfolding retype cloud_type local_type
apply_first_sync_strategy actions local remote mode =
    if mode == use_cloud
    then map (retype cloud_type remote) actions
    else if mode == use_local
    then map (retype local_type local) actions
    else actions
