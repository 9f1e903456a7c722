-- ===== src/State.antt =====
-- internal/state/state.go: what is recorded of a file, and snapshots of many.
use sync_hub_for_agents.Base.{ℤ}
use sync_hub_for_agents.Base.Text.{Text}
use sync_hub_for_agents.Base.Dict.{Dict}

-- `FileMeta`
pub record FileMeta : Type 0 where
  pub hash : Text
  pub mod_time : ℤ
  pub size : ℤ

-- `Snapshot`, from paths relative to the repository.
abbrev pub Snapshot : Type 0
Snapshot = Dict Text FileMeta
