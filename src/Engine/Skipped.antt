-- ===== src/Engine/Skipped.antt =====
-- What a pass records of the files under a resource that it skips.
use sync_hub_for_agents.Base.Text.{Text, text_eq}
use sync_hub_for_agents.Engine.{Engine}
use sync_hub_for_agents.Engine.Pass.{Pass}
