-- ===== src/Screening.antt =====
-- internal/secret, filter.go of internal/resource and ValidateRemoteResources: what may be
-- synchronized at all.
pub mod Secret
pub mod Filter
pub mod Remote
use sync_hub_for_agents.Base.{Bool, false, Option}
use sync_hub_for_agents.Base.Text.{Text}
use sync_hub_for_agents.Base.Result.{Result, ok, err}
use sync_hub_for_agents.Merge.Document.{Json}

-- What the packages are given: the tables of Unicode, `doublestar.Match`, which may reject a
-- pattern, and `json.Unmarshal`.
pub record Platform : Type 0 where
  pub to_lower : Text → Text
  pub equal_fold : Text → Text → Bool
  pub glob : Text → Text → Result Text Bool
  pub decode : Text → Option Json

-- `ok, _ := doublestar.Match(…)`
unfoldable pub is_match : Result Text Bool → Bool
is_match (ok matched) = matched
is_match (err _) = false
