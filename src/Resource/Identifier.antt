-- ===== src/Resource/Identifier.antt =====
-- internal/resource/identifier.go: names that may stand as one element of a path.
use sync_hub_for_agents.Base.{◌||◌, []}
use sync_hub_for_agents.Base.{◌==◌, nat_eq, contains, if◌then◌else◌}
use sync_hub_for_agents.Base.Text.{Text, text_eq}
use sync_hub_for_agents.Base.Result.{Result, ok, reject, ◌>>◌}
use sync_hub_for_agents.Base.Strings.{is_blank, slash, backslash, dot, dot_dot}

-- The errors name what Go puts into the message.
pub data IdentifierError : Type 0 where
  invalid_identifier : Text → Text → IdentifierError

-- `ValidateIdentifier`
unfoldable pub validate_identifier : Text → Text → Result IdentifierError (Unit {0})
validate_identifier kind value = do
  reject (is_blank value) (invalid_identifier kind value)
  reject (value == dot || (value == dot_dot || (contains value slash || contains value backslash)))
      (invalid_identifier kind value)

-- `ValidateOptionalIdentifier`
unfoldable pub validate_optional_identifier : Text → Text → Result IdentifierError (Unit {0})
unfolding validate_identifier
validate_optional_identifier kind value =
    if value == [] then ok tt else validate_identifier kind value
