-- ===== src/Resource/Spec.antt =====
-- internal/resource/spec.go: a resource as a synchronization pass uses it.
use sync_hub_for_agents.Base.{Bool, false, not, ◌||◌, Option, List, [], ◌∷◌, ◌++◌}
use sync_hub_for_agents.Base.{◌==◌}
use sync_hub_for_agents.Base.Text.{Text, text_eq, has_prefix}
use sync_hub_for_agents.Base.Strings.{to_slash, slash}

-- A validator returns Go's `error`: nothing, or a message.
pub record Spec : Type 0 where
  pub key : Text
  pub provider : Text
  pub id : Text
  pub category : Text
  pub strategy : Text
  pub layout : Text
  pub root : Text
  pub targets : List Text
  pub include : List Text
  pub exclude : List Text
  pub transformer : Text
  pub installer : Text
  pub shared_as : Text
  pub key_patterns : List Text
  pub reserved : List Text
  pub copy_only : Bool
  pub optional_root : Bool
  pub validate_root : Option (Text → Option Text)
  pub validate_content : Option (Text → Text → Option Text)

-- `strings.ToLower` is the parameter: its table of letters is Unicode's.
module _ (to_lower : Text → Text) where
  -- Whether a path, in lower case and with slashes, lies at or under a reserved prefix.
  unfoldable pub is_reserved : List Text → Text → Bool
  is_reserved [] relative = false
  is_reserved (entry ∷ reserved) relative =
      let prefix = to_lower (to_slash entry) in
      (prefix == [] || (relative == prefix || has_prefix relative (prefix ++ (slash ∷ []))))
      || is_reserved reserved relative

  -- `Owns`
  unfoldable pub owns : Spec → Text → Bool
  unfolding is_reserved
  owns s relative = not (is_reserved s.reserved (to_lower (to_slash relative)))
