-- ===== src/Resource/Model.antt =====
-- internal/resource/model.go: categories, strategies, layouts and declarations of resources.
-- Go's string types are texts here, since a declaration read from YAML may hold any text.
use sync_hub_for_agents.Base.{not, ◌&&◌, ◌||◌, List, [], ◌∷◌, ℤ}
use sync_hub_for_agents.Base.{◌==◌, contains, if◌then◌else◌}
use sync_hub_for_agents.Base.Text.{Text, text_eq, codes}
use sync_hub_for_agents.Base.Dict.{Dict}
use sync_hub_for_agents.Base.Result.{Result, ok, err, reject, ◌>>◌}
use sync_hub_for_agents.Base.Strings.{is_blank}
use sync_hub_for_agents.Resource.Identifier.{
  IdentifierError, validate_identifier, validate_optional_identifier,
}

abbrev pub category_sessions : Text
category_sessions = codes "sessions"

abbrev pub category_config : Text
category_config = codes "config"

abbrev pub category_instructions : Text
category_instructions = codes "instructions"

abbrev pub category_skills : Text
category_skills = codes "skills"

abbrev pub category_plugins : Text
category_plugins = codes "plugins"

-- The constants of type `Category`.
abbrev pub categories : List Text
categories =
    category_sessions ∷ category_config ∷ category_instructions ∷ category_skills ∷ category_plugins
    ∷ []

abbrev pub strategy_file_tree : Text
strategy_file_tree = codes "file-tree"

abbrev pub strategy_text_tree : Text
strategy_text_tree = codes "text-tree"

abbrev pub strategy_structured_merge : Text
strategy_structured_merge = codes "structured-merge"

abbrev pub strategy_source_tree : Text
strategy_source_tree = codes "source-tree"

abbrev pub strategy_install_manifest : Text
strategy_install_manifest = codes "install-manifest"

-- The constants of type `Strategy`.
abbrev pub strategies : List Text
strategies =
    strategy_file_tree ∷ strategy_text_tree ∷ strategy_structured_merge ∷ strategy_source_tree
    ∷ strategy_install_manifest ∷ []

abbrev pub layout_legacy : Text
layout_legacy = codes "legacy"

abbrev pub layout_portable : Text
layout_portable = codes "portable"

pub record Declaration : Type 0 where
  pub id : Text
  pub category : Text
  pub paths : Dict Text Text
  pub include : List Text
  pub exclude : List Text
  pub strategy : Text
  pub layout : Text
  pub transformer : Text
  pub installer : Text
  pub shared_as : Text

pub record Issue : Type 0 where
  pub resource_key : Text
  pub path : Text
  pub code : Text
  pub message : Text
  pub bytes : ℤ

abbrev pub known_transformers : List Text
known_transformers =
    codes "claude-settings"
    ∷ codes "copilot-settings"
    ∷ codes "gemini-settings"
    ∷ codes "vscode-settings"
    ∷ codes "vscode-mcp"
    ∷ codes "cursor-settings"
    ∷ codes "common-skill-lock"
    ∷ codes "generic-safe"
    ∷ []

abbrev pub known_installers : List Text
known_installers = codes "claude-plugin" ∷ codes "copilot-plugin" ∷ codes "skill-dependencies" ∷ []

-- `Normalized`
unfoldable pub normalized : Declaration → Declaration
normalized d = if d.layout == [] then record d { layout = layout_portable } else d

-- `legacyResourceID`, of namespace.go
unfoldable pub legacy_resource_id : Text → Text
legacy_resource_id category =
    if category == category_config
    then codes "legacy-config"
    else if category == category_sessions
    then codes "legacy-sessions"
    else []

-- What a declaration was refused for, in the order of the tests.
pub data DeclarationError : Type 0 where
  reserved_provider : DeclarationError
  bad_identifier : IdentifierError → DeclarationError
  missing_id : DeclarationError
  unsupported_category : DeclarationError
  unsupported_strategy : DeclarationError
  unsupported_layout : DeclarationError
  legacy_category : DeclarationError
  legacy_id : Text → DeclarationError
  missing_transformer : DeclarationError
  unknown_transformer : DeclarationError
  missing_installer : DeclarationError
  unknown_installer : DeclarationError

abbrev pub on_identifier : Result IdentifierError (Unit {0}) → Result DeclarationError (Unit {0})
on_identifier (ok _) = ok tt
on_identifier (err e) = err (bad_identifier e)

abbrev pub portable_provider_name : Text
portable_provider_name = codes "_portable"

unfoldable pub check_legacy : Declaration → Result DeclarationError (Unit {0})
unfolding legacy_resource_id
check_legacy d =
    if d.layout == layout_legacy
    then (do
      reject (legacy_resource_id d.category == []) legacy_category
      reject (not (d.id == legacy_resource_id d.category))
          (legacy_id (legacy_resource_id d.category)))
    else ok tt

-- `Validate`
unfoldable pub validate : Declaration → Text → Result DeclarationError (Unit {0})
unfolding check_legacy validate_identifier validate_optional_identifier
validate d provider = do
  reject (provider == portable_provider_name) reserved_provider
  on_identifier (validate_identifier (codes "provider name") provider)
  reject (is_blank d.id) missing_id
  on_identifier (validate_identifier (codes "resource id") d.id)
  on_identifier (validate_optional_identifier (codes "shared_as") d.shared_as)
  reject (not (contains categories d.category)) unsupported_category
  reject (not (contains strategies d.strategy)) unsupported_strategy
  reject (not (d.layout == layout_legacy || d.layout == layout_portable)) unsupported_layout
  check_legacy d
  reject (d.strategy == strategy_structured_merge && is_blank d.transformer) missing_transformer
  reject (not (d.transformer == []) && not (contains known_transformers d.transformer))
      unknown_transformer
  reject (d.strategy == strategy_install_manifest && is_blank d.installer) missing_installer
  reject (not (d.installer == []) && not (contains known_installers d.installer)) unknown_installer
