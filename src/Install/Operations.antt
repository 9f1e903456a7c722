-- ===== src/Install/Operations.antt =====
-- internal/installplan/claude.go, copilot.go and discovery.go: the operations that take what is
-- installed to what is declared. The functions of `filepath` depend on the platform.
pub mod Trusted
pub mod Accepted
pub mod Wanted
pub mod Diff
use sync_hub_for_agents.Base.{
  ℕ, Bool, true, false, not, ◌&&◌, ◌||◌, Option, none, some, List, [], ◌∷◌, ◌++◌,
}
use sync_hub_for_agents.Base.{◌==◌, nat_eq, if◌then◌else◌}
use sync_hub_for_agents.Base.Text.{Text, text_eq, codes, has_prefix}
use sync_hub_for_agents.Base.Result.{Result, ok, err, reject, ◌>>=◌, ◌>>◌}
use sync_hub_for_agents.Base.Dict.{Dict, lookup, insert}
use sync_hub_for_agents.Base.SortBy.{sort_by}
use sync_hub_for_agents.Base.Strings.{dot, dot_dot}
use sync_hub_for_agents.Install.{
  Declaration, Operation, InstallError, escapes_root, not_relative, unsupported_manifest,
  claude_plugin, copilot_plugin, skill_dependencies, install, update, uninstall,
  validate_declaration, operation_identity, DependencyCommand, dependency_commands,
}

-- `declarations` by their sources, a later one in place of an earlier one
unfoldable pub by_source :
    List Declaration → Dict Text Declaration → Result InstallError (Dict Text Declaration)
unfolding validate_declaration
by_source [] found = ok found
by_source (d ∷ ds) found = validate_declaration d >> by_source ds (insert d.source d found)

-- What `desired` needs beyond what is installed: `kind`, empty for nothing
unfoldable pub change_kind : Declaration → Option Declaration → Text
change_kind desired none = install
change_kind desired (some installed) =
    if (not (desired.version == []) && not (installed.version == []))
      && not (desired.version == installed.version)
    then update
    else []

-- `args` of an operation on a plugin
abbrev plugin_args : Text → Text → Text → List Text
plugin_args adapter kind source =
    if adapter == claude_plugin
    then (codes "plugin"
        ∷ kind
        ∷ source
        ∷ codes "--scope"
        ∷ codes "user"
        ∷ (if kind == uninstall then codes "--keep-data" ∷ [] else []))
    else codes "plugin" ∷ kind ∷ source ∷ []

-- `pluginOperation`
unfoldable pub plugin_operation : Text → Text → Declaration → Text → Operation
plugin_operation adapter executable d kind = record {
  id = adapter ++ (0x3a ∷ kind ++ (0x3a ∷ d.source ++ (0x40 ∷ d.version)));
  adapter = adapter;
  source = d.source;
  kind = kind;
  executable = executable;
  args = plugin_args adapter kind d.source;
  working_dir = [];
}

module _ (adapter : Text) (executable : Text) where
  -- The operation for one desired declaration, if any
  unfoldable pub wanted : Dict Text Declaration → Declaration → List Operation
  unfolding plugin_operation change_kind
  wanted current d =
      let kind = change_kind d (lookup d.source current) in
      if not d.enabled || kind == [] then [] else plugin_operation adapter executable d kind ∷ []

  -- The loop over the desired declarations
  unfoldable pub all_wanted : Dict Text Declaration → List Declaration → List Operation
  unfolding wanted
  all_wanted current [] = []
  all_wanted current (d ∷ ds) = wanted current d ++ all_wanted current ds

  -- The loop over the installed declarations
  unfoldable pub all_unwanted : Dict Text Declaration → List Declaration → List Operation
  unfolding plugin_operation
  all_unwanted desired [] = []
  all_unwanted desired (d ∷ ds) =
      let rest = all_unwanted desired ds in
      elim (lookup d.source desired) [
        | none ↦ plugin_operation adapter executable d uninstall ∷ rest
        | some _ ↦ rest
      ]

  -- `pluginOperations`
  unfoldable pub plugin_operations :
      List Declaration → List Declaration → Result InstallError (List Operation)
  unfolding by_source all_wanted all_unwanted operation_identity
  plugin_operations desired current = do
    current_by_source ← by_source current []
    desired_by_source ← by_source desired []
    ok (
        sort_by operation_identity
          (all_wanted current_by_source desired ++ all_unwanted desired_by_source current))

-- `Operations` of the Claude adapter
unfoldable pub claude_operations :
    List Declaration → List Declaration → Result InstallError (List Operation)
unfolding plugin_operations
claude_operations = plugin_operations claude_plugin (codes "claude")

-- `Operations` of the Copilot adapter
unfoldable pub copilot_operations :
    List Declaration → List Declaration → Result InstallError (List Operation)
unfolding plugin_operations
copilot_operations = plugin_operations copilot_plugin (codes "copilot")

-- Package `filepath`
pub record FilePaths : Type 0 where
  pub is_abs : Text → Bool
  pub clean : Text → Text
  pub from_slash : Text → Text
  pub join_two : Text → Text → Text
  pub relative_to : Text → Text → Option Text
  pub separator : ℕ

-- The command of a manifest
unfoldable pub find_command : Text → List DependencyCommand → Option DependencyCommand
find_command manifest [] = none
find_command manifest (c ∷ cs) = if manifest == c.manifest then some c else find_command manifest cs

-- A setting that is missing reads as the empty text.
abbrev pub setting : Declaration → Text → Text
setting d key = elim (lookup key d.settings) [ none ↦ [] | some v ↦ v ]

abbrev pub recognized :
    Declaration → Option DependencyCommand → Result InstallError DependencyCommand
recognized d none = err unsupported_manifest
recognized d (some c) =
    if c.manager == setting d (codes "manager") then ok c else err unsupported_manifest

abbrev pub dependency_operation : Declaration → DependencyCommand → Text → Operation
dependency_operation d c directory = record {
  id = codes "skill:" ++ (c.manager ++ (0x3a ∷ d.source ++ (0x40 ∷ d.version)));
  adapter = d.adapter;
  source = d.source;
  kind = codes "dependencies";
  executable = c.executable;
  args = c.args;
  working_dir = directory;
}

module _ (paths : FilePaths) where
  -- `safeWorkingDirectory`
  unfoldable pub safe_working_directory : Text → Text → Result InstallError Text
  safe_working_directory root source =
      if source == dot
      then ok root
      else if paths.is_abs source
      then err not_relative
      else let joined = paths.join_two root (paths.from_slash source) in
        elim (paths.relative_to root joined) [
          | none ↦ err escapes_root
          | some relative ↦
              if relative == dot_dot || has_prefix relative (dot_dot ++ (paths.separator ∷ []))
              then err escapes_root
              else ok joined
        ]

module _ (paths : FilePaths) (to_lower : Text → Text) where
  -- The operation of one declaration
  unfoldable pub skill_operation : Text → Declaration → Result InstallError Operation
  unfolding validate_declaration find_command safe_working_directory
  skill_operation root d = do
    validate_declaration d
    command ←
        recognized d (find_command (to_lower (setting d (codes "manifest"))) dependency_commands)
    directory ← safe_working_directory paths root d.source
    ok (dependency_operation d command directory)

  -- The loop over the declarations
  unfoldable pub skill_operations : Text → List Declaration → Result InstallError (List Operation)
  unfolding skill_operation
  skill_operations root [] = ok []
  skill_operations root (d ∷ ds) =
      let rest = skill_operations root ds in
      if not (d.adapter == skill_dependencies)
      then rest
      else (do o ← skill_operation root d; os ← rest; ok (o ∷ os))

  -- `OperationsForSkillDependencies`
  unfoldable pub operations_for_skill_dependencies :
      Text → List Declaration → Result InstallError (List Operation)
  unfolding skill_operations operation_identity
  operations_for_skill_dependencies root declarations = do
    os ← skill_operations (paths.clean root) declarations
    ok (sort_by operation_identity os)
