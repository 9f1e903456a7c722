-- ===== src/Install.antt =====
-- internal/installplan/model.go and executor.go: declarations of plugins and dependencies, the
-- operations that install them, and which of both are accepted.
pub mod Operations
pub mod Store
pub mod Executor
pub mod Manager
use sync_hub_for_agents.Base.{Bool, true, false, not, ◌&&◌, ◌||◌, List, [], ◌∷◌, ◌++◌}
use sync_hub_for_agents.Base.{◌==◌, nat_eq, contains, if◌then◌else◌}
use sync_hub_for_agents.Base.Text.{Text, text_eq, codes}
use sync_hub_for_agents.Base.Result.{Result, ok, err, reject, ◌>>=◌, ◌>>◌}
use sync_hub_for_agents.Base.Dict.{Dict, keys}
use sync_hub_for_agents.Base.SortBy.{sort_by}
use sync_hub_for_agents.Base.Strings.{is_blank, contains_any, contains_text, join_with}

pub record Declaration : Type 0 where
  pub id : Text
  pub adapter : Text
  pub source : Text
  pub version : Text
  pub enabled : Bool
  pub settings : Dict Text Text

pub record Operation : Type 0 where
  pub id : Text
  pub adapter : Text
  pub source : Text
  pub kind : Text
  pub executable : Text
  pub args : List Text
  pub working_dir : Text

pub record Plan : Type 0 where
  pub id : Text
  pub operations : List Operation
  pub approved : Bool
  pub errors : Dict Text Text

pub data InstallError : Type 0 where
  incomplete_identity : InstallError
  shell_syntax : InstallError
  unsupported_adapter : InstallError
  untrusted_command : InstallError
  unexpected_argv : InstallError
  unsupported_action : InstallError
  missing_id : InstallError
  missing_adapter : InstallError
  missing_source : InstallError
  unsupported_setting : InstallError
  unsupported_manifest : InstallError
  not_relative : InstallError
  escapes_root : InstallError
  missing_part : InstallError
  adapter_unavailable : InstallError
  wrong_adapter : InstallError
  store_failed : InstallError
  read_failed : InstallError
  backup_failed : InstallError
  unsafe_payload : InstallError
  payload_link : InstallError

abbrev pub claude_plugin : Text
claude_plugin = codes "claude-plugin"

abbrev pub copilot_plugin : Text
copilot_plugin = codes "copilot-plugin"

abbrev pub skill_dependencies : Text
skill_dependencies = codes "skill-dependencies"

abbrev pub install : Text
install = codes "install"

abbrev pub update : Text
update = codes "update"

abbrev pub uninstall : Text
uninstall = codes "uninstall"

abbrev shell_characters : Text
shell_characters = codes ";&|><`" ++ (0x0d ∷ 0x0a ∷ 0 ∷ [])

-- `rejectShellSyntax`
unfoldable pub reject_shell_syntax : Text → Result InstallError (Unit {0})
reject_shell_syntax value =
    reject (contains_any value shell_characters || contains_text value (codes "$(")) shell_syntax

-- The first error of a check of each element in order.
unfoldable pub check_all {ℓ} :
    {A : Type ℓ} → (A → Result InstallError (Unit {0})) → List A → Result InstallError (Unit {0})
check_all check [] = ok tt
check_all check (a ∷ rest) = check a >> check_all check rest

-- `allowedSettings` of an adapter
unfoldable pub allowed_settings : Text → Result InstallError (List Text)
allowed_settings adapter =
    if adapter == claude_plugin
    then ok (codes "marketplace" ∷ [])
    else if adapter == copilot_plugin
    then ok []
    else if adapter == skill_dependencies
    then ok (codes "manager" ∷ codes "manifest" ∷ [])
    else err unsupported_adapter

-- `validateDeclaration`
unfoldable pub validate_declaration : Declaration → Result InstallError (Unit {0})
unfolding reject_shell_syntax allowed_settings check_all
validate_declaration d = do
  reject (is_blank d.id) missing_id
  reject (is_blank d.adapter) missing_adapter
  reject (is_blank d.source) missing_source
  reject_shell_syntax d.source
  allowed ← allowed_settings d.adapter
  check_all (λ key. reject (not (contains allowed key)) unsupported_setting) (keys d.settings)

abbrev formatted : Bool → Text
formatted true = codes "true"
formatted false = codes "false"

-- `declarationIdentity`
unfoldable pub declaration_identity : Declaration → Text
declaration_identity d =
    join_with 0 (d.adapter ∷ d.id ∷ d.source ∷ d.version ∷ formatted d.enabled ∷ [])

-- `operationIdentity`
unfoldable pub operation_identity : Operation → Text
operation_identity o =
    join_with 0 (o.adapter ∷ o.id ∷ o.source ∷ o.kind ∷ o.executable ∷ o.working_dir ∷ o.args)

-- `equalStrings`
unfoldable pub equal_strings : List Text → List Text → Bool
equal_strings [] [] = true
equal_strings (a ∷ rest) (b ∷ bs) = a == b && equal_strings rest bs
equal_strings _ _ = false

-- `validateClaudeOperation`: the first test fixes five arguments, the second those that follow.
unfoldable pub validate_claude_operation : Operation → Result InstallError (Unit {0})
unfolding equal_strings
validate_claude_operation o = by_args o.args
  where
    by_kind : List Text → Result InstallError (Unit {0})
    by_kind more =
        if o.kind == install || o.kind == update
        then reject (not (equal_strings more [])) unexpected_argv
        else if o.kind == uninstall
        then reject (not (equal_strings more (codes "--keep-data" ∷ []))) unexpected_argv
        else err unsupported_action

    by_args : List Text → Result InstallError (Unit {0})
    by_args (a0 ∷ a1 ∷ a2 ∷ a3 ∷ a4 ∷ more) = do
      reject (not (o.executable == codes "claude")) untrusted_command
      reject (not (a0 == codes "plugin")) untrusted_command
      reject (not (a1 == o.kind)) untrusted_command
      reject (not (a2 == o.source)) untrusted_command
      reject (not (a3 == codes "--scope")) untrusted_command
      reject (not (a4 == codes "user")) untrusted_command
      by_kind more
    by_args _ = err untrusted_command

-- `validateCopilotOperation`
unfoldable pub validate_copilot_operation : Operation → Result InstallError (Unit {0})
unfolding equal_strings
validate_copilot_operation o = do
  reject (not (o.executable == codes "copilot")) untrusted_command
  reject (not (equal_strings o.args (codes "plugin" ∷ o.kind ∷ o.source ∷ []))) untrusted_command
  reject (not (o.kind == install || (o.kind == update || o.kind == uninstall))) unsupported_action

pub record DependencyCommand : Type 0 where
  pub manifest : Text
  pub manager : Text
  pub executable : Text
  pub args : List Text

abbrev command : Text → Text → Text → List Text → DependencyCommand
command m by e a = record { manifest = m; manager = by; executable = e; args = a }

-- `dependencyCommands`
abbrev pub dependency_commands : List DependencyCommand
dependency_commands =
    command (codes "package-lock.json") (codes "npm") (codes "npm") (codes "ci" ∷ [])
    ∷ command (codes "pnpm-lock.yaml") (codes "pnpm") (codes "pnpm")
        (codes "install" ∷ codes "--frozen-lockfile" ∷ [])
    ∷ command (codes "yarn.lock") (codes "yarn") (codes "yarn")
        (codes "install" ∷ codes "--immutable" ∷ [])
    ∷ command (codes "uv.lock") (codes "uv") (codes "uv") (codes "sync" ∷ codes "--frozen" ∷ [])
    ∷ command (codes "requirements.txt") (codes "pip") (codes "python")
        (codes "-m" ∷ codes "pip" ∷ codes "install" ∷ codes "-r" ∷ codes "requirements.txt" ∷ [])
    ∷ command (codes "go.mod") (codes "go") (codes "go") (codes "mod" ∷ codes "download" ∷ [])
    ∷ []

-- Whether some command of the table is the one to run
unfoldable pub is_dependency_command : List DependencyCommand → Operation → Bool
unfolding equal_strings
is_dependency_command [] o = false
is_dependency_command (c ∷ cs) o =
    (o.executable == c.executable && equal_strings o.args c.args) || is_dependency_command cs o

-- `validateDependencyOperation`
unfoldable pub validate_dependency_operation : Operation → Result InstallError (Unit {0})
unfolding is_dependency_command
validate_dependency_operation o = do
  reject (not (o.kind == codes "dependencies") || o.working_dir == []) untrusted_command
  reject (not (is_dependency_command dependency_commands o)) untrusted_command

-- `ValidateOperation`
unfoldable pub validate_operation : Operation → Result InstallError (Unit {0})
unfolding reject_shell_syntax check_all validate_claude_operation validate_copilot_operation
    validate_dependency_operation
validate_operation o = do
  reject (is_blank o.id || (is_blank o.adapter || is_blank o.source)) incomplete_identity
  reject_shell_syntax o.source
  reject_shell_syntax o.executable
  check_all reject_shell_syntax o.args
  (if o.adapter == claude_plugin
      then validate_claude_operation o
      else if o.adapter == copilot_plugin
      then validate_copilot_operation o
      else if o.adapter == skill_dependencies
      then validate_dependency_operation o
      else err unsupported_adapter)

-- `NewPlan`; the digest is that of the sorted declarations and operations.
unfoldable pub new_plan :
    (List Declaration → List Operation → Text)
    → List Declaration
    → List Operation
    → Result InstallError Plan
unfolding check_all validate_declaration validate_operation declaration_identity operation_identity
new_plan digest declarations operations =
    let ds = sort_by declaration_identity declarations in
    let os = sort_by operation_identity operations in
    do
      check_all validate_declaration ds
      check_all validate_operation os
      ok (record { id = digest ds os; operations = os; approved = false; errors = [] })
