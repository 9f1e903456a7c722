-- ===== src/Install/Manager.antt =====
-- internal/installplan/manager.go and inventory.go: the plan of all resources that are installed,
-- and its execution.
pub mod Skills
pub mod Reconcile
pub mod Accepted
pub mod Planned
pub mod Builtin
use sync_hub_for_agents.Base.{
  ℕ, ◌+◌, Bool, true, false, not, ◌||◌, Option, none, some, List, [], ◌∷◌, ◌++◌, length,
}
use sync_hub_for_agents.Base.{◌==◌, nat_eq, if◌then◌else◌}
use sync_hub_for_agents.Base.Text.{Text, text_eq, codes}
use sync_hub_for_agents.Base.Dict.{Dict, lookup, insert, keys}
use sync_hub_for_agents.Base.Sort.{sort_strings}
use sync_hub_for_agents.Base.Result.{Result, ok, err, reject, ◌>>=◌, ◌>>◌}
use sync_hub_for_agents.Base.Strings.{split, dot, dot_dot, contains_any}
use sync_hub_for_agents.Resource.Model.{strategy_install_manifest, category_skills}
use sync_hub_for_agents.Resource.Spec.{Spec}
use sync_hub_for_agents.Resource.Namespace.{PathError, repo_path}
use sync_hub_for_agents.Install.{
  Declaration, Operation, InstallError, wrong_adapter, adapter_unavailable, read_failed,
  unsafe_payload, payload_link, backup_failed, check_all, validate_declaration, uninstall,
  claude_plugin, copilot_plugin,
}
use sync_hub_for_agents.Install.Operations.{claude_operations, copilot_operations}

-- `json.Decoder` with unknown fields disallowed, and nothing behind the value
abbrev pub Decoder : Type 0
Decoder = Text → Result InstallError (List Declaration)

-- `Operations` of an adapter
abbrev pub Adapter : Type 0
Adapter = List Declaration → List Declaration → Result InstallError (List Operation)

-- `NewBuiltinInventory`, with `Register` for each adapter
unfoldable pub builtin_registry : Dict Text Adapter
unfolding claude_operations copilot_operations
builtin_registry =
    insert copilot_plugin copilot_operations (insert claude_plugin claude_operations [])

-- `parseDeclarations`
unfoldable pub parse_declarations : Decoder → Text → Result InstallError (List Declaration)
unfolding check_all validate_declaration
parse_declarations decode [] = ok []
parse_declarations decode (c ∷ cs) = do
  ds ← decode (c ∷ cs)
  check_all validate_declaration ds
  ok ds

-- `validateManifestAdapter`
unfoldable pub validate_manifest_adapter : Text → List Declaration → Result InstallError (Unit {0})
unfolding check_all
validate_manifest_adapter adapter =
    check_all (λ (d : Declaration). reject (not (d.adapter == adapter)) wrong_adapter)

-- `ValidateDeclarations`
unfoldable pub validate_declarations :
    Decoder → Text → Text → Result InstallError (List Declaration)
unfolding parse_declarations validate_manifest_adapter
validate_declarations decode adapter text = do
  ds ← parse_declarations decode text
  validate_manifest_adapter adapter ds
  ok ds

-- How a file of the repository reads: an error, nothing, or its contents
abbrev pub Reader : Type 0
Reader = Text → Result InstallError (Option Text)

-- A manifest that is not there declares nothing.
unfoldable pub parse_found : Decoder → Option Text → Result InstallError (List Declaration)
unfolding parse_declarations
parse_found decode none = ok []
parse_found decode (some text) = parse_declarations decode text

unfoldable pub read_path :
    Decoder → Reader → Result PathError Text → Result InstallError (List Declaration)
unfolding parse_found
read_path decode read (Result.err _) = err read_failed
read_path decode read (Result.ok path) = read path >>= parse_found decode

-- `readDeclarations`
unfoldable pub read_declarations : Decoder → Reader → Spec → Result InstallError (List Declaration)
unfolding read_path
read_declarations decode read spec = read_path decode read (repo_path spec (codes "manifest.json"))

-- A manifest that was not collected reads as empty.
abbrev pub manifest_of : Dict Text Text → Text → Text
manifest_of manifests key = elim (lookup key manifests) [ none ↦ [] | some text ↦ text ]

-- What the loop over the resources gathers
pub record Gathered : Type 0 where
  pub declarations : List Declaration
  pub operations : List Operation
  pub install_specs : Dict Text Spec

module _ (decode : Decoder) (read : Reader) (registry : Dict Text Adapter)
    (current_manifests : Dict Text Text) where
  -- One resource whose strategy is to be installed, by the adapter of its installer
  unfoldable pub gather_spec : Spec → Gathered → Option Adapter → Result InstallError Gathered
  unfolding read_declarations parse_declarations validate_manifest_adapter
  gather_spec spec g none = err adapter_unavailable
  gather_spec spec g (some operations_of) = do
    desired ← read_declarations decode read spec
    current ← parse_declarations decode (manifest_of current_manifests spec.key)
    validate_manifest_adapter spec.installer desired
    validate_manifest_adapter spec.installer current
    planned ← operations_of desired current
    ok (record {
      declarations = g.declarations ++ desired;
      operations = g.operations ++ planned;
      install_specs = insert spec.installer spec g.install_specs;
    })

  unfoldable pub gather_key : Gathered → Option Spec → Result InstallError Gathered
  unfolding gather_spec
  gather_key g none = ok g
  gather_key g (some spec) =
      if spec.strategy == strategy_install_manifest
      then gather_spec spec g (lookup spec.installer registry)
      else ok g

  -- The loop over the keys of `specs`
  unfoldable pub gather : Dict Text Spec → List Text → Gathered → Result InstallError Gathered
  unfolding gather_key
  gather specs [] g = ok g
  gather specs (key ∷ rest) g = gather_key g (lookup key specs) >>= gather specs rest

-- `sortedSpecKeys`
unfoldable pub sorted_spec_keys : Dict Text Spec → List Text
sorted_spec_keys specs = sort_strings (keys specs)

-- The loop of `sharedSkillSpec`
unfoldable pub first_skill_spec : Dict Text Spec → List Text → Option Spec
first_skill_spec specs [] = none
first_skill_spec specs (key ∷ rest) =
    let later = first_skill_spec specs rest in
    elim (lookup key specs) [
      | none ↦ later
      | some spec ↦ if spec.category == category_skills then some spec else later
    ]

-- `sharedSkillSpec`
unfoldable pub shared_skill_spec : Dict Text Spec → Option Spec
unfolding first_skill_spec sorted_spec_keys
shared_skill_spec specs =
    let any = first_skill_spec specs (sorted_spec_keys specs) in
    elim (lookup (codes "common/common-skills") specs) [
      | none ↦ any
      | some spec ↦ if spec.category == category_skills then some spec else any
    ]

-- What `os.Lstat` says of the payload of a plugin
pub data Payload : Type 0 where
  no_payload : Payload
  unreadable_payload : Payload
  linked_payload : Payload
  plain_payload : Payload

abbrev first_part : List Text → Text
first_part [] = []
first_part (p ∷ _) = p

-- The name of the payload of a plugin
unfoldable pub payload_name : Text → Text
payload_name source = first_part (split 0x40 source)

-- `backupPlugin`; the copy into the local trash is a parameter.
unfoldable pub backup_plugin :
    (Text → Text → Payload)
    → (Text → Text → Text → Result InstallError (Unit {0}))
    → Spec
    → Operation
    → Result InstallError (Unit {0})
unfolding payload_name
backup_plugin payload_at copy spec o =
    let name = payload_name o.source in
    do
      reject ((name == [] || (name == dot || name == dot_dot)) || contains_any name (codes "/\\"))
          unsafe_payload
      elim (payload_at spec.root name) [
        | no_payload ↦ ok tt
        | unreadable_payload ↦ err backup_failed
        | linked_payload ↦ err payload_link
        | plain_payload ↦ copy spec.root o.adapter name
      ]

-- `BeforeRun` of `Reconcile`
unfoldable pub before_uninstall :
    (Spec → Operation → Result InstallError (Unit {0}))
    → Dict Text Spec
    → Operation
    → Result InstallError (Unit {0})
before_uninstall backup install_specs o =
    if not (o.kind == uninstall)
    then ok tt
    else elim (lookup o.adapter install_specs) [ none ↦ ok tt | some spec ↦ backup spec o ]
