-- ===== src/Install/Manager/Reconcile.antt =====
-- internal/installplan/manager.go: `Reconcile`.
use sync_hub_for_agents.Base.{
  ℕ, Bool, true, false, not, Option, none, some, List, [], ◌∷◌, ◌++◌, length,
}
use sync_hub_for_agents.Base.{if◌then◌else◌}
use sync_hub_for_agents.Base.Text.{Text}
use sync_hub_for_agents.Base.Dict.{Dict}
use sync_hub_for_agents.Base.Result.{Result, err, reject}
use sync_hub_for_agents.Base.Stateful.{◌>>=◌, ◌>>◌, return, lift}
use sync_hub_for_agents.Resource.Spec.{Spec}
use sync_hub_for_agents.Install.{Declaration, Operation, Plan, InstallError, missing_part, new_plan}
use sync_hub_for_agents.Install.Operations.{FilePaths, operations_for_skill_dependencies}
use sync_hub_for_agents.Install.Store.{
  World, Step, approval_status, load_pending, clear_pending, save_pending, write_json,
}
use sync_hub_for_agents.Install.Executor.{Runner, execute}
use sync_hub_for_agents.Install.Manager.{
  Decoder, Reader, Adapter, Payload, Gathered, gather, sorted_spec_keys, shared_skill_spec,
  backup_plugin, before_uninstall,
}
use sync_hub_for_agents.Install.Manager.Skills.{Entries, discover_skill_dependencies}

-- `ReconcileResult`
pub record ReconcileResult : Type 0 where
  pub executed : ℕ
  pub pending : ℕ
  pub errors : Dict Text Text

-- What is outside the package: hashes, `filepath`, the decoder, the files of the repository, the
-- directory of the shared skills in it, the adapters, and the payloads of the plugins.
pub record Environment : Type 0 where
  pub digest : Text → Text
  pub plan_digest : List Declaration → List Operation → Text
  pub paths : FilePaths
  pub to_lower : Text → Text
  pub decode : Decoder
  pub read : Reader
  pub skills : Option Entries
  pub registry : Option (Dict Text Adapter)
  pub payload_at : Text → Text → Payload
  pub copy : Text → Text → Text → Result InstallError (Unit {0})

-- `Manager`
pub record Manager : Type 0 where
  pub runner : Option Runner
  pub has_store : Bool

abbrev pub with_manifest : List Declaration → World → World
with_manifest [] w = record w { skill_manifest = none }
with_manifest (d ∷ ds) w = record w { skill_manifest = some (d ∷ ds) }

module _ (env : Environment) where
  -- The manifest of no declarations is removed.
  unfoldable pub store_skill_manifest : List Declaration → Step (List Declaration)
  unfolding write_json ◌>>=◌
  store_skill_manifest ds = do write_json (with_manifest ds); return ds

  -- `updateSkillManifest`
  unfoldable pub update_skill_manifest : Step (List Declaration)
  unfolding discover_skill_dependencies store_skill_manifest ◌>>=◌
  update_skill_manifest =
      lift (discover_skill_dependencies env.digest env.to_lower env.skills) >>= store_skill_manifest

  unfoldable pub add_skill_operations : Spec → Gathered → List Declaration → Step Gathered
  unfolding operations_for_skill_dependencies ◌>>=◌
  add_skill_operations spec g ds = do
    os ← lift (operations_for_skill_dependencies env.paths env.to_lower spec.root ds)
    return (record g { declarations = g.declarations ++ ds; operations = g.operations ++ os })

  unfoldable pub add_skills_of : Option Spec → Gathered → Step Gathered
  unfolding update_skill_manifest add_skill_operations ◌>>=◌
  add_skills_of none g = return g
  add_skills_of (some spec) g = update_skill_manifest >>= add_skill_operations spec g

  -- The shared skills join what the resources gathered.
  unfoldable pub add_skills : Dict Text Spec → Gathered → Step Gathered
  unfolding shared_skill_spec add_skills_of
  add_skills specs g = add_skills_of (shared_skill_spec specs) g

  -- The loop over the operations that stops at the first one that is not approved
  unfoldable pub all_approved : List Operation → Step Bool
  unfolding approval_status ◌>>=◌
  all_approved [] = return true
  all_approved (o ∷ os) = do
    approved ← approval_status env.digest o
    (if approved then all_approved os else return false)

  -- An empty plan clears what is pending.
  unfoldable pub clear_all : Step ReconcileResult
  unfolding load_pending clear_pending ◌>>=◌
  clear_all = do
    found ← load_pending
    elim found [ none ↦ return tt | some plan ↦ clear_pending plan.id ]
    return (record { executed = 0; pending = 0; errors = [] })

  unfoldable pub run_plan : Manager → Dict Text Spec → Plan → Step ReconcileResult
  unfolding all_approved save_pending execute before_uninstall backup_plugin ◌>>=◌
  run_plan m install_specs plan = do
    approved ← all_approved plan.operations
    save_pending (record plan { approved = approved })
    result ←
        execute env.digest
          (record {
            runner = m.runner;
            has_store = m.has_store;
            before_run =
                some (before_uninstall (backup_plugin env.payload_at env.copy) install_specs);
          })
          (record plan { approved = approved })
    return (record {
      executed = length result.executed;
      pending = length result.pending;
      errors = result.errors;
    })

  unfoldable pub run_or_clear : Manager → Dict Text Spec → Plan → Step ReconcileResult
  unfolding clear_all run_plan
  run_or_clear m install_specs plan = elim plan.operations [
    | [] ↦ clear_all
    | o ∷ os ↦ run_plan m install_specs plan
  ]

  -- `Reconcile`
  unfoldable pub reconcile_installs :
      Manager → Dict Text Spec → Dict Text Text → Step ReconcileResult
  unfolding gather sorted_spec_keys add_skills new_plan run_or_clear ◌>>=◌
  reconcile_installs m specs current_manifests = elim env.registry [
    | none ↦ lift (err missing_part)
    | some registry ↦ elim m.runner [
      | none ↦ lift (err missing_part)
      | some _ ↦ (do
        lift (reject (not m.has_store) missing_part)
        g ← lift (
            gather env.decode env.read registry current_manifests specs (sorted_spec_keys specs)
              (record { declarations = []; operations = []; install_specs = [] }))
        h ← add_skills specs g
        plan ← lift (new_plan env.plan_digest h.declarations h.operations)
        run_or_clear m h.install_specs plan)
    ]
  ]
