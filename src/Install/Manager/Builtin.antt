-- ===== src/Install/Manager/Builtin.antt =====
-- The adapters of the program, in the plan of `Reconcile`.
use mathlib.Core.Path.{subst}
use mathlib.Core.Option.{some-injective}
use sync_hub_for_agents.Base.{◌≡◌, ◌∙◌, sym, Bool, true, false, some, [], All}
use sync_hub_for_agents.Base.{◌==◌, nat_eq, if◌then◌else◌}
use sync_hub_for_agents.Base.Text.{Text, text_eq, codes}
use sync_hub_for_agents.Base.Dict.{Dict, lookup, lookup-insert, lookup-nil, insert}
use sync_hub_for_agents.Base.Result.{ok}
use sync_hub_for_agents.Base.Stateful.{◌>>=◌, lift, After}
use sync_hub_for_agents.Resource.Spec.{Spec}
use sync_hub_for_agents.Install.{Plan, new_plan, claude_plugin, copilot_plugin}
use sync_hub_for_agents.Install.Operations.{claude_operations, copilot_operations}
use sync_hub_for_agents.Install.Operations.Trusted.{
  claude_operation_trusted, copilot_operation_trusted,
}
use sync_hub_for_agents.Install.Operations.Accepted.{Accepted, plugin_operations-Accepted}
use sync_hub_for_agents.Install.Store.{World}
use sync_hub_for_agents.Install.Manager.{Adapter, gather, sorted_spec_keys, builtin_registry}
use sync_hub_for_agents.Install.Manager.Reconcile.{Environment, add_skills}
use sync_hub_for_agents.Install.Manager.Accepted.{IsTrustedAdapter}
use sync_hub_for_agents.Install.Manager.Planned.{gathered_plan-Accepted}

claude_operations-IsTrustedAdapter : IsTrustedAdapter claude_operations
unfolding claude_operations
claude_operations-IsTrustedAdapter =
    plugin_operations-Accepted claude_plugin (codes "claude") claude_operation_trusted

copilot_operations-IsTrustedAdapter : IsTrustedAdapter copilot_operations
unfolding copilot_operations
copilot_operations-IsTrustedAdapter =
    plugin_operations-Accepted copilot_plugin (codes "copilot") copilot_operation_trusted

AllTrusted : Dict Text Adapter → Type 0
AllTrusted registry =
    (name : Text) (a : Adapter) → lookup name registry ≡ some a → IsTrustedAdapter a

insert-AllTrusted :
    (key : Text) (b : Adapter) (registry : Dict Text Adapter)
    → IsTrustedAdapter b
    → AllTrusted registry
    → AllTrusted (insert key b registry)
unfolding AllTrusted
insert-AllTrusted key b registry t all name a h =
    by_test (name == key) (sym (lookup-insert name key b registry) ∙ h)
  where
    by_test :
        (same : Bool)
        → (if same then some b else lookup name registry) ≡ some a
        → IsTrustedAdapter a
    by_test true e = subst IsTrustedAdapter (some-injective b a e) t
    by_test false e = all name a e

builtin_registry-AllTrusted : AllTrusted builtin_registry
unfolding builtin_registry AllTrusted
builtin_registry-AllTrusted =
    insert-AllTrusted copilot_plugin copilot_operations _ copilot_operations-IsTrustedAdapter (
      insert-AllTrusted claude_plugin claude_operations [] claude_operations-IsTrustedAdapter
        no_adapter)
  where
    no_adapter : AllTrusted []
    no_adapter name a h = cc (sym (lookup-nil name) ∙ h)

module _ (env : Environment) (clean_nonempty : (s : Text) → (env.paths.clean s == []) ≡ false)
    (join_two_nonempty : (r s : Text)
      → (r == []) ≡ false
      → (env.paths.join_two r s == []) ≡ false) where
  -- With the adapters of the program, whatever the files answer: if `filepath.Clean` and the join of
  -- a path to a nonempty root are never empty, then what `Reconcile` gathers from the resources and
  -- the shared skills is a plan that `NewPlan` accepts, and `ValidateOperation` accepts every
  -- operation of it.
  pub builtin_plan-Accepted :
      (specs : Dict Text Spec) (manifests : Dict Text Text) (w : World)
      → After
          (λ h _.
            (plan : Plan) × (new_plan env.plan_digest h.declarations h.operations ≡ ok plan)
            × All Accepted plan.operations)
          (λ _. Unit)
          ((lift (
                gather env.decode env.read builtin_registry manifests specs
                  (sorted_spec_keys specs)
                  (record { declarations = []; operations = []; install_specs = [] }))
              >>= add_skills env specs)
            w)
  unfolding AllTrusted
  builtin_plan-Accepted =
      gathered_plan-Accepted env builtin_registry builtin_registry-AllTrusted clean_nonempty
        join_two_nonempty
