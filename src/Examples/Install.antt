-- ===== src/Examples/Install.antt =====
-- A plugin that is declared and not installed, first without and then with its approval.
use mathlib.Core.List.{Memᴰ}
use sync_hub_for_agents.Base.{
  ◌≡◌, refl, true, false, none, some, [], ◌∷◌, ◌++◌, All, nat_eq, ℕ_discrete,
}
use sync_hub_for_agents.Base.{◌==◌}
use sync_hub_for_agents.Base.Text.{Text, codes, text_eq, has_prefix}
use sync_hub_for_agents.Base.Dict.{Dict, lookup, insert, keys}
use sync_hub_for_agents.Base.SortBy.{sort_by}
use sync_hub_for_agents.Base.Result.{ok}
use sync_hub_for_agents.Base.Stateful.{◌>>=◌, lift, After}
use sync_hub_for_agents.Base.Strings.{is_blank, contains_any, contains_text}
use sync_hub_for_agents.Resource.Spec.{Spec}
use sync_hub_for_agents.Examples.Resource.{skills}
use sync_hub_for_agents.Install.{
  Declaration, Operation, Plan, claude_plugin, install, validate_declaration, new_plan,
}
use sync_hub_for_agents.Install.Operations.{FilePaths, plugin_operation, plugin_operations}
use sync_hub_for_agents.Install.Operations.Accepted.{Accepted}
use sync_hub_for_agents.Install.Operations.Diff.{Needed, plugin_operations-Needed}
use sync_hub_for_agents.Install.Store.{World, missing, holds}
use sync_hub_for_agents.Install.Executor.{Executor, execute}
use sync_hub_for_agents.Install.Executor.Progress.{Progress}
use sync_hub_for_agents.Install.Executor.Settled.{Executed, execute-Executed}
use sync_hub_for_agents.Install.Manager.{gather, sorted_spec_keys, builtin_registry, no_payload}
use sync_hub_for_agents.Install.Manager.Reconcile.{Environment, add_skills}
use sync_hub_for_agents.Install.Manager.Builtin.{builtin_plan-Accepted}

abbrev formatter : Declaration
formatter = record {
  id = codes "fmt@tools";
  adapter = claude_plugin;
  source = codes "fmt@tools";
  version = codes "2";
  enabled = true;
  settings = [];
}

abbrev install_formatter : Operation
install_formatter = record {
  id = codes "claude-plugin:install:fmt@tools@2";
  adapter = claude_plugin;
  source = codes "fmt@tools";
  kind = install;
  executable = codes "claude";
  args = codes "plugin" ∷ codes "install" ∷ codes "fmt@tools" ∷ codes "--scope" ∷ codes "user" ∷ [];
  working_dir = [];
}

is_planned :
    plugin_operations claude_plugin (codes "claude") (formatter ∷ []) []
    ≡ ok (install_formatter ∷ [])
unfolding plugin_operations validate_declaration plugin_operation is_blank contains_any
    contains_text text_eq nat_eq ℕ_discrete has_prefix lookup insert keys sort_by
is_planned = refl

plugin_operations-Needed_example :
    (Memᴰ install_formatter (install_formatter ∷ [])
      → Needed claude_plugin (codes "claude") (formatter ∷ []) [] install_formatter)
    × (Needed claude_plugin (codes "claude") (formatter ∷ []) [] install_formatter
        → Memᴰ install_formatter (install_formatter ∷ []))
plugin_operations-Needed_example =
    plugin_operations-Needed claude_plugin (codes "claude") (formatter ∷ []) []
      (install_formatter ∷ []) is_planned install_formatter

abbrev digest : Text → Text
digest t = t

abbrev plan : Plan
plan = record { id = codes "p"; operations = install_formatter ∷ []; approved = true; errors = [] }

abbrev executor : Executor
executor = record {
  runner = some (λ _ _. record { error = none; stderr = [] });
  has_store = true;
  before_run = none;
}

abbrev approved_world : World
approved_world = record {
  pending = missing;
  approvals = holds ((claude_plugin ++ (0 ∷ codes "fmt@tools"), true) ∷ []);
  applied = missing;
  answers = [];
  runs = [];
  skill_manifest = none;
}

execute-Executed_example :
    After
      (Executed digest executor plan approved_world)
      (Progress digest (install_formatter ∷ []) approved_world)
      (execute digest executor plan approved_world)
execute-Executed_example = execute-Executed digest executor plan approved_world

abbrev paths : FilePaths
paths = record {
  is_abs = λ t. has_prefix t (codes "/");
  clean = λ t. 0x2f ∷ t;
  from_slash = λ t. t;
  join_two = λ r s. r ++ (0x2f ∷ s);
  relative_to = λ r s. some s;
  separator = 0x2f;
}

abbrev environment : Environment
environment = record {
  digest = digest;
  plan_digest = λ ds os. codes "plan";
  paths = paths;
  to_lower = λ t. t;
  decode = λ t. ok (formatter ∷ []);
  read = λ path. ok (some (codes "[]"));
  skills = none;
  registry = some builtin_registry;
  payload_at = λ root name. no_payload;
  copy = λ root adapter name. ok tt;
}

abbrev plugins : Dict Text Spec
plugins =
    (
      codes "claude/plugins",
      record skills {
        key = codes "claude/plugins";
        id = codes "plugins";
        category = codes "plugins";
        strategy = codes "install-manifest";
        installer = claude_plugin;
      },
    )
    ∷ []

clean_nonempty : (s : Text) → (paths.clean s == []) ≡ false
unfolding text_eq
clean_nonempty s = refl

join_two_nonempty : (r s : Text) → (r == []) ≡ false → (paths.join_two r s == []) ≡ false
unfolding text_eq
join_two_nonempty [] s h = cc
join_two_nonempty (c ∷ r) s h = refl

builtin_plan-Accepted_example :
    After
      (λ h _.
        (p : Plan) × (new_plan environment.plan_digest h.declarations h.operations ≡ ok p)
        × All Accepted p.operations)
      (λ _. Unit)
      ((lift (
            gather environment.decode environment.read builtin_registry [] plugins
              (sorted_spec_keys plugins)
              (record { declarations = []; operations = []; install_specs = [] }))
          >>= add_skills environment plugins)
        approved_world)
builtin_plan-Accepted_example =
    builtin_plan-Accepted environment clean_nonempty join_two_nonempty plugins [] approved_world
