-- ===== src/Examples/Resource.antt =====
-- A resource of each layout.
use sync_hub_for_agents.Base.{◌≡◌, ◌≢◌, refl, false, none, [], nat_eq, ℕ_discrete, arith}
use sync_hub_for_agents.Base.Text.{codes, text_eq, has_prefix}
use sync_hub_for_agents.Base.Result.{ok}
use sync_hub_for_agents.Base.Strings.{path_join, clean, is_blank}
use sync_hub_for_agents.Resource.Identifier.{validate_identifier}
use sync_hub_for_agents.Resource.Model.{category_skills, layout_portable, portable_provider_name}
use sync_hub_for_agents.Resource.Spec.{Spec}
use sync_hub_for_agents.Resource.Namespace.{repo_path, parse_repo_path}
use sync_hub_for_agents.Resource.Namespace.Forms.{ref_of}
use sync_hub_for_agents.Resource.Namespace.RoundTrip.{
  parse_repo_path-repo_path, repo_path_injective,
}

abbrev pub skills : Spec
skills = record {
  key = codes "claude/skills";
  provider = codes "claude";
  id = codes "skills";
  category = category_skills;
  strategy = codes "source-tree";
  layout = layout_portable;
  root = codes "/home/u/.claude/skills";
  targets = [];
  include = [];
  exclude = [];
  transformer = [];
  installer = [];
  shared_as = [];
  key_patterns = [];
  reserved = [];
  copy_only = false;
  optional_root = false;
  validate_root = none;
  validate_content = none;
}

abbrev shared : Spec
shared = record skills { shared_as = codes "agents" }

skills_path :
    repo_path skills (codes "x/SKILL.md")
    ≡ ok (codes "agents/_portable/config/providers/claude/skills/skills/x/SKILL.md")
unfolding repo_path validate_identifier path_join clean is_blank has_prefix text_eq nat_eq
    ℕ_discrete
skills_path = refl

shared_path :
    repo_path shared (codes "x") ≡ ok (codes "agents/_portable/config/common/skills/agents/x")
unfolding repo_path validate_identifier path_join clean is_blank has_prefix text_eq nat_eq
    ℕ_discrete
shared_path = refl

provider_differs : codes "claude" ≢ portable_provider_name
provider_differs e = ground arith

parse_repo_path-repo_path_example :
    parse_repo_path (codes "agents/_portable/config/providers/claude/skills/skills/x/SKILL.md")
    ≡ ok (ref_of skills (codes "x/SKILL.md"))
unfolding text_eq nat_eq ℕ_discrete
parse_repo_path-repo_path_example =
    parse_repo_path-repo_path skills (codes "x/SKILL.md")
      (codes "agents/_portable/config/providers/claude/skills/skills/x/SKILL.md") provider_differs
      refl skills_path

-- A resource of another provider, kept in the same shared place
abbrev shared_too : Spec
shared_too = record shared { key = codes "codex/more"; provider = codes "codex"; id = codes "more" }

shared_too_path :
    repo_path shared_too (codes "x") ≡ ok (codes "agents/_portable/config/common/skills/agents/x")
unfolding repo_path validate_identifier path_join clean is_blank has_prefix text_eq nat_eq
    ℕ_discrete
shared_too_path = refl

too_differs : shared_too.provider ≢ portable_provider_name
too_differs h = absurd (ground (arith, h))

repo_path_injective_example : ref_of shared (codes "x") ≡ ref_of shared_too (codes "x")
unfolding text_eq nat_eq ℕ_discrete
repo_path_injective_example =
    repo_path_injective shared shared_too (codes "x") (codes "x")
      (codes "agents/_portable/config/common/skills/agents/x") (provider_differs, too_differs)
      (refl, refl) shared_path shared_too_path
