-- ===== src/Examples/Planning.antt =====
-- A pass over one resource, with a file that is skipped and one that nobody owns.
use sync_hub_for_agents.Base.{
  ◌≡◌, refl, Bool, true, false, List, [], ◌∷◌, pos, nat_eq, ℕ_discrete, contains,
}
use sync_hub_for_agents.Base.Text.{Text, codes, text_eq, has_prefix}
use sync_hub_for_agents.Base.Strings.{path_join, clean, is_blank}
use sync_hub_for_agents.Base.Sort.{sort_strings, add_key}
use sync_hub_for_agents.Base.Dict.{Dict, lookup}
use sync_hub_for_agents.State.{Snapshot}
use sync_hub_for_agents.Resource.Model.{Issue}
use sync_hub_for_agents.Resource.Identifier.{validate_identifier}
use sync_hub_for_agents.Resource.Spec.{Spec}
use sync_hub_for_agents.Resource.Namespace.{PathError, repo_path}
use sync_hub_for_agents.Sync.Reconcile.Decision.{on_path}
use sync_hub_for_agents.Sync.Planning.{
  Side, split_remote_snapshot, skipped_repo_prefixes, blocked_repo_paths, has_any_prefix,
  prepare_resource_plan,
}
use sync_hub_for_agents.Sync.Planning.Split.{IsSplit}
use sync_hub_for_agents.Sync.Planning.Ownership.{IsSide, split_remote_snapshot-IsSide}
use sync_hub_for_agents.Sync.Planning.Skipped.{prepare_resource_plan-skips}
use sync_hub_for_agents.Examples.Resource.{skills}

abbrev pub lower : Text → Text
lower t = t

abbrev pub absolute : Text → Bool
absolute t = has_prefix t (codes "/")

abbrev pub no_message : PathError → Text
no_message _ = []

abbrev pub specs : Dict Text Spec
specs = (codes "claude/skills", skills) ∷ []

abbrev pub skipped_file : Text
skipped_file = codes "agents/_portable/config/providers/claude/skills/skills/x"

abbrev pub remote : Snapshot
remote =
    (skipped_file, record { hash = codes "1"; mod_time = pos 0; size = pos 1 })
    ∷ (codes "README.md", record { hash = codes "2"; mod_time = pos 0; size = pos 1 })
    ∷ []

abbrev pub unreadable : List Issue
unreadable =
    record {
      resource_key = codes "claude/skills";
      path = codes "x";
      code = codes "read-failed";
      message = [];
      bytes = pos 0;
    }
    ∷ []

is_skipped :
    has_any_prefix
      (skipped_repo_prefixes lower absolute lower no_message specs unreadable)
      skipped_file
    ≡ true
unfolding has_any_prefix skipped_repo_prefixes repo_path validate_identifier path_join clean
    is_blank has_prefix text_eq nat_eq ℕ_discrete sort_strings add_key lookup
is_skipped = refl

is_not_blocked :
    contains (blocked_repo_paths lower absolute lower no_message specs []) skipped_file ≡ false
unfolding blocked_repo_paths sort_strings
is_not_blocked = refl

prepare_resource_plan-skips_example :
    on_path skipped_file (
      (prepare_resource_plan lower absolute lower no_message specs remote [] remote remote
        unreadable []).actions)
    ≡ []
prepare_resource_plan-skips_example =
    prepare_resource_plan-skips lower absolute lower no_message specs remote [] remote remote
      unreadable [] skipped_file is_skipped is_not_blocked

split_remote_snapshot-IsSide_example :
    (d : Side) × (IsSide lower specs skipped_file d
      × IsSplit d skipped_file remote
          (split_remote_snapshot lower absolute lower no_message specs remote))
split_remote_snapshot-IsSide_example =
    split_remote_snapshot-IsSide lower absolute lower no_message specs remote skipped_file
