-- ===== src/Examples/Screening.antt =====
-- A repository with one skill without secrets, and files that are blocked.
use sync_hub_for_agents.Base.{◌≡◌, refl, true, false, none, some, [], ◌∷◌, pos, nat_eq, ℕ_discrete}
use sync_hub_for_agents.Base.{◌==◌, if◌then◌else◌}
use sync_hub_for_agents.Base.Text.{codes, text_eq, has_prefix}
use sync_hub_for_agents.Base.Dict.{lookup}
use sync_hub_for_agents.Base.Result.{ok}
use sync_hub_for_agents.Base.Strings.{
  clean, contains_any, contains_text, is_blank, path_join, split, to_slash,
}
use sync_hub_for_agents.State.{Snapshot}
use sync_hub_for_agents.Resource.Model.{strategy_source_tree}
use sync_hub_for_agents.Resource.Spec.{owns}
use sync_hub_for_agents.Resource.Identifier.{validate_identifier}
use sync_hub_for_agents.Resource.Namespace.{parse_repo_path}
use sync_hub_for_agents.Sync.Planning.{is_internal_portable_path}
use sync_hub_for_agents.Merge.Document.{object, member, no_members, null, Json}
use sync_hub_for_agents.Examples.Planning.{lower, absolute, no_message, specs, skipped_file}
use sync_hub_for_agents.Screening.{Platform}
use sync_hub_for_agents.Screening.Secret.{Scanner, should_block}
use sync_hub_for_agents.Screening.Secret.Blocked.{Reason, should_block-Reason}
use sync_hub_for_agents.Screening.Filter.{FilterPolicy, check}
use sync_hub_for_agents.Screening.Filter.Admitted.{Admitted, check-Admitted}
use sync_hub_for_agents.Screening.Remote.{Repository, validate_remote_resources}
use sync_hub_for_agents.Screening.Remote.Screened.{Screened, validate_remote_resources-Screened}

abbrev key_document : Json
key_document = object (member (codes "api_token") null no_members)

abbrev platform : Platform
platform = record {
  to_lower = lower;
  equal_fold = λ a b. a == b;
  glob = λ pattern path. ok (pattern == path);
  decode = λ content. if content == codes "{key}" then some key_document else none;
}

abbrev scanner : Scanner
scanner = record { exclude_globs = codes ".env" ∷ []; key_patterns = codes "token" ∷ [] }

should_block-Reason_example :
    (should_block platform scanner (codes "a.json") (codes "{key}") ≡ true
      → Reason platform scanner (codes "a.json") (codes "{key}"))
    × (Reason platform scanner (codes "a.json") (codes "{key}")
        → should_block platform scanner (codes "a.json") (codes "{key}") ≡ true)
should_block-Reason_example = should_block-Reason platform scanner (codes "a.json") (codes "{key}")

token_is_blocked : should_block platform scanner (codes "a.json") (codes "{key}") ≡ true
unfolding should_block to_slash text_eq nat_eq ℕ_discrete clean contains_any contains_text
    has_prefix
token_is_blocked = refl

abbrev policy : FilterPolicy
policy = record {
  max_file_size = pos 10;
  generated_globs = codes "a.log" ∷ [];
  executable_extensions = codes ".exe" ∷ [];
}

check-Admitted_example :
    (check platform policy (codes "b.exe") (pos 3) strategy_source_tree ≡ ok tt
      → Admitted platform policy (codes "b.exe") (pos 3) strategy_source_tree)
    × (Admitted platform policy (codes "b.exe") (pos 3) strategy_source_tree
        → check platform policy (codes "b.exe") (pos 3) strategy_source_tree ≡ ok tt)
check-Admitted_example = check-Admitted platform policy (codes "b.exe") (pos 3) strategy_source_tree

abbrev repository : Repository
repository = record {
  is_link = λ _. some false;
  read = λ _. ok (codes "text");
  exists = λ _. false;
  decode_record = λ _. none;
  decode_declarations = λ _. ok [];
  project = none;
  documents_equal = λ _ a b. a == b;
}

abbrev owned : Snapshot
owned = (skipped_file, record { hash = codes "1"; mod_time = pos 0; size = pos 1 }) ∷ []

is_valid :
    lookup skipped_file
      ((validate_remote_resources platform repository absolute lower no_message specs owned).0)
    ≡ some (record { hash = codes "1"; mod_time = pos 0; size = pos 1 })
unfolding validate_remote_resources lookup text_eq nat_eq ℕ_discrete clean has_prefix is_blank
    parse_repo_path owns validate_identifier path_join split contains_any contains_text
is_valid = refl

is_not_internal : is_internal_portable_path skipped_file ≡ false
unfolding is_internal_portable_path text_eq nat_eq ℕ_discrete split
is_not_internal = refl

validate_remote_resources-Screened_example :
    Screened platform repository absolute lower no_message specs skipped_file
validate_remote_resources-Screened_example =
    validate_remote_resources-Screened platform repository absolute lower no_message specs owned
      skipped_file (record { hash = codes "1"; mod_time = pos 0; size = pos 1 }) is_valid
      is_not_internal
