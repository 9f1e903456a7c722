-- ===== src/Screening/Remote.antt =====
-- internal/syncengine/resources.go: which files of the repository a pass may use.
pub mod Screened
use sync_hub_for_agents.Base.{
  ℕ, Bool, true, false, not, ◌&&◌, ◌||◌, Option, none, some, List, [], ◌∷◌, ◌++◌, ℤ, pos, length,
}
use sync_hub_for_agents.Base.{◌==◌, if◌then◌else◌}
use sync_hub_for_agents.Base.Text.{Text, text_eq, codes}
use sync_hub_for_agents.Base.Dict.{Dict}
use sync_hub_for_agents.Base.Result.{Result, ok, err, ◌>>=◌, ◌>>◌, reject}
use sync_hub_for_agents.Base.Strings.{slash, split, is_blank, path_join}
use sync_hub_for_agents.State.{FileMeta, Snapshot}
use sync_hub_for_agents.Resource.Model.{Issue, strategy_install_manifest}
use sync_hub_for_agents.Resource.Spec.{Spec}
use sync_hub_for_agents.Resource.Namespace.{PathError, RepoRef, parse_repo_path}
use sync_hub_for_agents.Conflict.Model.{Record}
use sync_hub_for_agents.Install.{Declaration, InstallError}
use sync_hub_for_agents.Install.Manager.{Decoder, validate_declarations}
use sync_hub_for_agents.Sync.Planning.{is_internal_portable_path, spec_for_ref, ref_matches_spec}
use sync_hub_for_agents.Screening.{Platform}
use sync_hub_for_agents.Screening.Secret.{new_scanner, scan}

-- The files of the repository by their paths, the decoders of their contents, and the projector of
-- configurations, which may be missing
pub record Repository : Type 0 where
  pub is_link : Text → Option Bool
  pub read : Text → Result Text Text
  pub exists : Text → Bool
  pub decode_record : Text → Option Record
  pub decode_declarations : Decoder
  pub project : Option (Text → Text → Text → Result Text Text)
  pub documents_equal : Text → Text → Text → Bool

-- `remoteIssue`, and the literals that are like it
abbrev pub remote_issue : Text → Text → Text → Text → Issue
remote_issue key repo_rel code message = record {
  resource_key = key;
  path = repo_rel;
  code = code;
  message = message;
  bytes = pos 0;
}

-- An error as the text that an issue shows
abbrev pub or_fail : {E A : Type 0} → Text → Result E A → Result Text A
or_fail problem (ok a) = ok a
or_fail problem (err _) = err problem

-- A scan, where a secret is an error too
abbrev pub reject_secret : Result Text Bool → Result Text (Unit {0})
reject_secret (ok true) = err (codes "secret-looking data detected")
reject_secret (ok false) = ok tt
reject_secret (err e) = err e

-- The key of the resource that a path belongs to
unfoldable pub expected_key : RepoRef → Text
expected_key ref =
    if ref.common
    then codes "common/" ++ ref.resource_id
    else ref.provider ++ (slash ∷ ref.resource_id)

abbrev pub conflict_file : Text → Text → Text
conflict_file id name =
    path_join
      (codes "agents" ∷ codes "_portable" ∷ codes "config" ∷ codes "conflicts" ∷ id ∷ name ∷ [])

abbrev pub validate_with : Option (Text → Text → Option Text) → Text → Text → Option Text
validate_with none rel content = none
validate_with (some f) rel content = f rel content

module _ (p : Platform) (r : Repository) (is_abs : Text → Bool) (file_to_slash : Text → Text)
    (path_message : PathError → Text) (specs : Dict Text Spec) where
  -- `specForRef` and `refMatchesSpec`
  unfoldable pub owner : RepoRef → Option Spec
  unfolding spec_for_ref ref_matches_spec
  owner ref = elim (spec_for_ref specs ref) [
    | none ↦ none
    | some spec ↦
        if ref_matches_spec p.to_lower is_abs file_to_slash path_message specs ref spec
        then some spec
        else none
  ]

  abbrev pub content_policy : Option Text → Result Text (Unit {0})
  content_policy none = ok tt
  content_policy (some problem) = err problem

  -- `scanInternalData`
  unfoldable pub scan_internal : Text → Text → Result Text (Unit {0})
  unfolding scan new_scanner
  scan_internal repo_rel content = reject_secret (
      scan p
        (new_scanner p [] (
          codes "apiKey"
          ∷ codes "token"
          ∷ codes "secret"
          ∷ codes "password"
          ∷ codes "oauth"
          ∷ codes "refresh_token"
          ∷ []))
        repo_rel content)

  unfoldable pub scan_variant : RepoRef → Text → Text → Option Spec → Result Text (Unit {0})
  unfolding scan_internal scan new_scanner path_join
  scan_variant ref variant content none =
      scan_internal (path_join (codes "conflict" ∷ variant ∷ ref.relative ∷ [])) content
  scan_variant ref variant content (some spec) = do
    content_policy (validate_with spec.validate_content ref.relative content)
    reject_secret (
        scan p (new_scanner p spec.exclude spec.key_patterns)
          (path_join (codes "conflict" ∷ variant ∷ ref.relative ∷ [])) content)

  -- `ConflictScanner`
  unfoldable pub scan_conflict : Record → Text → Text → Result Text (Unit {0})
  unfolding scan_variant owner is_blank
  scan_conflict conflict variant content = if is_blank content then ok tt else (do
    ref ← or_fail (codes "malformed path") (parse_repo_path conflict.repo_rel)
    scan_variant ref variant content (owner ref))

  -- A file of a bundle whose record is `record`
  unfoldable pub check_bundle_file : Text → Text → Text → Text → Record → Result Text (Unit {0})
  unfolding scan_internal scan_conflict owner expected_key path_join
  check_bundle_file repo_rel content id name conflict = do
    reject (not (conflict.id == id) || conflict.resource_key == []) (codes "record identity")
    ref ← or_fail (codes "canonical path") (parse_repo_path conflict.repo_rel)
    reject (not (conflict.resource_key == expected_key ref)) (codes "record resource key")
    reject
        (not (
          r.exists (conflict_file id (codes "base"))
          && (r.exists (conflict_file id (codes "local"))
              && r.exists (conflict_file id (codes "remote")))))
        (codes "conflict variant")
    (if name == codes "record.json" then scan_internal repo_rel content else elim (owner ref) [
      | none ↦ scan_internal repo_rel content
      | some _ ↦ scan_conflict conflict name content
    ])

  abbrev found_record : Option Record → Result Text Record
  found_record none = err (codes "parse conflict record")
  found_record (some conflict) = ok conflict

  unfoldable pub check_bundle : Text → Text → Text → Text → Result Text (Unit {0})
  unfolding check_bundle_file path_join
  check_bundle repo_rel content id name = do
    text ← r.read (conflict_file id (codes "record.json"))
    conflict ← found_record (r.decode_record text)
    check_bundle_file repo_rel content id name conflict

  unfoldable pub check_metadata : Text → Text → Text → Result Text (Unit {0})
  unfolding validate_declarations scan_internal
  check_metadata repo_rel content name = do
    reject (not (name == codes "skill-dependencies.json")) (codes "invalid install metadata path")
    or_fail (codes "validate Skill dependency declarations")
          (validate_declarations r.decode_declarations (codes "skill-dependencies") content)
        >>= (λ _. scan_internal repo_rel content)

  -- The part of `validateInternalRemote` that goes by the segments of the path
  unfoldable pub check_parts : Text → Text → List Text → Result Text (Unit {0})
  unfolding check_metadata check_bundle
  check_parts repo_rel content (a ∷ b ∷ c ∷ d ∷ name ∷ []) =
      if d == codes "install"
      then check_metadata repo_rel content name
      else err (codes "invalid internal portable path")
  check_parts repo_rel content (a ∷ b ∷ c ∷ d ∷ id ∷ name ∷ []) =
      if d == codes "conflicts"
      then check_bundle repo_rel content id name
      else err (codes "invalid internal portable path")
  check_parts repo_rel content _ = err (codes "invalid internal portable path")

  abbrev reject_link : Option Bool → Text → Result Text (Unit {0})
  reject_link none problem = err (codes "read")
  reject_link (some true) problem = err problem
  reject_link (some false) problem = ok tt

  -- `validateInternalRemote`
  unfoldable pub validate_internal : Text → Result Text (Unit {0})
  unfolding check_parts split
  validate_internal repo_rel = do
    reject_link (r.is_link repo_rel) (codes "symbolic link")
    content ← r.read repo_rel
    check_parts repo_rel content (split slash repo_rel)

  -- A result whose error is an issue of a code
  abbrev pub as_issue : {A : Type 0} → Text → Text → Text → Result Text A → Result Issue A
  as_issue key repo_rel code (ok a) = ok a
  as_issue key repo_rel code (err message) = err (remote_issue key repo_rel code message)

  abbrev pub blocked_link : Spec → Text → Option Bool → Result Issue (Unit {0})
  blocked_link spec repo_rel none =
      err (remote_issue spec.key repo_rel (codes "remote-read-failed") (codes "lstat"))
  blocked_link spec repo_rel (some true) = err (
      remote_issue spec.key repo_rel (codes "remote-link-blocked")
        (codes "repository symbolic links are not portable resources"))
  blocked_link spec repo_rel (some false) = ok tt

  abbrev pub secret_issue : Text → Text → Text → Issue
  secret_issue key repo_rel content = record {
    resource_key = key;
    path = repo_rel;
    code = codes "remote-secret-detected";
    message = codes "remote portable artifact contains secret-looking data";
    bytes = pos (length content);
  }

  abbrev pub blocked_secret : Spec → Text → Text → Result Text Bool → Result Issue (Unit {0})
  blocked_secret spec repo_rel content (err e) =
      err (remote_issue spec.key repo_rel (codes "remote-scan-failed") e)
  blocked_secret spec repo_rel content (ok true) = err (secret_issue spec.key repo_rel content)
  blocked_secret spec repo_rel content (ok false) = ok tt

  -- A manifest of installs
  unfoldable pub check_manifest : Spec → Text → Text → Text → Result Issue (Unit {0})
  unfolding validate_declarations
  check_manifest spec repo_rel relative content =
      if spec.strategy == strategy_install_manifest
      then (do
        reject (not (relative == codes "manifest.json")) (
            remote_issue spec.key repo_rel (codes "remote-install-manifest-invalid")
              (codes "install resources may contain only manifest.json"))
        as_issue spec.key repo_rel (codes "remote-install-manifest-invalid") (
              or_fail (codes "declarations")
                (validate_declarations r.decode_declarations spec.installer content))
            >>= (λ _. ok tt))
      else ok tt

  unfoldable pub project_with :
      Option (Text → Text → Text → Result Text Text)
      → Spec
      → Text
      → Text
      → Text
      → Result Issue (Unit {0})
  project_with none spec repo_rel relative content = err (
      remote_issue spec.key repo_rel (codes "remote-projector-unavailable")
        (codes "remote resource requires a configuration projector"))
  project_with (some project) spec repo_rel relative content = do
    projected ←
        as_issue spec.key repo_rel (codes "remote-projection-invalid")
          (project spec.transformer relative content)
    reject (not (r.documents_equal relative content projected)) (
        remote_issue spec.key repo_rel (codes "remote-nonportable-fields")
          (codes "remote structured artifact contains fields excluded by its portable policy"))

  -- A configuration must be what its projection leaves.
  unfoldable pub check_projection : Spec → Text → Text → Text → Result Issue (Unit {0})
  unfolding project_with
  check_projection spec repo_rel relative content =
      if spec.transformer == []
      then ok tt
      else project_with r.project spec repo_rel relative content

  unfoldable pub check_content : Spec → Text → Text → Text → Result Issue (Unit {0})
  unfolding scan new_scanner check_manifest check_projection
  check_content spec repo_rel relative content = do
    as_issue spec.key repo_rel (codes "remote-content-policy")
        (content_policy (validate_with spec.validate_content relative content))
    blocked_secret spec repo_rel content
        (scan p (new_scanner p spec.exclude spec.key_patterns) relative content)
    check_manifest spec repo_rel relative content
    check_projection spec repo_rel relative content

  unfoldable pub check_owned : Option Spec → RepoRef → Text → Result Issue (Unit {0})
  unfolding check_content
  check_owned none ref repo_rel = err (
      remote_issue [] repo_rel (codes "remote-resource-unknown")
        (codes "remote file does not belong to an enabled resource"))
  check_owned (some spec) ref repo_rel = do
    blocked_link spec repo_rel (r.is_link repo_rel)
    content ← as_issue spec.key repo_rel (codes "remote-read-failed") (r.read repo_rel)
    check_content spec repo_rel ref.relative content

  -- The body of the loop of `ValidateRemoteResources`
  unfoldable pub check_remote : Text → Result Issue (Unit {0})
  unfolding is_internal_portable_path validate_internal check_owned owner
  check_remote repo_rel =
      if is_internal_portable_path repo_rel
      then as_issue [] repo_rel (codes "remote-internal-invalid") (validate_internal repo_rel)
      else elim (parse_repo_path repo_rel) [
        | err e ↦ err (remote_issue [] repo_rel (codes "remote-path-invalid") (path_message e))
        | ok ref ↦ check_owned (owner ref) ref repo_rel
      ]

  abbrev pub add_checked :
      Text × FileMeta → Result Issue (Unit {0}) → Snapshot × List Issue → Snapshot × List Issue
  add_checked entry (ok _) (valid, blocked) = (entry ∷ valid, blocked)
  add_checked entry (err i) (valid, blocked) = (valid, i ∷ blocked)

  -- `ValidateRemoteResources`
  unfoldable pub validate_remote_resources : Snapshot → Snapshot × List Issue
  unfolding check_remote
  validate_remote_resources [] = ([], [])
  validate_remote_resources ((q, m) ∷ owned) =
      add_checked (q, m) (check_remote q) (validate_remote_resources owned)
