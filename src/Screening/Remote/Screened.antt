-- ===== src/Screening/Remote/Screened.antt =====
-- What is known of a file that a pass may use.
use sync_hub_for_agents.Base.{
  ◌≡◌, refl, sym, ◌∙◌, ap, Bool, true, false, not, Option, none, some, List, [], ◌∷◌, Bool-cases,
  inl, inr,
}
use sync_hub_for_agents.Base.{◌==◌, eq_of_true}
use sync_hub_for_agents.Base.Text.{Text, text_eq, codes}
use sync_hub_for_agents.Base.Dict.{Dict, lookup}
use sync_hub_for_agents.Base.Result.{
  Result, ok, err, ◌>>=◌, ◌>>◌, reject, >>=_succeeds, ok-injective,
}
use sync_hub_for_agents.State.{FileMeta, Snapshot}
use sync_hub_for_agents.Resource.Model.{Issue, strategy_install_manifest}
use sync_hub_for_agents.Resource.Spec.{Spec}
use sync_hub_for_agents.Resource.Namespace.{PathError, RepoRef, parse_repo_path}
use sync_hub_for_agents.Sync.Planning.{is_internal_portable_path}
use sync_hub_for_agents.Screening.{Platform}
use sync_hub_for_agents.Screening.Secret.{new_scanner, scan, should_block, fails_closed}
use sync_hub_for_agents.Screening.Remote.{
  Repository, owner, blocked_link, blocked_secret, as_issue, content_policy, validate_with,
  check_manifest, check_projection, check_content, check_owned, check_remote, add_checked,
  validate_remote_resources, remote_issue,
}

reject_succeeds : {E : Type 0} (b : Bool) (e : E) → reject b e ≡ ok tt → b ≡ false
reject_succeeds true e h = cc
reject_succeeds false e h = refl

when_negated : (b : Bool) → not b ≡ false → b ≡ true
when_negated true h = refl
when_negated false h = sym h

-- What the parts of a chain of checks did, if the chain succeeds
four_succeed :
    (a b c d : Result Issue (Unit {0})) → (a >> (b >> (c >> d))) ≡ ok tt → (b ≡ ok tt) × (c ≡ ok tt)
four_succeed (err e) b c d h = cc
four_succeed (ok _) (err e) c d h = cc
four_succeed (ok _) (ok _) (err e) d h = cc
four_succeed (ok _) (ok _) (ok _) d h = (refl, refl)

three_succeed :
    {A : Type 0} (a : Result Issue (Unit {0})) (b : Result Issue A)
    (k : A → Result Issue (Unit {0}))
    → (a >> (b >>= k)) ≡ ok tt
    → (a ≡ ok tt) × (x : A) × (b ≡ ok x) × (k x ≡ ok tt)
three_succeed (err e) b k h = cc
three_succeed (ok _) (err e) k h = cc
three_succeed (ok _) (ok x) k h = (refl, x, refl, h)

module _ (p : Platform) (r : Repository) (is_abs : Text → Bool) (file_to_slash : Text → Text)
    (path_message : PathError → Text) (specs : Dict Text Spec) where
  -- What is known of the contents of a file of a resource
  pub record Harmless (spec : Spec) (relative content : Text) : Type 0 where
    pub no_secret :
        should_block p (new_scanner p spec.exclude spec.key_patterns) relative content ≡ false
    pub is_manifest :
        (spec.strategy == strategy_install_manifest) ≡ true
        → (relative == codes "manifest.json") ≡ true

  -- A file that belongs to a resource of this machine, is no link, and is harmless
  pub record Screened (q : Text) : Type 0 where
    pub ref : RepoRef
    pub spec : Spec
    pub content : Text
    pub is_parsed : parse_repo_path q ≡ ok ref
    pub is_owned : owner p r is_abs file_to_slash path_message specs ref ≡ some spec
    pub is_no_link : r.is_link q ≡ some false
    pub is_content : r.read q ≡ ok content
    pub is_harmless : Harmless spec ref.relative content

  passes_scan :
      (spec : Spec) (q content : Text) (s : Result Text Bool)
      → blocked_secret p r is_abs file_to_slash path_message specs spec q content s ≡ ok tt
      → fails_closed s ≡ false
  passes_scan spec q content (err e) h = cc
  passes_scan spec q content (ok true) h = cc
  passes_scan spec q content (ok false) h = refl

  passes_manifest :
      (spec : Spec) (q relative content : Text)
      → check_manifest p r is_abs file_to_slash path_message specs spec q relative content ≡ ok tt
      → (spec.strategy == strategy_install_manifest) ≡ true
      → (relative == codes "manifest.json") ≡ true
  unfolding check_manifest
  passes_manifest spec q relative content h e =
      let (_, _, named) = >>=_succeeds _ _ (rw (check_manifest, e) at h) in
      when_negated (relative == codes "manifest.json") (reject_succeeds _ _ named)

  content-Harmless :
      (spec : Spec) (q relative content : Text)
      → check_content p r is_abs file_to_slash path_message specs spec q relative content ≡ ok tt
      → Harmless spec relative content
  unfolding check_content should_block
  content-Harmless spec q relative content h =
      let (clean, manifest) =
        four_succeed
          (as_issue p r is_abs file_to_slash path_message specs spec.key q
            (codes "remote-content-policy")
            (content_policy p r is_abs file_to_slash path_message specs
              (validate_with spec.validate_content relative content)))
          (blocked_secret p r is_abs file_to_slash path_message specs spec q content
            (scan p (new_scanner p spec.exclude spec.key_patterns) relative content))
          (check_manifest p r is_abs file_to_slash path_message specs spec q relative content)
          (check_projection p r is_abs file_to_slash path_message specs spec q relative content)
          h in
      record {
        no_secret =
            passes_scan spec q content
              (scan p (new_scanner p spec.exclude spec.key_patterns) relative content) clean;
        is_manifest = passes_manifest spec q relative content manifest;
      }

  passes_link :
      (spec : Spec) (q : Text) (l : Option Bool)
      → blocked_link p r is_abs file_to_slash path_message specs spec q l ≡ ok tt
      → l ≡ some false
  passes_link spec q none h = cc
  passes_link spec q (some true) h = cc
  passes_link spec q (some false) h = refl

  reads :
      {A : Type 0} (key q code : Text) (x : Result Text A) (a : A)
      → as_issue p r is_abs file_to_slash path_message specs key q code x ≡ ok a
      → x ≡ ok a
  reads key q code (ok b) a h = ap ok (ok-injective h)
  reads key q code (err e) a h = cc

  check_owned-Screened :
      (q : Text) (ref : RepoRef) (spec : Option Spec)
      → parse_repo_path q ≡ ok ref
      → owner p r is_abs file_to_slash path_message specs ref ≡ spec
      → check_owned p r is_abs file_to_slash path_message specs spec ref q ≡ ok tt
      → Screened q
  unfolding check_owned
  check_owned-Screened q ref none parsed owned h = cc
  check_owned-Screened q ref (some spec) parsed owned h =
      let (linked, content, found, checked) =
        three_succeed
          (blocked_link p r is_abs file_to_slash path_message specs spec q (r.is_link q))
          (as_issue p r is_abs file_to_slash path_message specs spec.key q
            (codes "remote-read-failed") (r.read q))
          (check_content p r is_abs file_to_slash path_message specs spec q ref.relative) h in
      record {
        ref = ref;
        spec = spec;
        content = content;
        is_parsed = parsed;
        is_owned = owned;
        is_no_link = passes_link spec q (r.is_link q) linked;
        is_content = reads spec.key q (codes "remote-read-failed") (r.read q) content found;
        is_harmless = content-Harmless spec q ref.relative content checked;
      }

  check_remote-Screened :
      (q : Text)
      → is_internal_portable_path q ≡ false
      → check_remote p r is_abs file_to_slash path_message specs q ≡ ok tt
      → Screened q
  unfolding check_remote
  check_remote-Screened q i h = by_path (parse_repo_path q) refl (rw (check_remote, i) at h)
    where
      by_path :
          (x : Result PathError RepoRef)
          → parse_repo_path q ≡ x
          → (elim x as (λ _. Result Issue (Unit {0})) [
            | err e ↦ err (remote_issue [] q (codes "remote-path-invalid") (path_message e))
            | ok ref ↦
                check_owned p r is_abs file_to_slash path_message specs
                  (owner p r is_abs file_to_slash path_message specs ref)
                  ref
                  q
          ])
            ≡ ok tt
          → Screened q
      by_path (err e) parsed h = cc
      by_path (ok ref) parsed h = check_owned-Screened q ref _ parsed refl h

  -- What may be used passed its check.
  valid-passes :
      (owned : Snapshot) (q : Text) (m : FileMeta)
      → lookup q ((validate_remote_resources p r is_abs file_to_slash path_message specs owned).0)
        ≡ some m
      → check_remote p r is_abs file_to_slash path_message specs q ≡ ok tt
  unfolding validate_remote_resources lookup
  valid-passes [] q m h = cc
  valid-passes ((k, n) ∷ owned) q m h =
      by_check (check_remote p r is_abs file_to_slash path_message specs k) refl
        (validate_remote_resources p r is_abs file_to_slash path_message specs owned)
        (valid-passes owned q m) h
    where
      by_check :
          (x : Result Issue (Unit {0}))
          → check_remote p r is_abs file_to_slash path_message specs k ≡ x
          → (rest : Snapshot × List Issue)
          → (lookup q (rest.0) ≡ some m
              → check_remote p r is_abs file_to_slash path_message specs q ≡ ok tt)
          → lookup q ((add_checked p r is_abs file_to_slash path_message specs (k, n) x rest).0)
            ≡ some m
          → check_remote p r is_abs file_to_slash path_message specs q ≡ ok tt
      by_check (err i) c rest f h = f h
      by_check (ok _) c rest f h = elim (Bool-cases (q == k)) [
        | inl e ↦
            ap (λ t. check_remote p r is_abs file_to_slash path_message specs t) (eq_of_true q k e)
            ∙ c
        | inr e ↦ f (rw e at h)
      ]

  -- A file of the repository that ValidateRemoteResources lets a pass use, other than the program's own
  -- metadata, has a path of a resource of this machine, is no symbolic link, and has contents that
  -- can be read and that the resource's scanner does not block; if the resource is a list of
  -- installs, it is the manifest.
  pub validate_remote_resources-Screened :
      (owned : Snapshot) (q : Text) (m : FileMeta)
      → lookup q ((validate_remote_resources p r is_abs file_to_slash path_message specs owned).0)
        ≡ some m
      → is_internal_portable_path q ≡ false
      → Screened q
  validate_remote_resources-Screened owned q m h i =
      check_remote-Screened q i (valid-passes owned q m h)
