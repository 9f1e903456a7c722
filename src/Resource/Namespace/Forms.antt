-- ===== src/Resource/Namespace/Forms.antt =====
-- The forms of a path that `RepoPath` gives, and how `ParseRepoPath` reads each of them.
use sync_hub_for_agents.Base.{
  ◌≡◌, ◌≢◌, refl, sym, ap, ◌∙◌, true, false, inl, inr, List, [], ◌∷◌, ◌++◌, arith, All,
}
use mathlib.Core.Path.{subst}
use sync_hub_for_agents.Base.{
  ◌==◌, contains, nat_eq, ℕ_discrete, if◌then◌else◌, eq_of_true, Bool-cases,
}
use sync_hub_for_agents.Base.Text.{Text, text_eq, codes}
use sync_hub_for_agents.Base.Result.{Result, ok, err, ◌>>=◌, ◌>>◌, >>=_succeeds, ok-injective}
use sync_hub_for_agents.Base.Strings.{slash, split, join, path_join}
use sync_hub_for_agents.Base.Strings.Laws.{split-join, join-split, split-ne-nil, path_join_names}
use sync_hub_for_agents.Resource.Identifier.{validate_identifier, IdentifierError}
use sync_hub_for_agents.Resource.Model.{
  categories, layout_legacy, legacy_resource_id, portable_provider_name,
}
use sync_hub_for_agents.Resource.Spec.{Spec}
use sync_hub_for_agents.Resource.Namespace.{
  RepoRef, agents, config, sessions, common_name, providers, is_common, shared_id, on_name,
  validate_repo_relative, legacy_section, repo_names, repo_path, any_bad_segment, parse_parts,
  parse_repo_path,
}
use sync_hub_for_agents.Resource.Namespace.Names.{
  IsSafe, All-IsPlain, segments-IsSafe, validate_identifier-IsSafe, validate_repo_relative-IsSafe,
  validate_repo_relative-join, agents-IsSafe,
}

-- What the path of a file says of it.
abbrev pub ref_of : Spec → Text → RepoRef
ref_of s relative =
    if s.layout == layout_legacy
    then record {
      provider = s.provider;
      category = s.category;
      resource_id = legacy_resource_id s.category;
      relative = relative;
      portable = false;
      common = false;
    }
    else if is_common s
    then record {
      provider = common_name;
      category = s.category;
      resource_id = shared_id s;
      relative = relative;
      portable = true;
      common = true;
    }
    else record {
      provider = s.provider;
      category = s.category;
      resource_id = s.id;
      relative = relative;
      portable = true;
      common = false;
    }

pub parse_parts_legacy :
    (s : Spec) (section x : Text) (xs : List Text)
    → s.layout ≡ layout_legacy
    → s.provider ≢ portable_provider_name
    → legacy_section s.category ≡ ok section
    → parse_parts (agents ∷ s.provider ∷ section ∷ x ∷ xs) ≡ ok (ref_of s (join (x ∷ xs)))
unfolding parse_parts legacy_section
parse_parts_legacy s section x xs l p h = ground arith

pub parse_parts_common :
    (s : Spec) (x : Text) (xs : List Text)
    → (s.layout == layout_legacy) ≡ false
    → is_common s ≡ true
    → contains categories s.category ≡ true
    → parse_parts
        (agents ∷ portable_provider_name ∷ config ∷ common_name ∷ s.category ∷ shared_id s ∷ x ∷ xs)
      ≡ ok (ref_of s (join (x ∷ xs)))
unfolding parse_parts
parse_parts_common s x xs l p h = ground arith

pub parse_parts-providers :
    (s : Spec) (x : Text) (xs : List Text)
    → (s.layout == layout_legacy) ≡ false
    → is_common s ≡ false
    → contains categories s.category ≡ true
    → parse_parts (
        agents ∷ portable_provider_name ∷ config ∷ providers ∷ s.provider ∷ s.category ∷ s.id ∷ x
        ∷ xs)
      ≡ ok (ref_of s (join (x ∷ xs)))
unfolding parse_parts
parse_parts-providers s x xs l p h = ground arith

All-append : (ps qs : List Text) → All IsSafe ps → All IsSafe qs → All IsSafe (ps ++ qs)
All-append [] qs h k = k
All-append (p ∷ ps) qs h k = (h.0, All-append ps qs h.1 k)

parse_repo_path_by_parts :
    (path : Text)
    → parse_repo_path path ≡ (validate_repo_relative path >> parse_parts (split slash path))
unfolding parse_repo_path
parse_repo_path_by_parts path = refl

parse_valid :
    (path : Text) (parts : List Text)
    → validate_repo_relative path ≡ ok tt
    → split slash path ≡ parts
    → parse_repo_path path ≡ parse_parts parts
parse_valid path parts v e = parse_repo_path_by_parts path ∙ rw (v, e)

parse_repo_path-join :
    (p : Text) (ps : List Text)
    → All IsSafe (p ∷ ps)
    → parse_repo_path (join (agents ∷ p ∷ ps)) ≡ parse_parts (agents ∷ p ∷ ps)
parse_repo_path-join p ps h =
    parse_valid (join (agents ∷ p ∷ ps)) (agents ∷ p ∷ ps) (validate_repo_relative-join p ps h)
      (split-join (agents ∷ p ∷ ps) (λ e. cc) (All-IsPlain (agents ∷ p ∷ ps) (agents-IsSafe, h)))

-- The path of a file under safe names is parsed as these names and those of the file.
pub parse_file :
    (p : Text) (ps : List Text) (r : Text)
    → All IsSafe (p ∷ ps)
    → validate_repo_relative r ≡ ok tt
    → parse_repo_path (path_join ((agents ∷ p ∷ ps) ++ (r ∷ [])))
      ≡ parse_parts ((agents ∷ p ∷ ps) ++ split slash r)
parse_file p ps r h v =
    let inside : All IsSafe (split slash r) = validate_repo_relative-IsSafe r v in
    let safe : All IsSafe ((p ∷ ps) ++ split slash r) =
      All-append (p ∷ ps) (split slash r) h inside in
    ap (λ t. parse_repo_path (path_join ((agents ∷ p ∷ ps) ++ (t ∷ [])))) (sym (join-split r))
    ∙ ap parse_repo_path (
        path_join_names agents (p ∷ ps) (split slash r) (split-ne-nil slash r)
          (All-IsPlain ((agents ∷ p ∷ ps) ++ split slash r) (agents-IsSafe, safe)))
    ∙ parse_repo_path-join p (ps ++ split slash r) safe

abbrev pub fixed_names : List Text
fixed_names = portable_provider_name ∷ config ∷ sessions ∷ common_name ∷ providers ∷ categories

pub fixed_names-IsSafe : All IsSafe fixed_names
unfolding any_bad_segment nat_eq text_eq ℕ_discrete
fixed_names-IsSafe =
    segments-IsSafe fixed_names
      (refl, (refl, (refl, (refl, (refl, (refl, (refl, (refl, (refl, (refl, tt)))))))))) refl

pub contains-IsSafe : (ps : List Text) (p : Text) → All IsSafe ps → contains ps p ≡ true → IsSafe p
contains-IsSafe [] p a h = cc
contains-IsSafe (q ∷ ps) p a h = elim (Bool-cases (p == q)) [
  | inl e ↦ subst IsSafe (sym (eq_of_true p q e)) a.0
  | inr e ↦ contains-IsSafe ps p a.1 (rw e at h)
]

pub on_name-ok :
    (m : Result IdentifierError (Unit {0})) {u : Unit {0}} → on_name m ≡ ok u → m ≡ ok tt
on_name-ok (ok tt) h = refl
on_name-ok (err e) h = cc

repo_path_by_steps :
    (s : Spec) (r : Text)
    → repo_path s r ≡ (
        validate_repo_relative r
        >> (on_name (validate_identifier (codes "provider name") s.provider)
            >> (repo_names s >>= λ names. ok (path_join (names ++ (r ∷ []))))))
unfolding repo_path
repo_path_by_steps s r = refl

-- What holds of a resource and a file that have a path in the repository.
pub record HasPath (s : Spec) (r p : Text) : Type 0 where
  pub valid : validate_repo_relative r ≡ ok tt
  pub provider_safe : IsSafe s.provider
  pub names : List Text
  pub names_ok : repo_names s ≡ ok names
  pub path_joined : path_join (names ++ (r ∷ [])) ≡ p

pub repo_path-HasPath : (s : Spec) (r p : Text) → repo_path s r ≡ ok p → HasPath s r p
repo_path-HasPath s r p h =
    let (u, h1, v) = >>=_succeeds (validate_repo_relative r) _ (sym (repo_path_by_steps s r) ∙ h) in
    let (u', h2, v') =
      >>=_succeeds (on_name (validate_identifier (codes "provider name") s.provider)) _ h1 in
    let (names, h3, v2) = >>=_succeeds (repo_names s) _ h2 in
    record {
      valid = v;
      provider_safe =
          validate_identifier-IsSafe (codes "provider name") s.provider (on_name-ok _ v');
      names = names;
      names_ok = v2;
      path_joined = ok-injective h3;
    }
