-- ===== src/Resource/Namespace/RoundTrip.antt =====
-- `ParseRepoPath` after `RepoPath`.
use sync_hub_for_agents.Base.{
  ◌≡◌, ◌≢◌, refl, sym, ap, ◌∙◌, true, false, inl, inr, List, [], ◌∷◌, ◌++◌, arith, All,
}
use sync_hub_for_agents.Base.{◌==◌, contains, nat_eq, eq_of_true, Bool-cases}
use sync_hub_for_agents.Base.Text.{Text, text_eq, codes}
use sync_hub_for_agents.Base.Result.{ok, >>=_succeeds, ok-injective}
use sync_hub_for_agents.Base.Strings.{slash, split, join, path_join}
use sync_hub_for_agents.Base.Strings.Laws.{join-split, split-ne-nil}
use sync_hub_for_agents.Resource.Identifier.{validate_identifier}
use sync_hub_for_agents.Resource.Model.{
  categories, layout_legacy, layout_portable, portable_provider_name,
}
use sync_hub_for_agents.Resource.Spec.{Spec}
use sync_hub_for_agents.Resource.Namespace.{
  agents, config, common_name, providers, is_common, shared_id, on_name, validate_repo_relative,
  legacy_section, repo_names, repo_path, parse_parts, parse_repo_path,
}
use sync_hub_for_agents.Resource.Namespace.Names.{IsSafe, validate_identifier-IsSafe}
use sync_hub_for_agents.Resource.Namespace.Forms.{
  ref_of, parse_parts_legacy, parse_parts_common, parse_parts-providers, parse_file, fixed_names,
  fixed_names-IsSafe, contains-IsSafe, on_name-ok, HasPath, repo_path-HasPath,
}

names_legacy :
    (s : Spec) (names : List Text)
    → (s.layout == layout_legacy) ≡ true
    → repo_names s ≡ ok names
    → (section : Text) × (legacy_section s.category ≡ ok section)
      × (agents ∷ s.provider ∷ section ∷ [] ≡ names)
unfolding repo_names
names_legacy s names l h =
    let (section, h', e) = >>=_succeeds (legacy_section s.category) _ (rw l at h) in
    (section, e, ok-injective h')

names_common :
    (s : Spec) (names : List Text)
    → (s.layout == layout_legacy) ≡ false
    → is_common s ≡ true
    → repo_names s ≡ ok names
    → IsSafe (shared_id s)
      × (agents ∷ portable_provider_name ∷ config ∷ common_name ∷ s.category ∷ shared_id s ∷ []
          ≡ names)
unfolding repo_names
names_common s names l c h = elim (Bool-cases (s.layout == layout_portable)) [
  | inl e ↦
      let (u, h', v) =
        >>=_succeeds (on_name (validate_identifier (codes "shared_as") (shared_id s))) _
          (rw (l, e, c) at h) in
      (
        validate_identifier-IsSafe (codes "shared_as") (shared_id s) (on_name-ok _ v),
        ok-injective h',
      )
  | inr e ↦ cc (rw (l, e) at h)
]

names_providers :
    (s : Spec) (names : List Text)
    → (s.layout == layout_legacy) ≡ false
    → is_common s ≡ false
    → repo_names s ≡ ok names
    → IsSafe s.id
      × (agents ∷ portable_provider_name ∷ config ∷ providers ∷ s.provider ∷ s.category ∷ s.id ∷ []
          ≡ names)
unfolding repo_names
names_providers s names l c h = elim (Bool-cases (s.layout == layout_portable)) [
  | inl e ↦
      let (u, h', v) =
        >>=_succeeds (on_name (validate_identifier (codes "resource id") s.id)) _
          (rw (l, e, c) at h) in
      (validate_identifier-IsSafe (codes "resource id") s.id (on_name-ok _ v), ok-injective h')
  | inr e ↦ cc (rw (l, e) at h)
]

legacy_section-fixed :
    (category section : Text)
    → legacy_section category ≡ ok section
    → contains fixed_names section ≡ true
unfolding legacy_section
legacy_section-fixed category section h = ground arith

parse_file_under :
    (s : Spec) (p : Text) (ps names : List Text) (r path : Text)
    → All IsSafe (p ∷ ps)
    → agents ∷ p ∷ ps ≡ names
    → validate_repo_relative r ≡ ok tt
    → path_join (names ++ (r ∷ [])) ≡ path
    → ((x : Text) (xs : List Text)
        → parse_parts ((agents ∷ p ∷ ps) ++ (x ∷ xs)) ≡ ok (ref_of s (join (x ∷ xs))))
    → parse_repo_path path ≡ ok (ref_of s r)
parse_file_under s p ps names r path h e v j parse =
    ap parse_repo_path (sym j ∙ ap (λ ns. path_join (ns ++ (r ∷ []))) (sym e))
    ∙ parse_file p ps r h v
    ∙ parse_rest (split slash r) (split-ne-nil slash r)
    ∙ ap (λ t. ok (ref_of s t)) (join-split r)
  where
    parse_rest :
        (qs : List Text) → qs ≢ [] → parse_parts ((agents ∷ p ∷ ps) ++ qs) ≡ ok (ref_of s (join qs))
    parse_rest [] n = absurd (n refl)
    parse_rest (x ∷ xs) n = parse x xs

fixed_category : (c : Text) → contains categories c ≡ true → contains fixed_names c ≡ true
fixed_category c h = ground arith

parse_legacy_file :
    (s : Spec) (relative path : Text)
    → (s.layout == layout_legacy) ≡ true
    → s.provider ≢ portable_provider_name
    → HasPath s relative path
    → parse_repo_path path ≡ ok (ref_of s relative)
parse_legacy_file s relative path l p has =
    let (section, e, j) = names_legacy s has.names l has.names_ok in
    let section_safe =
      contains-IsSafe fixed_names section fixed_names-IsSafe
        (legacy_section-fixed s.category section e) in
    parse_file_under s s.provider (section ∷ []) has.names relative path
      (has.provider_safe, (section_safe, tt)) j has.valid has.path_joined
      (λ x xs. parse_parts_legacy s section x xs (eq_of_true _ _ l) p e)

portable_names-IsSafe :
    (category : Text)
    → contains categories category ≡ true
    → IsSafe portable_provider_name
      × IsSafe config
      × IsSafe common_name
      × IsSafe providers
      × IsSafe category
portable_names-IsSafe category c =
    let fixed : All IsSafe fixed_names = fixed_names-IsSafe in
    (
      fixed.0,
      fixed.1.0,
      fixed.1.1.1.0,
      fixed.1.1.1.1.0,
      contains-IsSafe fixed_names category fixed (fixed_category category c),
    )

parse_common_file :
    (s : Spec) (relative path : Text)
    → (s.layout == layout_legacy) ≡ false
    → is_common s ≡ true
    → contains categories s.category ≡ true
    → HasPath s relative path
    → parse_repo_path path ≡ ok (ref_of s relative)
parse_common_file s relative path l m c has =
    let (id_safe, j) = names_common s has.names l m has.names_ok in
    let (p1, p2, p3, p4, p5) = portable_names-IsSafe s.category c in
    parse_file_under s portable_provider_name (config ∷ common_name ∷ s.category ∷ shared_id s ∷ [])
      has.names relative path (p1, (p2, (p3, (p5, (id_safe, tt))))) j has.valid has.path_joined
      (λ x xs. parse_parts_common s x xs l m c)

parse_providers_file :
    (s : Spec) (relative path : Text)
    → (s.layout == layout_legacy) ≡ false
    → is_common s ≡ false
    → contains categories s.category ≡ true
    → HasPath s relative path
    → parse_repo_path path ≡ ok (ref_of s relative)
parse_providers_file s relative path l m c has =
    let (id_safe, j) = names_providers s has.names l m has.names_ok in
    let (p1, p2, p3, p4, p5) = portable_names-IsSafe s.category c in
    parse_file_under s portable_provider_name
      (config ∷ providers ∷ s.provider ∷ s.category ∷ s.id ∷ []) has.names relative path
      (p1, (p2, (p4, (has.provider_safe, (p5, (id_safe, tt)))))) j has.valid has.path_joined
      (λ x xs. parse_parts-providers s x xs l m c)

-- A path that `RepoPath` gives for a file of a resource is parsed by `ParseRepoPath` to the
-- resource's provider (or `common`), category and id and to the file's relative path, if the
-- provider is not called `_portable` and the category is one of the five.
pub parse_repo_path-repo_path :
    (s : Spec) (relative path : Text)
    → s.provider ≢ portable_provider_name
    → contains categories s.category ≡ true
    → repo_path s relative ≡ ok path
    → parse_repo_path path ≡ ok (ref_of s relative)
parse_repo_path-repo_path s relative path p c h = elim (Bool-cases (s.layout == layout_legacy)) [
  | inl l ↦ parse_legacy_file s relative path l p (repo_path-HasPath s relative path h)
  | inr l ↦ elim (Bool-cases (is_common s)) [
    | inl m ↦ parse_common_file s relative path l m c (repo_path-HasPath s relative path h)
    | inr m ↦ parse_providers_file s relative path l m c (repo_path-HasPath s relative path h)
  ]
]

-- Two files with the same path in the repository have the same relative path and belong to
-- resources of the same namespace, which is the same provider (or both common), category and id, if
-- neither provider is called `_portable` and both categories are among the five.
pub repo_path_injective :
    (s t : Spec) (r q path : Text)
    → (s.provider ≢ portable_provider_name) × (t.provider ≢ portable_provider_name)
    → (contains categories s.category ≡ true) × (contains categories t.category ≡ true)
    → repo_path s r ≡ ok path
    → repo_path t q ≡ ok path
    → ref_of s r ≡ ref_of t q
repo_path_injective s t r q path p c h k = ok-injective (
    sym (parse_repo_path-repo_path s r path p.0 c.0 h)
    ∙ parse_repo_path-repo_path t q path p.1 c.1 k)
