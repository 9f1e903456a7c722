-- ===== src/Install/Manager/Accepted.antt =====
-- `NewPlan` accepts whatever `Reconcile` gathers from the adapters of the program.
use mathlib.Core.Path.{subst}
use sync_hub_for_agents.Base.{
  ◌≡◌, refl, ◌∙◌, ap, Bool, true, false, Option, none, some, List, [], ◌∷◌, ◌++◌, All,
}
use sync_hub_for_agents.Base.{◌==◌, nat_eq, if◌then◌else◌}
use sync_hub_for_agents.Base.Text.{Text, text_eq, codes}
use sync_hub_for_agents.Base.Dict.{Dict, lookup}
use sync_hub_for_agents.Base.SortBy.{sort_by, All-sort_by}
use sync_hub_for_agents.Base.Result.{Result, ok, err, >>=_succeeds, ok-injective, ◌>>◌}
use sync_hub_for_agents.Resource.Model.{strategy_install_manifest}
use sync_hub_for_agents.Resource.Spec.{Spec}
use sync_hub_for_agents.Resource.Namespace.{PathError, repo_path}
use sync_hub_for_agents.Install.{
  Declaration, Operation, Plan, InstallError, check_all, validate_declaration, validate_operation,
  new_plan, declaration_identity, operation_identity,
}
use sync_hub_for_agents.Install.Operations.Accepted.{Accepted}
use sync_hub_for_agents.Install.Manager.{
  Decoder, Reader, Adapter, Gathered, parse_declarations, read_declarations, parse_found, read_path,
  manifest_of, gather_key, validate_manifest_adapter, gather_spec, gather,
}

abbrev pub Valid : Declaration → Type 0
Valid d = validate_declaration d ≡ ok tt

All-check_all :
    {A : Type 0} (f : A → Result InstallError (Unit {0})) (xs : List A)
    → check_all f xs ≡ ok tt
    → All (λ x. f x ≡ ok tt) xs
unfolding check_all
All-check_all f [] h = tt
All-check_all f (x ∷ xs) h =
    let (u, rest, here) = >>=_succeeds (f x) (λ _. check_all f xs) h in
    (here, All-check_all f xs rest)

check_of_All :
    {A : Type 0} (f : A → Result InstallError (Unit {0})) (xs : List A)
    → All (λ x. f x ≡ ok tt) xs
    → check_all f xs ≡ ok tt
unfolding check_all
check_of_All f [] h = refl
check_of_All f (x ∷ xs) h = ap (λ r. r >> check_all f xs) h.0 ∙ check_of_All f xs h.1

pub All-append :
    {A : Type 0} (P : A → Type 0) (xs ys : List A) → All P xs → All P ys → All P (xs ++ ys)
All-append P [] ys a b = b
All-append P (x ∷ xs) ys a b = (a.0, All-append P xs ys a.1 b)

parse_declarations-Valid :
    (decode : Decoder) (text : Text) (ds : List Declaration)
    → parse_declarations decode text ≡ ok ds
    → All Valid ds
unfolding parse_declarations
parse_declarations-Valid decode [] ds h = subst (All Valid) (ok-injective h) tt
parse_declarations-Valid decode (c ∷ cs) ds h =
    let (es, h1, _) = >>=_succeeds (decode (c ∷ cs)) _ h in
    let (u, h2, valid) = >>=_succeeds (check_all validate_declaration es) _ h1 in
    subst (All Valid) (ok-injective h2) (All-check_all validate_declaration es valid)

read_declarations-Valid :
    (decode : Decoder) (read : Reader) (spec : Spec) (ds : List Declaration)
    → read_declarations decode read spec ≡ ok ds
    → All Valid ds
unfolding read_declarations parse_found read_path
read_declarations-Valid decode read spec ds = of_path (repo_path spec (codes "manifest.json"))
  where
    of_found : (found : Option Text) → parse_found decode found ≡ ok ds → All Valid ds
    of_found none h = subst (All Valid) (ok-injective h) tt
    of_found (some text) h = parse_declarations-Valid decode text ds h

    of_path : (path : Result PathError Text) → read_path decode read path ≡ ok ds → All Valid ds
    of_path (err _) h = cc
    of_path (ok path) h =
        let (found, parsed, _) = >>=_succeeds (read path) (parse_found decode) h in
        of_found found parsed

-- What the loop has gathered is accepted.
pub record IsAccepted (g : Gathered) : Type 0 where
  pub valid_declarations : All Valid g.declarations
  pub accepted_operations : All Accepted g.operations

-- An adapter only gives operations that are accepted.
abbrev pub IsTrustedAdapter : Adapter → Type 0
IsTrustedAdapter operations_of =
    (desired current : List Declaration) (os : List Operation)
    → operations_of desired current ≡ ok os
    → All Accepted os

module _ (decode : Decoder) (read : Reader) (registry : Dict Text Adapter)
    (current_manifests : Dict Text Text)
    (trusted : (name : Text) (a : Adapter)
      → lookup name registry ≡ some a
      → IsTrustedAdapter a) where
  gather_spec-IsAccepted :
      (spec : Spec) (g h : Gathered) (a : Option Adapter)
      → IsAccepted g
      → ((operations_of : Adapter) → a ≡ some operations_of → IsTrustedAdapter operations_of)
      → gather_spec decode read registry current_manifests spec g a ≡ ok h
      → IsAccepted h
  unfolding gather_spec
  gather_spec-IsAccepted spec g h none i t e = cc
  gather_spec-IsAccepted spec g h (some operations_of) i t e =
      let (desired, h1, from_repository) = >>=_succeeds (read_declarations decode read spec) _ e in
      let (current, h2, _) =
        >>=_succeeds (parse_declarations decode (manifest_of current_manifests spec.key)) _ h1 in
      let (_, h3, _) = >>=_succeeds (validate_manifest_adapter spec.installer desired) _ h2 in
      let (_, h4, _) = >>=_succeeds (validate_manifest_adapter spec.installer current) _ h3 in
      let (planned, h5, made) = >>=_succeeds (operations_of desired current) _ h4 in
      subst IsAccepted (ok-injective h5) (record {
        valid_declarations =
            All-append Valid g.declarations desired i.valid_declarations
              (read_declarations-Valid decode read spec desired from_repository);
        accepted_operations =
            All-append Accepted g.operations planned i.accepted_operations
              (t operations_of refl desired current planned made);
      })

  gather_key-IsAccepted :
      (g h : Gathered) (spec : Option Spec)
      → IsAccepted g
      → gather_key decode read registry current_manifests g spec ≡ ok h
      → IsAccepted h
  unfolding gather_key
  gather_key-IsAccepted g h none i = λ e. subst IsAccepted (ok-injective e) i
  gather_key-IsAccepted g h (some spec) i = by_strategy (spec.strategy == strategy_install_manifest)
    where
      by_strategy :
          (b : Bool)
          → (if b
              then gather_spec decode read registry current_manifests spec g
                  (lookup spec.installer registry)
              else ok g)
            ≡ ok h
          → IsAccepted h
      by_strategy true e =
          gather_spec-IsAccepted spec g h (lookup spec.installer registry) i
            (trusted spec.installer) e
      by_strategy false e = subst IsAccepted (ok-injective e) i

  pub gather-IsAccepted :
      (specs : Dict Text Spec) (keys : List Text) (g h : Gathered)
      → IsAccepted g
      → gather decode read registry current_manifests specs keys g ≡ ok h
      → IsAccepted h
  unfolding gather
  gather-IsAccepted specs [] g h i e = subst IsAccepted (ok-injective e) i
  gather-IsAccepted specs (key ∷ rest) g h i e =
      let (f, later, first) =
        >>=_succeeds (gather_key decode read registry current_manifests g (lookup key specs))
          (gather decode read registry current_manifests specs rest) e in
      gather-IsAccepted specs rest f h (gather_key-IsAccepted g f (lookup key specs) i first) later

pub new_plan_accepts :
    (digest : List Declaration → List Operation → Text) (ds : List Declaration)
    (os : List Operation)
    → All Valid ds
    → All Accepted os
    → (plan : Plan) × (new_plan digest ds os ≡ ok plan) × All Accepted plan.operations
unfolding new_plan
new_plan_accepts digest ds os v a =
    let sorted = sort_by declaration_identity ds in
    let planned = sort_by operation_identity os in
    let all_accepted = All-sort_by operation_identity Accepted os a in
    let plan : Plan = record {
      id = digest sorted planned;
      operations = planned;
      approved = false;
      errors = [];
    } in
    (
      plan,
      ap (λ r. r >> (check_all validate_operation planned >> ok plan))
            (check_of_All validate_declaration sorted (All-sort_by declaration_identity Valid ds v))
          ∙ ap (λ r. r >> ok plan) (check_of_All validate_operation planned all_accepted),
      all_accepted,
    )
