-- ===== src/Install/Manager/Planned.antt =====
-- The plan that `Reconcile` makes of the resources and the shared skills is never refused.
use mathlib.Core.Path.{subst}
use sync_hub_for_agents.Base.{
  ◌≡◌, refl, Bool, true, false, not, Option, none, some, List, [], ◌∷◌, ◌++◌, All,
}
use sync_hub_for_agents.Base.{◌==◌, true_of_eq, nat_eq, if◌then◌else◌}
use sync_hub_for_agents.Base.Text.{Text, text_eq}
use sync_hub_for_agents.Base.Dict.{Dict, lookup}
use sync_hub_for_agents.Base.SortBy.{All-sort_by}
use sync_hub_for_agents.Base.Result.{Result, ok, err, >>=_succeeds, ok-injective}
use sync_hub_for_agents.Base.Stateful.{
  ◌>>=◌, return, lift, After, After-bind, After-weaken, After-lift, After-any,
}
use sync_hub_for_agents.Base.Strings.{dot}
use sync_hub_for_agents.Resource.Spec.{Spec}
use sync_hub_for_agents.Install.{
  Declaration, Operation, Plan, InstallError, validate_declaration, new_plan, declaration_identity,
  DependencyCommand, dependency_commands, skill_dependencies, read_failed,
}
use sync_hub_for_agents.Install.Operations.{
  FilePaths, find_command, skill_operation, skill_operations, operations_for_skill_dependencies,
}
use sync_hub_for_agents.Install.Operations.Accepted.{
  Accepted, operations_for_skill_dependencies-Accepted,
}
use sync_hub_for_agents.Install.Store.{World, write_json}
use sync_hub_for_agents.Install.Manager.{
  Adapter, Gathered, gather, sorted_spec_keys, shared_skill_spec,
}
use sync_hub_for_agents.Install.Manager.Skills.{
  Entry, file, directory, unreadable_directory, Entries, no_more, entry, visit_file, child_path,
  visit, visit_all, discover_skill_dependencies, skill_declaration,
}
use sync_hub_for_agents.Install.Manager.Reconcile.{
  Environment, with_manifest, store_skill_manifest, update_skill_manifest, add_skill_operations,
  add_skills_of, add_skills,
}
use sync_hub_for_agents.Install.Manager.Accepted.{
  Valid, IsAccepted, IsTrustedAdapter, gather-IsAccepted, new_plan_accepts, All-append,
}

abbrev IsSkill : Declaration → Type 0
IsSkill d = d.adapter ≡ skill_dependencies

module _ (digest : Text → Text) (to_lower : Text → Text) where
  visit_file-IsSkill :
      (source name : Text) (contents : Option Text) (ds : List Declaration)
      → visit_file digest to_lower source name contents ≡ ok ds
      → All IsSkill ds
  unfolding visit_file
  visit_file-IsSkill source name contents ds =
      by_command (find_command (to_lower name) dependency_commands) contents
    where
      by_command :
          (c : Option DependencyCommand) (t : Option Text)
          → ◌≡◌ {A = Result InstallError (List Declaration)}
              (elim c [
                | none ↦ ok []
                | some c ↦ elim t [
                  | none ↦ err read_failed
                  | some text ↦ ok (skill_declaration digest to_lower source name c text ∷ [])
                ]
              ])
              (ok ds)
          → All IsSkill ds
      by_command none t h = subst (All IsSkill) (ok-injective h) tt
      by_command (some c) none h = cc
      by_command (some c) (some text) h = subst (All IsSkill) (ok-injective h) (refl, tt)

  unless_generated :
      (b : Bool) (r : Result InstallError (List Declaration)) (ds : List Declaration)
      → (if b then ok [] else r) ≡ ok ds
      → (r ≡ ok ds → All IsSkill ds)
      → All IsSkill ds
  unless_generated true r ds h k = subst (All IsSkill) (ok-injective h) tt
  unless_generated false r ds h k = k h

  mutual
    unfolding visit

    visit-IsSkill :
        (source : Text) (e : Entry) (ds : List Declaration)
        → visit digest to_lower source e ≡ ok ds
        → All IsSkill ds
    visit-IsSkill source (file name contents) ds h = visit_file-IsSkill source name contents ds h
    visit-IsSkill source (unreadable_directory name) ds h =
        unless_generated _ (err read_failed) ds h (λ e. cc)
    visit-IsSkill source (directory name entries) ds h =
        unless_generated _ (visit_all digest to_lower (child_path source name) entries) ds h
          (visit_all-IsSkill (child_path source name) entries ds)

    visit_all-IsSkill :
        (source : Text) (es : Entries) (ds : List Declaration)
        → visit_all digest to_lower source es ≡ ok ds
        → All IsSkill ds
    visit_all-IsSkill source no_more ds h = subst (All IsSkill) (ok-injective h) tt
    visit_all-IsSkill source (entry e es) ds h =
        let (here, h1, first) = >>=_succeeds (visit digest to_lower source e) _ h in
        let (later, h2, rest) = >>=_succeeds (visit_all digest to_lower source es) _ h1 in
        subst (All IsSkill) (ok-injective h2) (
          All-append IsSkill here later (visit-IsSkill source e here first)
            (visit_all-IsSkill source es later rest))

  discover_skill_dependencies-IsSkill :
      (root : Option Entries) (ds : List Declaration)
      → discover_skill_dependencies digest to_lower root ≡ ok ds
      → All IsSkill ds
  unfolding discover_skill_dependencies
  discover_skill_dependencies-IsSkill none ds h = subst (All IsSkill) (ok-injective h) tt
  discover_skill_dependencies-IsSkill (some entries) ds h =
      let (found, h1, walked) = >>=_succeeds (visit_all digest to_lower dot entries) _ h in
      subst (All IsSkill) (ok-injective h1) (
        All-sort_by declaration_identity IsSkill found (visit_all-IsSkill dot entries found walked))

-- The declarations of skills that have operations are valid.
skill_operations-Valid :
    (paths : FilePaths) (to_lower : Text → Text) (root : Text) (ds : List Declaration)
    (os : List Operation)
    → All IsSkill ds
    → skill_operations paths to_lower root ds ≡ ok os
    → All Valid ds
unfolding skill_operations skill_operation
skill_operations-Valid paths to_lower root [] os s h = tt
skill_operations-Valid paths to_lower root (d ∷ ds) os s h =
    let (o, h1, made) = >>=_succeeds (skill_operation paths to_lower root d) _ (
      otherwise (d.adapter == skill_dependencies) _ _ (true_of_eq d.adapter skill_dependencies s.0)
        h) in
    let (rest, h2, others) = >>=_succeeds (skill_operations paths to_lower root ds) _ h1 in
    let (u, h3, valid) = >>=_succeeds (validate_declaration d) _ made in
    (valid, skill_operations-Valid paths to_lower root ds rest s.1 others)
  where
    otherwise :
        (b : Bool) (x y : Result InstallError (List Operation))
        → b ≡ true
        → (if not b then x else y) ≡ ok os
        → y ≡ ok os
    otherwise true x y same h = h
    otherwise false x y same h = cc

operations_of_skills-Valid :
    (paths : FilePaths) (to_lower : Text → Text) (root : Text) (ds : List Declaration)
    (os : List Operation)
    → All IsSkill ds
    → operations_for_skill_dependencies paths to_lower root ds ≡ ok os
    → All Valid ds
unfolding operations_for_skill_dependencies
operations_of_skills-Valid paths to_lower root ds os s h =
    let (found, h1, made) =
      >>=_succeeds (skill_operations paths to_lower (paths.clean root) ds) _ h in
    skill_operations-Valid paths to_lower (paths.clean root) ds found s made

module _ (env : Environment) (registry : Dict Text Adapter)
    (trusted : (name : Text) (a : Adapter) → lookup name registry ≡ some a → IsTrustedAdapter a)
    (clean_nonempty : (s : Text) → (env.paths.clean s == []) ≡ false)
    (join_two_nonempty : (r s : Text)
      → (r == []) ≡ false
      → (env.paths.join_two r s == []) ≡ false) where
  store_skill_manifest-IsSkill :
      (ds : List Declaration) (w : World)
      → All IsSkill ds
      → After (λ es _. All IsSkill es) (λ _. Unit) (store_skill_manifest env ds w)
  unfolding store_skill_manifest
  store_skill_manifest-IsSkill ds w s =
      After-bind (λ _ _. Unit) (λ es _. All IsSkill es) (λ _. Unit) (write_json (with_manifest ds))
        (λ _. return ds) w (After-any (write_json (with_manifest ds) w)) (λ _ _ _. s)

  update_skill_manifest-IsSkill :
      (w : World) → After (λ ds _. All IsSkill ds) (λ _. Unit) (update_skill_manifest env w)
  unfolding update_skill_manifest
  update_skill_manifest-IsSkill w =
      let found = discover_skill_dependencies env.digest env.to_lower env.skills in
      After-bind (λ ds _. All IsSkill ds) (λ ds _. All IsSkill ds) (λ _. Unit) (lift found)
        (store_skill_manifest env) w
        (After-lift (λ ds _. All IsSkill ds) (λ _. Unit) found w tt
          (discover_skill_dependencies-IsSkill env.digest env.to_lower env.skills))
        (λ ds v s. store_skill_manifest-IsSkill ds v s)

  add_skill_operations-IsAccepted :
      (spec : Spec) (g : Gathered) (ds : List Declaration) (w : World)
      → IsAccepted g
      → All IsSkill ds
      → After (λ h _. IsAccepted h) (λ _. Unit) (add_skill_operations env spec g ds w)
  unfolding add_skill_operations
  add_skill_operations-IsAccepted spec g ds w a s =
      let planned = operations_for_skill_dependencies env.paths env.to_lower spec.root ds in
      After-bind (λ os _. planned ≡ ok os) (λ h _. IsAccepted h) (λ _. Unit) (lift planned)
        (λ os.
          return
            (record g { declarations = g.declarations ++ ds; operations = g.operations ++ os }))
        w (After-lift (λ os _. planned ≡ ok os) (λ _. Unit) planned w tt (λ os e. e))
        (λ os v e. record {
          valid_declarations =
              All-append Valid g.declarations ds a.valid_declarations
                (operations_of_skills-Valid env.paths env.to_lower spec.root ds os s e);
          accepted_operations = All-append Accepted g.operations os a.accepted_operations (
              operations_for_skill_dependencies-Accepted env.paths env.to_lower clean_nonempty
                join_two_nonempty spec.root ds os e);
        })

  add_skills_of-IsAccepted :
      (spec : Option Spec) (g : Gathered) (w : World)
      → IsAccepted g
      → After (λ h _. IsAccepted h) (λ _. Unit) (add_skills_of env spec g w)
  unfolding add_skills_of
  add_skills_of-IsAccepted none g w a = a
  add_skills_of-IsAccepted (some spec) g w a =
      After-bind (λ ds _. All IsSkill ds) (λ h _. IsAccepted h) (λ _. Unit)
        (update_skill_manifest env) (add_skill_operations env spec g) w
        (update_skill_manifest-IsSkill w)
        (λ ds v s. add_skill_operations-IsAccepted spec g ds v a s)

  pub gathered_plan-Accepted :
      (specs : Dict Text Spec) (manifests : Dict Text Text) (w : World)
      → After
          (λ h _.
            (plan : Plan) × (new_plan env.plan_digest h.declarations h.operations ≡ ok plan)
            × All Accepted plan.operations)
          (λ _. Unit)
          ((lift (
                gather env.decode env.read registry manifests specs
                  (sorted_spec_keys specs)
                  (record { declarations = []; operations = []; install_specs = [] }))
              >>= add_skills env specs)
            w)
  unfolding add_skills
  gathered_plan-Accepted specs manifests w =
      let nothing : Gathered = record { declarations = []; operations = []; install_specs = [] } in
      let gathered =
        gather env.decode env.read registry manifests specs (sorted_spec_keys specs) nothing in
      let Planned = λ (h : Gathered) (_ : World).
        (plan : Plan) × (new_plan env.plan_digest h.declarations h.operations ≡ ok plan)
        × All Accepted plan.operations in
      After-bind (λ g _. IsAccepted g) Planned (λ _. Unit) (lift gathered) (add_skills env specs) w
        (After-lift (λ g _. IsAccepted g) (λ _. Unit) gathered w tt
          (λ g e.
            gather-IsAccepted env.decode env.read registry manifests trusted specs
              (sorted_spec_keys specs) nothing g
              (record { valid_declarations = tt; accepted_operations = tt }) e))
        (λ g v a.
          After-weaken (λ h _. IsAccepted h) Planned (λ _. Unit) (λ _. Unit)
            (add_skills env specs g v)
            (λ h _ b.
              new_plan_accepts env.plan_digest h.declarations h.operations b.valid_declarations
                b.accepted_operations)
            (λ _ _. tt) (add_skills_of-IsAccepted (shared_skill_spec specs) g v a))
