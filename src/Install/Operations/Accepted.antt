-- ===== src/Install/Operations/Accepted.antt =====
-- The generated lists of operations are accepted, so that `NewPlan` does not refuse them.
use mathlib.Core.Path.{subst}
use sync_hub_for_agents.Base.{
  ◌≡◌, refl, sym, Bool, true, false, not, ◌||◌, Option, none, some, List, [], ◌∷◌, ◌++◌, All, arith,
  nat_eq, ℕ_discrete, Bool-cases, Option-cases, ◌⊎◌, inl, inr,
}
use sync_hub_for_agents.Base.{◌==◌, eq_of_true, if◌then◌else◌}
use sync_hub_for_agents.Base.Text.{Text, text_eq, has_prefix}
use sync_hub_for_agents.Base.Result.{Result, ok, >>=_succeeds, ok-injective}
use sync_hub_for_agents.Base.Dict.{Dict, lookup}
use sync_hub_for_agents.Base.SortBy.{All-sort_by}
use sync_hub_for_agents.Base.Strings.{is_blank, contains_any, contains_text}
use sync_hub_for_agents.Install.{
  Declaration, Operation, InstallError, update, uninstall, reject_shell_syntax, check_all,
  validate_declaration, validate_operation, equal_strings, validate_dependency_operation,
  skill_dependencies, operation_identity, DependencyCommand, dependency_commands,
  is_dependency_command,
}
use sync_hub_for_agents.Install.Operations.{
  plugin_operation, wanted, all_wanted, all_unwanted, change_kind, by_source, plugin_operations,
  FilePaths, find_command, safe_working_directory, recognized, dependency_operation,
  skill_operation, skill_operations, operations_for_skill_dependencies,
}
use sync_hub_for_agents.Install.Operations.Trusted.{
  CleanSource, IsPluginKind, by_source-CleanSource, validate_dependency,
  validate_declaration-CleanSource,
}

abbrev pub Accepted : Operation → Type 0
Accepted o = validate_operation o ≡ ok tt

All-append : (xs ys : List Operation) → All Accepted xs → All Accepted ys → All Accepted (xs ++ ys)
All-append [] ys a b = b
All-append (x ∷ xs) ys a b = (a.0, All-append xs ys a.1 b)

-- The operations of an adapter whose operations are accepted are accepted.
module _ (adapter : Text) (executable : Text)
    (accepted : (d : Declaration) (kind : Text)
      → CleanSource d.source
      → IsPluginKind kind
      → validate_operation (plugin_operation adapter executable d kind) ≡ ok tt) where
  change_kind-IsPluginKind :
      (d : Declaration) (o : Option Declaration)
      → (change_kind d o ≡ []) ⊎ IsPluginKind (change_kind d o)
  unfolding change_kind
  change_kind-IsPluginKind d none = inr (inl refl)
  change_kind-IsPluginKind d (some c) = by_test _
    where
      by_test :
          (b : Bool) → ((if b then update else []) ≡ []) ⊎ IsPluginKind (if b then update else [])
      by_test true = inr (inr (inl refl))
      by_test false = inl refl

  wanted-Accepted :
      (m : Dict Text Declaration) (d : Declaration)
      → CleanSource d.source
      → All Accepted (wanted adapter executable m d)
  unfolding wanted
  wanted-Accepted m d c =
      let kind = change_kind d (lookup d.source m) in
      by_test (not d.enabled || kind == []) (plugin_operation adapter executable d kind) (λ wanted.
        elim (change_kind-IsPluginKind d (lookup d.source m)) [
          | inl none_needed ↦ ground arith
          | inr plugin_kind ↦ accepted d kind c plugin_kind
        ])
    where
      by_test :
          (b : Bool) (o : Operation)
          → (b ≡ false → Accepted o)
          → All Accepted (if b then [] else o ∷ [])
      by_test true o h = tt
      by_test false o h = (h refl, tt)

  all_wanted-Accepted :
      (m : Dict Text Declaration) (ds : List Declaration)
      → All (λ d. CleanSource d.source) ds
      → All Accepted (all_wanted adapter executable m ds)
  unfolding all_wanted
  all_wanted-Accepted m [] c = tt
  all_wanted-Accepted m (d ∷ ds) c =
      All-append (wanted adapter executable m d) (all_wanted adapter executable m ds)
        (wanted-Accepted m d c.0) (all_wanted-Accepted m ds c.1)

  all_unwanted-Accepted :
      (m : Dict Text Declaration) (ds : List Declaration)
      → All (λ d. CleanSource d.source) ds
      → All Accepted (all_unwanted adapter executable m ds)
  unfolding all_unwanted
  all_unwanted-Accepted m [] c = tt
  all_unwanted-Accepted m (d ∷ ds) c =
      elim (lookup d.source m)
        as (λ r. All Accepted (elim r [
          | none ↦
              plugin_operation adapter executable d uninstall ∷ all_unwanted adapter executable m ds
          | some _ ↦ all_unwanted adapter executable m ds
        ])) [
          | none ↦ (accepted d uninstall c.0 (inr (inr refl)), all_unwanted-Accepted m ds c.1)
          | some _ ↦ all_unwanted-Accepted m ds c.1
        ]

  pub plugin_operations-Accepted :
      (desired current : List Declaration) (os : List Operation)
      → plugin_operations adapter executable desired current ≡ ok os
      → All Accepted os
  unfolding plugin_operations
  plugin_operations-Accepted desired current os h =
      let (m, rest, from_current) = >>=_succeeds (by_source current []) _ h in
      let (n, last, from_desired) = >>=_succeeds (by_source desired []) _ rest in
      subst (All Accepted) (ok-injective last) (
        All-sort_by operation_identity Accepted
          (all_wanted adapter executable m desired ++ all_unwanted adapter executable n current)
          (All-append (all_wanted adapter executable m desired)
            (all_unwanted adapter executable n current)
            (all_wanted-Accepted m desired (by_source-CleanSource desired [] n from_desired))
            (all_unwanted-Accepted n current (by_source-CleanSource current [] m from_current))))

-- What the commands of the table are.
record IsTrusted (c : DependencyCommand) : Type 0 where
  executable_clean : reject_shell_syntax c.executable ≡ ok tt
  args_clean : check_all reject_shell_syntax c.args ≡ ok tt
  in_table :
      (d : Declaration) (directory : Text)
      → is_dependency_command dependency_commands (dependency_operation d c directory) ≡ true

find_command-IsTrusted :
    (manifest : Text) (cs : List DependencyCommand) (c : DependencyCommand)
    → All IsTrusted cs
    → find_command manifest cs ≡ some c
    → IsTrusted c
unfolding find_command
find_command-IsTrusted manifest [] c t h = cc
find_command-IsTrusted manifest (x ∷ cs) c t h =
    ground (arith, find_command-IsTrusted manifest cs c)

dependency_commands-IsTrusted : All IsTrusted dependency_commands
unfolding reject_shell_syntax check_all contains_any contains_text text_eq nat_eq ℕ_discrete
    has_prefix is_dependency_command equal_strings
dependency_commands-IsTrusted = (
  record { executable_clean = refl; args_clean = refl; in_table = λ d w. refl },
  (
    record { executable_clean = refl; args_clean = refl; in_table = λ d w. refl },
    (
      record { executable_clean = refl; args_clean = refl; in_table = λ d w. refl },
      (
        record { executable_clean = refl; args_clean = refl; in_table = λ d w. refl },
        (
          record { executable_clean = refl; args_clean = refl; in_table = λ d w. refl },
          (record { executable_clean = refl; args_clean = refl; in_table = λ d w. refl }, tt),
        ),
      ),
    ),
  ),
)

module _ (paths : FilePaths) (to_lower : Text → Text)
    (clean_nonempty : (s : Text) → (paths.clean s == []) ≡ false)
    (join_two_nonempty : (r s : Text)
      → (r == []) ≡ false
      → (paths.join_two r s == []) ≡ false) where
  safe_working_directory_nonempty :
      (root source directory : Text)
      → (root == []) ≡ false
      → safe_working_directory paths root source ≡ ok directory
      → (directory == []) ≡ false
  unfolding safe_working_directory
  safe_working_directory_nonempty root source directory r h =
      ground (arith, join_two_nonempty root (paths.from_slash source) r)

  recognized-IsTrusted :
      (d : Declaration) (manifest : Text) (c : DependencyCommand)
      → recognized d (find_command manifest dependency_commands) ≡ ok c
      → IsTrusted c
  recognized-IsTrusted d manifest c h =
      elim (Option-cases (find_command manifest dependency_commands)) [
        | inl missing ↦ ground arith
        | inr (x, found) ↦ subst IsTrusted (ground arith) (
            find_command-IsTrusted manifest dependency_commands x dependency_commands-IsTrusted
              found)
      ]

  dependency_operation-Accepted :
      (d : Declaration) (c : DependencyCommand) (directory : Text)
      → CleanSource d.source
      → d.adapter ≡ skill_dependencies
      → IsTrusted c
      → (directory == []) ≡ false
      → Accepted (dependency_operation d c directory)
  unfolding validate_dependency_operation is_blank nat_eq ℕ_discrete text_eq
  dependency_operation-Accepted d c directory s e t n =
      validate_dependency (dependency_operation d c directory)
        (record {
          has_id = refl;
          has_adapter = subst (λ a. is_blank a ≡ false) (sym e) refl;
          clean_source = s;
          clean_executable = t.executable_clean;
          clean_args = t.args_clean;
        })
        e (ground (arith, t.in_table d directory))

  skill_operation-Accepted :
      (root : Text) (d : Declaration) (o : Operation)
      → (root == []) ≡ false
      → d.adapter ≡ skill_dependencies
      → skill_operation paths to_lower root d ≡ ok o
      → Accepted o
  unfolding skill_operation
  skill_operation-Accepted root d o r e h =
      let (u, h1, valid) = >>=_succeeds (validate_declaration d) _ h in
      let (c, h2, found) = >>=_succeeds (recognized d _) _ h1 in
      let (directory, h3, safe) = >>=_succeeds (safe_working_directory paths root d.source) _ h2 in
      subst Accepted (ok-injective h3) (
        dependency_operation-Accepted d c directory (validate_declaration-CleanSource d valid) e
          (recognized-IsTrusted d _ c found)
          (safe_working_directory_nonempty root d.source directory r safe))

  skill_operations-Accepted :
      (root : Text) (ds : List Declaration) (os : List Operation)
      → (root == []) ≡ false
      → skill_operations paths to_lower root ds ≡ ok os
      → All Accepted os
  unfolding skill_operations
  skill_operations-Accepted root [] os r h = subst (All Accepted) (ok-injective h) tt
  skill_operations-Accepted root (d ∷ ds) os r h =
      elim (Bool-cases (d.adapter == skill_dependencies)) [
        | inl same ↦
            let (o, h1, made) =
              >>=_succeeds (skill_operation paths to_lower root d) _ (do_of_test _ _ same h) in
            let (rest, h2, others) = >>=_succeeds (skill_operations paths to_lower root ds) _ h1 in
            subst (All Accepted) (ok-injective h2) (
              skill_operation-Accepted root d o r (eq_of_true d.adapter skill_dependencies same)
                  made,
              skill_operations-Accepted root ds rest r others,
            )
        | inr other ↦ skill_operations-Accepted root ds os r (ground arith)
      ]
    where
      do_of_test :
          {b : Bool} (x y : Result InstallError (List Operation)) {os : List Operation}
          → b ≡ true
          → (if not b then x else y) ≡ ok os
          → y ≡ ok os
      do_of_test x y same h = ground arith

  pub operations_for_skill_dependencies-Accepted :
      (root : Text) (ds : List Declaration) (os : List Operation)
      → operations_for_skill_dependencies paths to_lower root ds ≡ ok os
      → All Accepted os
  unfolding operations_for_skill_dependencies
  operations_for_skill_dependencies-Accepted root ds os h =
      let (found, h1, made) =
        >>=_succeeds (skill_operations paths to_lower (paths.clean root) ds) _ h in
      subst (All Accepted) (ok-injective h1) (
        All-sort_by operation_identity Accepted found
          (skill_operations-Accepted (paths.clean root) ds found (clean_nonempty root) made))
