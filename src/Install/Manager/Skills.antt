-- ===== src/Install/Manager/Skills.antt =====
-- internal/installplan/discovery.go: the dependencies that the files of skills declare. A directory
-- is walked in the order of its entries.
use sync_hub_for_agents.Base.{true, Option, none, some, List, [], ◌∷◌, ◌++◌}
use sync_hub_for_agents.Base.{◌==◌, nat_eq, contains, if◌then◌else◌}
use sync_hub_for_agents.Base.Text.{Text, text_eq, codes}
use sync_hub_for_agents.Base.Result.{Result, ok, err, ◌>>=◌}
use sync_hub_for_agents.Base.SortBy.{sort_by}
use sync_hub_for_agents.Base.Strings.{dot, slash}
use sync_hub_for_agents.Install.{
  Declaration, InstallError, read_failed, skill_dependencies, declaration_identity,
  DependencyCommand, dependency_commands,
}
use sync_hub_for_agents.Install.Operations.{find_command}

-- The entries of a directory. A file that cannot be read has no contents.
mutual
  pub data Entry : Type 0 where
    file : Text → Option Text → Entry
    directory : Text → Entries → Entry
    unreadable_directory : Text → Entry

  pub data Entries : Type 0 where
    no_more : Entries
    entry : Entry → Entries → Entries

-- `generatedDependencyDirectories`
abbrev generated_directories : List Text
generated_directories =
    codes "node_modules"
    ∷ codes ".vscode-test"
    ∷ codes ".venv"
    ∷ codes "venv"
    ∷ codes "__pycache__"
    ∷ codes ".pnpm-store"
    ∷ codes ".yarn"
    ∷ codes "vendor"
    ∷ []

-- The path of a directory in the one at `path`, from the root of the walk
abbrev pub child_path : Text → Text → Text
child_path path name = if path == dot then name else path ++ (slash ∷ name)

module _ (digest : Text → Text) (to_lower : Text → Text) where
  -- The declaration of a recognized file
  abbrev pub skill_declaration : Text → Text → DependencyCommand → Text → Declaration
  skill_declaration source name c contents = record {
    id = codes "skill:" ++ (source ++ (0x3a ∷ c.manager));
    adapter = skill_dependencies;
    source = source;
    version = digest contents;
    enabled = true;
    settings = (codes "manager", c.manager) ∷ (codes "manifest", name) ∷ [];
  }

  unfoldable pub visit_file : Text → Text → Option Text → Result InstallError (List Declaration)
  unfolding find_command
  visit_file source name contents = elim (find_command (to_lower name) dependency_commands) [
    | none ↦ ok []
    | some c ↦ elim contents [
      | none ↦ err read_failed
      | some text ↦ ok (skill_declaration source name c text ∷ [])
    ]
  ]

  -- The function that `filepath.WalkDir` calls, and its walk
  unfoldable mutual
    unfolding visit_file

    pub visit : Text → Entry → Result InstallError (List Declaration)
    visit source (file name contents) = visit_file source name contents
    visit source (unreadable_directory name) =
        if contains generated_directories (to_lower name) then ok [] else err read_failed
    visit source (directory name entries) =
        let below = visit_all (child_path source name) entries in
        if contains generated_directories (to_lower name) then ok [] else below

    pub visit_all : Text → Entries → Result InstallError (List Declaration)
    visit_all source no_more = ok []
    visit_all source (entry e es) = do
      here ← visit source e
      later ← visit_all source es
      ok (here ++ later)

  -- `DiscoverSkillDependencies`; a root that is not there has no dependencies.
  unfoldable pub discover_skill_dependencies :
      Option Entries → Result InstallError (List Declaration)
  unfolding visit_all declaration_identity
  discover_skill_dependencies none = ok []
  discover_skill_dependencies (some entries) = do
    found ← visit_all dot entries
    ok (sort_by declaration_identity found)
