-- ===== src/Install/Operations/Diff.antt =====
-- The operations on plugins are the difference of what is declared and what is installed.
use mathlib.Core.Path.{subst}
use mathlib.Core.List.{Memᴰ}
use mathlib.Core.List.Memᴰ.{append_left, append_right, append_cases}
use sync_hub_for_agents.Base.{
  ◌≡◌, sym, ap, ◌∙◌, ◌≢◌, true, Option, none, some, List, [], ◌∷◌, ◌++◌, ◌⊎◌, inl, inr,
}
use sync_hub_for_agents.Base.{◌==◌, if◌then◌else◌}
use sync_hub_for_agents.Base.Text.{Text, text_eq}
use sync_hub_for_agents.Base.Result.{ok, >>=_succeeds, ok-injective}
use sync_hub_for_agents.Base.Dict.{Dict, lookup, insert, lookup-insert}
use sync_hub_for_agents.Base.SortBy.{Memᴰ-sort_by}
use sync_hub_for_agents.Install.{
  Declaration, Operation, install, update, uninstall, validate_declaration, operation_identity,
}
use sync_hub_for_agents.Install.Operations.{
  plugin_operation, all_wanted, all_unwanted, by_source, plugin_operations,
}
use sync_hub_for_agents.Install.Operations.Wanted.{
  WantedOf, from_wanted, to_wanted, from_unwanted, to_unwanted,
}

-- The last declaration of a source.
abbrev pub last_of : Text → List Declaration → Option Declaration → Option Declaration
last_of source [] found = found
last_of source (d ∷ ds) found = last_of source ds (if source == d.source then some d else found)

by_source-last_of :
    (source : Text) (ds : List Declaration) (found m : Dict Text Declaration)
    → by_source ds found ≡ ok m
    → lookup source m ≡ last_of source ds (lookup source found)
unfolding by_source
by_source-last_of source [] found m h = ap (λ d. lookup source d) (sym (ok-injective h))
by_source-last_of source (d ∷ ds) found m h =
    let (u, rest, _) =
      >>=_succeeds (validate_declaration d) (λ _. by_source ds (insert d.source d found)) h in
    by_source-last_of source ds (insert d.source d found) m rest
    ∙ ap (last_of source ds) (lookup-insert source d.source d found)

-- Why there is an operation: a declaration that is enabled and not installed, one that is installed
-- with another version, and an installed one that is not declared.
pub data Needed (adapter executable : Text) (desired current : List Declaration) (o : Operation)
    : Type 0 where
  to_install :
      (d : Declaration)
      → Memᴰ d desired
      → d.enabled ≡ true
      → last_of d.source current none ≡ none
      → o ≡ plugin_operation adapter executable d install
      → Needed adapter executable desired current o
  to_update :
      (d installed : Declaration)
      → Memᴰ d desired
      → d.enabled ≡ true
      → last_of d.source current none ≡ some installed
      → d.version ≢ []
      → installed.version ≢ []
      → d.version ≢ installed.version
      → o ≡ plugin_operation adapter executable d update
      → Needed adapter executable desired current o
  to_uninstall :
      (d : Declaration)
      → Memᴰ d current
      → last_of d.source desired none ≡ none
      → o ≡ plugin_operation adapter executable d uninstall
      → Needed adapter executable desired current o

module _ (adapter : Text) (executable : Text) where
  reason_to_install :
      (desired current : List Declaration) (o : Operation) (d : Declaration)
      (l : Option Declaration)
      → last_of d.source current none ≡ l
      → Memᴰ d desired
      → WantedOf adapter executable d l o
      → Needed adapter executable desired current o
  unfolding WantedOf
  reason_to_install desired current o d none e i (on, made) = to_install d i on e made
  reason_to_install desired current o d (some c) e i (on, dv, cv, other, made) =
      to_update d c i on e dv cv other made

  -- What is needed for a desired declaration, or the uninstallation of an installed one.
  wants :
      (desired current : List Declaration) (o : Operation)
      → Needed adapter executable desired current o
      → ((d : Declaration) × Memᴰ d desired
          × WantedOf adapter executable d (last_of d.source current none) o)
        ⊎ ((d : Declaration) × Memᴰ d current
            × (last_of d.source desired none ≡ none)
            × (o ≡ plugin_operation adapter executable d uninstall))
  unfolding WantedOf
  wants desired current o (to_install d i on e made) =
      inl (d, i, subst (λ l. WantedOf adapter executable d l o) (sym e) (on, made))
  wants desired current o (to_update d c i on e dv cv other made) =
      inl (d, i, subst (λ l. WantedOf adapter executable d l o) (sym e) (on, dv, cv, other, made))
  wants desired current o (to_uninstall d i e made) = inr (d, i, e, made)

  -- Of accepted declarations, `pluginOperations` makes exactly the operations that are needed.
  pub plugin_operations-Needed :
      (desired current : List Declaration) (os : List Operation)
      → plugin_operations adapter executable desired current ≡ ok os
      → (o : Operation)
      → (Memᴰ o os → Needed adapter executable desired current o)
        × (Needed adapter executable desired current o → Memᴰ o os)
  unfolding plugin_operations lookup
  plugin_operations-Needed desired current os h o =
      let (m, rest, from_current) = >>=_succeeds (by_source current []) _ h in
      let (n, last, from_desired) = >>=_succeeds (by_source desired []) _ rest in
      let unsorted =
        all_wanted adapter executable m desired ++ all_unwanted adapter executable n current in
      let sorted = Memᴰ-sort_by operation_identity o unsorted in
      let installed = λ (s : Text). by_source-last_of s current [] m from_current in
      let declared = λ (s : Text). by_source-last_of s desired [] n from_desired in
      (
        λ there.
            elim (append_cases (all_wanted adapter executable m desired)
              (sorted.0 (subst (Memᴰ o) (sym (ok-injective last)) there))) [
                | inl first ↦
                    let (d, i, w) = from_wanted adapter executable m desired o first in
                    reason_to_install desired current o d (lookup d.source m)
                      (sym (installed d.source)) i w
                | inr second ↦
                    let (d, i, free, made) = from_unwanted adapter executable n current o second in
                    to_uninstall d i (sym (declared d.source) ∙ free) made
              ],
        λ needed. subst (Memᴰ o) (ok-injective last) (
            sorted.1 (elim (wants desired current o needed) [
              | inl (d, i, w) ↦ append_left (all_unwanted adapter executable n current) (
                  to_wanted adapter executable m desired o d i
                    (subst (λ l. WantedOf adapter executable d l o) (sym (installed d.source)) w))
              | inr (d, i, free, made) ↦
                  append_right (all_wanted adapter executable m desired)
                    (to_unwanted adapter executable n current o d i (declared d.source ∙ free) made)
            ])),
      )
