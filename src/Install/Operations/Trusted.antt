-- ===== src/Install/Operations/Trusted.antt =====
-- Every generated operation is one that `ValidateOperation` accepts.
use mathlib.Core.Path.{subst}
use sync_hub_for_agents.Base.{
  ◌≡◌, refl, sym, ap, true, false, not, ◌&&◌, List, [], ◌∷◌, All, arith, nat_eq, ℕ_discrete, ◌⊎◌,
  inl, inr,
}
use sync_hub_for_agents.Base.{true_of_eq}
use sync_hub_for_agents.Base.Text.{Text, text_eq, codes, has_prefix}
use sync_hub_for_agents.Base.Result.{ok, reject, ◌>>◌, >>=_succeeds}
use sync_hub_for_agents.Base.Dict.{Dict, insert}
use sync_hub_for_agents.Base.Strings.{is_blank, contains_any, contains_text}
use sync_hub_for_agents.Install.{
  Declaration, Operation, claude_plugin, copilot_plugin, install, update, uninstall,
  untrusted_command, reject_shell_syntax, check_all, validate_declaration, validate_operation,
  equal_strings, validate_claude_operation, validate_copilot_operation,
  validate_dependency_operation, skill_dependencies,
}
use sync_hub_for_agents.Install.Operations.{plugin_operation, by_source}

-- What an accepted declaration says of its source.
pub record CleanSource (source : Text) : Type 0 where
  pub not_blank : is_blank source ≡ false
  pub no_shell : reject_shell_syntax source ≡ ok tt

pub validate_declaration-CleanSource :
    (d : Declaration) → validate_declaration d ≡ ok tt → CleanSource d.source
unfolding validate_declaration
validate_declaration-CleanSource d h = record { not_blank = ground arith; no_shell = ground arith }

-- The kinds of an operation on a plugin.
abbrev pub IsPluginKind : Text → Type 0
IsPluginKind kind = (kind ≡ install) ⊎ ((kind ≡ update) ⊎ (kind ≡ uninstall))

-- What `ValidateOperation` asks whatever the adapter is.
pub record IsPlain (o : Operation) : Type 0 where
  pub has_id : is_blank o.id ≡ false
  pub has_adapter : is_blank o.adapter ≡ false
  pub clean_source : CleanSource o.source
  pub clean_executable : reject_shell_syntax o.executable ≡ ok tt
  pub clean_args : check_all reject_shell_syntax o.args ≡ ok tt

validate_claude :
    (o : Operation)
    → IsPlain o
    → o.adapter ≡ claude_plugin
    → validate_claude_operation o ≡ ok tt
    → validate_operation o ≡ ok tt
unfolding validate_operation
validate_claude o p e h = ground arith

validate_copilot :
    (o : Operation)
    → IsPlain o
    → o.adapter ≡ copilot_plugin
    → validate_copilot_operation o ≡ ok tt
    → validate_operation o ≡ ok tt
unfolding validate_operation
validate_copilot o p e h = ground arith

pub validate_dependency :
    (o : Operation)
    → IsPlain o
    → o.adapter ≡ skill_dependencies
    → validate_dependency_operation o ≡ ok tt
    → validate_operation o ≡ ok tt
unfolding validate_operation
validate_dependency o p e h = ground arith

-- A property of the three kinds holds of a kind of an operation.
by_kind :
    (P : Text → Type 0) → P install → P update → P uninstall → (k : Text) → IsPluginKind k → P k
by_kind P i u r k (inl e) = subst P (sym e) i
by_kind P i u r k (inr (inl e)) = subst P (sym e) u
by_kind P i u r k (inr (inr e)) = subst P (sym e) r

claude_args :
    (d : Declaration) (kind : Text)
    → CleanSource d.source
    → IsPluginKind kind
    → check_all reject_shell_syntax (plugin_operation claude_plugin (codes "claude") d kind).args
      ≡ ok tt
unfolding plugin_operation reject_shell_syntax check_all contains_any contains_text text_eq nat_eq
    ℕ_discrete has_prefix
claude_args d kind c =
    let from_source = ap (λ r. r >> ok tt) c.no_shell in
    by_kind
      (λ k.
        check_all reject_shell_syntax (plugin_operation claude_plugin (codes "claude") d k).args
        ≡ ok tt)
      from_source from_source from_source kind

claude_form :
    (d : Declaration) (kind : Text)
    → IsPluginKind kind
    → validate_claude_operation (plugin_operation claude_plugin (codes "claude") d kind) ≡ ok tt
unfolding plugin_operation validate_claude_operation equal_strings text_eq nat_eq ℕ_discrete
claude_form d kind =
    let same =
      ap (λ b. reject (not b) untrusted_command >> ok tt) (true_of_eq d.source d.source refl) in
    by_kind
      (λ k. validate_claude_operation (plugin_operation claude_plugin (codes "claude") d k) ≡ ok tt)
      same same same kind

pub claude_operation_trusted :
    (d : Declaration) (kind : Text)
    → CleanSource d.source
    → IsPluginKind kind
    → validate_operation (plugin_operation claude_plugin (codes "claude") d kind) ≡ ok tt
unfolding plugin_operation is_blank text_eq nat_eq ℕ_discrete reject_shell_syntax contains_any
    contains_text has_prefix
claude_operation_trusted d kind c k =
    validate_claude (plugin_operation claude_plugin (codes "claude") d kind)
      (record {
        has_id = refl;
        has_adapter = refl;
        clean_source = c;
        clean_executable = refl;
        clean_args = claude_args d kind c k;
      })
      refl (claude_form d kind k)

copilot_args :
    (d : Declaration) (kind : Text)
    → CleanSource d.source
    → IsPluginKind kind
    → check_all reject_shell_syntax (plugin_operation copilot_plugin (codes "copilot") d kind).args
      ≡ ok tt
unfolding plugin_operation reject_shell_syntax check_all contains_any contains_text text_eq nat_eq
    ℕ_discrete has_prefix
copilot_args d kind c =
    let from_source = ap (λ r. r >> ok tt) c.no_shell in
    by_kind
      (λ k.
        check_all reject_shell_syntax (plugin_operation copilot_plugin (codes "copilot") d k).args
        ≡ ok tt)
      from_source from_source from_source kind

copilot_form :
    (d : Declaration) (kind : Text)
    → IsPluginKind kind
    → validate_copilot_operation (plugin_operation copilot_plugin (codes "copilot") d kind) ≡ ok tt
unfolding plugin_operation validate_copilot_operation equal_strings text_eq nat_eq ℕ_discrete
copilot_form d kind =
    let same =
      ap (λ b. reject (not (b && true)) untrusted_command >> ok tt)
        (true_of_eq d.source d.source refl) in
    by_kind
      (λ k.
        validate_copilot_operation (plugin_operation copilot_plugin (codes "copilot") d k) ≡ ok tt)
      same same same kind

pub copilot_operation_trusted :
    (d : Declaration) (kind : Text)
    → CleanSource d.source
    → IsPluginKind kind
    → validate_operation (plugin_operation copilot_plugin (codes "copilot") d kind) ≡ ok tt
unfolding plugin_operation is_blank text_eq nat_eq ℕ_discrete reject_shell_syntax contains_any
    contains_text has_prefix
copilot_operation_trusted d kind c k =
    validate_copilot (plugin_operation copilot_plugin (codes "copilot") d kind)
      (record {
        has_id = refl;
        has_adapter = refl;
        clean_source = c;
        clean_executable = refl;
        clean_args = copilot_args d kind c k;
      })
      refl (copilot_form d kind k)

-- An accepted list of declarations has clean sources.
pub by_source-CleanSource :
    (ds : List Declaration) (found m : Dict Text Declaration)
    → by_source ds found ≡ ok m
    → All (λ d. CleanSource d.source) ds
unfolding by_source
by_source-CleanSource [] found m h = tt
by_source-CleanSource (d ∷ ds) found m h =
    let (u, later, valid) =
      >>=_succeeds (validate_declaration d) (λ _. by_source ds (insert d.source d found)) h in
    (
      validate_declaration-CleanSource d valid,
      by_source-CleanSource ds (insert d.source d found) m later,
    )
