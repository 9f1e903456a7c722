-- ===== src/Install/Operations/Wanted.antt =====
-- What the loops over the declarations make operations for.
use mathlib.Core.Path.{subst}
use mathlib.Core.Option.{none-ne-some}
use mathlib.Core.List.{Memᴰ}
use mathlib.Core.List.Memᴰ.{head, tail, cases_cons, append_left, append_right, append_cases}
use sync_hub_for_agents.Base.{
  ◌≡◌, refl, sym, ap, ◌∙◌, ◌≢◌, Bool, true, false, not, ◌||◌, Option, none, some, List, [], ◌∷◌,
  arith, ◌⊎◌, inl, inr,
}
use sync_hub_for_agents.Base.{◌==◌, if◌then◌else◌}
use sync_hub_for_agents.Base.Text.{Text, text_eq}
use sync_hub_for_agents.Base.Dict.{Dict, lookup}
use sync_hub_for_agents.Install.{Declaration, Operation, install, update, uninstall}
use sync_hub_for_agents.Install.Operations.{
  plugin_operation, wanted, all_wanted, all_unwanted, change_kind,
}

module _ (adapter : Text) (executable : Text) where
  -- What one desired declaration needs, by what is installed for its source.
  unfoldable pub WantedOf : Declaration → Option Declaration → Operation → Type 0
  WantedOf d none o = (d.enabled ≡ true) × (o ≡ plugin_operation adapter executable d install)
  WantedOf d (some c) o =
      (d.enabled ≡ true)
      × (d.version ≢ [])
      × (c.version ≢ [])
      × (d.version ≢ c.version)
      × (o ≡ plugin_operation adapter executable d update)

  abbrev Differ : Declaration → Declaration → Type 0
  Differ d c = (d.version ≢ []) × (c.version ≢ []) × (d.version ≢ c.version)

  change_kind-update :
      (d c : Declaration)
      → ((change_kind d (some c) ≡ []) × (Differ d c → ⊥))
        ⊎ ((change_kind d (some c) ≡ update) × Differ d c)
  unfolding change_kind
  change_kind-update d c = ground arith

  enabled_if :
      (enabled : Bool) (kind : Text) (o p : Operation)
      → Memᴰ o (if not enabled || kind == [] then [] else p ∷ [])
      → (enabled ≡ true) × (kind ≢ []) × (o ≡ p)
  unfolding text_eq
  enabled_if false kind o p h = elim h [ ]
  enabled_if true [] o p h = elim h [ ]
  enabled_if true (c ∷ kind) o p (head e) = (refl, λ q. cc, e)
  enabled_if true (c ∷ kind) o p (tail h) = elim h [ ]

  in_wanted :
      (m : Dict Text Declaration) (d : Declaration) (o : Operation)
      → Memᴰ o (wanted adapter executable m d)
      → WantedOf d (lookup d.source m) o
  unfolding wanted WantedOf change_kind
  in_wanted m d o h =
      by_lookup (lookup d.source m) (enabled_if d.enabled (change_kind d (lookup d.source m)) o _ h)
    where
      by_lookup :
          (l : Option Declaration)
          → let kind = change_kind d l in
            (d.enabled ≡ true) × (kind ≢ []) × (o ≡ plugin_operation adapter executable d kind)
            → WantedOf d l o
      by_lookup none (on, _, same) = (on, same)
      by_lookup (some c) (on, needed, same) = elim (change_kind-update d c) [
        | inl (nothing, _) ↦ absurd (needed nothing)
        | inr (k, (dv, cv, other)) ↦
            (on, dv, cv, other, same ∙ ap (plugin_operation adapter executable d) k)
      ]

  wanted_in :
      (m : Dict Text Declaration) (d : Declaration) (o : Operation)
      → WantedOf d (lookup d.source m) o
      → Memᴰ o (wanted adapter executable m d)
  unfolding wanted WantedOf change_kind text_eq
  wanted_in m d o = by_lookup (lookup d.source m)
    where
      in_rest : {p : Operation} (b : Bool) → b ≡ false → o ≡ p → Memᴰ o (if b then [] else p ∷ [])
      in_rest true h e = cc
      in_rest false h e = head e

      of_test :
          (enabled : Bool) (kind : Text) (p : Operation)
          → enabled ≡ true
          → (kind == []) ≡ false
          → o ≡ p
          → Memᴰ o (if not enabled || kind == [] then [] else p ∷ [])
      of_test enabled kind p on k e = in_rest (not enabled || kind == []) (ground arith) e

      by_lookup :
          (l : Option Declaration)
          → WantedOf d l o
          → Memᴰ o (
              let kind = change_kind d l in
              if not d.enabled || kind == []
              then []
              else plugin_operation adapter executable d kind ∷ [])
      by_lookup none (on, e) = of_test d.enabled install _ on refl e
      by_lookup (some c) (on, dv, cv, other, e) = elim (change_kind-update d c) [
        | inl (_, same) ↦ absurd (same (dv, cv, other))
        | inr (k, _) ↦
            of_test d.enabled (change_kind d (some c)) _ on
              (subst (λ t. (t == []) ≡ false) (sym k) refl)
              (e ∙ ap (plugin_operation adapter executable d) (sym k))
      ]

  pub from_wanted :
      (m : Dict Text Declaration) (ds : List Declaration) (o : Operation)
      → Memᴰ o (all_wanted adapter executable m ds)
      → (d : Declaration) × Memᴰ d ds × WantedOf d (lookup d.source m) o
  unfolding all_wanted
  from_wanted m [] o h = elim h [ ]
  from_wanted m (d ∷ ds) o h = elim (append_cases (wanted adapter executable m d) h) [
    | inl this ↦ (d, head refl, in_wanted m d o this)
    | inr later ↦ let (e, there, needed) = from_wanted m ds o later in (e, tail there, needed)
  ]

  pub to_wanted :
      (m : Dict Text Declaration) (ds : List Declaration) (o : Operation) (d : Declaration)
      → Memᴰ d ds
      → WantedOf d (lookup d.source m) o
      → Memᴰ o (all_wanted adapter executable m ds)
  unfolding all_wanted
  to_wanted m [] o d there w = elim there [ ]
  to_wanted m (e ∷ ds) o d (head same) w =
      append_left (all_wanted adapter executable m ds)
        (wanted_in m e o (subst (λ x. WantedOf x (lookup x.source m) o) same w))
  to_wanted m (e ∷ ds) o d (tail there) w =
      append_right (wanted adapter executable m e) (to_wanted m ds o d there w)

  pub from_unwanted :
      (m : Dict Text Declaration) (ds : List Declaration) (o : Operation)
      → Memᴰ o (all_unwanted adapter executable m ds)
      → (d : Declaration) × Memᴰ d ds
        × (lookup d.source m ≡ none)
        × (o ≡ plugin_operation adapter executable d uninstall)
  unfolding all_unwanted
  from_unwanted m [] o h = elim h [ ]
  from_unwanted m (d ∷ ds) o h =
      by_lookup
        (λ there. let (e, i, free, made) = from_unwanted m ds o there in (e, tail i, free, made))
        (lookup d.source m) refl h
    where
      by_lookup :
          (later : Memᴰ o (all_unwanted adapter executable m ds)
            → (e : Declaration) × Memᴰ e (d ∷ ds)
              × (lookup e.source m ≡ none)
              × (o ≡ plugin_operation adapter executable e uninstall))
          (l : Option Declaration)
          → lookup d.source m ≡ l
          → Memᴰ o (
              let rest = all_unwanted adapter executable m ds in
              elim l [
                | none ↦ plugin_operation adapter executable d uninstall ∷ rest
                | some _ ↦ rest
              ])
          → (e : Declaration) × Memᴰ e (d ∷ ds)
            × (lookup e.source m ≡ none)
            × (o ≡ plugin_operation adapter executable e uninstall)
      by_lookup later none free (head made) = (d, head refl, free, made)
      by_lookup later none free (tail there) = later there
      by_lookup later (some c) free there = later there

  pub to_unwanted :
      (m : Dict Text Declaration) (ds : List Declaration) (o : Operation) (d : Declaration)
      → Memᴰ d ds
      → lookup d.source m ≡ none
      → o ≡ plugin_operation adapter executable d uninstall
      → Memᴰ o (all_unwanted adapter executable m ds)
  unfolding all_unwanted
  to_unwanted m [] o d there free made = elim there [ ]
  to_unwanted m (e ∷ ds) o d there free made =
      by_lookup (λ later. to_unwanted m ds o d later free made) (lookup e.source m) refl
        (cases_cons there)
    where
      by_lookup :
          (Memᴰ d ds → Memᴰ o (all_unwanted adapter executable m ds))
          → (l : Option Declaration) → lookup e.source m ≡ l
          → (d ≡ e) ⊎ Memᴰ d ds
          → Memᴰ o (
              let rest = all_unwanted adapter executable m ds in
              elim l [
                | none ↦ plugin_operation adapter executable e uninstall ∷ rest
                | some _ ↦ rest
              ])
      by_lookup _ none _ (inl same) =
          head (made ∙ ap (λ x. plugin_operation adapter executable x uninstall) same)
      by_lookup further none _ (inr later) = tail (further later)
      by_lookup _ (some c) known (inl same) =
          absurd (none-ne-some c (sym free ∙ ap (λ x. lookup x.source m) same ∙ known))
      by_lookup further (some c) known (inr later) = further later
