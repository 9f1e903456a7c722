-- ===== src/Conflict/Transaction/Undo.antt =====
-- Undoing the entries of a journal, as a function of the repository.
use mathlib.Core.Path.{fun_ext, subst}
use mathlib.Core.List.{reverse-append}
use sync_hub_for_agents.Base.{
  ◌≡◌, sym, ap, ◌∙◌, Bool, true, false, ◌||◌, Option, List, [], ◌∷◌, ◌++◌, reverse, append_assoc,
  arith, All, Bool-cases, inl, inr,
}
use sync_hub_for_agents.Base.{◌==◌, eq_of_true}
use sync_hub_for_agents.Base.Text.{Text, text_eq}
use sync_hub_for_agents.Conflict.Model.{TransactionEntry, update}

abbrev pub Repo : Type 0
Repo = Text → Option Text

abbrev pub undo_all : List TransactionEntry → Repo → Repo
undo_all [] r = r
undo_all (e ∷ es) r = undo_all es (update r e.path e.original)

-- Whether an entry is for the path.
abbrev pub mentions : List TransactionEntry → Text → Bool
mentions [] p = false
mentions (e ∷ es) p = e.path == p || mentions es p

update_twice : (r : Repo) (p : Text) (v w : Option Text) → update (update r p v) p w ≡ update r p w
unfolding update
update_twice r p v w = fun_ext λ q. ground arith

update_swap :
    (r : Repo) (p q : Text) (v w : Option Text)
    → (q == p) ≡ false
    → update (update r p v) q w ≡ update (update r q w) p v
unfolding update
update_swap r p q v w h = fun_ext λ t. ground arith

pub update_self : (r : Repo) (p : Text) → update r p (r p) ≡ r
unfolding update
update_self r p =
    fun_ext λ q. elim (Bool-cases (q == p)) [
      | inl e ↦ rw e (ap r (sym (eq_of_true q p e)))
      | inr e ↦ rw e
    ]

-- A path that is undone later may have been changed.
pub undo_all-update :
    (es : List TransactionEntry) (r : Repo) (p : Text) (v : Option Text)
    → mentions es p ≡ true
    → undo_all es (update r p v) ≡ undo_all es r
undo_all-update [] r p v h = cc
undo_all-update (e ∷ es) r p v h = elim (Bool-cases (e.path == p)) [
  | inl same ↦ ap (undo_all es) (
      ap (λ q. update (update r p v) q e.original) (eq_of_true e.path p same)
      ∙ update_twice r p v e.original
      ∙ ap (λ q. update r q e.original) (sym (eq_of_true e.path p same)))
  | inr other ↦
      ap (undo_all es) (update_swap r p e.path v e.original other)
      ∙ undo_all-update es (update r e.path e.original) p v (rw other at h)
]

mentions-append :
    (es fs : List TransactionEntry) (p : Text) → mentions fs p ≡ true → mentions (es ++ fs) p ≡ true
mentions-append [] fs p h = h
mentions-append (e ∷ es) fs p h = ground (arith, mentions-append es fs p h)

All-mentions_append :
    (es fs : List TransactionEntry) → All (λ e. mentions (es ++ fs) e.path ≡ true) fs
All-mentions_append es [] = tt
All-mentions_append es (f ∷ fs) = (
  mentions-append es (f ∷ fs) f.path (ground arith),
  subst (λ (gs : List TransactionEntry). All (λ e. mentions gs e.path ≡ true) fs)
      (append_assoc es (f ∷ []) fs) (All-mentions_append (es ++ (f ∷ [])) fs),
)

-- A list mentions the paths of its entries.
pub All-mentions : (es : List TransactionEntry) → All (λ e. mentions es e.path ≡ true) es
All-mentions es = All-mentions_append [] es

-- A new entry that records what the path holds changes nothing that is undone.
pub undo_all_grown :
    (es : List TransactionEntry) (r : Repo) (p : Text)
    → undo_all (reverse (es ++ (record { path = p; original = r p } ∷ []))) r
      ≡ undo_all (reverse es) r
undo_all_grown es r p =
    ap (λ fs. undo_all fs r) (reverse-append es (record { path = p; original = r p } ∷ []))
    ∙ ap (undo_all (reverse es)) (update_self r p)

-- And lets the path be written.
pub undo_all_written :
    (es : List TransactionEntry) (r : Repo) (p : Text) (v : Option Text)
    → undo_all (reverse (es ++ (record { path = p; original = r p } ∷ []))) (update r p v)
      ≡ undo_all (reverse es) r
undo_all_written es r p v =
    ap (λ fs. undo_all fs (update r p v))
      (reverse-append es (record { path = p; original = r p } ∷ []))
    ∙ ap (undo_all (reverse es)) (update_twice r p v (r p) ∙ update_self r p)
