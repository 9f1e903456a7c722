-- ===== src/Base/Strings/Laws.antt =====
-- Splitting, joining and cleaning paths.
use sync_hub_for_agents.Base.{
  ℕ, ◌≡◌, ◌≢◌, refl, sym, ap, ◌∙◌, Bool, false, ◌||◌, List, [], ◌∷◌, ◌++◌, append_assoc, arith, All,
}
use sync_hub_for_agents.Base.{◌==◌, nat_eq, contains, if◌then◌else◌}
use sync_hub_for_agents.Base.Text.{Text, text_eq}
use sync_hub_for_agents.Base.Strings.{
  slash, split, in_front, join, dot, dot_dot, step_back, clean_elements, finish_clean, clean,
  join_buffer, clean_nonempty, path_join,
}
use mathlib.Core.Path.{ap₂}
use mathlib.Core.List.{reverse_aux, reverse-reverse}

-- A name that stands for itself in a path.
pub record IsPlain (p : Text) : Type 0 where
  pub ne_nil : p ≢ []
  pub ne_dot : p ≢ dot
  pub ne_dot_dot : p ≢ dot_dot
  pub no_slash : contains p slash ≡ false

pub split-ne-nil : (sep : ℕ) (s : Text) → split sep s ≢ []
unfolding split
split-ne-nil sep [] = λ e. cc
split-ne-nil sep (c ∷ s) = ground (arith, split-ne-nil sep s)

join-in_front : (c : ℕ) (ps : List Text) → join (in_front c ps) ≡ c ∷ join ps
unfolding join
join-in_front c [] = refl
join-in_front c (p ∷ []) = refl
join-in_front c (p ∷ q ∷ ps) = refl

join-nil-cons : (ps : List Text) → ps ≢ [] → join ([] ∷ ps) ≡ slash ∷ join ps
unfolding join
join-nil-cons [] h = absurd (h refl)
join-nil-cons (p ∷ ps) h = refl

-- Splitting loses nothing.
pub join-split : (s : Text) → join (split slash s) ≡ s
unfolding split
join-split [] = unfold join in refl
join-split (c ∷ s) = ground (
  arith,
  join-split s,
  split-ne-nil slash s,
  join-in_front c (split slash s),
  join-nil-cons (split slash s),
)

split_single : (p : Text) → contains p slash ≡ false → split slash p ≡ p ∷ []
unfolding split
split_single [] h = refl
split_single (c ∷ p) h = ground (arith, split_single p)

split-append_slash :
    (p s : Text) → contains p slash ≡ false → split slash (p ++ (slash ∷ s)) ≡ p ∷ split slash s
unfolding split
split-append_slash [] s h = ground arith
split-append_slash (c ∷ p) s h = ground (arith, split-append_slash p s)

-- Names without a slash are found again.
pub split-join : (ps : List Text) → ps ≢ [] → All IsPlain ps → split slash (join ps) ≡ ps
unfolding join
split-join [] n h = absurd (n refl)
split-join (p ∷ []) n h = split_single p h.0.no_slash
split-join (p ∷ q ∷ ps) n h =
    split-append_slash p (join (q ∷ ps)) h.0.no_slash
    ∙ ap (λ r. p ∷ r) (split-join (q ∷ ps) (λ e. cc) h.1)

kept_name :
    (p : Text) (rooted : Bool) (kept : List Text)
    → IsPlain p
    → (if p == [] || p == dot
        then kept
        else if p == dot_dot
        then step_back rooted kept
        else p ∷ kept)
      ≡ p ∷ kept
kept_name p rooted kept h = ground (arith, h.ne_nil, h.ne_dot, h.ne_dot_dot)

clean_elements-IsPlain :
    (rooted : Bool) (kept ps : List Text)
    → All IsPlain ps
    → clean_elements rooted kept ps ≡ reverse_aux ps kept
unfolding clean_elements
clean_elements-IsPlain rooted kept [] h = refl
clean_elements-IsPlain rooted kept (p ∷ ps) h =
    rw (kept_name p rooted kept h.0) (clean_elements-IsPlain rooted (p ∷ kept) ps h.1)

-- The first name of a joined list keeps the path from being rooted, and from being empty.
join-head :
    (p : Text) (ps : List Text)
    → IsPlain p
    → (c : ℕ) × (s : Text) × (join (p ∷ ps) ≡ c ∷ s) × ((c == slash) ≡ false)
unfolding join
join-head [] ps h = absurd (h.ne_nil refl)
join-head (c ∷ p) [] h = (c, p, refl, ground (arith, h.no_slash))
join-head (c ∷ p) (q ∷ ps) h = (c, p ++ (slash ∷ join (q ∷ ps)), refl, ground (arith, h.no_slash))

clean-cons : (c : ℕ) (s : Text) → clean (c ∷ s) ≡ finish_clean (c == slash) (split slash (c ∷ s))
unfolding clean
clean-cons c s = refl

finish_clean-IsPlain :
    (c : ℕ) (s : Text) (ps : List Text)
    → join ps ≡ c ∷ s
    → All IsPlain ps
    → finish_clean false ps ≡ c ∷ s
unfolding finish_clean
finish_clean-IsPlain c s ps e h = rw clean_elements-IsPlain (rw (reverse-reverse ps) (rw e))

clean_of_relative :
    (c : ℕ) (s : Text) (p : Text) (ps : List Text)
    → join (p ∷ ps) ≡ c ∷ s
    → (c == slash) ≡ false
    → All IsPlain (p ∷ ps)
    → clean (c ∷ s) ≡ c ∷ s
clean_of_relative c s p ps e r h =
    clean-cons c s
    ∙ ap₂ finish_clean r (ap (split slash) (sym e) ∙ split-join (p ∷ ps) (λ n. cc) h)
    ∙ finish_clean-IsPlain c s (p ∷ ps) e h

-- `path.Clean` leaves joined names alone.
pub clean-join : (ps : List Text) → ps ≢ [] → All IsPlain ps → clean (join ps) ≡ join ps
clean-join [] n h = absurd (n refl)
clean-join (p ∷ ps) n h =
    let (c, s, e, r) = join-head p ps h.0 in rw e (clean_of_relative c s p ps e r h)

join-append_slash :
    (p e : Text) (es : List Text) → join ((p ++ (slash ∷ e)) ∷ es) ≡ p ++ (slash ∷ join (e ∷ es))
unfolding join
join-append_slash p e [] = refl
join-append_slash p e (f ∷ fs) = append_assoc p (slash ∷ e) (slash ∷ join (f ∷ fs))

join_buffer-join :
    (c : ℕ) (p : Text) (ps : List Text) → join_buffer (c ∷ p) ps ≡ join ((c ∷ p) ∷ ps)
join_buffer-join c p [] = unfold join in refl
join_buffer-join c p (e ∷ es) =
    join_buffer-join c (p ++ (slash ∷ e)) es ∙ join-append_slash (c ∷ p) e es ∙ unfold join in refl

clean_nonempty_lem : (s : Text) → s ≢ [] → clean_nonempty s ≡ clean s
clean_nonempty_lem [] n = absurd (n refl)
clean_nonempty_lem (c ∷ s) n = refl

join-ne-nil : (c : ℕ) (p : Text) (ps : List Text) → join ((c ∷ p) ∷ ps) ≢ []
unfolding join
join-ne-nil c p [] = λ e. cc
join-ne-nil c p (q ∷ ps) = λ e. cc

-- `path.Join` cleans the plain join, if the first element is not empty.
pub path_join-eq-clean :
    (p : Text) (ps : List Text) → p ≢ [] → path_join (p ∷ ps) ≡ clean (join (p ∷ ps))
unfolding path_join
path_join-eq-clean [] ps n = absurd (n refl)
path_join-eq-clean (c ∷ p) ps n =
    ap clean_nonempty (join_buffer-join c p ps) ∙ clean_nonempty_lem _ (join-ne-nil c p ps)

-- Joining in two steps.
pub join-append_join : (ps qs : List Text) → qs ≢ [] → join (ps ++ (join qs ∷ [])) ≡ join (ps ++ qs)
unfolding join
join-append_join [] qs n = refl
join-append_join (p ∷ []) [] n = absurd (n refl)
join-append_join (p ∷ []) (q ∷ qs) n = refl
join-append_join (p ∷ r ∷ ps) qs n = ap (λ t. p ++ (slash ∷ t)) (join-append_join (r ∷ ps) qs n)

-- `path.Join` of names and a relative path is the path of all the names.
pub path_join_names :
    (p : Text) (ps qs : List Text)
    → qs ≢ []
    → All IsPlain ((p ∷ ps) ++ qs)
    → path_join ((p ∷ ps) ++ (join qs ∷ [])) ≡ join ((p ∷ ps) ++ qs)
path_join_names p ps qs n h =
    path_join-eq-clean p (ps ++ (join qs ∷ [])) h.0.ne_nil
    ∙ ap clean (join-append_join (p ∷ ps) qs n)
    ∙ clean-join ((p ∷ ps) ++ qs) (λ e. cc) h
