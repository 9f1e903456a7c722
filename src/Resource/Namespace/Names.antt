-- ===== src/Resource/Namespace/Names.antt =====
-- What the validation of paths and identifiers establishes, and which paths pass it.
use sync_hub_for_agents.Base.{
  ℕ, ◌≡◌, refl, ap, ◌∙◌, true, false, inl, inr, List, [], ◌∷◌, ◌++◌, arith, All,
}
use sync_hub_for_agents.Base.{◌==◌, nat_eq, contains, ℕ_discrete, true_of_eq, Bool-cases}
use sync_hub_for_agents.Base.Text.{Text, text_eq, has_prefix}
use sync_hub_for_agents.Base.Result.{ok}
use sync_hub_for_agents.Base.Strings.{is_blank, slash, backslash, split, in_front, join, clean}
use sync_hub_for_agents.Base.Strings.Laws.{IsPlain, split-join, clean-join}
use sync_hub_for_agents.Resource.Identifier.{validate_identifier}
use sync_hub_for_agents.Resource.Namespace.{
  is_windows_absolute, any_bad_segment, validate_repo_relative, agents,
}

-- A name that a path of the repository may hold.
pub record IsSafe (p : Text) : Type 0 where
  pub plain : IsPlain p
  pub no_backslash : contains p backslash ≡ false

is_blank-nil : is_blank [] ≡ true
unfolding is_blank
is_blank-nil = refl

pub validate_identifier-IsSafe :
    (kind value : Text) → validate_identifier kind value ≡ ok tt → IsSafe value
unfolding validate_identifier
validate_identifier-IsSafe kind [] h = absurd (ground (arith, is_blank-nil))
validate_identifier-IsSafe kind (c ∷ value) h = record {
  plain = record {
    ne_nil = λ e. cc;
    ne_dot = ground arith;
    ne_dot_dot = ground arith;
    no_slash = ground arith;
  };
  no_backslash = ground arith;
}

All-in_front :
    (b c : ℕ) (ps : List Text)
    → (c == b) ≡ false
    → All (λ p. contains p b ≡ false) ps
    → All (λ p. contains p b ≡ false) (in_front c ps)
All-in_front b c [] h a = ground arith
All-in_front b c (p ∷ ps) h a = ground arith

split-no_slash : (s : Text) → All (λ p. contains p slash ≡ false) (split slash s)
unfolding split
split-no_slash [] = (refl, tt)
split-no_slash (c ∷ s) = elim (Bool-cases (c == slash)) [
  | inl e ↦ rw e (refl, split-no_slash s)
  | inr e ↦ rw e (All-in_front slash c (split slash s) e (split-no_slash s))
]

split-no_byte :
    (b : ℕ) (s : Text) → contains s b ≡ false → All (λ p. contains p b ≡ false) (split slash s)
unfolding split
split-no_byte b [] h = (refl, tt)
split-no_byte b (c ∷ s) h = elim (Bool-cases (c == slash)) [
  | inl e ↦ rw e (refl, split-no_byte b s (ground arith))
  | inr e ↦
      rw e (All-in_front b c (split slash s) (ground arith) (split-no_byte b s (ground arith)))
]

pub segments-IsSafe :
    (ps : List Text)
    → All (λ p. contains p slash ≡ false) ps
    → any_bad_segment ps ≡ false
    → All IsSafe ps
unfolding any_bad_segment
segments-IsSafe [] s h = tt
segments-IsSafe (p ∷ ps) s h = (
  record {
    plain = record {
      ne_nil = ground arith;
      ne_dot = ground arith;
      ne_dot_dot = ground arith;
      no_slash = s.0;
    };
    no_backslash = ground arith;
  },
  segments-IsSafe ps s.1 (ground arith),
)

validate_repo_relative_segments :
    (r : Text) → validate_repo_relative r ≡ ok tt → any_bad_segment (split slash r) ≡ false
unfolding validate_repo_relative
validate_repo_relative_segments r h = ground arith

-- A valid relative path is made of names.
pub validate_repo_relative-IsSafe :
    (r : Text) → validate_repo_relative r ≡ ok tt → All IsSafe (split slash r)
validate_repo_relative-IsSafe r h =
    segments-IsSafe (split slash r) (split-no_slash r) (validate_repo_relative_segments r h)

contains-append_slash :
    (b : ℕ) (p s : Text)
    → (slash == b) ≡ false
    → contains p b ≡ false
    → contains s b ≡ false
    → contains (p ++ (slash ∷ s)) b ≡ false
contains-append_slash b [] s n h k = ground arith
contains-append_slash b (c ∷ p) s n h k = ground (arith, contains-append_slash b p s)

slash_ne_backslash : (slash == backslash) ≡ false
unfolding nat_eq ℕ_discrete
slash_ne_backslash = refl

contains-join : (ps : List Text) → All IsSafe ps → contains (join ps) backslash ≡ false
unfolding join
contains-join [] h = refl
contains-join (p ∷ []) h = h.0.no_backslash
contains-join (p ∷ q ∷ ps) h =
    contains-append_slash backslash p (join (q ∷ ps)) slash_ne_backslash h.0.no_backslash
      (contains-join (q ∷ ps) h.1)

any_bad_segment-IsSafe : (ps : List Text) → All IsSafe ps → any_bad_segment ps ≡ false
unfolding any_bad_segment
any_bad_segment-IsSafe [] h = refl
any_bad_segment-IsSafe (p ∷ ps) h = ground (
  arith,
  any_bad_segment-IsSafe ps h.1,
  h.0.no_backslash,
  h.0.plain.ne_nil,
  h.0.plain.ne_dot,
  h.0.plain.ne_dot_dot,
)

pub All-IsPlain : (ps : List Text) → All IsSafe ps → All IsPlain ps
All-IsPlain [] h = tt
All-IsPlain (p ∷ ps) h = (h.0.plain, All-IsPlain ps h.1)

agents_front :
    (s : Text)
    → (is_blank (agents ++ s) ≡ false)
      × (has_prefix (agents ++ s) (slash ∷ []) ≡ false)
      × (is_windows_absolute (agents ++ s) ≡ false)
unfolding is_blank has_prefix is_windows_absolute nat_eq ℕ_discrete
agents_front s = (refl, refl, refl)

validate_by_tests :
    (s : Text)
    → is_blank s ≡ false
    → has_prefix s (slash ∷ []) ≡ false
    → is_windows_absolute s ≡ false
    → contains s backslash ≡ false
    → clean s ≡ s
    → any_bad_segment (split slash s) ≡ false
    → validate_repo_relative s ≡ ok tt
unfolding validate_repo_relative
validate_by_tests s p q r t u v = rw (p, t, q, true_of_eq (clean s) s u, v, r)

pub agents-IsSafe : IsSafe agents
unfolding nat_eq ℕ_discrete
agents-IsSafe = record {
  plain = record { ne_nil = λ e. cc; ne_dot = λ e. cc; ne_dot_dot = λ e. cc; no_slash = refl };
  no_backslash = refl;
}

-- Paths of names under `agents` are valid.
pub validate_repo_relative-join :
    (p : Text) (ps : List Text)
    → All IsSafe (p ∷ ps)
    → validate_repo_relative (join (agents ∷ p ∷ ps)) ≡ ok tt
unfolding join
validate_repo_relative-join p ps h =
    let (b, f, w) = agents_front (slash ∷ join (p ∷ ps)) in
    let safe : All IsSafe (agents ∷ p ∷ ps) = (agents-IsSafe, h) in
    let plain : All IsPlain (agents ∷ p ∷ ps) = All-IsPlain (agents ∷ p ∷ ps) safe in
    validate_by_tests (join (agents ∷ p ∷ ps)) b f w (contains-join (agents ∷ p ∷ ps) safe)
      (clean-join (agents ∷ p ∷ ps) (λ e. cc) plain)
      (ap any_bad_segment (split-join (agents ∷ p ∷ ps) (λ e. cc) plain)
        ∙ any_bad_segment-IsSafe (agents ∷ p ∷ ps) safe)
