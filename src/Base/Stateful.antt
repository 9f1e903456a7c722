-- ===== src/Base/Stateful.antt =====
-- Programs that change a state and may end with an error; what they changed before stays.
use mathlib.Core.Path.{◌≡◌, refl}
use sync_hub_for_agents.Base.Result.{Result, ok, err}

abbrev pub Program : Type 0 → Type 0 → Type 0 → Type 0
Program S E A = S → Result E A × S

module _ {S E : Type 0} where
  infixl 5 ◌>>=◌ ◌>>◌
  unfoldable pub ◌>>=◌ : {A B : Type 0} → Program S E A → (A → Program S E B) → Program S E B
  ◌>>=◌ m k s = let (r, s') = m s in elim r [ ok a ↦ k a s' | err e ↦ (err e, s') ]

  abbrev pub ◌>>◌ : {A B : Type 0} → Program S E A → Program S E B → Program S E B
  m >> k = m >>= λ _. k

  abbrev pub return : {A : Type 0} → A → Program S E A
  return a s = (ok a, s)

  abbrev pub lift : {A : Type 0} → Result E A → Program S E A
  lift r s = (r, s)

  -- What holds after a program, with its result or on its error.
  abbrev pub After : {A : Type 0} → (A → S → Type 0) → (S → Type 0) → Result E A × S → Type 0
  After Q F (ok a, s) = Q a s
  After Q F (err e, s) = F s

  pub After-bind :
      {A B : Type 0} (P : A → S → Type 0) (Q : B → S → Type 0) (F : S → Type 0) (m : Program S E A)
      (k : A → Program S E B) (s : S)
      → After P F (m s)
      → ((a : A) (t : S) → P a t → After Q F (k a t))
      → After Q F ((m >>= k) s)
  unfolding ◌>>=◌
  After-bind {A} {B} P Q F m k s h rest = by_end (m s) h
    where
      by_end :
          (r : Result E A × S)
          → After P F r
          → After Q F (let (e, t) = r in elim e [ ok a ↦ k a t | err c ↦ (err c, t) ])
      by_end (ok a, t) h = rest a t h
      by_end (err c, t) h = h

  pub After-weaken :
      {A : Type 0} (P Q : A → S → Type 0) (E' F : S → Type 0) (r : Result E A × S)
      → ((a : A) (t : S) → P a t → Q a t)
      → ((t : S) → E' t → F t)
      → After P E' r
      → After Q F r
  After-weaken P Q E' F (ok a, t) f g h = f a t h
  After-weaken P Q E' F (err c, t) f g h = g t h

  -- A check in front of a program.
  pub After-check :
      {B : Type 0} (Q : B → S → Type 0) (F : S → Type 0) (r : Result E (Unit {0}))
      (k : Program S E B) (s : S)
      → F s
      → (r ≡ ok tt → After Q F (k s))
      → After Q F ((lift r >> k) s)
  unfolding ◌>>=◌
  After-check Q F (ok tt) k s f h = h refl
  After-check Q F (err c) k s f h = f

  pub After-lift :
      {A : Type 0} (Q : A → S → Type 0) (F : S → Type 0) (r : Result E A) (s : S)
      → F s
      → ((a : A) → r ≡ ok a → Q a s)
      → After Q F (lift r s)
  After-lift Q F (ok a) s f h = h a refl
  After-lift Q F (err c) s f h = f

  pub After-any : {A : Type 0} (r : Result E A × S) → After (λ _ _. Unit {0}) (λ _. Unit {0}) r
  After-any (ok a, s) = tt
  After-any (err c, s) = tt
