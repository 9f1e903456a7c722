-- ===== src/Base/Tests.antt =====
-- Go's `==`, `<` and `if`, and splits on computed values.
use Prim.Native.Nat.{ℕ, compare, Ordering}
use mathlib.Core.Path.{◌≡◌, refl, ap}
use mathlib.Core.Logic.{◌⊎◌, inl, inr, ite}
use mathlib.Core.Bool.{Bool, true, false, cond, ◌||◌}
use mathlib.Core.Option.{Option, none, some, none-ne-some, some-ne-none, some-injective}
use mathlib.Core.List.{List, [], ◌∷◌}
use native.Mathlib.Decide.{ℕ_discrete}

infix 1 if◌then◌else◌
abbrev pub if◌then◌else◌ {ℓ} : {A : Type ℓ} → Bool → A → A → A
if b then x else y = cond b x y

abbrev pub ltb : ℕ → ℕ → Bool
ltb a b = elim (compare a b) [ Ordering.lt ↦ true | _ ↦ false ]

abbrev pub leb : ℕ → ℕ → Bool
leb a b = elim (compare a b) [ Ordering.gt ↦ false | _ ↦ true ]

pub Bool-cases : (b : Bool) → (b ≡ true) ⊎ (b ≡ false)
Bool-cases true = inl refl
Bool-cases false = inr refl

pub Option-cases {ℓ} : {A : Type ℓ} (o : Option A) → (o ≡ none) ⊎ ((a : A) × (o ≡ some a))
Option-cases none = inl refl
Option-cases (some a) = inr (a, refl)

pub record Eq {ℓ} (A : Type ℓ) : Type ℓ where
  pub dec : Discrete A

module _ {ℓ} {A : Type ℓ} ⦃e : Eq A⦄ where
  infix 50 ◌==◌
  abbrev pub ◌==◌ : A → A → Bool
  a == b = ite (e.dec a b) true false

  abbrev pub contains : List A → A → Bool
  contains [] a = false
  contains (x ∷ xs) a = a == x || contains xs a

module _ {ℓ} {A : Type ℓ} ⦃e : Eq A⦄ where
  pub eq_of_true : (a b : A) → (a == b) ≡ true → a ≡ b
  eq_of_true a b = elim (e.dec a b) as (λ d. ite d true false ≡ true → a ≡ b) [
    | yes p ↦ λ _. p
    | no n ↦ λ q. cc
  ]

  pub true_of_eq : (a b : A) → a ≡ b → (a == b) ≡ true
  true_of_eq a b h = elim (e.dec a b) as (λ d. ite d true false ≡ true) [
    | yes p ↦ refl
    | no n ↦ absurd (n h)
  ]

instance unfoldable pub nat_eq : Eq ℕ
nat_eq = record { dec = ℕ_discrete }

option_dec {ℓ} : {A : Type ℓ} → Discrete A → Discrete (Option A)
option_dec d none none = yes refl
option_dec d none (some b) = no (none-ne-some b)
option_dec d (some a) none = no (some-ne-none a)
option_dec d (some a) (some b) = elim (d a b) [
  | yes p ↦ yes (ap some p)
  | no n ↦ no (λ p. n (some-injective a b p))
]

instance unfoldable pub option_eq {ℓ} : {A : Type ℓ} ⦃e : Eq A⦄ → Eq (Option A)
unfolding option_dec
option_eq ⦃e⦄ = record { dec = option_dec e.dec }
