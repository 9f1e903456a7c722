-- ===== src/Base/Text.antt =====
-- Go strings as lists of bytes, with the parts of package `strings` and `sort` that the code uses.
use Prim.Native.Nat.{ℕ}
use Prim.Native.Char.{code}
use Prim.Native.String.{String}
use mathlib.Core.Path.{refl, ap, ap₂}
use mathlib.Core.Bool.{Bool, true, false, ◌&&◌, ◌||◌}
use mathlib.Core.List.{List, [], ◌∷◌}
use native.Mathlib.Decide.{ℕ_discrete}
use sync_hub_for_agents.Base.Tests.{Eq, ◌==◌, nat_eq, ltb}

abbrev pub Text : Type 0
Text = List ℕ

-- The bytes of an ASCII literal.
abbrev pub codes : String → Text
codes String.[] = []
codes (String.◌∷◌ c s) = code c ∷ codes s

abbrev head_of : Text → ℕ → ℕ
head_of [] d = d
head_of (c ∷ _) _ = c

abbrev tail_of : Text → Text
tail_of [] = []
tail_of (_ ∷ s) = s

text_dec : Discrete Text
text_dec [] [] = yes refl
text_dec [] (_ ∷ _) = no (λ p. cc)
text_dec (_ ∷ _) [] = no (λ p. cc)
text_dec (a ∷ s) (b ∷ t) = elim (ℕ_discrete a b) [
  | yes p ↦ elim (text_dec s t) [ yes q ↦ yes (ap₂ ◌∷◌ p q) | no n ↦ no (λ e. n (ap tail_of e)) ]
  | no n ↦ no (λ e. n (ap (λ l. head_of l 0) e))
]

instance unfoldable pub text_eq : Eq Text
unfolding text_dec
text_eq = record { dec = text_dec }

-- `strings.HasPrefix(s, p)`.
unfoldable pub has_prefix : Text → Text → Bool
has_prefix s [] = true
has_prefix [] (_ ∷ _) = false
has_prefix (a ∷ s) (b ∷ p) = a == b && has_prefix s p

-- The bytewise order of Go strings.
unfoldable pub text_lt : Text → Text → Bool
text_lt _ [] = false
text_lt [] (_ ∷ _) = true
text_lt (a ∷ s) (b ∷ t) = ltb a b || (a == b && text_lt s t)
