-- ===== src/Base/Sort.antt =====
-- `sort.Strings` of the Go library, and sets of strings as lists without repetition.
use mathlib.Core.Path.{◌≡◌, refl, ◌∙◌}
use mathlib.Core.Logic.{◌≢◌, ◌⊎◌, inl, inr}
use mathlib.Core.Bool.{true, false, ◌||◌}
use mathlib.Core.List.{List, [], ◌∷◌}
use native.Mathlib.Omega.{arith}
use sync_hub_for_agents.Base.Tests.{◌==◌, nat_eq, contains, if◌then◌else◌}
use sync_hub_for_agents.Base.Lists.{All}
use sync_hub_for_agents.Base.Text.{Text, text_eq, text_lt}

pub text_lt_irrefl : (s : Text) → text_lt s s ≡ false
unfolding text_lt
text_lt_irrefl [] = refl
text_lt_irrefl (a ∷ s) = ground (arith, text_lt_irrefl s)

pub text_lt_trans : (s t u : Text) → text_lt s t ≡ true → text_lt t u ≡ true → text_lt s u ≡ true
unfolding text_lt
text_lt_trans s t [] p q = cc
text_lt_trans s [] (c ∷ u) p q = cc
text_lt_trans [] (b ∷ t) (c ∷ u) p q = refl
text_lt_trans (a ∷ s) (b ∷ t) (c ∷ u) p q = ground (arith, text_lt_trans s t u)

pub text_lt_total : (s t : Text) → s ≢ t → (text_lt s t ≡ true) ⊎ (text_lt t s ≡ true)
unfolding text_lt
text_lt_total [] [] h = absurd (h refl)
text_lt_total [] (b ∷ t) h = inl refl
text_lt_total (a ∷ s) [] h = inr refl
text_lt_total (a ∷ s) (b ∷ t) h = ground (arith, text_lt_total s t)

-- The set `ks` with `k` in it.
unfoldable pub add_key : Text → List Text → List Text
add_key k ks = if contains ks k then ks else k ∷ ks

abbrev pub DistinctKeys : List Text → Type 0
DistinctKeys [] = Unit
DistinctKeys (k ∷ ks) = (contains ks k ≡ false) × DistinctKeys ks

pub add_key-DistinctKeys :
    (k : Text) (ks : List Text) → DistinctKeys ks → DistinctKeys (add_key k ks)
unfolding add_key
add_key-DistinctKeys k ks d = ground arith

pub contains-add_key :
    (j k : Text) (ks : List Text) → contains (add_key k ks) j ≡ (j == k || contains ks j)
unfolding add_key
contains-add_key j k ks = ground arith

insert_sorted : Text → List Text → List Text
insert_sorted k [] = k ∷ []
insert_sorted k (j ∷ js) = if text_lt k j then k ∷ j ∷ js else j ∷ insert_sorted k js

unfoldable pub sort_strings : List Text → List Text
unfolding insert_sorted
sort_strings [] = []
sort_strings (k ∷ ks) = insert_sorted k (sort_strings ks)

contains-insert_sorted :
    (j k : Text) (ks : List Text) → contains (insert_sorted k ks) j ≡ (j == k || contains ks j)
unfolding insert_sorted
contains-insert_sorted j k [] = refl
contains-insert_sorted j k (i ∷ ks) = ground (arith, contains-insert_sorted j k ks)

pub contains-sort_strings :
    (j : Text) (ks : List Text) → contains (sort_strings ks) j ≡ contains ks j
unfolding sort_strings
contains-sort_strings j [] = refl
contains-sort_strings j (k ∷ ks) =
    ground (arith, contains-insert_sorted j k (sort_strings ks), contains-sort_strings j ks)

abbrev pub Ascending : List Text → Type 0
Ascending [] = Unit
Ascending (k ∷ ks) = All (λ j. text_lt k j ≡ true) ks × Ascending ks

All-insert_sorted :
    (i k : Text) (ks : List Text)
    → text_lt i k ≡ true
    → All (λ j. text_lt i j ≡ true) ks
    → All (λ j. text_lt i j ≡ true) (insert_sorted k ks)
unfolding insert_sorted
All-insert_sorted i k [] p a = (p, tt)
All-insert_sorted i k (j ∷ ks) p a = ground (arith, All-insert_sorted i k ks p a.1)

All-text_lt_trans :
    (i k : Text) (ks : List Text)
    → text_lt i k ≡ true
    → All (λ j. text_lt k j ≡ true) ks
    → All (λ j. text_lt i j ≡ true) ks
All-text_lt_trans i k [] p a = tt
All-text_lt_trans i k (j ∷ ks) p a = (text_lt_trans i k j p a.0, All-text_lt_trans i k ks p a.1)

insert_sorted-Ascending :
    (k : Text) (ks : List Text)
    → contains ks k ≡ false
    → Ascending ks
    → Ascending (insert_sorted k ks)
unfolding insert_sorted
insert_sorted-Ascending k [] c a = (tt, tt)
insert_sorted-Ascending k (j ∷ ks) c a = ground (
  arith,
  text_lt_total k j,
  All-insert_sorted j k ks,
  All-text_lt_trans k j ks,
  insert_sorted-Ascending k ks,
)

-- Of distinct strings the sorted list ascends strictly.
pub sort_strings-Ascending : (ks : List Text) → DistinctKeys ks → Ascending (sort_strings ks)
unfolding sort_strings
sort_strings-Ascending [] d = tt
sort_strings-Ascending (k ∷ ks) d =
    insert_sorted-Ascending k (sort_strings ks) (contains-sort_strings k ks ∙ d.0)
      (sort_strings-Ascending ks d.1)

-- A bound from below of an ascending list is none of its elements.
pub not_contains_of_lt :
    (k : Text) (ks : List Text) → All (λ j. text_lt k j ≡ true) ks → contains ks k ≡ false
not_contains_of_lt k [] a = refl
not_contains_of_lt k (j ∷ ks) a = ground (arith, not_contains_of_lt k ks a.1, text_lt_irrefl j)

pub Ascending-DistinctKeys : (ks : List Text) → Ascending ks → DistinctKeys ks
Ascending-DistinctKeys [] a = tt
Ascending-DistinctKeys (k ∷ ks) a = (not_contains_of_lt k ks a.0, Ascending-DistinctKeys ks a.1)
