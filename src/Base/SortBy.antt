-- ===== src/Base/SortBy.antt =====
-- `sort.Slice` by a text of each element.
use mathlib.Core.Bool.{Bool, true, false}
use mathlib.Core.List.{List, [], ◌∷◌}
use native.Mathlib.Omega.{arith}
use mathlib.Core.List.{Memᴰ}
use mathlib.Core.List.Memᴰ.{head, tail}
use sync_hub_for_agents.Base.Tests.{if◌then◌else◌}
use sync_hub_for_agents.Base.Lists.{All}
use sync_hub_for_agents.Base.Text.{Text, text_lt}

module _ {ℓ} {A : Type ℓ} (key_of : A → Text) where
  insert_by : A → List A → List A
  insert_by a [] = a ∷ []
  insert_by a (b ∷ bs) = if text_lt (key_of b) (key_of a) then b ∷ insert_by a bs else a ∷ b ∷ bs

  -- Elements with the same text stay in their order, one of the results that `sort.Slice` allows.
  unfoldable pub sort_by : List A → List A
  unfolding insert_by
  sort_by [] = []
  sort_by (a ∷ rest) = insert_by a (sort_by rest)

  All-insert_by {κ} :
      (P : A → Type κ) (a : A) (bs : List A) → P a → All P bs → All P (insert_by a bs)
  unfolding insert_by
  All-insert_by P a [] p h = (p, tt)
  All-insert_by P a (b ∷ bs) p h = ground (arith, All-insert_by P a bs p h.1)

  pub All-sort_by {κ} : (P : A → Type κ) (xs : List A) → All P xs → All P (sort_by xs)
  unfolding sort_by
  All-sort_by P [] h = tt
  All-sort_by P (a ∷ rest) h = All-insert_by P a (sort_by rest) h.0 (All-sort_by P rest h.1)

  Memᴰ-insert_by :
      (x a : A) (bs : List A)
      → (Memᴰ x (insert_by a bs) → Memᴰ x (a ∷ bs)) × (Memᴰ x (a ∷ bs) → Memᴰ x (insert_by a bs))
  unfolding insert_by
  Memᴰ-insert_by x a [] = (λ h. h, λ h. h)
  Memᴰ-insert_by x a (b ∷ bs) =
      by_test (text_lt (key_of b) (key_of a)) (insert_by a bs) (Memᴰ-insert_by x a bs)
    where
      swap : (a b : A) (bs : List A) → Memᴰ x (a ∷ b ∷ bs) → Memᴰ x (b ∷ a ∷ bs)
      swap a b bs (head e) = tail (head e)
      swap a b bs (tail (head e)) = head e
      swap a b bs (tail (tail h)) = tail (tail h)

      under : {b : A} {xs ys : List A} → (Memᴰ x xs → Memᴰ x ys) → Memᴰ x (b ∷ xs) → Memᴰ x (b ∷ ys)
      under f (head e) = head e
      under f (tail h) = tail (f h)

      by_test :
          (t : Bool) (inserted : List A)
          → (Memᴰ x inserted → Memᴰ x (a ∷ bs)) × (Memᴰ x (a ∷ bs) → Memᴰ x inserted)
          → let r = if t then b ∷ inserted else a ∷ b ∷ bs in
            (Memᴰ x r → Memᴰ x (a ∷ b ∷ bs)) × (Memᴰ x (a ∷ b ∷ bs) → Memᴰ x r)
      by_test true inserted f = (λ h. swap b a bs (under f.0 h), λ h. under f.1 (swap a b bs h))
      by_test false inserted f = (λ h. h, λ h. h)

  -- Sorting keeps the elements.
  pub Memᴰ-sort_by :
      (x : A) (xs : List A) → (Memᴰ x (sort_by xs) → Memᴰ x xs) × (Memᴰ x xs → Memᴰ x (sort_by xs))
  unfolding sort_by
  Memᴰ-sort_by x [] = (λ h. h, λ h. h)
  Memᴰ-sort_by x (a ∷ rest) = (
    λ h. keep (Memᴰ-sort_by x rest).0 ((Memᴰ-insert_by x a (sort_by rest)).0 h),
    λ h. (Memᴰ-insert_by x a (sort_by rest)).1 (keep (Memᴰ-sort_by x rest).1 h),
  )
    where
      keep : {ys zs : List A} → (Memᴰ x ys → Memᴰ x zs) → Memᴰ x (a ∷ ys) → Memᴰ x (a ∷ zs)
      keep f (head e) = head e
      keep f (tail h) = tail (f h)
