-- ===== src/Conflict/Queue/Complete.antt =====
-- `QueueBatch` stores a batch only if it chooses for each visible conflict.
use sync_hub_for_agents.Base.{
  suc, ◌≤◌, ◌≡◌, refl, ap, ◌∙◌, Bool, true, false, not, ◌&&◌, ◌||◌, Option, none, some, List, [],
  ◌∷◌, map, arith, Bool-cases, inl, inr,
}
use sync_hub_for_agents.Base.{◌==◌, nat_eq, contains, length, if◌then◌else◌, true_of_eq}
use sync_hub_for_agents.Base.Text.{Text, text_eq}
use sync_hub_for_agents.Base.Result.{Result, ok, err}
use sync_hub_for_agents.Conflict.Model.{Record, Bundle, ResolutionSelection, VisibleConflict, Cause}
use sync_hub_for_agents.Conflict.Queue.{
  find_visible, insert_selection, sort_selections, check_selection, check_selections,
}

abbrev ids : List ResolutionSelection → List Text
ids ss = map (λ s. s.id) ss

abbrev visible_ids : List VisibleConflict → List Text
visible_ids vs = map (λ v. v.conflict.id) vs

-- The first occurrence is removed.
remove : Text → List Text → List Text
remove x [] = []
remove x (y ∷ ys) = if x == y then ys else y ∷ remove x ys

length-remove :
    (x : Text) (ys : List Text) → contains ys x ≡ true → suc (length (remove x ys)) ≡ length ys
unfolding remove
length-remove x [] h = cc
length-remove x (y ∷ ys) h = ground (arith, length-remove x ys)

contains-remove :
    (e x : Text) (ys : List Text) → (e == x) ≡ false → contains (remove x ys) e ≡ contains ys e
unfolding remove
contains-remove e x [] h = refl
contains-remove e x (y ∷ ys) h = ground (arith, contains-remove e x ys h)

-- No element stands twice, or in `seen`.
abbrev fresh : List Text → List Text → Bool
fresh seen [] = true
fresh seen (x ∷ xs) = not (contains seen x) && fresh (x ∷ seen) xs

abbrev subset : List Text → List Text → Bool
subset [] ys = true
subset (x ∷ xs) ys = contains ys x && subset xs ys

fresh-avoids :
    (seen xs : List Text) (x : Text)
    → fresh seen xs ≡ true
    → contains seen x ≡ true
    → contains xs x ≡ false
fresh-avoids seen [] x h c = refl
fresh-avoids seen (y ∷ xs) x h c = ground (arith, fresh-avoids (y ∷ seen) xs x)

subset-remove :
    (x : Text) (xs ys : List Text)
    → contains xs x ≡ false
    → subset xs ys ≡ true
    → subset xs (remove x ys) ≡ true
subset-remove x [] ys c h = refl
subset-remove x (e ∷ xs) ys c h = ground (arith, contains-remove e x ys, subset-remove x xs ys)

-- A list without repetition, within another that is not longer, has all of its elements.
pigeonhole :
    (seen xs ys : List Text) (y : Text)
    → fresh seen xs ≡ true
    → subset xs ys ≡ true
    → length ys ≤ length xs
    → contains ys y ≡ true
    → contains xs y ≡ true
pigeonhole seen [] [] y f s n h = h
pigeonhole seen [] (_ ∷ _) y f s n h = absurd (omega arith)
pigeonhole seen (x ∷ xs) ys y f s n h = elim (Bool-cases (y == x)) [
  | inl q ↦ rw q refl
  | inr q ↦
      let listed : contains ys x ≡ true = ground arith in
      let others : fresh (x ∷ seen) xs ≡ true = ground arith in
      let within : subset xs ys ≡ true = ground arith in
      let once : contains xs x ≡ false =
        fresh-avoids (x ∷ seen) xs x others (ground (arith, true_of_eq x x refl)) in
      rw q (
        pigeonhole (x ∷ seen) xs (remove x ys) y others (subset-remove x xs ys once within)
          (omega (arith, length-remove x ys listed, n)) (contains-remove y x ys q ∙ h))
]

-- A selection is of a visible conflict, at the revision that is visible.
abbrev pub is_current : List VisibleConflict → ResolutionSelection → Bool
is_current vs s = elim (find_visible s.id vs) [ none ↦ false | some v ↦ s.revision == v.revision ]

abbrev pub all_current : List VisibleConflict → List ResolutionSelection → Bool
all_current vs [] = true
all_current vs (s ∷ ss) = is_current vs s && all_current vs ss

-- Each visible conflict is selected.
abbrev pub all_selected : List ResolutionSelection → List VisibleConflict → Bool
all_selected ss [] = true
all_selected ss (v ∷ vs) = contains (ids ss) v.conflict.id && all_selected ss vs

find_visible-listed :
    (vs : List VisibleConflict) (s : ResolutionSelection)
    → is_current vs s ≡ true
    → contains (visible_ids vs) s.id ≡ true
unfolding find_visible
find_visible-listed [] s h = cc
find_visible-listed (v ∷ vs) s h = ground (arith, find_visible-listed vs s)

subset_of_current :
    (vs : List VisibleConflict) (ss : List ResolutionSelection)
    → all_current vs ss ≡ true
    → subset (ids ss) (visible_ids vs) ≡ true
subset_of_current vs [] h = refl
subset_of_current vs (s ∷ ss) h = ground (arith, find_visible-listed vs s, subset_of_current vs ss)

all_selected_by :
    (ss : List ResolutionSelection) (vs : List VisibleConflict)
    → ((x : Text) → contains (visible_ids vs) x ≡ true → contains (ids ss) x ≡ true)
    → all_selected ss vs ≡ true
all_selected_by ss [] h = refl
all_selected_by ss (v ∷ vs) h = ground (
  arith,
  h v.conflict.id (ground (arith, true_of_eq v.conflict.id v.conflict.id refl)),
  all_selected_by ss vs (λ x c. h x (ground arith)),
)

both_ok :
    (r rest : Result Cause (Unit {0}))
    → (elim r [ err c ↦ err c | ok _ ↦ rest ]) ≡ ok tt
    → (r ≡ ok tt) × (rest ≡ ok tt)
both_ok (ok tt) rest h = (refl, h)
both_ok (err c) rest h = absurd cc

all_current-insert_selection :
    (vs : List VisibleConflict) (s : ResolutionSelection) (ss : List ResolutionSelection)
    → all_current vs (insert_selection s ss) ≡ (is_current vs s && all_current vs ss)
unfolding insert_selection
all_current-insert_selection vs s [] = refl
all_current-insert_selection vs s (t ∷ ts) = ground (arith, all_current-insert_selection vs s ts)

pub all_current-sort_selections :
    (vs : List VisibleConflict) (ss : List ResolutionSelection)
    → all_current vs (sort_selections ss) ≡ all_current vs ss
unfolding sort_selections
all_current-sort_selections vs [] = refl
all_current-sort_selections vs (s ∷ ss) =
    all_current-insert_selection vs s (sort_selections ss)
    ∙ ap (λ b. is_current vs s && b) (all_current-sort_selections vs ss)

contains-insert_selection :
    (x : Text) (s : ResolutionSelection) (ss : List ResolutionSelection)
    → contains (ids (insert_selection s ss)) x ≡ (x == s.id || contains (ids ss) x)
unfolding insert_selection
contains-insert_selection x s [] = refl
contains-insert_selection x s (t ∷ ts) = ground (arith, contains-insert_selection x s ts)

contains-sort_selections :
    (x : Text) (ss : List ResolutionSelection)
    → contains (ids (sort_selections ss)) x ≡ contains (ids ss) x
unfolding sort_selections
contains-sort_selections x [] = refl
contains-sort_selections x (s ∷ ss) =
    contains-insert_selection x s (sort_selections ss)
    ∙ ap (λ b. x == s.id || b) (contains-sort_selections x ss)

length-ids : (ss : List ResolutionSelection) → length (ids ss) ≡ length ss
length-ids [] = refl
length-ids (s ∷ ss) = ap suc (length-ids ss)

length-visible_ids : (vs : List VisibleConflict) → length (visible_ids vs) ≡ length vs
length-visible_ids [] = refl
length-visible_ids (v ∷ vs) = ap suc (length-visible_ids vs)

module _ (scanner : Option (Record → Text → Text → Bool)) (digest : Bundle → Text) where
  check_selection-current :
      (vs : List VisibleConflict) (seen : List Text) (s : ResolutionSelection)
      → check_selection scanner digest vs seen s ≡ ok tt
      → (is_current vs s && not (contains seen s.id)) ≡ true
  unfolding check_selection
  check_selection-current vs seen s h = ground arith

  pub check_selections-current :
      (vs : List VisibleConflict) (seen : List Text) (ss : List ResolutionSelection)
      → check_selections scanner digest vs seen ss ≡ ok tt
      → (all_current vs ss && fresh seen (ids ss)) ≡ true
  unfolding check_selections
  check_selections-current vs seen [] h = refl
  check_selections-current vs seen (s ∷ ss) h =
      let (first, rest) = both_ok (check_selection scanner digest vs seen s) _ h in
      ground (
        arith,
        check_selection-current vs seen s first,
        check_selections-current vs (s.id ∷ seen) ss rest,
      )

  pub checked_selected :
      (vs : List VisibleConflict) (ss : List ResolutionSelection)
      → length ss ≡ length vs
      → check_selections scanner digest vs [] ss ≡ ok tt
      → all_selected (sort_selections ss) vs ≡ true
  checked_selected vs ss n h =
      let checked = check_selections-current vs [] ss h in
      let current : all_current vs ss ≡ true = ground arith in
      let distinct : fresh [] (ids ss) ≡ true = ground arith in
      all_selected_by (sort_selections ss) vs (λ x listed.
        contains-sort_selections x ss
        ∙ pigeonhole [] (ids ss) (visible_ids vs) x distinct (subset_of_current vs ss current)
            (omega (arith, length-ids ss, length-visible_ids vs, n)) listed)
