-- ===== src/Conflict/Queue.antt =====
-- internal/conflict/resolution.go: `QueueBatch`, and what is shown of conflicts and batches.
pub mod Complete
pub mod Stored
use sync_hub_for_agents.Base.{
  ℕ, ◌≡◌, Bool, true, false, not, ◌&&◌, ◌||◌, Option, none, some, List, [], ◌∷◌, map,
}
use sync_hub_for_agents.Base.{◌==◌, nat_eq, contains, length, if◌then◌else◌}
use sync_hub_for_agents.Base.Text.{Text, text_eq, text_lt, codes}
use sync_hub_for_agents.Base.Result.{Result, ok, err}
use sync_hub_for_agents.Conflict.Model.{
  Record, Bundle, ResolutionSelection, ResolutionBatch, VisibleConflict, Disk, Cause,
  invalid_record, scan_rejected, stale_revision, not_all_selected, duplicate_selection, not_visible,
  content_not_allowed, content_required, unsupported_choice, resolution_active, missing_view,
  choice_local, choice_remote, choice_merged, status_queued, status_applying, is_valid_segment,
  bytes_of,
}
use sync_hub_for_agents.Conflict.Effect.{
  Program, ◌>>=◌, ◌>>◌, return, throw, write, read, attempt, from_result,
}
use sync_hub_for_agents.Conflict.Transaction.{list_visible, accepted}

-- `byID`
unfoldable pub find_visible : Text → List VisibleConflict → Option VisibleConflict
find_visible id [] = none
find_visible id (v ∷ vs) = if id == v.conflict.id then some v else find_visible id vs

unfoldable pub insert_selection :
    ResolutionSelection → List ResolutionSelection → List ResolutionSelection
insert_selection s [] = s ∷ []
insert_selection s (t ∷ ts) = if text_lt t.id s.id then t ∷ insert_selection s ts else s ∷ t ∷ ts

-- `sort.Slice` by id
unfoldable pub sort_selections : List ResolutionSelection → List ResolutionSelection
unfolding insert_selection
sort_selections [] = []
sort_selections (s ∷ ss) = insert_selection s (sort_selections ss)

abbrev pub lift : {A : Type 0} → Result Cause A → Program A
lift r w = (from_result r, w)

module _ (scanner : Option (Record → Text → Text → Bool)) (digest : Bundle → Text) where
  -- The `switch` on the choice
  abbrev pub check_choice : Record → Text → Option Text → Result Cause (Unit {0})
  check_choice r choice content =
      if choice == choice_local || choice == choice_remote
      then (if bytes_of content == [] then ok tt else err content_not_allowed)
      else if choice == choice_merged
      then elim content [
        | none ↦ err content_required
        | some t ↦ if accepted scanner digest r (codes "merged") t then ok tt else err scan_rejected
      ]
      else err unsupported_choice

  -- The body of the loop over the selections
  unfoldable pub check_selection :
      List VisibleConflict → List Text → ResolutionSelection → Result Cause (Unit {0})
  unfolding find_visible is_valid_segment
  check_selection visible seen s =
      if not (is_valid_segment s.id)
      then err invalid_record
      else if contains seen s.id
      then err duplicate_selection
      else elim (find_visible s.id visible) [
        | none ↦ err not_visible
        | some v ↦
            if s.revision == v.revision
            then check_choice v.conflict s.choice s.content
            else err stale_revision
      ]

  unfoldable pub check_selections :
      List VisibleConflict → List Text → List ResolutionSelection → Result Cause (Unit {0})
  unfolding check_selection
  check_selections visible seen [] = ok tt
  check_selections visible seen (s ∷ ss) =
      let rest = check_selections visible (s.id ∷ seen) ss in
      elim (check_selection visible seen s) [ err c ↦ err c | ok _ ↦ rest ]

  module _ (hash : List ResolutionSelection → Text) (now : ℕ) where
    abbrev pub queued_batch : List ResolutionSelection → ResolutionBatch
    queued_batch ordered = record {
      id = hash ordered;
      created_at = now;
      status = status_queued;
      error = none;
      selections = ordered;
    }

    -- The end of `QueueBatch`
    unfoldable pub store_batch : ResolutionBatch → Option ResolutionBatch → Program ResolutionBatch
    store_batch batch (some _) = throw resolution_active
    store_batch batch none = do
      write (λ d. record d { pending = some batch })
      attempt (write (λ d. record d { failed = none }))
      return batch

    -- `QueueBatch`
    unfoldable pub queue_batch : List ResolutionSelection → Program ResolutionBatch
    queue_batch selections = do
      visible ← read (list_visible scanner digest)
      if length selections == length visible then return tt else throw not_all_selected
      lift (check_selections visible [] selections)
      pending ← read (λ d. ok d.pending)
      store_batch (queued_batch (sort_selections selections)) pending

  abbrev pub conflicts_of : Result Cause (List VisibleConflict) → List VisibleConflict
  conflicts_of (err _) = []
  conflicts_of (ok vs) = vs

  abbrev error_of : Result Cause (List VisibleConflict) → Option Cause
  error_of (err c) = some c
  error_of (ok _) = none

  -- The batch is being applied: the view that was published before it
  abbrev published :
      Option (List VisibleConflict)
      → ResolutionBatch
      → List VisibleConflict × Option ResolutionBatch × Option Cause
  published none b = ([], some b, some missing_view)
  published (some vs) b = (vs, some b, none)

  -- `VisibleConflicts`: the conflicts, the batch and the error, from files that stay the same
  -- meanwhile. Reading the failed batch overwrites the error of the listing.
  unfoldable pub visible_conflicts :
      Disk → List VisibleConflict × Option ResolutionBatch × Option Cause
  visible_conflicts d =
      let listed = list_visible scanner digest d in
      elim d.pending [
        | none ↦ (conflicts_of listed, d.failed, none)
        | some b ↦
            if b.status == status_applying
            then published d.view b
            else (conflicts_of listed, some b, error_of listed)
      ]

-- `ResolutionStatus`
unfoldable pub resolution_status : Disk → Option ResolutionBatch
resolution_status d = elim d.pending [ none ↦ d.failed | some b ↦ some b ]
