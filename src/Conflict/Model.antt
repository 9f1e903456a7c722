-- ===== src/Conflict/Model.antt =====
-- internal/conflict/store.go and resolution.go: records, bundles, batches and journals, and the
-- files that hold them. What a file holds is the value that its JSON encodes; a bundle that cannot
-- be read or parsed is absent.
use sync_hub_for_agents.Base.{ℕ, Bool, true, not, ◌&&◌, ◌||◌, Option, none, some, List, [], ◌∷◌}
use sync_hub_for_agents.Base.{◌==◌, nat_eq, contains, if◌then◌else◌}
use sync_hub_for_agents.Base.Text.{Text, text_eq, codes, has_prefix}
use sync_hub_for_agents.Base.Strings.{is_blank, slash, backslash, dot, dot_dot, clean, split}

-- A time is a count of nanoseconds from Go's zero time.
pub record Record : Type 0 where
  pub id : Text
  pub resource_key : Text
  pub repo_rel : Text
  pub created_at : ℕ

-- The directory of one conflict.
pub record Bundle : Type 0 where
  pub record_file : Record
  pub base : Text
  pub local : Text
  pub remote : Text

abbrev pub choice_local : Text
choice_local = codes "local"

abbrev pub choice_remote : Text
choice_remote = codes "remote"

abbrev pub choice_merged : Text
choice_merged = codes "merged"

-- `content` is `none` for a nil slice, which is also the empty one.
pub record ResolutionSelection : Type 0 where
  pub id : Text
  pub revision : Text
  pub choice : Text
  pub content : Option Text

abbrev pub bytes_of : Option Text → Text
bytes_of none = []
bytes_of (some t) = t

-- Why an operation failed; Go formats it into the batch.
pub data Cause : Type 0 where
  io_error : Cause
  missing_conflict : Cause
  invalid_record : Cause
  scan_rejected : Cause
  stale_revision : Cause
  missing_variant : Cause
  invalid_status : Cause
  missing_journal : Cause
  interrupted : Cause
  not_all_selected : Cause
  duplicate_selection : Cause
  not_visible : Cause
  content_not_allowed : Cause
  content_required : Cause
  unsupported_choice : Cause
  resolution_active : Cause
  missing_view : Cause
  already_exists : Cause

abbrev pub status_queued : Text
status_queued = codes "queued"

abbrev pub status_applying : Text
status_applying = codes "applying"

abbrev pub status_failed : Text
status_failed = codes "failed"

pub record ResolutionBatch : Type 0 where
  pub id : Text
  pub created_at : ℕ
  pub status : Text
  pub error : Option Cause
  pub selections : List ResolutionSelection

-- `transactionEntry`: what a canonical path held, `none` if it did not exist.
pub record TransactionEntry : Type 0 where
  pub path : Text
  pub original : Option Text

pub record TransactionJournal : Type 0 where
  pub batch_id : Text
  pub entries : List TransactionEntry

pub record VisibleConflict : Type 0 where
  pub conflict : Record
  pub revision : Text

-- The files: the repository by relative path, the bundles of both sides by id, and the metadata.
pub record Disk : Type 0 where
  pub repo : Text → Option Text
  pub ids : List Text
  pub local_bundles : Text → Option Bundle
  pub repo_bundles : Text → Option Bundle
  pub pending : Option ResolutionBatch
  pub failed : Option ResolutionBatch
  pub view : Option (List VisibleConflict)
  pub journal : Option TransactionJournal

-- A file is written or removed.
unfoldable pub update {ℓ} : {A : Type ℓ} → (Text → A) → Text → A → Text → A
update f p v q = if q == p then v else f q

-- `validateSegment`
unfoldable pub is_valid_segment : Text → Bool
is_valid_segment value = not (
    is_blank value
    || ((value == dot || value == dot_dot) || (contains value slash || contains value backslash)))

unfoldable pub no_dots : List Text → Bool
no_dots [] = true
no_dots (p ∷ ps) = not (p == [] || (p == dot || p == dot_dot)) && no_dots ps

-- `validateRepoPath`
unfoldable pub is_valid_repo_path : Text → Bool
unfolding no_dots
is_valid_repo_path value =
    not (
      is_blank value
      || (contains value backslash
          || (has_prefix value (slash ∷ []) || not (clean value == value))))
    && no_dots (split slash value)

-- `validateRecord`
unfoldable pub is_valid_record : Record → Bool
unfolding is_valid_segment is_valid_repo_path
is_valid_record r =
    (is_valid_segment r.id && (not (is_blank r.resource_key) && is_valid_repo_path r.repo_rel))
    && (has_prefix r.repo_rel (codes "agents/")
        && not (has_prefix r.repo_rel (codes "agents/_portable/config/conflicts/")))
