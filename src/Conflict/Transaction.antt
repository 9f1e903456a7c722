-- ===== src/Conflict/Transaction.antt =====
-- internal/conflict/resolution.go: `ApplyPendingBatch`, `RecoverTransactions` and what they use.
pub mod Undo
pub mod Apply
pub mod Atomic
pub mod RolledBack
pub mod Restart
pub mod Recovery
pub mod Retried
use sync_hub_for_agents.Base.{
  ◌≡◌, Bool, true, false, not, ◌&&◌, ◌||◌, Option, none, some, List, [], ◌∷◌, ◌++◌, reverse, map,
}
use sync_hub_for_agents.Base.{◌==◌, nat_eq, ltb, if◌then◌else◌}
use sync_hub_for_agents.Base.Text.{Text, text_eq, text_lt, has_prefix, codes}
use sync_hub_for_agents.Base.Result.{Result, ok, err}
use sync_hub_for_agents.Conflict.Model.{
  Record, Bundle, ResolutionSelection, ResolutionBatch, TransactionEntry, TransactionJournal,
  VisibleConflict, Disk, Cause, io_error, missing_conflict, invalid_record, scan_rejected,
  stale_revision, missing_variant, invalid_status, missing_journal, interrupted, choice_local,
  choice_remote, choice_merged, status_queued, status_applying, status_failed, update,
  is_valid_segment, is_valid_record, bytes_of,
}
use sync_hub_for_agents.Conflict.Effect.{
  Program, ◌>>=◌, ◌>>◌, return, throw, write, read, set_entries, get_entries, attempt, handle,
}

-- `rollbackEntries`, given the entries from the last to the first: each one is tried, and `false`
-- says that one failed.
unfoldable pub rollback_entries : List TransactionEntry → Program Bool
rollback_entries [] = return true
rollback_entries (e ∷ es) = do
  undone ← attempt (write (λ d. record d { repo = update d.repo e.path e.original }))
  others ← rollback_entries es
  return (undone && others)

-- `clearResolutionMetadata` for the three files of a transaction in progress
unfoldable pub clear_transaction : Program Bool
clear_transaction = do
  pending_gone ← attempt (write (λ d. record d { pending = none }))
  view_gone ← attempt (write (λ d. record d { view = none }))
  journal_gone ← attempt (write (λ d. record d { journal = none }))
  return (pending_gone && (view_gone && journal_gone))

abbrev pub failed_batch : ResolutionBatch → Cause → ResolutionBatch
failed_batch b cause = record b { status = status_failed; error = some cause }

-- The closure `fail` of `ApplyPendingBatch`
unfoldable pub fail : {A : Type 0} → ResolutionBatch → Cause → Program A
fail batch cause = do
  entries ← get_entries
  rollback_entries (reverse entries)
  attempt (write (λ d. record d { failed = some (failed_batch batch cause) }))
  clear_transaction
  throw cause

-- The second loop of `ApplyPendingBatch`
unfoldable pub remove_bundles : List ResolutionSelection → Program (Unit {0})
remove_bundles [] = return tt
remove_bundles (s ∷ ss) = do
  write (λ d. record d { local_bundles = update d.local_bundles s.id none })
  write (λ d. record d { repo_bundles = update d.repo_bundles s.id none })
  remove_bundles ss

-- Its last call of `clearResolutionMetadata`
unfoldable pub clear_after_commit : Program Bool
clear_after_commit = do
  failed_gone ← attempt (write (λ d. record d { failed = none }))
  view_gone ← attempt (write (λ d. record d { view = none }))
  journal_gone ← attempt (write (λ d. record d { journal = none }))
  return (failed_gone && (view_gone && journal_gone))

-- `AppliedResolution`
pub record AppliedResolution : Type 0 where
  pub applied : Record
  pub choice : Text

-- The order of `listUnlocked`
abbrev before : VisibleConflict → VisibleConflict → Bool
before a b =
    if a.conflict.created_at == b.conflict.created_at
    then text_lt a.conflict.id b.conflict.id
    else ltb a.conflict.created_at b.conflict.created_at

unfoldable pub insert_visible : VisibleConflict → List VisibleConflict → List VisibleConflict
insert_visible v [] = v ∷ []
insert_visible v (w ∷ ws) = if before w v then w ∷ insert_visible v ws else v ∷ w ∷ ws

abbrev is_absent : Option Bundle → Bool
is_absent none = true
is_absent (some _) = false

-- The file of a variant in a bundle's directory
abbrev pub variant_of : Bundle → Text → Option Text
variant_of b choice =
    if choice == choice_local
    then some b.local
    else if choice == choice_remote
    then some b.remote
    else if choice == codes "base"
    then some b.base
    else none

-- The scanner, if there is one, accepts or rejects; `digest` is the hash of a bundle's record and
-- variants.
module _ (scanner : Option (Record → Text → Text → Bool)) (digest : Bundle → Text) where
  abbrev pub accepted : Record → Text → Text → Bool
  accepted r variant content = elim scanner [ none ↦ true | some scan ↦ scan r variant content ]

  -- `readRecord`
  unfoldable pub read_record : Text → Disk → Result Cause Record
  read_record id d =
      if is_valid_segment id
      then elim (d.local_bundles id) [
        | none ↦ err missing_conflict
        | some b ↦
            if is_valid_record b.record_file && b.record_file.id == id
            then ok b.record_file
            else err invalid_record
      ]
      else err invalid_record

  -- `readBundle` of the local side
  unfoldable pub read_bundle : Text → Disk → Result Cause Bundle
  read_bundle id d =
      if is_valid_segment id
      then elim (d.local_bundles id) [
        | none ↦ err missing_conflict
        | some b ↦
            if is_valid_record b.record_file && b.record_file.id == id
            then (if accepted b.record_file (codes "base") b.base
                  && (accepted b.record_file (codes "local") b.local
                      && accepted b.record_file (codes "remote") b.remote)
                then ok b
                else err scan_rejected)
            else err invalid_record
      ]
      else err invalid_record

  -- `revisionUnlocked`, held against the revision that was selected
  unfoldable pub check_revision : ResolutionSelection → Disk → Result Cause (Unit {0})
  unfolding read_bundle
  check_revision s d = elim (read_bundle s.id d) [
    | err c ↦ err c
    | ok b ↦ if digest b == s.revision then ok tt else err stale_revision
  ]

  unfoldable pub read_variant : Text → Text → Disk → Result Cause Text
  read_variant id choice d = elim (d.local_bundles id) [
    | none ↦ err missing_variant
    | some b ↦ elim (variant_of b choice) [ none ↦ err missing_variant | some content ↦ ok content ]
  ]

  -- The chosen content
  unfoldable pub chosen : ResolutionSelection → Program Text
  chosen s =
      if s.choice == choice_merged
      then return (bytes_of s.content)
      else read (read_variant s.id s.choice)

  -- The end of the first loop's body: the journal, and then the path
  unfoldable pub store_content :
      ResolutionBatch → ResolutionSelection → Record → Text → Program AppliedResolution
  store_content batch s found content = do
    original ← read (λ d. ok (d.repo found.repo_rel))
    entries ← get_entries
    let grown = entries ++ (record { path = found.repo_rel; original = original } ∷ [])
    set_entries grown
    write (λ d. record d { journal = some (record { batch_id = batch.id; entries = grown }) })
    write (λ d. record d { repo = update d.repo found.repo_rel (some content) })
    return (record { applied = found; choice = s.choice })

  -- The body of the first loop of `ApplyPendingBatch`
  unfoldable pub apply_selection : ResolutionBatch → ResolutionSelection → Program AppliedResolution
  apply_selection batch s = do
    found ← read (read_record s.id)
    read (check_revision s)
    content ← chosen s
    if accepted found s.choice content then return tt else throw scan_rejected
    store_content batch s found content

  unfoldable pub apply_selections :
      ResolutionBatch → List ResolutionSelection → Program (List AppliedResolution)
  apply_selections batch [] = return []
  apply_selections batch (s ∷ ss) = do
    first ← apply_selection batch s
    rest ← apply_selections batch ss
    return (first ∷ rest)

  -- The visible conflicts, by the time of their creation and then by id: `listVisibleUnlocked`
  unfoldable pub visible_of : List Text → Disk → Result Cause (List VisibleConflict)
  visible_of [] d = ok []
  visible_of (id ∷ ids) d =
      let rest = visible_of ids d in
      if has_prefix id (codes ".tmp-") || is_absent (d.local_bundles id)
      then rest
      else elim (read_bundle id d) [
        | err c ↦ err c
        | ok b ↦ elim rest [
          | err c ↦ err c
          | ok others ↦
              ok (insert_visible (record { conflict = b.record_file; revision = digest b }) others)
        ]
      ]

  unfoldable pub list_visible : Disk → Result Cause (List VisibleConflict)
  unfolding visible_of
  list_visible d = visible_of d.ids d

  -- From the mark `applying` to the commit by the removal of the pending batch
  unfoldable pub resolve_all : ResolutionBatch → Program (List AppliedResolution)
  resolve_all batch = do
    applied ← apply_selections batch batch.selections
    remove_bundles batch.selections
    write (λ d. record d { pending = none })
    return applied

  -- A batch that is queued, from the applying view to the end: after the commit the resolutions are
  -- returned though the last files may stay, which `false` says.
  unfoldable pub apply_queued : ResolutionBatch → Program (List AppliedResolution × Bool)
  apply_queued b = do
    view ← read list_visible
    write (λ d. record d { view = some view })
    let batch = record b { status = status_applying }
    write (λ d. record d { pending = some batch })
    set_entries []
    applied ← handle (resolve_all batch) (fail batch)
    cleared ← clear_after_commit
    return (applied, cleared)

  unfoldable pub apply_batch : ResolutionBatch → Program (List AppliedResolution × Bool)
  apply_batch b = if b.status == status_queued then apply_queued b else throw invalid_status

  abbrev pub apply_found : Option ResolutionBatch → Program (List AppliedResolution × Bool)
  apply_found none = return ([], true)
  apply_found (some b) = apply_batch b

  -- `ApplyPendingBatch`
  unfoldable pub apply_pending_batch : Program (List AppliedResolution × Bool)
  apply_pending_batch = read (λ d. ok d.pending) >>= apply_found

-- After the journal of an interrupted batch was read, if it could be.
unfoldable pub recover_with : ResolutionBatch → Option TransactionJournal → Program (Unit {0})
recover_with batch none = do
  attempt (write (λ d. record d { failed = some (failed_batch batch missing_journal) }))
  clear_transaction
  throw missing_journal
recover_with batch (some j) = do
  undone ← rollback_entries (reverse j.entries)
  if undone then return tt else throw io_error
  write (λ d. record d { failed = some (failed_batch batch interrupted) })
  cleared ← clear_transaction
  if cleared then return tt else throw io_error

-- A file that is missing and one that cannot be read are the same here.
unfoldable pub read_journal : Program (Option TransactionJournal)
read_journal = handle (read (λ d. ok d.journal)) (λ _. return none)

-- `RecoverTransactions`, after the pending batch was read.
unfoldable pub recover_pending : Option ResolutionBatch → Program (Unit {0})
recover_pending none = return tt
recover_pending (some batch) =
    if batch.status == status_applying then read_journal >>= recover_with batch else return tt

-- `RecoverTransactions`
unfoldable pub recover_transactions : Program (Unit {0})
recover_transactions = read (λ d. ok d.pending) >>= recover_pending
