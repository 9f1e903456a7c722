-- ===== src/Conflict/Bundles.antt =====
-- internal/conflict/store.go: `Create`, `Resolve` and `ResolveVariant`. A directory that is written
-- under a temporary name and never renamed is not seen by any other operation; its writing may fail.
pub mod Published
use sync_hub_for_agents.Base.{
  ℕ, ◌≡◌, Bool, true, false, not, ◌&&◌, ◌||◌, Option, none, some, List, [], ◌∷◌,
}
use sync_hub_for_agents.Base.{◌==◌, nat_eq, if◌then◌else◌}
use sync_hub_for_agents.Base.Text.{Text, text_eq, codes}
use sync_hub_for_agents.Base.Sort.{add_key}
use sync_hub_for_agents.Base.Result.{Result, ok, err}
use sync_hub_for_agents.Base.Dict.{is_some}
use sync_hub_for_agents.Conflict.Model.{
  Record, Bundle, Disk, Cause, io_error, invalid_record, scan_rejected, unsupported_choice,
  already_exists, choice_local, choice_remote, update, is_valid_segment, is_valid_record,
}
use sync_hub_for_agents.Conflict.Effect.{
  Program, ◌>>=◌, ◌>>◌, return, throw, write, read, attempt, handle,
}
use sync_hub_for_agents.Conflict.Transaction.{accepted, read_record, read_variant}

-- `writeTempBundle`, with what is left of it afterwards
abbrev pub write_temp_bundle : Program (Unit {0})
write_temp_bundle = write (λ d. d)

-- `os.Rename` to the final name
abbrev pub publish_local : Bundle → Disk → Disk
publish_local b d = record d {
  ids = add_key b.record_file.id d.ids;
  local_bundles = update d.local_bundles b.record_file.id (some b);
}

abbrev pub publish_repo : Bundle → Disk → Disk
publish_repo b d = record d { repo_bundles = update d.repo_bundles b.record_file.id (some b) }

-- The renames, the first of which is undone if the second fails
unfoldable pub publish : Bundle → Program (Unit {0})
publish b = do
  write_temp_bundle
  write_temp_bundle
  write (publish_local b)
  handle (write (publish_repo b)) (λ cause. do
    attempt (write (λ d. record d { local_bundles = update d.local_bundles b.record_file.id none }))
    throw cause)

-- The two removals of `resolveUnlocked`
unfoldable pub remove_bundle : Text → Program (Unit {0})
remove_bundle id = do
  local_gone ← attempt (write (λ d. record d { local_bundles = update d.local_bundles id none }))
  repo_gone ← attempt (write (λ d. record d { repo_bundles = update d.repo_bundles id none }))
  if local_gone && repo_gone then return tt else throw io_error

-- A zero time is replaced by the present.
abbrev pub stamped : ℕ → Bundle → Bundle
stamped now b = record b {
  record_file = record (b.record_file) {
    created_at = if b.record_file.created_at == 0 then now else b.record_file.created_at;
  };
}

abbrev pub is_free : Text → Disk → Bool
is_free id d = not (is_some (d.local_bundles id)) && not (is_some (d.repo_bundles id))

module _ (scanner : Option (Record → Text → Text → Bool)) (digest : Bundle → Text) where
  abbrev pub all_accepted : Bundle → Bool
  all_accepted b =
      accepted scanner digest b.record_file (codes "base") b.base
      && (accepted scanner digest b.record_file (codes "local") b.local
          && accepted scanner digest b.record_file (codes "remote") b.remote)

  -- `Create` of a bundle with its time
  unfoldable pub create_stamped : Bundle → Program (Unit {0})
  create_stamped b = do
    if is_valid_record b.record_file then return tt else throw invalid_record
    if all_accepted b then return tt else throw scan_rejected
    read (λ d. if is_free b.record_file.id d then ok tt else err already_exists)
    publish b

  -- `Create`
  unfoldable pub create : ℕ → Bundle → Program (Unit {0})
  unfolding create_stamped
  create now b = create_stamped (stamped now b)

  -- `Resolve`
  unfoldable pub resolve : Text → Text → Program (Unit {0})
  resolve id merged = do
    found ← read (read_record scanner digest id)
    if accepted scanner digest found (codes "merged") merged then return tt else throw scan_rejected
    write (λ d. record d { repo = update d.repo found.repo_rel (some merged) })
    remove_bundle id

  -- `ResolveVariant`
  unfoldable pub resolve_variant : Text → Text → Program (Unit {0})
  resolve_variant id variant =
      if variant == choice_local || variant == choice_remote
      then (do
        read (read_record scanner digest id)
        content ← read (read_variant scanner digest id variant)
        resolve id content)
      else throw unsupported_choice
