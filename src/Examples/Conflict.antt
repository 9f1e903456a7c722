-- ===== src/Examples/Conflict.antt =====
-- One conflict, its batch and the repository, with a stop between the journal and the path.
use sync_hub_for_agents.Base.{
  ◌≡◌, refl, ap, Option, none, some, List, [], ◌∷◌, inl, nat_eq, ℕ_discrete,
}
use sync_hub_for_agents.Base.Text.{Text, codes, text_eq, text_lt, has_prefix}
use sync_hub_for_agents.Base.Strings.{is_blank, clean, clean_elements, finish_clean, join, split}
use sync_hub_for_agents.Conflict.Model.{
  Record, Bundle, ResolutionBatch, TransactionJournal, Disk, choice_local, status_queued,
  status_applying, update, is_valid_segment, is_valid_record, is_valid_repo_path, no_dots,
}
use sync_hub_for_agents.Conflict.Effect.{
  Outcome, works, fails, stops, World, Run, ◌>>=◌, read, write, handle, attempt,
}
use sync_hub_for_agents.Conflict.Effect.Rules.{no_failure, After}
use sync_hub_for_agents.Conflict.Effect.Beside.{after_error}
use sync_hub_for_agents.Conflict.Transaction.{
  apply_pending_batch, recover_transactions, apply_batch, apply_queued, list_visible, visible_of,
  insert_visible, read_bundle, read_record, read_variant, apply_selection, apply_selections,
  check_revision, chosen, store_content, remove_bundles, resolve_all, clear_after_commit,
  clear_transaction, fail, rollback_entries, recover_pending, read_journal, recover_with,
}
use sync_hub_for_agents.Conflict.Queue.{queue_batch}
use sync_hub_for_agents.Conflict.Bundles.{stamped, all_accepted, create, resolve_variant}
use sync_hub_for_agents.Conflict.Bundles.Published.{
  IsPublished, IsPartly, IsUnchanged, IsResolved, IsKept, create-IsPublished,
  resolve_variant-IsResolved,
}
use sync_hub_for_agents.Conflict.Queue.Stored.{IsQueued, IsAside, queue_batch-IsQueued}
use sync_hub_for_agents.Conflict.Transaction.Recovery.{recover_transactions-Settled}
use sync_hub_for_agents.Conflict.Transaction.Retried.{recover_with-Recoverable}
use sync_hub_for_agents.Conflict.Transaction.RolledBack.{Recoverable, Settled, Restored}
use sync_hub_for_agents.Conflict.Transaction.Atomic.{target, attempted_batch}
use sync_hub_for_agents.Conflict.Transaction.Restart.{restart, restart-Settled}

abbrev file : Text
file = codes "agents/codex/config/a"

abbrev conflict : Record
conflict = record {
  id = codes "c1";
  resource_key = codes "codex/a";
  repo_rel = file;
  created_at = 7;
}

abbrev bundle : Bundle
bundle = record {
  record_file = conflict;
  base = codes "old";
  local = codes "mine";
  remote = codes "theirs";
}

abbrev batch : ResolutionBatch
batch = record {
  id = codes "b1";
  created_at = 9;
  status = status_queued;
  error = none;
  selections =
      record { id = codes "c1"; revision = codes "r"; choice = choice_local; content = none } ∷ [];
}

abbrev disk : Disk
disk = record {
  repo = update (λ _. none) file (some (codes "theirs"));
  ids = codes "c1" ∷ [];
  local_bundles = update (λ _. none) (codes "c1") (some bundle);
  repo_bundles = update (λ _. none) (codes "c1") (some bundle);
  pending = some batch;
  failed = none;
  view = none;
  journal = none;
}

abbrev revision_of : Bundle → Text
revision_of _ = codes "r"

-- The eleventh operation is the last one.
abbrev up_to_the_path : List Outcome
up_to_the_path =
    works ∷ works ∷ works ∷ works ∷ works ∷ works ∷ works ∷ works ∷ works ∷ works ∷ stops ∷ []

abbrev before : List Outcome → World
before script = record { disk = disk; script = script; entries = [] }

abbrev content_after : {A : Type 0} → Run A × World → Option Text
content_after r = r.1.disk.repo file

applied : content_after (apply_pending_batch none revision_of (before [])) ≡ some (codes "mine")
unfolding apply_pending_batch ◌>>=◌ read write handle attempt apply_batch apply_queued list_visible
    visible_of insert_visible read_bundle read_record read_variant is_valid_segment is_valid_record
    is_valid_repo_path no_dots has_prefix is_blank clean clean_elements finish_clean join split
    text_lt text_eq nat_eq ℕ_discrete update apply_selection apply_selections check_revision chosen
    store_content remove_bundles resolve_all clear_after_commit clear_transaction fail
    rollback_entries
applied = refl

-- The process stops when the journal is written, and the next start restores the path.
stops_then_restores :
    content_after (restart [] (apply_pending_batch none revision_of (before up_to_the_path)))
    ≡ some (codes "theirs")
unfolding apply_pending_batch ◌>>=◌ read write handle attempt apply_batch apply_queued list_visible
    visible_of insert_visible read_bundle read_record read_variant is_valid_segment is_valid_record
    is_valid_repo_path no_dots has_prefix is_blank clean clean_elements finish_clean join split
    text_lt text_eq nat_eq ℕ_discrete update apply_selection apply_selections check_revision chosen
    store_content remove_bundles resolve_all clear_after_commit clear_transaction fail
    rollback_entries restart recover_transactions recover_pending read_journal recover_with
stops_then_restores = refl

-- The tenth operation, which writes the path, fails, and the path is restored.
abbrev path_fails : List Outcome
path_fails = works ∷ works ∷ works ∷ works ∷ works ∷ works ∷ works ∷ works ∷ works ∷ fails ∷ []

fails_and_restores :
    content_after (apply_pending_batch none revision_of (before path_fails)) ≡ some (codes "theirs")
unfolding apply_pending_batch ◌>>=◌ read write handle attempt apply_batch apply_queued list_visible
    visible_of insert_visible read_bundle read_record read_variant is_valid_segment is_valid_record
    is_valid_repo_path no_dots has_prefix is_blank clean clean_elements finish_clean join split
    text_lt text_eq nat_eq ℕ_discrete update apply_selection apply_selections check_revision chosen
    store_content remove_bundles resolve_all clear_after_commit clear_transaction fail
    rollback_entries
fails_and_restores = refl

calm_stop : after_error (attempted_batch none revision_of (before up_to_the_path)) ≡ []
unfolding apply_pending_batch ◌>>=◌ read write handle attempt apply_batch apply_queued list_visible
    visible_of insert_visible read_bundle read_record read_variant is_valid_segment is_valid_record
    is_valid_repo_path no_dots has_prefix is_blank clean clean_elements finish_clean join split
    text_lt text_eq nat_eq ℕ_discrete update apply_selection apply_selections check_revision chosen
    store_content remove_bundles resolve_all clear_after_commit clear_transaction fail
    rollback_entries
calm_stop = refl

restart-Settled_example :
    After
      (λ _ v. Settled disk.repo (target disk) v.disk)
      (λ v. Settled disk.repo (target disk) v.disk)
      (Recoverable disk.repo (target disk))
      (restart [] (apply_pending_batch none revision_of (before up_to_the_path)))
unfolding text_eq nat_eq ℕ_discrete
restart-Settled_example =
    restart-Settled none revision_of (before up_to_the_path) [] (ap no_failure calm_stop) refl refl
      refl

-- The files of a transaction in progress that has written the path.
abbrev interrupted : Disk
interrupted = record disk {
  repo = update (λ _. none) file (some (codes "mine"));
  pending = some (record batch { status = status_applying });
  journal =
      some
        (record { batch_id = codes "b1"; entries = record { path = file; original = none } ∷ [] });
}

interrupted-Recoverable :
    Recoverable
      (update (update (λ _. none) file (some (codes "mine"))) file none)
      (λ _. none)
      interrupted
unfolding text_eq nat_eq ℕ_discrete
interrupted-Recoverable = inl (record { applying = refl; undone = refl })

recover_transactions-Settled_example :
    After
      (λ _ v. Settled (update interrupted.repo file none) (λ _. none) v.disk)
      (λ v. Settled (update interrupted.repo file none) (λ _. none) v.disk)
      (Recoverable (update interrupted.repo file none) (λ _. none))
      (recover_transactions
        (record { disk = interrupted; script = works ∷ stops ∷ []; entries = [] }))
recover_transactions-Settled_example =
    recover_transactions-Settled (update interrupted.repo file none) (λ _. none)
      (record { disk = interrupted; script = works ∷ stops ∷ []; entries = [] }) refl
      interrupted-Recoverable

abbrev idle : Disk
idle = record disk { pending = none }

queue_batch-IsQueued_example :
    After
      (IsQueued (list_visible none revision_of idle) idle)
      (λ v. v.disk ≡ idle)
      (IsAside idle)
      (queue_batch none revision_of
        (λ _. codes "b1")
        9
        batch.selections
        (record { disk = idle; script = works ∷ works ∷ stops ∷ []; entries = [] }))
queue_batch-IsQueued_example =
    queue_batch-IsQueued none revision_of (λ _. codes "b1") 9 batch.selections
      (record { disk = idle; script = works ∷ works ∷ stops ∷ []; entries = [] }) refl

-- The second conflict, without a time.
abbrev second : Bundle
second = record bundle { record_file = record conflict { id = codes "c2"; created_at = 0 } }

-- The second rename fails.
abbrev second_rename_fails : List Outcome
second_rename_fails = works ∷ works ∷ works ∷ works ∷ fails ∷ []

create-IsPublished_example :
    After
      (λ _ v.
        IsPublished
          (stamped 8 second)
          (all_accepted none revision_of (stamped 8 second))
          disk
          v.disk)
      (λ v. IsUnchanged disk v.disk)
      (IsPartly (stamped 8 second) disk)
      (create none revision_of 8 second (before second_rename_fails))
create-IsPublished_example =
    create-IsPublished none revision_of 8 second (before second_rename_fails) refl

-- The canonical file cannot be written.
abbrev write_fails : List Outcome
write_fails = works ∷ works ∷ works ∷ fails ∷ []

resolve_variant-IsResolved_example :
    After
      (λ _ v. IsResolved (codes "c1") choice_local disk v.disk)
      (λ v. IsKept (codes "c1") choice_local disk v.disk)
      (IsKept (codes "c1") choice_local disk)
      (resolve_variant none revision_of (codes "c1") choice_local (before write_fails))
resolve_variant-IsResolved_example =
    resolve_variant-IsResolved none revision_of (codes "c1") choice_local (before write_fails)

abbrev journal_read : TransactionJournal
journal_read = record {
  batch_id = codes "b1";
  entries = record { path = file; original = none } ∷ [];
}

abbrev rollback_fails : World
rollback_fails = record { disk = interrupted; script = fails ∷ []; entries = [] }

recover_with-Recoverable_example :
    After
      (λ _. Restored (update interrupted.repo file none))
      (λ v. Recoverable (update interrupted.repo file none) (λ _. none) v.disk)
      (Recoverable (update interrupted.repo file none) (λ _. none))
      (recover_with (record batch { status = status_applying }) (some journal_read) rollback_fails)
unfolding text_eq nat_eq ℕ_discrete
recover_with-Recoverable_example =
    recover_with-Recoverable (update interrupted.repo file none) (λ _. none)
      (record batch { status = status_applying }) (some journal_read) rollback_fails refl refl refl
