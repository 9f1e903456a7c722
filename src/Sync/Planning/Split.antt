-- ===== src/Sync/Planning/Split.antt =====
-- `SplitRemoteSnapshot` puts each file into exactly one of its three parts.
use mathlib.Core.Path.{subst}
use sync_hub_for_agents.Base.{
  ◌≡◌, Bool, true, false, ◌&&◌, none, List, [], ◌∷◌, map, arith, Bool-cases, inl, inr,
}
use sync_hub_for_agents.Base.{◌==◌, contains, if◌then◌else◌, eq_of_true}
use sync_hub_for_agents.Base.Text.{Text, text_eq}
use sync_hub_for_agents.Base.Dict.{Dict, lookup, is_some}
use sync_hub_for_agents.State.{FileMeta, Snapshot}
use sync_hub_for_agents.Resource.Model.{Issue}
use sync_hub_for_agents.Resource.Spec.{Spec}
use sync_hub_for_agents.Resource.Namespace.{PathError}
use sync_hub_for_agents.Sync.Planning.{
  Side, owned_side, untouched_side, blocked_side, RemoteSplit, side_of, add_file,
  split_remote_snapshot,
}

abbrev pub is_owned : Side → Bool
is_owned owned_side = true
is_owned _ = false

abbrev pub is_untouched : Side → Bool
is_untouched untouched_side = true
is_untouched _ = false

abbrev pub is_blocked : Side → Bool
is_blocked (blocked_side _) = true
is_blocked _ = false

abbrev issue_paths : List Issue → List Text
issue_paths issues = map (λ i. i.path) issues

-- Where a path of the remote `s` is found after the split, if it lies on side `d`.
pub record IsSplit (d : Side) (p : Text) (s : Snapshot) (r : RemoteSplit) : Type 0 where
  pub of_owned : lookup p r.owned_files ≡ (if is_owned d then lookup p s else none)
  pub of_untouched : lookup p r.untouched_files ≡ (if is_untouched d then lookup p s else none)
  pub of_blocked :
      contains (issue_paths r.blocked_issues) p ≡ (is_blocked d && is_some (lookup p s))

module _ (to_lower : Text → Text) (is_abs : Text → Bool) (file_to_slash : Text → Text)
    (message_of : PathError → Text) (specs : Dict Text Spec) where
  same_path :
      (d : Side) (p : Text) (m : FileMeta) (s : Snapshot) (r : RemoteSplit)
      → IsSplit d p s r
      → IsSplit d p ((p, m) ∷ s) (add_file to_lower is_abs file_to_slash message_of specs p m d r)
  unfolding lookup
  same_path owned_side p m s r h = record {
    of_owned = ground arith;
    of_untouched = h.of_untouched;
    of_blocked = h.of_blocked;
  }
  same_path untouched_side p m s r h = record {
    of_owned = h.of_owned;
    of_untouched = ground arith;
    of_blocked = h.of_blocked;
  }
  same_path (blocked_side e) p m s r h = record {
    of_owned = h.of_owned;
    of_untouched = h.of_untouched;
    of_blocked = ground arith;
  }

  other_path :
      (c d : Side) (p q : Text) (m : FileMeta) (s : Snapshot) (r : RemoteSplit)
      → (p == q) ≡ false
      → IsSplit d p s r
      → IsSplit d p ((q, m) ∷ s) (add_file to_lower is_abs file_to_slash message_of specs q m c r)
  unfolding lookup
  other_path owned_side d p q m s r n h = record {
    of_owned = rw n h.of_owned;
    of_untouched = rw n h.of_untouched;
    of_blocked = rw n h.of_blocked;
  }
  other_path untouched_side d p q m s r n h = record {
    of_owned = rw n h.of_owned;
    of_untouched = rw n h.of_untouched;
    of_blocked = rw n h.of_blocked;
  }
  other_path (blocked_side e) d p q m s r n h = record {
    of_owned = rw n h.of_owned;
    of_untouched = rw n h.of_untouched;
    of_blocked = rw n h.of_blocked;
  }

  -- Each path of the remote snapshot is in exactly one part of the split, with its record: among the
  -- owned files, the untouched files or the issues, by what its name says; and no part has another.
  pub split_remote_snapshot-IsSplit :
      (s : Snapshot) (p : Text)
      → IsSplit
          (side_of to_lower is_abs file_to_slash message_of specs p)
          p
          s
          (split_remote_snapshot to_lower is_abs file_to_slash message_of specs s)
  unfolding split_remote_snapshot lookup
  split_remote_snapshot-IsSplit [] p = record {
    of_owned = ground arith;
    of_untouched = ground arith;
    of_blocked = ground arith;
  }
  split_remote_snapshot-IsSplit ((q, m) ∷ s) p = elim (Bool-cases (p == q)) [
    | inl e ↦
        subst
          (λ (x : Text).
            IsSplit (side_of to_lower is_abs file_to_slash message_of specs p) p ((x, m) ∷ s) (
              add_file to_lower is_abs file_to_slash message_of specs x m
                (side_of to_lower is_abs file_to_slash message_of specs x)
                (split_remote_snapshot to_lower is_abs file_to_slash message_of specs s)))
          (eq_of_true p q e)
          (same_path (side_of to_lower is_abs file_to_slash message_of specs p) p m s _
            (split_remote_snapshot-IsSplit s p))
    | inr n ↦
        other_path (side_of to_lower is_abs file_to_slash message_of specs q)
          (side_of to_lower is_abs file_to_slash message_of specs p) p q m s _ n
          (split_remote_snapshot-IsSplit s p)
  ]
