-- ===== src/Merge/Structured.antt =====
-- `Structured` and `Binary` of internal/portablemerge/merge.go. Go walks the keys of a map in a random
-- order, here they are walked in ascending order. Parsing and printing
-- are parameters, since they belong to other packages.
use sync_hub_for_agents.Base.{ℕ, zero, suc, not, ◌||◌, Option, none, some, List, [], ◌∷◌}
use sync_hub_for_agents.Base.{◌==◌, nat_eq, option_eq, if◌then◌else◌}
use sync_hub_for_agents.Base.Text.{Text, text_eq}
use sync_hub_for_agents.Base.Result.{Result, ok, err, ◌>>=◌}
use sync_hub_for_agents.Base.Sort.{sort_strings}
use sync_hub_for_agents.Merge.Document.{
  Json, object, Members, no_members, member, json_eq, find, keys_of, depth_members,
}

-- `out_of_fuel` stands for no result of the code.
pub data Merge {ℓ} (A : Type ℓ) : Type ℓ where
  merged : A → Merge A
  conflict : Merge A
  out_of_fuel : Merge A

-- `append(out, key, value)` for the value of a node
abbrev pub put : Text → Option Json → Members → Members
put k none m = m
put k (some v) m = member k v m

abbrev pub and_then {ℓ κ} : {A : Type ℓ} {B : Type κ} → Merge A → (A → Merge B) → Merge B
and_then (merged a) k = k a
and_then conflict k = conflict
and_then out_of_fuel k = out_of_fuel

-- `value.(map[string]any)` of a node
abbrev pub as_map : Option Json → Option Members
as_map (some (object m)) = some m
as_map _ = none

-- `baseMap`, which is empty for a node that is not present
abbrev pub base_map : Option Json → Option Members
base_map none = some no_members
base_map (some v) = as_map (some v)

-- A node is `none` if it is not present. The merge of maps is handed in.
module _ (merge_within : Members → Members → Members → Merge Members) where
  abbrev pub merge_objects : Option Members → Option Members → Option Members → Merge (Option Json)
  merge_objects (some b) (some l) (some r) =
      and_then (merge_within b l r) (λ m. merged (some (object m)))
  merge_objects _ _ _ = conflict

  unfoldable pub merge_node : Option Json → Option Json → Option Json → Merge (Option Json)
  merge_node base local remote =
      if local == remote
      then merged local
      else if base == local
      then merged remote
      else if base == remote
      then merged local
      else merge_objects (base_map base) (as_map local) (as_map remote)

  -- The loop of `mergeMaps`
  unfoldable pub merge_keys : List Text → Members → Members → Members → Merge Members
  unfolding merge_node
  merge_keys [] base local remote = merged no_members
  merge_keys (k ∷ ks) base local remote =
      let rest = merge_keys ks base local remote in
      and_then (merge_node (find k base) (find k local) (find k remote))
        (λ v. and_then rest (λ m. merged (put k v m)))

unfoldable pub all_keys : Members → Members → Members → List Text
unfolding keys_of
all_keys base local remote = sort_strings (keys_of remote (keys_of local (keys_of base [])))

-- `mergeMaps`, with fuel for the objects within objects
unfoldable pub merge_maps : ℕ → Members → Members → Members → Merge Members
unfolding merge_keys all_keys
merge_maps zero base local remote = out_of_fuel
merge_maps (suc n) base local remote =
    merge_keys (merge_maps n) (all_keys base local remote) base local remote

-- `Structured` and `StructuredDocument` between parsing and printing
unfoldable pub merge_documents : Members → Members → Members → Merge Members
unfolding merge_maps
merge_documents base local remote = merge_maps (suc (depth_members local)) base local remote

-- `Result` and the error values; the formats and the file name are those of `portableconfig`.
pub data MergeError : Type 0 where
  parse_base : MergeError
  parse_local : MergeError
  parse_remote : MergeError
  formats_differ : MergeError
  marshal : MergeError

-- `Data` without a conflict, or `none` for a conflict
abbrev to_result : (Members → Option Text) → Merge Members → Result MergeError (Option Text)
to_result encode conflict = ok none
to_result encode out_of_fuel = ok none
to_result encode (merged m) = elim (encode m) [ none ↦ err marshal | some t ↦ ok (some t) ]

abbrev parsed {ℓ} : {A : Type ℓ} → MergeError → Option A → Result MergeError A
parsed e none = err e
parsed e (some a) = ok a

-- `Structured`
unfoldable pub structured :
    (Text → Option Members)
    → (Members → Option Text)
    → Text
    → Text
    → Text
    → Result MergeError (Option Text)
unfolding merge_documents
structured parse_object encode base local remote = do
  base_document ← parsed parse_base (parse_object base)
  local_document ← parsed parse_local (parse_object local)
  remote_document ← parsed parse_remote (parse_object remote)
  to_result encode (merge_documents base_document local_document remote_document)

-- `StructuredDocument`
unfoldable pub structured_document :
    (Text → Text → Option (Text × Members))
    → (Text → Members → Option Text)
    → Text
    → Text
    → Text
    → Text
    → Result MergeError (Option Text)
unfolding merge_documents
structured_document parse encode rel base local remote = do
  (format, base_document) ← parsed parse_base (parse rel base)
  (local_format, local_document) ← parsed parse_local (parse rel local)
  (remote_format, remote_document) ← parsed parse_remote (parse rel remote)
  if not (local_format == format) || not (remote_format == format)
      then err formats_differ
      else to_result (encode format) (merge_documents base_document local_document remote_document)

-- `Binary`
unfoldable pub binary : Text → Text → Text → Merge Text
binary base local remote =
    if local == remote
    then merged local
    else if local == base
    then merged remote
    else if remote == base
    then merged local
    else conflict
