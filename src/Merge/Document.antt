-- ===== src/Merge/Document.antt =====
-- A decoded JSON document: what `any` holds after `decoder.Decode` with `UseNumber`. An object is
-- listed in the order of its keys, in which the encoder prints it, so that `reflect.DeepEqual` is
-- equality.
use Prim.Native.Nat.{max}
use sync_hub_for_agents.Base.{ℕ, suc, Bool, Option, none, some, List}
use sync_hub_for_agents.Base.{Eq, ◌==◌, ℕ_discrete, nat_eq, if◌then◌else◌}
use sync_hub_for_agents.Base.Text.{Text, text_eq}
use sync_hub_for_agents.Base.Sort.{add_key}

mutual
  pub data Json : Type 0 where
    null : Json
    boolean : Bool → Json
    number : Text → Json
    string : Text → Json
    array : Items → Json
    object : Members → Json

  pub data Items : Type 0 where
    no_items : Items
    item : Json → Items → Items

  pub data Members : Type 0 where
    no_members : Members
    member : Text → Json → Members → Members

unfoldable pub Json-discrete : Discrete Json
Json-discrete = hlevel (ℕ_discrete)

-- `reflect.DeepEqual`
instance unfoldable pub json_eq : Eq Json
json_eq = record { dec = Json-discrete }

-- `m[key]`
unfoldable pub find : Text → Members → Option Json
find k no_members = none
find k (member j v m) = if k == j then some v else find k m

unfoldable pub keys_of : Members → List Text → List Text
keys_of no_members ks = ks
keys_of (member k _ m) ks = keys_of m (add_key k ks)

-- How many objects lie within each other.
unfoldable mutual
  pub depth : Json → ℕ
  depth (object m) = suc (depth_members m)
  depth _ = 0

  pub depth_members : Members → ℕ
  depth_members no_members = 0
  depth_members (member _ v m) = max (depth v) (depth_members m)
