-- ===== src/Examples/Merge.antt =====
-- Three small documents: the two sides change different keys of a common object, or the same one.
use sync_hub_for_agents.Base.{◌≡◌, refl, true, some, [], ◌∷◌, option_eq, nat_eq, ℕ_discrete}
use sync_hub_for_agents.Base.Text.{Text, codes, text_eq, text_lt}
use sync_hub_for_agents.Base.Sort.{sort_strings, add_key}
use sync_hub_for_agents.Merge.Document.{
  number, object, Members, no_members, member, json_eq, find, Json-discrete, depth_members,
}
use sync_hub_for_agents.Merge.Structured.{merged, conflict, merge_documents}
use sync_hub_for_agents.Merge.Paths.{at_path, three_way, merge_documents-three_way}
use sync_hub_for_agents.Merge.Fuel.{has_ended, merge_documents-has_ended}
use sync_hub_for_agents.Merge.Clashes.{Clash, merge_documents-Clash}

abbrev document : Text → Text → Members
document x y =
    member (codes "o")
      (object (member (codes "x") (number x) (member (codes "y") (number y) no_members))) no_members

abbrev base : Members
base = document (codes "1") (codes "2")

abbrev local : Members
local = document (codes "10") (codes "2")

abbrev remote : Members
remote = document (codes "1") (codes "20")

abbrev other : Members
other = document (codes "11") (codes "2")

both_sides : merge_documents base local remote ≡ merged (document (codes "10") (codes "20"))
unfolding merge_documents sort_strings add_key text_lt text_eq nat_eq ℕ_discrete option_eq find
    json_eq Json-discrete depth_members
both_sides = refl

same_key : merge_documents base local other ≡ conflict
unfolding merge_documents sort_strings add_key text_lt text_eq nat_eq ℕ_discrete option_eq find
    json_eq Json-discrete depth_members
same_key = refl

abbrev x_and_y : Members
x_and_y = document (codes "10") (codes "20")

decided :
    three_way
      (at_path (codes "o" ∷ codes "y" ∷ []) (some (object base)))
      (at_path (codes "o" ∷ codes "y" ∷ []) (some (object local)))
      (at_path (codes "o" ∷ codes "y" ∷ []) (some (object remote)))
    ≡ some (some (number (codes "20")))
unfolding merge_documents sort_strings add_key text_lt text_eq nat_eq ℕ_discrete option_eq find
    json_eq Json-discrete depth_members
decided = refl

merge_documents-three_way_example :
    at_path (codes "o" ∷ codes "y" ∷ []) (some (object x_and_y)) ≡ some (number (codes "20"))
merge_documents-three_way_example =
    merge_documents-three_way base local remote x_and_y (codes "o") (codes "y" ∷ [])
      (some (number (codes "20"))) both_sides decided

merge_documents-Clash_example : (k : Text) × Clash (find k base) (find k local) (find k other)
merge_documents-Clash_example = merge_documents-Clash base local other same_key

merge_documents-has_ended_example : has_ended (merge_documents base local other) ≡ true
merge_documents-has_ended_example = merge_documents-has_ended base local other
