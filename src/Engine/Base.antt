-- ===== src/Engine/Base.antt =====
-- The snapshot that the next pass compares with.
use sync_hub_for_agents.Base.{◌≡◌, refl, Option, none, some, List, [], ◌∷◌, arith}
use sync_hub_for_agents.Base.{◌==◌, nat_eq, contains, if◌then◌else◌}
use sync_hub_for_agents.Base.Text.{Text, text_eq}
use sync_hub_for_agents.Base.Dict.{lookup, insert, erase, lookup-insert, lookup-erase}
use sync_hub_for_agents.State.{FileMeta, Snapshot}
use sync_hub_for_agents.Engine.{preserve_snapshot, preserve_each}

keep :
    (previous next : Snapshot) (p q : Text) (m : Option FileMeta)
    → lookup p previous ≡ m
    → lookup q (elim m [ none ↦ erase p next | some meta ↦ insert p meta next ])
      ≡ (if q == p then lookup q previous else lookup q next)
keep previous next p q none e = ground (arith, lookup-erase q p next)
keep previous next p q (some meta) e = ground (arith, lookup-insert q p meta next)

preserve_each-lookup :
    (previous : Snapshot) (ps : List Text) (q : Text) (next : Snapshot)
    → lookup q (preserve_each previous ps next)
      ≡ (if contains ps q then lookup q previous else lookup q next)
unfolding preserve_each
preserve_each-lookup previous [] q next = refl
preserve_each-lookup previous (p ∷ ps) q next = ground (
  arith,
  preserve_each-lookup previous ps q
      (elim (lookup p previous) [ none ↦ erase p next | some meta ↦ insert p meta next ]),
  keep previous next p q (lookup p previous) refl,
)

-- What a snapshot has at a path after some paths are given what another one has there.
pub preserve_snapshot-lookup :
    (previous current : Snapshot) (preserve : List Text) (q : Text)
    → lookup q (preserve_snapshot previous current preserve)
      ≡ (if contains preserve q then lookup q previous else lookup q current)
unfolding preserve_snapshot
preserve_snapshot-lookup previous current preserve q =
    preserve_each-lookup previous preserve q current
