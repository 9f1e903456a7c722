-- ===== src/Screening/Secret/Blocked.antt =====
-- Which files the scanner blocks, in terms of the keys within a document.
use mathlib.Core.Path.{subst}
use mathlib.Core.List.{Memᴰ}
use mathlib.Core.List.Memᴰ.{head, tail}
use sync_hub_for_agents.Base.{
  ◌≡◌, refl, Bool, true, false, ◌||◌, Option, none, some, List, [], ◌∷◌, arith, ◌⊎◌, inl, inr,
}
use sync_hub_for_agents.Base.{◌==◌, if◌then◌else◌}
use sync_hub_for_agents.Base.Text.{Text, text_eq, codes}
use sync_hub_for_agents.Base.Result.{Result, ok, err}
use sync_hub_for_agents.Base.Strings.{split, trim_space}
use sync_hub_for_agents.Merge.Document.{
  Json, array, object, null, boolean, number, string, Items, no_items, item, Members, no_members,
  member,
}
use sync_hub_for_agents.Screening.{Platform}
use sync_hub_for_agents.Screening.Secret.{
  Scanner, walk, walk_items, walk_members, path_ext, is_excluded, key_matches, has_secret_content,
  has_secret_record, has_secret_records, has_secret_jsonl, scan, should_block, fails_closed,
}

-- A key at some depth of a document, in objects and in arrays
mutual
  pub data KeyOf (k : Text) : Json → Type 0 where
    in_object : {m : Members} → KeyOfMembers k m → KeyOf k (object m)
    in_array : {i : Items} → KeyOfItems k i → KeyOf k (array i)

  pub data KeyOfItems (k : Text) : Items → Type 0 where
    in_item : {v : Json} {i : Items} → KeyOf k v → KeyOfItems k (item v i)
    in_items : {v : Json} {i : Items} → KeyOfItems k i → KeyOfItems k (item v i)

  pub data KeyOfMembers (k : Text) : Members → Type 0 where
    is_key : {v : Json} {m : Members} → KeyOfMembers k (member k v m)
    in_value : {j : Text} {v : Json} {m : Members} → KeyOf k v → KeyOfMembers k (member j v m)
    in_members :
        {j : Text} {v : Json} {m : Members} → KeyOfMembers k m → KeyOfMembers k (member j v m)

-- Some key of a document passes a test.
pub record Holds (matches : Text → Bool) (v : Json) : Type 0 where
  pub key : Text
  pub is_there : KeyOf key v
  pub passes : matches key ≡ true

record HoldsItems (matches : Text → Bool) (i : Items) : Type 0 where
  pub key : Text
  pub is_there : KeyOfItems key i
  pub passes : matches key ≡ true

record HoldsMembers (matches : Text → Bool) (m : Members) : Type 0 where
  pub key : Text
  pub is_there : KeyOfMembers key m
  pub passes : matches key ≡ true

or_true : (a b : Bool) → (a || b) ≡ true → (a ≡ true) ⊎ (b ≡ true)
or_true true b h = inl refl
or_true false b h = inr h

true_or : (a b : Bool) → b ≡ true → (a || b) ≡ true
true_or true b h = refl
true_or false b h = h

or_left : (a b : Bool) → a ≡ true → (a || b) ≡ true
or_left true b h = refl
or_left false b h = ground arith

mutual
  unfolding walk

  walk-Holds : (f : Text → Bool) (v : Json) → walk f v ≡ true → Holds f v
  walk-Holds f (object m) h =
      let r = walk_members-Holds f m h in
      record { key = r.key; is_there = in_object r.is_there; passes = r.passes }
  walk-Holds f (array i) h =
      let r = walk_items-Holds f i h in
      record { key = r.key; is_there = in_array r.is_there; passes = r.passes }
  walk-Holds f null h = ground arith
  walk-Holds f (boolean b) h = ground arith
  walk-Holds f (number t) h = ground arith
  walk-Holds f (string t) h = ground arith

  walk_items-Holds : (f : Text → Bool) (i : Items) → walk_items f i ≡ true → HoldsItems f i
  walk_items-Holds f no_items h = ground arith
  walk_items-Holds f (item v i) h = elim (or_true (walk f v) (walk_items f i) h) [
    | inl a ↦
        (let r = walk-Holds f v a in
          record { key = r.key; is_there = in_item r.is_there; passes = r.passes })
    | inr b ↦
        (let r = walk_items-Holds f i b in
          record { key = r.key; is_there = in_items r.is_there; passes = r.passes })
  ]

  walk_members-Holds : (f : Text → Bool) (m : Members) → walk_members f m ≡ true → HoldsMembers f m
  walk_members-Holds f no_members h = ground arith
  walk_members-Holds f (member k v m) h = elim (or_true (f k) (walk f v || walk_members f m) h) [
    | inl a ↦ record { key = k; is_there = is_key; passes = a }
    | inr b ↦ elim (or_true (walk f v) (walk_members f m) b) [
      | inl c ↦
          (let r = walk-Holds f v c in
            record { key = r.key; is_there = in_value r.is_there; passes = r.passes })
      | inr d ↦
          (let r = walk_members-Holds f m d in
            record { key = r.key; is_there = in_members r.is_there; passes = r.passes })
    ]
  ]

mutual
  unfolding walk

  KeyOf-walk : (f : Text → Bool) (k : Text) (v : Json) → KeyOf k v → f k ≡ true → walk f v ≡ true
  KeyOf-walk f k (object m) (in_object q) h = KeyOfMembers-walk f k m q h
  KeyOf-walk f k (array i) (in_array q) h = KeyOfItems-walk f k i q h
  KeyOf-walk f k null q h = elim q [ ]
  KeyOf-walk f k (boolean _) q h = elim q [ ]
  KeyOf-walk f k (number _) q h = elim q [ ]
  KeyOf-walk f k (string _) q h = elim q [ ]

  KeyOfItems-walk :
      (f : Text → Bool) (k : Text) (i : Items) → KeyOfItems k i → f k ≡ true → walk_items f i ≡ true
  KeyOfItems-walk f k no_items q h = elim q [ ]
  KeyOfItems-walk f k (item v i) (in_item q) h =
      or_left (walk f v) (walk_items f i) (KeyOf-walk f k v q h)
  KeyOfItems-walk f k (item v i) (in_items q) h =
      true_or (walk f v) (walk_items f i) (KeyOfItems-walk f k i q h)

  KeyOfMembers-walk :
      (f : Text → Bool) (k : Text) (m : Members)
      → KeyOfMembers k m
      → f k ≡ true
      → walk_members f m ≡ true
  KeyOfMembers-walk f k no_members q h = elim q [ ]
  KeyOfMembers-walk f k (member j v m) is_key h = or_left (f k) (walk f v || walk_members f m) h
  KeyOfMembers-walk f k (member j v m) (in_value q) h =
      true_or (f j) (walk f v || walk_members f m)
        (or_left (walk f v) (walk_members f m) (KeyOf-walk f k v q h))
  KeyOfMembers-walk f k (member j v m) (in_members q) h =
      true_or (f j) (walk f v || walk_members f m)
        (true_or (walk f v) (walk_members f m) (KeyOfMembers-walk f k m q h))

module _ (p : Platform) (s : Scanner) where
  -- What makes a line of records block the file
  pub data BadRecord (line : Text) : Type 0 where
    no_record : (line == []) ≡ false → p.decode line ≡ none → BadRecord line
    secret_record :
        (v : Json)
        → (line == []) ≡ false
        → p.decode line ≡ some v
        → Holds (key_matches p s) v
        → BadRecord line

  -- Why a file is blocked
  pub data Reason (rel content : Text) : Type 0 where
    excluded : is_excluded p s rel ≡ true → Reason rel content
    secret_document :
        (v : Json) → p.decode content ≡ some v → Holds (key_matches p s) v → Reason rel content
    bad_record :
        (line : Text)
        → p.equal_fold (path_ext rel) (codes ".jsonl") ≡ true
        → Memᴰ line (split 0x0a content)
        → BadRecord (trim_space line)
        → Reason rel content

  record BadLine (lines : List Text) : Type 0 where
    pub line : Text
    pub is_there : Memᴰ line lines
    pub is_bad : BadRecord (trim_space line)

  later : (l : Text) (lines : List Text) → BadLine lines → BadLine (l ∷ lines)
  later l lines b = record { line = b.line; is_there = tail b.is_there; is_bad = b.is_bad }

  -- A document that the scanner finds a secret in
  found : (v : Json) → walk (key_matches p s) v ≡ true → Holds (key_matches p s) v
  found v = walk-Holds (key_matches p s) v

  Holds-walk : (v : Json) → Holds (key_matches p s) v → walk (key_matches p s) v ≡ true
  Holds-walk v h = KeyOf-walk (key_matches p s) h.key v h.is_there h.passes

  record-BadRecord :
      (line : Text) (rest : Result Text Bool)
      → fails_closed (has_secret_record p s line rest) ≡ true
      → BadRecord line ⊎ (fails_closed rest ≡ true)
  unfolding has_secret_record
  record-BadRecord line rest h = by_line (line == []) (p.decode line) refl refl h
    where
      by_walk :
          (v : Json) (b : Bool)
          → (line == []) ≡ false
          → p.decode line ≡ some v
          → walk (key_matches p s) v ≡ b
          → fails_closed (if b then ok true else rest) ≡ true
          → BadRecord line ⊎ (fails_closed rest ≡ true)
      by_walk v true e d w h = inl (secret_record v e d (found v w))
      by_walk v false e d w h = inr h

      by_line :
          (empty : Bool) (o : Option Json)
          → (line == []) ≡ empty
          → p.decode line ≡ o
          → fails_closed (
              if empty then rest else elim o as (λ _. Result Text Bool) [
                | none ↦ err (codes "invalid JSONL record")
                | some v ↦ if walk (key_matches p s) v then ok true else rest
              ])
            ≡ true
          → BadRecord line ⊎ (fails_closed rest ≡ true)
      by_line true o e d h = inr h
      by_line false none e d h = inl (no_record e d)
      by_line false (some v) e d h = by_walk v (walk (key_matches p s) v) e d refl h

  record-blocks :
      (line : Text) (rest : Result Text Bool)
      → BadRecord line ⊎ (fails_closed rest ≡ true)
      → fails_closed (has_secret_record p s line rest) ≡ true
  unfolding has_secret_record
  record-blocks line rest (inl (no_record e d)) = rw (e, d) refl
  record-blocks line rest (inl (secret_record v e d h)) = rw (e, d, Holds-walk v h) refl
  record-blocks line rest (inr h) = by_line (line == []) (p.decode line)
    where
      by_walk : (b : Bool) → fails_closed (if b then ok true else rest) ≡ true
      by_walk true = refl
      by_walk false = h

      by_line :
          (empty : Bool) (o : Option Json)
          → fails_closed (
              if empty then rest else elim o as (λ _. Result Text Bool) [
                | none ↦ err (codes "invalid JSONL record")
                | some v ↦ if walk (key_matches p s) v then ok true else rest
              ])
            ≡ true
      by_line true o = h
      by_line false none = refl
      by_line false (some v) = by_walk (walk (key_matches p s) v)

  records-BadLine :
      (lines : List Text) → fails_closed (has_secret_records p s lines) ≡ true → BadLine lines
  unfolding has_secret_records
  records-BadLine [] h = ground arith
  records-BadLine (l ∷ lines) h =
      elim (record-BadRecord (trim_space l) (has_secret_records p s lines) h) [
        | inl b ↦ record { line = l; is_there = head refl; is_bad = b }
        | inr r ↦ later l lines (records-BadLine lines r)
      ]

  bad_line-blocks :
      (lines : List Text) (line : Text)
      → Memᴰ line lines
      → BadRecord (trim_space line)
      → fails_closed (has_secret_records p s lines) ≡ true
  unfolding has_secret_records
  bad_line-blocks [] line i b = elim i [ ]
  bad_line-blocks (l ∷ lines) line (head e) b =
      record-blocks (trim_space l) (has_secret_records p s lines)
        (inl (subst (λ t. BadRecord (trim_space t)) e b))
  bad_line-blocks (l ∷ lines) line (tail i) b =
      record-blocks (trim_space l) (has_secret_records p s lines)
        (inr (bad_line-blocks lines line i b))

  content-Holds :
      (content : Text)
      → has_secret_content p s content ≡ true
      → (v : Json) × (p.decode content ≡ some v) × Holds (key_matches p s) v
  unfolding has_secret_content
  content-Holds content h = by_document (p.decode content) refl h
    where
      by_document :
          (o : Option Json)
          → p.decode content ≡ o
          → (elim o as (λ _. Bool) [ none ↦ false | some v ↦ walk (key_matches p s) v ]) ≡ true
          → (v : Json) × (p.decode content ≡ some v) × Holds (key_matches p s) v
      by_document none d h = ground arith
      by_document (some v) d h = (v, d, found v h)

  Holds-content :
      (content : Text) (v : Json)
      → p.decode content ≡ some v
      → Holds (key_matches p s) v
      → has_secret_content p s content ≡ true
  unfolding has_secret_content
  Holds-content content v d h = rw (has_secret_content, d) (Holds-walk v h)

  -- ShouldBlock blocks a file exactly if its path matches a glob that excludes it, or it is a JSON
  -- document with a key, at any depth, that matches a pattern, or its name ends in ".jsonl" and one
  -- of its lines that are not blank is no JSON value or is one with such a key.
  pub should_block-Reason :
      (rel content : Text)
      → (should_block p s rel content ≡ true → Reason rel content)
        × (Reason rel content → should_block p s rel content ≡ true)
  unfolding should_block scan has_secret_jsonl
  should_block-Reason rel content = (
    by_scan (is_excluded p s rel) (has_secret_content p s content)
        (p.equal_fold (path_ext rel) (codes ".jsonl")) refl refl refl,
    blocked_by,
  )
    where
      records : Result Text Bool
      records = has_secret_records p s (split 0x0a content)

      by_scan :
          (x c j : Bool)
          → is_excluded p s rel ≡ x
          → has_secret_content p s content ≡ c
          → p.equal_fold (path_ext rel) (codes ".jsonl") ≡ j
          → fails_closed (
              if x
              then ok true
              else if c
              then ok true
              else if j
              then has_secret_records p s (split 0x0a content)
              else ok false)
            ≡ true
          → Reason rel content
      by_scan true c j ex ec ej h = excluded ex
      by_scan false true j ex ec ej h =
          let (v, d, k) = content-Holds content ec in secret_document v d k
      by_scan false false true ex ec ej h =
          let b = records-BadLine (split 0x0a content) h in bad_record b.line ej b.is_there b.is_bad
      by_scan false false false ex ec ej h = ground arith

      when_excluded :
          (x : Bool) (r : Result Text Bool)
          → fails_closed r ≡ true
          → fails_closed (if x then ok true else r) ≡ true
      when_excluded true r h = refl
      when_excluded false r h = h

      blocked_by :
          Reason rel content
          → fails_closed (
              if is_excluded p s rel
              then ok true
              else if has_secret_content p s content
              then ok true
              else if p.equal_fold (path_ext rel) (codes ".jsonl")
              then has_secret_records p s (split 0x0a content)
              else ok false)
            ≡ true
      blocked_by (excluded e) = rw e refl
      blocked_by (secret_document v d h) =
          when_excluded (is_excluded p s rel) _ (rw (Holds-content content v d h) refl)
      blocked_by (bad_record line j i b) = when_excluded (is_excluded p s rel) _ (
          when_excluded (has_secret_content p s content) _
            (rw j (bad_line-blocks (split 0x0a content) line i b)))
