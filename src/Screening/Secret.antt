-- ===== src/Screening/Secret.antt =====
-- internal/secret/secret.go: files that look as if they hold a secret.
pub mod Blocked
use sync_hub_for_agents.Base.{
  ℕ, Bool, true, false, not, ◌&&◌, ◌||◌, Option, none, some, List, [], ◌∷◌, map, reverse,
}
use sync_hub_for_agents.Base.{◌==◌, nat_eq, contains, if◌then◌else◌}
use sync_hub_for_agents.Base.Text.{Text, text_eq, codes}
use sync_hub_for_agents.Base.Result.{Result, ok, err}
use sync_hub_for_agents.Base.Strings.{
  slash, split, clean, to_slash, contains_any, contains_text, trim_space,
}
use sync_hub_for_agents.Merge.Document.{
  Json, array, object, Items, no_items, item, Members, no_members, member,
}
use sync_hub_for_agents.Screening.{Platform, is_match}

-- `Scanner`
pub record Scanner : Type 0 where
  pub exclude_globs : List Text
  pub key_patterns : List Text

-- The keys that count tokens, and hold none
unfoldable pub token_metrics : List Text
token_metrics =
    codes "cachedtokens"
    ∷ codes "cachereadtokens"
    ∷ codes "cachewritetokens"
    ∷ codes "compactiontokensused"
    ∷ codes "completiontokens"
    ∷ codes "conversationtokens"
    ∷ codes "currenttokens"
    ∷ codes "inputtokens"
    ∷ codes "maxinputtokens"
    ∷ codes "maxoutputtokens"
    ∷ codes "outputtokens"
    ∷ codes "precompactiontokens"
    ∷ codes "prompttokens"
    ∷ codes "prompttokensdetails"
    ∷ codes "reasoningtokens"
    ∷ codes "responsetokenlimit"
    ∷ codes "systemtokens"
    ∷ codes "tokencount"
    ∷ codes "tokendetails"
    ∷ codes "tokentype"
    ∷ codes "tokenusage"
    ∷ codes "tooldefinitionstokens"
    ∷ codes "totaltokens"
    ∷ []

-- `isTokenMetric`
unfoldable pub is_token_metric : Text → Bool
unfolding token_metrics
is_token_metric key = contains token_metrics key

-- `strings.NewReplacer("_", "", "-", "", " ", "").Replace`
unfoldable pub squeeze : Text → Text
squeeze [] = []
squeeze (c ∷ s) =
    let rest = squeeze s in if c == 0x5f || (c == 0x2d || c == 0x20) then rest else c ∷ rest

-- Whether a lower-case key is one of a pattern
unfoldable pub pattern_matches : Text → Text → Bool
unfolding squeeze is_token_metric contains_text
pattern_matches key pattern =
    if pattern == codes "token"
    then contains_text (squeeze key) (codes "token") && not (is_token_metric (squeeze key))
    else contains_text key pattern

unfoldable pub any_pattern : List Text → Text → Bool
unfolding pattern_matches
any_pattern [] key = false
any_pattern (p ∷ ps) key = pattern_matches key p || any_pattern ps key

-- `walk`, for a test of keys
unfoldable mutual
  pub walk : (Text → Bool) → Json → Bool
  walk matches (object m) = walk_members matches m
  walk matches (array i) = walk_items matches i
  walk matches _ = false

  pub walk_items : (Text → Bool) → Items → Bool
  walk_items matches no_items = false
  walk_items matches (item v i) = walk matches v || walk_items matches i

  pub walk_members : (Text → Bool) → Members → Bool
  walk_members matches no_members = false
  walk_members matches (member k v m) = matches k || (walk matches v || walk_members matches m)

-- From the last byte on: the extension, if a dot comes before a slash does.
unfoldable pub extension_back : Text → Text → Text
extension_back found [] = []
extension_back found (c ∷ before) =
    let further = extension_back (c ∷ found) before in
    if c == slash then [] else if c == 0x2e then c ∷ found else further

-- `path.Ext`
unfoldable pub path_ext : Text → Text
unfolding extension_back
path_ext path = extension_back [] (reverse path)

-- An error of the scanner blocks the file.
abbrev pub fails_closed : Result Text Bool → Bool
fails_closed (ok blocked) = blocked
fails_closed (err _) = true

module _ (p : Platform) where
  -- `NewScanner`
  unfoldable pub new_scanner : List Text → List Text → Scanner
  new_scanner globs patterns = record {
    exclude_globs = globs;
    key_patterns = map p.to_lower patterns;
  }

  unfoldable pub any_glob : List Text → Text → Bool
  unfolding is_match
  any_glob [] rel = false
  any_glob (g ∷ gs) rel = is_match (p.glob g rel) || any_glob gs rel

  -- `IsExcluded`
  unfoldable pub is_excluded : Scanner → Text → Bool
  unfolding any_glob clean to_slash
  is_excluded s rel = any_glob s.exclude_globs (clean (to_slash rel))

  -- `keyMatches`
  unfoldable pub key_matches : Scanner → Text → Bool
  unfolding any_pattern contains_any
  key_matches s key =
      not (contains_any key (codes "/\\")) && any_pattern s.key_patterns (p.to_lower key)

  -- `HasSecretContent`
  unfoldable pub has_secret_content : Scanner → Text → Bool
  unfolding walk key_matches
  has_secret_content s content = elim (p.decode content) [
    | none ↦ false
    | some v ↦ walk (key_matches s) v
  ]

  -- One line of records, where `rest` is what the lines after it give
  unfoldable pub has_secret_record : Scanner → Text → Result Text Bool → Result Text Bool
  unfolding walk key_matches
  has_secret_record s line rest = if line == [] then rest else elim (p.decode line) [
    | none ↦ err (codes "invalid JSONL record")
    | some v ↦ if walk (key_matches s) v then ok true else rest
  ]

  -- The loop of `hasSecretJSONL`
  unfoldable pub has_secret_records : Scanner → List Text → Result Text Bool
  unfolding has_secret_record trim_space
  has_secret_records s [] = ok false
  has_secret_records s (l ∷ lines) = has_secret_record s (trim_space l) (has_secret_records s lines)

  -- `hasSecretJSONL`
  unfoldable pub has_secret_jsonl : Scanner → Text → Result Text Bool
  unfolding has_secret_records split
  has_secret_jsonl s content = has_secret_records s (split 0x0a content)

  -- `Scan`
  unfoldable pub scan : Scanner → Text → Text → Result Text Bool
  unfolding is_excluded has_secret_content has_secret_jsonl path_ext
  scan s rel content =
      if is_excluded s rel
      then ok true
      else if has_secret_content s content
      then ok true
      else if p.equal_fold (path_ext rel) (codes ".jsonl")
      then has_secret_jsonl s content
      else ok false

  -- `ShouldBlock`
  unfoldable pub should_block : Scanner → Text → Text → Bool
  unfolding scan
  should_block s rel content = fails_closed (scan s rel content)
