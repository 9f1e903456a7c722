-- ===== src/Base/Strings.antt =====
-- The functions of the Go packages `strings` and `path` that the code uses, over bytes.
pub mod Laws
use sync_hub_for_agents.Base.{
  ℕ, ◌≡◌, Bool, true, false, not, ◌&&◌, ◌||◌, Option, none, some, List, [], ◌∷◌, ◌++◌, map, refl,
  reverse,
}
use sync_hub_for_agents.Base.{◌==◌, nat_eq, contains, ltb, leb, if◌then◌else◌}
use sync_hub_for_agents.Base.Text.{Text, text_eq, codes, has_prefix}

abbrev pub slash : ℕ
slash = 0x2f

abbrev pub backslash : ℕ
backslash = 0x5c

abbrev pub in_front : ℕ → List Text → List Text
in_front c [] = (c ∷ []) ∷ []
in_front c (p ∷ ps) = (c ∷ p) ∷ ps

-- `strings.Split(s, sep)` at a separator of one byte.
unfoldable pub split : ℕ → Text → List Text
split sep [] = [] ∷ []
split sep (c ∷ s) = let parts = split sep s in if c == sep then [] ∷ parts else in_front c parts

-- `strings.Join(parts, "/")`
unfoldable pub join : List Text → Text
join [] = []
join (p ∷ []) = p
join (p ∷ q ∷ ps) = p ++ (slash ∷ join (q ∷ ps))

-- `strings.ReplaceAll(s, "\\", "/")`
unfoldable pub to_slash : Text → Text
to_slash = map (λ c. if c == backslash then slash else c)

-- Within a sequence of bytes that may spell a space: what was read of the current character.
pub data SpaceState : Type 0 where
  start : SpaceState
  c2 : SpaceState
  e1 : SpaceState
  e1_9a : SpaceState
  e2 : SpaceState
  e2_80 : SpaceState
  e2_81 : SpaceState
  e3 : SpaceState
  e3_80 : SpaceState

abbrev start_if : Bool → Option SpaceState
start_if true = some start
start_if false = none

-- One byte of a character of `unicode.IsSpace` in UTF-8; `none` if there is no such character.
next_space : SpaceState → ℕ → Option SpaceState
next_space start c =
    if (leb 9 c && leb c 13) || c == 0x20
    then some start
    else if c == 0xc2
    then some c2
    else if c == 0xe1
    then some e1
    else if c == 0xe2
    then some e2
    else if c == 0xe3
    then some e3
    else none
next_space c2 c = start_if (c == 0x85 || c == 0xa0)
next_space e1 c = if c == 0x9a then some e1_9a else none
next_space e1_9a c = start_if (c == 0x80)
next_space e2 c = if c == 0x80 then some e2_80 else if c == 0x81 then some e2_81 else none
next_space e2_80 c =
    start_if ((leb 0x80 c && leb c 0x8a) || (c == 0xa8 || (c == 0xa9 || c == 0xaf)))
next_space e2_81 c = start_if (c == 0x9f)
next_space e3 c = if c == 0x80 then some e3_80 else none
next_space e3_80 c = start_if (c == 0x80)

all_spaces : Option SpaceState → Text → Bool
all_spaces none _ = false
all_spaces (some start) [] = true
all_spaces (some _) [] = false
all_spaces (some st) (c ∷ s) = all_spaces (next_space st c) s

-- `strings.TrimSpace(s) == ""`
unfoldable pub is_blank : Text → Bool
unfolding all_spaces next_space
is_blank = all_spaces (some start)

abbrev pub dot : Text
dot = codes "."

abbrev pub dot_dot : Text
dot_dot = codes ".."

abbrev step_back : Bool → List Text → List Text
step_back true [] = []
step_back false [] = dot_dot ∷ []
step_back rooted (k ∷ kept) = if k == dot_dot then dot_dot ∷ k ∷ kept else kept

-- The elements that `path.Clean` keeps, the last one first.
unfoldable pub clean_elements : Bool → List Text → List Text → List Text
clean_elements rooted kept [] = kept
clean_elements rooted kept (p ∷ ps) =
    clean_elements rooted
      (if p == [] || p == dot
        then kept
        else if p == dot_dot
        then step_back rooted kept
        else p ∷ kept)
      ps

abbrev or_dot : Text → Text
or_dot [] = dot
or_dot (c ∷ s) = c ∷ s

unfoldable pub finish_clean : Bool → List Text → Text
unfolding clean_elements join
finish_clean rooted parts =
    let kept = join (reverse (clean_elements rooted [] parts)) in
    if rooted then slash ∷ kept else or_dot kept

-- `path.Clean(s)`
unfoldable pub clean : Text → Text
unfolding finish_clean split
clean [] = dot
clean (c ∷ s) = finish_clean (c == slash) (split slash (c ∷ s))

-- The buffer of `path.Join`: empty elements in front are left out.
abbrev join_buffer : Text → List Text → Text
join_buffer buffer [] = buffer
join_buffer [] (e ∷ es) = join_buffer e es
join_buffer (c ∷ buffer) (e ∷ es) = join_buffer ((c ∷ buffer) ++ (slash ∷ e)) es

abbrev clean_nonempty : Text → Text
clean_nonempty [] = []
clean_nonempty (c ∷ s) = clean (c ∷ s)

-- `path.Join(elems...)`
unfoldable pub path_join : List Text → Text
unfolding clean
path_join elems = clean_nonempty (join_buffer [] elems)

-- `strings.Contains(s, sub)`
unfoldable pub contains_text : Text → Text → Bool
contains_text [] sub = has_prefix [] sub
contains_text (c ∷ s) sub = has_prefix (c ∷ s) sub || contains_text s sub

-- `strings.ContainsAny(s, chars)` for characters of one byte.
unfoldable pub contains_any : Text → Text → Bool
contains_any [] chars = false
contains_any (c ∷ s) chars = contains chars c || contains_any s chars

-- `strings.Join(parts, sep)` for a separator of one byte.
unfoldable pub join_with : ℕ → List Text → Text
join_with sep [] = []
join_with sep (p ∷ []) = p
join_with sep (p ∷ q ∷ ps) = p ++ (sep ∷ join_with sep (q ∷ ps))

-- What follows the spaces in front, when `held` was read of the current character.
trim_left : Option SpaceState → Text → Text → Text
unfolding next_space
trim_left none held s = held ++ s
trim_left (some start) held [] = []
trim_left (some _) held [] = held
trim_left (some st) held (c ∷ s) = elim (next_space st c) [
  | some start ↦ trim_left (some start) [] s
  | st' ↦ trim_left st' (held ++ (c ∷ [])) s
]

trim_right : Text → Text
trim_right [] = []
trim_right (c ∷ s) = if is_blank (c ∷ s) then [] else c ∷ trim_right s

-- `strings.TrimSpace(s)`
unfoldable pub trim_space : Text → Text
unfolding trim_left trim_right
trim_space s = trim_right (trim_left (some start) [] s)
