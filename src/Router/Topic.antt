-- ===== src/Router/Topic.antt =====
-- Topic names and topic filters of src/router.rs. A text is given by its bytes; the characters that
-- the source looks for are ASCII, so that a search among the bytes finds the same places.
pub mod Matching
pub mod Exact
use iotd.Prelude.{
  ℕ, Bytes, Bool, true, false, not, ◌&&◌, ◌||◌, List, [], ◌∷◌, is_empty, contains, ◌==◌, nat_eq,
  bytes_eq, if◌then◌else◌,
}

abbrev pub Level : Type 0
Level = Bytes

abbrev pub hash : Level
hash = b'#' ∷ []

abbrev pub plus : Level
plus = b'+' ∷ []

abbrev push_front : ℕ → List Level → List Level
push_front c [] = (c ∷ []) ∷ []
push_front c (l ∷ ls) = (c ∷ l) ∷ ls

-- `topic.split('/')`
unfoldable pub split : Bytes → List Level
split [] = [] ∷ []
split (c ∷ cs) = let rest = split cs in if c == b'/' then [] ∷ rest else push_front c rest

unfoldable pub validate_publish_topic : Bytes → Bool
validate_publish_topic topic =
    if is_empty topic then false else if contains 0 topic then false else true

unfoldable pub has_wildcards : Bytes → Bool
has_wildcards filter = contains b'+' filter || contains b'#' filter

-- The loop over the levels: a level is the last one if none follows it.
unfoldable pub validate_levels : List Level → Bool
validate_levels [] = true
validate_levels (level ∷ rest) =
    let later = validate_levels rest in
    if contains b'#' level && (not (level == hash) || not (is_empty rest))
    then false
    else if contains b'+' level && not (level == plus)
    then false
    else later

unfoldable pub validate_subscribe_filter : Bytes → Bool
validate_subscribe_filter filter =
    if is_empty filter
    then false
    else if contains 0 filter
    then false
    else validate_levels (split filter)

-- `match_parts`: the lists are the parts from `topic_idx` and from `filter_idx` on.
unfoldable pub match_parts : List Level → List Level → Bool
match_parts topic_parts [] = is_empty topic_parts
match_parts [] (filter_part ∷ filters) = is_empty filters && filter_part == hash
match_parts (topic_part ∷ topics) (filter_part ∷ filters) =
    let rest = match_parts topics filters in
    if filter_part == hash
    then is_empty filters
    else if filter_part == plus
    then (if is_empty topic_part then false else rest)
    else if topic_part == filter_part
    then rest
    else false

unfoldable pub topic_matches : Bytes → Bytes → Bool
topic_matches topic filter =
    if topic == filter then true else match_parts (split topic) (split filter)
