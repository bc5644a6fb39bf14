-- ===== src/Topic.antt =====
-- src/sl_topic.c: topics and the filters of subscriptions, lists of their bytes.
pub mod Matching
pub mod Trie
pub mod Acl
pub mod Broker
use securelink.Common.{
  ℕ, suc, ◌+◌, ◌-◌, Bool, true, false, not, ◌&&◌, ◌||◌, List, [], ◌∷◌, ltb, leb, ◌==◌,
  if◌then◌else◌, length, get_or,
}
use securelink.Common.Assoc.{bytes_beq}
use securelink.Wire.RpcMethod.{is_alnum, underscore}

abbrev pub max_len : ℕ
max_len = 256

abbrev pub max_segments : ℕ
max_segments = 16

abbrev pub slash : ℕ
slash = 47

abbrev pub hash : List ℕ
hash = 35 ∷ []

abbrev pub plus : List ℕ
plus = 43 ∷ []

unfoldable pub seg_char_ok : ℕ → Bool
unfolding is_alnum
seg_char_ok c = is_alnum c || (c == underscore) || (c == 45)

-- The slashes of a text.
unfoldable pub count_slashes : List ℕ → ℕ
count_slashes [] = 0
count_slashes (c ∷ cs) = (if c == slash then 1 else 0) + count_slashes cs

unfoldable pub common_structure_ok : List ℕ → Bool
unfolding count_slashes
common_structure_ok s =
    let len = length s in
    if (len == 0) || ltb max_len len
    then false
    else if (get_or s 0 0 == slash) || (get_or s (len - 1) 0 == slash)
    then false
    else leb (1 + count_slashes s) max_segments

-- The loop of `sl_topic_is_valid_publish`, with the length of the segment so far
unfoldable pub publish_loop : ℕ → List ℕ → Bool
unfolding seg_char_ok
publish_loop seg_len [] = ltb 0 seg_len
publish_loop seg_len (c ∷ cs) =
    let fresh = publish_loop 0 cs in
    let more = publish_loop (suc seg_len) cs in
    if c == slash
    then (if seg_len == 0 then false else fresh)
    else if not (seg_char_ok c)
    then false
    else more

unfoldable pub is_valid_publish : List ℕ → Bool
unfolding common_structure_ok publish_loop
is_valid_publish topic = if not (common_structure_ok topic) then false else publish_loop 0 topic

-- One more byte in front of the first segment.
push_front : ℕ → List (List ℕ) → List (List ℕ)
push_front c [] = (c ∷ []) ∷ []
push_front c (seg ∷ segs) = (c ∷ seg) ∷ segs

-- The segments that the loops of the file cut off one after the other. A text that ends with a slash
-- has an empty last segment here, where the loops end before it; `common_structure_ok` has refused
-- such a text already.
unfoldable pub split : List ℕ → List (List ℕ)
unfolding push_front
split [] = [] ∷ []
split (c ∷ cs) = if c == slash then [] ∷ split cs else push_front c (split cs)

-- The innermost loop of `sl_topic_is_valid_filter`
unfoldable pub all_chars_ok : List ℕ → Bool
unfolding seg_char_ok
all_chars_ok [] = true
all_chars_ok (c ∷ cs) = if not (seg_char_ok c) then false else all_chars_ok cs

is_last : List (List ℕ) → Bool
is_last [] = true
is_last (x ∷ xs) = false

-- The loop of `sl_topic_is_valid_filter` over the segments
unfoldable pub filter_loop : List (List ℕ) → Bool
unfolding all_chars_ok is_last
filter_loop [] = true
filter_loop (seg ∷ segs) =
    let rest = filter_loop segs in
    if length seg == 0
    then false
    else if bytes_beq seg plus
    then rest
    else if bytes_beq seg hash
    then (if not (is_last segs) then false else rest)
    else if not (all_chars_ok seg)
    then false
    else rest

unfoldable pub is_valid_filter : List ℕ → Bool
unfolding common_structure_ok filter_loop split
is_valid_filter filter =
    if not (common_structure_ok filter) then false else filter_loop (split filter)

-- The loop of `sl_topic_matches` over the segments of the topic and of the filter
unfoldable pub match_loop : List (List ℕ) → List (List ℕ) → Bool
match_loop [] [] = true
match_loop [] (f ∷ fs) = false
match_loop (t ∷ ts) [] = false
match_loop (t ∷ ts) (f ∷ fs) =
    let rest = match_loop ts fs in
    if bytes_beq f hash
    then true
    else if bytes_beq f plus
    then rest
    else if not (bytes_beq f t)
    then false
    else rest

-- `sl_topic_matches`
unfoldable pub matches : List ℕ → List ℕ → Bool
unfolding is_valid_publish is_valid_filter match_loop split
matches topic filter =
    if not (is_valid_publish topic)
    then false
    else if not (is_valid_filter filter)
    then false
    else match_loop (split topic) (split filter)
