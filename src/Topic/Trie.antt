-- ===== src/Topic/Trie.antt =====
-- src/topic_trie.cpp: who has subscribed to what, as a tree keyed by segments.
pub mod Content
pub mod History
pub mod Walk
pub mod Lookup
use securelink.Common.{
  ℕ, ◌+◌, ◌-◌, ◌^◌, Bool, true, false, not, List, [], ◌∷◌, ◌++◌, ◌==◌, if◌then◌else◌,
}
use securelink.Common.Assoc.{bytes_beq}
use securelink.Bytes.{u64}
use securelink.Topic.{hash, plus, split}

-- A set of subscribers without repetitions. What an iteration yields first is left open by the
-- program; here the newest comes last.
abbrev pub member : ℕ → List ℕ → Bool
member i [] = false
member i (j ∷ js) = if i == j then true else member i js

-- `insert(i)`, and its `.second`
abbrev pub add : ℕ → List ℕ → List ℕ
add i js = if member i js then js else js ++ (i ∷ [])

-- `erase(i)`
abbrev pub remove : ℕ → List ℕ → List ℕ
remove i [] = []
remove i (j ∷ js) = if i == j then remove i js else j ∷ remove i js

-- `Node`
mutual
  pub data Node : Type 0 where
    node : Children → Plus → List ℕ → List ℕ → Node

  pub data Children : Type 0 where
    no_child : Children
    child : List ℕ → Node → Children → Children

  pub data Plus : Type 0 where
    no_plus : Plus
    plus_to : Node → Plus

abbrev pub empty_node : Node
empty_node = node no_child no_plus [] []

-- `children.find(key)`
pub data Found : Type 0 where
  absent : Found
  present : Node → Found

abbrev pub find : List ℕ → Children → Found
find key no_child = absent
find key (child k n cs) = if bytes_beq k key then present n else find key cs

-- `children[key] = n`
abbrev pub put : List ℕ → Node → Children → Children
put key m no_child = child key m no_child
put key m (child k n cs) = if bytes_beq k key then child k m cs else child k n (put key m cs)

-- The node, made where there is none.
abbrev pub or_new : Found → Node
or_new absent = empty_node
or_new (present n) = n

abbrev pub or_new_plus : Plus → Node
or_new_plus no_plus = empty_node
or_new_plus (plus_to n) = n

-- The loop of `subscribe` from a node on: the changed node, and `inserted`.
unfoldable pub subscribe_at : List (List ℕ) → ℕ → Node → Node × Bool
subscribe_at [] id (node cs p hs es) = (node cs p hs (add id es), not (member id es))
subscribe_at (seg ∷ segs) id (node cs p hs es) =
    let below_plus = subscribe_at segs id (or_new_plus p) in
    let below_child = subscribe_at segs id (or_new (find seg cs)) in
    if bytes_beq seg hash
    then (node cs p (add id hs) es, not (member id hs))
    else if bytes_beq seg plus
    then (node cs (plus_to below_plus.0) hs es, below_plus.1)
    else (node (put seg below_child.0 cs) p hs es, below_child.1)

-- A `return false` that changes nothing, or the changed child.
in_child : List ℕ → Children → Plus → List ℕ → List ℕ → (Node → Node × Bool) → Found → Node × Bool
in_child seg cs p hs es go absent = (node cs p hs es, false)
in_child seg cs p hs es go (present n) = (node (put seg (go n).0 cs) p hs es, (go n).1)

in_plus : Children → List ℕ → List ℕ → (Node → Node × Bool) → Plus → Node × Bool
in_plus cs hs es go no_plus = (node cs no_plus hs es, false)
in_plus cs hs es go (plus_to n) = (node cs (plus_to (go n).0) hs es, (go n).1)

-- The loop of `unsubscribe`: the changed node, and `removed`.
unfoldable pub unsubscribe_at : List (List ℕ) → ℕ → Node → Node × Bool
unfolding in_child in_plus
unsubscribe_at [] id (node cs p hs es) = (node cs p hs (remove id es), member id es)
unsubscribe_at (seg ∷ segs) id (node cs p hs es) =
    if bytes_beq seg hash
    then (node cs p (remove id hs) es, member id hs)
    else if bytes_beq seg plus
    then in_plus cs hs es (unsubscribe_at segs id) p
    else in_child seg cs p hs es (unsubscribe_at segs id) (find seg cs)

pub record TopicTrie : Type 0 where
  pub root : Node
  pub total_subs : ℕ

abbrev pub new : TopicTrie
new = record { root = empty_node; total_subs = 0 }

-- `total_subs_` is a `size_t`.
unfoldable pub subscribe : TopicTrie → List ℕ → ℕ → TopicTrie × Bool
unfolding subscribe_at
subscribe t filter id =
    let (n, inserted) = subscribe_at (split filter) id t.root in
    (
      record { root = n; total_subs = if inserted then u64 (t.total_subs + 1) else t.total_subs },
      inserted,
    )

unfoldable pub unsubscribe : TopicTrie → List ℕ → ℕ → TopicTrie × Bool
unfolding unsubscribe_at
unsubscribe t filter id =
    let (n, removed) = unsubscribe_at (split filter) id t.root in
    (
      record {
        root = n;
        total_subs = if removed then u64 (t.total_subs + (2 ^ 64 - 1)) else t.total_subs;
      },
      removed,
    )

-- `erase(i)`, as a number of subscribers fewer
abbrev held : ℕ → List ℕ → ℕ
held i js = if member i js then 1 else 0

-- The walk of `unsubscribe_all`: the tree without the subscriber. The order of the visits plays no
-- part, since each touches its own node only.
mutual
  strip : ℕ → Node → Node
  strip id (node cs p hs es) =
      node (strip_children id cs) (strip_plus id p) (remove id hs) (remove id es)

  strip_children : ℕ → Children → Children
  strip_children id no_child = no_child
  strip_children id (child k n cs) = child k (strip id n) (strip_children id cs)

  strip_plus : ℕ → Plus → Plus
  strip_plus id no_plus = no_plus
  strip_plus id (plus_to n) = plus_to (strip id n)

-- How often it removes the subscriber.
mutual
  removals : ℕ → Node → ℕ
  removals id (node cs p hs es) =
      held id es + held id hs + removals_plus id p + removals_children id cs

  removals_children : ℕ → Children → ℕ
  removals_children id no_child = 0
  removals_children id (child k n cs) = removals id n + removals_children id cs

  removals_plus : ℕ → Plus → ℕ
  removals_plus id no_plus = 0
  removals_plus id (plus_to n) = removals id n

unfoldable pub unsubscribe_all : TopicTrie → ℕ → TopicTrie × ℕ
unfolding strip removals
unsubscribe_all t id =
    let n = removals id t.root in
    (record { root = strip id t.root; total_subs = u64 (t.total_subs + (2 ^ 64 - u64 n)) }, n)

-- `out.insert(s)` for each subscriber
unfoldable pub add_all : List ℕ → List ℕ → List ℕ
add_all [] out = out
add_all (i ∷ js) out = add_all js (add i out)

into_child : (Node → List ℕ → List ℕ) → Found → List ℕ → List ℕ
into_child go absent out = out
into_child go (present n) out = go n out

into_plus : (Node → List ℕ → List ℕ) → Plus → List ℕ → List ℕ
into_plus go no_plus out = out
into_plus go (plus_to n) out = go n out

unfoldable pub match_into : List (List ℕ) → Node → List ℕ → List ℕ
unfolding add_all into_child into_plus
match_into [] (node cs p hs es) out = add_all es (add_all hs out)
match_into (seg ∷ segs) (node cs p hs es) out =
    into_plus (match_into segs) p (into_child (match_into segs) (find seg cs) (add_all hs out))

-- `match`
unfoldable pub matching : TopicTrie → List ℕ → List ℕ
unfolding match_into
matching t topic = match_into (split topic) t.root []
