-- ===== src/Topic/Trie/History.antt =====
-- What the operations on a trie leave in it.
use securelink.Common.{
  ℕ, Bool, true, false, not, ◌&&◌, ◌≡◌, refl, ap, ◌∙◌, List, [], ◌∷◌, arith, ◌==◌, if◌then◌else◌,
}
use securelink.Common.Sequences.{run}
use securelink.Topic.{split}
use securelink.Topic.Trie.{
  Node, node, Children, child, no_child, Found, absent, present, find, or_new, or_new_plus,
  TopicTrie, new, subscribe, unsubscribe, unsubscribe_all, strip, strip_children,
}
use securelink.Topic.Trie.Content.{
  has, same_filter, member-remove, has-empty_node, has-subscribe_at, has-unsubscribe_at,
  subscribe_at-inserted, unsubscribe_at-removed,
}

-- What a broker asks of the trie.
pub data Op : Type 0 where
  sub unsub : List ℕ → ℕ → Op
  drop : ℕ → Op

unfoldable pub on_op : TopicTrie → Op → TopicTrie
on_op t (sub filter i) = (subscribe t filter i).0
on_op t (unsub filter i) = (unsubscribe t filter i).0
on_op t (drop i) = (unsubscribe_all t i).0

-- What the history says of a filter and a subscriber: the last operation on them decides.
pub is_live : Bool → List Op → List (List ℕ) → ℕ → Bool
is_live now [] gs j = now
is_live now (sub filter i ∷ ops) gs j =
    is_live (if same_filter (split filter) gs && (i == j) then true else now) ops gs j
is_live now (drop i ∷ ops) gs j = is_live (if i == j then false else now) ops gs j
is_live now (unsub filter i ∷ ops) gs j =
    is_live (if same_filter (split filter) gs && (i == j) then false else now) ops gs j

-- Without a subscriber every other one is where he was.
strip_found : ℕ → Found → Found
strip_found i absent = absent
strip_found i (present n) = present (strip i n)

find-strip :
    (i : ℕ) (k : List ℕ) (cs : Children) → find k (strip_children i cs) ≡ strip_found i (find k cs)
unfolding strip strip_found
find-strip i k no_child = refl
find-strip i k (child l n cs) = ground (arith, find-strip i k cs)

has-strip :
    (gs : List (List ℕ)) (i j : ℕ) (n : Node)
    → has gs j (strip i n) ≡ (if i == j then false else has gs j n)
unfolding has strip strip_found
has-strip [] i j (node cs p hs es) = member-remove i j es
has-strip (g ∷ gs) i j (node cs p hs es) = ground (
  arith,
  member-remove i j hs,
  find-strip i g cs,
  has-strip gs i j (or_new (find g cs)),
  has-strip gs i j (or_new_plus p),
)

has-run_from :
    (t : TopicTrie) (ops : List Op) (gs : List (List ℕ)) (j : ℕ)
    → has gs j (run on_op t ops).root ≡ is_live (has gs j t.root) ops gs j
unfolding on_op is_live subscribe unsubscribe unsubscribe_all
has-run_from t [] gs j = refl
has-run_from t (sub filter i ∷ ops) gs j =
    has-run_from (subscribe t filter i).0 ops gs j
    ∙ ap (λ b. is_live b ops gs j) (has-subscribe_at (split filter) gs i j t.root)
has-run_from t (drop i ∷ ops) gs j =
    has-run_from (unsubscribe_all t i).0 ops gs j
    ∙ ap (λ b. is_live b ops gs j) (has-strip gs i j t.root)
has-run_from t (unsub filter i ∷ ops) gs j =
    has-run_from (unsubscribe t filter i).0 ops gs j
    ∙ ap (λ b. is_live b ops gs j) (has-unsubscribe_at (split filter) gs i j t.root)

-- After any operations on an empty trie: it holds a subscriber for a filter exactly when the last of
-- the operations on the two was a subscription.
pub has-run :
    (ops : List Op) (gs : List (List ℕ)) (j : ℕ)
    → has gs j (run on_op new ops).root ≡ is_live false ops gs j
has-run ops gs j = has-run_from new ops gs j ∙ ap (λ b. is_live b ops gs j) (has-empty_node gs j)

-- After any operations on an empty trie, `subscribe` says exactly when the subscriber did not have
-- the filter yet, and `unsubscribe` exactly when he had it, by the last operation on the two.
pub run-results :
    (ops : List Op) (filter : List ℕ) (j : ℕ)
    → let t = run on_op new ops in
      let live = is_live false ops (split filter) j in
      ((subscribe t filter j).1 ≡ not live) × ((unsubscribe t filter j).1 ≡ live)
unfolding subscribe unsubscribe
run-results ops filter j =
    let t = run on_op new ops in
    let held = has-run ops (split filter) j in
    (
      subscribe_at-inserted (split filter) j t.root ∙ ap not held,
      unsubscribe_at-removed (split filter) j t.root ∙ held,
    )
