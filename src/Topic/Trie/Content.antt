-- ===== src/Topic/Trie/Content.antt =====
-- The trie as a set of subscriptions: what `subscribe` and `unsubscribe` do to it.
use securelink.Common.{
  ℕ, Bool, true, false, not, ◌&&◌, ◌≡◌, refl, List, [], ◌∷◌, ◌++◌, arith, ◌==◌, if◌then◌else◌,
}
use securelink.Common.Assoc.{bytes_beq, bytes_beq_iff}
use securelink.Topic.{hash, plus}
use securelink.Topic.Trie.{
  member, add, remove, Node, node, Children, child, no_child, Plus, no_plus, plus_to, empty_node,
  Found, absent, present, find, put, or_new, or_new_plus, subscribe_at, unsubscribe_at,
}

abbrev pub has_found : (Node → Bool) → Found → Bool
has_found p absent = false
has_found p (present n) = p n

abbrev pub has_plus : (Node → Bool) → Plus → Bool
has_plus p no_plus = false
has_plus p (plus_to n) = p n

-- The subscriber is recorded for the filter. What stands behind a `#` plays no part.
unfoldable pub has : List (List ℕ) → ℕ → Node → Bool
has [] id (node cs p hs es) = member id es
has (seg ∷ segs) id (node cs p hs es) =
    if bytes_beq seg hash
    then member id hs
    else if bytes_beq seg plus
    then has_plus (has segs id) p
    else has_found (has segs id) (find seg cs)

-- The filters that are recorded in one place.
pub same_filter : List (List ℕ) → List (List ℕ) → Bool
same_filter [] [] = true
same_filter [] (g ∷ gs) = false
same_filter (f ∷ fs) [] = false
same_filter (f ∷ fs) (g ∷ gs) =
    if bytes_beq f hash then bytes_beq g hash else bytes_beq f g && same_filter fs gs

pub same_filter_refl : (fs : List (List ℕ)) → same_filter fs fs ≡ true
unfolding same_filter
same_filter_refl [] = refl
same_filter_refl (f ∷ fs) = ground (arith, bytes_beq_iff f f, same_filter_refl fs)

pub has-empty_node : (gs : List (List ℕ)) (j : ℕ) → has gs j empty_node ≡ false
unfolding has
has-empty_node [] j = refl
has-empty_node (g ∷ gs) j = ground arith

member-append :
    (i j : ℕ) (js : List ℕ) → member i (js ++ (j ∷ [])) ≡ (if i == j then true else member i js)
member-append i j [] = refl
member-append i j (k ∷ ks) = ground (arith, member-append i j ks)

pub member-add :
    (i j : ℕ) (js : List ℕ) → member j (add i js) ≡ (if i == j then true else member j js)
member-add i j js = ground (arith, member-append j i js)

pub member-remove :
    (i j : ℕ) (js : List ℕ) → member j (remove i js) ≡ (if i == j then false else member j js)
member-remove i j [] = ground arith
member-remove i j (k ∷ ks) = ground (arith, member-remove i j ks)

find-put :
    (k j : List ℕ) (m : Node) (cs : Children)
    → find j (put k m cs) ≡ (if bytes_beq k j then present m else find j cs)
find-put k j m no_child = refl
find-put k j m (child i n cs) =
    ground (arith, bytes_beq_iff k j, bytes_beq_iff i k, bytes_beq_iff i j, find-put k j m cs)

has-or_new : (gs : List (List ℕ)) (j : ℕ) (f : Found) → has gs j (or_new f) ≡ has_found (has gs j) f
has-or_new gs j absent = has-empty_node gs j
has-or_new gs j (present n) = refl

has-or_new_plus :
    (gs : List (List ℕ)) (j : ℕ) (p : Plus) → has gs j (or_new_plus p) ≡ has_plus (has gs j) p
has-or_new_plus gs j no_plus = has-empty_node gs j
has-or_new_plus gs j (plus_to n) = refl

-- After a subscription the filter has the subscriber, and nothing else has changed.
pub has-subscribe_at :
    (fs gs : List (List ℕ)) (i j : ℕ) (n : Node)
    → has gs j (subscribe_at fs i n).0
      ≡ (if same_filter fs gs && (i == j) then true else has gs j n)
unfolding has subscribe_at same_filter
has-subscribe_at [] [] i j (node cs p hs es) = ground (arith, member-add i j es)
has-subscribe_at [] (g ∷ gs) i j (node cs p hs es) = ground arith
has-subscribe_at (f ∷ fs) [] i j (node cs p hs es) = ground arith
has-subscribe_at (f ∷ fs) (g ∷ gs) i j (node cs p hs es) = ground (
  arith,
  bytes_beq_iff f g,
  bytes_beq_iff g hash,
  bytes_beq_iff f hash,
  bytes_beq_iff f plus,
  bytes_beq_iff g plus,
  member-add i j hs,
  find-put f g (subscribe_at fs i (or_new (find f cs))).0 cs,
  has-or_new gs j (find f cs),
  has-or_new_plus gs j p,
  has-subscribe_at fs gs i j (or_new (find f cs)),
  has-subscribe_at fs gs i j (or_new_plus p),
)

pub subscribe_at-inserted :
    (fs : List (List ℕ)) (i : ℕ) (n : Node) → (subscribe_at fs i n).1 ≡ not (has fs i n)
unfolding has subscribe_at
subscribe_at-inserted [] i (node cs p hs es) = refl
subscribe_at-inserted (f ∷ fs) i (node cs p hs es) = ground (
  arith,
  has-or_new fs i (find f cs),
  has-or_new_plus fs i p,
  subscribe_at-inserted fs i (or_new (find f cs)),
  subscribe_at-inserted fs i (or_new_plus p),
)

-- After an unsubscription the filter has the subscriber no more, and nothing else has changed.
pub has-unsubscribe_at :
    (fs gs : List (List ℕ)) (i j : ℕ) (n : Node)
    → has gs j (unsubscribe_at fs i n).0
      ≡ (if same_filter fs gs && (i == j) then false else has gs j n)
unfolding has unsubscribe_at same_filter
has-unsubscribe_at [] [] i j (node cs p hs es) = ground (arith, member-remove i j es)
has-unsubscribe_at [] (g ∷ gs) i j (node cs p hs es) = ground arith
has-unsubscribe_at (f ∷ fs) [] i j (node cs p hs es) = ground arith
has-unsubscribe_at (f ∷ fs) (g ∷ gs) i j (node cs p hs es) = ground (
  arith,
  bytes_beq_iff f g,
  bytes_beq_iff g hash,
  bytes_beq_iff f hash,
  bytes_beq_iff f plus,
  bytes_beq_iff g plus,
  member-remove i j hs,
  find-put f g (unsubscribe_at fs i (or_new (find f cs))).0 cs,
  has-unsubscribe_at fs gs i j (or_new (find f cs)),
  has-unsubscribe_at fs gs i j (or_new_plus p),
)

pub unsubscribe_at-removed :
    (fs : List (List ℕ)) (i : ℕ) (n : Node) → (unsubscribe_at fs i n).1 ≡ has fs i n
unfolding has unsubscribe_at
unsubscribe_at-removed [] i (node cs p hs es) = refl
unsubscribe_at-removed (f ∷ fs) i (node cs p hs es) = ground (
  arith,
  unsubscribe_at-removed fs i (or_new (find f cs)),
  unsubscribe_at-removed fs i (or_new_plus p),
)
