-- ===== src/Topic/Trie/Walk.antt =====
-- The walk of `match` finds the filters that reach the topic, and their subscribers.
use securelink.Common.{
  ℕ, Bool, true, false, not, ◌&&◌, ◌||◌, ◌≡◌, refl, List, [], ◌∷◌, arith, if◌then◌else◌, Bool-cases,
  inl, inr,
}
use securelink.Common.Assoc.{bytes_beq, bytes_beq_iff}
use securelink.Topic.{hash, plus, match_loop}
use securelink.Topic.Trie.{
  member, add, Node, node, Plus, no_plus, plus_to, Found, absent, present, find, add_all,
  into_child, into_plus, match_into,
}
use securelink.Topic.Trie.Content.{has, has_found, has_plus, member-add}

-- The segments of the filter reach those of the topic: as `Covers`, where `#` stands for zero
-- segments too.
abbrev pub reaches : List (List ℕ) → List (List ℕ) → Bool
reaches [] [] = true
reaches [] (t ∷ ts) = false
reaches (f ∷ fs) [] = bytes_beq f hash
reaches (f ∷ fs) (t ∷ ts) =
    if bytes_beq f hash
    then true
    else if bytes_beq f plus
    then reaches fs ts
    else if bytes_beq f t
    then reaches fs ts
    else false

-- The topic is what stands in front of the `#`.
abbrev pub is_parent : List (List ℕ) → List (List ℕ) → Bool
is_parent [] ts = false
is_parent (f ∷ fs) [] = bytes_beq f hash
is_parent (f ∷ fs) (t ∷ ts) =
    if bytes_beq f hash
    then false
    else if bytes_beq f plus
    then is_parent fs ts
    else if bytes_beq f t
    then is_parent fs ts
    else false

-- The trie reaches what `sl_topic_matches` matches, and the parents besides.
pub reaches-match_loop :
    (fs ts : List (List ℕ)) → reaches fs ts ≡ match_loop ts fs || is_parent fs ts
unfolding match_loop
reaches-match_loop [] [] = refl
reaches-match_loop [] (t ∷ ts) = refl
reaches-match_loop (f ∷ fs) [] = ground arith
reaches-match_loop (f ∷ fs) (t ∷ ts) = ground (arith, reaches-match_loop fs ts)

abbrev pub plain_seg : List ℕ → Bool
plain_seg s = not (bytes_beq s hash) && not (bytes_beq s plus)

abbrev pub is_plain : List (List ℕ) → Bool
is_plain [] = true
is_plain (t ∷ ts) = plain_seg t && is_plain ts

-- The walk as a test.
pub hits : List (List ℕ) → ℕ → Node → Bool
hits [] j (node cs p hs es) = member j hs || member j es
hits (t ∷ ts) j (node cs p hs es) =
    member j hs || (has_found (hits ts j) (find t cs) || has_plus (hits ts j) p)

member-add_all : (j : ℕ) (js out : List ℕ) → member j (add_all js out) ≡ member j out || member j js
unfolding add_all
member-add_all j [] out = ground arith
member-add_all j (k ∷ ks) out = ground (arith, member-add_all j ks (add k out), member-add k j out)

into_found :
    (ts : List (List ℕ)) (j : ℕ) (x : Found) (out : List ℕ)
    → ((n : Node) (o : List ℕ) → member j (match_into ts n o) ≡ member j o || hits ts j n)
    → member j (into_child (match_into ts) x out) ≡ member j out || has_found (hits ts j) x
unfolding into_child
into_found ts j absent out ih = ground arith
into_found ts j (present n) out ih = ih n out

into_plus_lem :
    (ts : List (List ℕ)) (j : ℕ) (x : Plus) (out : List ℕ)
    → ((n : Node) (o : List ℕ) → member j (match_into ts n o) ≡ member j o || hits ts j n)
    → member j (into_plus (match_into ts) x out) ≡ member j out || has_plus (hits ts j) x
unfolding into_plus
into_plus_lem ts j no_plus out ih = ground arith
into_plus_lem ts j (plus_to n) out ih = ih n out

pub member-match_into :
    (ts : List (List ℕ)) (j : ℕ) (n : Node) (out : List ℕ)
    → member j (match_into ts n out) ≡ member j out || hits ts j n
unfolding match_into hits
member-match_into [] j (node cs p hs es) out =
    ground (arith, member-add_all j es (add_all hs out), member-add_all j hs out)
member-match_into (t ∷ ts) j (node cs p hs es) out =
    let out' = add_all hs out in
    let out'' = into_child (match_into ts) (find t cs) out' in
    ground (
      arith,
      into_plus_lem ts j p out'' (member-match_into ts j),
      into_found ts j (find t cs) out' (member-match_into ts j),
      member-add_all j hs out,
    )

found_some :
    (q : Node → Bool) (x : Found)
    → has_found q x ≡ true
    → (n : Node) × (x ≡ present n) × (q n ≡ true)
found_some q absent h = absurd (cc)
found_some q (present n) h = (n, refl, h)

plus_some :
    (q : Node → Bool) (x : Plus) → has_plus q x ≡ true → (n : Node) × (x ≡ plus_to n) × (q n ≡ true)
plus_some q no_plus h = absurd (cc)
plus_some q (plus_to n) h = (n, refl, h)

-- Behind a hit stands a filter that reaches the topic.
pub hits-has :
    (ts : List (List ℕ)) (j : ℕ) (n : Node)
    → is_plain ts ≡ true
    → hits ts j n ≡ true
    → (fs : List (List ℕ)) × (has fs j n ≡ true) × (reaches fs ts ≡ true)
unfolding has hits
hits-has [] j (node cs p hs es) pl h = elim (Bool-cases (member j hs)) [
  | inl m ↦ (hash ∷ [], m, refl)
  | inr m ↦ ([], ground arith, refl)
]
hits-has (t ∷ ts) j (node cs p hs es) pl h = elim (Bool-cases (member j hs)) [
  | inl m ↦ (hash ∷ [], m, refl)
  | inr m ↦ elim (Bool-cases (has_found (hits ts j) (find t cs))) [
    | inl f ↦
        let (n, e, q) = found_some (hits ts j) (find t cs) f in
        let (fs, held, r) = hits-has ts j n (ground arith) q in
        (t ∷ fs, ground (arith, e), ground (arith, bytes_beq_iff t t))
    | inr f ↦
        let (n, e, q) = plus_some (hits ts j) p (ground arith) in
        let (fs, held, r) = hits-has ts j n (ground arith) q in (plus ∷ fs, rw e held, r)
  ]
]

found_mono :
    (q r : Node → Bool) (x : Found)
    → ((n : Node) → q n ≡ true → r n ≡ true)
    → has_found q x ≡ true
    → has_found r x ≡ true
found_mono q r absent m h = h
found_mono q r (present n) m h = m n h

plus_mono :
    (q r : Node → Bool) (x : Plus)
    → ((n : Node) → q n ≡ true → r n ≡ true)
    → has_plus q x ≡ true
    → has_plus r x ≡ true
plus_mono q r no_plus m h = h
plus_mono q r (plus_to n) m h = m n h

pub has-hits :
    (fs ts : List (List ℕ)) (j : ℕ) (n : Node)
    → has fs j n ≡ true
    → reaches fs ts ≡ true
    → hits ts j n ≡ true
unfolding has hits
has-hits [] [] j (node cs p hs es) h r = ground arith
has-hits [] (t ∷ ts) j (node cs p hs es) h r = absurd (cc)
has-hits (f ∷ fs) [] j (node cs p hs es) h r = ground arith
has-hits (f ∷ fs) (t ∷ ts) j (node cs p hs es) h r = elim (Bool-cases (bytes_beq f hash)) [
  | inl e ↦ ground arith
  | inr e ↦ elim (Bool-cases (bytes_beq f plus)) [
    | inl q ↦
        let below =
          plus_mono (has fs j) (hits ts j) p (λ n k. has-hits fs ts j n k (ground arith))
            (ground arith) in
        ground arith
    | inr q ↦
        let same : f ≡ t = ground (arith, bytes_beq_iff f t) in
        let below =
          found_mono (has fs j) (hits ts j) (find f cs) (λ n k. has-hits fs ts j n k (ground arith))
            (ground arith) in
        ground (arith, same)
  ]
]
