-- ===== src/Topic/Trie/Lookup.antt =====
-- Whom a publication reaches.
use securelink.Common.{
  ℕ, suc, ◌≢◌, true, false, ◌≡◌, ◌↔◌, refl, sym, ap, ◌∙◌, List, [], ◌∷◌, ◌++◌, arith, ◌==◌,
  Bool-cases, inl, inr,
}
use securelink.Common.Sequences.{run}
use securelink.Common.Assoc.{bytes_beq_iff}
use securelink.Topic.{hash, slash, split, push_front, publish_loop, is_valid_publish, matches}
use securelink.Topic.Matching.{matches-parent, split-parent}
use securelink.Topic.Trie.{member, matching, TopicTrie, new, subscribe, subscribe_at}
use securelink.Topic.Trie.History.{Op, on_op, is_live, has-run}
use securelink.Topic.Trie.Content.{has-subscribe_at, same_filter_refl}
use securelink.Topic.Trie.Walk.{reaches, is_plain, member-match_into, hits-has, has-hits}

-- A topic that may be published has neither `+` nor `#` for a segment.
plain-push_front :
    (c : ℕ) (segs : List (List ℕ))
    → is_plain segs ≡ true
    → c ≢ 35
    → c ≢ 43
    → is_plain (push_front c segs) ≡ true
unfolding push_front
plain-push_front c [] h a b = ground arith
plain-push_front c (s ∷ ss) h a b = ground arith

plain-split : (s : List ℕ) (n : ℕ) → publish_loop n s ≡ true → is_plain (split s) ≡ true
unfolding publish_loop split
plain-split [] n h = refl
plain-split (c ∷ cs) n h = elim (Bool-cases (c == slash)) [
  | inl e ↦ ground (arith, e, plain-split cs 0)
  | inr e ↦ ground (arith, e, plain-split cs (suc n), plain-push_front c (split cs))
]

publish-plain : (topic : List ℕ) → is_valid_publish topic ≡ true → is_plain (split topic) ≡ true
unfolding is_valid_publish
publish-plain topic v = plain-split topic 0 (ground arith)

-- After any subscriptions and unsubscriptions a publication to a well-formed topic reaches exactly
-- the subscribers of whom the last word on some filter was to subscribe, where the filter reaches
-- the topic.
pub matching_iff :
    (ops : List Op) (topic : List ℕ) (j : ℕ)
    → is_valid_publish topic ≡ true
    → (member j (matching (run on_op new ops) topic) ≡ true)
      ↔ ((fs : List (List ℕ)) × (is_live false ops fs j ≡ true) × (reaches fs (split topic) ≡ true))
unfolding matching
matching_iff ops topic j v =
    let t = run on_op new ops in
    let found = member-match_into (split topic) j t.root [] in
    (
      (λ m.
          let (fs, held, r) =
            hits-has (split topic) j t.root (publish-plain topic v) (ground (arith, found)) in
          (fs, sym (has-run ops fs j) ∙ held, r)),
      (λ w.
          let hit = has-hits w.0 (split topic) j t.root (has-run ops w.0 j ∙ w.1) w.2 in
          ground (arith, found, hit)),
    )

-- A filter with `#` behind a topic reaches the topic in the trie.
reaches-parent : (ts : List (List ℕ)) → reaches (ts ++ (hash ∷ [])) ts ≡ true
reaches-parent [] = refl
reaches-parent (t ∷ ts) = ground (arith, reaches-parent ts, bytes_beq_iff t t)

-- Whatever the trie holds: a subscription to `topic/#` is reached by what is published to `topic`,
-- though `sl_topic_matches`, which chooses the retained messages, says that the two do not match.
pub parent-delivered :
    (t : TopicTrie) (topic : List ℕ) (id : ℕ)
    → let filter = topic ++ (slash ∷ hash) in
      (member id (matching (subscribe t filter id).0 topic) ≡ true) × (matches topic filter ≡ false)
unfolding matching subscribe
parent-delivered t topic id =
    let filter = topic ++ (slash ∷ hash) in
    let n = (subscribe_at (split filter) id t.root).0 in
    let held = has-subscribe_at (split filter) (split filter) id id t.root in
    let reached : reaches (split filter) (split topic) ≡ true =
      ap (λ fs. reaches fs (split topic)) (split-parent topic) ∙ reaches-parent (split topic) in
    let hit =
      has-hits (split filter) (split topic) id n
        (ground (arith, held, same_filter_refl (split filter))) reached in
    (ground (arith, member-match_into (split topic) id n [], hit), matches-parent topic)
