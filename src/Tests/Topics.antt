-- ===== src/Tests/Topics.antt =====
-- Topics, their subscribers and the rules at work.
use securelink.Common.{
  ℕ, ◌≡◌, ◌↔◌, refl, true, false, some, List, [], ◌∷◌, ◌++◌, All, arith, length, ◌≤◌,
}
use securelink.Common.Sequences.{run}
use securelink.Common.Text.{codes}
use securelink.Ident.Hexstr.{digit}
use securelink.Topic.{is_valid_publish, is_valid_filter, matches, split, slash, hash}
use securelink.Topic.Matching.{Covers, matches_iff}
use securelink.Topic.Trie
use securelink.Topic.Trie.{matching, member}
use securelink.Topic.Trie.History.{Op, on_op, is_live}
use securelink.Topic.Trie.Walk.{reaches}
use securelink.Topic.Trie.Lookup.{matching_iff, parent-delivered}
use securelink.Topic.Acl
use securelink.Topic.Acl.{TopicAcl, TopicOp, TopicRule, fp_key, allow, deny, check}
use securelink.Topic.Acl.Rules.{check-wildcard, check-allow-deny, after_rule}
use securelink.Topic.Broker.{new, permits, publish, subscribe}
use securelink.Topic.Broker.Delivery.{
  Event, on_event, trie_ops, is_sent, Carries, publish_iff, accepts,
}
use securelink.Topic.Broker.Retained.{retain, last_retained}
use securelink.Topic.Broker.Refused.{is_refused, without_refused, run-without_refused}

abbrev topic : List ℕ
topic = codes "plant/pump"

abbrev one_level : List ℕ
one_level = codes "plant/+"

abbrev all_levels : List ℕ
all_levels = codes "plant/#"

matches_iff_example : (matches topic one_level ≡ true) ↔ (
    (is_valid_publish topic ≡ true)
    × (is_valid_filter one_level ≡ true)
    × Covers (split one_level) (split topic)
    × (length (split one_level) ≤ length (split topic)))
matches_iff_example = matches_iff topic one_level

-- One comes, one comes and goes.
abbrev ops : List Op
ops = Op.sub all_levels 7 ∷ Op.sub one_level 8 ∷ Op.unsub one_level 8 ∷ []

delivered : matching (run on_op Trie.new ops) topic ≡ 7 ∷ []
unfolding matching on_op split Trie.unsubscribe Trie.subscribe
delivered = refl

topic-valid : is_valid_publish topic ≡ true
unfolding is_valid_publish
topic-valid = refl

matching_iff_example :
    (member 7 (matching (run on_op Trie.new ops) topic) ≡ true)
    ↔ ((fs : List (List ℕ)) × (is_live false ops fs 7 ≡ true) × (reaches fs (split topic) ≡ true))
matching_iff_example = matching_iff ops topic 7 topic-valid

parent-delivered_example :
    (member 7 (matching (Trie.subscribe Trie.new (topic ++ (slash ∷ hash)) 7).0 topic) ≡ true)
    × (matches topic (topic ++ (slash ∷ hash)) ≡ false)
parent-delivered_example = parent-delivered Trie.new topic 7

abbrev alice : List ℕ
alice = 171 ∷ 1 ∷ []

abbrev bob : List ℕ
bob = 171 ∷ 2 ∷ []

-- Alice may publish under one level of the plant, and both may subscribe to the pump.
abbrev acl : TopicAcl
acl =
    allow (allow (allow Acl.new alice TopicOp.publish one_level) bob TopicOp.subscribe topic) alice
      TopicOp.subscribe topic

check-allow-deny_example :
    (check (allow acl bob TopicOp.publish all_levels) bob TopicOp.publish topic
      ≡ after_rule acl bob TopicOp.publish
          (record { filter = all_levels; allow = true })
          bob
          TopicOp.publish
          topic)
    × (check (deny acl bob TopicOp.publish all_levels) bob TopicOp.publish topic
        ≡ after_rule acl bob TopicOp.publish
            (record { filter = all_levels; allow = false })
            bob
            TopicOp.publish
            topic)
check-allow-deny_example =
    check-allow-deny acl bob bob all_levels topic TopicOp.publish TopicOp.publish
      (omega arith, (omega arith, tt)) (omega arith, (omega arith, tt))

-- A rule that names the filter itself does not let a subscription with it pass.
wildcard-invalid : is_valid_publish one_level ≡ false
unfolding is_valid_publish
wildcard-invalid = refl

check-wildcard_example :
    check (allow acl bob TopicOp.subscribe one_level) bob TopicOp.subscribe one_level
    ≡ (allow acl bob TopicOp.subscribe one_level).default_allow
check-wildcard_example =
    check-wildcard (allow acl bob TopicOp.subscribe one_level) bob TopicOp.subscribe one_level
      wildcard-invalid

abbrev events : List Event
events = Event.subscribed bob 7 topic ∷ Event.subscribed alice 8 topic ∷ Event.dropped 8 ∷ []

alice-permitted : permits (some acl) alice TopicOp.publish topic ≡ true
unfolding permits check allow matches fp_key digit
alice-permitted = refl

publish_iff_example :
    ((is_sent 7 (publish (run on_event (new (some acl)) events) alice topic (1 ∷ []) true).1 ≡ true)
      ↔ ((fs : List (List ℕ)) × (is_live false (trie_ops (some acl) events) fs 7 ≡ true)
          × (reaches fs (split topic) ≡ true)))
    × All
        (Carries topic (1 ∷ []) false)
        (publish (run on_event (new (some acl)) events) alice topic (1 ∷ []) true).1
publish_iff_example =
    publish_iff (some acl) events alice topic (1 ∷ []) true 7 topic-valid alice-permitted

-- Alice publishes what is to be retained, and then something that is not; Bob may subscribe to the
-- pump, and may neither publish nor subscribe to the whole plant.
abbrev kept : List Event
kept =
    Event.published alice topic (1 ∷ []) true
    ∷ Event.published alice topic (2 ∷ []) false
    ∷ Event.subscribed bob 7 topic
    ∷ Event.published bob topic (3 ∷ []) true
    ∷ Event.subscribed bob 9 all_levels
    ∷ []

first_kept : last_retained (some acl) topic kept ≡ some (1 ∷ [])
unfolding retain is_valid_publish is_valid_filter permits check allow matches fp_key digit
first_kept = refl

bob-accepted : accepts (some acl) bob topic ≡ true
unfolding is_valid_filter permits check allow matches fp_key digit
bob-accepted = refl

-- Two of the five events are refused.
three_left : length (without_refused (some acl) kept) ≡ 3
unfolding without_refused is_refused is_valid_publish is_valid_filter permits check allow matches
    fp_key digit
three_left = refl

run-without_refused_example :
    ((run on_event (new (some acl)) kept).trie
      ≡ (run on_event (new (some acl)) (without_refused (some acl) kept)).trie)
    × ((run on_event (new (some acl)) kept).retained
        ≡ (run on_event (new (some acl)) (without_refused (some acl) kept)).retained)
    × ((publish (run on_event (new (some acl)) kept) alice topic (4 ∷ []) true).1
        ≡ (publish
            (run on_event (new (some acl)) (without_refused (some acl) kept))
            alice
            topic
            (4 ∷ [])
            true).1)
    × ((subscribe (run on_event (new (some acl)) kept) bob 7 topic).1
        ≡ (subscribe
            (run on_event (new (some acl)) (without_refused (some acl) kept))
            bob
            7
            topic).1)
run-without_refused_example =
    run-without_refused (some acl) kept alice topic (4 ∷ []) bob topic true 7
