-- ===== src/Topic/Broker/Refused.antt =====
-- The publications and subscriptions that the broker refuses.
use securelink.Common.{
  ℕ, Bool, true, false, not, ◌≡◌, refl, sym, ap, ◌∙◌, Option, List, [], ◌∷◌, arith, if◌then◌else◌,
  Bool-cases, inl, inr,
}
use securelink.Common.Sequences.{run}
use securelink.Common.Assoc.{bytes_eq}
use securelink.Topic.Acl.{TopicAcl}
use securelink.Topic.Broker.{
  PubSubBroker, new, no_stats, publish, subscribe, unsubscribe, drop_subscriber,
}
use securelink.Topic.Broker.Delivery.{
  Event, published, subscribed, unsubscribed, dropped, on_event, accepts,
}
use securelink.Topic.Broker.Retained.{goes_out, on_event-acl}

-- The events without the publications and subscriptions that are malformed or not permitted.
unfoldable pub is_refused : Option TopicAcl → Event → Bool
is_refused acl (published fp topic payload keep) = not (goes_out acl fp topic)
is_refused acl (subscribed fp id filter) = not (accepts acl fp filter)
is_refused acl (unsubscribed id filter) = false
is_refused acl (dropped id) = false

unfoldable pub without_refused : Option TopicAcl → List Event → List Event
without_refused acl [] = []
without_refused acl (e ∷ es) =
    let rest = without_refused acl es in if is_refused acl e then rest else e ∷ rest

-- A broker but for its counters.
abbrev uncounted : PubSubBroker → PubSubBroker
uncounted b = record b { stats = no_stats }

uncounted-on_event :
    (b : PubSubBroker) (e : Event)
    → uncounted (on_event b e)
      ≡ (if is_refused b.acl e then uncounted b else uncounted (on_event (uncounted b) e))
unfolding on_event is_refused publish subscribe unsubscribe drop_subscriber
uncounted-on_event b (published fp topic payload keep) = ground arith
uncounted-on_event b (subscribed fp id filter) = ground arith
uncounted-on_event b (unsubscribed id filter) = refl
uncounted-on_event b (dropped id) = refl

uncounted-refused :
    (b : PubSubBroker) (e : Event)
    → is_refused b.acl e ≡ true
    → uncounted (on_event b e) ≡ uncounted b
uncounted-refused b e r = rw r at (uncounted-on_event b e)

uncounted-kept :
    (b b' : PubSubBroker) (e : Event)
    → is_refused b.acl e ≡ false
    → uncounted b ≡ uncounted b'
    → uncounted (on_event b e) ≡ uncounted (on_event b' e)
uncounted-kept b b' e r same =
    let r' : is_refused b'.acl e ≡ false = ap (λ c. is_refused c.acl e) (sym same) ∙ r in
    let left : uncounted (on_event b e) ≡ uncounted (on_event (uncounted b) e) =
      rw r at (uncounted-on_event b e) in
    let right : uncounted (on_event b' e) ≡ uncounted (on_event (uncounted b') e) =
      rw r' at (uncounted-on_event b' e) in
    left ∙ ap (λ c. uncounted (on_event c e)) same ∙ sym right

run-uncounted :
    (acl : Option TopicAcl) (es : List Event) (b b' : PubSubBroker)
    → b.acl ≡ acl
    → uncounted b ≡ uncounted b'
    → uncounted (run on_event b es) ≡ uncounted (run on_event b' (without_refused acl es))
unfolding without_refused
run-uncounted acl [] b b' e same = same
run-uncounted acl (x ∷ es) b b' e same =
    let next = on_event-acl b x ∙ e in
    elim (Bool-cases (is_refused acl x)) [
      | inl r ↦
          let here = uncounted-refused b x (ap (λ a. is_refused a x) e ∙ r) in
          rw r (run-uncounted acl es (on_event b x) b' next (here ∙ same))
      | inr r ↦
          let here = uncounted-kept b b' x (ap (λ a. is_refused a x) e ∙ r) same in
          rw r (run-uncounted acl es (on_event b x) (on_event b' x) next here)
    ]

sent-uncounted :
    (b : PubSubBroker) (fp topic payload filter : List ℕ) (keep : Bool) (id : ℕ)
    → ((publish b fp topic payload keep).1 ≡ (publish (uncounted b) fp topic payload keep).1)
      × ((subscribe b fp id filter).1 ≡ (subscribe (uncounted b) fp id filter).1)
unfolding publish subscribe
sent-uncounted b fp topic payload filter keep id = (ground arith, ground arith)

-- Publications and subscriptions that are malformed or not permitted leave no trace but in the
-- counters: without them the subscriptions and the retained messages are the same after any events,
-- and so is what the next publication and the next subscription send.
pub run-without_refused :
    (acl : Option TopicAcl) (es : List Event) (fp topic payload fp' filter : List ℕ) (keep : Bool)
    (id : ℕ)
    → let b = run on_event (new acl) es in
      let b' = run on_event (new acl) (without_refused acl es) in
      (b.trie ≡ b'.trie)
      × (b.retained ≡ b'.retained)
      × ((publish b fp topic payload keep).1 ≡ (publish b' fp topic payload keep).1)
      × ((subscribe b fp' id filter).1 ≡ (subscribe b' fp' id filter).1)
run-without_refused acl es fp topic payload fp' filter keep id =
    let b : PubSubBroker = run on_event (new acl) es in
    let b' : PubSubBroker = run on_event (new acl) (without_refused acl es) in
    let same : uncounted b ≡ uncounted b' = run-uncounted acl es (new acl) (new acl) refl refl in
    (
      ap (λ c. c.trie) same,
      ap (λ c. c.retained) same,
      (sent-uncounted b fp topic payload filter keep id).0
          ∙ ap (λ c. (publish c fp topic payload keep).1) same
          ∙ sym (sent-uncounted b' fp topic payload filter keep id).0,
      (sent-uncounted b fp' topic payload filter keep id).1
          ∙ ap (λ c. (subscribe c fp' id filter).1) same
          ∙ sym (sent-uncounted b' fp' topic payload filter keep id).1,
    )
