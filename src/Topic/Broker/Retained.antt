-- ===== src/Topic/Broker/Retained.antt =====
-- The retained messages that a subscription is sent.
use securelink.Common.{
  ℕ, Bool, true, ◌&&◌, ◌≡◌, refl, Option, none, some, List, [], ◌∷◌, arith, if◌then◌else◌,
}
use securelink.Common.Sequences.{run}
use securelink.Common.Assoc.{bytes_eq, bytes_beq}
use securelink.Topic.{is_valid_publish}
use securelink.Topic.Acl.{TopicAcl, TopicOp}
use securelink.Topic.Broker.{
  PubSubDelivery, PubSubBroker, permits, publish, subscribe, unsubscribe, drop_subscriber,
}
use securelink.Topic.Broker.Delivery.{Event, published, subscribed, unsubscribed, dropped, on_event}

-- The payload of the delivery for a topic.
abbrev pub payload_of : List ℕ → List PubSubDelivery → Option (List ℕ)
payload_of topic [] = none
payload_of topic (d ∷ ds) = if bytes_beq d.topic topic then some d.payload else payload_of topic ds

-- Every message that a subscription is sent at once is a retained one, for that subscriber.
abbrev pub Replayed : ℕ → PubSubDelivery → Type 0
Replayed id d = (d.subscriber ≡ id) × (d.retained ≡ true)

-- A publication that is well-formed and permitted.
abbrev pub goes_out : Option TopicAcl → List ℕ → List ℕ → Bool
goes_out acl fp topic = is_valid_publish topic && permits acl fp TopicOp.publish topic

-- The last word on what is retained for the topic: a publication on it that goes out and is to be
-- retained; no other event changes it.
unfoldable pub retain : Option TopicAcl → List ℕ → Option (List ℕ) → Event → Option (List ℕ)
retain acl topic last (published fp t payload keep) =
    if keep && goes_out acl fp t && bytes_beq t topic then some payload else last
retain acl topic last (subscribed fp id filter) = last
retain acl topic last (unsubscribed id filter) = last
retain acl topic last (dropped id) = last

abbrev pub last_retained : Option TopicAcl → List ℕ → List Event → Option (List ℕ)
last_retained acl topic es = run (retain acl topic) none es

pub on_event-acl : (b : PubSubBroker) (e : Event) → (on_event b e).acl ≡ b.acl
unfolding on_event publish subscribe unsubscribe drop_subscriber
on_event-acl b (published fp topic payload keep) = ground arith
on_event-acl b (subscribed fp id filter) = ground arith
on_event-acl b (unsubscribed id filter) = refl
on_event-acl b (dropped id) = refl
