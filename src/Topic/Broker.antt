-- ===== src/Topic/Broker.antt =====
-- src/pubsub_broker.cpp: publications, subscriptions and retained messages. Each call is one step: what
-- another thread does between the locks of one call is not modelled.
pub mod Delivery
pub mod Retained
pub mod Refused
use securelink.Common.{
  ℕ, ◌+◌, ◌==◌, Bool, true, false, not, ◌||◌, Option, none, some, List, [], ◌∷◌, map, if◌then◌else◌,
  length,
}
use securelink.Common.Assoc.{insert, bytes_eq}
use securelink.Bytes.{u64}
use securelink.Topic.{is_valid_publish, is_valid_filter, matches}
use securelink.Topic.Acl
use securelink.Topic.Acl.{TopicAcl, TopicOp, check}
use securelink.Topic.Trie
use securelink.Topic.Trie.{TopicTrie, matching}

pub record PubSubDelivery : Type 0 where
  pub subscriber : ℕ
  pub topic : List ℕ
  pub payload : List ℕ
  pub retained : Bool

pub record PubSubBrokerStats : Type 0 where
  pub publishes_total : ℕ
  pub publishes_denied : ℕ
  pub publishes_no_match : ℕ
  pub subscribes_total : ℕ
  pub subscribes_denied : ℕ
  pub unsubscribes_total : ℕ
  pub deliveries_queued : ℕ
  pub retained_replays : ℕ

pub record PubSubBroker : Type 0 where
  pub acl : Option TopicAcl
  pub trie : TopicTrie
  pub retained : List (List ℕ × List ℕ)
  pub stats : PubSubBrokerStats

abbrev pub no_stats : PubSubBrokerStats
no_stats = record {
  publishes_total = 0;
  publishes_denied = 0;
  publishes_no_match = 0;
  subscribes_total = 0;
  subscribes_denied = 0;
  unsubscribes_total = 0;
  deliveries_queued = 0;
  retained_replays = 0;
}

abbrev pub new : Option TopicAcl → PubSubBroker
new acl = record { acl = acl; trie = Trie.new; retained = []; stats = no_stats }

-- `acl_ && !acl_->check(...)` does not hold.
unfoldable pub permits : Option TopicAcl → List ℕ → TopicOp → List ℕ → Bool
permits none fp op s = true
permits (some a) fp op s = check a fp op s

count_denied_publish : PubSubBrokerStats → PubSubBrokerStats
count_denied_publish s = record s {
  publishes_total = u64 (s.publishes_total + 1);
  publishes_denied = u64 (s.publishes_denied + 1);
}

count_publish : ℕ → PubSubBrokerStats → PubSubBrokerStats
count_publish n s = record s {
  publishes_total = u64 (s.publishes_total + 1);
  publishes_no_match = if n == 0 then u64 (s.publishes_no_match + 1) else s.publishes_no_match;
  deliveries_queued = u64 (s.deliveries_queued + n);
}

-- What a subscriber is sent.
delivery : List ℕ → List ℕ → ℕ → PubSubDelivery
delivery topic payload s = record {
  subscriber = s;
  topic = topic;
  payload = payload;
  retained = false;
}

unfoldable pub publish :
    PubSubBroker → List ℕ → List ℕ → List ℕ → Bool → PubSubBroker × List PubSubDelivery
unfolding permits count_denied_publish count_publish delivery
publish b publisher topic payload retain =
    if not (is_valid_publish topic)
    then (record b { stats = count_denied_publish b.stats }, [])
    else if not (permits b.acl publisher TopicOp.publish topic)
    then (record b { stats = count_denied_publish b.stats }, [])
    else let subs = matching b.trie topic in
      (
        record b {
          stats = count_publish (length subs) b.stats;
          retained = if retain then insert topic payload b.retained else b.retained;
        },
        map (delivery topic payload) subs,
      )

-- The loop over the retained messages.
replays : ℕ → List ℕ → List (List ℕ × List ℕ) → List PubSubDelivery
replays sub_id filter [] = []
replays sub_id filter ((topic, payload) ∷ m) =
    let rest = replays sub_id filter m in
    if matches topic filter
    then record { subscriber = sub_id; topic = topic; payload = payload; retained = true } ∷ rest
    else rest

count_denied_subscribe : PubSubBrokerStats → PubSubBrokerStats
count_denied_subscribe s = record s {
  subscribes_total = u64 (s.subscribes_total + 1);
  subscribes_denied = u64 (s.subscribes_denied + 1);
}

count_subscribe : ℕ → PubSubBrokerStats → PubSubBrokerStats
count_subscribe n s = record s {
  subscribes_total = u64 (s.subscribes_total + 1);
  retained_replays = u64 (s.retained_replays + n);
}

unfoldable pub subscribe : PubSubBroker → List ℕ → ℕ → List ℕ → PubSubBroker × List PubSubDelivery
unfolding permits count_denied_subscribe count_subscribe replays
subscribe b subscriber_fp sub_id filter =
    if not (is_valid_filter filter)
    then (record b { stats = count_denied_subscribe b.stats }, [])
    else if not (permits b.acl subscriber_fp TopicOp.subscribe filter)
    then (record b { stats = count_denied_subscribe b.stats }, [])
    else let out = replays sub_id filter b.retained in
      (
        record b {
          trie = (Trie.subscribe b.trie filter sub_id).0;
          stats = count_subscribe (length out) b.stats;
        },
        out,
      )

add_unsubscribes : ℕ → PubSubBrokerStats → PubSubBrokerStats
add_unsubscribes n s = record s { unsubscribes_total = u64 (s.unsubscribes_total + n) }

unfoldable pub unsubscribe : PubSubBroker → ℕ → List ℕ → PubSubBroker × Bool
unfolding add_unsubscribes
unsubscribe b sub_id filter =
    let (trie, done) = Trie.unsubscribe b.trie filter sub_id in
    (record b { trie = trie; stats = if done then add_unsubscribes 1 b.stats else b.stats }, done)

unfoldable pub drop_subscriber : PubSubBroker → ℕ → PubSubBroker × ℕ
unfolding add_unsubscribes
drop_subscriber b sub_id =
    let (trie, n) = Trie.unsubscribe_all b.trie sub_id in
    (record b { trie = trie; stats = if n == 0 then b.stats else add_unsubscribes n b.stats }, n)
