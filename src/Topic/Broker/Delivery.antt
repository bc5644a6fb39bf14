-- ===== src/Topic/Broker/Delivery.antt =====
-- Who is sent what.
use securelink.Common.{
  ℕ, Bool, true, false, ◌&&◌, ◌≡◌, ◌↔◌, refl, sym, ap, subst, ◌∙◌, Option, List, [], ◌∷◌, map,
  arith, if◌then◌else◌, ◌==◌, All,
}
use securelink.Common.Sequences.{run}
use securelink.Common.Assoc.{bytes_eq}
use securelink.Topic.{is_valid_publish, is_valid_filter, split}
use securelink.Topic.Acl.{TopicAcl, TopicOp}
use securelink.Topic.Trie
use securelink.Topic.Trie.{TopicTrie, matching, member}
use securelink.Topic.Trie.History.{Op, on_op, is_live}
use securelink.Topic.Trie.Lookup.{matching_iff}
use securelink.Topic.Trie.Walk.{reaches}
use securelink.Topic.Broker.{
  PubSubDelivery, PubSubBroker, new, permits, publish, subscribe, unsubscribe, drop_subscriber,
  delivery,
}

pub data Event : Type 0 where
  published : List ℕ → List ℕ → List ℕ → Bool → Event
  subscribed : List ℕ → ℕ → List ℕ → Event
  unsubscribed : ℕ → List ℕ → Event
  dropped : ℕ → Event

unfoldable pub on_event : PubSubBroker → Event → PubSubBroker
on_event b (published fp topic payload retain) = (publish b fp topic payload retain).0
on_event b (subscribed fp id filter) = (subscribe b fp id filter).0
on_event b (unsubscribed id filter) = (unsubscribe b id filter).0
on_event b (dropped id) = (drop_subscriber b id).0

abbrev pub accepts : Option TopicAcl → List ℕ → List ℕ → Bool
accepts acl fp filter = is_valid_filter filter && permits acl fp TopicOp.subscribe filter

-- What the broker does to its trie: a subscription has to be a filter that the rules permit.
pub trie_ops : Option TopicAcl → List Event → List Op
trie_ops acl [] = []
trie_ops acl (published fp topic payload retain ∷ es) = trie_ops acl es
trie_ops acl (subscribed fp id filter ∷ es) =
    if accepts acl fp filter then Op.sub filter id ∷ trie_ops acl es else trie_ops acl es
trie_ops acl (unsubscribed id filter ∷ es) = Op.unsub filter id ∷ trie_ops acl es
trie_ops acl (dropped id ∷ es) = Op.drop id ∷ trie_ops acl es

subscribe-trie :
    (b : PubSubBroker) (fp : List ℕ) (id : ℕ) (filter : List ℕ)
    → ((subscribe b fp id filter).0.trie
        ≡ (if accepts b.acl fp filter then (Trie.subscribe b.trie filter id).0 else b.trie))
      × ((subscribe b fp id filter).0.acl ≡ b.acl)
unfolding subscribe
subscribe-trie b fp id filter = ground arith

publish-trie :
    (b : PubSubBroker) (fp topic payload : List ℕ) (retain : Bool)
    → ((publish b fp topic payload retain).0.trie ≡ b.trie)
      × ((publish b fp topic payload retain).0.acl ≡ b.acl)
unfolding publish
publish-trie b fp topic payload retain = ground arith

run_if :
    (c : Bool) (o : Op) (ops : List Op) (t : TopicTrie)
    → run on_op (if c then on_op t o else t) ops ≡ run on_op t (if c then o ∷ ops else ops)
run_if true o ops t = refl
run_if false o ops t = refl

run-trie :
    (b : PubSubBroker) (acl : Option TopicAcl) (es : List Event)
    → b.acl ≡ acl
    → ((run on_event b es).trie ≡ run on_op b.trie (trie_ops acl es))
      × ((run on_event b es).acl ≡ acl)
unfolding on_event trie_ops unsubscribe drop_subscriber on_op
run-trie b acl [] e = (refl, e)
run-trie b acl (published fp topic payload retain ∷ es) e =
    let (t, a) = publish-trie b fp topic payload retain in
    let later = run-trie (publish b fp topic payload retain).0 acl es (a ∙ e) in
    (later.0 ∙ ap (λ x. run on_op x (trie_ops acl es)) t, later.1)
run-trie b acl (subscribed fp id filter ∷ es) e =
    let (t, a) = subscribe-trie b fp id filter in
    let later = run-trie (subscribe b fp id filter).0 acl es (a ∙ e) in
    let chosen =
      t ∙ ap (λ c. if accepts c fp filter then (Trie.subscribe b.trie filter id).0 else b.trie) e in
    (
      later.0
          ∙ ap (λ x. run on_op x (trie_ops acl es)) chosen
          ∙ run_if (accepts acl fp filter) (Op.sub filter id) (trie_ops acl es) b.trie,
      later.1,
    )
run-trie b acl (unsubscribed id filter ∷ es) e = run-trie (unsubscribe b id filter).0 acl es e
run-trie b acl (dropped id ∷ es) e = run-trie (drop_subscriber b id).0 acl es e

-- The deliveries of a publication.
abbrev pub is_sent : ℕ → List PubSubDelivery → Bool
is_sent j [] = false
is_sent j (d ∷ ds) = if j == d.subscriber then true else is_sent j ds

is_sent-map :
    (topic payload : List ℕ) (j : ℕ) (js : List ℕ)
    → is_sent j (map (delivery topic payload) js) ≡ member j js
unfolding delivery
is_sent-map topic payload j [] = refl
is_sent-map topic payload j (k ∷ ks) = ground (arith, is_sent-map topic payload j ks)

abbrev pub Carries : List ℕ → List ℕ → Bool → PubSubDelivery → Type 0
Carries topic payload retained d =
    (d.topic ≡ topic) × (d.payload ≡ payload) × (d.retained ≡ retained)

carried :
    (topic payload : List ℕ) (js : List ℕ)
    → All (Carries topic payload false) (map (delivery topic payload) js)
unfolding delivery
carried topic payload [] = tt
carried topic payload (j ∷ js) = ((refl, refl, refl), carried topic payload js)

publish-sent :
    (b : PubSubBroker) (fp topic payload : List ℕ) (retain : Bool)
    → is_valid_publish topic ≡ true
    → permits b.acl fp TopicOp.publish topic ≡ true
    → (publish b fp topic payload retain).1 ≡ map (delivery topic payload) (matching b.trie topic)
unfolding publish
publish-sent b fp topic payload retain v p = ground arith

-- After any events a publication that is well-formed and permitted is delivered, with its topic and
-- its payload, to exactly the subscribers with a filter that reaches the topic, where their last
-- word on the filter was a subscription that was well-formed and permitted.
pub publish_iff :
    (acl : Option TopicAcl) (es : List Event) (fp topic payload : List ℕ) (retain : Bool) (j : ℕ)
    → is_valid_publish topic ≡ true
    → permits acl fp TopicOp.publish topic ≡ true
    → let sent = (publish (run on_event (new acl) es) fp topic payload retain).1 in
      ((is_sent j sent ≡ true) ↔ (
        (fs : List (List ℕ)) × (is_live false (trie_ops acl es) fs j ≡ true)
        × (reaches fs (split topic) ≡ true)))
      × All (Carries topic payload false) sent
publish_iff acl es fp topic payload retain j v p =
    let b = run on_event (new acl) es in
    let subs = matching (run on_op Trie.new (trie_ops acl es)) topic in
    let (t, a) = run-trie (new acl) acl es refl in
    let all_sent : (publish b fp topic payload retain).1 ≡ map (delivery topic payload) subs =
      publish-sent b fp topic payload retain v (ap (λ c. permits c fp TopicOp.publish topic) a ∙ p)
      ∙ ap (λ x. map (delivery topic payload) (matching x topic)) t in
    let whom = ap (is_sent j) all_sent ∙ is_sent-map topic payload j subs in
    let reached = matching_iff (trie_ops acl es) topic j v in
    (
      (λ h. reached.0 (sym whom ∙ h), λ w. whom ∙ reached.1 w),
      subst (All (Carries topic payload false)) (sym all_sent) (carried topic payload subs),
    )
