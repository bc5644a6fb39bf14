-- ===== src/Session/Handshake/Order.antt =====
-- In which order the messages of a completed handshake went by.
use securelink.Common.{true, ◌≡◌, refl, sym, ◌∙◌, List, [], ◌∷◌, ◌⊎◌, inl, inr, arith}
use securelink.Common.Sequences.{Subsequence, run}
use securelink.Session.Handshake.{
  HsType, server_hello, certificate, cert_verify, finished, HsState, init, wait_client_hello,
  wait_client_finished, wait_server_hello, wait_certificate, wait_cert_verify, wait_server_finished,
  complete, failed, HsRole, client, server, Reason, HandshakeState, new, is_terminal, fail, start,
  on_sent, on_received,
}

pub data Event : Type 0 where
  begun : Event
  sent : HsType → Event
  received : HsType → Event
  broken : Reason → Event

-- What the owner of the state machine tells it.
unfoldable pub on_event : HandshakeState → Event → HandshakeState
unfolding start on_sent on_received fail
on_event h begun = (start h).0
on_event h (sent t) = (on_sent h t).0
on_event h (received t) = (on_received h t).0
on_event h (broken r) = fail h r

-- What a peer still has to see and do in a state that can lead to the end.
abbrev pub path : HsRole → HsState → List Event
path client init =
    begun ∷ received server_hello ∷ received certificate ∷ received cert_verify ∷ sent finished ∷ []
path client wait_server_hello =
    received server_hello ∷ received certificate ∷ received cert_verify ∷ sent finished ∷ []
path client wait_certificate = received certificate ∷ received cert_verify ∷ sent finished ∷ []
path client wait_cert_verify = received cert_verify ∷ sent finished ∷ []
path client wait_server_finished = sent finished ∷ []
path client _ = []
path server init = begun ∷ received finished ∷ []
path server wait_client_hello = received finished ∷ []
path server wait_client_finished = received finished ∷ []
path server _ = []

-- A step goes on by one message of the path, stays where it is, or fails.
abbrev Advances : HandshakeState → HandshakeState → List Event → List Event → Event → Type 0
Advances h h' path path' e = (h'.state ≡ failed) ⊎ ((path ≡ path') ⊎ (path ≡ e ∷ path'))

role-on_event : (h : HandshakeState) (e : Event) → (on_event h e).role ≡ h.role
unfolding on_event
role-on_event h begun = ground arith
role-on_event h (sent t) = ground arith
role-on_event h (received t) = ground arith
role-on_event h (broken x) = ground arith

advance :
    (r : HsRole) (h : HandshakeState) (e : Event)
    → h.role ≡ r
    → Advances h (on_event h e) (path r h.state) (path r (on_event h e).state) e
unfolding on_event
advance r h begun q = ground arith
advance r h (sent t) q = ground arith
advance r h (received t) q = ground arith
advance r h (broken x) q = ground arith

step_terminal :
    (h : HandshakeState) (e : Event) → is_terminal h.state ≡ true → (on_event h e).state ≡ failed
unfolding on_event
step_terminal h begun t = ground arith
step_terminal h (sent x) t = ground arith
step_terminal h (received x) t = ground arith
step_terminal h (broken x) t = ground arith

run_failed :
    (h : HandshakeState) (es : List Event) → h.state ≡ failed → (run on_event h es).state ≡ failed
run_failed h [] f = f
run_failed h (e ∷ es) f = run_failed (on_event h e) es (step_terminal h e (rw f))

-- Once a handshake is complete or has failed, any further event leaves it failed, whatever follows.
pub run_terminal :
    (h : HandshakeState) (e : Event) (es : List Event)
    → is_terminal h.state ≡ true
    → (run on_event h (e ∷ es)).state ≡ failed
run_terminal h e es t = run_failed (on_event h e) es (step_terminal h e t)

path_end : (r : HsRole) → path r complete ≡ []
path_end client = refl
path_end server = refl

run-path :
    (r : HsRole) (h : HandshakeState) (es : List Event)
    → h.role ≡ r
    → (run on_event h es).state ≡ complete
    → Subsequence (path r h.state) es
run-path r h [] q c = rw (c, path_end r) Subsequence.done
run-path r h (e ∷ es) q c =
    let later = run-path r (on_event h e) es (role-on_event h e ∙ q) c in
    elim (advance r h e q) [
      | inl f ↦ absurd (cc (run_failed (on_event h e) es f))
      | inr (inl same) ↦ rw same (Subsequence.skip later)
      | inr (inr next) ↦ rw next (Subsequence.keep later)
    ]

-- A peer whose handshake is complete went through its path in this order, whatever else it was told
-- in between: a client was started, received ServerHello, Certificate and CertVerify, and sent
-- Finished; a server was started and received Finished.
pub complete-Subsequence :
    (r : HsRole) (es : List Event)
    → (run on_event (new r) es).state ≡ complete
    → Subsequence (path r init) es
unfolding new
complete-Subsequence r es c = run-path r (new r) es refl c

-- The events without the Finished messages of the server.
pub drop_finished : List Event → List Event
drop_finished [] = []
drop_finished (received finished ∷ es) = drop_finished es
drop_finished (e ∷ es) = e ∷ drop_finished es

finished_step :
    (h : HandshakeState)
    → h.role ≡ client
    → ((on_event h (received finished)).state ≡ failed)
      ⊎ ((on_event h (received finished)).state ≡ h.state)
unfolding on_event
finished_step h r = ground arith

-- The counters and the reason of a failure have no part in the transitions.
same_step :
    (h k : HandshakeState) (e : Event)
    → h.role ≡ k.role
    → h.state ≡ k.state
    → ((on_event h e).role ≡ (on_event k e).role) × ((on_event h e).state ≡ (on_event k e).state)
unfolding on_event
same_step h k begun r s = ground arith
same_step h k (sent t) r s = ground arith
same_step h k (received t) r s = ground arith
same_step h k (broken x) r s = ground arith

run_without :
    (h k : HandshakeState) (es : List Event)
    → h.role ≡ client
    → h.role ≡ k.role
    → h.state ≡ k.state
    → (run on_event h es).state ≡ complete
    → (run on_event k (drop_finished es)).state ≡ complete
unfolding drop_finished
run_without h k [] c r s e = sym s ∙ e
run_without h k (received finished ∷ es) c r s e = elim (finished_step h c) [
  | inl f ↦ absurd (cc (run_failed (on_event h (received finished)) es f))
  | inr same ↦
      let kept_role = role-on_event h (received finished) in
      run_without (on_event h (received finished)) k es (kept_role ∙ c) (kept_role ∙ r) (same ∙ s) e
]
run_without h k (x ∷ es) c r s e =
    let (r', s') = same_step h k x r s in
    run_without (on_event h x) (on_event k x) es (role-on_event h x ∙ c) r' s' e

-- A client never needs the Finished message of the server: if its handshake is complete after some
-- events, it is complete after the same events without those messages.
pub client_complete-drop_finished :
    (es : List Event)
    → (run on_event (new client) es).state ≡ complete
    → (run on_event (new client) (drop_finished es)).state ≡ complete
unfolding new
client_complete-drop_finished es c = run_without (new client) (new client) es refl refl refl c
