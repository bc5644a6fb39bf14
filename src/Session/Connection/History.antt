-- ===== src/Session/Connection/History.antt =====
-- What a connection's history says of its state.
use securelink.Common.{
  ℕ, ◌+◌, ◌<◌, ◌^◌, length, Bool, true, false, ◌≡◌, refl, List, [], ◌∷◌, arith, if◌then◌else◌,
}
use securelink.Bytes.{u64}
use securelink.Session.Connection.{
  ConnState, handshaking, authenticated, closing, closed, ConnEvent, start_handshake,
  handshake_done, recv_app_record, send_app_record, ConnectionState, new, on_event, can_send_app,
}

-- The state after events that came at given times.
pub after : ConnectionState → List (ℕ × ConnEvent) → ConnectionState
after c [] = c
after c ((now, ev) ∷ es) = after (on_event c now ev).0 es

-- A history of nothing but application records.
pub only_records : List (ℕ × ConnEvent) → Bool
only_records [] = true
only_records ((now, recv_app_record) ∷ es) = only_records es
only_records ((now, send_app_record) ∷ es) = only_records es
only_records (e ∷ es) = false

-- The handshake, begun and done, with nothing else before or between.
pub is_open_history : List (ℕ × ConnEvent) → Bool
unfolding only_records
is_open_history ((t, start_handshake) ∷ (u, handshake_done) ∷ es) = only_records es
is_open_history _ = false

-- Closing or closed.
abbrev pub is_over : ConnState → Bool
is_over closing = true
is_over closed = true
is_over _ = false

step_over :
    (c : ConnectionState) (now : ℕ) (ev : ConnEvent)
    → is_over c.state ≡ true
    → is_over (on_event c now ev).0.state ≡ true
unfolding on_event
step_over c now ev h = ground arith

after_over :
    (c : ConnectionState) (es : List (ℕ × ConnEvent))
    → is_over c.state ≡ true
    → is_over (after c es).state ≡ true
unfolding after
after_over c [] h = h
after_over c ((now, ev) ∷ es) h = after_over (on_event c now ev).0 es (step_over c now ev h)

over_silent :
    (c : ConnectionState) (es : List (ℕ × ConnEvent))
    → is_over c.state ≡ true
    → can_send_app (after c es) ≡ false
over_silent c es h = ground (arith, after_over c es h)

-- In an authenticated connection.
after_authenticated :
    (c : ConnectionState) (es : List (ℕ × ConnEvent))
    → c.state ≡ authenticated
    → can_send_app (after c es) ≡ only_records es
unfolding after only_records on_event
after_authenticated c [] h = ground arith
after_authenticated c ((now, recv_app_record) ∷ es) h =
    after_authenticated (on_event c now recv_app_record).0 es (ground arith)
after_authenticated c ((now, send_app_record) ∷ es) h =
    after_authenticated (on_event c now send_app_record).0 es (ground arith)
after_authenticated c ((now, ev) ∷ es) h = over_silent (on_event c now ev).0 es (ground arith)

after_handshaking :
    (c : ConnectionState) (t now : ℕ) (es : List (ℕ × ConnEvent))
    → c.state ≡ handshaking
    → can_send_app (after c es) ≡ is_open_history ((t, start_handshake) ∷ es)
unfolding after is_open_history on_event
after_handshaking c t now [] h = ground arith
after_handshaking c t now ((u, handshake_done) ∷ es) h =
    after_authenticated (on_event c u handshake_done).0 es (ground arith)
after_handshaking c t now ((u, ev) ∷ es) h = over_silent (on_event c u ev).0 es (ground arith)

-- A connection may send application records exactly when its history is the start of the handshake,
-- its end, and then application records only, whenever these came.
pub can_send_app_iff :
    (t0 : ℕ) (es : List (ℕ × ConnEvent)) → can_send_app (after (new t0) es) ≡ is_open_history es
unfolding after new is_open_history on_event
can_send_app_iff t0 [] = refl
can_send_app_iff t0 ((t, start_handshake) ∷ es) =
    after_handshaking (on_event (new t0) t start_handshake).0 t t es refl
can_send_app_iff t0 ((t, ev) ∷ es) = over_silent (on_event (new t0) t ev).0 es refl

-- How many of the events are refused.
pub refusals : ConnectionState → List (ℕ × ConnEvent) → ℕ
refusals c [] = 0
refusals c ((now, ev) ∷ es) =
    (if (on_event c now ev).1 then 0 else 1) + refusals (on_event c now ev).0 es

count_step :
    (c : ConnectionState) (now : ℕ) (ev : ConnEvent)
    → ((on_event c now ev).0.invalids
        ≡ (if (on_event c now ev).1 then c.invalids else u64 (c.invalids + 1)))
      × ((on_event c now ev).0.events ≡ u64 (c.events + 1))
unfolding on_event
count_step c now ev = ground arith

after_counts :
    (c : ConnectionState) (es : List (ℕ × ConnEvent))
    → c.invalids < 2 ^ 64
    → c.events < 2 ^ 64
    → ((after c es).invalids ≡ u64 (c.invalids + refusals c es))
      × ((after c es).events ≡ u64 (c.events + length es))
unfolding after refusals
after_counts c [] h k = omega arith
after_counts c ((now, ev) ∷ es) h k =
    ground (arith, count_step c now ev, after_counts (on_event c now ev).0 es)

-- The two counters count the events and the refused ones, modulo 2 ^ 64.
pub counters_lem :
    (t0 : ℕ) (es : List (ℕ × ConnEvent))
    → ((after (new t0) es).invalids ≡ u64 (refusals (new t0) es))
      × ((after (new t0) es).events ≡ u64 (length es))
unfolding new
counters_lem t0 es = omega (arith, after_counts (new t0) es (omega arith) (omega arith))
