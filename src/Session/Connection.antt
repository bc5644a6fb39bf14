-- ===== src/Session/Connection.antt =====
-- src/connection_state.cpp: the life of a connection.
pub mod History
use securelink.Common.{ℕ, ◌+◌, ◌-◌, ◌/◌, Bool, true, false, List, [], ◌∷◌, if◌then◌else◌}
use securelink.Common.Text.{codes}
use securelink.Bytes.{u64}

pub data ConnState : Type 0 where
  fresh handshaking authenticated closing closed : ConnState

pub data ConnEvent : Type 0 where
  start_handshake handshake_done handshake_failed recv_app_record send_app_record : ConnEvent
  begin_close peer_closed io_error timeout : ConnEvent

-- `entered` is what the clock said, in nanoseconds.
pub record ConnectionState : Type 0 where
  pub state : ConnState
  pub entered : ℕ
  pub events : ℕ
  pub invalids : ℕ
  pub close_reason : List ℕ

unfoldable pub new : ℕ → ConnectionState
new now = record { state = fresh; entered = now; events = 0; invalids = 0; close_reason = [] }

unfoldable pub transition_to : ConnectionState → ConnState → ℕ → ConnectionState
transition_to c s now = record c { state = s; entered = now }

reason_or : List ℕ → List ℕ → List ℕ
reason_or [] text = text
reason_or (x ∷ xs) text = x ∷ xs

-- The local function `invalid` of `on_event`.
unfoldable pub invalid : ConnectionState → ℕ → ConnectionState × Bool
unfolding transition_to reason_or
invalid c now = (
  record (transition_to c closed now) {
    invalids = u64 (c.invalids + 1);
    close_reason = reason_or c.close_reason (codes "invalid_transition");
  },
  false,
)

-- The inner `switch` for each state. `stay` is a `return true` with no transition.
pub data Answer : Type 0 where
  go : ConnState → Answer
  stay refuse : Answer

on_fresh : ConnEvent → Answer
on_fresh start_handshake = go handshaking
on_fresh peer_closed = go closed
on_fresh io_error = go closed
on_fresh timeout = go closed
on_fresh _ = refuse

on_handshaking : ConnEvent → Answer
on_handshaking handshake_done = go authenticated
on_handshaking handshake_failed = go closed
on_handshaking peer_closed = go closed
on_handshaking io_error = go closed
on_handshaking timeout = go closed
on_handshaking _ = refuse

on_authenticated : ConnEvent → Answer
on_authenticated recv_app_record = stay
on_authenticated send_app_record = stay
on_authenticated begin_close = go closing
on_authenticated peer_closed = go closed
on_authenticated io_error = go closed
on_authenticated timeout = go closed
on_authenticated _ = refuse

on_closing : ConnEvent → Answer
on_closing peer_closed = go closed
on_closing io_error = go closed
on_closing timeout = go closed
on_closing recv_app_record = stay
on_closing _ = refuse

on_closed : ConnEvent → Answer
on_closed peer_closed = stay
on_closed io_error = stay
on_closed timeout = stay
on_closed _ = refuse

answer : ConnState → ConnEvent → Answer
answer fresh ev = on_fresh ev
answer handshaking ev = on_handshaking ev
answer authenticated ev = on_authenticated ev
answer closing ev = on_closing ev
answer closed ev = on_closed ev

follow : ConnectionState → ℕ → Answer → ConnectionState × Bool
follow c now (go s) = (transition_to c s now, true)
follow c now stay = (c, true)
follow c now refuse = invalid c now

unfoldable pub on_event : ConnectionState → ℕ → ConnEvent → ConnectionState × Bool
unfolding follow answer on_fresh on_handshaking on_authenticated on_closing on_closed invalid
on_event c now ev = follow (record c { events = u64 (c.events + 1) }) now (answer c.state ev)

abbrev pub can_send_app : ConnectionState → Bool
can_send_app c = elim c.state [ authenticated ↦ true | _ ↦ false ]

-- `time_in_state`, in milliseconds.
unfoldable pub time_in_state : ConnectionState → ℕ → ℕ
time_in_state c now = (now - c.entered) / 1000000
