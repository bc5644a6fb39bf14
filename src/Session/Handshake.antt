-- ===== src/Session/Handshake.antt =====
-- src/handshake_state.cpp: which handshake message may be sent or received next.
pub mod Order
use securelink.Common.{ℕ, ◌+◌, Bool, true, false, Option, none, some, List, if◌then◌else◌}
use securelink.Bytes.{u32}

pub data HsType : Type 0 where
  invalid client_hello server_hello certificate cert_verify finished : HsType

pub data HsState : Type 0 where
  init wait_client_hello wait_server_hello wait_certificate wait_cert_verify : HsState
  wait_server_finished wait_client_finished complete failed : HsState

pub data HsRole : Type 0 where
  client server : HsRole

-- The texts that the code passes to `fail`, and those of its callers.
pub data Reason : Type 0 where
  no_reason start_in_non_init send_after_terminal recv_after_terminal : Reason
  unexpected_client_send unexpected_server_send : Reason
  unexpected_client_recv unexpected_server_recv : Reason
  given : List ℕ → Reason

pub record HandshakeState : Type 0 where
  pub role : HsRole
  pub state : HsState
  pub sent : ℕ
  pub recv : ℕ
  pub failure_reason : Reason

unfoldable pub new : HsRole → HandshakeState
new r = record { role = r; state = init; sent = 0; recv = 0; failure_reason = no_reason }

abbrev pub is_complete : HsState → Bool
is_complete complete = true
is_complete _ = false

-- `is_terminal`
abbrev pub is_terminal : HsState → Bool
is_terminal complete = true
is_terminal failed = true
is_terminal _ = false

unfoldable pub fail : HandshakeState → Reason → HandshakeState
fail h r = record h { state = failed; failure_reason = r }

-- The assignments of a `case` that is left by `return true`; `none` where it is left by `break`.
first_wait : HsRole → HsState
first_wait client = wait_server_hello
first_wait server = wait_client_hello

unfoldable pub start : HandshakeState → HandshakeState × Bool
unfolding fail first_wait
start h = elim h.state [
  | init ↦ (record h { state = first_wait h.role }, true)
  | _ ↦ (fail h start_in_non_init, false)
]

unfoldable pub client_sends : HsType → HsState → Option HsState
client_sends client_hello wait_server_hello = some wait_server_hello
client_sends finished wait_server_finished = some complete
client_sends finished complete = some complete
client_sends _ _ = none

unfoldable pub server_sends : HsType → HsState → Option HsState
server_sends server_hello wait_client_finished = some wait_client_finished
server_sends server_hello wait_client_hello = some wait_client_finished
server_sends certificate wait_client_finished = some wait_client_finished
server_sends certificate wait_client_hello = some wait_client_finished
server_sends cert_verify wait_client_finished = some wait_client_finished
server_sends cert_verify wait_client_hello = some wait_client_finished
server_sends finished wait_client_finished = some wait_client_finished
server_sends _ _ = none

unfoldable pub client_receives : HsType → HsState → Option HsState
client_receives server_hello wait_server_hello = some wait_certificate
client_receives certificate wait_certificate = some wait_cert_verify
client_receives cert_verify wait_cert_verify = some wait_server_finished
client_receives finished wait_server_finished = some wait_server_finished
client_receives _ _ = none

unfoldable pub server_receives : HsType → HsState → Option HsState
server_receives client_hello wait_client_hello = some wait_client_hello
server_receives finished wait_client_finished = some complete
server_receives _ _ = none

-- The state is set, or the handshake fails.
settle : HandshakeState → Reason → Option HsState → HandshakeState × Bool
settle h r none = (fail h r, false)
settle h r (some s) = (record h { state = s }, true)

sends : HandshakeState → HsType → HandshakeState × Bool
sends h t = elim h.role [
  | client ↦ settle h unexpected_client_send (client_sends t h.state)
  | server ↦ settle h unexpected_server_send (server_sends t h.state)
]

receives : HandshakeState → HsType → HandshakeState × Bool
receives h t = elim h.role [
  | client ↦ settle h unexpected_client_recv (client_receives t h.state)
  | server ↦ settle h unexpected_server_recv (server_receives t h.state)
]

unfoldable pub on_sent : HandshakeState → HsType → HandshakeState × Bool
unfolding sends settle fail client_sends server_sends
on_sent h t =
    if is_terminal h.state
    then (fail h send_after_terminal, false)
    else sends (record h { sent = u32 (h.sent + 1) }) t

unfoldable pub on_received : HandshakeState → HsType → HandshakeState × Bool
unfolding receives settle fail client_receives server_receives
on_received h t =
    if is_terminal h.state
    then (fail h recv_after_terminal, false)
    else receives (record h { recv = u32 (h.recv + 1) }) t
