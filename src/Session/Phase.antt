-- ===== src/Session/Phase.antt =====
-- src/stream_state.cpp: the life of one stream.
pub mod Halves
use securelink.Common.{ℕ, Bool, true, false, List, []}

pub data StreamPhase : Type 0 where
  idle active half_closed_local half_closed_remote closed : StreamPhase

-- `active` is `kOpen`; `opened_at` is what the clock said.
pub record StreamState : Type 0 where
  pub id : ℕ
  pub phase : StreamPhase
  pub opened_at : ℕ
  pub reset_reason : List ℕ

unfoldable pub new : ℕ → ℕ → StreamState
new i now = record { id = i; phase = idle; opened_at = now; reset_reason = [] }

-- `open`
unfoldable pub open_stream : StreamState → ℕ → StreamState × Bool
open_stream s now = elim s.phase [
  | idle ↦ (record s { phase = active; opened_at = now }, true)
  | _ ↦ (s, false)
]

unfoldable pub on_sent_fin : StreamState → StreamState × Bool
on_sent_fin s = elim s.phase [
  | active ↦ (record s { phase = half_closed_local }, true)
  | half_closed_remote ↦ (record s { phase = closed }, true)
  | _ ↦ (s, false)
]

unfoldable pub on_recv_fin : StreamState → StreamState × Bool
on_recv_fin s = elim s.phase [
  | active ↦ (record s { phase = half_closed_remote }, true)
  | half_closed_local ↦ (record s { phase = closed }, true)
  | _ ↦ (s, false)
]

unfoldable pub reset_stream : StreamState → List ℕ → StreamState
reset_stream s reason = record s { phase = closed; reset_reason = reason }

abbrev pub can_send : StreamPhase → Bool
can_send active = true
can_send half_closed_remote = true
can_send _ = false

abbrev pub can_recv : StreamPhase → Bool
can_recv active = true
can_recv half_closed_local = true
can_recv _ = false

abbrev pub is_closed : StreamPhase → Bool
is_closed closed = true
is_closed _ = false
