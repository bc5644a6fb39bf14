-- ===== src/Session/Mux/Run.antt =====
-- The calls of the multiplexer, in any order.
use securelink.Common.{ℕ, Bool, List}
use securelink.Wire.Frame.{StreamFrame}
use securelink.Session.Mux.State.{StreamMultiplexer}
use securelink.Session.Mux.Send.{open_stream, send_data, pop_outbound}
use securelink.Session.Mux.Receive.{on_frame, read_inbound, reset_stream}

pub data Call : Type 0 where
  opened : ℕ → ℕ → Call
  sent : ℕ → List ℕ → Bool → Call
  framed : StreamFrame → ℕ → Call
  popped : Call
  read : ℕ → Call
  torn_down : ℕ → List ℕ → Call

unfoldable pub on_call : StreamMultiplexer → Call → StreamMultiplexer
on_call m (opened prio now) = (open_stream m prio now).0
on_call m (sent id bytes fin) = (send_data m id bytes fin).0
on_call m (framed f now) = (on_frame m f now).0
on_call m popped = (pop_outbound m).0
on_call m (read id) = (read_inbound m id).0
on_call m (torn_down id reason) = (reset_stream m id reason).0
