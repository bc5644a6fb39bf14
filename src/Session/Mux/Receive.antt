-- ===== src/Session/Mux/Receive.antt =====
-- src/stream_multiplexer.cpp: what arrives, is read or is torn down.
use securelink.Common.{
  ℕ, ◌+◌, ◌%◌, Bool, true, false, not, ◌&&◌, Option, none, some, List, [], ◌∷◌, ◌++◌, ltb, ◌==◌,
  if◌then◌else◌, length, get_or,
}
use securelink.Common.Assoc.{lookup, num_eq}
use securelink.Common.Text.{codes}
use securelink.Bytes.{u64, join_u32}
use securelink.Ident.StreamId.{belongs_to_peer}
use securelink.Limit.Flow.{FlowCtrl, charge_recv, grant_recv, grant_send}
use securelink.Session.Phase
use securelink.Session.Phase.{StreamState, StreamPhase, half_closed_local, closed}
use securelink.Wire.Frame.{StreamFrame}
use securelink.Session.Mux.State.{
  frame_data, frame_window, frame_reset, flag_fin, StreamRecord, MuxStats, StreamMultiplexer, put,
  find_or_create, or_same, count_reset,
}

unfoldable pub count_in : ℕ → MuxStats → MuxStats
count_in n s = record s { frames_in = u64 (s.frames_in + 1); bytes_in = u64 (s.bytes_in + n) }

-- `SL_STREAM_FLAG_FIN` is bit 0 of the flags.
take_fin : StreamFrame → StreamRecord → StreamRecord
take_fin f r =
    if f.flags % 2 == flag_fin
    then record r { state = (Phase.on_recv_fin r.state).0; inbound_fin = true }
    else r

-- The end of the `DATA` case: the session's window where the stream's has been charged.
charge_session :
    StreamMultiplexer
    → StreamFrame
    → StreamRecord
    → FlowCtrl
    → Option FlowCtrl
    → StreamMultiplexer × Bool
unfolding take_fin put
charge_session m f r flow none = (put m f.stream_id (record r { flow = flow }), false)
charge_session m f r flow (some session) = (
  put (record m { session_flow = session }) f.stream_id
      (take_fin f (record r { flow = flow; inbound = r.inbound ++ f.payload })),
  true,
)

charge_stream :
    StreamMultiplexer → StreamFrame → StreamRecord → Option FlowCtrl → StreamMultiplexer × Bool
unfolding charge_session
charge_stream m f r none = (m, false)
charge_stream m f r (some flow) =
    charge_session m f r flow (charge_recv m.session_flow (length f.payload))

on_data : StreamMultiplexer → StreamFrame → StreamRecord → StreamMultiplexer × Bool
unfolding charge_stream
on_data m f r =
    if not (Phase.can_recv r.state.phase)
    then (m, false)
    else if ltb 0 (length f.payload)
    then charge_stream m f r (charge_recv r.flow (length f.payload))
    else (put m f.stream_id (take_fin f r), true)

window_delta : List ℕ → ℕ
window_delta p = join_u32 (get_or p 0 0) (get_or p 1 0) (get_or p 2 0) (get_or p 3 0)

on_window : StreamMultiplexer → StreamFrame → StreamRecord → StreamMultiplexer × Bool
unfolding window_delta put or_same
on_window m f r = if ltb (length f.payload) 4 then (m, false) else (
  put m f.stream_id
      (record r { flow = or_same r.flow (grant_send r.flow (window_delta f.payload)) }),
  true,
)

on_reset : StreamMultiplexer → StreamFrame → StreamRecord → StreamMultiplexer × Bool
unfolding put count_reset
on_reset m f r = (
  put (record m { stats = count_reset m.stats }) f.stream_id
      (record r { state = Phase.reset_stream r.state (codes "peer_reset") }),
  true,
)

-- The `switch` over the types of a frame.
unfoldable pub on_stream : StreamFrame → StreamMultiplexer × StreamRecord → StreamMultiplexer × Bool
unfolding on_data on_window on_reset
on_stream f (m, r) =
    if f.kind == frame_data
    then on_data m f r
    else if f.kind == frame_window
    then on_window m f r
    else if f.kind == frame_reset
    then on_reset m f r
    else (m, true)

is_known : Option StreamRecord → Bool
is_known none = false
is_known (some r) = true

unfoldable pub on_frame : StreamMultiplexer → StreamFrame → ℕ → StreamMultiplexer × Bool
unfolding is_known
on_frame m f now =
    let m' = record m { stats = count_in (length f.payload) m.stats } in
    if f.stream_id == 0
    then (m', true)
    else if not (is_known (lookup f.stream_id m'.streams))
        && not (belongs_to_peer f.stream_id m.role)
    then (m', false)
    else on_stream f (find_or_create m' f.stream_id now)

count_closed : MuxStats → MuxStats
count_closed s = record s { streams_closed = u64 (s.streams_closed + 1) }

is_half_closed_local : StreamPhase → Bool
is_half_closed_local half_closed_local = true
is_half_closed_local _ = false

read_from : StreamMultiplexer → ℕ → StreamRecord → StreamMultiplexer × List ℕ
unfolding put or_same count_closed is_half_closed_local
read_from m id r =
    let n = length r.inbound in
    (
      put
          (record m {
            session_flow = or_same m.session_flow (grant_recv m.session_flow n);
            stats =
                if r.inbound_fin && is_half_closed_local r.state.phase
                then count_closed m.stats
                else m.stats;
          })
          id (record r { inbound = []; flow = or_same r.flow (grant_recv r.flow n) }),
      r.inbound,
    )

-- `read_inbound`: the bytes that it appends to `out`.
unfoldable pub read_inbound : StreamMultiplexer → ℕ → StreamMultiplexer × List ℕ
unfolding read_from
read_inbound m id = elim (lookup id m.streams) [ none ↦ (m, []) | some r ↦ read_from m id r ]

unfoldable pub reset_stream : StreamMultiplexer → ℕ → List ℕ → StreamMultiplexer × Bool
unfolding put count_reset
reset_stream m id reason = elim (lookup id m.streams) [
  | none ↦ (m, false)
  | some r ↦ (
    put (record m { stats = count_reset m.stats }) id
        (record r { state = Phase.reset_stream r.state reason }),
    true,
  )
]

unfoldable pub is_open : StreamMultiplexer → ℕ → Bool
is_open m id = elim (lookup id m.streams) [
  | none ↦ false
  | some r ↦ not (Phase.is_closed r.state.phase)
]

count_open : List (ℕ × StreamRecord) → ℕ
count_open [] = 0
count_open ((id, r) ∷ rs) = (if Phase.is_closed r.state.phase then 0 else 1) + count_open rs

unfoldable pub open_stream_count : StreamMultiplexer → ℕ
unfolding count_open
open_stream_count m = count_open m.streams
