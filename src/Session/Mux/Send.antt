-- ===== src/Session/Mux/Send.antt =====
-- src/stream_multiplexer.cpp: what is to be sent.
use securelink.Common.{
  ℕ, zero, suc, ◌+◌, Bool, true, false, not, ◌||◌, Option, none, some, List, [], ◌∷◌, ◌++◌, ltb,
  ◌==◌, if◌then◌else◌, length,
}
use securelink.Common.Assoc.{lookup, num_eq}
use securelink.Bytes.{u64}
use securelink.Ident.StreamId.{stream_next}
use securelink.Limit.Flow.{FlowCtrl, charge_send, can_send}
use securelink.Session.Phase
use securelink.Session.Phase.{StreamState, StreamPhase, half_closed_local, closed}
use securelink.Wire.Frame.{StreamFrame, max_payload}
use securelink.Session.Mux.State.{
  frame_data, flag_fin, prio_count, StreamRecord, MuxStats, StreamMultiplexer, put, find_or_create,
  or_same,
}

unfoldable pub open_stream : StreamMultiplexer → ℕ → ℕ → StreamMultiplexer × ℕ
open_stream m prio now =
    let (id, alloc) = stream_next m.id_alloc in
    let found = find_or_create (record m { id_alloc = alloc }) id now in
    if id == 0
    then (record m { id_alloc = alloc }, 0)
    else (put found.0 id (record found.1 { priority = prio }), id)

-- The part of `send_data` for the FIN.
finish : StreamRecord → StreamRecord
finish r = record r {
  state = (Phase.on_sent_fin r.state).0;
  outbound = elim r.outbound [ [] ↦ [] ∷ [] | x ∷ xs ↦ x ∷ xs ];
}

-- The end of `send_data`: the record after the queueing, the session's window, and the FIN.
queued : StreamMultiplexer → ℕ → StreamRecord → FlowCtrl → Bool → StreamMultiplexer × Bool
unfolding finish put
queued m id r f fin = (put (record m { session_flow = f }) id (if fin then finish r else r), true)

blocked : MuxStats → MuxStats
blocked s = record s { flow_blocks = u64 (s.flow_blocks + 1) }

send_on : StreamMultiplexer → ℕ → List ℕ → Bool → StreamRecord → StreamMultiplexer × Bool
unfolding queued blocked or_same
send_on m id bytes fin r =
    let len = length bytes in
    if not (Phase.can_send r.state.phase)
    then (m, false)
    else if ltb max_payload len
    then (m, false)
    else if ltb 0 len
    then (if not (can_send r.flow len) || not (can_send m.session_flow len)
        then (record m { stats = blocked m.stats }, false)
        else queued m id
            (record r {
              flow = or_same r.flow (charge_send r.flow len);
              outbound = r.outbound ++ (bytes ∷ []);
            })
            (or_same m.session_flow (charge_send m.session_flow len)) fin)
    else queued m id r m.session_flow fin

unfoldable pub send_data : StreamMultiplexer → ℕ → List ℕ → Bool → StreamMultiplexer × Bool
unfolding send_on
send_data m id bytes fin = elim (lookup id m.streams) [
  | none ↦ (m, false)
  | some r ↦ send_on m id bytes fin r
]

is_last_chunk : List (List ℕ) → StreamPhase → Bool
is_last_chunk [] half_closed_local = true
is_last_chunk rest phase = false

-- The frame for a chunk of a stream, which has `rest` left.
chunk_frame : ℕ → StreamRecord → List ℕ → List (List ℕ) → StreamFrame
unfolding is_last_chunk
chunk_frame id r chunk rest = record {
  kind = frame_data;
  flags = if is_last_chunk rest r.state.phase then flag_fin else 0;
  stream_id = id;
  payload = chunk;
}

pop_chunk : ℕ → StreamRecord → List (List ℕ) → Option (StreamFrame × StreamRecord)
unfolding chunk_frame
pop_chunk id r [] = none
pop_chunk id r (chunk ∷ rest) = some (chunk_frame id r chunk rest, record r { outbound = rest })

-- One round of the inner loop of `pop_outbound`: `none` for `continue`.
unfoldable pub pop_here : ℕ → ℕ → StreamRecord → Option (StreamFrame × StreamRecord)
unfolding pop_chunk
pop_here band id r = if not (r.priority == band) then none else pop_chunk id r r.outbound

behind :
    ℕ × StreamRecord
    → Option (StreamFrame × List (ℕ × StreamRecord))
    → Option (StreamFrame × List (ℕ × StreamRecord))
behind x none = none
behind x (some (f, rs)) = some (f, x ∷ rs)

in_front :
    ℕ
    → List (ℕ × StreamRecord)
    → Option (StreamFrame × List (ℕ × StreamRecord))
    → ℕ × StreamRecord
    → Option (StreamFrame × StreamRecord)
    → Option (StreamFrame × List (ℕ × StreamRecord))
unfolding behind
in_front id rs rest x none = behind x rest
in_front id rs rest x (some (f, r)) = some (f, (id, r) ∷ rs)

-- The inner loop over the streams, for one band.
unfoldable pub pop_band :
    ℕ → List (ℕ × StreamRecord) → Option (StreamFrame × List (ℕ × StreamRecord))
unfolding pop_here in_front
pop_band band [] = none
pop_band band ((id, r) ∷ rs) = in_front id rs (pop_band band rs) (id, r) (pop_here band id r)

-- The loop over the bands, with `n` of them to go.
unfoldable pub pop_scan :
    ℕ → ℕ → List (ℕ × StreamRecord) → Option (StreamFrame × List (ℕ × StreamRecord))
unfolding pop_band
pop_scan zero band rs = none
pop_scan (suc n) band rs = elim (pop_band band rs) [
  | some x ↦ some x
  | none ↦ pop_scan n (suc band) rs
]

count_out : ℕ → MuxStats → MuxStats
count_out n s = record s { frames_out = u64 (s.frames_out + 1); bytes_out = u64 (s.bytes_out + n) }

unfoldable pub popped :
    StreamMultiplexer
    → Option (StreamFrame × List (ℕ × StreamRecord))
    → StreamMultiplexer × Option StreamFrame
unfolding count_out
popped m none = (m, none)
popped m (some (f, rs)) =
    (record m { streams = rs; stats = count_out (length f.payload) m.stats }, some f)

unfoldable pub pop_outbound : StreamMultiplexer → StreamMultiplexer × Option StreamFrame
unfolding popped pop_scan
pop_outbound m = popped m (pop_scan prio_count 0 m.streams)
