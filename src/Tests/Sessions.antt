-- ===== src/Tests/Sessions.antt =====
-- Handshakes, connections, streams and calls at work.
use securelink.Common.{
  ℕ, ◌+◌, ◌≤◌, ◌≡◌, refl, true, false, List, [], ◌∷◌, ◌&&◌, none, some, ok, arith, take, length,
}
use securelink.Common.Sequences.{run, Subsequence}
use securelink.Common.Assoc.{lookup, num_eq, bytes_eq}
use securelink.Common.Text.{codes}
use securelink.Bytes.{
  u64, pack_u16, pack_u32, byte_at, unpack_u32, unpack_u16, join_u16, bytes_at, join_u32,
}
use securelink.Ident.StreamId.{Role, belongs_to_peer, is_control, is_server_initiated}
use securelink.Limit.Flow
use securelink.Limit.Flow.{charge_recv}
use securelink.Session.Mux.Receive.{on_frame, on_stream}
use securelink.Wire.Rpc.{Request, request_pack, request_unpack, response_unpack}
use securelink.Session.Handshake
use securelink.Session.Handshake.{HsRole, HsType}
use securelink.Session.Handshake.Order.{
  path, drop_finished, complete-Subsequence, client_complete-drop_finished,
}
use securelink.Session.Handshake.Order
use securelink.Session.Connection
use securelink.Session.Connection.{ConnEvent, can_send_app}
use securelink.Session.Connection.History.{after, is_open_history, can_send_app_iff}
use securelink.Session.Phase
use securelink.Session.Phase.{can_send, can_recv, is_closed, closed, half_closed_remote}
use securelink.Session.Phase.Halves
use securelink.Session.Phase.Halves.{
  Halves, unused_halves, half_event, is_usable, is_shut, run_two_halves,
}
use securelink.Session.Dispatcher
use securelink.Session.Dispatcher.{
  RpcHandler, RpcResponse, RpcDispatcher, handle, c_string, status_ok, status_bad_request,
}
use securelink.Session.Dispatcher.Answers.{outcome, reply, handle-call}
use securelink.Session.Dispatcher.Counts.{handle_all, throws, all_throws, handle_all-counted}
use securelink.Session.Mux.State
use securelink.Session.Mux.State.{StreamMultiplexer, StreamRecord, frame_data, flag_fin}
use securelink.Session.Mux.Send.{send_data, pop_here}
use securelink.Session.Mux.Run.{Call, on_call}
use securelink.Session.Mux.Windows.{unread, unread-bounded}
use securelink.Session.Mux.Credit.{taken_by, taken-bounded}
use securelink.Session.Mux.Fins.{ended, fin_second}

-- A handshake of a client that never hears the server's Finished.
abbrev flight : List Order.Event
flight =
    Order.begun
    ∷ Order.sent HsType.client_hello
    ∷ Order.received HsType.server_hello
    ∷ Order.received HsType.certificate
    ∷ Order.received HsType.cert_verify
    ∷ Order.received HsType.finished
    ∷ Order.sent HsType.finished
    ∷ []

flight-complete :
    (run Order.on_event (Handshake.new HsRole.client) flight).state ≡ Handshake.complete
unfolding Order.on_event Handshake.new Handshake.start Handshake.on_sent Handshake.on_received
flight-complete = refl

complete-Subsequence_example : Subsequence (path HsRole.client Handshake.init) flight
complete-Subsequence_example = complete-Subsequence HsRole.client flight flight-complete

client_complete-drop_finished_example :
    (run Order.on_event (Handshake.new HsRole.client) (drop_finished flight)).state
    ≡ Handshake.complete
client_complete-drop_finished_example = client_complete-drop_finished flight flight-complete

abbrev history : List (ℕ × ConnEvent)
history =
    (3, ConnEvent.start_handshake)
    ∷ (8, ConnEvent.handshake_done)
    ∷ (9, ConnEvent.recv_app_record)
    ∷ []

can_send_app_iff_example : can_send_app (after (Connection.new 0) history) ≡ is_open_history history
can_send_app_iff_example = can_send_app_iff 0 history

abbrev ends : List Halves.Event
ends = Halves.opened 5 ∷ Halves.recv_fin ∷ Halves.sent_fin ∷ []

run_two_halves_example :
    (can_send (run Halves.on_event (Phase.new 4 1) ends).phase
      ≡ is_usable (run half_event unused_halves ends).local)
    × (can_recv (run Halves.on_event (Phase.new 4 1) ends).phase
        ≡ is_usable (run half_event unused_halves ends).remote)
    × (is_closed (run Halves.on_event (Phase.new 4 1) ends).phase
        ≡ is_shut (run half_event unused_halves ends).local
          && is_shut (run half_event unused_halves ends).remote)
run_two_halves_example = run_two_halves 4 1 ends

abbrev echo : RpcHandler
echo body = some (record { status = status_ok; body = body })

abbrev crash : RpcHandler
crash body = none

abbrev served : RpcDispatcher
served = record Dispatcher.new { methods = (codes "ab", echo) ∷ (codes "no", crash) ∷ [] }

abbrev call : Request
call = record { request_id = 7; method = codes "ab"; body = 3 ∷ [] }

abbrev call_wire : List ℕ
call_wire = 1 ∷ 0 ∷ 0 ∷ 0 ∷ 0 ∷ 7 ∷ 0 ∷ 2 ∷ 97 ∷ 98 ∷ 0 ∷ 0 ∷ 0 ∷ 1 ∷ 3 ∷ []

call-packed : request_pack call 15 ≡ ok call_wire
unfolding request_pack pack_u16 pack_u32
call-packed = refl

echoed : reply served call ≡ record { request_id = 7; status = status_ok; body = 3 ∷ [] }
unfolding reply outcome c_string
echoed = refl

handle-call_example : response_unpack (handle served call_wire).1 ≡ ok (reply served call)
handle-call_example =
    handle-call served call 15 call_wire (omega arith) call-packed (rw echoed (omega arith))
      (rw echoed (omega arith))

-- A call that is answered, one whose method throws, and what is no request.
abbrev crash_wire : List ℕ
crash_wire = 1 ∷ 0 ∷ 0 ∷ 0 ∷ 0 ∷ 8 ∷ 0 ∷ 2 ∷ 110 ∷ 111 ∷ 0 ∷ 0 ∷ 0 ∷ 0 ∷ []

abbrev requests : List (List ℕ)
requests = call_wire ∷ crash_wire ∷ codes "junk" ∷ []

one_throw : all_throws served.methods requests ≡ 1
unfolding all_throws throws request_unpack c_string byte_at unpack_u32 unpack_u16 join_u16 bytes_at
    join_u32
one_throw = refl

handle_all-counted_example :
    (u64 (handle_all served requests).stats.requests_total ≡ u64 (length requests))
    × (u64 (handle_all served requests).stats.handler_threw
        ≡ u64 (all_throws served.methods requests))
    × (u64 (
          (handle_all served requests).stats.responses_ok
          + (handle_all served requests).stats.responses_error)
        ≡ u64 (length requests + all_throws served.methods requests))
handle_all-counted_example = handle_all-counted served.methods requests

-- The peer opens stream 2 with three bytes, of which we answer two and read all.
abbrev calls : List Call
calls =
    Call.framed (record { kind = frame_data; flags = 0; stream_id = 2; payload = 1 ∷ 2 ∷ 3 ∷ [] }) 4
    ∷ Call.sent 2 (8 ∷ 9 ∷ []) false
    ∷ Call.read 2
    ∷ []

waiting : unread (run on_call (State.new Role.client 100) (take 2 calls)).streams ≡ 3
unfolding on_call State.new unread send_data on_frame belongs_to_peer is_control is_server_initiated
    on_stream State.find_or_create Phase.open_stream Phase.new charge_recv Flow.can_send
waiting = refl

unread-bounded_example :
    let m = run on_call (State.new Role.client 100) calls in
    (m.session_flow.recv_window + unread m.streams ≡ 100) × (unread m.streams ≤ 100)
unread-bounded_example = unread-bounded Role.client 100 calls (omega arith)

taken-bounded_example :
    ((run on_call (State.new Role.client 100) calls).session_flow.send_credit
        + taken_by (State.new Role.client 100) calls
      ≡ 100)
    × (taken_by (State.new Role.client 100) calls ≤ 100)
taken-bounded_example = taken-bounded Role.client 100 calls

-- A stream that the peer has ended.
abbrev half : StreamRecord
half = record (State.fresh_record 100 2 4) {
  state = record (Phase.new 2 4) { phase = half_closed_remote };
}

abbrev one_stream : StreamMultiplexer
one_stream = record (State.new Role.client 100) { streams = (2, half) ∷ [] }

nothing_queued : half.outbound ≡ []
unfolding State.fresh_record
nothing_queued = refl

fin_second_example :
    ((send_data one_stream 2 [] true).1 ≡ true)
    × ((ended half).state.phase ≡ closed)
    × (lookup 2 (send_data one_stream 2 [] true).0.streams ≡ some (ended half))
    × (pop_here half.priority 2 (ended half)
        ≡ some (
          record { kind = frame_data; flags = 0; stream_id = 2; payload = [] },
          record (ended half) { outbound = [] },
        ))
fin_second_example = fin_second one_stream 2 half refl refl nothing_queued
