-- ===== src/Session/Mux/State.antt =====
-- The state of src/stream_multiplexer.cpp, and src/sl_priority.c. The streams are an association list,
-- whose order stands for that of the hash table.
use securelink.Common.{ℕ, ◌+◌, Bool, false, Option, none, some, List, [], leb, ◌==◌, if◌then◌else◌}
use securelink.Common.Assoc.{lookup, insert, num_eq}
use securelink.Bytes.{u64}
use securelink.Ident.StreamId.{Role, Alloc, stream_init}
use securelink.Limit.Flow.{FlowCtrl, init_with}
use securelink.Session.Phase
use securelink.Session.Phase.{StreamState, StreamPhase, half_closed_local, closed}

abbrev pub frame_data : ℕ
frame_data = 1

abbrev pub frame_window : ℕ
frame_window = 2

abbrev pub frame_reset : ℕ
frame_reset = 3

abbrev pub flag_fin : ℕ
flag_fin = 1

abbrev pub prio_urgent : ℕ
prio_urgent = 0

abbrev pub prio_normal : ℕ
prio_normal = 2

abbrev pub prio_count : ℕ
prio_count = 5

-- `sl_priority_default_for`
unfoldable pub default_for : ℕ → ℕ
default_for stream_id = if stream_id == 0 then prio_urgent else prio_normal

-- `sl_priority_to_byte`; an `sl_priority_t` is a number.
unfoldable pub to_byte : ℕ → ℕ
to_byte p = if leb prio_count p then prio_normal else p

-- `sl_priority_from_byte`
unfoldable pub from_byte : ℕ → ℕ
from_byte b = if leb prio_count b then prio_normal else b

pub record StreamRecord : Type 0 where
  pub state : StreamState
  pub flow : FlowCtrl
  pub priority : ℕ
  pub outbound : List (List ℕ)
  pub inbound : List ℕ
  pub inbound_fin : Bool

pub record MuxStats : Type 0 where
  pub streams_opened : ℕ
  pub streams_closed : ℕ
  pub frames_in : ℕ
  pub frames_out : ℕ
  pub bytes_in : ℕ
  pub bytes_out : ℕ
  pub flow_blocks : ℕ
  pub resets : ℕ

pub record StreamMultiplexer : Type 0 where
  pub role : Role
  pub initial_window : ℕ
  pub id_alloc : Alloc
  pub session_flow : FlowCtrl
  pub streams : List (ℕ × StreamRecord)
  pub stats : MuxStats

unfoldable pub new : Role → ℕ → StreamMultiplexer
new role initial_window = record {
  role = role;
  initial_window = initial_window;
  id_alloc = stream_init role;
  session_flow = init_with initial_window;
  streams = [];
  stats = record {
    streams_opened = 0;
    streams_closed = 0;
    frames_in = 0;
    frames_out = 0;
    bytes_in = 0;
    bytes_out = 0;
    flow_blocks = 0;
    resets = 0;
  };
}

-- The record that `find_or_create` puts in, with its stream opened.
unfoldable pub fresh_record : ℕ → ℕ → ℕ → StreamRecord
unfolding default_for init_with
fresh_record initial_window id now = record {
  state = (Phase.open_stream (Phase.new id now) now).0;
  flow = init_with initial_window;
  priority = default_for id;
  outbound = [];
  inbound = [];
  inbound_fin = false;
}

unfoldable pub put : StreamMultiplexer → ℕ → StreamRecord → StreamMultiplexer
put m id r = record m { streams = insert id r m.streams }

count_opened : MuxStats → MuxStats
count_opened s = record s { streams_opened = u64 (s.streams_opened + 1) }

-- `find_or_create`: the record of the stream, and the multiplexer that has it.
unfoldable pub find_or_create : StreamMultiplexer → ℕ → ℕ → StreamMultiplexer × StreamRecord
unfolding fresh_record put count_opened
find_or_create m id now = elim (lookup id m.streams) [
  | some r ↦ (m, r)
  | none ↦
      let r = fresh_record m.initial_window id now in
      (record (put m id r) { stats = count_opened m.stats }, r)
]

-- What a charge leaves, and the old value where the code ignores that it is refused.
unfoldable pub or_same : FlowCtrl → Option FlowCtrl → FlowCtrl
or_same f none = f
or_same f (some g) = g

unfoldable pub count_reset : MuxStats → MuxStats
count_reset s = record s { resets = u64 (s.resets + 1) }
