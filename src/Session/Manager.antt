-- ===== src/Session/Manager.antt =====
-- src/session_manager.cpp: the sessions of a server. `now` is the monotonic clock in nanoseconds,
-- `now_s` the time of day in seconds.
pub mod Sweeps
pub mod Activity
pub mod Resumption
use securelink.Common.{
  ℕ, ◌+◌, ◌-◌, ◌*◌, ◌/◌, ◌%◌, ◌^◌, Bool, true, false, not, ◌||◌, Option, none, some, List, [], ◌∷◌,
  ltb, leb, ◌==◌, if◌then◌else◌, length, ok,
}
use securelink.Common.Assoc.{lookup, insert, erase, num_eq}
use securelink.Bytes.{u32, u64}
use securelink.Crypto.Aead.{Aead}
use securelink.Wire.Ticket.{TicketBody, total_len, ticket_seal, ticket_unseal, is_fresh}

pub record SessionStats : Type 0 where
  pub bytes_sent : ℕ
  pub bytes_received : ℕ
  pub records_sent : ℕ
  pub records_received : ℕ
  pub rekeys_local : ℕ
  pub rekeys_peer : ℕ

pub record Session : Type 0 where
  pub id : ℕ
  pub peer_label : List ℕ
  pub peer_identity : List ℕ
  pub opened_at : ℕ
  pub last_activity : ℕ
  pub stats : SessionStats
  pub authenticated : Bool

pub record SessionManagerConfig : Type 0 where
  pub rekey_after_bytes : ℕ
  pub rekey_after_seconds : ℕ
  pub ticket_lifetime_seconds : ℕ
  pub idle_timeout_seconds : ℕ

pub record SessionManager : Type 0 where
  pub cfg : SessionManagerConfig
  pub sessions : List (ℕ × Session)
  pub next_id : ℕ

abbrev pub no_traffic : SessionStats
no_traffic = record {
  bytes_sent = 0;
  bytes_received = 0;
  records_sent = 0;
  records_received = 0;
  rekeys_local = 0;
  rekeys_peer = 0;
}

abbrev pub new : SessionManagerConfig → SessionManager
new cfg = record { cfg = cfg; sessions = []; next_id = 1 }

unfoldable pub register_session : SessionManager → List ℕ → List ℕ → ℕ → SessionManager × ℕ
register_session m peer_label peer_identity now =
    let s : Session = record {
      id = m.next_id;
      peer_label = peer_label;
      peer_identity = peer_identity;
      opened_at = now;
      last_activity = now;
      stats = no_traffic;
      authenticated = true;
    } in
    (
      record m {
        next_id = u64 (m.next_id + 1);
        sessions = elim (lookup m.next_id m.sessions) [
          | none ↦ insert m.next_id s m.sessions
          | some old ↦ m.sessions
        ];
      },
      m.next_id,
    )

-- `duration_cast<seconds>` of the time gone by on the steady clock, which does not run back: what
-- the difference of natural numbers gives for a later time first does not come up.
unfoldable pub seconds_between : ℕ → ℕ → ℕ
seconds_between later earlier = (later - earlier) / 10 ^ 9

add_traffic : SessionStats → ℕ → ℕ → SessionStats
add_traffic s sent received = record s {
  bytes_sent = u64 (s.bytes_sent + sent);
  bytes_received = u64 (s.bytes_received + received);
  records_sent = if ltb 0 sent then u64 (s.records_sent + 1) else s.records_sent;
  records_received = if ltb 0 received then u64 (s.records_received + 1) else s.records_received;
}

-- `record_traffic`: whether it is time for new keys.
unfoldable pub record_traffic : SessionManager → ℕ → ℕ → ℕ → ℕ → SessionManager × Bool
unfolding add_traffic seconds_between
record_traffic m id bytes_sent bytes_received now = elim (lookup id m.sessions) [
  | none ↦ (m, false)
  | some s ↦
      let stats = add_traffic s.stats bytes_sent bytes_received in
      let t = record s { stats = stats; last_activity = now } in
      (
        record m { sessions = insert id t m.sessions },
        leb m.cfg.rekey_after_bytes (u64 (stats.bytes_sent + stats.bytes_received))
            || leb m.cfg.rekey_after_seconds (seconds_between now s.opened_at),
      )
]

unfoldable pub note_rekey_local : SessionManager → ℕ → SessionManager
note_rekey_local m id = elim (lookup id m.sessions) [
  | none ↦ m
  | some s ↦
      let t = record s {
        stats = record s.stats { rekeys_local = u32 (s.stats.rekeys_local + 1) };
      } in
      record m { sessions = insert id t m.sessions }
]

unfoldable pub note_rekey_peer : SessionManager → ℕ → SessionManager
note_rekey_peer m id = elim (lookup id m.sessions) [
  | none ↦ m
  | some s ↦
      let t = record s { stats = record s.stats { rekeys_peer = u32 (s.stats.rekeys_peer + 1) } } in
      record m { sessions = insert id t m.sessions }
]

unfoldable pub close_session : SessionManager → ℕ → SessionManager
close_session m id = record m { sessions = erase id m.sessions }

unfoldable pub snapshot : SessionManager → ℕ → Option Session
snapshot m id = lookup id m.sessions

unfoldable pub active_count : SessionManager → ℕ
active_count m = length m.sessions

unfoldable pub is_idle : SessionManagerConfig → ℕ → Session → Bool
unfolding seconds_between
is_idle cfg now s = leb cfg.idle_timeout_seconds (seconds_between now s.last_activity)

-- The loop of `sweep`: the sessions that stay, and how many go.
unfoldable pub sweep_loop : SessionManagerConfig → ℕ → List (ℕ × Session) → List (ℕ × Session) × ℕ
unfolding is_idle
sweep_loop cfg now [] = ([], 0)
sweep_loop cfg now ((id, s) ∷ rest) =
    let (kept, removed) = sweep_loop cfg now rest in
    if is_idle cfg now s then (kept, removed + 1) else ((id, s) ∷ kept, removed)

unfoldable pub sweep : SessionManager → ℕ → SessionManager × ℕ
unfolding sweep_loop
sweep m now =
    let (kept, removed) = sweep_loop m.cfg now m.sessions in (record m { sessions = kept }, removed)

module _ (aead : Aead) where
  -- `issue_ticket`, with the random IV for the sealing; empty where there is no ticket.
  unfoldable pub issue_ticket : SessionManager → ℕ → List ℕ → List ℕ → ℕ → Option (List ℕ) → List ℕ
  issue_ticket m id stk resumption_secret now_s random = elim (lookup id m.sessions) [
    | none ↦ []
    | some s ↦
        let body : TicketBody = record {
          issued_at_s = u32 now_s;
          lifetime_s = m.cfg.ticket_lifetime_seconds;
          resumption_secret = resumption_secret;
          peer_identity_pub = s.peer_identity;
        } in
        elim (ticket_seal aead stk random body) [ ok wire ↦ wire | _ ↦ [] ]
  ]

  unfoldable pub consume_ticket : List ℕ → List ℕ → ℕ → Option TicketBody
  consume_ticket stk ticket_bytes now_s =
      if not (length ticket_bytes == total_len)
      then none
      else elim (ticket_unseal aead stk ticket_bytes) [
        | ok body ↦ if not (is_fresh body (u32 now_s)) then none else some body
        | _ ↦ none
      ]
