-- ===== src/Tests/Managers.antt =====
-- The sessions of a server at work.
use securelink.Common.{
  ℕ, ◌+◌, ◌*◌, ◌^◌, ◌≡◌, refl, some, none, true, List, [], ◌∷◌, length, replicate, if◌then◌else◌,
  ◌&&◌, leb, ltb, arith,
}
use securelink.Common.Sequences.{run}
use securelink.Common.Assoc.{num_eq}
use securelink.Common.Text.{codes}
use securelink.Bytes.{bytes_at, pack_u32}
use securelink.Crypto.Aead.{plain, plain-Laws}
use securelink.Wire.Ticket.{pack_body, ticket_seal}
use securelink.Session.Manager.{
  Session, SessionManagerConfig, SessionManager, new, no_traffic, register_session, record_traffic,
  snapshot, active_count, sweep, sweep_loop, is_idle, seconds_between, issue_ticket, consume_ticket,
}
use securelink.Session.Manager.Sweeps.{Call, registered, carried, on_call}
use securelink.Session.Manager.Activity.{activity, see, is_recent, last_seen, sweep-last_seen}
use securelink.Session.Manager.Resumption.{ticket_of, consume_ticket-issue_ticket}

abbrev cfg : SessionManagerConfig
cfg = record {
  rekey_after_bytes = 2 ^ 30;
  rekey_after_seconds = 3600;
  ticket_lifetime_seconds = 21600;
  idle_timeout_seconds = 600;
}

abbrev identity : List ℕ
identity = replicate 32 5

-- Two sessions come, and the second has traffic after 300 seconds.
abbrev calls : List Call
calls =
    registered (codes "a") identity 0
    ∷ registered (codes "b") identity 0
    ∷ carried 2 100 50 (300 * 10 ^ 9)
    ∷ []

-- A sweep after 700 seconds takes the first out.
one_left : (sweep (run on_call (new cfg) calls) (700 * 10 ^ 9)).1 ≡ 1
unfolding sweep sweep_loop is_idle seconds_between on_call register_session record_traffic
one_left = refl

-- The second was last seen at 300 seconds.
seen_at : last_seen cfg.idle_timeout_seconds 2 calls ≡ some (300 * 10 ^ 9)
unfolding see
seen_at = refl

sweep-last_seen_example :
    (activity (snapshot (run on_call (new cfg) calls) 2)
      ≡ last_seen cfg.idle_timeout_seconds 2 calls)
    × (snapshot (sweep (run on_call (new cfg) calls) (700 * 10 ^ 9)).0 2 ≡ (
        if is_recent cfg.idle_timeout_seconds
          (700 * 10 ^ 9)
          (last_seen cfg.idle_timeout_seconds 2 calls)
        then snapshot (run on_call (new cfg) calls) 2
        else none))
    × (active_count (sweep (run on_call (new cfg) calls) (700 * 10 ^ 9)).0
          + (sweep (run on_call (new cfg) calls) (700 * 10 ^ 9)).1
        ≡ active_count (run on_call (new cfg) calls))
sweep-last_seen_example = sweep-last_seen cfg calls (700 * 10 ^ 9) 2

abbrev alone : Session
alone = record {
  id = 1;
  peer_label = codes "a";
  peer_identity = identity;
  opened_at = 0;
  last_activity = 0;
  stats = no_traffic;
  authenticated = true;
}

abbrev server : SessionManager
server = record (new cfg) { sessions = (1, alone) ∷ []; next_id = 2 }

abbrev key : List ℕ
key = replicate 32 7

abbrev secret : List ℕ
secret = replicate 32 6

abbrev iv : List ℕ
iv = replicate 12 1

found : snapshot server 1 ≡ some alone
unfolding snapshot
found = refl

ticket_size : length (issue_ticket plain server 1 key secret 1000 (some iv)) ≡ 100
unfolding issue_ticket ticket_seal pack_body bytes_at pack_u32
ticket_size = refl

consume_ticket-issue_ticket_example :
    consume_ticket plain key (issue_ticket plain server 1 key secret 1000 (some iv)) 5000 ≡ (
      if leb 1000 5000 && ltb 5000 (1000 + 21600)
      then some (ticket_of server alone secret 1000)
      else none)
consume_ticket-issue_ticket_example =
    consume_ticket-issue_ticket plain plain-Laws server 1 alone key secret iv 1000 5000 found refl
      refl refl (omega arith) (omega arith) (omega arith) (omega (arith, ticket_size))
