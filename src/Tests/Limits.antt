-- ===== src/Tests/Limits.antt =====
-- Windows and buckets at work.
use securelink.Common.{◌+◌, ◌-◌, ◌*◌, ◌≤◌, ◌≡◌, refl, some, [], ◌∷◌, arith}
use securelink.Limit.Flow.{init_with, charge_send, charge_recv, grant_recv}
use securelink.Limit.Flow.Link.{Link, Reach, start, receive_accepted, send, grant, here, next}
use securelink.Limit.TokenBucket
use securelink.Limit.TokenBucket.{TokenBucket, try_take, wait_ms}
use securelink.Limit.TokenBucket.Rate.{take_all_of, granted-le-rate}

charged : charge_send (init_with 10) 4 ≡ some (record { send_credit = 6; recv_window = 10 })
unfolding charge_send init_with
charged = refl

abbrev one_sent : Link
one_sent = record (start 10) {
  sender = record { send_credit = 6; recv_window = 10 };
  frames = 4 ∷ [];
}

one_sent-Reach : Reach (start 10) one_sent
one_sent-Reach =
    next here (send (start 10) 4 (record { send_credit = 6; recv_window = 10 }) charged)

receive_accepted_example :
    charge_recv one_sent.receiver 4
    ≡ some (record one_sent.receiver { recv_window = one_sent.receiver.recv_window - 4 })
receive_accepted_example = receive_accepted 10 4 [] one_sent (omega arith) one_sent-Reach refl

granted_more : grant_recv (init_with 10) 4 ≡ some (record { send_credit = 10; recv_window = 14 })
unfolding grant_recv init_with
granted_more = refl

abbrev one_granted : Link
one_granted = record (start 10) {
  receiver = record { send_credit = 10; recv_window = 14 };
  windows = 4 ∷ [];
}

one_granted-Reach : Reach (start 10) one_granted
one_granted-Reach =
    next here (grant (start 10) 4 (record { send_credit = 10; recv_window = 14 }) granted_more)

granted-le-rate_example :
    (take_all_of (TokenBucket.init 100 50) ((1000, 90) ∷ (1500000, 80) ∷ [])).0 * 1000000
    ≤ 100 * 1000000 + 50 * (2000000 - 1000)
granted-le-rate_example =
    granted-le-rate 100 50 1000 90 2000000 ((1500000, 80) ∷ []) (omega arith, omega arith)

abbrev drained : TokenBucket
drained = record { capacity_bytes = 100; rate_bps = 50; tokens = 0; last_refill_us = 1000 }

wait_is : (wait_ms 1000 drained 10).0 ≡ 200
unfolding wait_ms TokenBucket.refill
wait_is = refl
