-- ===== src/Tests/Buffers.antt =====
-- Buffers whose contents wrap around.
use securelink.Common.{◌≡◌, refl, List, [], ◌∷◌, arith}
use securelink.Memory.{write_at}
use securelink.Buffer.Circular.{copy_in, copy_out}
use securelink.Buffer.Fifo
use securelink.Buffer.Fifo.{Op, push, pop, peek, discard, Reply}
use securelink.Buffer.Ring
use securelink.Buffer.Ring.{Ring}
use securelink.Buffer.Ring.Inv
use securelink.Buffer.Ring.Refine
use securelink.Buffer.Ring.Refine.{run_refines}
use securelink.Buffer.RecvBuf
use securelink.Buffer.RecvBuf.{RecvBuf}
use securelink.Buffer.RecvBuf.Stream.{take_record_refines}
use securelink.Buffer.SendQueue
use securelink.Buffer.SendQueue.{SendQueue, Answer, wrote, interrupted, broken}
use securelink.Buffer.SendQueue.Flush
use securelink.Buffer.SendQueue.Flush.{enqueue_lem, flush_lem}

-- Four bytes, of which the last and the first count
abbrev wrapped : Ring
wrapped = record { buf = 12 ∷ 0 ∷ 0 ∷ 11 ∷ []; cap = 4; head = 1; tail = 3; used = 2 }

wrapped-IsValid : Inv.IsValid wrapped
wrapped-IsValid = record {
  storage = refl;
  positive = omega arith;
  small = omega arith;
  tail_in = omega arith;
  used_in = omega arith;
  head_at = refl;
}

abbrev ops : List Op
ops = push (13 ∷ 14 ∷ 15 ∷ []) ∷ peek 1 ∷ pop 3 ∷ discard 5 ∷ []

run_refines_example : Ring.run wrapped ops ≡ Fifo.run 4 (Refine.contents wrapped) ops
run_refines_example = run_refines wrapped ops wrapped-IsValid

wrapped_runs :
    Ring.run wrapped ops
    ≡ Fifo.count 2 ∷ Fifo.bytes (11 ∷ []) ∷ Fifo.bytes (11 ∷ 12 ∷ 13 ∷ []) ∷ Fifo.count 1 ∷ []
unfolding Ring.run Ring.step Ring.push_bytes Ring.pop_bytes Ring.peek_bytes Ring.discard_bytes
    copy_out copy_in write_at
wrapped_runs = refl

abbrev short_buf : RecvBuf
short_buf = record { buf = 23 ∷ 3 ∷ 1 ∷ 0 ∷ 0 ∷ 0 ∷ 0 ∷ 0 ∷ []; cap = 8; used = 4 }

short_buf-IsValid : RecvBuf.IsValid short_buf
short_buf-IsValid = record { storage = refl; within = omega arith }

take_record_refines_example :
    RecvBuf.view (RecvBuf.take_record short_buf 100) ≡ RecvBuf.deframe (23 ∷ 3 ∷ 1 ∷ 0 ∷ []) 100
take_record_refines_example = take_record_refines short_buf 100 short_buf-IsValid

abbrev queued : SendQueue
queued = record { buf = 12 ∷ 13 ∷ 0 ∷ 11 ∷ []; cap = 4; head = 3; tail = 2; used = 3 }

abbrev half_way : List Answer
half_way = wrote 1 ∷ interrupted ∷ wrote 1 ∷ broken ∷ []

abbrev steady : List Answer
steady = wrote 1 ∷ wrote 1 ∷ wrote 1 ∷ []
