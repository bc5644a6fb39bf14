-- ===== src/Buffer/RecvBuf/Stream.antt =====
-- The receive buffer is the stream of the bytes pushed, cut into records.
use native.Mathlib.Decide.{dec_lt}
use securelink.Memory.{write_at, take-write_at, length-write_at}
use securelink.Wire.Record.{header_len, peek_len}
use securelink.Common.{
  ℕ, zero, suc, ◌+◌, ◌-◌, ◌^◌, ◌≤◌, ◌<◌, ◌≡◌, refl, ◌⊎◌, inl, inr, List, [], ◌∷◌, ◌++◌, arith,
  length, take, drop, length-take, length-drop, take-take, drop-take, Outcome, ok, fail, fault,
}
use securelink.Bytes.{byte_at, unpack_u16}
use securelink.Buffer.RecvBuf.{RecvBuf, push, slide, take_record, IsValid, contents, deframe, view}

-- `sl_recv_buf_push` takes all the bytes, behind those that are there, or none of them: it refuses
-- just when they do not fit.
pub recv_push_lem :
    (rb : RecvBuf) (bytes : List ℕ)
    → IsValid rb
    → rb.used + length bytes < 2 ^ 64
    → ((rb.cap < rb.used + length bytes) × (push rb bytes ≡ fail))
      ⊎ ((rb' : RecvBuf) × (push rb bytes ≡ ok rb')
          × (rb.used + length bytes ≤ rb.cap)
          × IsValid rb'
          × (contents rb' ≡ contents rb ++ bytes))
unfolding push
recv_push_lem rb bytes v small = elim (dec_lt rb.cap (rb.used + length bytes)) [
  | yes over ↦ inl (over, ground arith)
  | no fits ↦ inr (
    record rb { buf = write_at rb.buf rb.used bytes; used = rb.used + length bytes },
    ground arith,
    omega arith,
    omega (arith, length-write_at rb.buf rb.used bytes),
    take-write_at rb.buf rb.used bytes (omega arith),
  )
]

byte_at-take : (n i : ℕ) (xs : List ℕ) → i < n → byte_at (take n xs) i ≡ byte_at xs i
unfolding byte_at
byte_at-take zero i xs h = absurd (omega arith)
byte_at-take (suc n) i [] h = refl
byte_at-take (suc n) zero (x ∷ xs) h = refl
byte_at-take (suc n) (suc i) (x ∷ xs) h = byte_at-take n i xs (omega arith)

peek_len-take : (n : ℕ) (xs : List ℕ) → header_len ≤ n → peek_len (take n xs) ≡ peek_len xs
unfolding peek_len unpack_u16
peek_len-take n xs h = rw (
  byte_at-take n 1 xs (omega arith),
  byte_at-take n 2 xs (omega arith),
  byte_at-take n 3 xs (omega arith),
  byte_at-take n 4 xs (omega arith),
)

pub slide_lem :
    (rb : RecvBuf) (expected : ℕ)
    → IsValid rb
    → expected ≤ rb.used
    → IsValid (slide rb expected) × (contents (slide rb expected) ≡ drop expected (contents rb))
unfolding slide
slide_lem rb expected v h =
    let left = rb.used - expected in
    let tail = take left (drop expected rb.buf) in
    ground (
      arith,
      length-write_at rb.buf 0 tail,
      take-write_at rb.buf 0 tail,
      length-take left (drop expected rb.buf),
      length-drop expected rb.buf,
      drop-take expected rb.used rb.buf,
    )

-- `sl_recv_buf_take` behaves, on a valid buffer, as `deframe` does on the received bytes: the same
-- answer, and the same bytes left.
pub take_record_refines :
    (rb : RecvBuf) (out_cap : ℕ)
    → IsValid rb
    → view (take_record rb out_cap) ≡ deframe (contents rb) out_cap
unfolding take_record deframe
take_record_refines rb out_cap v = elim (dec_lt rb.used header_len) [
  | yes short ↦ ground (arith, length-take rb.used rb.buf)
  | no enough ↦ read (peek_len rb.buf) refl (omega arith)
]
  where
    size : length (contents rb) ≡ rb.used
    size = omega (arith, length-take rb.used rb.buf)

    read :
        (r : Outcome ℕ)
        → peek_len rb.buf ≡ r
        → header_len ≤ rb.used
        → view (take_record rb out_cap) ≡ deframe (contents rb) out_cap
    read fail e enough = ground (arith, size, e, peek_len-take rb.used rb.buf enough)
    read fault e enough = ground (arith, size, e, peek_len-take rb.used rb.buf enough)
    read (ok expected) e enough = ground (
      arith,
      size,
      e,
      peek_len-take rb.used rb.buf enough,
      slide_lem rb expected v,
      take-take expected rb.used rb.buf,
    )
