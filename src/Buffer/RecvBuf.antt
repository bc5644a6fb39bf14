-- ===== src/Buffer/RecvBuf.antt =====
-- src/sl_recv_buf.c: bytes from the socket, until a whole record is there.
pub mod Stream
pub mod Records
use securelink.Memory.{write_at}
use securelink.Wire.Record.{header_len, peek_len}
use securelink.Common.{
  ℕ, ◌+◌, ◌-◌, ◌≤◌, ◌≡◌, Option, none, some, List, ltb, ◌==◌, if◌then◌else◌, length, take, drop,
  Outcome, ok, fail, ◌>>=◌, ◌>>◌, reject_if,
}
use securelink.Bytes.{u64}

pub record RecvBuf : Type 0 where
  pub buf : List ℕ
  pub cap : ℕ
  pub used : ℕ

-- `sl_recv_buf_init` over the allocation that `malloc` returned (`none`: it returned NULL).
unfoldable pub init : ℕ → Option (List ℕ) → Outcome RecvBuf
init cap allocation = do
  reject_if (cap == 0)
  elim allocation [ none ↦ fail | some buf ↦ ok (record { buf = buf; cap = cap; used = 0 }) ]

-- `sl_recv_buf_push`
unfoldable pub push : RecvBuf → List ℕ → Outcome RecvBuf
push rb bytes = do
  reject_if (ltb rb.cap (u64 (rb.used + length bytes)))
  ok (record rb { buf = write_at rb.buf rb.used bytes; used = u64 (rb.used + length bytes) })

-- The end of `sl_recv_buf_take`: the record is copied out and the bytes behind it slide to the front.
unfoldable pub slide : RecvBuf → ℕ → RecvBuf
slide rb expected =
    let leftover = rb.used - expected in
    record rb {
      buf =
          if ltb 0 leftover
          then write_at rb.buf 0 (take leftover (drop expected rb.buf))
          else rb.buf;
      used = leftover;
    }

-- `sl_recv_buf_take`: `none` is the return value 0, for no full record; else the record's bytes.
unfoldable pub take_record : RecvBuf → ℕ → Outcome (Option (List ℕ) × RecvBuf)
take_record rb out_cap = if ltb rb.used header_len then ok (none, rb) else do
  expected ← peek_len rb.buf
  reject_if (ltb out_cap expected)
  if ltb rb.used expected
      then ok (none, rb)
      else ok (some (take expected rb.buf), slide rb expected)

pub record IsValid (rb : RecvBuf) : Type 0 where
  pub storage : length rb.buf ≡ rb.cap
  pub within : rb.used ≤ rb.cap

-- The bytes that were received and not yet taken.
abbrev pub contents : RecvBuf → List ℕ
contents rb = take rb.used rb.buf

-- The contract of `sl_recv_buf_take`, on the received bytes alone.
unfoldable pub deframe : List ℕ → ℕ → Outcome (Option (List ℕ) × List ℕ)
deframe stream out_cap = if ltb (length stream) header_len then ok (none, stream) else do
  expected ← peek_len stream
  reject_if (ltb out_cap expected)
  if ltb (length stream) expected
      then ok (none, stream)
      else ok (some (take expected stream), drop expected stream)

abbrev pub view : Outcome (Option (List ℕ) × RecvBuf) → Outcome (Option (List ℕ) × List ℕ)
view r = do (found, rb) ← r; ok (found, contents rb)
