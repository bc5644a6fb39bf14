-- ===== src/Transfer/ResumeMap.antt =====
-- src/sl_resume_map.c: one bit for each chunk of a file.
pub mod Bitmap
pub mod Received
pub mod Resume
pub mod Stored
use securelink.Common.{
  ℕ, zero, suc, ◌+◌, ◌-◌, ◌*◌, ◌/◌, ◌%◌, ◌^◌, Bool, true, false, not, List, [], ◌∷◌, ◌++◌, ltb, leb,
  ◌==◌, if◌then◌else◌, length, get_or, set, take, replicate, bit_and, bit_or, max, Outcome, ok,
  fail, fault, ◌>>=◌, ◌>>◌, reject_if,
}
use securelink.Bytes.{u8, u32, byte_at, bytes_at}

pub record ResumeMap : Type 0 where
  pub bits : List ℕ
  pub total_chunks : ℕ
  pub received_chunks : ℕ

-- `(total_chunks + 7U) / 8U`, in 32 bits
unfoldable pub bytes_for : ℕ → ℕ
bytes_for total = u32 (total + 7) / 8

-- `calloc(1, bytes ? bytes : 1)`, of an allocator that has memory
unfoldable pub init : ℕ → ResumeMap
unfolding bytes_for
init total = record {
  bits = replicate (if bytes_for total == 0 then 1 else bytes_for total) 0;
  total_chunks = total;
  received_chunks = 0;
}

-- `sl_resume_map_set`
unfoldable pub set_chunk : ResumeMap → ℕ → Outcome ResumeMap
set_chunk r i = do
  reject_if (leb r.total_chunks i)
  byte ← byte_at r.bits (i / 8)
  let mask = u8 (2 ^ (i % 8))
  ok (
      if bit_and byte mask == 0
      then record r {
        bits = set r.bits (i / 8) (bit_or byte mask);
        received_chunks = u32 (r.received_chunks + 1);
      }
      else r)

-- `sl_resume_map_has`; a read outside the map is given as a bit that is not set, since the code
-- keeps to the map where the invariant holds.
unfoldable pub has : ResumeMap → ℕ → Bool
has r i = if leb r.total_chunks i then false else get_or r.bits (i / 8) 0 / 2 ^ (i % 8) % 2 == 1

-- `sl_resume_map_complete`
unfoldable pub complete : ResumeMap → Bool
complete r = r.received_chunks == r.total_chunks

-- The loop of `sl_resume_map_missing` from `i` on, with `n` chunks to go and room for `cap`: the
-- indices, and `*more`.
unfoldable pub missing_loop : ResumeMap → ℕ → ℕ → ℕ → List ℕ × Bool
unfolding has
missing_loop r zero i cap = ([], false)
missing_loop r (suc n) i zero =
    let rest = missing_loop r n (suc i) zero in if has r i then rest else ([], true)
missing_loop r (suc n) i (suc cap) =
    let past = missing_loop r n (suc i) (suc cap) in
    let rest = missing_loop r n (suc i) cap in if has r i then past else (i ∷ rest.0, rest.1)

-- `sl_resume_map_missing`
unfoldable pub missing : ResumeMap → ℕ → List ℕ × Bool
unfolding missing_loop
missing r out_cap = missing_loop r r.total_chunks 0 out_cap

-- `sl_resume_map_serialize`: the bytes written at `out`.
unfoldable pub serialize : ResumeMap → ℕ → Outcome (List ℕ)
unfolding bytes_for bytes_at
serialize r out_cap = do
  reject_if (ltb out_cap (bytes_for r.total_chunks))
  bytes_at r.bits 0 (bytes_for r.total_chunks)

-- The counting loop of `sl_resume_map_deserialize`, with `n` chunks to go from `i` on
unfoldable pub count_loop : ResumeMap → ℕ → ℕ → ℕ → ℕ
unfolding has
count_loop r zero i count = count
count_loop r (suc n) i count = count_loop r n (suc i) (if has r i then u32 (count + 1) else count)

-- `memcpy(r->bits, in, bytes)`
copied : List ℕ → List ℕ → List ℕ
copied bits [] = bits
copied [] (x ∷ xs) = []
copied (b ∷ bits) (x ∷ xs) = x ∷ copied bits xs

-- `sl_resume_map_deserialize`
unfoldable pub deserialize : List ℕ → ℕ → Outcome ResumeMap
unfolding init count_loop copied
deserialize input total = do
  reject_if (ltb (length input) (bytes_for total))
  let r = init total
  let filled = record r { bits = copied r.bits (take (bytes_for total) input) }
  ok (record filled { received_chunks = count_loop filled total 0 0 })
