-- ===== src/Tests/Receivers.antt =====
-- A receiver of files at work.
use securelink.Common.{
  ℕ, ◌+◌, ◌*◌, ◌<◌, ◌^◌, ◌≡◌, ◌≢◌, refl, ap, ◌∙◌, true, List, [], ◌∷◌, ◌++◌, length, replicate,
  get_or, none, ok, arith,
}
use securelink.Common.Sequences.{run}
use securelink.Bytes.{
  bytes_at, unpack_u64, unpack_u32, unpack_u16, byte_at, join_u16, join_u32, join_u64,
}
use securelink.Memory.{write_at}
use securelink.Wire.FileMeta.{
  FileMeta, meta_unpack, meta_validate, chars_ok, dots_ahead, expected_chunks,
}
use securelink.Wire.FileChunk.{
  FileChunk, chunk_unpack, crc32c, crc_update, crc_finalize, crc_entry, crc_round, crc_ok,
  chunk_crc,
}
use securelink.Transfer.ResumeMap.{init, bytes_for, set_chunk, has, complete}
use securelink.Transfer.Receiver.{
  FileReceiver, Answers, accepted, is_whole, hash_mismatch, new, on_meta, on_chunk, begin_file,
  is_complete, take_chunk, store, record_chunk, verify, is_acceptable, pwrite, marked,
}
use securelink.Transfer.Receiver.Complete.{Call, announced, came, on_call, is_refusal}
use securelink.Transfer.Receiver.Kept.{is_stored}
use securelink.Transfer.Receiver.Promises.{
  started, taken_in-stays, is_whole-digest, hash_mismatch_complete, on_chunk-refused,
}

-- A digest that is the length 32 times over.
abbrev digest : List ℕ → List ℕ
digest xs = replicate 32 (length xs)

-- The metadata of a file of three bytes in one chunk.
abbrev head_with : ℕ → List ℕ
head_with d =
    0
    ∷ 0
    ∷ 0
    ∷ 0
    ∷ 0
    ∷ 0
    ∷ 0
    ∷ 3
    ∷ 0
    ∷ 0
    ∷ 4
    ∷ 0
    ∷ 0
    ∷ 0
    ∷ 0
    ∷ 1
    ∷ 0
    ∷ 0
    ∷ 1
    ∷ 164
    ∷ 0
    ∷ 0
    ∷ 0
    ∷ 0
    ∷ (replicate 32 d ++ (0 ∷ 1 ∷ (replicate 24 0 ++ (97 ∷ []))))

abbrev meta_with : ℕ → FileMeta
meta_with d = record {
  total_size = 3;
  chunk_size = 1024;
  total_chunks = 1;
  mode = 420;
  mtime_s = 0;
  sha256 = replicate 32 d;
  name = 97 ∷ [];
}

abbrev begun : ℕ → FileReceiver
begun d = record new { meta_set = true; meta = meta_with d; resume = init 1; file = 0 ∷ 0 ∷ 0 ∷ [] }

read : (d : ℕ) → meta_unpack (head_with d) ≡ ok (meta_with d)
unfolding meta_unpack unpack_u64 unpack_u32 unpack_u16 byte_at bytes_at join_u16 join_u32 join_u64
    meta_validate chars_ok dots_ahead expected_chunks
read d = refl

head-started : (d : ℕ) → on_meta new (head_with d) true ≡ (begun d, accepted)
unfolding on_meta begin_file
head-started d = rw (read d) refl

is_started : (d : ℕ) → started (head_with d) ≡ begun d
is_started d = ap (λ p. p.0) (head-started d)

abbrev chunk : FileChunk
chunk = record { chunk_index = 0; crc32c = 4046516766; flags = 1; bytes = 1 ∷ 2 ∷ 3 ∷ [] }

abbrev chunk_wire : List ℕ
chunk_wire = 0 ∷ 0 ∷ 0 ∷ 0 ∷ 0 ∷ 0 ∷ 0 ∷ 3 ∷ 241 ∷ 48 ∷ 242 ∷ 30 ∷ 1 ∷ 0 ∷ 0 ∷ 0 ∷ 1 ∷ 2 ∷ 3 ∷ []

chunk_read : chunk_unpack chunk_wire ≡ ok chunk
unfolding chunk_unpack unpack_u32 byte_at bytes_at join_u32
chunk_read = refl

abbrev all_well : Answers
all_well = record { write_error = none; read_ok = true }

checksum : crc_ok chunk ≡ true
unfolding crc_ok chunk_crc crc32c crc_update crc_finalize crc_entry crc_round
checksum = refl

verdicts :
    ((on_chunk digest (begun 3) chunk_wire all_well).1 ≡ is_whole)
    × ((on_chunk digest (begun 9) chunk_wire all_well).1 ≡ hash_mismatch)
unfolding on_chunk take_chunk store record_chunk verify is_acceptable pwrite marked set_chunk has
    complete init bytes_for byte_at write_at
verdicts = (rw (chunk_read, checksum) refl, rw (chunk_read, checksum) refl)

-- The same for the receiver that read the metadata.
whole : (on_chunk digest (started (head_with 3)) chunk_wire all_well).1 ≡ is_whole
whole = ap (λ r. (on_chunk digest r chunk_wire all_well).1) (is_started 3) ∙ verdicts.0

mismatched : (on_chunk digest (started (head_with 9)) chunk_wire all_well).1 ≡ hash_mismatch
mismatched = ap (λ r. (on_chunk digest r chunk_wire all_well).1) (is_started 9) ∙ verdicts.1

takes_in : is_stored (on_chunk digest (started (head_with 3)) chunk_wire all_well).1 ≡ true
takes_in = ap is_stored whole

started_few : (d : ℕ) → (started (head_with d)).meta.total_chunks + 7 < 2 ^ 32
started_few d = let count = ap (λ r. r.meta.total_chunks) (is_started d) in omega (arith, count)

-- The chunk comes again, and so does the metadata.
abbrev later : List Call
later = came chunk_wire all_well ∷ announced (head_with 9) true ∷ []

taken_in-stays_example :
    (0 * (started (head_with 3)).meta.chunk_size + 2
      < length
          (run
            (on_call digest)
            (on_chunk digest (started (head_with 3)) chunk_wire all_well).0
            later).file)
    × (get_or
          (run
            (on_call digest)
            (on_chunk digest (started (head_with 3)) chunk_wire all_well).0
            later).file
          (0 * (started (head_with 3)).meta.chunk_size + 2)
          0
        ≡ get_or chunk.bytes 2 0)
taken_in-stays_example =
    taken_in-stays digest (head_with 3) chunk_wire [] later all_well chunk 2
      (ap (λ p. p.1) (head-started 3)) (started_few 3) chunk_read takes_in (omega arith)

is_whole-digest_example :
    (digest (on_chunk digest (started (head_with 3)) chunk_wire all_well).0.file
      ≡ (started (head_with 3)).meta.sha256)
    × (is_complete (on_chunk digest (started (head_with 3)) chunk_wire all_well).0 ≡ true)
is_whole-digest_example =
    is_whole-digest digest (head_with 3) chunk_wire [] all_well (ap (λ p. p.1) (head-started 3))
      (started_few 3) whole

hash_mismatch_complete_example :
    (digest (on_chunk digest (started (head_with 9)) chunk_wire all_well).0.file
      ≢ (started (head_with 9)).meta.sha256)
    × (is_complete (on_chunk digest (started (head_with 9)) chunk_wire all_well).0 ≡ true)
hash_mismatch_complete_example =
    hash_mismatch_complete digest (head_with 9) chunk_wire [] all_well
      (ap (λ p. p.1) (head-started 9)) (started_few 9) mismatched

-- The first five bytes of a chunk
abbrev cut_off : List ℕ
cut_off = 0 ∷ 0 ∷ 0 ∷ 0 ∷ 0 ∷ []

cut_off-refused : is_refusal (on_chunk digest (begun 3) cut_off all_well).1 ≡ true
unfolding on_chunk chunk_unpack
cut_off-refused = refl

on_chunk-refused_example :
    ((on_chunk digest (begun 3) cut_off all_well).0.file ≡ (begun 3).file)
    × ((on_chunk digest (begun 3) cut_off all_well).0.resume ≡ (begun 3).resume)
    × ((on_chunk digest (begun 3) cut_off all_well).0.meta ≡ (begun 3).meta)
on_chunk-refused_example = on_chunk-refused digest (begun 3) cut_off all_well cut_off-refused
