-- ===== src/Transfer/Receiver.antt =====
-- src/file_receiver.cpp: a file that comes as metadata and chunks, in any order.
pub mod Steps
pub mod Storing
pub mod Kept
pub mod Promises
pub mod Complete
use securelink.Common.{
  ℕ, ◌+◌, ◌-◌, ◌*◌, ◌%◌, ◌^◌, Bool, true, false, not, ◌&&◌, List, [], ◌++◌, ltb, leb, ◌==◌,
  if◌then◌else◌, length, take, replicate, Outcome, ok, fail, fault, Option, none, some,
}
use securelink.Common.Assoc.{bytes_beq}
use securelink.Bytes.{u32, u64}
use securelink.Memory.{write_at}
use securelink.Wire.FileMeta.{FileMeta, meta_unpack}
use securelink.Wire.FileChunk.{FileChunk, chunk_unpack, crc_ok}
use securelink.Transfer.ResumeMap.{ResumeMap, init, set_chunk, has, complete, missing}

pub data FileRxResult : Type 0 where
  accepted duplicate bad_chunk bad_meta is_whole hash_mismatch io_error : FileRxResult

pub record FileReceiverStats : Type 0 where
  pub chunks_received : ℕ
  pub duplicates : ℕ
  pub bad_chunks : ℕ
  pub bytes_received : ℕ

-- `file` is what stands on the disk under the receiver's descriptor.
pub record FileReceiver : Type 0 where
  pub meta_set : Bool
  pub meta : FileMeta
  pub resume : ResumeMap
  pub hash_done : Bool
  pub stats : FileReceiverStats
  pub file : List ℕ

-- The zeros of `meta_{}`
abbrev pub no_meta : FileMeta
no_meta = record {
  total_size = 0;
  chunk_size = 0;
  total_chunks = 0;
  mode = 0;
  mtime_s = 0;
  sha256 = replicate 32 0;
  name = [];
}

abbrev pub new : FileReceiver
new = record {
  meta_set = false;
  meta = no_meta;
  resume = record { bits = []; total_chunks = 0; received_chunks = 0 };
  hash_done = false;
  stats = record { chunks_received = 0; duplicates = 0; bad_chunks = 0; bytes_received = 0 };
  file = [];
}

-- What is left of `on_meta` once the metadata is read; `opened` says whether the hasher and the file
-- could be made. The file is made as long as the metadata says.
unfoldable pub begin_file : FileReceiver → FileMeta → Bool → FileReceiver × FileRxResult
begin_file r m opened =
    let started = record r { meta = m; resume = init m.total_chunks } in
    if not opened
    then (started, io_error)
    else (record started { file = replicate m.total_size 0; meta_set = true }, accepted)

unfoldable pub on_meta : FileReceiver → List ℕ → Bool → FileReceiver × FileRxResult
unfolding begin_file
on_meta r wire opened =
    if r.meta_set
    then (r, bad_meta)
    else elim (meta_unpack wire) [ ok m ↦ begin_file r m opened | _ ↦ (r, bad_meta) ]

-- The calls of `pwrite`: without bytes nothing happens, and a write behind the end fills the gap
-- with zeros.
unfoldable pub pwrite : List ℕ → ℕ → List ℕ → List ℕ
pwrite file off bytes =
    if length bytes == 0
    then file
    else write_at (file ++ replicate (off + length bytes - length file) 0) off bytes

-- What the system does for a chunk: `write_error` is the number of bytes that are written before a
-- write fails, `read_ok` whether the file can be read back and hashed.
pub record Answers : Type 0 where
  pub write_error : Option ℕ
  pub read_ok : Bool

unfoldable pub count_bad : FileReceiver → FileReceiver
count_bad r = record r { stats = record r.stats { bad_chunks = u32 (r.stats.bad_chunks + 1) } }

unfoldable pub count_duplicate : FileReceiver → FileReceiver
count_duplicate r = record r {
  stats = record r.stats { duplicates = u32 (r.stats.duplicates + 1) };
}

-- The guards of `on_chunk` in front of the one for duplicates
unfoldable pub is_acceptable : FileReceiver → FileChunk → Bool
is_acceptable r c =
    if leb r.meta.total_chunks c.chunk_index
    then false
    else if ltb r.meta.chunk_size (length c.bytes)
    then false
    else if ltb (u32 (c.chunk_index + 1)) r.meta.total_chunks
        && not (length c.bytes == r.meta.chunk_size)
    then false
    else crc_ok c

-- `sl_resume_map_set`, the result of which is not looked at
unfoldable pub marked : ResumeMap → ℕ → ResumeMap
marked m i = elim (set_chunk m i) [ ok n ↦ n | _ ↦ m ]

module _ (sha256 : List ℕ → List ℕ) where
  -- The end of `on_chunk`: the file is read back and its digest compared.
  unfoldable pub verify : FileReceiver → Bool → FileReceiver × FileRxResult
  verify r read_ok = if r.hash_done then (r, is_whole) else if not read_ok then (r, io_error) else (
    record r { hash_done = true },
    if bytes_beq (sha256 r.file) r.meta.sha256 then is_whole else hash_mismatch,
  )

  -- The chunk is on the disk.
  unfoldable pub record_chunk : FileReceiver → FileChunk → Bool → FileReceiver × FileRxResult
  unfolding verify marked
  record_chunk r c read_ok =
      let s = record r {
        resume = marked r.resume c.chunk_index;
        stats = record r.stats {
          chunks_received = u32 (r.stats.chunks_received + 1);
          bytes_received = u64 (r.stats.bytes_received + length c.bytes);
        };
      } in
      if not (complete s.resume) then (s, accepted) else verify s read_ok

  unfoldable pub store : FileReceiver → FileChunk → Answers → FileReceiver × FileRxResult
  unfolding record_chunk pwrite
  store r c answers =
      let off = u64 (c.chunk_index * r.meta.chunk_size) in
      if length c.bytes == 0 then record_chunk r c answers.read_ok else elim answers.write_error [
        | some k ↦ (record r { file = pwrite r.file off (take k c.bytes) }, io_error)
        | none ↦ record_chunk (record r { file = pwrite r.file off c.bytes }) c answers.read_ok
      ]

  unfoldable pub take_chunk : FileReceiver → FileChunk → Answers → FileReceiver × FileRxResult
  unfolding store is_acceptable count_bad count_duplicate
  take_chunk r c answers =
      if not (is_acceptable r c)
      then (count_bad r, bad_chunk)
      else if has r.resume c.chunk_index
      then (count_duplicate r, duplicate)
      else store r c answers

  unfoldable pub on_chunk : FileReceiver → List ℕ → Answers → FileReceiver × FileRxResult
  unfolding take_chunk count_bad
  on_chunk r wire answers =
      if not r.meta_set
      then (r, bad_meta)
      else elim (chunk_unpack wire) [ ok c ↦ take_chunk r c answers | _ ↦ (count_bad r, bad_chunk) ]

unfoldable pub is_complete : FileReceiver → Bool
is_complete r = r.meta_set && complete r.resume && r.hash_done

-- `missing_chunks`
unfoldable pub missing_chunks : FileReceiver → ℕ → List ℕ
missing_chunks r max = (missing r.resume max).0
