-- ===== src/Transfer/Receiver/Promises.antt =====
-- What the owner of a receiver may rely on, from the metadata on.
use securelink.Common.{
  ℕ, ◌+◌, ◌*◌, ◌^◌, ◌≤◌, ◌<◌, ◌≡◌, ◌≢◌, sym, ap, subst, ◌∙◌, true, List, length, get_or, arith,
  Outcome-cases, inl, inr, ok,
}
use securelink.Common.Sequences.{run}
use securelink.Common.Assoc.{bytes_beq_iff}
use securelink.Wire.FileMeta.{chunk_max, meta_unpack, meta_validate}
use securelink.Wire.FileMeta.Codec.{meta_unpack-valid}
use securelink.Wire.FileChunk.{FileChunk, chunk_unpack}
use securelink.Transfer.Receiver.{
  accepted, is_whole, hash_mismatch, FileReceiver, new, Answers, on_meta, begin_file, on_chunk,
  take_chunk, store, record_chunk, verify, count_bad, count_duplicate, is_complete,
}
use securelink.Transfer.Receiver.Steps.{on_chunk-cases}
use securelink.Transfer.Receiver.Complete.{
  Call, on_call, is_refusal, run-IsSound, start-IsSound, on_chunk-verdict,
}
use securelink.Transfer.Receiver.Kept.{Keeps, is_stored, store-Keeps, run-Keeps}
use securelink.Transfer.Receiver.Steps.{on_chunk-IsSound, on_chunk-meta}

-- The receiver after its metadata.
abbrev pub started : List ℕ → FileReceiver
started head = (on_meta new head true).0

started_small :
    (head : List ℕ)
    → (on_meta new head true).1 ≡ accepted
    → (started head).meta.chunk_size ≤ chunk_max
started_small head e = elim (Outcome-cases (meta_unpack head)) [
  | inl (m, read) ↦
      let valid = meta_unpack-valid head m read in
      let size : m.chunk_size ≤ chunk_max = unfold meta_validate in ground arith in
      let made : (started head).meta ≡ m = unfold on_meta begin_file in ground arith in
      let same = ap (λ n. n.chunk_size) made in omega arith
  | inr bad ↦ absurd (unfold on_meta in ground arith)
]

module _ (sha256 : List ℕ → List ℕ) where
  -- In a transfer of fewer than 2 ^ 32 - 7 chunks, with the metadata accepted: the bytes of a
  -- chunk that is taken in stand in the file at the chunk's place, and stay there whatever comes
  -- after, chunks, copies of chunks, metadata or failures to write.
  pub taken_in-stays :
      (head wire : List ℕ) (before after : List Call) (a : Answers) (c : FileChunk) (k : ℕ)
      → (on_meta new head true).1 ≡ accepted
      → (started head).meta.total_chunks + 7 < 2 ^ 32
      → chunk_unpack wire ≡ ok c
      → is_stored (on_chunk sha256 (run (on_call sha256) (started head) before) wire a).1 ≡ true
      → k < length c.bytes
      → let r =
          run
            (on_call sha256)
            (on_chunk sha256 (run (on_call sha256) (started head) before) wire a).0
            after in
        let at = c.chunk_index * (started head).meta.chunk_size + k in
        (at < length r.file) × (get_or r.file at 0 ≡ get_or c.bytes k 0)
  taken_in-stays head wire before after a c k e few read stored hk =
      let (s, same) = run-IsSound sha256 before (started head) (start-IsSound head e few) in
      let r : FileReceiver = run (on_call sha256) (started head) before in
      let small : r.meta.chunk_size ≤ chunk_max =
        subst (λ m. m.chunk_size ≤ chunk_max) (sym same) (started_small head e) in
      let after_it : FileReceiver = (on_chunk sha256 r wire a).0 in
      let sound = on_chunk-IsSound sha256 r wire a s in
      let kept_meta = on_chunk-meta sha256 r wire a s in
      let keep : Keeps after_it c.chunk_index c.bytes =
        elim (on_chunk-cases sha256 r wire a s.begun) [
          | inl refused ↦ absurd (ground arith)
          | inr (d, read_too, taken) ↦
              let one : d ≡ c = ground arith in
              let it = ap (λ x. on_chunk sha256 r wire a ≡ take_chunk sha256 r x a) one in
              let taken_c =
                subst (λ x. on_chunk sha256 r wire a ≡ take_chunk sha256 r x a) one taken in
              subst (λ t. Keeps t c.chunk_index c.bytes) (sym (ap (λ p. p.0) taken_c))
                (store-Keeps sha256 r c a s small (sym (ap (λ p. is_stored p.1) taken_c) ∙ stored))
        ] in
      let small_too = subst (λ m. m.chunk_size ≤ chunk_max) (sym kept_meta) small in
      let last = run-Keeps sha256 after after_it c.chunk_index c.bytes sound small_too keep in
      let meta_of = (run-IsSound sha256 after after_it sound).1 ∙ (kept_meta ∙ same) in
      subst
        (λ m.
          let at = c.chunk_index * m.chunk_size + k in
          (at < length (run (on_call sha256) after_it after).file)
          × (get_or (run (on_call sha256) after_it after).file at 0 ≡ get_or c.bytes k 0))
        meta_of (last.same k hk)

  -- In a transfer of fewer than 2 ^ 32 - 7 chunks: when a receiver says that the file is whole,
  -- all chunks are there and the digest of what is on the disk is the one that was announced.
  pub is_whole-digest :
      (head wire : List ℕ) (cs : List Call) (a : Answers)
      → (on_meta new head true).1 ≡ accepted
      → (started head).meta.total_chunks + 7 < 2 ^ 32
      → (on_chunk sha256 (run (on_call sha256) (started head) cs) wire a).1 ≡ is_whole
      → let r = (on_chunk sha256 (run (on_call sha256) (started head) cs) wire a).0 in
        (sha256 r.file ≡ (started head).meta.sha256) × (is_complete r ≡ true)
  is_whole-digest head wire cs a e few h =
      let (s, same) = run-IsSound sha256 cs (started head) (start-IsSound head e few) in
      let r : FileReceiver = run (on_call sha256) (started head) cs in
      let verdict = (on_chunk-verdict sha256 r wire a s).0 h in
      let digest =
        (bytes_beq_iff (sha256 (on_chunk sha256 r wire a).0.file) r.meta.sha256).0 verdict.0 in
      (digest ∙ ap (λ m. m.sha256) same, verdict.1)

  -- In a transfer of fewer than 2 ^ 32 - 7 chunks: when a receiver says that the digest is wrong,
  -- it is not the announced one, and yet the receiver counts its file as complete.
  pub hash_mismatch_complete :
      (head wire : List ℕ) (cs : List Call) (a : Answers)
      → (on_meta new head true).1 ≡ accepted
      → (started head).meta.total_chunks + 7 < 2 ^ 32
      → (on_chunk sha256 (run (on_call sha256) (started head) cs) wire a).1 ≡ hash_mismatch
      → let r = (on_chunk sha256 (run (on_call sha256) (started head) cs) wire a).0 in
        (sha256 r.file ≢ (started head).meta.sha256) × (is_complete r ≡ true)
  hash_mismatch_complete head wire cs a e few h =
      let (s, same) = run-IsSound sha256 cs (started head) (start-IsSound head e few) in
      let r : FileReceiver = run (on_call sha256) (started head) cs in
      let verdict = (on_chunk-verdict sha256 r wire a s).1 h in
      let digest = (bytes_beq_iff (sha256 (on_chunk sha256 r wire a).0.file) r.meta.sha256).1 in
      (λ q. absurd (ground (arith, digest (q ∙ sym (ap (λ m. m.sha256) same)))), verdict.1)

  -- What a receiver refuses, as malformed, out of range, of the wrong length, with a bad checksum, as
  -- a copy or before any metadata, changes neither the file nor the map nor the metadata.
  pub on_chunk-refused :
      (r : FileReceiver) (wire : List ℕ) (a : Answers)
      → is_refusal (on_chunk sha256 r wire a).1 ≡ true
      → ((on_chunk sha256 r wire a).0.file ≡ r.file)
        × ((on_chunk sha256 r wire a).0.resume ≡ r.resume)
        × ((on_chunk sha256 r wire a).0.meta ≡ r.meta)
  unfolding on_chunk take_chunk store record_chunk verify count_bad count_duplicate
  on_chunk-refused r wire a h = elim (Outcome-cases (chunk_unpack wire)) [
    | inl (c, e) ↦ ground arith
    | inr e ↦ ground arith
  ]
