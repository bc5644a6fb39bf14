-- ===== src/Transfer/Receiver/Kept.antt =====
-- A chunk that was accepted stays in the file.
use native.Mathlib.Nat.{mul-le-mul_right, le_trans}
use securelink.Common.{
  ℕ, ◌+◌, ◌-◌, ◌*◌, ◌^◌, ◌≤◌, ◌<◌, ◌≡◌, ◌⊎◌, sym, ap, subst, ◌∙◌, Bool, true, false, List, [], ◌∷◌,
  ltb, ◌==◌, length, get_or, take, length-take, none, some, arith, Bool-cases, inl, inr,
}
use securelink.Bytes.{u64}
use securelink.Common.Sequences.{run}
use securelink.Wire.FileMeta.{chunk_max}
use securelink.Wire.FileChunk.{FileChunk}
use securelink.Transfer.ResumeMap.{ResumeMap, has}
use securelink.Transfer.ResumeMap.Received.{receive, has-receive}
use securelink.Transfer.Receiver.{
  FileRxResult, accepted, is_whole, hash_mismatch, FileReceiver, Answers, on_meta, take_chunk,
  store, record_chunk, verify, is_acceptable, count_bad, count_duplicate, pwrite,
}
use securelink.Transfer.Receiver.Storing.{length-pwrite, length-pwrite_ge, get_or-pwrite}
use securelink.Transfer.Receiver.Steps.{
  IsSound, marked-receive, new_chunk, on_chunk-cases, take_chunk_lem,
}
use securelink.Transfer.Receiver.Complete.{Call, announced, came, on_call, on_call-IsSound}

-- The chunk is new, and on the disk.
abbrev pub is_stored : FileRxResult → Bool
is_stored accepted = true
is_stored is_whole = true
is_stored hash_mismatch = true
is_stored _ = false

-- The bytes that reach the disk.
abbrev written : Answers → List ℕ → List ℕ
written a bytes = elim a.write_error [ some k ↦ take k bytes | none ↦ bytes ]

written-le : (a : Answers) (bytes : List ℕ) → length (written a bytes) ≤ length bytes
written-le a bytes =
    elim a.write_error
      as (λ o. length (elim o [ some k ↦ take k bytes | none ↦ bytes ]) ≤ length bytes) [
        | some k ↦ omega (arith, length-take k bytes)
        | none ↦ omega arith
      ]

has-inside : (m : ResumeMap) (j : ℕ) → has m j ≡ true → j < m.total_chunks
unfolding has
has-inside m j h = ground arith

-- The place of a chunk, as a number of 64 bits.
offset_lem : (i s : ℕ) → i < 2 ^ 32 → s ≤ chunk_max → u64 (i * s) ≡ i * s
offset_lem i s hi hs = grind arith

behind : (i j s : ℕ) → i < j → i * s + s ≤ j * s
behind i j s h =
    let steps : (i + 1) * s ≤ j * s = mul-le-mul_right s (omega arith) in
    let one : (i + 1) * s ≡ i * s + s = grind arith in omega arith

-- Two chunks do not meet.
apart :
    (i j s a b : ℕ)
    → (i == j) ≡ false
    → a ≤ s
    → b < s
    → (i * s + a ≤ j * s + b) ⊎ (j * s + b < i * s)
apart i j s a b ne ha hb = elim (Bool-cases (ltb i j)) [
  | inl e ↦ let step = behind i j s (ground arith) in inl (omega arith)
  | inr e ↦ let step = behind j i s (ground arith) in inr (omega arith)
]

-- The chunk stands in the file, whole.
pub record Keeps (r : FileReceiver) (j : ℕ) (bytes : List ℕ) : Type 0 where
  pub there : has r.resume j ≡ true
  pub fits : length bytes ≤ r.meta.chunk_size
  pub same :
      (k : ℕ)
      → k < length bytes
      → (j * r.meta.chunk_size + k < length r.file)
        × (get_or r.file (j * r.meta.chunk_size + k) 0 ≡ get_or bytes k 0)

module _ (sha256 : List ℕ → List ℕ) where
  -- A chunk writes nothing, or to the place of a chunk that is not there.
  file_lem :
      (r : FileReceiver) (c : FileChunk) (a : Answers)
      → ((take_chunk sha256 r c a).0.file ≡ r.file)
        ⊎ ((is_acceptable r c ≡ true)
            × (has r.resume c.chunk_index ≡ false)
            × ((take_chunk sha256 r c a).0.file
                ≡ pwrite r.file (u64 (c.chunk_index * r.meta.chunk_size)) (written a c.bytes)))
  unfolding take_chunk store record_chunk verify count_bad count_duplicate
  file_lem r c a = ground arith

  -- The place of a chunk that is not the one written.
  untouched :
      (r : FileReceiver) (c : FileChunk) (a : Answers) (j k : ℕ)
      → IsSound r
      → r.meta.chunk_size ≤ chunk_max
      → is_acceptable r c ≡ true
      → has r.resume c.chunk_index ≡ false
      → has r.resume j ≡ true
      → k < r.meta.chunk_size
      → let file = pwrite r.file (u64 (c.chunk_index * r.meta.chunk_size)) (written a c.bytes) in
        (get_or file (j * r.meta.chunk_size + k) 0 ≡ get_or r.file (j * r.meta.chunk_size + k) 0)
        × (length r.file ≤ length file)
  unfolding is_acceptable
  untouched r c a j k s small fine fresh there hk =
      let i : ℕ = c.chunk_index in
      let size : ℕ = r.meta.chunk_size in
      let inside = (new_chunk r c s fine fresh).0 in
      let ne : (i == j) ≡ false = elim (Bool-cases (i == j)) [
        | inl e ↦
            let same : i ≡ j = ground arith in
            let had = ap (has r.resume) same in absurd (ground arith)
        | inr e ↦ e
      ] in
      let place = offset_lem i size (omega (arith, s.total, s.valid.small)) small in
      let short : length (written a c.bytes) ≤ size =
        le_trans (written-le a c.bytes) (ground arith) in
      let off : ℕ = u64 (i * size) in
      let now = get_or-pwrite r.file off (written a c.bytes) (j * size + k) in
      let clear = apart i j size (length (written a c.bytes)) k ne short hk in
      (ground arith, length-pwrite r.file off (written a c.bytes))

  take_chunk-Keeps :
      (r : FileReceiver) (c : FileChunk) (a : Answers) (j : ℕ) (bytes : List ℕ)
      → IsSound r
      → r.meta.chunk_size ≤ chunk_max
      → Keeps r j bytes
      → Keeps (take_chunk sha256 r c a).0 j bytes
  take_chunk-Keeps r c a j bytes s small keep =
      let (set, meta, resume, done) = take_chunk_lem sha256 r c a s in
      let size = ap (λ m. m.chunk_size) meta in
      let marked =
        has-receive r.resume c.chunk_index j s.valid (has-inside r.resume j keep.there) in
      let was = keep.there in
      record {
        there = elim resume [
          | inl e ↦ ap (λ m. has m j) e ∙ was
          | inr e ↦ ap (λ m. has m j) e ∙ ground arith
        ];
        fits = omega (arith, keep.fits);
        same = λ k hk.
            let old = keep.same k hk in
            elim (file_lem r c a) [
              | inl e ↦ rw (size, e) old
              | inr (fine, fresh, e) ↦
                  let new = untouched r c a j k s small fine fresh was (omega (arith, keep.fits)) in
                  rw (size, e) (omega arith, new.0 ∙ old.1)
            ];
      }

  on_call-Keeps :
      (r : FileReceiver) (c : Call) (j : ℕ) (bytes : List ℕ)
      → IsSound r
      → r.meta.chunk_size ≤ chunk_max
      → Keeps r j bytes
      → Keeps (on_call sha256 r c) j bytes
  unfolding on_call
  on_call-Keeps r (announced wire opened) j bytes s small keep =
      let same : (on_meta r wire opened).0 ≡ r = unfold on_meta in ground (arith, s.begun) in
      subst (λ t. Keeps t j bytes) (sym same) keep
  on_call-Keeps r (came wire a) j bytes s small keep =
      elim (on_chunk-cases sha256 r wire a s.begun) [
        | inl refused ↦
            subst (λ t. Keeps t j bytes) (sym (ap (λ p. p.0) refused))
              (unfold count_bad in
                record { there = keep.there; fits = keep.fits; same = keep.same })
        | inr (c, e, taken) ↦
            subst (λ t. Keeps t j bytes) (sym (ap (λ p. p.0) taken))
              (take_chunk-Keeps r c a j bytes s small keep)
      ]

  pub run-Keeps :
      (cs : List Call) (r : FileReceiver) (j : ℕ) (bytes : List ℕ)
      → IsSound r
      → r.meta.chunk_size ≤ chunk_max
      → Keeps r j bytes
      → Keeps (run (on_call sha256) r cs) j bytes
  run-Keeps [] r j bytes s small keep = keep
  run-Keeps (c ∷ cs) r j bytes s small keep =
      let (sound, same) = on_call-IsSound sha256 r c s in
      run-Keeps cs (on_call sha256 r c) j bytes sound
        (subst (λ m. m.chunk_size ≤ chunk_max) (sym same) small)
        (on_call-Keeps r c j bytes s small keep)

  -- The parts of a receiver that has just stored a chunk.
  stored_lem :
      (r : FileReceiver) (c : FileChunk) (a : Answers)
      → IsSound r
      → is_stored (take_chunk sha256 r c a).1 ≡ true
      → (is_acceptable r c ≡ true)
        × (has r.resume c.chunk_index ≡ false)
        × ((take_chunk sha256 r c a).0.resume ≡ receive r.resume c.chunk_index)
        × ((take_chunk sha256 r c a).0.file
            ≡ pwrite r.file (u64 (c.chunk_index * r.meta.chunk_size)) c.bytes)
  unfolding take_chunk store record_chunk verify pwrite
  stored_lem r c a s h = let same = marked-receive r.resume c.chunk_index in ground arith

  pub store-Keeps :
      (r : FileReceiver) (c : FileChunk) (a : Answers)
      → IsSound r
      → r.meta.chunk_size ≤ chunk_max
      → is_stored (take_chunk sha256 r c a).1 ≡ true
      → Keeps (take_chunk sha256 r c a).0 c.chunk_index c.bytes
  store-Keeps r c a s small h =
      let (fine, fresh, resume, file) = stored_lem r c a s h in
      let i : ℕ = c.chunk_index in
      let inside = (new_chunk r c s fine fresh).0 in
      let size = ap (λ m. m.chunk_size) (take_chunk_lem sha256 r c a s).1 in
      let place = offset_lem i r.meta.chunk_size (omega (arith, s.total, s.valid.small)) small in
      let marked = has-receive r.resume i i s.valid (omega (arith, s.total)) in
      record {
        there = ap (λ m. has m i) resume ∙ ground arith;
        fits = unfold is_acceptable in ground arith;
        same = λ k hk.
            let off : ℕ = u64 (i * r.meta.chunk_size) in
            let now = get_or-pwrite r.file off c.bytes (i * r.meta.chunk_size + k) in
            let room = length-pwrite_ge r.file off c.bytes (omega arith) in
            let back : i * r.meta.chunk_size + k - off ≡ k = omega arith in
            let front = ap (λ n. get_or c.bytes n 0) back in
            rw (size, file) (omega arith, ground arith);
      }
