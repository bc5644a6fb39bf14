-- ===== src/Transfer/Receiver/Complete.antt =====
-- What a receiver's answers say of the file.
use securelink.Common.{
  ℕ, ◌+◌, ◌^◌, ◌<◌, ◌≡◌, refl, sym, ap, subst, ◌∙◌, Bool, true, false, List, [], ◌∷◌, arith,
  Outcome-cases, inl, inr,
}
use securelink.Common.Sequences.{run}
use securelink.Common.Assoc.{bytes_beq}
use securelink.Wire.FileMeta.{FileMeta, meta_unpack}
use securelink.Wire.FileChunk.{FileChunk}
use securelink.Transfer.ResumeMap.{init}
use securelink.Transfer.ResumeMap.Resume.{init-IsValid}
use securelink.Transfer.Receiver.{
  FileRxResult, accepted, duplicate, bad_chunk, bad_meta, is_whole, hash_mismatch, FileReceiver,
  new, Answers, on_meta, on_chunk, begin_file, take_chunk, store, record_chunk, verify, is_complete,
}
use securelink.Transfer.Receiver.Steps.{
  IsSound, new_chunk, on_chunk-cases, on_chunk-IsSound, on_chunk-meta,
}

pub data Call : Type 0 where
  announced : List ℕ → Bool → Call
  came : List ℕ → Answers → Call

-- The receiver says no to what came.
abbrev pub is_refusal : FileRxResult → Bool
is_refusal duplicate = true
is_refusal bad_chunk = true
is_refusal bad_meta = true
is_refusal _ = false

-- A file that is begun.
pub start-IsSound :
    (head : List ℕ)
    → (on_meta new head true).1 ≡ accepted
    → (on_meta new head true).0.meta.total_chunks + 7 < 2 ^ 32
    → IsSound (on_meta new head true).0
start-IsSound head e small = elim (Outcome-cases (meta_unpack head)) [
  | inl (m, read) ↦
      let made : (on_meta new head true).0 ≡ (begin_file new m true).0 =
        unfold on_meta in ground arith in
      let count = ap (λ t. t.meta.total_chunks) made in
      subst IsSound (sym made) (begun_file m (omega arith))
  | inr bad ↦ absurd (unfold on_meta in ground arith)
]
  where
    begun_file :
        (m : FileMeta)
        → (begin_file new m true).0.meta.total_chunks + 7 < 2 ^ 32
        → IsSound (begin_file new m true).0
    begun_file m h =
        unfold begin_file init in
        record {
          begun = refl;
          valid = init-IsValid m.total_chunks h;
          total = refl;
          whole = λ h. absurd (ground arith);
        }

module _ (sha256 : List ℕ → List ℕ) where
  unfoldable pub on_call : FileReceiver → Call → FileReceiver
  on_call r (announced wire opened) = (on_meta r wire opened).0
  on_call r (came wire answers) = (on_chunk sha256 r wire answers).0

  pub on_call-IsSound :
      (r : FileReceiver) (c : Call)
      → IsSound r
      → IsSound (on_call r c) × ((on_call r c).meta ≡ r.meta)
  unfolding on_call
  on_call-IsSound r (announced wire opened) s =
      let same : (on_meta r wire opened).0 ≡ r = unfold on_meta in ground (arith, s.begun) in
      (subst IsSound (sym same) s, ap (λ t. t.meta) same)
  on_call-IsSound r (came wire answers) s =
      (on_chunk-IsSound sha256 r wire answers s, on_chunk-meta sha256 r wire answers s)

  pub run-IsSound :
      (cs : List Call) (r : FileReceiver)
      → IsSound r
      → IsSound (run on_call r cs) × ((run on_call r cs).meta ≡ r.meta)
  run-IsSound [] r s = (s, refl)
  run-IsSound (c ∷ cs) r s =
      let (sound, same) = on_call-IsSound r c s in
      let rest = run-IsSound cs (on_call r c) sound in (rest.0, rest.1 ∙ same)

  -- The file is compared just when it is said to be whole or not.
  take_chunk-verdict :
      (r : FileReceiver) (c : FileChunk) (answers : Answers)
      → IsSound r
      → let o = take_chunk sha256 r c answers in
        (o.1 ≡ is_whole
          → (bytes_beq (sha256 o.0.file) o.0.meta.sha256 ≡ true) × (is_complete o.0 ≡ true))
        × (o.1 ≡ hash_mismatch
            → (bytes_beq (sha256 o.0.file) o.0.meta.sha256 ≡ false) × (is_complete o.0 ≡ true))
  unfolding take_chunk store record_chunk verify is_complete
  take_chunk-verdict r c answers s =
      let new = new_chunk r c s in let set = s.begun in (λ e. ground arith, λ e. ground arith)

  pub on_chunk-verdict :
      (r : FileReceiver) (wire : List ℕ) (answers : Answers)
      → IsSound r
      → let o = on_chunk sha256 r wire answers in
        (o.1 ≡ is_whole
          → (bytes_beq (sha256 o.0.file) r.meta.sha256 ≡ true) × (is_complete o.0 ≡ true))
        × (o.1 ≡ hash_mismatch
            → (bytes_beq (sha256 o.0.file) r.meta.sha256 ≡ false) × (is_complete o.0 ≡ true))
  on_chunk-verdict r wire answers s =
      let meta = on_chunk-meta sha256 r wire answers s in
      elim (on_chunk-cases sha256 r wire answers s.begun) [
        | inl refused ↦ (λ e. absurd (ground arith), λ e. absurd (ground arith))
        | inr (c, e, taken) ↦
            let verdict = take_chunk-verdict r c answers s in (λ e. ground arith, λ e. ground arith)
      ]
