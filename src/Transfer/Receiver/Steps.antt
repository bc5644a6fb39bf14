-- ===== src/Transfer/Receiver/Steps.antt =====
-- What each call of a receiver keeps true.
use securelink.Common.{
  ℕ, ◌<◌, ◌≡◌, refl, sym, ap, ◌∙◌, true, false, not, ◌||◌, ◌⊎◌, subst, List, ok, arith, Bool-cases,
  Outcome-cases, inl, inr,
}
use securelink.Wire.FileChunk.{FileChunk, chunk_unpack}
use securelink.Transfer.ResumeMap.{ResumeMap, has, complete}
use securelink.Transfer.ResumeMap.Received.{
  IsValid, complete_iff, receive, receive-IsValid, total-receive,
}
use securelink.Transfer.Receiver.{
  bad_chunk, FileReceiver, Answers, on_chunk, take_chunk, store, record_chunk, verify, marked,
  is_acceptable, count_bad, count_duplicate,
}

pub record IsSound (r : FileReceiver) : Type 0 where
  pub begun : r.meta_set ≡ true
  pub valid : IsValid r.resume
  pub total : r.resume.total_chunks ≡ r.meta.total_chunks
  pub whole : r.hash_done ≡ true → complete r.resume ≡ true

pub marked-receive : (m : ResumeMap) (i : ℕ) → marked m i ≡ receive m i
unfolding marked receive
marked-receive m i = ground arith

-- What is new is not in the map, so that the file is not hashed yet.
pub new_chunk :
    (r : FileReceiver) (c : FileChunk)
    → IsSound r
    → is_acceptable r c ≡ true
    → has r.resume c.chunk_index ≡ false
    → (c.chunk_index < r.meta.total_chunks) × (r.hash_done ≡ false)
unfolding is_acceptable
new_chunk r c s a h =
    let inside : c.chunk_index < r.meta.total_chunks = ground arith in
    let every = (complete_iff r.resume s.valid).0 in
    elim (Bool-cases r.hash_done) [
      | inl e ↦
          let had = every (s.whole e) c.chunk_index (omega (arith, s.total)) in
          absurd (ground arith)
      | inr e ↦ (inside, e)
    ]

module _ (sha256 : List ℕ → List ℕ) where
  -- The parts that a chunk touches.
  pub take_chunk_lem :
      (r : FileReceiver) (c : FileChunk) (answers : Answers)
      → IsSound r
      → ((take_chunk sha256 r c answers).0.meta_set ≡ true)
        × ((take_chunk sha256 r c answers).0.meta ≡ r.meta)
        × (((take_chunk sha256 r c answers).0.resume ≡ r.resume)
            ⊎ ((take_chunk sha256 r c answers).0.resume ≡ receive r.resume c.chunk_index))
        × ((not (take_chunk sha256 r c answers).0.hash_done
              || complete (take_chunk sha256 r c answers).0.resume)
            ≡ true)
  unfolding take_chunk store record_chunk verify count_bad count_duplicate
  take_chunk_lem r c answers s =
      let same = marked-receive r.resume c.chunk_index in
      let new = new_chunk r c s in let set = s.begun in let done = s.whole in ground arith

  -- A call is refused, or about the chunk that it is given.
  pub on_chunk-cases :
      (r : FileReceiver) (wire : List ℕ) (answers : Answers)
      → r.meta_set ≡ true
      → (on_chunk sha256 r wire answers ≡ (count_bad r, bad_chunk))
        ⊎ ((c : FileChunk) × (chunk_unpack wire ≡ ok c)
            × (on_chunk sha256 r wire answers ≡ take_chunk sha256 r c answers))
  unfolding on_chunk
  on_chunk-cases r wire answers set = elim (Outcome-cases (chunk_unpack wire)) [
    | inl (c, e) ↦ inr (c, e, ground arith)
    | inr e ↦ inl (ground arith)
  ]

  take_chunk-IsSound :
      (r : FileReceiver) (c : FileChunk) (answers : Answers)
      → IsSound r
      → IsSound (take_chunk sha256 r c answers).0
  take_chunk-IsSound r c answers s =
      let (set, meta, resume, done) = take_chunk_lem r c answers s in
      let same = ap (λ m. m.total_chunks) meta in
      let whole : (take_chunk sha256 r c answers).0.hash_done ≡ true
          → complete (take_chunk sha256 r c answers).0.resume ≡ true =
        λ h. ground arith in
      elim resume [
        | inl kept ↦ record {
          begun = set;
          valid = subst IsValid (sym kept) s.valid;
          total = ap (λ m. m.total_chunks) kept ∙ (s.total ∙ sym same);
          whole = whole;
        }
        | inr more ↦ record {
          begun = set;
          valid = subst IsValid (sym more) (receive-IsValid r.resume c.chunk_index s.valid);
          total =
              ap (λ m. m.total_chunks) more
              ∙ (total-receive r.resume c.chunk_index s.valid ∙ (s.total ∙ sym same));
          whole = whole;
        }
      ]

  pub on_chunk-IsSound :
      (r : FileReceiver) (wire : List ℕ) (answers : Answers)
      → IsSound r
      → IsSound (on_chunk sha256 r wire answers).0
  on_chunk-IsSound r wire answers s = elim (on_chunk-cases r wire answers s.begun) [
    | inl refused ↦ subst IsSound (sym (ap (λ p. p.0) refused)) (
        unfold count_bad in
        record { begun = s.begun; valid = s.valid; total = s.total; whole = s.whole })
    | inr (c, e, taken) ↦
        subst IsSound (sym (ap (λ p. p.0) taken)) (take_chunk-IsSound r c answers s)
  ]

  pub on_chunk-meta :
      (r : FileReceiver) (wire : List ℕ) (answers : Answers)
      → IsSound r
      → (on_chunk sha256 r wire answers).0.meta ≡ r.meta
  on_chunk-meta r wire answers s = elim (on_chunk-cases r wire answers s.begun) [
    | inl refused ↦ ap (λ p. p.0.meta) refused ∙ (unfold count_bad in refl)
    | inr (c, e, taken) ↦ ap (λ p. p.0.meta) taken ∙ (take_chunk_lem r c answers s).1
  ]
