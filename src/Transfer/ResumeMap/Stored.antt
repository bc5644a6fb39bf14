-- ===== src/Transfer/ResumeMap/Stored.antt =====
-- A transfer that is broken off and taken up again with the map that it had.
use securelink.Common.{
  ℕ, zero, suc, ◌+◌, ◌/◌, ◌%◌, ◌^◌, ◌≤◌, ◌<◌, ◌≡◌, inl, inr, false, not, List, [], ◌∷◌, ltb, ◌==◌,
  if◌then◌else◌, length, length-replicate, get_or, take, take_all, ok, arith, sym, ◌∙◌, ap, refl,
  ◌&&◌, leb, Bool-cases,
}
use securelink.Common.Sequences.{run}
use securelink.Bytes.{u32}
use securelink.Transfer.ResumeMap.{
  ResumeMap, bytes_for, init, has, missing_loop, missing, serialize, deserialize, count_loop,
  copied,
}
use securelink.Transfer.ResumeMap.Resume.{among, init-IsValid, run-IsValid, received_lem, total_run}
use securelink.Transfer.ResumeMap.Received.{bit-le, held, held-le, has-bit, IsValid, receive}

missing_loop_lem :
    (r : ResumeMap) (n i cap j : ℕ)
    → n ≤ cap
    → (among j (missing_loop r n i cap).0 ≡ (leb i j && ltb j (i + n) && not (has r j)))
      × ((missing_loop r n i cap).1 ≡ false)
unfolding missing_loop among
missing_loop_lem r zero i cap j h = ground arith
missing_loop_lem r (suc n) i zero j h = absurd (omega arith)
missing_loop_lem r (suc n) i (suc cap) j h =
    let past = missing_loop_lem r n (suc i) (suc cap) j (omega arith) in
    let rest = missing_loop_lem r n (suc i) cap j (omega arith) in
    elim (Bool-cases (i == j)) [
      | inl e ↦ let same : i ≡ j = ground arith in let had = ap (has r) same in ground arith
      | inr e ↦ ground arith
    ]

copied_all : (bits xs : List ℕ) → length bits ≡ length xs → copied bits xs ≡ xs
unfolding copied
copied_all [] [] e = refl
copied_all [] (x ∷ xs) e = absurd (omega arith)
copied_all (b ∷ bits) [] e = absurd (omega arith)
copied_all (b ∷ bits) (x ∷ xs) e = ap (λ ys. x ∷ ys) (copied_all bits xs (omega arith))

count_loop_lem :
    (r : ResumeMap) (n i : ℕ)
    → i + n ≤ r.total_chunks
    → r.total_chunks < 2 ^ 32
    → count_loop r n i (held r.bits i) ≡ held r.bits (i + n)
unfolding count_loop
count_loop_lem r zero i h small = ap (held r.bits) (omega arith)
count_loop_lem r (suc n) i h small =
    let next : (if has r i then u32 (held r.bits i + 1) else held r.bits i) ≡ held r.bits (suc i) =
      unfold held in
      ground (arith, has-bit r i, held-le r.bits i, bit-le (get_or r.bits (i / 8) 0) (i % 8)) in
    ap (count_loop r n (suc i)) next
    ∙ (count_loop_lem r n (suc i) (omega arith) small ∙ ap (held r.bits) (omega arith))

-- Counting the bits again gives the count that a valid map keeps.
abbrev recounted : ResumeMap → ResumeMap
recounted r =
    let none : ℕ = 0 in
    record r {
      received_chunks = count_loop (record r { received_chunks = none }) r.total_chunks none none;
    }

recounted_lem : (r : ResumeMap) → IsValid r → recounted r ≡ r
recounted_lem r v =
    let none : ℕ = 0 in
    let counted =
      count_loop_lem (record r { received_chunks = none }) r.total_chunks 0 (omega arith)
        (omega (arith, v.small)) in
    let same : (recounted r).received_chunks ≡ r.received_chunks =
      unfold held in counted ∙ (ap (held r.bits) (omega arith) ∙ sym v.counted) in
    ap (λ n. record r { received_chunks = n }) same

-- A valid map of a file that is not empty, written down and read again, is the same map.
deserialize-serialize :
    (r : ResumeMap) (cap : ℕ)
    → IsValid r
    → 0 < r.total_chunks
    → (r.total_chunks + 7) / 8 ≤ cap
    → (serialize r cap ≡ ok r.bits) × (deserialize r.bits r.total_chunks ≡ ok r)
unfolding serialize deserialize init bytes_for
deserialize-serialize r cap v some_chunks room =
    let size : bytes_for r.total_chunks ≡ length r.bits = omega (arith, v.small, v.room) in
    let whole = take_all (bytes_for r.total_chunks) r.bits (omega arith) in
    let blank : List ℕ = (init r.total_chunks).bits in
    let none : ℕ = 0 in
    let filled : copied blank (take (bytes_for r.total_chunks) r.bits) ≡ r.bits =
      ap (copied blank) whole
      ∙ copied_all blank r.bits (
          length-replicate (if bytes_for r.total_chunks == 0 then 1 else bytes_for r.total_chunks)
            none
          ∙ ground arith) in
    let read : deserialize r.bits r.total_chunks
        ≡ ok (
            recounted (record r { bits = copied blank (take (bytes_for r.total_chunks) r.bits) })) =
      ground arith in
    (
      ground arith,
      read
          ∙ (ap (λ bs. ok (recounted (record r { bits = bs }))) filled ∙ ap ok (recounted_lem r v)),
    )

-- Of a file of 1 to 2 ^ 32 - 8 chunks a receiver was told of some, in any order, with repetitions
-- and with indices past the end. The map that it has then is written whole into any buffer that is
-- large enough and is read back as the same map; and the chunks that `sl_resume_map_missing` names,
-- with room for all of them, are just those of the file that it was not told of, with no word of
-- more.
pub resume_lem :
    (total cap : ℕ) (is : List ℕ) (j : ℕ)
    → 0 < total
    → total + 7 < 2 ^ 32
    → (total + 7) / 8 ≤ cap
    → (serialize (run receive (init total) is) cap ≡ ok (run receive (init total) is).bits)
      × (deserialize (run receive (init total) is).bits total ≡ ok (run receive (init total) is))
      × (among j (missing (run receive (init total) is) total).0
          ≡ (ltb j total && not (among j is)))
      × ((missing (run receive (init total) is) total).1 ≡ false)
unfolding missing
resume_lem total cap is j some_chunks small room =
    let r : ResumeMap = run receive (init total) is in
    let v = (run-IsValid is (init total) (init-IsValid total small)).0 in
    let same : r.total_chunks ≡ total = total_run total is small in
    let stored = deserialize-serialize r cap v (omega arith) (omega arith) in
    (
      stored.0,
      ap (deserialize r.bits) (sym same) ∙ stored.1,
      (let lacking = (missing_loop_lem r r.total_chunks 0 total j (omega arith)).0 in
          let had = (received_lem total is j small).0 in ground arith),
      (missing_loop_lem r r.total_chunks 0 total 0 (omega arith)).1,
    )
