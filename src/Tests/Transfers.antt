-- ===== src/Tests/Transfers.antt =====
-- Resumed transfers and hexadecimal text at work.
use securelink.Common.{ℕ, ◌≡◌, refl, List, [], ◌∷◌, ◌++◌, ◌&&◌, not, ltb, ok, false, arith}
use securelink.Common.Sequences.{run}
use securelink.Common.Tables.{all_below}
use securelink.Common.Text.{codes}
use securelink.Ident.Varint.{encode_u64, decode_u64, size_u64}
use securelink.Ident.Varint.Codec.{decode_u64-encode_u64}
use securelink.Common.{length}
use securelink.Ident.Hexstr.{encode}
use securelink.Transfer.ResumeMap.{init, has, complete, serialize, deserialize, missing}
use securelink.Transfer.ResumeMap.Received.{receive}
use securelink.Transfer.ResumeMap.Resume.{among, received_lem}
use securelink.Transfer.ResumeMap.Stored.{resume_lem}

-- Chunks of a file of ten, one of them twice, and one past the end.
abbrev chunks : List ℕ
chunks = 9 ∷ 0 ∷ 3 ∷ 9 ∷ 12 ∷ []

received_lem_example :
    (has (run receive (init 10) chunks) 9 ≡ (ltb 9 10 && among 9 chunks))
    × (complete (run receive (init 10) chunks) ≡ all_below 10 (λ i. among i chunks))
received_lem_example = received_lem 10 chunks 9 (omega arith)

resume_lem_example :
    (serialize (run receive (init 10) chunks) 2 ≡ ok (run receive (init 10) chunks).bits)
    × (deserialize (run receive (init 10) chunks).bits 10 ≡ ok (run receive (init 10) chunks))
    × (among 4 (missing (run receive (init 10) chunks) 10).0 ≡ (ltb 4 10 && not (among 4 chunks)))
    × ((missing (run receive (init 10) chunks) 10).1 ≡ false)
resume_lem_example = resume_lem 10 2 chunks 4 (omega arith) (omega arith) (omega arith)

abbrev two_bytes : List ℕ
two_bytes = 171 ∷ 9 ∷ []

encoded : encode two_bytes 5 ≡ ok (codes "ab09" ++ (0 ∷ []))
unfolding encode
encoded = refl

-- 300 takes two bytes.
size_300 : size_u64 300 ≡ 2
unfolding size_u64
size_300 = refl

decode_u64-encode_u64_example :
    (bytes : List ℕ) × (encode_u64 300 2 ≡ ok bytes)
    × (length bytes ≡ size_u64 300)
    × (decode_u64 (bytes ++ (9 ∷ [])) ≡ ok (300, size_u64 300))
decode_u64-encode_u64_example =
    decode_u64-encode_u64 300 2 (9 ∷ []) (omega arith) (omega (arith, size_300))
