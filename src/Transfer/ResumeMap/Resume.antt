-- ===== src/Transfer/ResumeMap/Resume.antt =====
-- A transfer that is broken off and taken up again.
use securelink.Common.{
  ltb, ◌&&◌, Bool-cases, inl, inr, ℕ, zero, suc, ◌+◌, ◌/◌, ◌^◌, ◌<◌, ◌≡◌, Bool, true, false, List,
  [], ◌∷◌, ◌==◌, if◌then◌else◌, length-replicate, get_or, replicate, All, arith, sym, ◌∙◌, refl,
  ◌||◌,
}
use securelink.Common.Tables.{all_below, all_below_lem, all_below_intro}
use securelink.Common.Sequences.{run}
use securelink.Bytes.{IsByte}
use securelink.Transfer.ResumeMap.{ResumeMap, bytes_for, init, has, complete}
use securelink.Transfer.ResumeMap.Bitmap.{bit_at}
use securelink.Transfer.ResumeMap.Received.{
  held, IsValid, complete_iff, receive, receive-IsValid, has-receive, total-receive,
}

-- Whether a chunk is among those received.
unfoldable pub among : ℕ → List ℕ → Bool
among j [] = false
among j (i ∷ is) = (i == j) || among j is

abbrev zeros : ℕ → List ℕ
zeros n = replicate n 0

zeros-IsByte : (n : ℕ) → All IsByte (zeros n)
zeros-IsByte zero = tt
zeros-IsByte (suc n) = (omega arith, zeros-IsByte n)

get_or-zeros : (n i : ℕ) → get_or (zeros n) i 0 ≡ zero
get_or-zeros zero i = refl
get_or-zeros (suc n) zero = refl
get_or-zeros (suc n) (suc i) = get_or-zeros n i

clear_bit : (n j : ℕ) → bit_at (zeros n) j ≡ zero
clear_bit n j = ground (arith, get_or-zeros n (j / 8))

held-zeros : (n k : ℕ) → held (zeros n) k ≡ zero
unfolding held
held-zeros n zero = refl
held-zeros n (suc k) = omega (arith, held-zeros n k, clear_bit n k)

pub init-IsValid : (total : ℕ) → total + 7 < 2 ^ 32 → IsValid (init total)
unfolding init bytes_for
init-IsValid total h =
    let n : ℕ = if bytes_for total == 0 then 1 else bytes_for total in
    let none : ℕ = 0 in
    record {
      are_bytes = zeros-IsByte n;
      room = rw (length-replicate n none) (ground arith);
      counted = sym (held-zeros n total);
      small = h;
    }

has-run :
    (is : List ℕ) (r : ResumeMap) (j : ℕ)
    → IsValid r
    → j < r.total_chunks
    → has (run receive r is) j ≡ (has r j || among j is)
unfolding among
has-run [] r j v l = ground arith
has-run (i ∷ is) r j v l =
    let same = total-receive r i v in
    let rest = has-run is (receive r i) j (receive-IsValid r i v) (omega arith) in
    ground (arith, has-receive r i j v l)

pub run-IsValid :
    (is : List ℕ) (r : ResumeMap)
    → IsValid r
    → IsValid (run receive r is) × ((run receive r is).total_chunks ≡ r.total_chunks)
run-IsValid [] r v = (v, refl)
run-IsValid (i ∷ is) r v =
    let rest = run-IsValid is (receive r i) (receive-IsValid r i v) in
    (rest.0, rest.1 ∙ total-receive r i v)

pub total_run :
    (total : ℕ) (is : List ℕ)
    → total + 7 < 2 ^ 32
    → (run receive (init total) is).total_chunks ≡ total
total_run total is h =
    (run-IsValid is (init total) (init-IsValid total h)).1 ∙ (unfold init in refl)

has-init : (total j : ℕ) → has (init total) j ≡ false
unfolding init has
has-init total j = ground (arith, clear_bit (if bytes_for total == 0 then 1 else bytes_for total) j)

-- For a file of fewer than 2 ^ 32 - 7 chunks, a new map that is told of chunks, in any order, with
-- repetitions and with indices past the end, has just those chunks of the file that it was told
-- of, and says that it is complete just when these are all of them.
pub received_lem :
    (total : ℕ) (is : List ℕ) (j : ℕ)
    → total + 7 < 2 ^ 32
    → (has (run receive (init total) is) j ≡ (ltb j total && among j is))
      × (complete (run receive (init total) is) ≡ all_below total (λ i. among i is))
received_lem total is j h =
    let m : ResumeMap = run receive (init total) is in
    let v = (run-IsValid is (init total) (init-IsValid total h)).0 in
    let same : m.total_chunks ≡ total = total_run total is h in
    let all = complete_iff m v in
    let every = all_below_lem total (λ i. among i is) in
    let made = all_below_intro total (λ i. among i is) in
    let sound : complete m ≡ true → all_below total (λ i. among i is) ≡ true =
      λ c. made (λ i l. sym (received i l) ∙ all.0 c i (omega arith)) in
    let whole : all_below total (λ i. among i is) ≡ true → complete m ≡ true =
      λ b. all.1 (λ i l. received i (omega arith) ∙ every i b (omega arith)) in
    (outside j, ground arith)
  where
    received : (j : ℕ) → j < total → has (run receive (init total) is) j ≡ among j is
    received j l = ground (
      arith,
      has-run is (init total) j (init-IsValid total h) (unfold init in l),
      has-init total j,
    )

    outside : (j : ℕ) → has (run receive (init total) is) j ≡ (ltb j total && among j is)
    outside j = elim (Bool-cases (ltb j total)) [
      | inl e ↦ ground (arith, received j (ground arith))
      | inr e ↦ let same = total_run total is h in unfold has in ground arith
    ]
