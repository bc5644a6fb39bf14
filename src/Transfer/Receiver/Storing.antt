-- ===== src/Transfer/Receiver/Storing.antt =====
-- What is written to the file, and stays there.
use securelink.Common.{
  ℕ, zero, suc, ◌+◌, ◌-◌, ◌≤◌, ◌<◌, ◌≡◌, refl, List, [], ◌∷◌, ◌++◌, ltb, if◌then◌else◌, length,
  length-append, length-replicate, get_or, replicate, arith,
}
use securelink.Memory.{length-write_at, get_or-write_at}
use securelink.Transfer.Receiver.{pwrite}

get_or-zeros : (xs : List ℕ) (n i : ℕ) → get_or (xs ++ replicate n 0) i 0 ≡ get_or xs i 0
get_or-zeros [] zero i = refl
get_or-zeros [] (suc n) zero = refl
get_or-zeros [] (suc n) (suc i) = get_or-zeros [] n i
get_or-zeros (x ∷ xs) n zero = refl
get_or-zeros (x ∷ xs) n (suc i) = get_or-zeros xs n i

-- The file as far as the write goes.
grown :
    (file : List ℕ) (m : ℕ)
    → (m ≤ length (file ++ replicate (m - length file) 0))
      × (length file ≤ length (file ++ replicate (m - length file) 0))
grown file m =
    let none : ℕ = 0 in
    let total = length-append file (replicate (m - length file) none) in
    let more = length-replicate (m - length file) none in (omega arith, omega arith)

pub length-pwrite :
    (file : List ℕ) (off : ℕ) (bytes : List ℕ) → length file ≤ length (pwrite file off bytes)
unfolding pwrite
length-pwrite file off bytes =
    let none : ℕ = 0 in
    let room = (grown file (off + length bytes)).1 in
    let same =
      length-write_at (file ++ replicate (off + length bytes - length file) none) off bytes in
    ground arith

pub length-pwrite_ge :
    (file : List ℕ) (off : ℕ) (bytes : List ℕ)
    → 0 < length bytes
    → off + length bytes ≤ length (pwrite file off bytes)
unfolding pwrite
length-pwrite_ge file off bytes h =
    let none : ℕ = 0 in
    let room = (grown file (off + length bytes)).0 in
    let same =
      length-write_at (file ++ replicate (off + length bytes - length file) none) off bytes in
    ground arith

-- A write changes the bytes that it is about and no others.
pub get_or-pwrite :
    (file : List ℕ) (off : ℕ) (bytes : List ℕ) (i : ℕ)
    → get_or (pwrite file off bytes) i 0 ≡ (
        if ltb i off
        then get_or file i 0
        else if ltb i (off + length bytes)
        then get_or bytes (i - off) 0
        else get_or file i 0)
unfolding pwrite
get_or-pwrite file off bytes i =
    let none : ℕ = 0 in
    let m : ℕ = off + length bytes - length file in
    let room = (grown file (off + length bytes)).0 in
    let old = get_or-zeros file m i in
    let written = get_or-write_at (file ++ replicate m none) off bytes i room in ground arith
