-- ===== src/Buffer/Circular.antt =====
-- The two-part copies into and out of a circular buffer, which src/sl_ring.c and
-- src/sl_send_queue.c share.
pub mod Span
use securelink.Memory.{write_at}
use securelink.Common.{ℕ, ◌+◌, ◌-◌, List, [], ◌++◌, ltb, if◌then◌else◌, length, take, drop}

-- `first`: the bytes up to the end of the buffer.
abbrev pub first_part : ℕ → ℕ → ℕ → ℕ
first_part cap pos n = if ltb (cap - pos) n then cap - pos else n

-- The copy in at `pos`.
unfoldable pub copy_in : List ℕ → ℕ → ℕ → List ℕ → List ℕ
copy_in buf cap pos bytes =
    let n = length bytes in
    let first = first_part cap pos n in
    let buf' = write_at buf pos (take first bytes) in
    if ltb first n then write_at buf' 0 (drop first bytes) else buf'

-- The copy out of `n` bytes from `pos` on.
unfoldable pub copy_out : List ℕ → ℕ → ℕ → ℕ → List ℕ
copy_out buf cap pos n =
    let first = first_part cap pos n in
    take first (drop pos buf) ++ (if ltb first n then take (n - first) buf else [])

-- The `n` bytes from `pos` on, going round at the end of the buffer.
unfoldable pub span : List ℕ → ℕ → ℕ → List ℕ
span buf pos n = take n (drop pos buf ++ take pos buf)
