-- ===== src/Buffer/Fifo.antt =====
-- A first-in first-out queue of at most `cap` bytes: what src/sl_ring.c promises its callers.
use securelink.Common.{ℕ, ◌-◌, min, List, [], ◌∷◌, ◌++◌, length, take, drop}

-- What a caller does, and what it gets back: a count of bytes, or the bytes.
pub data Op : Type 0 where
  push : List ℕ → Op
  pop : ℕ → Op
  peek : ℕ → Op
  discard : ℕ → Op
  reset : Op

pub data Reply : Type 0 where
  count : ℕ → Reply
  bytes : List ℕ → Reply
  done : Reply

-- One operation on the bytes `q`, oldest first.
unfoldable pub step : ℕ → List ℕ → Op → Reply × List ℕ
step cap q (push xs) = (count (min (length xs) (cap - length q)), q ++ take (cap - length q) xs)
step cap q (pop n) = (bytes (take n q), drop n q)
step cap q (peek n) = (bytes (take n q), q)
step cap q (discard n) = (count (min n (length q)), drop n q)
step cap q reset = (done, [])

unfoldable pub run : ℕ → List ℕ → List Op → List Reply
run cap q [] = []
run cap q (op ∷ ops) = let (reply, q') = step cap q op in reply ∷ run cap q' ops
