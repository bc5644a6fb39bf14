-- ===== src/Guard/Table.antt =====
-- The hash tables of src/sl_lockout.c and src/sl_dos_guard.c, which are written out twice there. A key
-- is a C string, the list of its bytes.
pub mod Find
pub mod Total
use securelink.Common.{
  ℕ, ◌*◌, ◌%◌, bit_xor, Bool, true, false, ◌&&◌, Option, none, some, List, [], ◌∷◌, ◌==◌,
  if◌then◌else◌, get_or, set, replicate,
}
use securelink.Bytes.{u32}

abbrev pub Key : Type 0
Key = List ℕ

abbrev pub bucket_count : ℕ
bucket_count = 1024

-- `strcmp(a, b) == 0`
unfoldable pub same_key : Key → Key → Bool
same_key [] [] = true
same_key [] (d ∷ t) = false
same_key (c ∷ s) [] = false
same_key (c ∷ s) (d ∷ t) = (c == d) && same_key s t

-- The loop of `fnv1a`
unfoldable pub fnv1a_from : ℕ → Key → ℕ
fnv1a_from h [] = h
fnv1a_from h (c ∷ s) = fnv1a_from (u32 (bit_xor h c * 16777619)) s

unfoldable pub fnv1a : Key → ℕ
fnv1a s = fnv1a_from 2166136261 s

unfoldable pub bucket : Key → ℕ
bucket key = fnv1a key % bucket_count

-- A chain of entries, the newest first, with what an entry keeps for its key.
abbrev pub Chain : Type 0 → Type 0
Chain V = List (Key × V)

abbrev pub Table : Type 0 → Type 0
Table V = List (Chain V)

module _ {V : Type 0} where
  -- The loop of `find_or_create`
  unfoldable pub chain_find : Chain V → Key → Option V
  chain_find [] key = none
  chain_find ((k, v) ∷ es) key =
      let rest = chain_find es key in if same_key k key then some v else rest

  -- A write through the entry that the loop finds
  unfoldable pub chain_put : Chain V → Key → V → Chain V
  chain_put [] key w = []
  chain_put ((k, v) ∷ es) key w =
      let rest = chain_put es key w in if same_key k key then (k, w) ∷ es else (k, v) ∷ rest

  unfoldable pub find : Table V → Key → Option V
  find t key = chain_find (get_or t (bucket key) []) key

  unfoldable pub put : Table V → Key → V → Table V
  put t key w = set t (bucket key) (chain_put (get_or t (bucket key) []) key w)

  unfoldable pub insert : Table V → Key → V → Table V
  insert t key w = set t (bucket key) ((key, w) ∷ get_or t (bucket key) [])

-- `calloc` clears the buckets.
unfoldable pub empty : (V : Type 0) → Table V
empty V = replicate bucket_count []
