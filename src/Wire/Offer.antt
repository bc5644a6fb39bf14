-- ===== src/Wire/Offer.antt =====
-- src/sl_version.c and src/sl_cipher.c: the lists of versions and of cipher suites that a peer
-- offers, which the two files treat alike, and the choice from two of them.
pub mod Codec
pub mod Choice
use securelink.Common.{
  ℕ, zero, suc, ◌+◌, ◌*◌, Bool, false, ◌&&◌, ◌||◌, List, [], ◌∷◌, ◌++◌, ltb, leb, ◌==◌,
  if◌then◌else◌, length, Outcome, ok, fail, fault, ◌>>=◌, ◌>>◌, reject_if,
}
use securelink.Bytes.{u8, byte_at, pack_u16, unpack_u16}

-- `versions` has 8 elements; `SL_CIPHER_LIST_MAX`. A list is the first `count` of them.
abbrev pub list_max : ℕ
list_max = 8

-- `sl_version_list_has`
unfoldable pub list_has : List ℕ → ℕ → Bool
list_has [] v = false
list_has (x ∷ xs) v = (x == v) || list_has xs v

-- `sl_version_list_add`
unfoldable pub list_add : List ℕ → ℕ → Outcome (List ℕ)
list_add l v =
    if leb list_max (length l) then fail else if list_has l v then ok l else ok (l ++ (v ∷ []))

-- The bytes behind the count
unfoldable pub pairs : List ℕ → List ℕ
pairs [] = []
pairs (v ∷ vs) = pack_u16 v ++ pairs vs

-- `sl_version_list_encode`: the bytes written at `out`.
unfoldable pub list_encode : List ℕ → ℕ → Outcome (List ℕ)
list_encode l out_cap = do
  let need = 1 + length l * 2
  reject_if (ltb out_cap need)
  ok (u8 (length l) ∷ pairs l)

-- The list after `sl_version_list_add`, which leaves it as it is where it returns -1
unfoldable pub kept : List ℕ → Outcome (List ℕ) → List ℕ
kept l (ok l') = l'
kept l fail = l
kept l fault = l

-- The loop of `sl_version_list_decode` from `i` on, for `k` more; what `sl_version_list_add` returns
-- is not looked at.
unfoldable pub decode_loop : List ℕ → ℕ → ℕ → List ℕ → Outcome (List ℕ)
decode_loop input zero i l = ok l
decode_loop input (suc k) i l = do
  v ← unpack_u16 input (1 + 2 * i)
  decode_loop input k (suc i) (kept l (list_add l v))

-- `sl_version_list_decode`
unfoldable pub list_decode : List ℕ → Outcome (List ℕ)
list_decode input = do
  reject_if (ltb (length input) 1)
  count ← byte_at input 0
  reject_if (ltb list_max count)
  reject_if (ltb (length input) (1 + count * 2))
  decode_loop input count 0 []

-- The loop of `sl_version_choose`
unfoldable pub choose_loop : ℕ → List ℕ → List ℕ → ℕ
choose_loop best [] b = best
choose_loop best (v ∷ vs) b = choose_loop (if list_has b v && ltb best v then v else best) vs b

-- `sl_version_choose`
unfoldable pub version_choose : List ℕ → List ℕ → ℕ
version_choose a b = choose_loop 0 a b

abbrev pub aes256_gcm_sha256 : ℕ
aes256_gcm_sha256 = 1

-- `sl_cipher_is_supported`
unfoldable pub is_supported : ℕ → Bool
is_supported suite = suite == aes256_gcm_sha256

-- `sl_cipher_list_has`
unfoldable pub cipher_list_has : List ℕ → ℕ → Bool
cipher_list_has l suite = list_has l suite

-- `sl_cipher_list_add`
unfoldable pub cipher_list_add : List ℕ → ℕ → Outcome (List ℕ)
cipher_list_add l suite = list_add l suite

-- `sl_cipher_list_encode`
unfoldable pub cipher_list_encode : List ℕ → ℕ → Outcome (List ℕ)
cipher_list_encode l out_cap = list_encode l out_cap

-- `sl_cipher_list_decode`
unfoldable pub cipher_list_decode : List ℕ → Outcome (List ℕ)
cipher_list_decode input = list_decode input

-- `sl_cipher_choose`
unfoldable pub cipher_choose : List ℕ → List ℕ → ℕ
cipher_choose [] offered = 0
cipher_choose (s ∷ pref) offered =
    let rest = cipher_choose pref offered in
    if cipher_list_has offered s && is_supported s then s else rest
