-- ===== src/Wire/RpcMethod.antt =====
-- src/sl_rpc_method.c: the dotted names of remote methods, lists of their bytes.
pub mod Split
use securelink.Common.{
  ℕ, suc, ◌-◌, Bool, false, not, ◌&&◌, ◌||◌, Option, none, some, List, [], ◌∷◌, ltb, leb, ◌==◌,
  if◌then◌else◌, length, get_or, take, drop, Outcome, ok, fail,
}

abbrev pub name_max : ℕ
name_max = 128

abbrev pub dot : ℕ
dot = 46

abbrev pub underscore : ℕ
underscore = 95

-- `isalnum` in the C locale
unfoldable pub is_alnum : ℕ → Bool
is_alnum c = (leb 48 c && leb c 57) || (leb 65 c && leb c 90) || (leb 97 c && leb c 122)

-- The loop of `sl_rpc_method_is_valid`, with the length of the segment so far
unfoldable pub segments_ok : ℕ → List ℕ → Bool
segments_ok n [] = ltb 0 n
segments_ok n (c ∷ cs) =
    let fresh = segments_ok 0 cs in
    let more = segments_ok (suc n) cs in
    if c == dot
    then (if n == 0 then false else fresh)
    else if not (is_alnum c || (c == underscore))
    then false
    else more

-- `sl_rpc_method_is_valid`
unfoldable pub method_is_valid : List ℕ → Bool
method_is_valid method =
    let len = length method in
    if (len == 0) || ltb name_max len
    then false
    else if (get_or method 0 0 == dot) || (get_or method (len - 1) 0 == dot)
    then false
    else segments_ok 0 method

-- The loop of `sl_rpc_method_split` from index `i` on, with the last dot so far
unfoldable pub last_dot : ℕ → List ℕ → Option ℕ → Option ℕ
last_dot i [] found = found
last_dot i (c ∷ cs) found = last_dot (suc i) cs (if c == dot then some i else found)

-- `sl_rpc_method_split`: the namespace and the leaf.
unfoldable pub method_split : List ℕ → Outcome (List ℕ × List ℕ)
method_split method = if not (method_is_valid method) then fail else elim (last_dot 0 method none) [
  | none ↦ ok ([], method)
  | some ns_len ↦
      ok (take ns_len method, take (length method - ns_len - 1) (drop (suc ns_len) method))
]
