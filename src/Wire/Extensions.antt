-- ===== src/Wire/Extensions.antt =====
-- src/sl_extensions.c: the list of typed bodies at the end of a hello.
pub mod Codec
use securelink.Common.{
  ℕ, zero, suc, ◌+◌, ◌&&◌, Option, none, some, List, [], ◌∷◌, ◌++◌, ltb, leb, ◌==◌, if◌then◌else◌,
  length, Outcome, ok, fault, ◌>>=◌, ◌>>◌, reject_if,
}
use securelink.Bytes.{u16, bytes_at, pack_u16, unpack_u16}

abbrev pub max_count : ℕ
max_count = 16

abbrev pub max_body : ℕ
max_body = 512

-- `len` and the bytes of `body` that count
pub record Extension : Type 0 where
  pub kind : ℕ
  pub body : List ℕ

-- `sl_extensions_init`; a list is the first `count` of the items.
abbrev pub no_extensions : List Extension
no_extensions = []

-- `sl_extensions_add`
unfoldable pub ext_add : List Extension → ℕ → List ℕ → Outcome (List Extension)
ext_add es kind body = do
  reject_if (leb max_count (length es))
  reject_if (ltb max_body (length body))
  ok (es ++ (record { kind = u16 kind; body = body } ∷ []))

-- `sl_extensions_find`
unfoldable pub ext_find : List Extension → ℕ → Option Extension
ext_find [] kind = none
ext_find (e ∷ es) kind = let rest = ext_find es kind in if e.kind == u16 kind then some e else rest

-- The first loop of `sl_extensions_encode`
unfoldable pub inner_len : List Extension → ℕ → Outcome ℕ
inner_len [] inner = ok inner
inner_len (e ∷ es) inner = do
  let inner' = inner + (4 + length e.body)
  reject_if (ltb 0xffff inner')
  inner_len es inner'

-- The second: the bytes of the items
unfoldable pub items : List Extension → List ℕ
items [] = []
items (e ∷ es) = pack_u16 e.kind ++ (pack_u16 (length e.body) ++ (e.body ++ items es))

-- `sl_extensions_encode`: the bytes written at `out`.
unfoldable pub ext_encode : List Extension → ℕ → Outcome (List ℕ)
ext_encode es out_cap = do
  reject_if (ltb out_cap 2)
  inner ← inner_len es 0
  reject_if (ltb out_cap (2 + inner))
  ok (pack_u16 inner ++ items es)

-- The list with one more item, where it fits; else the item is skipped.
unfoldable pub keep_item : List Extension → ℕ → List ℕ → List Extension
keep_item es kind body =
    if leb (length body) max_body && ltb (length es) max_count
    then es ++ (record { kind = kind; body = body } ∷ [])
    else es

-- The loop of `sl_extensions_decode`. It goes at least four bytes on in each round, so a fuel of
-- `end - off` is never used up; were it, the result would be `fault`.
unfoldable pub decode_items : ℕ → List ℕ → ℕ → ℕ → List Extension → Outcome (List Extension)
decode_items zero input end off es = if ltb end (off + 4) then ok es else fault
decode_items (suc fuel) input end off es = if ltb end (off + 4) then ok es else do
  kind ← unpack_u16 input off
  len ← unpack_u16 input (off + 2)
  reject_if (ltb end (off + 4 + len))
  body ← bytes_at input (off + 4) len
  decode_items fuel input end (off + 4 + len) (keep_item es kind body)

-- `sl_extensions_decode`
unfoldable pub ext_decode : List ℕ → Outcome (List Extension)
ext_decode input = do
  reject_if (ltb (length input) 2)
  inner ← unpack_u16 input 0
  reject_if (ltb (length input) (inner + 2))
  decode_items inner input (2 + inner) 2 no_extensions
