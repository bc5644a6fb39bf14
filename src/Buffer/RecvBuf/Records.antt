-- ===== src/Buffer/RecvBuf/Records.antt =====
-- Records in the stream of src/sl_recv_buf.c.
use securelink.Bytes.{u8}
use securelink.Crypto.Nonce.{nonce_build}
use securelink.Common.{
  ℕ, ◌+◌, ◌≤◌, ◌≡◌, ap, ◌∙◌, some, List, ◌++◌, append_assoc, arith, length, length-append,
  take-append, drop-append, ok,
}
use securelink.Crypto.Aead.{tag_len, Aead, Laws}
use securelink.Wire.Record.{header_len, header, seal, unseal}
use securelink.Wire.Record.Sealed.{length-header, peek_len-header, seal_inverse, record_unseal-seal}
use securelink.Buffer.RecvBuf.{RecvBuf, take_record, IsValid, contents, deframe, view}
use securelink.Buffer.RecvBuf.Stream.{take_record_refines}

module _ (aead : Aead) (laws : Laws aead) (key static_iv : List ℕ) (seq : ℕ) where
  length-seal :
      (kind : ℕ) (pt : List ℕ) (out_cap : ℕ) (wire : List ℕ)
      → seal aead key static_iv seq kind pt out_cap ≡ ok wire
      → length wire ≡ header_len + length pt + tag_len
  length-seal kind pt out_cap wire e =
      let (ct, tag, small, sealed, shape) =
        seal_inverse aead laws key static_iv seq kind pt out_cap wire e in
      let hdr = header kind (length pt) in
      let nonce = nonce_build static_iv seq in
      omega (
        arith,
        ap length shape,
        length-header kind (length pt),
        laws.length-ct key nonce hdr pt ct tag sealed,
        laws.length-tag key nonce hdr pt ct tag sealed,
        length-append hdr (ct ++ tag),
        length-append ct tag,
      )

  deframe-seal :
      (kind : ℕ) (pt : List ℕ) (out_cap cap : ℕ) (wire rest : List ℕ)
      → seal aead key static_iv seq kind pt out_cap ≡ ok wire
      → length wire ≤ cap
      → deframe (wire ++ rest) cap ≡ ok (some wire, rest)
  unfolding deframe
  deframe-seal kind pt out_cap cap wire rest e room =
      let (ct, tag, small, sealed, shape) =
        seal_inverse aead laws key static_iv seq kind pt out_cap wire e in
      let hdr = header kind (length pt) in
      let size = length-seal kind pt out_cap wire e in
      ground (
        arith,
        size,
        peek_len-header kind (length pt) ((ct ++ tag) ++ rest) small,
        append_assoc hdr (ct ++ tag) rest,
        ap (λ (w : List ℕ). w ++ rest) shape,
        length-append wire rest,
        take-append wire rest,
        drop-append wire rest,
      )

  -- Where a record that `sl_record_seal` wrote stands at the front of the received bytes, the next
  -- `sl_recv_buf_take` with room for it returns just this record and leaves what is behind it; and
  -- `sl_record_open` gets the type and the plaintext of it.
  pub take_record-seal :
      (kind : ℕ) (pt : List ℕ) (out_cap cap : ℕ) (wire rest : List ℕ) (rb : RecvBuf)
      → IsValid rb
      → seal aead key static_iv seq kind pt out_cap ≡ ok wire
      → contents rb ≡ wire ++ rest
      → length wire ≤ cap
      → (view (take_record rb cap) ≡ ok (some wire, rest))
        × (unseal aead key static_iv seq wire (length pt) ≡ ok (u8 kind, pt))
  take_record-seal kind pt out_cap cap wire rest rb v e front room = (
    take_record_refines rb cap v
        ∙ ap (λ (s : List ℕ). deframe s cap) front
        ∙ deframe-seal kind pt out_cap cap wire rest e room,
    record_unseal-seal aead laws key static_iv seq kind pt out_cap (length pt) wire (omega arith) e,
  )
