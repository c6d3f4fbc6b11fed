-- ===== src/Ber/Embedded.antt =====
-- libs/codec/ber/ber_decoder.cpp in a build with ASN1PP_EMBEDDED: the strings go into arrays of
-- ASN1PP_MAX_PDU octets, of which the ones that are filled are modelled.
pub mod Laws
use asn1pp.Prelude.{ℕ, zero, ◌-◌, Bool, false, not, List, [], ◌∷◌, drop, ltb}
use asn1pp.ErrorCode.{ErrorCode}
use asn1pp.Result.{Op, pure, ensure, ◌>>=◌, ◌>>◌}
use asn1pp.Buffer.{BufferView, size, peek, skip, copy_out}
use asn1pp.Traits.{Tag, UniversalTag, make_universal}
use asn1pp.Ber.Decoder.{expect}

module _ (max_pdu : ℕ) where
  -- `octet_string_result`: `length` octets of `data`. All three ways of copying do the same.
  unfoldable pub take_octets_embedded : Tag → Op BufferView (List ℕ)
  take_octets_embedded t = do
    val_len ← expect t
    n ← size
    ensure (not (ltb n val_len)) ErrorCode.buffer_underflow
    ensure (not (ltb max_pdu val_len)) ErrorCode.value_out_of_range
    octets ← copy_out val_len
    skip val_len
    pure octets

  unfoldable pub decode_octet_string_embedded : Op BufferView (List ℕ)
  decode_octet_string_embedded =
      take_octets_embedded (make_universal UniversalTag.octet_string false)

  unfoldable pub decode_oid_embedded : Op BufferView (List ℕ)
  decode_oid_embedded = take_octets_embedded (make_universal UniversalTag.object_identifier false)

  -- `bit_string_result`
  unfoldable pub decode_bit_string_embedded : Op BufferView (List ℕ × ℕ)
  decode_bit_string_embedded = do
    val_len ← expect (make_universal UniversalTag.bit_string false)
    n ← size
    ensure (not (ltb n val_len)) ErrorCode.buffer_underflow
    ensure (not (ltb val_len 1)) ErrorCode.invalid_length
    unused_bits ← peek 0
    ensure (not (ltb 7 unused_bits)) ErrorCode.invalid_length
    ensure (not (ltb max_pdu (val_len - 1))) ErrorCode.value_out_of_range
    contents ← copy_out val_len
    skip val_len
    pure (drop 1 contents, unused_bits)
