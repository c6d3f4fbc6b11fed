-- ===== src/Examples/Elements.antt =====
-- Whole elements of libs/codec/ber.
use asn1pp.Prelude.{ℕ, ◌≡◌, true, false, List, [], ◌∷◌, ◌++◌, arith, replicate}
use asn1pp.Result.{returns, ◌>>=◌, pure}
use asn1pp.Buffer.{BufferView, view, Moved, Carried}
use asn1pp.Traits.{Tag, UniversalTag, make_universal, make_context_specific}
use asn1pp.Tlv.Identifier.{identifier_octets, group_count, groups}
use asn1pp.Tlv.Length.{length_octets, octet_count}
use asn1pp.Tlv.Whole.{tlv_octets}
use asn1pp.Ber.Encoder.{encode_octet_string, encode_bit_string, encode_tlv}
use asn1pp.Ber.Decoder.{decode_bit_string, decode_tlv, skip_tlv}
use asn1pp.Ber.Decoder.Safety.{decode_tlv-Reads, skip_tlv-decode_tlv}
use asn1pp.Ber.Encoder.Writing.{encode_octet_string-Emits}
use asn1pp.Ber.Tagged.{encode_explicit_tagged, inner_buf}
use asn1pp.Ber.Tagged.Laws.{encode_explicit_tagged-Emits}
use asn1pp.Ber.Embedded.{take_octets_embedded}
use asn1pp.Ber.Embedded.Laws.{take_octets_embedded-octets}
use asn1pp.Ber.Decoder.RoundTrip.{behind_header}
use asn1pp.Buffer.{emitted}
use asn1pp.ErrorCode.{ErrorCode}
use asn1pp.Result.{err}
use asn1pp.Ber.Transport.{decode_tlv-encode_tlv, decode_bit_string-encode_bit_string}

abbrev outer : Tag
outer = make_context_specific 300 true

abbrev zeros : List ℕ
zeros = replicate 12 0

-- An element that announces more than there is.
abbrev cut : BufferView
cut = view [] (0x04 ∷ 0x05 ∷ 1 ∷ [])

decode_tlv-encode_tlv_example :
    Carried (encode_tlv outer (1 ∷ 2 ∷ [])) decode_tlv (outer, 1 ∷ 2 ∷ []) [] zeros
unfolding identifier_octets length_octets group_count groups octet_count
decode_tlv-encode_tlv_example =
    decode_tlv-encode_tlv outer (1 ∷ 2 ∷ []) (omega arith) (omega arith) [] zeros (omega arith)

decode_bit_string-encode_bit_string_example :
    Carried (encode_bit_string (0xa0 ∷ []) 5) decode_bit_string (0xa0 ∷ [], 5) [] zeros
unfolding identifier_octets length_octets
decode_bit_string-encode_bit_string_example =
    decode_bit_string-encode_bit_string (0xa0 ∷ []) 5 (omega arith) (omega arith) [] zeros
      (omega arith)

decode_tlv-Reads_example : Moved cut (decode_tlv cut)
decode_tlv-Reads_example = decode_tlv-Reads cut

skip_tlv-decode_tlv_example : skip_tlv cut ≡ (decode_tlv >>= λ _. pure tt) cut
skip_tlv-decode_tlv_example = skip_tlv-decode_tlv cut

-- The contents of an inner element.
abbrev inner_octets : List ℕ
inner_octets = 1 ∷ 2 ∷ 3 ∷ []

encode_explicit_tagged-Emits_example :
    encode_explicit_tagged outer (encode_octet_string inner_octets) (view [] zeros)
    ≡ emitted
        (tlv_octets outer
          (tlv_octets (make_universal UniversalTag.octet_string false) inner_octets))
        (view [] zeros)
unfolding identifier_octets length_octets inner_buf
encode_explicit_tagged-Emits_example =
    encode_explicit_tagged-Emits outer (encode_octet_string inner_octets)
      (tlv_octets (make_universal UniversalTag.octet_string false) inner_octets) (omega arith)
      (encode_octet_string-Emits inner_octets (omega arith)) (omega arith) (omega arith)
      (view [] zeros)

take_octets_embedded-octets_example :
    take_octets_embedded 2
      (make_universal UniversalTag.octet_string false)
      (view [] (tlv_octets (make_universal UniversalTag.octet_string false) inner_octets ++ 7 ∷ []))
    ≡ returns
        (err ErrorCode.value_out_of_range)
        (behind_header (make_universal UniversalTag.octet_string false) inner_octets [] (7 ∷ []))
take_octets_embedded-octets_example =
    take_octets_embedded-octets 2 (make_universal UniversalTag.octet_string false) inner_octets []
      (7 ∷ []) (omega arith) (omega arith)
