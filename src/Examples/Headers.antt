-- ===== src/Examples/Headers.antt =====
-- Tags and lengths of libs/codec/ber/tlv.hpp.
use asn1pp.Prelude.{◌≡◌, true, [], ◌∷◌, ◌++◌, arith}
use asn1pp.Result.{ok, returns}
use asn1pp.Buffer.{BufferView, view, Moved, emitted}
use asn1pp.Traits.{Tag, make_context_specific}
use asn1pp.Tlv.{encode_tag, decode_tag}
use asn1pp.Tlv.Identifier.{identifier_octets, encode_tag-Emits}
use asn1pp.Tlv.TagReading.{decode_tag-octets}
use asn1pp.Tlv.Safety.{decode_tag-Reads}

-- A tag whose number takes two groups, and a view of five cells.
abbrev long_tag : Tag
long_tag = make_context_specific 300 true

abbrev five : BufferView
five = view (9 ∷ []) (0 ∷ 0 ∷ 0 ∷ 0 ∷ 0 ∷ [])

-- A long tag that the view cuts off.
abbrev cut : BufferView
cut = view [] (0xbf ∷ 0x82 ∷ [])

encode_tag-Emits_example : encode_tag long_tag five ≡ emitted (identifier_octets long_tag) five
encode_tag-Emits_example = encode_tag-Emits long_tag (omega arith) five

decode_tag-octets_example :
    decode_tag (view [] (identifier_octets long_tag ++ 7 ∷ []))
    ≡ returns (ok long_tag) (view (identifier_octets long_tag) (7 ∷ []))
decode_tag-octets_example = decode_tag-octets long_tag [] (7 ∷ []) (omega arith)

decode_tag-Reads_example : Moved cut (decode_tag cut)
decode_tag-Reads_example = decode_tag-Reads cut
