-- ===== src/Ber/Decoder/Elements.antt =====
-- libs/codec/ber/ber_decoder.cpp on the octets of single types.
use asn1pp.Prelude.{
  ℕ, suc, ◌+◌, ◌^◌, ◌≤◌, ◌<◌, ◌≡◌, refl, Bool, true, false, not, List, [], ◌∷◌, ◌++◌, if◌then◌else◌,
  arith, ◌==◌, leb-true, ltb-false, eqb-false, length, length-append, take-append, drop-append,
}
use asn1pp.Result.{ok, returns}
use asn1pp.Buffer.{view}
use asn1pp.Traits.{Tag, TagClass, UniversalTag, make_universal}
use asn1pp.Tlv.Identifier.{identifier_octets}
use asn1pp.Tlv.Length.{length_octets, decode_length-octets}
use asn1pp.Tlv.TagReading.{decode_tag-octets}
use asn1pp.Tlv.Whole.{tlv_octets}
use asn1pp.Int64.{IsInt64}
use asn1pp.Ber.Integer.{encode_integer_bytes}
use asn1pp.Ber.Integer.RoundTrip.{decode-encode_integer_bytes}
use asn1pp.Ber.Integer.Size.{length-encode_integer_bytes}
use asn1pp.Ber.Decoder.{
  decode_enumerated, decode_boolean, decode_bit_string, peek_tag, decode_sequence_header,
}
use asn1pp.Ber.Decoder.RoundTrip.{
  behind_tlv, header_first, expect-octets, behind, take_integer-octets,
}

-- The octets that `encode_boolean` writes are read back.
pub decode_boolean-octets :
    (x : Bool) (b rest : List ℕ)
    → decode_boolean (
        view b (
          tlv_octets (make_universal UniversalTag.boolean false) ((if x then 0xff else 0) ∷ [])
          ++ rest))
      ≡ returns (ok x) (
          behind_tlv
            (make_universal UniversalTag.boolean false)
            ((if x then 0xff else 0) ∷ [])
            b
            rest)
unfolding decode_boolean
decode_boolean-octets x b rest =
    rw
      (
        expect-octets t value b rest (omega arith) (omega arith),
        eqb-false (suc (length rest)) 0 (omega arith),
        leb-true 1 (suc (length rest)) (omega arith),
        behind t value b rest,
        nonzero x,
      )
      refl
  where
    t : Tag
    t = make_universal UniversalTag.boolean false

    value : List ℕ
    value = (if x then 0xff else 0) ∷ []

    nonzero : (x : Bool) → not ((if x then 0xff else 0) == 0) ≡ x
    nonzero true = refl
    nonzero false = refl

-- An ENUMERATED is read back.
pub decode_enumerated-octets :
    (v : ℕ) (b rest : List ℕ)
    → IsInt64 v
    → decode_enumerated (
        view b (
          tlv_octets (make_universal UniversalTag.enumerated false) (encode_integer_bytes v)
          ++ rest))
      ≡ returns (ok v) (
          behind_tlv (make_universal UniversalTag.enumerated false) (encode_integer_bytes v) b rest)
unfolding decode_enumerated
decode_enumerated-octets v b rest w =
    let (lo, hi) = length-encode_integer_bytes v w in
    rw
      (
        take_integer-octets (make_universal UniversalTag.enumerated false) (encode_integer_bytes v)
            b rest (omega arith) lo hi,
        decode-encode_integer_bytes v w,
      )
      refl

-- The contents of a BIT STRING are the count of unused bits and the octets.
pub decode_bit_string-octets :
    (octets : List ℕ) (unused_bits : ℕ) (b rest : List ℕ)
    → unused_bits ≤ 7
    → 1 + length octets < 2 ^ 64
    → decode_bit_string (
        view b (
          tlv_octets (make_universal UniversalTag.bit_string false) (unused_bits ∷ octets) ++ rest))
      ≡ returns
          (ok (octets, unused_bits))
          (behind_tlv (make_universal UniversalTag.bit_string false) (unused_bits ∷ octets) b rest)
unfolding decode_bit_string
decode_bit_string-octets octets unused_bits b rest u l =
    rw
      (
        expect-octets t value b rest (omega arith) (omega arith),
        ltb-false (suc (length (octets ++ rest))) (suc (length octets))
            (omega (arith, length-append octets rest)),
        ltb-false (suc (length octets)) 1 (omega arith),
        ltb-false 7 unused_bits u,
        leb-true (suc (length octets)) (suc (length (octets ++ rest)))
            (omega (arith, length-append octets rest)),
        take-append octets rest,
        leb-true (suc (length octets)) (suc (length (octets ++ rest)))
            (omega (arith, length-append octets rest)),
        drop-append octets rest,
        behind t value b rest,
      )
      refl
  where
    t : Tag
    t = make_universal UniversalTag.bit_string false

    value : List ℕ
    value = unused_bits ∷ octets

-- `peek_tag` on a TLV with a tag number below 2 ^ 32 answers its tag and leaves the view where
-- it was.
pub peek_tag-octets :
    (t : Tag) (value b rest : List ℕ)
    → t.number < 2 ^ 32
    → peek_tag (view b (tlv_octets t value ++ rest))
      ≡ returns (ok t) (view b (tlv_octets t value ++ rest))
unfolding peek_tag
peek_tag-octets t value b rest w =
    rw (header_first t value rest) (
      rw (decode_tag-octets t b (length_octets (length value) ++ (value ++ rest)) w, peek_tag) refl)

abbrev pub constructed_tag : TagClass → ℕ → Tag
constructed_tag cls number = record { cls = cls; constructed = true; number = number }

-- The header of a constructed TLV with a tag number below 2 ^ 32 and a length below 2 ^ 64, in
-- front of as many octets at least as it announces: the tag and that count are read back, and
-- the view stands at the contents.
pub decode_sequence_header-octets :
    (cls : TagClass) (number content_length : ℕ) (b rest : List ℕ)
    → number < 2 ^ 32
    → content_length < 2 ^ 64
    → content_length ≤ length rest
    → decode_sequence_header (
        view b (
          identifier_octets (constructed_tag cls number) ++ (length_octets content_length ++ rest)))
      ≡ returns (ok (constructed_tag cls number, content_length)) (
          view
            (b ++ identifier_octets (constructed_tag cls number) ++ length_octets content_length)
            rest)
unfolding decode_sequence_header
decode_sequence_header-octets cls number n b rest w l h =
    rw
      (
        decode_tag-octets (constructed_tag cls number) b (length_octets n ++ rest) w,
        decode_length-octets n (b ++ identifier_octets (constructed_tag cls number)) rest l,
        ltb-false (length rest) n h,
      )
      refl
