-- ===== src/Ber/Decoder/RoundTrip.antt =====
-- libs/codec/ber/ber_decoder.cpp on the octets that X.690 lays down for a value.
use asn1pp.Prelude.{
  ℕ, ◌^◌, ◌≤◌, ◌<◌, ◌≡◌, refl, ap, Bool, true, false, List, ◌++◌, arith, leb-true, ltb-false,
  eqb-true, eqb-false, length, length-append, append_assoc, take-append, drop-append,
}
use asn1pp.Result.{ok, returns, ◌>>=◌, ◌>>◌, pure}
use asn1pp.Buffer.{BufferView, view, skip, copy_out}
use asn1pp.Traits.{Tag, UniversalTag, make_universal, tag_eq, class_code}
use asn1pp.Tlv.Identifier.{identifier_octets}
use asn1pp.Tlv.Length.{length_octets, decode_length-octets}
use asn1pp.Tlv.TagReading.{decode_tag-octets}
use asn1pp.Tlv.Whole.{tlv_octets}
use asn1pp.Ber.Decoder.{expect, take_integer, take_octets, decode_tlv}

-- The view behind the header of a TLV at the front of `rest`, and the one behind all of it.
abbrev pub behind_header : Tag → List ℕ → List ℕ → List ℕ → BufferView
behind_header t value b rest =
    view (b ++ identifier_octets t ++ length_octets (length value)) (value ++ rest)

abbrev pub behind_tlv : Tag → List ℕ → List ℕ → List ℕ → BufferView
behind_tlv t value b rest = view (b ++ tlv_octets t value) rest

pub tag_eq_refl : (t : Tag) → tag_eq t t ≡ true
tag_eq_refl t =
    rw (eqb-true (class_code t.cls) (class_code t.cls) refl, eqb-true t.number t.number refl)
      (same t.constructed)
  where
    same :
        (b : Bool)
        → tag_eq (make_universal UniversalTag.null b) (make_universal UniversalTag.null b) ≡ true
    same true = refl
    same false = refl

-- `tlv_octets`, split as the decoder reads it.
pub header_first :
    (t : Tag) (value rest : List ℕ)
    → tlv_octets t value ++ rest
      ≡ identifier_octets t ++ (length_octets (length value) ++ (value ++ rest))
header_first t value rest = simp append_assoc

-- `expect` reads the header of a TLV with the tag that it wants.
pub expect-octets :
    (t : Tag) (value b rest : List ℕ)
    → t.number < 2 ^ 32
    → length value < 2 ^ 64
    → expect t (view b (tlv_octets t value ++ rest))
      ≡ returns (ok (length value)) (behind_header t value b rest)
unfolding expect
expect-octets t value b rest w l =
    rw
      (
        header_first t value rest,
        decode_tag-octets t b (length_octets (length value) ++ (value ++ rest)) w,
        tag_eq_refl t,
      )
      (decode_length-octets (length value) (b ++ identifier_octets t) (value ++ rest) l)

pub behind :
    (t : Tag) (value b rest : List ℕ)
    → view (b ++ identifier_octets t ++ length_octets (length value) ++ value) rest
      ≡ behind_tlv t value b rest
behind t value b rest = ap (λ (l : List ℕ). view l rest) (simp append_assoc)

-- The contents, copied and passed over.
pub taken :
    (t : Tag) (value b rest : List ℕ)
    → (copy_out (length value) >>= λ bytes. skip (length value) >> pure bytes)
        (behind_header t value b rest)
      ≡ returns (ok value) (behind_tlv t value b rest)
taken t value b rest =
    rw
      (
        leb-true (length value) (length (value ++ rest)) (omega (arith, length-append value rest)),
        take-append value rest,
        leb-true (length value) (length (value ++ rest)) (omega (arith, length-append value rest)),
        drop-append value rest,
        behind t value b rest,
      )
      refl

pub take_octets-octets :
    (t : Tag) (value b rest : List ℕ)
    → t.number < 2 ^ 32
    → length value < 2 ^ 64
    → take_octets t (view b (tlv_octets t value ++ rest))
      ≡ returns (ok value) (behind_tlv t value b rest)
unfolding take_octets
take_octets-octets t value b rest w l =
    rw
      (
        expect-octets t value b rest w l,
        ltb-false (length (value ++ rest)) (length value) (omega (arith, length-append value rest)),
      )
      (taken t value b rest)

pub take_integer-octets :
    (t : Tag) (value b rest : List ℕ)
    → t.number < 2 ^ 32
    → 1 ≤ length value
    → length value ≤ 8
    → take_integer t (view b (tlv_octets t value ++ rest))
      ≡ returns (ok value) (behind_tlv t value b rest)
unfolding take_integer
take_integer-octets t value b rest w lo hi =
    rw
      (
        expect-octets t value b rest w (omega arith),
        eqb-false (length value) 0 (omega arith),
        ltb-false (length (value ++ rest)) (length value) (omega (arith, length-append value rest)),
        ltb-false 8 (length value) hi,
      )
      (taken t value b rest)

-- `decode_tlv` on a TLV with a tag number below 2 ^ 32 and contents shorter than 2 ^ 64, whatever
-- follows it: its tag and its contents, and the view behind it.
pub decode_tlv-octets :
    (t : Tag) (value b rest : List ℕ)
    → t.number < 2 ^ 32
    → length value < 2 ^ 64
    → decode_tlv (view b (tlv_octets t value ++ rest))
      ≡ returns (ok (t, value)) (behind_tlv t value b rest)
unfolding decode_tlv
decode_tlv-octets t value b rest w l =
    rw
      (
        header_first t value rest,
        decode_tag-octets t b (length_octets (length value) ++ (value ++ rest)) w,
        decode_length-octets (length value) (b ++ identifier_octets t) (value ++ rest) l,
        ltb-false (length (value ++ rest)) (length value) (omega (arith, length-append value rest)),
        leb-true (length value) (length (value ++ rest)) (omega (arith, length-append value rest)),
        take-append value rest,
        leb-true (length value) (length (value ++ rest)) (omega (arith, length-append value rest)),
        drop-append value rest,
        behind t value b rest,
      )
      refl
