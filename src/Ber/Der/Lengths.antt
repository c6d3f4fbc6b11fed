-- ===== src/Ber/Der/Lengths.antt =====
-- libs/codec/ber/der_encoder.cpp on whole TLVs.
use asn1pp.Prelude.{
  ℕ, ◌<◌, ◌^◌, ◌≡◌, refl, sym, ap, ◌∙◌, false, List, [], ◌∷◌, ◌++◌, if◌then◌else◌, ◌==◌, arith,
  length, eqb-true, append-nil, inl, inr, le_or_lt, leb-true, leb-false,
}
use asn1pp.ErrorCode.{ErrorCode}
use asn1pp.Result.{Result, ok, err, returns, ◌>>=◌}
use asn1pp.Buffer.{view}
use asn1pp.Traits.{Tag, UniversalTag, make_universal, class_code}
use asn1pp.Tlv.{decode_tag, decode_length}
use asn1pp.Tlv.Identifier.{identifier_octets}
use asn1pp.Tlv.Length.{length_octets, decode_length-octets}
use asn1pp.Tlv.TagReading.{decode_tag-octets}
use asn1pp.Tlv.Whole.{tlv_octets}
use asn1pp.Int64.{IsInt64}
use asn1pp.Ber.Integer.{encode_integer_bytes}
use asn1pp.Ber.Integer.Size.{length-encode_integer_bytes}
use asn1pp.Ber.Decoder.{decode_tlv}
use asn1pp.Ber.Decoder.RoundTrip.{decode_tlv-octets}
use asn1pp.Ber.Der.{
  check_definite, finish, validate_length_definite, check_contents, check_tlv, validate,
}
use asn1pp.Ber.Der.Minimal.{is_integer_minimal-encode_integer_bytes, validate_integer_der-minimal}

identifier-cons :
    (t : Tag) (xs : List ℕ) → (y : ℕ) × (ys : List ℕ) × (identifier_octets t ++ xs ≡ y ∷ ys)
unfolding identifier_octets
identifier-cons t xs = elim (le_or_lt t.number 30) [
  | inl h ↦ rw (leb-true t.number 30 h) (_, _, refl)
  | inr h ↦ rw (leb-false t.number 30 h) (_, _, refl)
]

-- The check of the length on a list that is not empty.
nonempty :
    (l : List ℕ)
    → (y : ℕ) × (ys : List ℕ) × (l ≡ y ∷ ys)
    → validate_length_definite l
      ≡ finish check_definite ((decode_tag >>= λ _. decode_length) (view [] l))
unfolding validate_length_definite
nonempty l (y, ys, e) = rw e refl

-- `validate_length_definite` on a TLV whose length is in the definite form, with a tag number
-- below 2 ^ 32 and contents shorter than 2 ^ 64: it is refused exactly where the contents are
-- 128 octets, a length that it takes for the sign of the indefinite form.
pub validate_length_definite-octets :
    (t : Tag) (value : List ℕ)
    → t.number < 2 ^ 32
    → length value < 2 ^ 64
    → validate_length_definite (tlv_octets t value)
      ≡ returns (if length value == 0x80 then err ErrorCode.invalid_length else ok tt) tt
unfolding check_definite
validate_length_definite-octets t value w l =
    nonempty (tlv_octets t value) (identifier-cons t (length_octets (length value) ++ value))
    ∙ rw
        (
          decode_tag-octets t [] (length_octets (length value) ++ value) w,
          decode_length-octets (length value) (identifier_octets t) value l,
        )
        refl

-- `validate`, behind its parse of a TLV.
validate-octets :
    (t : Tag) (value : List ℕ)
    → t.number < 2 ^ 32
    → length value < 2 ^ 64
    → class_code t.cls ≡ 0
    → validate (tlv_octets t value) ≡ check_contents (tlv_octets t value) t value
unfolding validate check_tlv
validate-octets t value w l c =
    ap (λ (xs : List ℕ). check_tlv (tlv_octets t value) (decode_tlv (view [] xs)))
      (sym (append-nil (tlv_octets t value)))
    ∙ rw (decode_tlv-octets t value [] [] w l, eqb-true (class_code t.cls) 0 c) refl

-- The TLV of an INTEGER with the octets of `encode_integer_bytes` for any `int64_t` passes
-- `validate`.
pub validate-integer :
    (v : ℕ)
    → IsInt64 v
    → validate (tlv_octets (make_universal UniversalTag.integer false) (encode_integer_bytes v))
      ≡ returns (ok tt) tt
unfolding check_contents
validate-integer v w =
    validate-octets (make_universal UniversalTag.integer false) (encode_integer_bytes v)
      (omega arith) (omega (arith, length-encode_integer_bytes v w)) refl
    ∙ ap (λ (r : Result (Unit {0})). returns r tt)
        (validate_integer_der-minimal (encode_integer_bytes v)
          (is_integer_minimal-encode_integer_bytes v))

-- The TLV of an OCTET STRING shorter than 2 ^ 64, in the definite form, is refused by
-- `validate` exactly where it has 128 octets.
pub validate-octet_string :
    (octets : List ℕ)
    → length octets < 2 ^ 64
    → validate (tlv_octets (make_universal UniversalTag.octet_string false) octets)
      ≡ returns (if length octets == 0x80 then err ErrorCode.invalid_length else ok tt) tt
unfolding check_contents
validate-octet_string octets l =
    validate-octets (make_universal UniversalTag.octet_string false) octets (omega arith) l refl
    ∙ validate_length_definite-octets (make_universal UniversalTag.octet_string false) octets
        (omega arith) l
