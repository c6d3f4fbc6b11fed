-- ===== src/Ber/Transport.antt =====
-- libs/codec/ber: a value that ber_encoder.cpp writes into a buffer, read back by ber_decoder.cpp
-- from the place where the encoder started.
use asn1pp.Prelude.{
  ℕ, ◌≤◌, ◌<◌, ◌+◌, ◌^◌, ◌≡◌, Bool, false, List, [], ◌∷◌, ◌++◌, if◌then◌else◌, arith, length,
}
use asn1pp.Result.{ok, returns, Op}
use asn1pp.Buffer.{BufferView, view, Emits, Puts-Emits, Carried, Puts-Carried}
use asn1pp.Traits.{Tag, UniversalTag, make_universal}
use asn1pp.Tlv.Whole.{tlv_octets, encode_tlv-Emits}
use asn1pp.Int64.{IsInt64}
use asn1pp.Ber.Integer.{encode_integer_bytes}
use asn1pp.Ber.Encoder.{
  encode_boolean, encode_octet_string, encode_bit_string, encode_enumerated, encode_oid, encode_tlv,
}
use asn1pp.Ber.Encoder.Writing.{
  encode_boolean-Emits, encode_octet_string-Emits, encode_bit_string-Emits, encode_enumerated-Emits,
  encode_oid-Emits,
}
use asn1pp.Ber.Decoder.{
  decode_boolean, decode_octet_string, decode_bit_string, decode_enumerated, decode_oid, decode_tlv,
}
use asn1pp.Ber.Decoder.RoundTrip.{take_octets-octets, decode_tlv-octets}
use asn1pp.Ber.Decoder.Elements.{
  decode_boolean-octets, decode_bit_string-octets, decode_enumerated-octets,
}

carried {ℓ} :
    {A : Type ℓ} (bs : List ℕ) (m : Op BufferView (Unit {0})) (d : Op BufferView A) (a : A)
    → Emits m bs
    → ((b rest : List ℕ) → d (view b (bs ++ rest)) ≡ returns (ok a) (view (b ++ bs) rest))
    → (b c : List ℕ) → length bs ≤ length c
    → Carried m d a b c
carried bs m d a e r = Puts-Carried bs m d a (Puts-Emits m bs e) r

-- A TLV with a tag number below 2 ^ 32 and contents shorter than 2 ^ 64, through a buffer that
-- is large enough: `decode_tlv` answers the tag and the contents that `encode_tlv` was given,
-- and stops where `encode_tlv` stopped.
pub decode_tlv-encode_tlv :
    (t : Tag) (value : List ℕ)
    → t.number < 2 ^ 32
    → length value < 2 ^ 64
    → (b c : List ℕ) → length (tlv_octets t value) ≤ length c
    → Carried (encode_tlv t value) decode_tlv (t, value) b c
unfolding encode_tlv
decode_tlv-encode_tlv t value w l =
    carried (tlv_octets t value) (encode_tlv t value) decode_tlv (t, value)
      (encode_tlv-Emits t value w l) (λ b rest. decode_tlv-octets t value b rest w l)

-- A BOOLEAN through a buffer that is large enough is read back.
pub decode_boolean-encode_boolean :
    (x : Bool)
    → (b c : List ℕ)
    → length (tlv_octets (make_universal UniversalTag.boolean false) ((if x then 0xff else 0) ∷ []))
      ≤ length c
    → Carried (encode_boolean x) decode_boolean x b c
decode_boolean-encode_boolean x =
    carried _ (encode_boolean x) decode_boolean x (encode_boolean-Emits x) (decode_boolean-octets x)

-- An OCTET STRING shorter than 2 ^ 64 through a buffer that is large enough is read back,
-- short, long or empty.
pub decode_octet_string-encode_octet_string :
    (octets : List ℕ)
    → length octets < 2 ^ 64
    → (b c : List ℕ)
    → length (tlv_octets (make_universal UniversalTag.octet_string false) octets) ≤ length c
    → Carried (encode_octet_string octets) decode_octet_string octets b c
unfolding decode_octet_string
decode_octet_string-encode_octet_string octets l =
    carried _ (encode_octet_string octets) decode_octet_string octets
      (encode_octet_string-Emits octets l)
      (λ b rest.
        take_octets-octets (make_universal UniversalTag.octet_string false) octets b rest
          (omega arith) l)

-- The octets of an OBJECT IDENTIFIER, fewer than 2 ^ 64, through a buffer that is large enough
-- are read back.
pub decode_oid-encode_oid :
    (encoded_oid : List ℕ)
    → length encoded_oid < 2 ^ 64
    → (b c : List ℕ)
    → length (tlv_octets (make_universal UniversalTag.object_identifier false) encoded_oid)
      ≤ length c
    → Carried (encode_oid encoded_oid) decode_oid encoded_oid b c
unfolding decode_oid
decode_oid-encode_oid encoded_oid l =
    carried _ (encode_oid encoded_oid) decode_oid encoded_oid (encode_oid-Emits encoded_oid l)
      (λ b rest.
        take_octets-octets (make_universal UniversalTag.object_identifier false) encoded_oid b rest
          (omega arith) l)

-- A BIT STRING of octets whose count is below 2 ^ 64 - 1, with at most 7 unused bits, through a
-- buffer that is large enough: the octets and the count of unused bits are read back.
pub decode_bit_string-encode_bit_string :
    (octets : List ℕ) (unused_bits : ℕ)
    → unused_bits ≤ 7
    → 1 + length octets < 2 ^ 64
    → (b c : List ℕ)
    → length (tlv_octets (make_universal UniversalTag.bit_string false) (unused_bits ∷ octets))
      ≤ length c
    → Carried (encode_bit_string octets unused_bits) decode_bit_string (octets, unused_bits) b c
decode_bit_string-encode_bit_string octets unused_bits u l =
    carried _ (encode_bit_string octets unused_bits) decode_bit_string (octets, unused_bits)
      (encode_bit_string-Emits octets unused_bits l)
      (λ b rest. decode_bit_string-octets octets unused_bits b rest u l)

-- An ENUMERATED with any `int64_t` value through a buffer that is large enough is read back.
pub decode_enumerated-encode_enumerated :
    (v : ℕ)
    → IsInt64 v
    → (b c : List ℕ)
    → length (tlv_octets (make_universal UniversalTag.enumerated false) (encode_integer_bytes v))
      ≤ length c
    → Carried (encode_enumerated v) decode_enumerated v b c
decode_enumerated-encode_enumerated v w =
    carried _ (encode_enumerated v) decode_enumerated v (encode_enumerated-Emits v w)
      (λ b rest. decode_enumerated-octets v b rest w)
