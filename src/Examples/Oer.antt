-- ===== src/Examples/Oer.antt =====
-- Runs of libs/codec/oer.
use asn1pp.Int64.{InRange}
use asn1pp.Prelude.{
  ℕ, ◌-◌, ◌^◌, ◌≡◌, refl, true, false, List, [], ◌∷◌, some, inl, inr, arith, replicate,
}
use asn1pp.ErrorCode.{ErrorCode}
use asn1pp.Result.{err, returns}
use asn1pp.Buffer.{view, Moved, Carried, emitted}
use asn1pp.Arch.{SimdLevel}
use asn1pp.Batch.{BatchBuffer}
use asn1pp.Ber.Integer.{encode_integer_bytes, raw_octets, strip_sign, needs_extra}
use asn1pp.Ber.Session.{session}
use asn1pp.Ber.Encoder.{PendingInteger, batch_size, filled_slot}
use asn1pp.Ber.Encoder.Pending.{Ready}
use asn1pp.Oer.Meta.{OerMeta, range_byte_width, integer_byte_width}
use asn1pp.Oer.Encoder as OerEncoder
use asn1pp.Oer.Sequence.{encode_sequence_start}
use asn1pp.Oer.Decoder as OerDecoder
use asn1pp.Oer.Writing.{determinant_octets}
use asn1pp.Oer.Strings.{Allowed, octet_string_octets, counted_octets}
use asn1pp.Oer.BitStrings.{bit_string_octets}
use asn1pp.Oer.Integers.{InWidth, range_byte_width-InWidth}
use asn1pp.Oer.Refused.{encode_integer-unsigned_top}
use asn1pp.Oer.Packing.{packed_octet}
use asn1pp.Oer.Preamble.{encode_sequence_start-Emits}
use asn1pp.Oer.Safety.{decode_integer-Reads}
use asn1pp.Oer.Coer.{validate_octet_string, validate_octet_string-middle}
use asn1pp.Oer.Transport.{
  octet_string-Carried, bit_string-Carried, unconstrained_integer-Carried, ranged_integer-Delivered,
  Delivered,
}

-- INTEGER (-5..300), OCTET STRING (SIZE(1..10)), 300 names, 3 optional components.
abbrev bounded : OerMeta
bounded = record {
  has_range_constraint = true;
  min_value = 2 ^ 64 - 5;
  max_value = 300;
  has_size_constraint = true;
  min_size = 1;
  max_size = 10;
  root_count = 300;
  alternative_count = 300;
  has_extension = true;
  optional_count = 3;
}

-- INTEGER (0..255)
abbrev unsigned_byte : OerMeta
unsigned_byte = record bounded { min_value = 0; max_value = 255 }

-- No constraint.
abbrev plain : OerMeta
plain = record bounded { has_range_constraint = false; has_size_constraint = false }

abbrev zeros : List ℕ
zeros = replicate 12 0

abbrev blank : PendingInteger
blank = filled_slot 0 []

abbrev idle : BatchBuffer PendingInteger
idle = record { items = replicate 4 blank; count = 0 }

idle-Ready : Ready SimdLevel.scalar idle
unfolding batch_size
idle-Ready = record { below = omega arith; capacity = refl; sound = tt }

minus_three : InRange (2 ^ 64 - 5) 300 (2 ^ 64 - 3)
minus_three = record { above = refl; below = refl; int64 = omega arith }

two_octets-Allowed : Allowed bounded 2
two_octets-Allowed = record {
  lower = λ _. omega arith;
  upper = λ _. omega arith;
  counted = λ _. omega arith;
}

octet_string-Carried_example :
    Carried
      (OerEncoder.encode_octet_string bounded (7 ∷ 8 ∷ []))
      (OerDecoder.decode_octet_string bounded)
      (7 ∷ 8 ∷ [])
      []
      zeros
unfolding octet_string_octets
octet_string-Carried_example =
    octet_string-Carried bounded (7 ∷ 8 ∷ []) two_octets-Allowed (omega arith) [] zeros
      (omega arith)

bit_string-Carried_example :
    Carried
      (OerEncoder.encode_bit_string bounded (7 ∷ 8 ∷ []) 3)
      (OerDecoder.decode_bit_string bounded)
      (7 ∷ 8 ∷ [], 3)
      []
      zeros
unfolding bit_string_octets
bit_string-Carried_example =
    bit_string-Carried bounded (7 ∷ 8 ∷ []) 3 two_octets-Allowed
      (record { single = λ _ e. absurd (omega arith); short = λ _ _. omega arith }) (omega arith) []
      zeros (omega arith)

unconstrained_integer-Carried_example :
    Carried
      (OerEncoder.encode_unconstrained_integer 300)
      OerDecoder.decode_unconstrained_integer
      300
      []
      zeros
unfolding determinant_octets encode_integer_bytes raw_octets strip_sign needs_extra
unconstrained_integer-Carried_example =
    unconstrained_integer-Carried 300 (omega arith) [] zeros (omega arith)

ranged_integer-Delivered_example : Delivered SimdLevel.scalar bounded idle (2 ^ 64 - 3) [] zeros
unfolding integer_byte_width range_byte_width
ranged_integer-Delivered_example =
    ranged_integer-Delivered SimdLevel.scalar bounded idle (2 ^ 64 - 3) [] zeros refl minus_three
      (inr (inr (omega arith))) idle-Ready (omega arith)

range_byte_width-InWidth_example : InWidth (range_byte_width (2 ^ 64 - 5) 300) (2 ^ 64 - 3)
range_byte_width-InWidth_example =
    range_byte_width-InWidth (2 ^ 64 - 5) 300 (2 ^ 64 - 3) refl minus_three

encode_integer-unsigned_top_example :
    (q' : BatchBuffer PendingInteger) × (OerEncoder.encode_integer SimdLevel.scalar unsigned_byte
        200
        (session idle (view [] zeros))
      ≡ returns (err ErrorCode.buffer_overflow) (session q' (view [] zeros)))
unfolding integer_byte_width range_byte_width
encode_integer-unsigned_top_example =
    encode_integer-unsigned_top unsigned_byte blank (replicate 3 blank) (view [] zeros) 200 refl
      (record { above = refl; below = refl; int64 = omega arith }) (inl refl) (omega arith)
      (omega arith) (omega arith)

encode_sequence_start-Emits_example :
    encode_sequence_start bounded (some (true ∷ false ∷ true ∷ [])) (view [] zeros)
    ≡ emitted (0x50 ∷ []) (view [] zeros)
unfolding packed_octet
encode_sequence_start-Emits_example =
    encode_sequence_start-Emits bounded (some (true ∷ false ∷ true ∷ [])) (omega arith)
      (view [] zeros)

decode_integer-Reads_example :
    Moved (view [] zeros) (OerDecoder.decode_integer plain (view [] zeros))
decode_integer-Reads_example = decode_integer-Reads plain (view [] zeros)

validate_octet_string-middle_example :
    validate_octet_string plain (view [] (counted_octets (replicate 200 1)))
    ≡ returns (err ErrorCode.constraint_violation) (view [] (counted_octets (replicate 200 1)))
validate_octet_string-middle_example =
    validate_octet_string-middle plain (replicate 200 1) [] refl (omega arith) (omega arith)
