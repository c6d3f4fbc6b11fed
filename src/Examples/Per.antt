-- ===== src/Examples/Per.antt =====
-- Runs of libs/codec/per/uper_encoder.hpp and uper_decoder.hpp, and of libs/buffer/bit_ops.hpp.
use asn1pp.Prelude.{ℕ, ◌-◌, ◌^◌, ◌≡◌, ◌≤◌, refl, true, false, List, [], ◌∷◌, arith, replicate}
use asn1pp.Int64.{InRange}
use asn1pp.Result.{fault}
use asn1pp.BitOps.Defs.{stream, write_bits, read_bits}
use asn1pp.BitOps.Numbers.{number_bits}
use asn1pp.BitOps.Transfer.{BitCarried, number-BitCarried}
use asn1pp.BitOps.Bounds.{write_bits-outside}
use asn1pp.Per.Meta.{count_bytes, PerMeta, count_bits, bits_needed_unsigned, bits_needed_for_range}
use asn1pp.Per.Counts.{BitLength, bits_needed_unsigned-BitLength}
use asn1pp.Per.Encoder as PerEncoder
use asn1pp.Per.Decoder as PerDecoder
use asn1pp.Per.Lengths.{determinant_bits}
use asn1pp.Per.Strings.{PerAllowed, octet_string_bits}
use asn1pp.Per.Indexes.{index_bits, preamble_bits}
use asn1pp.Per.Whole.{whole_bits}
use asn1pp.Per.Negative.{encode_integer-negative_octet}
use asn1pp.Per.Reading.{BitMoved}
use asn1pp.Per.Safety.{decode_constrained_whole_number-BitMoved}
use asn1pp.Per.StringSafety.{SmallSizes, decode_octet_string-BitMoved, decode_bit_string-BitMoved}
use asn1pp.Per.BitStrings.{bit_string_bits, PerBits, bit_string-BitCarried}
use asn1pp.Arch.{SimdLevel}
use asn1pp.Batch.{BatchBuffer}
use asn1pp.Ber.Decoder.{PendingInteger, batch_size, filled_slot}
use asn1pp.Ber.Decoder.Pending.{Ready}
use asn1pp.Per.Encoder.{value_size}
use asn1pp.Per.Integers.{IntegerCarried, integer-IntegerCarried}
use asn1pp.Per.Transport.{
  whole_number-BitCarried, octet_string-BitCarried, length_determinant-BitCarried,
  enumerated-BitCarried, sequence_start-BitCarried,
}

-- INTEGER (-5..300), OCTET STRING (SIZE(1..10)), 300 names and alternatives.
abbrev bounded : PerMeta
bounded = record {
  has_range_constraint = true;
  min_value = 2 ^ 64 - 5;
  max_value = 300;
  has_size_constraint = true;
  min_size = 1;
  max_size = 10;
  normal_index_count = 300;
  alternative_count = 300;
  has_extension = true;
}

-- No constraint.
abbrev plain : PerMeta
plain = record bounded { has_range_constraint = false; has_size_constraint = false }

abbrev zeros : List ℕ
zeros = replicate 12 0

minus_three : InRange (2 ^ 64 - 5) 300 (2 ^ 64 - 3)
minus_three = record { above = refl; below = refl; int64 = omega arith }

two_octets : PerAllowed bounded 2
unfolding bits_needed_unsigned count_bits
two_octets = record {
  fixed = λ e. absurd (cc);
  bounded = λ _. omega arith;
  width = omega arith;
  counted = omega arith;
}

number-BitCarried_example :
    BitCarried (write_bits 700 10) (read_bits 10) (number_bits 10 700) 700 zeros 5
number-BitCarried_example =
    number-BitCarried 700 10 zeros 5 (omega arith) (omega arith) (omega arith) (omega arith)

write_bits-outside_example : write_bits 5 3 (stream zeros 94) ≡ fault
write_bits-outside_example =
    write_bits-outside 3 5 zeros 94 (omega arith) (omega arith) (omega arith)

bits_needed_unsigned-BitLength_example :
    BitLength 305 (bits_needed_unsigned 305) × (bits_needed_unsigned 305 ≤ 64)
bits_needed_unsigned-BitLength_example = bits_needed_unsigned-BitLength 305 (omega arith)

whole_number-BitCarried_example :
    BitCarried
      (PerEncoder.encode_constrained_whole_number (2 ^ 64 - 3) (2 ^ 64 - 5) 300)
      (PerDecoder.decode_constrained_whole_number (2 ^ 64 - 5) 300)
      (whole_bits (2 ^ 64 - 5) 300 (2 ^ 64 - 3))
      (2 ^ 64 - 3)
      zeros
      3
unfolding whole_bits bits_needed_for_range bits_needed_unsigned count_bits
whole_number-BitCarried_example =
    whole_number-BitCarried (2 ^ 64 - 5) 300 (2 ^ 64 - 3) zeros 3 (omega arith) (omega arith)
      (omega arith) minus_three (omega arith) (omega arith)

octet_string-BitCarried_example :
    BitCarried
      (PerEncoder.encode_octet_string bounded (7 ∷ 8 ∷ []))
      (PerDecoder.decode_octet_string bounded)
      (octet_string_bits bounded (7 ∷ 8 ∷ []))
      (7 ∷ 8 ∷ [])
      zeros
      1
unfolding octet_string_bits bits_needed_unsigned count_bits
octet_string-BitCarried_example =
    octet_string-BitCarried bounded (7 ∷ 8 ∷ []) zeros 1 two_octets (omega arith) (omega arith)
      (omega arith)

length_determinant-BitCarried_example :
    BitCarried
      (PerEncoder.encode_length_determinant 300)
      PerDecoder.decode_length_determinant
      (determinant_bits 300)
      300
      zeros
      2
unfolding determinant_bits
length_determinant-BitCarried_example =
    length_determinant-BitCarried 300 zeros 2 (omega arith) (omega arith) (omega arith)

enumerated-BitCarried_example :
    BitCarried
      (PerEncoder.encode_enumerated bounded 299)
      (PerDecoder.decode_enumerated bounded)
      (index_bits 300 299)
      299
      zeros
      6
unfolding bits_needed_unsigned count_bits
enumerated-BitCarried_example =
    enumerated-BitCarried bounded 299 zeros 6 (omega arith) (omega arith) (omega arith)
      (omega arith)

sequence_start-BitCarried_example :
    BitCarried
      (PerEncoder.encode_sequence_start bounded (true ∷ false ∷ true ∷ []))
      (PerDecoder.decode_sequence_start bounded 3)
      (preamble_bits bounded (true ∷ false ∷ true ∷ []))
      (false, true ∷ false ∷ true ∷ [])
      zeros
      4
sequence_start-BitCarried_example =
    sequence_start-BitCarried bounded (true ∷ false ∷ true ∷ []) zeros 4 (omega arith) (omega arith)

encode_integer-negative_octet_example :
    PerEncoder.encode_integer plain (2 ^ 64 - 200) ≡ PerEncoder.encode_integer plain 56
encode_integer-negative_octet_example =
    encode_integer-negative_octet plain 200 refl (omega arith) (omega arith)

decode_constrained_whole_number-BitMoved_example :
    BitMoved zeros 92 (PerDecoder.decode_constrained_whole_number 0 300 (stream zeros 92))
decode_constrained_whole_number-BitMoved_example =
    decode_constrained_whole_number-BitMoved 0 300 zeros 92 (omega arith)

bounded-SmallSizes : SmallSizes bounded
bounded-SmallSizes = record { fixed = λ e. absurd (cc); bounded = λ _. omega arith }

decode_octet_string-BitMoved_example :
    BitMoved zeros 90 (PerDecoder.decode_octet_string bounded (stream zeros 90))
decode_octet_string-BitMoved_example =
    decode_octet_string-BitMoved bounded zeros 90 bounded-SmallSizes (omega arith) (omega arith)

decode_bit_string-BitMoved_example :
    BitMoved zeros 90 (PerDecoder.decode_bit_string bounded (stream zeros 90))
decode_bit_string-BitMoved_example =
    decode_bit_string-BitMoved bounded zeros 90 bounded-SmallSizes (omega arith) (omega arith)

-- 13 bits without a size constraint.
thirteen_bits : PerBits plain (7 ∷ 8 ∷ []) 3
thirteen_bits = record {
  allowed = record {
    fixed = λ e. absurd (cc);
    bounded = λ e. absurd (cc);
    width = (bits_needed_unsigned-BitLength 9 (omega arith)).1;
    counted = omega arith;
  };
  last = omega arith;
  inside = omega arith;
  short = omega arith;
}

bit_string-BitCarried_example :
    BitCarried
      (PerEncoder.encode_bit_string plain (7 ∷ 8 ∷ []) 3)
      (PerDecoder.decode_bit_string plain)
      (bit_string_bits plain (7 ∷ 8 ∷ []) 3)
      (7 ∷ 8 ∷ [], 3)
      zeros
      7
unfolding bit_string_bits determinant_bits
bit_string-BitCarried_example =
    bit_string-BitCarried plain (7 ∷ 8 ∷ []) 3 zeros 7 thirteen_bits (omega arith) (omega arith)
      (omega arith)

abbrev idle : BatchBuffer PendingInteger
idle = record { items = replicate 4 (filled_slot []); count = 0 }

idle-Ready : Ready SimdLevel.scalar idle
unfolding batch_size
idle-Ready = record { below = omega arith; capacity = refl; sound = tt }

integer-IntegerCarried_example : IntegerCarried SimdLevel.scalar plain idle 200 zeros 5
unfolding value_size count_bytes determinant_bits
integer-IntegerCarried_example =
    integer-IntegerCarried SimdLevel.scalar plain idle 200 zeros 5 refl (omega arith) idle-Ready
      (omega arith) (omega arith)
