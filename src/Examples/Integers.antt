-- ===== src/Examples/Integers.antt =====
-- Integers of libs/codec/ber, their batches, and the checks of DER.
use asn1pp.Prelude.{
  ℕ, ◌-◌, ◌^◌, ◌≡◌, true, false, List, length, [], ◌∷◌, arith, refl, replicate, overwrite,
}
use asn1pp.ErrorCode.{ErrorCode}
use asn1pp.Result.{ok, err, returns}
use asn1pp.Buffer.{BufferView, view}
use asn1pp.Traits.{UniversalTag, make_universal, make_context_specific}
use asn1pp.Tlv
use asn1pp.Tlv.{decode_length}
use asn1pp.Tlv.Identifier.{identifier_octets}
use asn1pp.Tlv.Length.{length_octets, octet_count, decode_length-octets}
use asn1pp.Tlv.Whole.{tlv_octets}
use asn1pp.Arch.{SimdLevel}
use asn1pp.ArchCodec.{check_slot, decode_slot, out_of_octets, load_u64_be}
use asn1pp.Batch.{BatchBuffer}
use asn1pp.Ber.Session.{session, with_buf}
use asn1pp.Ber.Integer.{
  encode_integer_bytes, decode_integer_value, raw_octets, strip_sign, needs_extra,
}
use asn1pp.Ber.Integer.RoundTrip.{decode-encode_integer_bytes}
use asn1pp.Ber.Integer.Slots.{decode_slot-eq}
use asn1pp.Ber.Encoder
use asn1pp.Ber.Encoder.Pending as EncoderPending
use asn1pp.Ber.Encoder.Batched.{encode_integer-Ready}
use asn1pp.Ber.Encoder.Flushed.{held_in, flush_encode-first_failure}
use asn1pp.Ber.Decoder
use asn1pp.Ber.Decoder.Pending as DecoderPending
use asn1pp.Ber.Decoder.Batched.{decode_unbatched, decode_integer-Ready}
use asn1pp.Ber.IntegerTransport.{Delivered, decode_integer-encode_integer}
use asn1pp.Ber.Der.{
  is_integer_minimal, validate_integer_der, validate_length_definite, validate,
  count_sign_leading_octets, validate_bit_string_unused_bits,
}
use asn1pp.Ber.Der.Lengths.{validate-integer, validate_length_definite-octets}

-- Minus 129.
abbrev minus_129 : ℕ
minus_129 = 2 ^ 64 - 129

-- Batches in which 5 is pending.
abbrev encoder_batch : BatchBuffer Encoder.PendingInteger
encoder_batch = record { items = replicate 4 (Encoder.filled_slot 5 (5 ∷ [])); count = 1 }

abbrev decoder_batch : BatchBuffer Decoder.PendingInteger
decoder_batch = record { items = replicate 4 (Decoder.filled_slot (5 ∷ [])); count = 1 }

encoder_batch-Ready : EncoderPending.Ready SimdLevel.sse42 encoder_batch
unfolding Encoder.batch_size check_slot out_of_octets
encoder_batch-Ready = record {
  below = omega arith;
  capacity = refl;
  sound = ((refl, omega arith), tt);
}

decoder_batch-Ready : DecoderPending.Ready SimdLevel.sse42 decoder_batch
unfolding Decoder.batch_size decode_slot load_u64_be
decoder_batch-Ready = record { below = omega arith; capacity = refl; sound = (refl, tt) }

-- An INTEGER of two octets in front of another byte.
abbrev incoming : BufferView
incoming = view [] (2 ∷ 2 ∷ 0xff ∷ 0x7f ∷ 9 ∷ [])

decode_integer-encode_integer_example :
    Delivered SimdLevel.sse42 encoder_batch decoder_batch minus_129 [] (replicate 6 0)
unfolding identifier_octets length_octets encode_integer_bytes raw_octets strip_sign needs_extra
decode_integer-encode_integer_example =
    decode_integer-encode_integer SimdLevel.sse42 encoder_batch decoder_batch minus_129 []
      (replicate 6 0) encoder_batch-Ready decoder_batch-Ready (omega arith) (omega arith)

encode_integer-Ready_example :
    (q' : BatchBuffer Encoder.PendingInteger) × EncoderPending.Ready SimdLevel.sse42 q'
    × (Encoder.encode_integer SimdLevel.sse42 minus_129
          (session encoder_batch (view [] (replicate 6 0)))
        ≡ with_buf q' (
            Tlv.encode_tlv
              (make_universal UniversalTag.integer false)
              (encode_integer_bytes minus_129)
              (view [] (replicate 6 0))))
encode_integer-Ready_example =
    encode_integer-Ready SimdLevel.sse42 encoder_batch (view [] (replicate 6 0)) minus_129
      encoder_batch-Ready (omega arith)

decode_integer-Ready_example :
    (q' : BatchBuffer Decoder.PendingInteger) × DecoderPending.Ready SimdLevel.sse42 q'
    × (Decoder.decode_integer SimdLevel.sse42 (session decoder_batch incoming)
        ≡ with_buf q' (decode_unbatched incoming))
decode_integer-Ready_example =
    decode_integer-Ready SimdLevel.sse42 decoder_batch incoming decoder_batch-Ready
      (omega arith, (omega arith, (omega arith, (omega arith, (omega arith, tt)))))

-- 5 in one octet, and 200 and 7, for which one octet is too few and none.
abbrev three_slots : List Encoder.PendingInteger
three_slots =
    Encoder.filled_slot 5 (5 ∷ [])
    ∷ Encoder.filled_slot 200 (200 ∷ [])
    ∷ Encoder.filled_slot 7 []
    ∷ []

flush_encode-first_failure_example :
    (q' : BatchBuffer Encoder.PendingInteger) × (q'.count ≡ 0)
    × (length q'.items ≡ 3)
    × (Encoder.flush_encode (record { items = three_slots; count = 3 })
        ≡ returns (ok ErrorCode.buffer_overflow) q')
unfolding held_in
flush_encode-first_failure_example =
    flush_encode-first_failure (record { items = three_slots; count = 3 }) (omega arith)
      (
        record { room = omega arith; inside = omega arith; int64 = omega arith },
        (
          record { room = omega arith; inside = omega arith; int64 = omega arith },
          (record { room = omega arith; inside = omega arith; int64 = omega arith }, tt),
        ),
      )

decode-encode_integer_bytes_example :
    decode_integer_value (encode_integer_bytes minus_129) ≡ minus_129
decode-encode_integer_bytes_example = decode-encode_integer_bytes minus_129 (omega arith)

decode_slot-eq_example :
    decode_slot (overwrite (replicate 8 0) 0 (0xff ∷ 0x7f ∷ [])) 2
    ≡ (ErrorCode.ok, decode_integer_value (0xff ∷ 0x7f ∷ []))
decode_slot-eq_example =
    decode_slot-eq (0xff ∷ 0x7f ∷ []) (omega arith, (omega arith, tt)) (omega arith) (omega arith)

validate-integer_example :
    validate
      (tlv_octets (make_universal UniversalTag.integer false) (encode_integer_bytes minus_129))
    ≡ returns (ok tt) tt
validate-integer_example = validate-integer minus_129 (omega arith)

validate_length_definite-octets_example :
    validate_length_definite (tlv_octets (make_context_specific 300 true) (replicate 128 7))
    ≡ returns (err ErrorCode.invalid_length) tt
validate_length_definite-octets_example =
    validate_length_definite-octets (make_context_specific 300 true) (replicate 128 7) (omega arith)
      (omega arith)

-- Contents that are not minimal, and pass: the sign octet in front of an octet with the sign bit.
refused_as_minimal : is_integer_minimal (0xff ∷ 0x80 ∷ []) ≡ false
unfolding is_integer_minimal
refused_as_minimal = refl

accepted_by_validate : validate_integer_der (0xff ∷ 0x80 ∷ []) ≡ ok tt
unfolding validate_integer_der count_sign_leading_octets
accepted_by_validate = refl

-- The value that 0x81 0x80 announces, and the sentinel for the indefinite form.
definite_128 :
    decode_length (view [] (0x81 ∷ 0x80 ∷ [])) ≡ returns (ok 0x80) (view (0x81 ∷ 0x80 ∷ []) [])
unfolding length_octets octet_count
definite_128 = decode_length-octets 0x80 [] [] (omega arith)

-- Unused bits that are zero, and are refused: the mask covers the high bits.
zero_padding_refused :
    validate_bit_string_unused_bits (4 ∷ 0xf0 ∷ []) ≡ err ErrorCode.constraint_violation
unfolding validate_bit_string_unused_bits
zero_padding_refused = refl

-- Unused bits that are set, and pass.
set_padding_accepted : validate_bit_string_unused_bits (4 ∷ 0x0f ∷ []) ≡ ok tt
unfolding validate_bit_string_unused_bits
set_padding_accepted = refl
