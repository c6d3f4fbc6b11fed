-- ===== src/Per/Encoder.antt =====
-- libs/codec/per/uper_encoder.hpp. `buf` stays, and what is written goes to `bit_offset_`.
use asn1pp.Prelude.{
  ℕ, zero, suc, ◌+◌, ◌-◌, ◌*◌, ◌/◌, ◌%◌, ◌^◌, Bool, not, ◌||◌, ◌&&◌, List, [], ◌∷◌, if◌then◌else◌,
  ltb, leb, ◌==◌, length, bit_and, bit_or,
}
use asn1pp.ErrorCode.{ErrorCode}
use asn1pp.Result.{Op, pure, ensure, ◌>>◌}
use asn1pp.Int64.{is_negative, signed_lt}
use asn1pp.BitOps.Defs.{BitStream, write_bits, align_to_octet}
use asn1pp.Per.Meta.{
  PerMeta, minus_64, bits_needed_unsigned, bits_needed_for_range, range_of, count_bytes,
}

unfoldable pub write_octets_unaligned : List ℕ → Op BitStream (Unit {0})
write_octets_unaligned [] = pure tt
write_octets_unaligned (x ∷ src) = write_bits x 8 >> write_octets_unaligned src

-- `flush`, over `flush_to_octet`
unfoldable pub flush : Op BitStream (Unit {0})
flush = align_to_octet

-- The octets `i - 1` to 0 of a number.
unfoldable pub put_value : ℕ → ℕ → Op BitStream (Unit {0})
put_value zero uv = pure tt
put_value (suc i) uv = write_bits (bit_and (uv / 2 ^ (i * 8)) 0xff) 8 >> put_value i uv

-- The rounds of the fragmentation; each takes 16383 of `remaining` at most.
unfoldable pub put_chunks : ℕ → ℕ → Op BitStream (Unit {0})
put_chunks zero remaining = pure tt
put_chunks (suc left) remaining =
    let chunk = if ltb 16383 remaining then 16383 else remaining in
    let more = put_chunks left (remaining - chunk) in
    if remaining == 0
    then pure tt
    else (write_bits (bit_or 0x8000 (bit_and chunk 0x3fff)) 16 >> more)

abbrev pub four_bytes : ℕ → ℕ
four_bytes len =
    bit_or
      (bit_or
        (bit_or (bit_or 0xc0000000 (bit_and (len / 2 ^ 24) 0x1f * 2 ^ 24))
          (bit_and (len / 2 ^ 16) 0xff * 2 ^ 16))
        (bit_and (len / 2 ^ 8) 0xff * 2 ^ 8))
      (bit_and len 0xff)

-- `encode_length_determinant_unaligned`
unfoldable pub encode_length_determinant : ℕ → Op BitStream (Unit {0})
encode_length_determinant len =
    if leb len 127
    then write_bits len 8
    else if leb len 16383
    then write_bits (bit_or 0x8000 (bit_and len 0x3fff)) 16
    else if leb len 0x3fffffff
    then write_bits (four_bytes len) 32
    else put_chunks (len / 16383 + 1) len

-- `encode_constrained_whole_number_unaligned`
unfoldable pub encode_constrained_whole_number : ℕ → ℕ → ℕ → Op BitStream (Unit {0})
encode_constrained_whole_number value lo hi = do
  ensure (not (signed_lt value lo || signed_lt hi value)) ErrorCode.value_out_of_range
  let uv = minus_64 value lo
  if leb (range_of lo hi) 1
      then pure tt
      else (if leb (range_of lo hi) 256
          then write_bits uv (bits_needed_for_range lo hi)
          else (if leb (range_of lo hi) 65536
              then write_bits uv (bits_needed_for_range lo hi)
              else (encode_length_determinant (count_bytes 8 uv 0)
                  >> put_value (count_bytes 8 uv 0) uv)))

-- The octets of a number without constraint; one more where the highest bit of a number that is not
-- negative is set. `~uv` is `2 ^ 64 - 1 - uv`.
unfoldable pub value_size : ℕ → ℕ
value_size value =
    if is_negative value
    then count_bytes 8 (2 ^ 64 - 1 - value) 0
    else (let val_bytes = count_bytes 8 value 0 in
        if not (bit_and (value / 2 ^ ((val_bytes - 1) * 8)) 0x80 == 0)
        then val_bytes + 1
        else val_bytes)

unfoldable pub encode_integer : PerMeta → ℕ → Op BitStream (Unit {0})
encode_integer m value =
    if m.has_range_constraint
    then encode_constrained_whole_number value m.min_value m.max_value
    else (encode_length_determinant (value_size value) >> put_value (value_size value) value)

unfoldable pub encode_boolean : Bool → Op BitStream (Unit {0})
encode_boolean value = write_bits (if value then 1 else 0) 1

unfoldable pub encode_null : Op BitStream (Unit {0})
encode_null = pure tt

-- `max_size - min_size + 1`
abbrev pub size_range : PerMeta → ℕ
size_range m = (minus_64 m.max_size m.min_size + 1) % 2 ^ 64

abbrev pub size_bits : PerMeta → ℕ
size_bits m = bits_needed_unsigned (minus_64 (size_range m) 1)

unfoldable pub encode_octet_string : PerMeta → List ℕ → Op BitStream (Unit {0})
encode_octet_string m octets =
    if m.has_size_constraint && m.min_size == m.max_size
    then (ensure (length octets == m.min_size) ErrorCode.constraint_violation
        >> write_octets_unaligned octets)
    else if m.has_size_constraint && leb (size_range m) 65536
    then (write_bits (length octets) (size_bits m) >> write_octets_unaligned octets)
    else (encode_length_determinant (length octets) >> write_octets_unaligned octets)

abbrev pub bit_length : List ℕ → ℕ → ℕ
bit_length octets unused_bits = minus_64 (length octets * 8) unused_bits

unfoldable pub encode_bit_string : PerMeta → List ℕ → ℕ → Op BitStream (Unit {0})
encode_bit_string m octets unused_bits =
    if m.has_size_constraint && m.min_size == m.max_size
    then (ensure (bit_length octets unused_bits == m.min_size) ErrorCode.constraint_violation
        >> write_octets_unaligned octets)
    else if m.has_size_constraint && leb (size_range m) 65536
    then (write_bits (bit_length octets unused_bits) (size_bits m) >> write_octets_unaligned octets)
    else (encode_length_determinant (bit_length octets unused_bits)
        >> (write_bits unused_bits 8 >> write_octets_unaligned octets))

unfoldable pub encode_enumerated : PerMeta → ℕ → Op BitStream (Unit {0})
encode_enumerated m index = do
  ensure (not (is_negative index || leb m.normal_index_count index)) ErrorCode.value_out_of_range
  if leb m.normal_index_count 1
      then pure tt
      else write_bits index (bits_needed_unsigned (m.normal_index_count - 1))

unfoldable pub put_flags : List Bool → Op BitStream (Unit {0})
put_flags [] = pure tt
put_flags (p ∷ present) = write_bits (if p then 1 else 0) 1 >> put_flags present

-- `optional_present` has `optional_count` elements, and none where the pointer is null.
unfoldable pub encode_sequence_start : PerMeta → List Bool → Op BitStream (Unit {0})
encode_sequence_start m present =
    (if m.has_extension then write_bits 0 1 else pure tt) >> put_flags present

unfoldable pub encode_sequence_end : Op BitStream (Unit {0})
encode_sequence_end = pure tt

unfoldable pub encode_choice_index : PerMeta → ℕ → Op BitStream (Unit {0})
encode_choice_index m choice_index = do
  ensure (not (is_negative choice_index || leb m.alternative_count choice_index))
      ErrorCode.value_out_of_range
  write_bits choice_index (bits_needed_unsigned (minus_64 m.alternative_count 1))

unfoldable pub encode_sequence_of_length : PerMeta → ℕ → Op BitStream (Unit {0})
encode_sequence_of_length m len =
    if m.has_size_constraint
    then (ensure (not (ltb len m.min_size || ltb m.max_size len)) ErrorCode.value_out_of_range
        >> (if leb (size_range m) 65536
            then write_bits len (size_bits m)
            else encode_length_determinant len))
    else encode_length_determinant len

unfoldable pub encode_oid : List ℕ → Op BitStream (Unit {0})
encode_oid encoded_oid =
    encode_length_determinant (length encoded_oid) >> write_octets_unaligned encoded_oid
