-- ===== src/Oer/Encoder.antt =====
-- libs/codec/oer/encoder.hpp.

use asn1pp.Prelude.{
  ℕ, ◌+◌, ◌-◌, ◌%◌, ◌^◌, Bool, not, ◌||◌, List, if◌then◌else◌, ltb, leb, ◌==◌, length, overwrite,
  replicate, big_endian,
}
use asn1pp.ErrorCode.{ErrorCode}
use asn1pp.Result.{Op, pure, ensure, ◌>>=◌, ◌>>◌}
use asn1pp.Buffer.{BufferView, size}
use asn1pp.Arch.{SimdLevel}
use asn1pp.Int64.{signed_lt}
use asn1pp.Batch.{BatchBuffer, push}
use asn1pp.Ber.Integer
use asn1pp.Ber.Session.{Session, on_buf, on_pending}
use asn1pp.Ber.Encoder as BerEncoder
use asn1pp.Ber.Encoder.{PendingInteger, filled_slot}
use asn1pp.Oer.Meta.{OerMeta, integer_byte_width, index_byte_width}
use asn1pp.Oer.Octets.{
  write_octets_to_buf, write_be_8, write_be_16, encode_length_determinant, write_be_index,
  write_be_integer,
}

-- The statements of ber_encoder.cpp.
abbrev pub encode_integer_bytes : ℕ → List ℕ
encode_integer_bytes = Integer.encode_integer_bytes

-- `if (buf.size() < n) return err(buffer_overflow); write_octets_to_buf(buf, data, n);`
abbrev pub write_checked : List ℕ → Op BufferView (Unit {0})
write_checked octets = do
  n ← size
  ensure (not (ltb n (length octets))) ErrorCode.buffer_overflow
  write_octets_to_buf octets

unfoldable pub encode_unconstrained_integer : ℕ → Op BufferView (Unit {0})
encode_unconstrained_integer value = do
  let int_buf = encode_integer_bytes value
  encode_length_determinant (length int_buf)
  write_checked int_buf

-- The slot of a range constrained integer: `byte_width` octets, and the value.
abbrev pub range_slot : ℕ → ℕ → PendingInteger
range_slot byte_width value = record {
  value_buf = overwrite (replicate 8 0) 0 (big_endian byte_width value);
  size_of = byte_width;
  value = value;
}

-- A full batch is encoded, as in ber_encoder.cpp.
unfoldable pub drain_full : SimdLevel → Op (BatchBuffer PendingInteger) (Unit {0})
drain_full level = BerEncoder.drain_full level

unfoldable pub encode_ranged_integer :
    SimdLevel → OerMeta → ℕ → Op (Session PendingInteger) (Unit {0})
encode_ranged_integer level m value = do
  let byte_width = integer_byte_width m
  ensure (not (signed_lt value m.min_value || signed_lt m.max_value value))
      ErrorCode.value_out_of_range
  n ← on_buf size
  ensure (not (ltb n byte_width)) ErrorCode.buffer_overflow
  on_pending (push (range_slot byte_width value))
  on_pending (drain_full level)
  on_buf (write_be_integer byte_width value)

unfoldable pub encode_integer : SimdLevel → OerMeta → ℕ → Op (Session PendingInteger) (Unit {0})
encode_integer level m value =
    if m.has_range_constraint
    then encode_ranged_integer level m value
    else on_buf (encode_unconstrained_integer value)

-- `len_width` of a constrained OCTET STRING.
abbrev pub size_byte_width : ℕ → ℕ
size_byte_width sz_max = if leb sz_max 255 then 1 else if leb sz_max 65535 then 2 else 4

-- A string of fixed size, with nothing in front.
unfoldable pub encode_fixed : ℕ → List ℕ → Op BufferView (Unit {0})
encode_fixed sz octets = do
  ensure (length octets == sz) ErrorCode.constraint_violation
  n ← size
  ensure (not (ltb n sz)) ErrorCode.buffer_overflow
  write_octets_to_buf octets

unfoldable pub encode_sized : ℕ → ℕ → List ℕ → Op BufferView (Unit {0})
encode_sized sz_min sz_max octets = do
  ensure (not (ltb (length octets) sz_min || ltb sz_max (length octets)))
      ErrorCode.constraint_violation
  n ← size
  ensure (not (ltb n (size_byte_width sz_max + length octets))) ErrorCode.buffer_overflow
  write_be_index (size_byte_width sz_max) (length octets)
  write_octets_to_buf octets

unfoldable pub encode_octet_string : OerMeta → List ℕ → Op BufferView (Unit {0})
encode_octet_string m octets =
    if m.has_size_constraint
    then (if m.min_size == m.max_size
        then encode_fixed m.min_size octets
        else encode_sized m.min_size m.max_size octets)
    else (encode_length_determinant (length octets) >> write_checked octets)

unfoldable pub encode_sized_bits : ℕ → ℕ → List ℕ → ℕ → Op BufferView (Unit {0})
encode_sized_bits sz_min sz_max octets unused_bits = do
  let total = length octets + 1
  ensure (not (ltb (total - 1) sz_min || ltb sz_max (total - 1))) ErrorCode.constraint_violation
  let len_width = if leb ((sz_max + 1) % 2 ^ 64) 255 then 1 else 2
  n ← size
  ensure (not (ltb n (len_width + 1 + length octets))) ErrorCode.buffer_overflow
  if len_width == 1 then write_be_8 (total % 256) else write_be_16 (total % 2 ^ 16)
  write_be_8 unused_bits
  write_octets_to_buf octets

unfoldable pub encode_bit_string : OerMeta → List ℕ → ℕ → Op BufferView (Unit {0})
encode_bit_string m octets unused_bits =
    if m.has_size_constraint
    then (if m.min_size == m.max_size
        then encode_fixed m.min_size octets
        else encode_sized_bits m.min_size m.max_size octets unused_bits)
    else (do
      let total = 1 + length octets
      encode_length_determinant total
      n ← size
      ensure (not (ltb n total)) ErrorCode.buffer_overflow
      write_be_8 unused_bits
      write_octets_to_buf octets)

-- An index in the octets that the number of names takes, whatever its value.
abbrev pub encode_index : ℕ → ℕ → Op BufferView (Unit {0})
encode_index count index = do
  n ← size
  ensure (not (ltb n (index_byte_width count))) ErrorCode.buffer_overflow
  write_be_index (index_byte_width count) index

unfoldable pub encode_enumerated : OerMeta → ℕ → Op BufferView (Unit {0})
encode_enumerated m index = encode_index m.root_count index

unfoldable pub encode_choice_index : OerMeta → ℕ → Op BufferView (Unit {0})
encode_choice_index m choice_index = encode_index m.alternative_count choice_index

unfoldable pub encode_sequence_of_length : ℕ → Op BufferView (Unit {0})
encode_sequence_of_length len = encode_length_determinant len

unfoldable pub encode_boolean : Bool → Op BufferView (Unit {0})
encode_boolean value = do
  n ← size
  ensure (not (ltb n 1)) ErrorCode.buffer_overflow
  write_be_8 (if value then 0xff else 0)

unfoldable pub encode_null : Op BufferView (Unit {0})
encode_null = pure tt

unfoldable pub encode_sequence_end : Op BufferView (Unit {0})
encode_sequence_end = pure tt

unfoldable pub encode_oid : List ℕ → Op BufferView (Unit {0})
encode_oid encoded_oid = do
  encode_length_determinant (length encoded_oid)
  write_checked encoded_oid

-- `batch_size` and `flush_encode`: the statements of ber_encoder.cpp.
unfoldable pub batch_size : SimdLevel → ℕ
batch_size level = BerEncoder.batch_size level

unfoldable pub flush_encode : Op (BatchBuffer PendingInteger) ErrorCode
flush_encode q = BerEncoder.flush_encode q
