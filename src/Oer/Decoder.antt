-- ===== src/Oer/Decoder.antt =====
-- libs/codec/oer/decoder.hpp and libs/codec/oer/oer_decoder.cpp.
use asn1pp.Prelude.{
  ℕ, ◌+◌, ◌-◌, ◌*◌, ◌%◌, ◌^◌, Bool, not, ◌||◌, List, if◌then◌else◌, ltb, ◌==◌, drop, bit_and,
  bit_or, fold_be,
}
use asn1pp.ErrorCode.{ErrorCode}
use asn1pp.Result.{Op, pure, ensure, ◌>>=◌, ◌>>◌}
use asn1pp.Buffer.{BufferView, size, peek, skip, copy_out}
use asn1pp.Int64.{is_negative, signed_lt}
use asn1pp.Arch.{SimdLevel}
use asn1pp.Batch.{BatchBuffer}
use asn1pp.Ber.Integer
use asn1pp.Ber.Decoder as BerDecoder
use asn1pp.Ber.Decoder.{PendingInteger}
use asn1pp.Oer.Meta.{OerMeta, integer_byte_width, index_byte_width}
use asn1pp.Oer.Encoder.{size_byte_width}

unfoldable pub read_be_bytes : List ℕ → ℕ
read_be_bytes octets = fold_be 0 octets

-- The sign of the `byte_width` octets filled in above them.
unfoldable pub unsigned_to_signed : ℕ → ℕ → ℕ
unsigned_to_signed val byte_width =
    if byte_width == 1
    then (val % 2 ^ 8 + (if ltb (val % 2 ^ 8) (2 ^ 7) then 0 else 2 ^ 64 - 2 ^ 8)) % 2 ^ 64
    else if byte_width == 2
    then (val % 2 ^ 16 + (if ltb (val % 2 ^ 16) (2 ^ 15) then 0 else 2 ^ 64 - 2 ^ 16)) % 2 ^ 64
    else if byte_width == 4
    then (val % 2 ^ 32 + (if ltb (val % 2 ^ 32) (2 ^ 31) then 0 else 2 ^ 64 - 2 ^ 32)) % 2 ^ 64
    else val

-- `n` octets, which the view must hold.
abbrev pub take_checked : ℕ → Op BufferView (List ℕ)
take_checked count = do
  n ← size
  ensure (not (ltb n count)) ErrorCode.buffer_underflow
  octets ← copy_out count
  skip count
  pure octets

unfoldable pub decode_length_determinant : Op BufferView ℕ
decode_length_determinant = do
  n ← size
  ensure (not (ltb n 1)) ErrorCode.buffer_underflow
  first ← peek 0
  if bit_and first 0x80 == 0
      then (skip 1 >> pure first)
      else (if bit_and first 0xc0 == 0x80
          then (ensure (not (ltb n 2)) ErrorCode.buffer_underflow
              >> (peek 1 >>= λ low. skip 2 >> pure (bit_or (bit_and first 0x3f * 2 ^ 8) low)))
          else (ensure (not (ltb n 3)) ErrorCode.buffer_underflow
              >> (peek 1 >>= λ high. peek 2 >>= λ low. skip 3 >> pure (bit_or (high * 2 ^ 8) low))))

-- The statements of ber_decoder.cpp, with the empty span as 0.
abbrev pub decode_integer_value : List ℕ → ℕ
decode_integer_value = Integer.decode_integer_value

-- The range is checked where it has negative values alone.
unfoldable pub check_range : OerMeta → ℕ → Op BufferView ℕ
check_range m uval = if not (is_negative m.min_value) then pure uval else (do
  let signed_val = unsigned_to_signed uval (integer_byte_width m)
  ensure (not (signed_lt signed_val m.min_value || signed_lt m.max_value signed_val))
      ErrorCode.value_out_of_range
  pure signed_val)

unfoldable pub decode_unconstrained_integer : Op BufferView ℕ
decode_unconstrained_integer = do
  val_len ← decode_length_determinant
  ensure (not (val_len == 0)) ErrorCode.invalid_length
  ensure (not (ltb 8 val_len)) ErrorCode.value_out_of_range
  val_buf ← take_checked val_len
  pure (decode_integer_value val_buf)

unfoldable pub decode_integer : OerMeta → Op BufferView ℕ
decode_integer m =
    if m.has_range_constraint
    then (take_checked (integer_byte_width m) >>= λ octets. check_range m (read_be_bytes octets))
    else decode_unconstrained_integer

unfoldable pub decode_sized : ℕ → ℕ → Op BufferView (List ℕ)
decode_sized sz_min sz_max = do
  octets ← take_checked (size_byte_width sz_max)
  let data_len = read_be_bytes octets
  ensure (not (ltb data_len sz_min || ltb sz_max data_len)) ErrorCode.constraint_violation
  take_checked data_len

unfoldable pub decode_octet_string : OerMeta → Op BufferView (List ℕ)
decode_octet_string m =
    if m.has_size_constraint
    then (if m.min_size == m.max_size
        then take_checked m.min_size
        else decode_sized m.min_size m.max_size)
    else (decode_length_determinant >>= λ data_len. take_checked data_len)

unfoldable pub decode_counted_bits : Op BufferView (List ℕ × ℕ)
decode_counted_bits = do
  total ← decode_length_determinant
  ensure (not (ltb total 1)) ErrorCode.invalid_length
  n ← size
  ensure (not (ltb n total)) ErrorCode.buffer_underflow
  unused ← peek 0
  octets ← copy_out total
  skip total
  pure (drop 1 octets, unused)

-- The octets, and the count of unused bits.
unfoldable pub decode_bit_string : OerMeta → Op BufferView (List ℕ × ℕ)
decode_bit_string m =
    if m.has_size_constraint
    then (if m.min_size == m.max_size
        then (take_checked m.min_size >>= λ octets. pure (octets, 0))
        else decode_counted_bits)
    else decode_counted_bits

abbrev pub decode_index : ℕ → Op BufferView ℕ
decode_index count = do octets ← take_checked (index_byte_width count); pure (read_be_bytes octets)

unfoldable pub decode_enumerated : OerMeta → Op BufferView ℕ
decode_enumerated m = decode_index m.root_count

unfoldable pub decode_choice_index : OerMeta → Op BufferView ℕ
decode_choice_index m = decode_index m.alternative_count

unfoldable pub decode_sequence_of_length : Op BufferView ℕ
decode_sequence_of_length = decode_length_determinant

unfoldable pub decode_boolean : Op BufferView Bool
decode_boolean = do
  n ← size
  ensure (not (ltb n 1)) ErrorCode.buffer_underflow
  x ← peek 0
  skip 1
  pure (not (x == 0))

unfoldable pub decode_null : Op BufferView (Unit {0})
decode_null = pure tt

-- `batch_size` and `flush_decode`: the statements of ber_decoder.cpp.
unfoldable pub batch_size : SimdLevel → ℕ
batch_size level = BerDecoder.batch_size level

unfoldable pub flush_decode : Op (BatchBuffer PendingInteger) ErrorCode
flush_decode q = BerDecoder.flush_decode q
