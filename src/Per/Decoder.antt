-- ===== src/Per/Decoder.antt =====
-- libs/codec/per/uper_decoder.hpp, and its functions in libs/codec/per/per_decoder.cpp.
use asn1pp.Prelude.{
  ℕ, zero, suc, ◌+◌, ◌-◌, ◌*◌, ◌/◌, ◌%◌, ◌^◌, Bool, true, false, not, ◌||◌, ◌&&◌, List, [], ◌∷◌,
  if◌then◌else◌, ltb, leb, ◌==◌, length, get_elem?, bit_and, bit_or, fold_be,
}
use asn1pp.ErrorCode.{ErrorCode}
use asn1pp.Result.{ok, returns, fault, Op, pure, raise, ensure, ◌>>=◌, ◌>>◌}
use asn1pp.Arch.{SimdLevel}
use asn1pp.ArchCodec.{batch_decode_integers}
use asn1pp.Batch.{BatchBuffer, push, drain}
use asn1pp.Ber.Integer.{decode_integer_value}
use asn1pp.Ber.Decoder as BerDecoder
use asn1pp.Ber.Decoder.{PendingInteger, filled_slot, slot_args, slot_answer}
use asn1pp.BitOps.Defs.{BitStream, stream, read_bits}
use asn1pp.Per.Meta.{PerMeta, minus_64, bits_needed_unsigned, bits_needed_for_range, range_of}
use asn1pp.Per.Encoder.{size_range, size_bits}

-- `if (bit_offset + n > buf.size() * 8) return err(buffer_underflow);`
abbrev pub need : ℕ → Op BitStream (Unit {0})
need n s = ensure (not (ltb (length s.cells * 8) (s.bit_offset + n))) ErrorCode.buffer_underflow s

unfoldable pub read_octets_unaligned : ℕ → Op BitStream (List ℕ)
read_octets_unaligned zero = pure []
read_octets_unaligned (suc count) =
    read_bits 8 >>= λ x. read_octets_unaligned count >>= λ dst. pure (x ∷ dst)

-- `if (bit_offset_ + count * 8 > buf.size() * 8) return err(buffer_underflow);`, in 64 bits.
abbrev pub need_octets : ℕ → Op BitStream (Unit {0})
need_octets count s =
    ensure (not (ltb (length s.cells * 8) ((s.bit_offset + count * 8) % 2 ^ 64)))
      ErrorCode.buffer_underflow s

-- Octets of a string, into a vector of as many.
abbrev pub take_octets : ℕ → Op BitStream (List ℕ)
take_octets count = need_octets count >> read_octets_unaligned count

-- The octets of a number of a large range, fewer than 2 ^ 30.
abbrev pub take_value : ℕ → Op BitStream (List ℕ)
take_value count = need (count * 8) >> read_octets_unaligned count

unfoldable pub decode_four_bytes : ℕ → Op BitStream ℕ
decode_four_bytes first_byte = do
  need 24
  b2 ← read_bits 8
  b3 ← read_bits 8
  b4 ← read_bits 8
  pure (bit_or (bit_or (bit_or (bit_and first_byte 0x1f * 2 ^ 24) (b2 * 2 ^ 16)) (b3 * 2 ^ 8)) b4)

-- `decode_length_determinant_unaligned`
unfoldable pub decode_length_determinant : Op BitStream ℕ
decode_length_determinant = do
  need 8
  first_byte ← read_bits 8
  if bit_and first_byte 0x80 == 0
      then pure first_byte
      else (if bit_and first_byte 0xc0 == 0x80
          then (need 8
              >> (read_bits 8 >>= λ second_byte.
                  pure (bit_or (bit_and first_byte 0x3f * 2 ^ 8) second_byte)))
          else (if bit_and first_byte 0xe0 == 0xc0
              then decode_four_bytes first_byte
              else raise ErrorCode.parse_error))

-- `min + val` in 64 bits.
abbrev pub plus_64 : ℕ → ℕ → ℕ
plus_64 a b = (a + b) % 2 ^ 64

abbrev pub read_checked : ℕ → Op BitStream ℕ
read_checked bits = need bits >> read_bits bits

-- The octets of a large number are shifted into `uv` one by one.
unfoldable pub decode_large : ℕ → Op BitStream ℕ
decode_large lo = do
  val_bytes ← decode_length_determinant
  if val_bytes == 0
      then pure lo
      else (take_value val_bytes >>= λ octets. pure (plus_64 lo (fold_be 0 octets)))

-- `decode_constrained_whole_number_unaligned`
unfoldable pub decode_constrained_whole_number : ℕ → ℕ → Op BitStream ℕ
decode_constrained_whole_number lo hi =
    if leb (range_of lo hi) 1
    then pure lo
    else if leb (range_of lo hi) 256
    then (read_checked (bits_needed_for_range lo hi) >>= λ val. pure (plus_64 lo val))
    else if leb (range_of lo hi) 65536
    then (read_checked (bits_needed_for_range lo hi) >>= λ val. pure (plus_64 lo val))
    else decode_large lo

-- The octets of an integer without constraint, none for the number 0 without octets.
unfoldable pub take_integer : Op BitStream (List ℕ)
take_integer = do
  val_bytes ← decode_length_determinant
  if val_bytes == 0
      then pure []
      else (need (val_bytes * 8)
          >> (ensure (not (ltb 8 val_bytes)) ErrorCode.value_out_of_range
              >> read_octets_unaligned val_bytes))

-- `pending_` of the decoder, and the buffer with `bit_offset_`.
pub record BitSession : Type 0 where
  pub pending : BatchBuffer PendingInteger
  pub bits : BitStream

abbrev pub on_bits : {A : Type 0} → Op BitStream A → Op BitSession A
on_bits m s = elim (m s.bits) [
  | returns r b ↦ returns r (record { pending = s.pending; bits = b })
  | fault ↦ fault
]

abbrev pub on_pending : {A : Type 0} → Op (BatchBuffer PendingInteger) A → Op BitSession A
on_pending m s = elim (m s.pending) [
  | returns r q ↦ returns r (record { pending = q; bits = s.bits })
  | fault ↦ fault
]

-- The batch is full: all of it is decoded, and the answer is that of the last slot.
unfoldable pub answer_integer : SimdLevel → List ℕ → Op (BatchBuffer PendingInteger) ℕ
answer_integer level octets q =
    (if q.count == BerDecoder.batch_size level
        then (drain >>= λ drained. slot_answer (
            get_elem? (batch_decode_integers (slot_args drained))
              (BerDecoder.batch_size level - 1)))
        else pure (decode_integer_value octets))
      q

unfoldable pub decode_integer : SimdLevel → PerMeta → Op BitSession ℕ
decode_integer level m =
    if m.has_range_constraint
    then on_bits (decode_constrained_whole_number m.min_value m.max_value)
    else (do
      octets ← on_bits take_integer
      if length octets == 0
          then pure 0
          else (on_pending (push (filled_slot octets)) >> on_pending (answer_integer level octets)))

unfoldable pub decode_boolean : Op BitStream Bool
decode_boolean = do bit ← read_checked 1; pure (not (bit == 0))

unfoldable pub decode_null : Op BitStream (Unit {0})
decode_null = pure tt

unfoldable pub decode_octet_string : PerMeta → Op BitStream (List ℕ)
decode_octet_string m =
    if m.has_size_constraint && m.min_size == m.max_size
    then take_octets m.min_size
    else if m.has_size_constraint && leb (size_range m) 65536
    then (read_checked (size_bits m) >>= λ data_len. take_octets data_len)
    else (decode_length_determinant >>= λ data_len. take_octets data_len)

-- `(bit_len + 7) / 8`
abbrev pub byte_length : ℕ → ℕ
byte_length bit_len = (bit_len + 7) % 2 ^ 64 / 8

-- The octets that `bit_len` bits take, and `static_cast<uint8_t>(byte_len * 8 - bit_len)`.
abbrev pub take_bits : ℕ → Op BitStream (List ℕ × ℕ)
take_bits bit_len = do
  octets ← take_octets (byte_length bit_len)
  pure (octets, minus_64 (byte_length bit_len * 8) bit_len % 256)

unfoldable pub decode_bit_string : PerMeta → Op BitStream (List ℕ × ℕ)
decode_bit_string m =
    if m.has_size_constraint && m.min_size == m.max_size
    then take_bits m.min_size
    else if m.has_size_constraint && leb (size_range m) 65536
    then (read_checked (size_bits m) >>= λ bit_len. take_bits bit_len)
    else (do
      bit_len ← decode_length_determinant
      unused ← read_checked 8
      octets ← take_octets (byte_length bit_len)
      pure (octets, unused))

unfoldable pub decode_enumerated : PerMeta → Op BitStream ℕ
decode_enumerated m = if leb m.normal_index_count 1 then pure 0 else (do
  idx ← read_checked (bits_needed_unsigned (m.normal_index_count - 1))
  ensure (not (leb m.normal_index_count idx)) ErrorCode.value_out_of_range
  pure idx)

unfoldable pub get_flags : ℕ → Op BitStream (List Bool)
get_flags zero = pure []
get_flags (suc count) =
    read_checked 1 >>= λ pres. get_flags count >>= λ present. pure (not (pres == 0) ∷ present)

-- `extension_chosen`, and what `optional_present` holds afterwards; `optional_count` is 0 where the
-- pointer is null.
unfoldable pub decode_sequence_start : PerMeta → ℕ → Op BitStream (Bool × List Bool)
decode_sequence_start m optional_count = do
  extension_chosen ←
      (if m.has_extension
        then (read_checked 1 >>= λ ext_bit. pure (not (ext_bit == 0)))
        else pure false)
  present ← get_flags optional_count
  pure (extension_chosen, present)

unfoldable pub decode_sequence_end : Op BitStream (Unit {0})
decode_sequence_end = pure tt

unfoldable pub decode_choice_index : PerMeta → Op BitStream ℕ
decode_choice_index m = do
  idx ← read_checked (bits_needed_unsigned (minus_64 m.alternative_count 1))
  ensure (not (leb m.alternative_count idx)) ErrorCode.value_out_of_range
  pure idx

unfoldable pub decode_sequence_of_length : PerMeta → Op BitStream ℕ
decode_sequence_of_length m =
    if m.has_size_constraint && leb (size_range m) 65536
    then (do
      len ← read_checked (size_bits m)
      ensure (not (ltb len m.min_size || ltb m.max_size len)) ErrorCode.value_out_of_range
      pure len)
    else decode_length_determinant

unfoldable pub decode_oid : Op BitStream (List ℕ)
decode_oid = decode_length_determinant >>= λ data_len. take_octets data_len

-- `uper_decoder::batch_size` and `uper_decoder::flush_decode`: the statements of ber_decoder.cpp.
unfoldable pub batch_size : SimdLevel → ℕ
batch_size level = BerDecoder.batch_size level

unfoldable pub flush_decode : Op (BatchBuffer PendingInteger) ErrorCode
flush_decode q = BerDecoder.flush_decode q

-- The whole octets of the padding, which must be zero.
unfoldable pub check_padding : ℕ → Op BitStream (Unit {0})
check_padding zero s = pure tt s
check_padding (suc left) s = elim (leb (s.bit_offset + 8) (length s.cells * 8)) [
  | true ↦
      (read_bits 8 >>= λ byte_val.
      ensure (byte_val == 0) ErrorCode.parse_error >> check_padding left)
        s
  | false ↦ pure tt s
]

-- What is left of the last octet.
unfoldable pub check_tail : Op BitStream (Unit {0})
check_tail s =
    (if ltb s.bit_offset (length s.cells * 8)
        then (read_bits (length s.cells * 8 - s.bit_offset) >>= λ val.
            ensure (val == 0) ErrorCode.parse_error)
        else pure tt)
      s

abbrev pub go_to_end : Op BitStream (Unit {0})
go_to_end s = returns (ok tt) (stream s.cells (length s.cells * 8))

-- `flush`: as many rounds as the buffer has octets are enough.
unfoldable pub flush : Op BitStream (Unit {0})
flush s =
    (if leb (length s.cells * 8) s.bit_offset
        then pure tt
        else (if ltb (length s.cells * 8 - s.bit_offset) 8
            then (check_tail >> go_to_end)
            else (check_padding (length s.cells) >> (check_tail >> go_to_end))))
      s
