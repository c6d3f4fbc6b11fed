-- ===== src/Tlv/Defs.antt =====
-- libs/codec/ber/tlv.hpp. Numbers of tags are `uint32_t`, lengths `size_t` of 64 bits.
use asn1pp.Prelude.{
  ℕ, zero, suc, ◌+◌, ◌-◌, ◌*◌, ◌/◌, ◌%◌, ◌^◌, Bool, true, false, not, ◌&&◌, List, if◌then◌else◌,
  leb, ltb, ◌==◌, length, bit_and, bit_or,
}
use asn1pp.ErrorCode.{ErrorCode}
use asn1pp.Result.{Op, pure, ensure, ◌>>=◌, ◌>>◌}
use asn1pp.Buffer.{BufferView, size, peek, poke, skip, copy_in, within}
use asn1pp.Traits.{Tag, TagClass, class_code, class_of}

-- `while (num > 0x7F) { num >>= 7; ++cont; }`. Five rounds are enough for 32 bits.
unfoldable pub count_groups : ℕ → ℕ → ℕ → ℕ
count_groups zero num cont = cont
count_groups (suc fuel) num cont =
    let more = count_groups fuel (num / 2 ^ 7) (cont + 1) in if ltb 0x7f num then more else cont

unfoldable pub encoded_tag_size : Tag → ℕ
encoded_tag_size t = if leb t.number 30 then 1 else 1 + count_groups 5 t.number 1

-- The loop over the continuation bytes, with `left` of them to write from index `1 + i` on.
unfoldable pub put_groups : ℕ → ℕ → ℕ → Op BufferView (Unit {0})
put_groups zero i number = pure tt
put_groups (suc left) i number = do
  let byte_val = bit_and (number / 2 ^ (left * 7)) 0x7f % 256
  poke (1 + i) (if ltb 0 left then bit_or byte_val 0x80 else byte_val)
  put_groups left (i + 1) number

-- The first identifier octet, over its five low bits.
abbrev pub leading : Tag → ℕ → ℕ
leading t low =
    bit_or (bit_or (class_code t.cls * 2 ^ 6 % 256) (if t.constructed then 0x20 else 0)) low

-- The branch for numbers up to 30, and the other.
unfoldable pub put_short_tag : Tag → Op BufferView (Unit {0})
put_short_tag t = do poke 0 (leading t (t.number % 256)); skip 1

unfoldable pub put_long_tag : Tag → Op BufferView (Unit {0})
put_long_tag t = do
  poke 0 (leading t 0x1f)
  let cont_count = count_groups 5 t.number 1
  put_groups cont_count 0 t.number
  skip (1 + cont_count)

unfoldable pub encode_tag : Tag → Op BufferView (Unit {0})
encode_tag t = do
  n ← size
  ensure (not (ltb n (encoded_tag_size t))) ErrorCode.buffer_overflow
  if leb t.number 30 then put_short_tag t else put_long_tag t

-- The loop over the continuation bytes, with `left` bytes in front of the end of the buffer:
-- what it leaves in `consumed` and in `number`.
unfoldable pub tag_loop : ℕ → ℕ → ℕ → Op BufferView (ℕ × ℕ)
tag_loop zero consumed number = pure (consumed, number)
tag_loop (suc left) consumed number = do
  byte_val ← peek consumed
  let number' = bit_or (number * 2 ^ 7 % 2 ^ 32) (bit_and byte_val 0x7f)
  let more = tag_loop left (consumed + 1) number'
  if bit_and byte_val 0x80 == 0 then pure (consumed + 1, number') else more

-- The last byte read must end the number.
abbrev pub check_last : ℕ → Op BufferView (Unit {0})
check_last consumed = do
  last_byte ← peek (consumed - 1)
  ensure (bit_and last_byte 0x80 == 0) ErrorCode.buffer_underflow

abbrev pub short_tag : TagClass → Bool → ℕ → Op BufferView Tag
short_tag cls constructed low5 = do
  skip 1
  pure (record { cls = cls; constructed = constructed; number = low5 })

-- The long form, behind a first octet of this class and form.
unfoldable pub decode_long_tag : TagClass → Bool → Op BufferView Tag
decode_long_tag cls constructed = do
  n ← size
  (consumed, number) ← tag_loop (n - 1) 1 0
  ensure (not (consumed == n && consumed == 1)) ErrorCode.invalid_tag
  if consumed == n && ltb 1 n then check_last consumed else pure tt
  skip consumed
  pure (record { cls = cls; constructed = constructed; number = number })

unfoldable pub decode_tag : Op BufferView Tag
decode_tag = do
  n ← size
  ensure (not (n == 0)) ErrorCode.buffer_underflow
  first ← peek 0
  let cls = class_of (bit_and first 0xc0 / 2 ^ 6)
  let constructed = not (bit_and first 0x20 == 0)
  let low5 = bit_and first 0x1f
  if not (low5 == 0x1f) then short_tag cls constructed low5 else decode_long_tag cls constructed

-- `while (tmp > 0) { tmp >>= 8; ++cont; }`. Eight rounds are enough for 64 bits.
unfoldable pub count_octets : ℕ → ℕ → ℕ → ℕ
count_octets zero tmp cont = cont
count_octets (suc fuel) tmp cont =
    let more = count_octets fuel (tmp / 2 ^ 8) (cont + 1) in if ltb 0 tmp then more else cont

unfoldable pub encoded_length_size : ℕ → ℕ
encoded_length_size length = if leb length 127 then 1 else 1 + count_octets 8 length 0

-- The loop over the length octets, which fills `out[1 .. left]` from its end.
unfoldable pub put_length : ℕ → ℕ → Op BufferView (Unit {0})
put_length zero val = pure tt
put_length (suc left) val = do
  poke (1 + left) (bit_and val 0xff % 256)
  put_length left (val / 2 ^ 8)

unfoldable pub put_short_length : ℕ → Op BufferView (Unit {0})
put_short_length len = do
  n ← size
  ensure (not (ltb n 1)) ErrorCode.buffer_overflow
  poke 0 (len % 256)
  skip 1

unfoldable pub put_long_length : ℕ → Op BufferView (Unit {0})
put_long_length len = do
  n ← size
  let cont = encoded_length_size len - 1
  ensure (not (ltb n (1 + cont))) ErrorCode.buffer_overflow
  poke 0 (bit_or 0x80 cont % 256)
  put_length cont len
  skip (1 + cont)

unfoldable pub encode_length : ℕ → Bool → Op BufferView (Unit {0})
encode_length len true = do
  n ← size
  ensure (not (n == 0)) ErrorCode.buffer_overflow
  poke 0 0x80
  skip 1
encode_length len false = if leb len 127 then put_short_length len else put_long_length len

-- `for (i = 0; i < num_octets; ++i) length = (length << 8) | buf[1 + i];`, with `left` rounds left.
unfoldable pub length_loop : ℕ → ℕ → ℕ → Op BufferView ℕ
length_loop zero i acc = pure acc
length_loop (suc left) i acc = do
  b ← peek (1 + i)
  length_loop left (i + 1) (bit_or (acc * 2 ^ 8 % 2 ^ 64) b)

unfoldable pub decode_long_length : ℕ → Op BufferView ℕ
decode_long_length num_octets = do
  n ← size
  ensure (not (num_octets == 0)) ErrorCode.invalid_length
  ensure (not (num_octets == 0x7f)) ErrorCode.invalid_length
  ensure (not (ltb n (1 + num_octets))) ErrorCode.buffer_underflow
  ensure (not (ltb 8 num_octets)) ErrorCode.invalid_length
  len ← length_loop num_octets 0 0
  skip (1 + num_octets)
  pure len

-- The sentinel for the indefinite form is the number 0x80.
unfoldable pub decode_length : Op BufferView ℕ
decode_length = do
  n ← size
  ensure (not (n == 0)) ErrorCode.buffer_underflow
  first ← peek 0
  if first == 0x80
      then skip 1 >> pure 0x80
      else if bit_and first 0x80 == 0
      then skip 1 >> pure first
      else decode_long_length (bit_and first 0x7f)

unfoldable pub encode_end_of_content : Op BufferView (Unit {0})
encode_end_of_content = do
  n ← size
  ensure (not (ltb n 2)) ErrorCode.buffer_overflow
  poke 0 0
  poke 1 0
  skip 2

unfoldable pub encode_tlv : Tag → List ℕ → Op BufferView (Unit {0})
encode_tlv t value = do
  n ← size
  let total_needed = encoded_tag_size t + encoded_length_size (length value) + length value
  ensure (not (ltb n total_needed)) ErrorCode.buffer_overflow
  within 0 (encode_tag t)
  within (encoded_tag_size t) (encode_length (length value) false)
  let pos = encoded_tag_size t + encoded_length_size (length value)
  if not (length value == 0) then copy_in pos value else pure tt
  skip (pos + length value)

unfoldable pub decode_tlv_header : Op BufferView (Tag × ℕ)
decode_tlv_header = do
  out_tag ← decode_tag
  out_length ← decode_length
  n ← size
  ensure (not (not (out_length == 0x80) && ltb n out_length)) ErrorCode.buffer_underflow
  pure (out_tag, out_length)
