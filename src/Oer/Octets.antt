-- ===== src/Oer/Octets.antt =====
-- libs/codec/oer/encoder.hpp: the writers of numbers of fixed width and of lengths.
use asn1pp.Prelude.{
  ℕ, ◌/◌, ◌%◌, ◌^◌, not, List, [], ◌∷◌, if◌then◌else◌, ltb, leb, ◌==◌, length, bit_and, bit_or,
}
use asn1pp.ErrorCode.{ErrorCode}
use asn1pp.Result.{Op, pure, raise, ensure, ◌>>=◌, ◌>>◌}
use asn1pp.Buffer.{BufferView, size, poke, skip, copy_in}

-- Where there is no room, nothing happens. Both ways of copying write the octets in front.
unfoldable pub write_octets_to_buf : List ℕ → Op BufferView (Unit {0})
write_octets_to_buf src = do
  n ← size
  if ltb n (length src) then pure tt else (copy_in 0 src >> skip (length src))

unfoldable pub write_be_8 : ℕ → Op BufferView (Unit {0})
write_be_8 val = do n ← size; if leb 1 n then (copy_in 0 (val ∷ []) >> skip 1) else pure tt

-- `out[0] = …; out[1] = …;`
unfoldable pub write_be_16 : ℕ → Op BufferView (Unit {0})
write_be_16 val = do
  n ← size
  if leb 2 n
      then (copy_in 0 ((val / 2 ^ 8 % 256) ∷ (bit_and val 0xff % 256) ∷ []) >> skip 2)
      else pure tt

unfoldable pub write_be_32 : ℕ → Op BufferView (Unit {0})
write_be_32 val = do
  n ← size
  if leb 4 n
      then (copy_in 0 (
            (val / 2 ^ 24 % 256)
            ∷ (bit_and (val / 2 ^ 16) 0xff % 256)
            ∷ (bit_and (val / 2 ^ 8) 0xff % 256)
            ∷ (bit_and val 0xff % 256)
            ∷ [])
          >> skip 4)
      else pure tt

unfoldable pub write_be_64 : ℕ → Op BufferView (Unit {0})
write_be_64 val = do
  n ← size
  if leb 8 n
      then (copy_in 0 (
            (val / 2 ^ 56 % 256)
            ∷ (bit_and (val / 2 ^ 48) 0xff % 256)
            ∷ (bit_and (val / 2 ^ 40) 0xff % 256)
            ∷ (bit_and (val / 2 ^ 32) 0xff % 256)
            ∷ (bit_and (val / 2 ^ 24) 0xff % 256)
            ∷ (bit_and (val / 2 ^ 16) 0xff % 256)
            ∷ (bit_and (val / 2 ^ 8) 0xff % 256)
            ∷ (bit_and val 0xff % 256)
            ∷ [])
          >> skip 8)
      else pure tt

unfoldable pub put_two_byte_length : ℕ → Op BufferView (Unit {0})
put_two_byte_length len = do
  poke 0 (bit_or 0x80 (bit_and (len / 2 ^ 8) 0x3f) % 256)
  poke 1 (bit_and len 0xff % 256)
  skip 2

unfoldable pub put_long_length : ℕ → Op BufferView (Unit {0})
put_long_length len = do
  poke 0 0xc0
  poke 1 (bit_and (len / 2 ^ 8) 0xff % 256)
  poke 2 (bit_and len 0xff % 256)
  skip 3

-- The room is tested before the size of the number.
unfoldable pub encode_length_determinant : ℕ → Op BufferView (Unit {0})
encode_length_determinant len v =
    (if leb len 127
        then (ensure (not (ltb (length v.cells) 1)) ErrorCode.buffer_overflow
            >> write_be_8 (len % 256))
        else (if leb len 16383
            then (ensure (not (ltb (length v.cells) 2)) ErrorCode.buffer_overflow
                >> put_two_byte_length len)
            else (ensure (not (ltb (length v.cells) 3)) ErrorCode.buffer_overflow
                >> (ensure (not (ltb 65535 len)) ErrorCode.value_out_of_range
                    >> put_long_length len))))
      v

-- A length or an index of one, two or four octets.
abbrev pub write_be_index : ℕ → ℕ → Op BufferView (Unit {0})
write_be_index width val =
    if width == 1
    then write_be_8 (val % 256)
    else if width == 2
    then write_be_16 (val % 2 ^ 16)
    else write_be_32 (val % 2 ^ 32)

-- The `switch` at the end of `encode_integer`.
unfoldable pub write_be_integer : ℕ → ℕ → Op BufferView (Unit {0})
write_be_integer byte_width value =
    if byte_width == 1
    then write_be_8 (value % 256)
    else if byte_width == 2
    then write_be_16 (value % 2 ^ 16)
    else if byte_width == 4
    then write_be_32 (value % 2 ^ 32)
    else if byte_width == 8
    then write_be_64 value
    else raise ErrorCode.encoding_error
