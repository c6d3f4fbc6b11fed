-- ===== src/BitOps/Defs.antt =====
-- libs/buffer/bit_ops.hpp.
use asn1pp.Prelude.{
  ℕ, zero, suc, ◌+◌, ◌-◌, ◌*◌, ◌/◌, ◌%◌, ◌^◌, List, none, some, if◌then◌else◌, leb, ◌==◌, get_elem?,
  set, bit_and, bit_or,
}
use asn1pp.Result.{ok, returns, fault, Op, pure, ◌>>=◌, ◌>>◌}

-- The bytes of a buffer, and the position that the functions advance.
pub record BitStream : Type 0 where
  pub cells : List ℕ
  pub bit_offset : ℕ

abbrev pub stream : List ℕ → ℕ → BitStream
stream c k = record { cells = c; bit_offset = k }

-- `(buf[byte_idx] & ~(1U << (7 - bit_pos))) | (bit << (7 - bit_pos))`
unfoldable pub merged : ℕ → ℕ → ℕ → ℕ
merged x bit_pos bit =
    bit_or (bit_and x (2 ^ 32 - 1 - 2 ^ (7 - bit_pos))) (bit * 2 ^ (7 - bit_pos) % 2 ^ 8) % 2 ^ 8

-- One round of `write_bits`. The position advances in every round and not behind the last.
unfoldable pub write_bit : ℕ → Op BitStream (Unit {0})
write_bit bit s = elim (get_elem? s.cells (s.bit_offset / 8)) [
  | none ↦ fault
  | some x ↦
      returns (ok tt) (
        stream (set s.cells (s.bit_offset / 8) (merged x (s.bit_offset % 8) bit))
          (s.bit_offset + 1))
]

-- The rounds that are left.
unfoldable pub put_bits : ℕ → ℕ → Op BitStream (Unit {0})
put_bits zero value = pure tt
put_bits (suc left) value = write_bit (bit_and (value / 2 ^ left) 1) >> put_bits left value

unfoldable pub write_bits : ℕ → ℕ → Op BitStream (Unit {0})
write_bits value bit_count s = (if leb bit_count 64 then put_bits bit_count value else λ _. fault) s

-- One round of `read_bits`.
unfoldable pub read_bit : Op BitStream ℕ
read_bit s = elim (get_elem? s.cells (s.bit_offset / 8)) [
  | none ↦ fault
  | some x ↦
      returns (ok (bit_and (x / 2 ^ (7 - s.bit_offset % 8)) 1)) (stream s.cells (s.bit_offset + 1))
]

unfoldable pub get_bits : ℕ → ℕ → Op BitStream ℕ
get_bits zero result = pure result
get_bits (suc left) result = read_bit >>= λ bit. get_bits left (bit_or (result * 2 % 2 ^ 64) bit)

unfoldable pub read_bits : ℕ → Op BitStream ℕ
read_bits bit_count s = (if leb bit_count 64 then get_bits bit_count 0 else λ _. fault) s

-- `align_to_octet`
unfoldable pub align_to_octet : Op BitStream (Unit {0})
align_to_octet s = returns (ok tt) (
    stream s.cells
      (if s.bit_offset % 8 == 0 then s.bit_offset else s.bit_offset + (8 - s.bit_offset % 8)))
