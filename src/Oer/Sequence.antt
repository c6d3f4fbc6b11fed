-- ===== src/Oer/Sequence.antt =====
-- libs/codec/oer/encoder.hpp: the preamble of a SEQUENCE.
use asn1pp.Prelude.{
  ℕ, zero, suc, ◌+◌, ◌-◌, ◌*◌, ◌/◌, ◌^◌, Bool, true, false, not, List, Option, none, some,
  if◌then◌else◌, ltb, ◌==◌, get_or, bit_or,
}
use asn1pp.ErrorCode.{ErrorCode}
use asn1pp.Result.{Op, pure, ensure, ◌>>=◌, ◌>>◌}
use asn1pp.Buffer.{BufferView, size, poke, skip}
use asn1pp.Oer.Meta.{OerMeta}

-- `bit_val` of a bit of the preamble. `optional_present` is none for a null pointer, and a read
-- behind the array that the caller passes is not modelled: it has `optional_count` elements.
unfoldable pub preamble_bit : OerMeta → Option (List Bool) → ℕ → Bool
preamble_bit m none bit_idx = false
preamble_bit m (some present) bit_idx =
    if m.has_extension
    then (if bit_idx == 0
        then false
        else (if ltb (bit_idx - 1) m.optional_count
            then get_or present (bit_idx - 1) false
            else false))
    else (if ltb bit_idx m.optional_count then get_or present bit_idx false else false)

abbrev pub preamble_bits : OerMeta → ℕ
preamble_bits m = (if m.has_extension then 1 else 0) + m.optional_count

-- One octet of the preamble: the rounds `b` of the inner loop, `left` of which are to come.
unfoldable pub preamble_octet : ℕ → ℕ → OerMeta → Option (List Bool) → ℕ → ℕ → ℕ
preamble_octet zero b m present i byte_val = byte_val
preamble_octet (suc left) b m present i byte_val =
    let next =
      if preamble_bit m present (i * 8 + b) then bit_or byte_val (2 ^ (7 - b)) else byte_val in
    elim (ltb (i * 8 + b) (preamble_bits m)) [
      | true ↦ preamble_octet left (b + 1) m present i next
      | false ↦ byte_val
    ]

unfoldable pub put_preamble : ℕ → ℕ → OerMeta → Option (List Bool) → Op BufferView (Unit {0})
put_preamble zero i m present = pure tt
put_preamble (suc left) i m present = do
  poke i (preamble_octet 8 0 m present i 0)
  put_preamble left (i + 1) m present

unfoldable pub encode_sequence_start : OerMeta → Option (List Bool) → Op BufferView (Unit {0})
encode_sequence_start m present = if preamble_bits m == 0 then pure tt else (do
  let preamble_bytes = (preamble_bits m + 7) / 8
  n ← size
  ensure (not (ltb n preamble_bytes)) ErrorCode.buffer_overflow
  put_preamble preamble_bytes 0 m present
  skip preamble_bytes)
