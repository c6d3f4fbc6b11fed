-- ===== src/Per/Transport.antt =====
-- Values through a buffer in libs/codec/per/uper_encoder.hpp and uper_decoder.hpp: written at a bit
-- and read back from there.
use asn1pp.Prelude.{ℕ, ◌+◌, ◌*◌, ◌^◌, ◌≤◌, ◌<◌, ◌≢◌, Bool, false, List, All, IsByte, length}
use asn1pp.Int64.{InRange}
use asn1pp.BitOps.Transfer.{BitCarried, BitPuts-BitCarried}
use asn1pp.Per.Meta.{PerMeta, range_of}
use asn1pp.Per.Encoder.{
  encode_length_determinant, encode_constrained_whole_number, encode_octet_string,
  encode_enumerated, encode_sequence_start, encode_choice_index,
}
use asn1pp.Per.Decoder.{
  decode_length_determinant, decode_constrained_whole_number, decode_octet_string,
  decode_enumerated, decode_sequence_start, decode_choice_index,
}
use asn1pp.Per.Lengths.{determinant_bits, encode_length_determinant-BitPuts}
use asn1pp.Per.LengthReading.{decode_length_determinant-BitGets}
use asn1pp.Per.Strings.{
  PerAllowed, octet_string_bits, encode_octet_string-BitPuts, decode_octet_string-BitGets,
}
use asn1pp.Per.Indexes.{
  index_bits, encode_enumerated-BitPuts, decode_enumerated-BitGets, encode_choice_index-BitPuts,
  decode_choice_index-BitGets, preamble_bits, encode_sequence_start-BitPuts,
  decode_sequence_start-BitGets,
}
use asn1pp.Per.Whole.{
  whole_bits, encode_constrained_whole_number-BitPuts, decode_constrained_whole_number-BitGets,
}

-- A value of a UPER range whose size is not 2 ^ 64, written by
-- `encode_constrained_whole_number` at any bit of a buffer of octets with room for it, is read
-- back by `decode_constrained_whole_number`, started where it was written; both stop behind the
-- bits that were written, and no other bit of the buffer changes.
pub whole_number-BitCarried :
    (lo hi value : ℕ) (cells : List ℕ) (k : ℕ)
    → lo < 2 ^ 64
    → hi < 2 ^ 64
    → range_of lo hi ≢ 0
    → InRange lo hi value
    → All IsByte cells
    → k + length (whole_bits lo hi value) ≤ length cells * 8
    → BitCarried
        (encode_constrained_whole_number value lo hi)
        (decode_constrained_whole_number lo hi)
        (whole_bits lo hi value)
        value
        cells
        k
whole_number-BitCarried lo hi value cells k l h n r all room =
    BitPuts-BitCarried (encode_constrained_whole_number value lo hi)
      (decode_constrained_whole_number lo hi) (whole_bits lo hi value) value
      (encode_constrained_whole_number-BitPuts lo hi value l h n r)
      (decode_constrained_whole_number-BitGets lo hi value l h n r) cells k all room

-- A UPER OCTET STRING shorter than 2 ^ 29, of the size that is fixed, or whose length the bits
-- of its bounded size hold, written at any bit of a buffer of octets with room for it, is read
-- back by `decode_octet_string`, started where it was written; both stop behind the bits that
-- were written, and no other bit of the buffer changes.
pub octet_string-BitCarried :
    (m : PerMeta) (octets : List ℕ) (cells : List ℕ) (k : ℕ)
    → PerAllowed m (length octets)
    → All IsByte octets
    → All IsByte cells
    → k + length (octet_string_bits m octets) ≤ length cells * 8
    → BitCarried
        (encode_octet_string m octets)
        (decode_octet_string m)
        (octet_string_bits m octets)
        octets
        cells
        k
octet_string-BitCarried m octets cells k a o all room =
    BitPuts-BitCarried (encode_octet_string m octets) (decode_octet_string m)
      (octet_string_bits m octets) octets (encode_octet_string-BitPuts m octets a)
      (decode_octet_string-BitGets m octets a o) cells k all room

-- A UPER length below 2 ^ 29, written at any bit of a buffer of octets with room for it, is
-- read back by `decode_length_determinant`, started where it was written; both stop behind the
-- bits that were written, and no other bit of the buffer changes.
pub length_determinant-BitCarried :
    (n : ℕ) (cells : List ℕ) (k : ℕ)
    → n < 2 ^ 29
    → All IsByte cells
    → k + length (determinant_bits n) ≤ length cells * 8
    → BitCarried
        (encode_length_determinant n)
        (decode_length_determinant)
        (determinant_bits n)
        n
        cells
        k
length_determinant-BitCarried n cells k l all room =
    BitPuts-BitCarried (encode_length_determinant n) (decode_length_determinant)
      (determinant_bits n) n (encode_length_determinant-BitPuts n l)
      (decode_length_determinant-BitGets n l) cells k all room

-- An index of a UPER enumeration with at most 2 ^ 63 names, written at any bit of a buffer of
-- octets with room for it, is read back by `decode_enumerated`, started where it was written;
-- both stop behind the bits that were written, and no other bit of the buffer changes.
pub enumerated-BitCarried :
    (m : PerMeta) (index : ℕ) (cells : List ℕ) (k : ℕ)
    → index < m.normal_index_count
    → m.normal_index_count ≤ 2 ^ 63
    → All IsByte cells
    → k + length (index_bits m.normal_index_count index) ≤ length cells * 8
    → BitCarried
        (encode_enumerated m index)
        (decode_enumerated m)
        (index_bits m.normal_index_count index)
        index
        cells
        k
enumerated-BitCarried m index cells k l w all room =
    BitPuts-BitCarried (encode_enumerated m index) (decode_enumerated m)
      (index_bits m.normal_index_count index) index (encode_enumerated-BitPuts m index l w)
      (decode_enumerated-BitGets m index l w) cells k all room

pub choice_index-BitCarried :
    (m : PerMeta) (index : ℕ) (cells : List ℕ) (k : ℕ)
    → index < m.alternative_count
    → m.alternative_count ≤ 2 ^ 63
    → All IsByte cells
    → k + length (index_bits m.alternative_count index) ≤ length cells * 8
    → BitCarried
        (encode_choice_index m index)
        (decode_choice_index m)
        (index_bits m.alternative_count index)
        index
        cells
        k
choice_index-BitCarried m index cells k l w all room =
    BitPuts-BitCarried (encode_choice_index m index) (decode_choice_index m)
      (index_bits m.alternative_count index) index (encode_choice_index-BitPuts m index l w)
      (decode_choice_index-BitGets m index l w) cells k all room

-- The UPER preamble of a SEQUENCE, with any optional components present, written at any bit of
-- a buffer of octets with room for it, is read back by `decode_sequence_start`, which answers
-- that no extension was chosen and which components are present, started where it was written;
-- both stop behind the bits that were written, and no other bit of the buffer changes.
pub sequence_start-BitCarried :
    (m : PerMeta) (present : List Bool) (cells : List ℕ) (k : ℕ)
    → All IsByte cells
    → k + length (preamble_bits m present) ≤ length cells * 8
    → BitCarried
        (encode_sequence_start m present)
        (decode_sequence_start m (length present))
        (preamble_bits m present)
        (false, present)
        cells
        k
sequence_start-BitCarried m present cells k all room =
    BitPuts-BitCarried (encode_sequence_start m present) (decode_sequence_start m (length present))
      (preamble_bits m present) (false, present) (encode_sequence_start-BitPuts m present)
      (decode_sequence_start-BitGets m present) cells k all room
