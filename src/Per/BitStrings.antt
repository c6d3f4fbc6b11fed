-- ===== src/Per/BitStrings.antt =====
-- The BIT STRINGs of libs/codec/per/uper_encoder.hpp and uper_decoder.hpp.
use asn1pp.Prelude.{
  ℕ, ◌+◌, ◌*◌, ◌%◌, ◌^◌, ◌≤◌, ◌<◌, ◌≡◌, refl, sym, ap, List, ◌++◌, if◌then◌else◌, arith, All,
  IsByte, length, eqb-true, Bool-cases, inl, inr,
}
use asn1pp.Result.{Op, pure, ◌>>=◌, ◌>>◌}
use asn1pp.BitOps.Defs.{BitStream, write_bits}
use asn1pp.BitOps.Laws.{BitPuts, BitGets}
use asn1pp.BitOps.Numbers.{number_bits, write_bits-BitPuts, BitGets-then, BitGets-map, BitPuts-then}
use asn1pp.BitOps.Transfer.{BitCarried, BitPuts-BitCarried}
use asn1pp.Per.Meta.{PerMeta, minus_64}
use asn1pp.Per.Encoder.{
  write_octets_unaligned, encode_length_determinant, bit_length, encode_bit_string, size_bits,
}
use asn1pp.Per.Decoder.{
  read_checked, take_octets, take_bits, byte_length, decode_length_determinant, decode_bit_string,
}
use asn1pp.Per.Lengths.{determinant_bits, encode_length_determinant-BitPuts}
use asn1pp.Per.LengthReading.{decode_length_determinant-BitGets}
use asn1pp.Per.Strings.{
  octets_bits, read_checked-BitGets, take_octets-BitGets, write_octets_unaligned-BitPuts,
  PerAllowed, is_fixed, is_bounded,
}

-- The bits of a BIT STRING: those of its octets, bare where the size is fixed, behind the count of
-- the bits where it is bounded, and else behind a length determinant and the count of unused bits.
unfoldable pub bit_string_bits : PerMeta → List ℕ → ℕ → List ℕ
bit_string_bits m octets unused =
    if is_fixed m
    then octets_bits octets
    else if is_bounded m
    then number_bits (size_bits m) (bit_length octets unused) ++ octets_bits octets
    else determinant_bits (bit_length octets unused) ++ (number_bits 8 unused ++ octets_bits octets)

-- Octets of which some of the last one's bits are unused.
pub record PerBits (m : PerMeta) (octets : List ℕ) (unused : ℕ) : Type 0 where
  pub allowed : PerAllowed m (bit_length octets unused)
  pub last : unused < 8
  pub inside : unused ≤ length octets * 8
  pub short : length octets < 2 ^ 26

encode_bit_string-BitPuts :
    (m : PerMeta) (octets : List ℕ) (unused : ℕ)
    → PerBits m octets unused
    → BitPuts (encode_bit_string m octets unused) (bit_string_bits m octets unused)
unfolding encode_bit_string bit_string_bits
encode_bit_string-BitPuts m octets unused p =
    let n : ℕ = bit_length octets unused in
    elim (Bool-cases (is_fixed m)) [
      | inl t ↦
          rw (t, eqb-true n m.min_size (sym (p.allowed.fixed t)))
            (write_octets_unaligned-BitPuts octets)
      | inr f ↦ elim (Bool-cases (is_bounded m)) [
        | inl t ↦
            rw (f, t)
              (BitPuts-then (write_bits n (size_bits m)) (write_octets_unaligned octets)
                (number_bits (size_bits m) n) (octets_bits octets)
                (write_bits-BitPuts n (size_bits m) p.allowed.width)
                (write_octets_unaligned-BitPuts octets))
        | inr g ↦
            rw (f, g)
              (BitPuts-then (encode_length_determinant n)
                (write_bits unused 8 >> write_octets_unaligned octets) (determinant_bits n)
                (number_bits 8 unused ++ octets_bits octets)
                (encode_length_determinant-BitPuts n p.allowed.counted)
                (BitPuts-then (write_bits unused 8) (write_octets_unaligned octets)
                  (number_bits 8 unused) (octets_bits octets)
                  (write_bits-BitPuts unused 8 (omega arith))
                  (write_octets_unaligned-BitPuts octets)))
      ]
    ]

byte_count :
    (m : PerMeta) (octets : List ℕ) (unused : ℕ)
    → PerBits m octets unused
    → byte_length (bit_length octets unused) ≡ length octets
byte_count m octets unused p = omega (arith, p.last, p.inside, p.short)

unused_count :
    (m : PerMeta) (octets : List ℕ) (unused : ℕ)
    → PerBits m octets unused
    → minus_64 (byte_length (bit_length octets unused) * 8) (bit_length octets unused) % 256
      ≡ unused
unused_count m octets unused p = omega (arith, p.last, p.inside, p.short)

take_bits-BitGets :
    (m : PerMeta) (octets : List ℕ) (unused : ℕ)
    → PerBits m octets unused
    → All IsByte octets
    → BitGets (take_bits (bit_length octets unused)) (octets_bits octets) (octets, unused)
take_bits-BitGets m octets unused p all =
    let n : ℕ = bit_length octets unused in
    BitGets-map (take_octets (byte_length n)) (λ xs. (xs, minus_64 (byte_length n * 8) n % 256))
      (octets_bits octets) octets (octets, unused)
      (take_octets-BitGets (byte_length n) octets (byte_count m octets unused p) all)
      (ap (λ u. (octets, u)) (unused_count m octets unused p))

decode_bit_string-BitGets :
    (m : PerMeta) (octets : List ℕ) (unused : ℕ)
    → PerBits m octets unused
    → All IsByte octets
    → BitGets (decode_bit_string m) (bit_string_bits m octets unused) (octets, unused)
unfolding decode_bit_string bit_string_bits
decode_bit_string-BitGets m octets unused p all = elim (Bool-cases (is_fixed m)) [
  | inl t ↦ rw (t, p.allowed.fixed t) (take_bits-BitGets m octets unused p all)
  | inr f ↦ elim (Bool-cases (is_bounded m)) [
    | inl t ↦
        rw (f, t)
          (BitGets-then (read_checked (size_bits m)) take_bits (number_bits (size_bits m) n)
            (octets_bits octets) n (octets, unused)
            (read_checked-BitGets (size_bits m) n p.allowed.width (p.allowed.bounded t))
            (take_bits-BitGets m octets unused p all))
    | inr g ↦
        rw (f, g)
          (BitGets-then decode_length_determinant behind (determinant_bits n)
            (number_bits 8 unused ++ octets_bits octets) n (octets, unused)
            (decode_length_determinant-BitGets n p.allowed.counted)
            (BitGets-then (read_checked 8) (contents n) (number_bits 8 unused) (octets_bits octets)
              unused (octets, unused)
              (read_checked-BitGets 8 unused (omega arith) (omega (arith, p.last)))
              (BitGets-map (take_octets (byte_length n)) (λ xs. (xs, unused)) (octets_bits octets)
                octets (octets, unused)
                (take_octets-BitGets (byte_length n) octets (byte_count m octets unused p) all)
                refl)))
  ]
]
  where
    n : ℕ
    n = bit_length octets unused

    contents : ℕ → ℕ → Op BitStream (List ℕ × ℕ)
    contents bit_len u = take_octets (byte_length bit_len) >>= λ xs. pure (xs, u)

    behind : ℕ → Op BitStream (List ℕ × ℕ)
    behind bit_len = read_checked 8 >>= contents bit_len

-- A UPER BIT STRING of fewer than 2 ^ 26 octets, with at most 7 unused bits, and none in an
-- empty one, of the size that is fixed, or whose count of bits is held by the bits of its
-- bounded size, and below 2 ^ 29 bits, written at any bit of a buffer of octets with room for
-- it, is read back by `decode_bit_string`, started where it was written; both stop behind the
-- bits that were written, and no other bit of the buffer changes.
pub bit_string-BitCarried :
    (m : PerMeta) (octets : List ℕ) (unused : ℕ) (cells : List ℕ) (k : ℕ)
    → PerBits m octets unused
    → All IsByte octets
    → All IsByte cells
    → k + length (bit_string_bits m octets unused) ≤ length cells * 8
    → BitCarried
        (encode_bit_string m octets unused)
        (decode_bit_string m)
        (bit_string_bits m octets unused)
        (octets, unused)
        cells
        k
bit_string-BitCarried m octets unused cells k p o all room =
    BitPuts-BitCarried (encode_bit_string m octets unused) (decode_bit_string m)
      (bit_string_bits m octets unused) (octets, unused)
      (encode_bit_string-BitPuts m octets unused p) (decode_bit_string-BitGets m octets unused p o)
      cells k all room
