-- ===== src/Per/Lengths.antt =====
-- The lengths of libs/codec/per/uper_encoder.hpp and uper_decoder.hpp.
use asn1pp.Prelude.{
  ℕ, ◌+◌, ◌*◌, ◌/◌, ◌%◌, ◌^◌, ◌≤◌, ◌<◌, ◌≡◌, ap, ◌∙◌, List, ◌++◌, if◌then◌else◌, leb, arith, length,
  length-append, bit_and, bit_or, leb-true, leb-false, ltb-false, le_or_lt, inl, inr,
}
use asn1pp.Prelude.Bits.{and-3fff, and-1f, and-ff, or-fields}
use asn1pp.Result.{Op, ◌>>◌}
use asn1pp.BitOps.Defs.{BitStream}
use asn1pp.BitOps.Laws.{BitPuts, BitGets, held_length}
use asn1pp.BitOps.Numbers.{number_bits, write_bits-BitPuts}
use asn1pp.Per.Encoder.{encode_length_determinant, four_bytes}
use asn1pp.Per.Decoder.{need, need_octets}

-- The bits that are asked for are there.
pub BitGets-need {ℓ} :
    {A : Type ℓ} (n : ℕ) (d : Op BitStream A) (bs : List ℕ) (a : A)
    → n ≤ length bs
    → BitGets d bs a
    → BitGets (need n >> d) bs a
BitGets-need n d bs a h g cells pre rest k =
    rw
      (ltb-false (length cells * 8) (length pre + n) (
        omega (
          arith,
          held_length (pre ++ (bs ++ rest)) cells k,
          length-append pre (bs ++ rest),
          length-append bs rest,
        )))
      (g cells pre rest k)

-- A sum that is cut to 64 bits is no larger, so octets that are there are found.
pub BitGets-need_octets {ℓ} :
    {A : Type ℓ} (n : ℕ) (d : Op BitStream A) (bs : List ℕ) (a : A)
    → n * 8 ≤ length bs
    → BitGets d bs a
    → BitGets (need_octets n >> d) bs a
BitGets-need_octets n d bs a h g cells pre rest k =
    rw
      (ltb-false (length cells * 8) ((length pre + n * 8) % 2 ^ 64) (
        omega (
          arith,
          held_length (pre ++ (bs ++ rest)) cells k,
          length-append pre (bs ++ rest),
          length-append bs rest,
        )))
      (g cells pre rest k)

-- The length determinant of PER: one octet up to 127, two with the bits 10 in front up to 16383,
-- and else four with the bits 110 in front.
unfoldable pub determinant_bits : ℕ → List ℕ
determinant_bits n =
    if leb n 127
    then number_bits 8 n
    else if leb n 16383
    then number_bits 16 (0x8000 + n)
    else number_bits 32 (0xc0000000 + n)

two_bytes : (n : ℕ) → n ≤ 16383 → bit_or 0x8000 (bit_and n 0x3fff) ≡ 0x8000 + n
two_bytes n h =
    omega (arith, and-3fff n, or-fields 14 2 (bit_and n 0x3fff) (omega (arith, and-3fff n)))

-- Fields of 8 bits behind a first one, joined.
pub fields :
    (a b c d : ℕ)
    → b < 256
    → c < 256
    → d < 256
    → bit_or (bit_or (bit_or (a * 2 ^ 24) (b * 2 ^ 16)) (c * 2 ^ 8)) d
      ≡ ((a * 256 + b) * 256 + c) * 256 + d
fields a b c d hb hc hd =
    ap (λ (x : ℕ). bit_or (bit_or x (c * 2 ^ 8)) d) first
    ∙ ap (λ (x : ℕ). bit_or x d) second
    ∙ or-fields 8 ((a * 256 + b) * 256 + c) d hd
    ∙ omega arith
  where
    first : bit_or (a * 2 ^ 24) (b * 2 ^ 16) ≡ (a * 256 + b) * 256 * 2 ^ 8
    first = omega (arith, or-fields 24 a (b * 2 ^ 16) (omega arith))

    second : bit_or ((a * 256 + b) * 256 * 2 ^ 8) (c * 2 ^ 8) ≡ ((a * 256 + b) * 256 + c) * 2 ^ 8
    second = omega (
      arith,
      ap (λ (x : ℕ). bit_or x (c * 2 ^ 8)) shifted,
      or-fields 16 (a * 256 + b) (c * 2 ^ 8) (omega arith),
    )
      where
        shifted : (a * 256 + b) * 256 * 2 ^ 8 ≡ (a * 256 + b) * 2 ^ 16
        shifted = omega arith

four_bytes-eq : (n : ℕ) → n < 2 ^ 29 → four_bytes n ≡ 0xc0000000 + n
four_bytes-eq n h =
    ap
      (λ (x : ℕ).
        bit_or
          (bit_or (bit_or x (bit_and (n / 2 ^ 16) 0xff * 2 ^ 16))
            (bit_and (n / 2 ^ 8) 0xff * 2 ^ 8))
          (bit_and n 0xff))
      first
    ∙ fields (192 + n / 2 ^ 24) (bit_and (n / 2 ^ 16) 0xff) (bit_and (n / 2 ^ 8) 0xff)
        (bit_and n 0xff) (omega (arith, and-ff (n / 2 ^ 16))) (omega (arith, and-ff (n / 2 ^ 8)))
        (omega (arith, and-ff n))
    ∙ omega (arith, and-ff (n / 2 ^ 16), and-ff (n / 2 ^ 8), and-ff n)
  where
    first : bit_or 0xc0000000 (bit_and (n / 2 ^ 24) 0x1f * 2 ^ 24) ≡ (192 + n / 2 ^ 24) * 2 ^ 24
    first = omega (
      arith,
      and-1f (n / 2 ^ 24),
      or-fields 29 6 (bit_and (n / 2 ^ 24) 0x1f * 2 ^ 24) (omega (arith, and-1f (n / 2 ^ 24))),
    )

-- `encode_length_determinant` of a length below 2 ^ 29.
pub encode_length_determinant-BitPuts :
    (n : ℕ) → n < 2 ^ 29 → BitPuts (encode_length_determinant n) (determinant_bits n)
unfolding encode_length_determinant determinant_bits
encode_length_determinant-BitPuts n h = elim (le_or_lt n 127) [
  | inl short ↦ rw (leb-true n 127 short) (write_bits-BitPuts n 8 (omega arith))
  | inr more ↦ elim (le_or_lt n 16383) [
    | inl middle ↦
        rw (leb-false n 127 more, leb-true n 16383 middle, two_bytes n middle)
          (write_bits-BitPuts (0x8000 + n) 16 (omega arith))
    | inr long ↦
        rw
          (
            leb-false n 127 more,
            leb-false n 16383 long,
            leb-true n 0x3fffffff (omega arith),
            four_bytes-eq n h,
          )
          (write_bits-BitPuts (0xc0000000 + n) 32 (omega arith))
  ]
]
