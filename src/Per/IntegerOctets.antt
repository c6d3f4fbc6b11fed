-- ===== src/Per/IntegerOctets.antt =====
-- The octets of INTEGERs without a constraint that are not negative, in libs/codec/per/uper_encoder.hpp and
-- uper_decoder.hpp.
use asn1pp.Prelude.{
  ℕ, zero, suc, ◌-◌, ◌*◌, ◌/◌, ◌%◌, ◌^◌, ◌≤◌, ◌<◌, ◌≡◌, refl, sym, ap, ◌∙◌, subst, false, not, List,
  [], ◌++◌, if◌then◌else◌, ltb, ◌==◌, arith, bit_and, ltb-true, ltb-false, eqb-true, eqb-false,
  eq_or_ne, inl, inr, big_endian, length-big_endian, big_endian-IsByte, fold_be, fold_be-big_endian,
}
use asn1pp.Prelude.Bits.{and-80, two-pow-pos}
use native.Mathlib.Nat.{pow-suc, div-lt_iff_lt-mul}
use asn1pp.ErrorCode.{ErrorCode}
use asn1pp.Result.{Op, pure, ensure, ◌>>◌}
use asn1pp.Ber.Integer.{decode_integer_value}
use asn1pp.BitOps.Defs.{BitStream}
use asn1pp.BitOps.Laws.{BitPuts, BitGets}
use asn1pp.BitOps.Numbers.{BitPuts-then, BitGets-then}
use asn1pp.Per.Meta.{PerMeta, count_bytes}
use asn1pp.Per.Counts.{count_bytes-octets}
use asn1pp.Per.Encoder.{encode_length_determinant, value_size, put_value, encode_integer}
use asn1pp.Per.Decoder.{need, read_octets_unaligned, decode_length_determinant, take_integer}
use asn1pp.Per.Lengths.{determinant_bits, encode_length_determinant-BitPuts, BitGets-need}
use asn1pp.Per.LengthReading.{decode_length_determinant-BitGets}
use asn1pp.Per.Strings.{octets_bits, length-octets_bits, read_octets_unaligned-BitGets}
use asn1pp.Per.Whole.{big_endian-top, octets_power, put_value-BitPuts}

-- The octets of a number that is not negative: the first has its highest bit clear.
sized :
    (i v : ℕ)
    → v < 2 ^ 63
    → v < 256 ^ suc i
    → i ≤ 7
    → count_bytes 8 v 0 ≡ suc i
    → (k : ℕ) × (value_size v ≡ suc k) × (v < 128 * 256 ^ k) × (k ≤ 7)
unfolding value_size
sized i v h f w e =
    let positive : 0 < 256 ^ i = omega (arith, octets_power i, two-pow-pos (i * 8)) in
    let octet : v / 256 ^ i < 256 =
      (div-lt_iff_lt-mul {k = 256 ^ i} {x = v} {y = 256} positive).1
        (omega (arith, f, pow-suc 256 i)) in
    let one : suc i - 1 ≡ i = omega arith in
    let place : v / 2 ^ ((suc i - 1) * 8) ≡ v / 256 ^ i =
      ap (λ (j : ℕ). v / 2 ^ (j * 8)) one ∙ ap (λ (d : ℕ). v / d) (octets_power i) in
    let top : bit_and (v / 2 ^ ((suc i - 1) * 8)) 0x80 ≡ v / 256 ^ i / 128 * 128 =
      ap (λ (x : ℕ). bit_and x 0x80) place ∙ and-80 (v / 256 ^ i) octet in
    let below : v / 256 ^ i < 128 → v < 128 * 256 ^ i =
      (div-lt_iff_lt-mul {k = 256 ^ i} {x = v} {y = 128} positive).0 in
    elim (eq_or_ne (v / 256 ^ i / 128) 0) [
      | inl z ↦ (
        i,
        rw
            (
              ltb-true v (2 ^ 63) h,
              e,
              eqb-true (bit_and (v / 2 ^ ((suc i - 1) * 8)) 0x80) 0 (omega (arith, top, z)),
            )
            refl,
        below (omega (arith, z)),
        w,
      )
      | inr ne ↦ (
        suc i,
        rw
            (
              ltb-true v (2 ^ 63) h,
              e,
              eqb-false (bit_and (v / 2 ^ ((suc i - 1) * 8)) 0x80) 0 (omega (arith, top, ne)),
            )
            (omega arith),
        omega (arith, f),
        elim (eq_or_ne i 7) [
          | inl j ↦
              let z : v / 256 ^ i / 128 ≡ 0 = ap (λ (d : ℕ). v / 256 ^ d / 128) j ∙ omega arith in
              absurd (ne z)
          | inr less ↦ omega arith
        ],
      )
    ]

pub value_size-octets :
    (v : ℕ) → v < 2 ^ 63 → (k : ℕ) × (value_size v ≡ suc k) × (v < 128 * 256 ^ k) × (k ≤ 7)
value_size-octets v h = from (count_bytes 8 v 0) (count_bytes-octets v (omega arith)) refl
  where
    from :
        (c : ℕ)
        → (v < 256 ^ c) × (1 ≤ c) × (c ≤ 8)
        → count_bytes 8 v 0 ≡ c
        → (k : ℕ) × (value_size v ≡ suc k) × (v < 128 * 256 ^ k) × (k ≤ 7)
    from zero b e = absurd (omega (arith, b))
    from (suc i) (f, lo, hi) e = sized i v h f (omega arith) e

-- Such octets are read as the number.
pub decoded :
    (k v : ℕ)
    → v < 2 ^ 63
    → v < 128 * 256 ^ k
    → k ≤ 7
    → decode_integer_value (big_endian (suc k) v) ≡ v
unfolding decode_integer_value
decoded k v h b w =
    let positive : 0 < 256 ^ k = omega (arith, octets_power k, two-pow-pos (k * 8)) in
    let small : v / 256 ^ k < 128 =
      (div-lt_iff_lt-mul {k = 256 ^ k} {x = v} {y = 128} positive).1 b in
    let sign : bit_and (v / 256 ^ k % 256) 0x80 ≡ 0 =
      and-80 (v / 256 ^ k % 256) (omega arith) ∙ omega arith in
    ap decode_integer_value (big_endian-top k v)
    ∙ rw (eqb-true (bit_and (v / 256 ^ k % 256) 0x80) 0 sign) (
        ap (fold_be 0) (sym (big_endian-top k v))
        ∙ fold_be-big_endian (suc k) v (omega (arith, b, pow-suc 256 k)) (omega arith))

-- The bits of an INTEGER without a constraint: the count of its octets, and the octets.
abbrev pub integer_bits : ℕ → List ℕ
integer_bits v = determinant_bits (value_size v) ++ octets_bits (big_endian (value_size v) v)

pub encode_integer-BitPuts :
    (m : PerMeta) (v : ℕ)
    → m.has_range_constraint ≡ false
    → v < 2 ^ 63
    → BitPuts (encode_integer m v) (integer_bits v)
unfolding encode_integer
encode_integer-BitPuts m v e h =
    let (k, s, b, w) = value_size-octets v h in
    rw e (
      BitPuts-then (encode_length_determinant (value_size v)) (put_value (value_size v) v)
        (determinant_bits (value_size v)) (octets_bits (big_endian (value_size v) v))
        (encode_length_determinant-BitPuts (value_size v) (omega (arith, s)))
        (put_value-BitPuts (value_size v) v))

pub take_integer-BitGets :
    (v : ℕ) → v < 2 ^ 63 → BitGets take_integer (integer_bits v) (big_endian (value_size v) v)
unfolding take_integer
take_integer-BitGets v h =
    let (k, s, b, w) = value_size-octets v h in
    BitGets-then decode_length_determinant sized_octets (determinant_bits n)
      (octets_bits (big_endian n v)) n (big_endian n v)
      (decode_length_determinant-BitGets n (omega (arith, s)))
      (rw (eqb-false n 0 (omega (arith, s))) (
        BitGets-need (n * 8) (checked n) (octets_bits (big_endian n v)) (big_endian n v)
          (omega (arith, length-octets_bits (big_endian n v), length-big_endian n v))
          (rw (ltb-false 8 n (omega (arith, s))) (
            subst
              (λ (j : ℕ).
                BitGets (read_octets_unaligned j) (octets_bits (big_endian n v)) (big_endian n v))
              (length-big_endian n v)
              (read_octets_unaligned-BitGets (big_endian n v) (big_endian-IsByte n v))))))
  where
    n : ℕ
    n = value_size v

    checked : ℕ → Op BitStream (List ℕ)
    checked j = ensure (not (ltb 8 j)) ErrorCode.value_out_of_range >> read_octets_unaligned j

    sized_octets : ℕ → Op BitStream (List ℕ)
    sized_octets j = if j == 0 then pure [] else (need (j * 8) >> checked j)
