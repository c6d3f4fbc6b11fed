-- ===== src/Per/Whole.antt =====
-- The constrained whole numbers of libs/codec/per/uper_encoder.hpp and uper_decoder.hpp.
use asn1pp.Prelude.{
  ℕ, zero, suc, ◌-◌, ◌*◌, ◌/◌, ◌%◌, ◌^◌, ◌≤◌, ◌<◌, ◌≡◌, ◌≢◌, refl, sym, ap, ◌∙◌, subst, false, List,
  [], ◌∷◌, ◌++◌, if◌then◌else◌, leb, ◌==◌, arith, leb-true, leb-false, eqb-false, big_endian,
  length-big_endian, big_endian-IsByte, fold_be, fold_be-big_endian, bit_and, le_or_lt, inl, inr,
}
use asn1pp.Prelude.Bits.{and-ff}
use native.Mathlib.Nat.{pow-suc, div-div-eq-div-mul}
use asn1pp.Result.{Op, pure, ◌>>=◌, ◌>>◌}
use asn1pp.Int64.{InRange, signed_lt}
use asn1pp.BitOps.Defs.{BitStream, write_bits}
use asn1pp.BitOps.Laws.{BitPuts, BitGets}
use asn1pp.BitOps.Numbers.{
  number_bits, write_bits-BitPuts, BitGets-then, BitGets-pure, BitGets-map, BitPuts-then,
  BitPuts-nothing,
}
use asn1pp.Per.Meta.{minus_64, range_of, bits_needed_for_range, count_bytes}
use asn1pp.Per.Counts.{bits_needed_unsigned-BitLength, count_bytes-octets}
use asn1pp.Per.Encoder.{encode_length_determinant, put_value, encode_constrained_whole_number}
use asn1pp.Per.Decoder.{
  plus_64, read_checked, take_value, decode_length_determinant, decode_large,
  decode_constrained_whole_number,
}
use asn1pp.Per.Lengths.{determinant_bits, encode_length_determinant-BitPuts}
use asn1pp.Per.LengthReading.{decode_length_determinant-BitGets}
use asn1pp.Per.Strings.{octets_bits, read_checked-BitGets, take_value-BitGets}

-- The distance of a value of the range from its lower bound.
distance :
    (lo hi value : ℕ)
    → lo < 2 ^ 64
    → hi < 2 ^ 64
    → range_of lo hi ≢ 0
    → InRange lo hi value
    → minus_64 value lo < range_of lo hi
distance lo hi value l h n r = ground (arith, r.above, r.below, r.int64)

back : (lo value : ℕ) → lo < 2 ^ 64 → value < 2 ^ 64 → plus_64 lo (minus_64 value lo) ≡ value
back lo value l h = omega arith

ordered :
    (lo hi value : ℕ) → InRange lo hi value → lo < 2 ^ 64 → hi < 2 ^ 64 → signed_lt hi lo ≡ false
ordered lo hi value r l h = ground (arith, r.above, r.below)

range_fits :
    (lo hi uv : ℕ)
    → signed_lt hi lo ≡ false
    → range_of lo hi ≢ 0
    → uv < range_of lo hi
    → (uv < 2 ^ bits_needed_for_range lo hi) × (bits_needed_for_range lo hi ≤ 64)
unfolding bits_needed_for_range
range_fits lo hi uv o n h =
    let less : minus_64 (range_of lo hi) 1 ≡ range_of lo hi - 1 = omega arith in
    let (b, l) = bits_needed_unsigned-BitLength (range_of lo hi - 1) (omega arith) in
    rw (o, less) (omega (arith, b.above), l)

-- The upper octet, and the lower ones.
pub big_endian-top : (k n : ℕ) → big_endian (suc k) n ≡ n / 256 ^ k % 256 ∷ big_endian k n
big_endian-top zero n = ap (λ (d : ℕ). d ∷ []) (omega arith)
big_endian-top (suc k) n =
    ap (λ (l : List ℕ). l ++ n % 256 ∷ []) (big_endian-top k (n / 256))
    ∙ ap (λ (d : ℕ). d % 256 ∷ big_endian (suc k) n) top
  where
    top : n / 256 / 256 ^ k ≡ n / 256 ^ suc k
    top = div-div-eq-div-mul n 256 (256 ^ k) ∙ ap (λ (p : ℕ). n / p) (omega (arith, pow-suc 256 k))

pub octets_power : (i : ℕ) → 2 ^ (i * 8) ≡ 256 ^ i
octets_power zero = refl
octets_power (suc i) =
    let e : suc i * 8 ≡ suc (suc (suc (suc (suc (suc (suc (suc (i * 8)))))))) = omega arith in
    ap (λ (j : ℕ). 2 ^ j) e
    ∙ omega (
      arith,
      octets_power i,
      pow-suc 256 i,
      pow-suc 2 (i * 8),
      pow-suc 2 (suc (i * 8)),
      pow-suc 2 (suc (suc (i * 8))),
      pow-suc 2 (suc (suc (suc (i * 8)))),
      pow-suc 2 (suc (suc (suc (suc (i * 8))))),
      pow-suc 2 (suc (suc (suc (suc (suc (i * 8)))))),
      pow-suc 2 (suc (suc (suc (suc (suc (suc (i * 8))))))),
      pow-suc 2 (suc (suc (suc (suc (suc (suc (suc (i * 8)))))))),
    )

pub put_value-BitPuts : (k uv : ℕ) → BitPuts (put_value k uv) (octets_bits (big_endian k uv))
unfolding put_value
put_value-BitPuts zero uv = BitPuts-nothing
put_value-BitPuts (suc k) uv =
    let byte : bit_and (uv / 2 ^ (k * 8)) 0xff ≡ uv / 256 ^ k % 256 =
      and-ff (uv / 2 ^ (k * 8)) ∙ ap (λ (p : ℕ). uv / p % 256) (octets_power k) in
    rw (byte, big_endian-top k uv)
      (BitPuts-then (write_bits (uv / 256 ^ k % 256) 8) (put_value k uv)
        (number_bits 8 (uv / 256 ^ k % 256)) (octets_bits (big_endian k uv))
        (write_bits-BitPuts (uv / 256 ^ k % 256) 8 (omega arith)) (put_value-BitPuts k uv))

-- The octets of a distance, behind their count.
abbrev large_bits : ℕ → List ℕ
large_bits uv =
    determinant_bits (count_bytes 8 uv 0) ++ octets_bits (big_endian (count_bytes 8 uv 0) uv)

-- The bits of a value of a range: its distance from the lower bound, in as many bits as the largest
-- distance takes, or in octets where the range has more than 65536 values.
unfoldable pub whole_bits : ℕ → ℕ → ℕ → List ℕ
whole_bits lo hi value =
    if leb (range_of lo hi) 1
    then []
    else if leb (range_of lo hi) 65536
    then number_bits (bits_needed_for_range lo hi) (minus_64 value lo)
    else large_bits (minus_64 value lo)

module _ (lo hi value : ℕ) (l : lo < 2 ^ 64) (h : hi < 2 ^ 64) (n : range_of lo hi ≢ 0)
    (r : InRange lo hi value) where
  fits : (minus_64 value lo < 2 ^ bits_needed_for_range lo hi) × (bits_needed_for_range lo hi ≤ 64)
  fits =
      range_fits lo hi (minus_64 value lo) (ordered lo hi value r l h) n
        (distance lo hi value l h n r)

  octets :
      (minus_64 value lo < 256 ^ count_bytes 8 (minus_64 value lo) 0)
      × (1 ≤ count_bytes 8 (minus_64 value lo) 0)
      × (count_bytes 8 (minus_64 value lo) 0 ≤ 8)
  octets = count_bytes-octets (minus_64 value lo) (omega arith)

  put_large :
      BitPuts
        (encode_length_determinant (count_bytes 8 (minus_64 value lo) 0)
          >> put_value (count_bytes 8 (minus_64 value lo) 0) (minus_64 value lo))
        (large_bits (minus_64 value lo))
  put_large =
      BitPuts-then (encode_length_determinant k) (put_value k uv) (determinant_bits k)
        (octets_bits (big_endian k uv))
        (encode_length_determinant-BitPuts k (omega (arith, octets))) (put_value-BitPuts k uv)
    where
      uv : ℕ
      uv = minus_64 value lo

      k : ℕ
      k = count_bytes 8 (minus_64 value lo) 0

  get_large : BitGets (decode_large lo) (large_bits (minus_64 value lo)) value
  unfolding decode_large
  get_large =
      BitGets-then decode_length_determinant sized (determinant_bits k)
        (octets_bits (big_endian k uv)) k value
        (decode_length_determinant-BitGets k (omega (arith, octets)))
        (rw (eqb-false k 0 (omega (arith, octets))) (
          BitGets-map (take_value k) (λ bytes. plus_64 lo (fold_be 0 bytes))
            (octets_bits (big_endian k uv)) (big_endian k uv) value
            (take_value-BitGets k (big_endian k uv) (sym (length-big_endian k uv))
              (big_endian-IsByte k uv))
            (ap (plus_64 lo) (fold_be-big_endian k uv octets.0 (omega arith))
              ∙ back lo value l r.int64)))
    where
      uv : ℕ
      uv = minus_64 value lo

      k : ℕ
      k = count_bytes 8 (minus_64 value lo) 0

      sized : ℕ → Op BitStream ℕ
      sized val_bytes =
          if val_bytes == 0
          then pure lo
          else (take_value val_bytes >>= λ bytes. pure (plus_64 lo (fold_be 0 bytes)))

  put_near :
      BitPuts
        (write_bits (minus_64 value lo) (bits_needed_for_range lo hi))
        (number_bits (bits_needed_for_range lo hi) (minus_64 value lo))
  put_near = write_bits-BitPuts (minus_64 value lo) (bits_needed_for_range lo hi) fits.1

  get_near :
      BitGets
        (read_checked (bits_needed_for_range lo hi) >>= λ val. pure (plus_64 lo val))
        (number_bits (bits_needed_for_range lo hi) (minus_64 value lo))
        value
  get_near =
      BitGets-map (read_checked (bits_needed_for_range lo hi)) (plus_64 lo)
        (number_bits (bits_needed_for_range lo hi) (minus_64 value lo)) (minus_64 value lo) value
        (read_checked-BitGets (bits_needed_for_range lo hi) (minus_64 value lo) fits.1 fits.0)
        (back lo value l r.int64)

  pub encode_constrained_whole_number-BitPuts :
      BitPuts (encode_constrained_whole_number value lo hi) (whole_bits lo hi value)
  unfolding encode_constrained_whole_number whole_bits
  encode_constrained_whole_number-BitPuts =
      rw (r.above, r.below)
        (elim (le_or_lt (range_of lo hi) 1) [
          | inl one ↦ rw (leb-true (range_of lo hi) 1 one) BitPuts-nothing
          | inr more ↦ elim (le_or_lt (range_of lo hi) 256) [
            | inl small ↦
                rw
                  (
                    leb-false (range_of lo hi) 1 more,
                    leb-true (range_of lo hi) 256 small,
                    leb-true (range_of lo hi) 65536 (omega arith),
                  )
                  put_near
            | inr wide ↦ elim (le_or_lt (range_of lo hi) 65536) [
              | inl middle ↦
                  rw
                    (
                      leb-false (range_of lo hi) 1 more,
                      leb-false (range_of lo hi) 256 wide,
                      leb-true (range_of lo hi) 65536 middle,
                    )
                    put_near
              | inr large ↦
                  rw
                    (
                      leb-false (range_of lo hi) 1 more,
                      leb-false (range_of lo hi) 256 wide,
                      leb-false (range_of lo hi) 65536 large,
                    )
                    put_large
            ]
          ]
        ])

  pub decode_constrained_whole_number-BitGets :
      BitGets (decode_constrained_whole_number lo hi) (whole_bits lo hi value) value
  unfolding decode_constrained_whole_number whole_bits
  decode_constrained_whole_number-BitGets = elim (le_or_lt (range_of lo hi) 1) [
    | inl one ↦
        let only : lo ≡ value =
          omega (arith, back lo value l r.int64, distance lo hi value l h n r) in
        rw (leb-true (range_of lo hi) 1 one)
          (subst (λ (x : ℕ). BitGets (pure lo) [] x) only (BitGets-pure lo))
    | inr more ↦ elim (le_or_lt (range_of lo hi) 256) [
      | inl small ↦
          rw
            (
              leb-false (range_of lo hi) 1 more,
              leb-true (range_of lo hi) 256 small,
              leb-true (range_of lo hi) 65536 (omega arith),
            )
            get_near
      | inr wide ↦ elim (le_or_lt (range_of lo hi) 65536) [
        | inl middle ↦
            rw
              (
                leb-false (range_of lo hi) 1 more,
                leb-false (range_of lo hi) 256 wide,
                leb-true (range_of lo hi) 65536 middle,
              )
              get_near
        | inr large ↦
            rw
              (
                leb-false (range_of lo hi) 1 more,
                leb-false (range_of lo hi) 256 wide,
                leb-false (range_of lo hi) 65536 large,
              )
              get_large
      ]
    ]
  ]
