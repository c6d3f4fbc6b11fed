-- ===== src/Per/Negative.antt =====
-- The INTEGER without constraint of libs/codec/per/uper_encoder.hpp: how many octets negative numbers
-- take.
use asn1pp.Prelude.{
  ℕ, ◌-◌, ◌*◌, ◌/◌, ◌%◌, ◌^◌, ◌≤◌, ◌<◌, ◌≡◌, refl, ◌∙◌, false, arith, bit_and, ltb-true, ltb-false,
  eqb-true,
}
use asn1pp.Prelude.Bits.{and-ff, and-80}
use asn1pp.Per.Meta.{PerMeta, count_bytes}
use asn1pp.Per.Encoder.{value_size, put_value, encode_integer}

one_octet : (n : ℕ) → n < 256 → count_bytes 8 n 0 ≡ 1
unfolding count_bytes
one_octet n h = rw (eqb-true (n / 2 ^ 8) 0 (omega arith)) refl

negative_size : (k : ℕ) → 1 ≤ k → k ≤ 256 → value_size (2 ^ 64 - k) ≡ 1
unfolding value_size
negative_size k l h =
    rw (ltb-false (2 ^ 64 - k) (2 ^ 63) (omega arith))
      (one_octet (2 ^ 64 - 1 - (2 ^ 64 - k)) (omega arith))

small_size : (n : ℕ) → n < 128 → value_size n ≡ 1
unfolding value_size
small_size n h =
    let bit : bit_and (n / 2 ^ ((1 - 1) * 8)) 0x80 ≡ 0 =
      and-80 (n / 1) (omega arith) ∙ omega arith in
    rw (ltb-true n (2 ^ 63) (omega arith), one_octet n (omega arith), bit) refl

low_octet : (n v : ℕ) → n % 256 ≡ v % 256 → put_value 1 n ≡ put_value 1 v
unfolding put_value
low_octet n v e =
    let same : bit_and (n / 2 ^ (0 * 8)) 0xff ≡ bit_and (v / 2 ^ (0 * 8)) 0xff =
      omega (arith, and-ff (n / 2 ^ (0 * 8)), and-ff (v / 2 ^ (0 * 8)), e) in
    rw same refl

-- Without a constraint, UPER writes each of the numbers from -256 to -129 exactly as the number
-- that is 256 larger.
pub encode_integer-negative_octet :
    (m : PerMeta) (k : ℕ)
    → m.has_range_constraint ≡ false
    → 128 < k
    → k ≤ 256
    → encode_integer m (2 ^ 64 - k) ≡ encode_integer m (256 - k)
unfolding encode_integer
encode_integer-negative_octet m k f l h =
    rw
      (
        f,
        negative_size k (omega arith) h,
        small_size (256 - k) (omega arith),
        low_octet (2 ^ 64 - k) (256 - k) (omega arith),
      )
      refl
