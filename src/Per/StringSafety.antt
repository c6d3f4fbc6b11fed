-- ===== src/Per/StringSafety.antt =====
-- The strings of libs/codec/per/uper_decoder.hpp on any bytes at all.
use asn1pp.Prelude.{
  ℕ, ◌+◌, ◌*◌, ◌%◌, ◌^◌, ◌≤◌, ◌<◌, ◌≡◌, ◌≢◌, refl, ap, ◌∙◌, Bool, true, false, ◌&&◌, List, leb,
  arith, length, le_or_lt, eq_or_ne, ltb-true, ltb-false, leb-false, Bool-cases, inl, inr,
}
use asn1pp.ErrorCode.{ErrorCode}
use asn1pp.Result.{Result, continue, ok, err, returns, Op, pure, ◌>>=◌}
use asn1pp.BitOps.Defs.{BitStream, stream}
use asn1pp.Per.Meta.{PerMeta, minus_64}
use asn1pp.Per.Counts.{bits_needed_unsigned-BitLength}
use asn1pp.Per.Encoder.{size_range, size_bits}
use asn1pp.Per.Decoder.{
  take_octets, byte_length, take_bits, read_checked, decode_length_determinant, decode_octet_string,
  decode_bit_string,
}
use asn1pp.Per.Strings.{is_fixed, is_bounded}
use asn1pp.Per.Reading.{BitMoved, got_octets}
use asn1pp.Per.Answers.{
  Kept, BitAnswers, read_checked-BitAnswers, IsLength, decode_length_determinant-BitAnswers,
}
use asn1pp.Per.Safety.{needed}

-- Whatever the bytes of a buffer shorter than 2 ^ 60 octets, where no sum of bits leaves 64 bits.
abbrev SmallReads {ℓ} : {A : Type ℓ} → Op BitStream A → Type ℓ
SmallReads m =
    (cells : List ℕ) (k : ℕ)
    → length cells < 2 ^ 60
    → k ≤ length cells * 8
    → BitMoved cells k (m (stream cells k))

-- What follows may rely on the property of the answer.
bind-SmallReads {ℓ} :
    {B : Type ℓ} (P : ℕ → Type 0) (m : Op BitStream ℕ) (f : ℕ → Op BitStream B)
    → BitAnswers P m
    → ((n : ℕ) → P n → SmallReads (f n))
    → SmallReads (m >>= f)
bind-SmallReads P m f p q cells k s h = let (r, j, e, l, b, a) = p cells k h in go r j e l b a
  where
    go :
        (r : Result ℕ) (j : ℕ)
        → m (stream cells k) ≡ returns r (stream cells j)
        → k ≤ j
        → j ≤ length cells * 8
        → Kept P r
        → BitMoved cells k ((m >>= f) (stream cells k))
    go (ok n) j e l b a =
        let (r, i, d, g, c) = q n a cells j s b in
        (r, i, ap (λ o. continue o f) e ∙ d, omega arith, c)
    go (err x) j e l b a = (err x, j, ap (λ o. continue o f) e, l, b)

then-SmallReads {ℓ κ} :
    {A : Type ℓ} {B : Type κ} (m : Op BitStream A) (g : A → B)
    → SmallReads m
    → SmallReads (m >>= λ a. pure (g a))
then-SmallReads {A = A} m g p cells k s h = let (r, j, e, l, b) = p cells k s h in go r j e l b
  where
    go :
        (r : Result A) (j : ℕ)
        → m (stream cells k) ≡ returns r (stream cells j)
        → k ≤ j
        → j ≤ length cells * 8
        → BitMoved cells k ((m >>= λ a. pure (g a)) (stream cells k))
    go (ok a) j e l b = (ok (g a), j, ap (λ o. continue o (λ a. pure (g a))) e, l, b)
    go (err x) j e l b = (err x, j, ap (λ o. continue o (λ a. pure (g a))) e, l, b)

take_octets-SmallReads : (count : ℕ) → count < 2 ^ 60 → SmallReads (take_octets count)
take_octets-SmallReads count c cells k s h =
    let whole : (k + count * 8) % 2 ^ 64 ≡ k + count * 8 = omega arith in
    elim (le_or_lt (k + count * 8) (length cells * 8)) [
      | inl room ↦
          let (xs, e) = got_octets count cells k room in
          rw (ltb-false (length cells * 8) ((k + count * 8) % 2 ^ 64) (omega arith))
            (ok xs, k + count * 8, e, omega arith, room)
      | inr short ↦
          rw (ltb-true (length cells * 8) ((k + count * 8) % 2 ^ 64) (omega arith))
            (err ErrorCode.buffer_underflow, k, refl, omega arith, h)
    ]

take_bits-SmallReads : (n : ℕ) → n < 2 ^ 60 → SmallReads (take_bits n)
take_bits-SmallReads n h =
    then-SmallReads (take_octets (byte_length n)) (λ xs. (xs, minus_64 (byte_length n * 8) n % 256))
      (take_octets-SmallReads (byte_length n) (omega arith))

-- Sizes that are counted without leaving 64 bits: a fixed size below 2 ^ 60, and bounds that do
-- not span all sizes, as those of SIZE(0..MAX) do.
pub record SmallSizes (m : PerMeta) : Type 0 where
  pub fixed : is_fixed m ≡ true → m.min_size < 2 ^ 60
  pub bounded : is_bounded m ≡ true → size_range m ≢ 0

bounded_length :
    (m : PerMeta) (n : ℕ) → SmallSizes m → is_bounded m ≡ true → n < 2 ^ size_bits m → n < 2 ^ 60
bounded_length m n z t h = elim (le_or_lt (size_range m) 65536) [
  | inr large ↦ absurd (no_bound m.has_size_constraint (leb-false (size_range m) 65536 large) t)
  | inl small ↦
      let (b, l) = bits_needed_unsigned-BitLength (minus_64 (size_range m) 1) (omega arith) in
      let less : minus_64 (size_range m) 1 ≤ 65535 = omega (arith, z.bounded t) in
      elim (eq_or_ne (minus_64 (size_range m) 1) 0) [
        | inl e ↦ omega (arith, ap (λ (j : ℕ). 2 ^ j) (b.none_of_zero e))
        | inr ne ↦ omega (arith, b.below (omega arith))
      ]
]
  where
    no_bound :
        (c : Bool) → leb (size_range m) 65536 ≡ false → (c && leb (size_range m) 65536) ≡ true → ⊥
    no_bound true f e = absurd (cc)
    no_bound false f e = absurd (cc)

-- The UPER `decode_octet_string`, for any constraint with a fixed size below 2 ^ 60 or with
-- bounds that do not span all sizes of 64 bits, or for none, returns on every buffer shorter
-- than 2 ^ 60 octets and from every bit of it. It reads no byte outside the buffer and stops
-- neither before the bit where it started nor behind the last bit.
pub decode_octet_string-BitMoved :
    (m : PerMeta) (cells : List ℕ) (k : ℕ)
    → SmallSizes m
    → length cells < 2 ^ 60
    → k ≤ length cells * 8
    → BitMoved cells k (decode_octet_string m (stream cells k))
unfolding decode_octet_string
decode_octet_string-BitMoved m cells k z s h = elim (Bool-cases (is_fixed m)) [
  | inl t ↦ rw t (take_octets-SmallReads m.min_size (z.fixed t) cells k s h)
  | inr f ↦ elim (Bool-cases (is_bounded m)) [
    | inl t ↦
        rw (f, t)
          (bind-SmallReads (λ n. n < 2 ^ size_bits m) (read_checked (size_bits m)) take_octets
            (read_checked-BitAnswers (size_bits m) (needed (size_range m)))
            (λ n b. take_octets-SmallReads n (bounded_length m n z t b)) cells k s h)
    | inr g ↦
        rw (f, g)
          (bind-SmallReads IsLength decode_length_determinant take_octets
            decode_length_determinant-BitAnswers (λ n b. take_octets-SmallReads n (omega arith))
            cells k s h)
  ]
]

-- The UPER `decode_bit_string`, for any constraint with a fixed size below 2 ^ 60 or with
-- bounds that do not span all sizes of 64 bits, or for none, returns on every buffer shorter
-- than 2 ^ 60 octets and from every bit of it. It reads no byte outside the buffer and stops
-- neither before the bit where it started nor behind the last bit.
pub decode_bit_string-BitMoved :
    (m : PerMeta) (cells : List ℕ) (k : ℕ)
    → SmallSizes m
    → length cells < 2 ^ 60
    → k ≤ length cells * 8
    → BitMoved cells k (decode_bit_string m (stream cells k))
unfolding decode_bit_string
decode_bit_string-BitMoved m cells k z s h = elim (Bool-cases (is_fixed m)) [
  | inl t ↦ rw t (take_bits-SmallReads m.min_size (z.fixed t) cells k s h)
  | inr f ↦ elim (Bool-cases (is_bounded m)) [
    | inl t ↦
        rw (f, t)
          (bind-SmallReads (λ n. n < 2 ^ size_bits m) (read_checked (size_bits m)) take_bits
            (read_checked-BitAnswers (size_bits m) (needed (size_range m)))
            (λ n b. take_bits-SmallReads n (bounded_length m n z t b)) cells k s h)
    | inr g ↦
        rw (f, g)
          (bind-SmallReads IsLength decode_length_determinant behind
            decode_length_determinant-BitAnswers
            (λ n b.
              bind-SmallReads (λ u. u < 2 ^ 8) (read_checked 8) (contents n)
                (read_checked-BitAnswers 8 (omega arith))
                λ u _.
                  then-SmallReads (take_octets (byte_length n)) (λ xs. (xs, u))
                    (take_octets-SmallReads (byte_length n) (omega arith)))
            cells k s h)
  ]
]
  where
    contents : ℕ → ℕ → Op BitStream (List ℕ × ℕ)
    contents n u = take_octets (byte_length n) >>= λ xs. pure (xs, u)

    behind : ℕ → Op BitStream (List ℕ × ℕ)
    behind n = read_checked 8 >>= contents n
