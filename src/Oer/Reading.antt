-- ===== src/Oer/Reading.antt =====
-- What libs/codec/oer/decoder.hpp reads in front of octets that encoder.hpp writes.
use asn1pp.Prelude.{
  ℕ, ◌+◌, ◌*◌, ◌/◌, ◌%◌, ◌^◌, ◌≤◌, ◌<◌, ◌≡◌, refl, sym, ap, Bool, true, false, not, ◌||◌, List, [],
  ◌∷◌, ◌++◌, if◌then◌else◌, ltb, length, ltb-false, leb-true, leb-false, eqb-true, eqb-false,
  big_endian, bit_and, bit_or, fold_be-big_endian, length-big_endian, arith, le_or_lt, eq_or_ne,
  Bool-cases, inl, inr, ◌⊎◌,
}
use asn1pp.Prelude.Bits.{and-80, and-c0, and-3f, or-fields}
use asn1pp.ErrorCode.{ErrorCode}
use asn1pp.Result.{Op, pure, ensure, ◌>>◌, ◌>>=◌}
use asn1pp.Buffer.{BufferView, Gets, Gets-then, Gets-map, Gets-copy, skip-at}
use asn1pp.Oer.Meta.{OerMeta, index_byte_width}
use asn1pp.Oer.Encoder.{size_byte_width}
use asn1pp.Oer.Decoder.{
  read_be_bytes, take_checked, decode_length_determinant, decode_sized, decode_octet_string,
  decode_index, decode_boolean,
}
use asn1pp.Oer.Writing.{determinant_octets}
use asn1pp.Oer.Strings.{counted_octets, index_width-cases, octet_string_octets, Allowed, fixed_size}

-- A first octet whose two upper bits are known.
high_bits : (x q : ℕ) → x < 256 → x / 64 ≡ q → bit_and x 0xc0 ≡ q * 64
high_bits x q h e = omega (arith, and-c0 x h)

determinant_one : (n : ℕ) → n ≤ 127 → Gets decode_length_determinant (n ∷ []) n
unfolding decode_length_determinant
determinant_one n h b rest =
    rw
      (
        ltb-false (length (n ∷ rest)) 1 (omega arith),
        eqb-true (bit_and n 0x80) 0 (omega (arith, and-80 n (omega arith))),
        skip-at 1 b (n ∷ []) rest refl,
      )
      refl

determinant_two :
    (n : ℕ) → n ≤ 16383 → Gets decode_length_determinant ((128 + n / 256) ∷ n % 256 ∷ []) n
unfolding decode_length_determinant
determinant_two n h b rest =
    rw
      (
        ltb-false (length (x ∷ y ∷ rest)) 1 (omega arith),
        eqb-false (bit_and x 0x80) 0 (omega (arith, and-80 x (omega arith))),
        eqb-true (bit_and x 0xc0) 0x80 (omega (arith, and-c0 x (omega arith))),
        ltb-false (length (x ∷ y ∷ rest)) 2 (omega arith),
        skip-at 2 b (x ∷ y ∷ []) rest refl,
        joined,
      )
      refl
  where
    x : ℕ
    x = 128 + n / 256

    y : ℕ
    y = n % 256

    joined : bit_or (bit_and (128 + n / 256) 0x3f * 2 ^ 8) (n % 256) ≡ n
    joined = omega (
      arith,
      and-3f (128 + n / 256),
      or-fields 8 (bit_and (128 + n / 256) 0x3f) (n % 256) (omega arith),
    )

determinant_three :
    (n : ℕ) → n ≤ 65535 → Gets decode_length_determinant (0xc0 ∷ n / 256 ∷ n % 256 ∷ []) n
unfolding decode_length_determinant
determinant_three n h b rest =
    rw
      (
        ltb-false (length (0xc0 ∷ n / 256 ∷ n % 256 ∷ rest)) 1 (omega arith),
        ltb-false (length (0xc0 ∷ n / 256 ∷ n % 256 ∷ rest)) 3 (omega arith),
        skip-at 3 b (0xc0 ∷ n / 256 ∷ n % 256 ∷ []) rest refl,
        joined,
      )
      refl
  where
    joined : bit_or (n / 256 * 2 ^ 8) (n % 256) ≡ n
    joined = omega (arith, or-fields 8 (n / 256) (n % 256) (omega arith))

pub decode_length_determinant-Gets :
    (n : ℕ) → n ≤ 65535 → Gets decode_length_determinant (determinant_octets n) n
unfolding determinant_octets
decode_length_determinant-Gets n h = elim (le_or_lt n 127) [
  | inl short ↦ rw (leb-true n 127 short) (determinant_one n short)
  | inr more ↦ elim (le_or_lt n 16383) [
    | inl middle ↦ rw (leb-false n 127 more, leb-true n 16383 middle) (determinant_two n middle)
    | inr long ↦ rw (leb-false n 127 more, leb-false n 16383 long) (determinant_three n h)
  ]
]

-- A number of fixed width.
pub number-Gets :
    (w n : ℕ)
    → n < 256 ^ w
    → n < 2 ^ 64
    → Gets (take_checked w >>= λ octets. pure (read_be_bytes octets)) (big_endian w n) n
unfolding read_be_bytes
number-Gets w n h k =
    Gets-map (take_checked w) read_be_bytes (big_endian w n) (big_endian w n) n
      (Gets-copy w (big_endian w n) (sym (length-big_endian w n))) (fold_be-big_endian w n h k)

below_width : (w n : ℕ) → (w ≡ 1) ⊎ ((w ≡ 2) ⊎ (w ≡ 4)) → n < 256 ^ w → n < 2 ^ 64
below_width w n (inl e) k = omega (arith, ap (λ (v : ℕ). 256 ^ v) e)
below_width w n (inr (inl e)) k = omega (arith, ap (λ (v : ℕ). 256 ^ v) e)
below_width w n (inr (inr e)) k = omega (arith, ap (λ (v : ℕ). 256 ^ v) e)

pub decode_index-Gets :
    (count index : ℕ)
    → index < 256 ^ index_byte_width count
    → Gets (decode_index count) (big_endian (index_byte_width count) index) index
decode_index-Gets count index h =
    number-Gets (index_byte_width count) index h
      (below_width (index_byte_width count) index (index_width-cases count) h)

pub decode_boolean-Gets : (x : Bool) → Gets decode_boolean ((if x then 0xff else 0) ∷ []) x
unfolding decode_boolean
decode_boolean-Gets true b rest =
    rw (ltb-false (length (0xff ∷ rest)) 1 (omega arith), skip-at 1 b (0xff ∷ []) rest refl) refl
decode_boolean-Gets false b rest =
    rw (ltb-false (length (0 ∷ rest)) 1 (omega arith), skip-at 1 b (0 ∷ []) rest refl) refl

-- Octets behind their length determinant.
pub counted-Gets :
    (octets : List ℕ)
    → length octets ≤ 65535
    → Gets
        (decode_length_determinant >>= λ data_len. take_checked data_len)
        (counted_octets octets)
        octets
counted-Gets octets h =
    Gets-then decode_length_determinant take_checked (determinant_octets (length octets)) octets
      (length octets) octets (decode_length_determinant-Gets (length octets) h)
      (Gets-copy (length octets) octets refl)

size_fits : (hi n : ℕ) → n ≤ hi → n < 2 ^ 32 → n < 256 ^ size_byte_width hi
size_fits hi n h k = elim (le_or_lt hi 255) [
  | inl small ↦ rw (leb-true hi 255 small) (omega arith)
  | inr more ↦ elim (le_or_lt hi 65535) [
    | inl middle ↦ rw (leb-false hi 255 more, leb-true hi 65535 middle) (omega arith)
    | inr large ↦ rw (leb-false hi 255 more, leb-false hi 65535 large) (omega arith)
  ]
]

read_size : (hi n : ℕ) → n ≤ hi → n < 2 ^ 32 → read_be_bytes (big_endian (size_byte_width hi) n) ≡ n
unfolding read_be_bytes
read_size hi n h k = fold_be-big_endian (size_byte_width hi) n (size_fits hi n h k) (omega arith)

decode_sized-Gets :
    (lo hi : ℕ) (octets : List ℕ)
    → lo ≤ length octets
    → length octets ≤ hi
    → length octets < 2 ^ 32
    → Gets (decode_sized lo hi) (big_endian (size_byte_width hi) (length octets) ++ octets) octets
unfolding decode_sized
decode_sized-Gets lo hi octets l h k =
    Gets-then (take_checked (size_byte_width hi)) checked (big_endian (size_byte_width hi) n) octets
      (big_endian (size_byte_width hi) n) octets
      (Gets-copy (size_byte_width hi) (big_endian (size_byte_width hi) n)
        (sym (length-big_endian (size_byte_width hi) n)))
      (λ b rest.
        rw (read_size hi n h k, ltb-false n lo l, ltb-false hi n h)
          (Gets-copy n octets refl b rest))
  where
    n : ℕ
    n = length octets

    checked : List ℕ → Op BufferView (List ℕ)
    checked bytes =
        ensure (not (ltb (read_be_bytes bytes) lo || ltb hi (read_be_bytes bytes)))
          ErrorCode.constraint_violation
        >> take_checked (read_be_bytes bytes)

pub decode_octet_string-Gets :
    (m : OerMeta) (octets : List ℕ)
    → Allowed m (length octets)
    → length octets < 2 ^ 32
    → Gets (decode_octet_string m) (octet_string_octets m octets) octets
unfolding decode_octet_string octet_string_octets
decode_octet_string-Gets m octets a k = elim (Bool-cases m.has_size_constraint) [
  | inl t ↦ elim (eq_or_ne m.min_size m.max_size) [
    | inl e ↦
        rw (t, eqb-true m.min_size m.max_size e)
          (Gets-copy m.min_size octets (fixed_size m (length octets) t e a))
    | inr ne ↦
        rw (t, eqb-false m.min_size m.max_size ne)
          (decode_sized-Gets m.min_size m.max_size octets (a.lower t) (a.upper t) k)
  ]
  | inr f ↦ rw f (counted-Gets octets (a.counted f))
]
