-- ===== src/Oer/BitStrings.antt =====
-- The BIT STRINGs of libs/codec/oer: what is written, and what is read from it.
use asn1pp.Prelude.{
  ℕ, suc, ◌+◌, ◌-◌, ◌%◌, ◌^◌, ◌≤◌, ◌<◌, ◌≡◌, ◌≢◌, refl, sym, ap, true, not, List, [], ◌∷◌, ◌++◌,
  if◌then◌else◌, ltb, leb, ◌==◌, length, length-append, take-append, ltb-false, leb-true, leb-false,
  eqb-true, eqb-false, big_endian, length-big_endian, arith, le_or_lt, eq_or_ne, Bool-cases, inl,
  inr, drop,
}
use asn1pp.ErrorCode.{ErrorCode}
use asn1pp.Result.{Op, pure, ensure, ◌>>◌, ◌>>=◌}
use asn1pp.Buffer.{
  BufferView, peek, skip, copy_out, size, Emits, ensure_size-Emits, Puts, Puts-Emits, Puts-then,
  Puts-ensure, Gets, Gets-then, Gets-map, Gets-copy, skip-at,
}
use asn1pp.Oer.Meta.{OerMeta}
use asn1pp.Oer.Octets.{write_be_8, write_be_16, write_octets_to_buf, encode_length_determinant}
use asn1pp.Oer.Encoder.{encode_fixed, encode_sized_bits, encode_bit_string}
use asn1pp.Oer.Decoder.{
  take_checked, decode_length_determinant, decode_counted_bits, decode_bit_string,
}
use asn1pp.Oer.Writing.{
  determinant_octets, encode_length_determinant-Emits, write_be_8-Puts, write_be_index-Puts,
  write_octets_to_buf-Puts,
}
use asn1pp.Oer.Strings.{Allowed, fixed_size, encode_fixed-Emits}
use asn1pp.Oer.Reading.{decode_length_determinant-Gets}

-- `len_width` of a constrained BIT STRING.
abbrev bits_width : ℕ → ℕ
bits_width sz_max = if leb ((sz_max + 1) % 2 ^ 64) 255 then 1 else 2

-- The octets of a BIT STRING: bare where its size is fixed, and else behind the count of unused
-- bits, which follows the length of both.
unfoldable pub bit_string_octets : OerMeta → List ℕ → ℕ → List ℕ
bit_string_octets m octets unused_bits =
    if m.has_size_constraint
    then (if m.min_size == m.max_size
        then octets
        else big_endian (bits_width m.max_size) (1 + length octets) ++ unused_bits ∷ octets)
    else determinant_octets (1 + length octets) ++ unused_bits ∷ octets

bits-Puts :
    (octets : List ℕ) (unused_bits : ℕ)
    → Puts (write_be_8 unused_bits >> write_octets_to_buf octets) (unused_bits ∷ octets)
bits-Puts octets unused_bits =
    Puts-then (write_be_8 unused_bits) (write_octets_to_buf octets) (unused_bits ∷ []) octets
      (write_be_8-Puts unused_bits) (write_octets_to_buf-Puts octets)

length-Puts :
    (hi n : ℕ)
    → Puts
        (if bits_width hi == 1 then write_be_8 (n % 256) else write_be_16 (n % 2 ^ 16))
        (big_endian (bits_width hi) n)
length-Puts hi n = elim (le_or_lt ((hi + 1) % 2 ^ 64) 255) [
  | inl small ↦ rw (leb-true ((hi + 1) % 2 ^ 64) 255 small) (write_be_index-Puts 1 n (inl refl))
  | inr large ↦
      rw (leb-false ((hi + 1) % 2 ^ 64) 255 large) (write_be_index-Puts 2 n (inr (inl refl)))
]

encode_sized_bits-Emits :
    (lo hi : ℕ) (octets : List ℕ) (unused_bits : ℕ)
    → lo ≤ length octets
    → length octets ≤ hi
    → Emits
        (encode_sized_bits lo hi octets unused_bits)
        (big_endian (bits_width hi) (1 + length octets) ++ unused_bits ∷ octets)
unfolding encode_sized_bits
encode_sized_bits-Emits lo hi octets unused_bits l h v =
    rw (less, one_more, ltb-false (length octets) lo l, ltb-false hi (length octets) h)
      (ensure_size-Emits (bits_width hi + 1 + length octets)
        ((if bits_width hi == 1
            then write_be_8 ((1 + length octets) % 256)
            else write_be_16 ((1 + length octets) % 2 ^ 16))
          >> (write_be_8 unused_bits >> write_octets_to_buf octets))
        (big_endian (bits_width hi) (1 + length octets) ++ unused_bits ∷ octets)
        (omega (
          arith,
          length-append (big_endian (bits_width hi) (1 + length octets)) (unused_bits ∷ octets),
          length-big_endian (bits_width hi) (1 + length octets),
        ))
        (Puts-then
          (if bits_width hi == 1
            then write_be_8 ((1 + length octets) % 256)
            else write_be_16 ((1 + length octets) % 2 ^ 16))
          (write_be_8 unused_bits >> write_octets_to_buf octets) _ _
          (length-Puts hi (1 + length octets)) (bits-Puts octets unused_bits))
        v)
  where
    less : length octets + 1 - 1 ≡ length octets
    less = omega arith

    one_more : length octets + 1 ≡ 1 + length octets
    one_more = omega arith

-- A count of octets that the length in front of a BIT STRING takes.
counted_bits-Puts :
    (octets : List ℕ) (unused_bits : ℕ)
    → 1 + length octets ≤ 65535
    → Puts
        (encode_length_determinant (1 + length octets)
          >> (size >>= λ n.
              ensure (not (ltb n (1 + length octets))) ErrorCode.buffer_overflow
              >> (write_be_8 unused_bits >> write_octets_to_buf octets)))
        (determinant_octets (1 + length octets) ++ unused_bits ∷ octets)
counted_bits-Puts octets unused_bits h =
    Puts-then (encode_length_determinant (1 + length octets))
      (size >>= λ n.
        ensure (not (ltb n (1 + length octets))) ErrorCode.buffer_overflow
        >> (write_be_8 unused_bits >> write_octets_to_buf octets))
      _ _ (Puts-Emits _ _ (encode_length_determinant-Emits (1 + length octets) h))
      (Puts-ensure (1 + length octets) (write_be_8 unused_bits >> write_octets_to_buf octets)
        (unused_bits ∷ octets) (omega arith) (bits-Puts octets unused_bits))

pub encode_bit_string-Puts :
    (m : OerMeta) (octets : List ℕ) (unused_bits : ℕ)
    → Allowed m (length octets)
    → length octets < 65535
    → Puts (encode_bit_string m octets unused_bits) (bit_string_octets m octets unused_bits)
unfolding encode_bit_string bit_string_octets
encode_bit_string-Puts m octets unused_bits a k = elim (Bool-cases m.has_size_constraint) [
  | inl t ↦ elim (eq_or_ne m.min_size m.max_size) [
    | inl e ↦
        rw (t, eqb-true m.min_size m.max_size e, fixed_size m (length octets) t e a)
          (Puts-Emits (encode_fixed (length octets) octets) octets (encode_fixed-Emits octets))
    | inr ne ↦
        rw (t, eqb-false m.min_size m.max_size ne)
          (Puts-Emits (encode_sized_bits m.min_size m.max_size octets unused_bits) _ (
            encode_sized_bits-Emits m.min_size m.max_size octets unused_bits (a.lower t)
              (a.upper t)))
  ]
  | inr f ↦ rw f (counted_bits-Puts octets unused_bits (omega arith))
]

decode_counted_bits-Gets :
    (octets : List ℕ) (unused_bits : ℕ)
    → 1 + length octets ≤ 65535
    → Gets decode_counted_bits
        (determinant_octets (1 + length octets) ++ unused_bits ∷ octets)
        (octets, unused_bits)
unfolding decode_counted_bits
decode_counted_bits-Gets octets unused_bits h =
    Gets-then decode_length_determinant body (determinant_octets (1 + length octets))
      (unused_bits ∷ octets) (1 + length octets) (octets, unused_bits)
      (decode_length_determinant-Gets (1 + length octets) h) contents
  where
    body : ℕ → Op BufferView (List ℕ × ℕ)
    body total = do
      ensure (not (ltb total 1)) ErrorCode.invalid_length
      n ← size
      ensure (not (ltb n total)) ErrorCode.buffer_underflow
      unused ← peek 0
      octets ← copy_out total
      skip total
      pure (drop 1 octets, unused)

    one_more : 1 + length octets ≡ suc (length octets)
    one_more = omega arith

    contents : Gets (body (1 + length octets)) (unused_bits ∷ octets) (octets, unused_bits)
    contents b rest =
        rw
          (
            one_more,
            ltb-false (suc (length octets)) 1 (omega arith),
            ltb-false (suc (length (octets ++ rest))) (suc (length octets))
                (omega (arith, length-append octets rest)),
            leb-true (suc (length octets)) (suc (length (octets ++ rest)))
                (omega (arith, length-append octets rest)),
            skip-at (suc (length octets)) b (unused_bits ∷ octets) rest refl,
            take-append octets rest,
          )
          refl

-- Where `decode_bit_string` looks for the length that `encode_bit_string` wrote: with a size
-- constraint that is not a single size, only below the first length of two octets.
pub record Readable (m : OerMeta) (unused_bits : ℕ) : Type 0 where
  pub single : m.has_size_constraint ≡ true → m.min_size ≡ m.max_size → unused_bits ≡ 0
  pub short : m.has_size_constraint ≡ true → m.min_size ≢ m.max_size → m.max_size ≤ 126

same_length :
    (hi n : ℕ) → hi ≤ 126 → n ≤ 1 + hi → big_endian (bits_width hi) n ≡ determinant_octets n
unfolding determinant_octets
same_length hi n h k =
    rw (leb-true ((hi + 1) % 2 ^ 64) 255 (omega arith), leb-true n 127 (omega arith))
      (ap (λ (x : ℕ). x ∷ []) (omega arith))

pub decode_bit_string-Gets :
    (m : OerMeta) (octets : List ℕ) (unused_bits : ℕ)
    → Allowed m (length octets)
    → Readable m unused_bits
    → length octets < 65535
    → Gets (decode_bit_string m) (bit_string_octets m octets unused_bits) (octets, unused_bits)
unfolding decode_bit_string bit_string_octets
decode_bit_string-Gets m octets unused_bits a r k = elim (Bool-cases m.has_size_constraint) [
  | inl t ↦ elim (eq_or_ne m.min_size m.max_size) [
    | inl e ↦
        rw (t, eqb-true m.min_size m.max_size e)
          (Gets-map (take_checked m.min_size) (λ (xs : List ℕ). (xs, 0)) octets octets
            (octets, unused_bits) (Gets-copy m.min_size octets (fixed_size m (length octets) t e a))
            (ap (λ (u : ℕ). (octets, u)) (sym (r.single t e))))
    | inr ne ↦
        rw
          (
            t,
            eqb-false m.min_size m.max_size ne,
            same_length m.max_size (1 + length octets) (r.short t ne) (omega (arith, a.upper t)),
          )
          (decode_counted_bits-Gets octets unused_bits (omega arith))
  ]
  | inr f ↦ rw f (decode_counted_bits-Gets octets unused_bits (omega arith))
]
