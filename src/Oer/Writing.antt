-- ===== src/Oer/Writing.antt =====
-- What the helpers of libs/codec/oer/encoder.hpp write: numbers of fixed width, and lengths.
use asn1pp.Prelude.{
  ℕ, ◌+◌, ◌/◌, ◌%◌, ◌^◌, ◌≤◌, ◌<◌, ◌≡◌, refl, ap₂, List, [], ◌∷◌, ◌++◌, if◌then◌else◌, ltb, leb,
  length, drop, ltb-true, ltb-false, leb-true, leb-false, bit_and, bit_or, big_endian, arith,
  le_or_lt, inl, inr, ◌⊎◌,
}
use asn1pp.Prelude.Bits.{and-ff, and-3f, or-fields}
use asn1pp.ErrorCode.{ErrorCode}
use asn1pp.Result.{ok, err, returns, Op, pure, ◌>>◌}
use asn1pp.Buffer.{
  BufferView, view, poke, skip, copy_in, Emits, ensure_size-Emits, Puts, Puts-copy, poke-at,
  skip-at,
}
use asn1pp.Oer.Octets.{
  write_octets_to_buf, write_be_8, write_be_16, write_be_32, write_be_64, encode_length_determinant,
  write_be_index, write_be_integer, put_two_byte_length, put_long_length,
}
use asn1pp.Oer.Encoder.{write_checked}

pub write_octets_to_buf-Puts : (src : List ℕ) → Puts (write_octets_to_buf src) src
unfolding write_octets_to_buf
write_octets_to_buf-Puts src b c h =
    rw (ltb-false (length c) (length src) h) (Puts-copy (length src) src refl b c h)

pub write_checked-Emits : (octets : List ℕ) → Emits (write_checked octets) octets
write_checked-Emits octets =
    ensure_size-Emits (length octets) (write_octets_to_buf octets) octets refl
      (write_octets_to_buf-Puts octets)

-- A write of `k` octets behind its own test of the room.
roomy :
    (k : ℕ) (bs ds : List ℕ)
    → k ≡ length ds
    → bs ≡ ds
    → (b c : List ℕ) → length ds ≤ length c
    → (if leb k (length c) then (copy_in 0 bs >> skip k) else pure tt) (view b c)
      ≡ returns (ok tt) (view (b ++ ds) (drop (length ds) c))
roomy k bs ds e same b c h = rw (leb-true k (length c) (omega arith), same) (Puts-copy k ds e b c h)

pub write_be_8-Puts : (x : ℕ) → Puts (write_be_8 x) (x ∷ [])
unfolding write_be_8
write_be_8-Puts x = roomy 1 (x ∷ []) (x ∷ []) refl refl

pub cons : (x y : ℕ) (xs ys : List ℕ) → x ≡ y → xs ≡ ys → x ∷ xs ≡ y ∷ ys
cons x y xs ys e f = ap₂ (λ (a : ℕ) (l : List ℕ). a ∷ l) e f

-- An octet as the source takes it from the number, and as `big_endian` does.
octet : (x y : ℕ) → x % 256 ≡ y → bit_and x 0xff % 256 ≡ y
octet x y e = omega (arith, and-ff x)

pub write_be_16-Puts : (x : ℕ) → Puts (write_be_16 x) (big_endian 2 x)
unfolding write_be_16
write_be_16-Puts x =
    roomy 2 _ (big_endian 2 x) refl (cons _ _ _ _ refl (cons _ _ _ _ (octet x (x % 256) refl) refl))

pub write_be_32-Puts : (x : ℕ) → Puts (write_be_32 x) (big_endian 4 x)
unfolding write_be_32
write_be_32-Puts x = roomy 4 _ (big_endian 4 x) refl (
    cons _ _ _ _ (omega arith) (
      cons _ _ _ _ (octet (x / 2 ^ 16) _ (omega arith))
        (cons _ _ _ _ (octet (x / 2 ^ 8) _ (omega arith)) (cons _ _ _ _ (octet x _ refl) refl))))

pub write_be_64-Puts : (x : ℕ) → Puts (write_be_64 x) (big_endian 8 x)
unfolding write_be_64
write_be_64-Puts x = roomy 8 _ (big_endian 8 x) refl (
    cons _ _ _ _ (omega arith) (
      cons _ _ _ _ (octet (x / 2 ^ 48) _ (omega arith)) (
        cons _ _ _ _ (octet (x / 2 ^ 40) _ (omega arith)) (
          cons _ _ _ _ (octet (x / 2 ^ 32) _ (omega arith)) (
            cons _ _ _ _ (octet (x / 2 ^ 24) _ (omega arith)) (
              cons _ _ _ _ (octet (x / 2 ^ 16) _ (omega arith)) (
                cons _ _ _ _ (octet (x / 2 ^ 8) _ (omega arith))
                  (cons _ _ _ _ (octet x _ refl) refl))))))))

-- The length determinant: one octet up to 127, two with the bits 10 in front up to 16383, and
-- else 0xC0 and two octets.
unfoldable pub determinant_octets : ℕ → List ℕ
determinant_octets n =
    if leb n 127
    then n ∷ []
    else if leb n 16383
    then (128 + n / 256) ∷ n % 256 ∷ []
    else 0xc0 ∷ n / 256 ∷ n % 256 ∷ []

two_octets : (x y : ℕ) → Puts (poke 0 x >> (poke 1 y >> skip 2)) (x ∷ y ∷ [])
two_octets x y b [] h = absurd (omega arith)
two_octets x y b (d ∷ []) h = absurd (omega arith)
two_octets x y b (d ∷ e ∷ c) h =
    rw (poke-at 0 x b (d ∷ e ∷ c) (omega arith), poke-at 1 y b (x ∷ e ∷ c) (omega arith))
      (skip-at 2 b (x ∷ y ∷ []) c refl)

three_octets : (x y z : ℕ) → Puts (poke 0 x >> (poke 1 y >> (poke 2 z >> skip 3))) (x ∷ y ∷ z ∷ [])
three_octets x y z b [] h = absurd (omega arith)
three_octets x y z b (d ∷ []) h = absurd (omega arith)
three_octets x y z b (d ∷ e ∷ []) h = absurd (omega arith)
three_octets x y z b (d ∷ e ∷ f ∷ c) h =
    rw
      (
        poke-at 0 x b (d ∷ e ∷ f ∷ c) (omega arith),
        poke-at 1 y b (x ∷ e ∷ f ∷ c) (omega arith),
        poke-at 2 z b (x ∷ y ∷ f ∷ c) (omega arith),
      )
      (skip-at 3 b (x ∷ y ∷ z ∷ []) c refl)

put_two_byte_length-Puts :
    (n : ℕ) → n ≤ 16383 → Puts (put_two_byte_length n) ((128 + n / 256) ∷ n % 256 ∷ [])
unfolding put_two_byte_length
put_two_byte_length-Puts n h =
    rw (first, octet n (n % 256) refl) (two_octets (128 + n / 256) (n % 256))
  where
    first : bit_or 0x80 (bit_and (n / 2 ^ 8) 0x3f) % 256 ≡ 128 + n / 256
    first = omega (
      arith,
      or-fields 7 1 (bit_and (n / 2 ^ 8) 0x3f) (omega (arith, and-3f (n / 2 ^ 8))),
      and-3f (n / 2 ^ 8),
    )

put_long_length-Puts :
    (n : ℕ) → n ≤ 65535 → Puts (put_long_length n) (0xc0 ∷ n / 256 ∷ n % 256 ∷ [])
unfolding put_long_length
put_long_length-Puts n h =
    rw (octet (n / 2 ^ 8) (n / 256) (omega arith), octet n (n % 256) refl)
      (three_octets 0xc0 (n / 256) (n % 256))

-- `encode_length_determinant`, for a length up to 65535.
pub encode_length_determinant-Emits :
    (n : ℕ) → n ≤ 65535 → Emits (encode_length_determinant n) (determinant_octets n)
unfolding encode_length_determinant determinant_octets
encode_length_determinant-Emits n h v = elim (le_or_lt n 127) [
  | inl short ↦
      let low : n % 256 ≡ n = omega arith in
      rw (leb-true n 127 short, low)
        (ensure_size-Emits 1 (write_be_8 n) (n ∷ []) refl (write_be_8-Puts n) v)
  | inr more ↦ elim (le_or_lt n 16383) [
    | inl middle ↦
        rw (leb-false n 127 more, leb-true n 16383 middle)
          (ensure_size-Emits 2 (put_two_byte_length n) ((128 + n / 256) ∷ n % 256 ∷ []) refl
            (put_two_byte_length-Puts n middle) v)
    | inr long ↦
        rw (leb-false n 127 more, leb-false n 16383 long, ltb-false 65535 n h)
          (ensure_size-Emits 3 (put_long_length n) (0xc0 ∷ n / 256 ∷ n % 256 ∷ []) refl
            (put_long_length-Puts n h) v)
  ]
]

-- A length above 65535 is refused, with the error of a full buffer where not even three octets
-- are left, and nothing is written.
pub encode_length_determinant-long :
    (n : ℕ) (v : BufferView)
    → 65535 < n
    → encode_length_determinant n v
      ≡ returns
          (err (
            if ltb (length v.cells) 3
            then ErrorCode.buffer_overflow
            else ErrorCode.value_out_of_range))
          v
unfolding encode_length_determinant
encode_length_determinant-long n v h = elim (le_or_lt 3 (length v.cells)) [
  | inl room ↦
      rw
        (
          leb-false n 127 (omega arith),
          leb-false n 16383 (omega arith),
          ltb-true 65535 n h,
          ltb-false (length v.cells) 3 room,
        )
        refl
  | inr full ↦
      rw
        (
          leb-false n 127 (omega arith),
          leb-false n 16383 (omega arith),
          ltb-true (length v.cells) 3 full,
        )
        refl
]

pub low_two : (x : ℕ) → big_endian 2 (x % 2 ^ 16) ≡ big_endian 2 x
low_two x = cons _ _ _ _ (omega arith) (cons _ _ _ _ (omega arith) refl)

pub low_four : (x : ℕ) → big_endian 4 (x % 2 ^ 32) ≡ big_endian 4 x
low_four x =
    cons _ _ _ _ (omega arith)
      (cons _ _ _ _ (omega arith) (cons _ _ _ _ (omega arith) (cons _ _ _ _ (omega arith) refl)))

same-Puts : (m : Op BufferView (Unit {0})) (xs ys : List ℕ) → xs ≡ ys → Puts m xs → Puts m ys
same-Puts m xs ys e p = rw (← e) p

-- The octets of a length or an index.
pub write_be_index-Puts :
    (w x : ℕ) → (w ≡ 1) ⊎ ((w ≡ 2) ⊎ (w ≡ 4)) → Puts (write_be_index w x) (big_endian w x)
write_be_index-Puts w x (inl e) = rw e (write_be_8-Puts (x % 256))
write_be_index-Puts w x (inr (inl e)) =
    rw e (same-Puts (write_be_16 (x % 2 ^ 16)) _ _ (low_two x) (write_be_16-Puts (x % 2 ^ 16)))
write_be_index-Puts w x (inr (inr e)) =
    rw e (same-Puts (write_be_32 (x % 2 ^ 32)) _ _ (low_four x) (write_be_32-Puts (x % 2 ^ 32)))

-- The widths of range constrained integers.
abbrev pub IntegerWidth : ℕ → Type 0
IntegerWidth w = (w ≡ 1) ⊎ ((w ≡ 2) ⊎ ((w ≡ 4) ⊎ (w ≡ 8)))

pub write_be_integer-Puts :
    (w x : ℕ) → IntegerWidth w → Puts (write_be_integer w x) (big_endian w x)
unfolding write_be_integer
write_be_integer-Puts w x (inl e) = rw e (write_be_8-Puts (x % 256))
write_be_integer-Puts w x (inr (inl e)) =
    rw e (same-Puts (write_be_16 (x % 2 ^ 16)) _ _ (low_two x) (write_be_16-Puts (x % 2 ^ 16)))
write_be_integer-Puts w x (inr (inr (inl e))) =
    rw e (same-Puts (write_be_32 (x % 2 ^ 32)) _ _ (low_four x) (write_be_32-Puts (x % 2 ^ 32)))
write_be_integer-Puts w x (inr (inr (inr e))) = rw e (write_be_64-Puts x)
