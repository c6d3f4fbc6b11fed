-- ===== src/Per/LengthReading.antt =====
-- The lengths that libs/codec/per/uper_decoder.hpp reads.
use asn1pp.Prelude.{
  ℕ, ◌+◌, ◌*◌, ◌/◌, ◌%◌, ◌^◌, ◌≤◌, ◌<◌, ◌≡◌, refl, sym, ap, ◌∙◌, subst, List, ◌++◌, if◌then◌else◌,
  ◌==◌, arith, length, bit_and, bit_or, leb-true, leb-false, eqb-true, eqb-false, le_or_lt, inl,
  inr,
}
use asn1pp.Prelude.Bits.{and-80, and-c0, and-e0, and-3f, and-1f, or-fields}
use asn1pp.ErrorCode.{ErrorCode}
use asn1pp.Result.{ok, returns, Op, pure, raise, ◌>>=◌, ◌>>◌}
use asn1pp.BitOps.Defs.{BitStream, stream, read_bits}
use asn1pp.BitOps.Laws.{BitGets}
use asn1pp.BitOps.Numbers.{number_bits, read_bits-low, number_bits-split, BitGets-then, BitGets-map}
use asn1pp.Per.Decoder.{need, decode_length_determinant, decode_four_bytes}
use asn1pp.Per.Lengths.{BitGets-need, determinant_bits, fields}

-- What is read last decides.
pub BitGets-answer {ℓ κ} :
    {A : Type ℓ} {B : Type κ} (d : Op BitStream A) (f : A → Op BitStream B) (xs : List ℕ) (a : A)
    (z : B)
    → BitGets d xs a
    → ((s : BitStream) → f a s ≡ returns (ok z) s)
    → BitGets (d >>= f) xs z
BitGets-answer d f xs a z g e cells pre rest h =
    rw (g cells pre rest h) (e (stream cells (length pre + length xs)))

-- An octet whose value is known, among the bits of a number.
pub octet-BitGets : (n x : ℕ) → n % 256 ≡ x → BitGets (read_bits 8) (number_bits 8 n) x
octet-BitGets n x e =
    subst (λ (a : ℕ). BitGets (read_bits 8) (number_bits 8 n) a) e (read_bits-low 8 n (omega arith))

-- The forms of the determinant, behind its first octet.
abbrev longer_forms : ℕ → Op BitStream ℕ
longer_forms first_byte =
    if bit_and first_byte 0xc0 == 0x80
    then (need 8
        >> (read_bits 8 >>= λ second_byte.
            pure (bit_or (bit_and first_byte 0x3f * 2 ^ 8) second_byte)))
    else if bit_and first_byte 0xe0 == 0xc0
    then decode_four_bytes first_byte
    else raise ErrorCode.parse_error

abbrev forms : ℕ → Op BitStream ℕ
forms first_byte = if bit_and first_byte 0x80 == 0 then pure first_byte else longer_forms first_byte

determinant_one : (n : ℕ) → n ≤ 127 → BitGets decode_length_determinant (number_bits 8 n) n
unfolding decode_length_determinant
determinant_one n h = BitGets-need 8 (read_bits 8 >>= forms) (number_bits 8 n) n (omega arith) (
    BitGets-answer (read_bits 8) forms (number_bits 8 n) n n (octet-BitGets n n (omega arith))
      λ s. rw (eqb-true (bit_and n 0x80) 0 (omega (arith, and-80 n (omega arith)))) refl)

determinant_two :
    (n : ℕ) → n ≤ 16383 → BitGets decode_length_determinant (number_bits 16 (0x8000 + n)) n
unfolding decode_length_determinant
determinant_two n h =
    subst (λ (bs : List ℕ). BitGets decode_length_determinant bs n) (sym (number_bits-split 8 8 w))
      (BitGets-need 8 (read_bits 8 >>= forms) (number_bits 8 (w / 256) ++ number_bits 8 w) n
        (omega arith)
        (BitGets-then (read_bits 8) forms (number_bits 8 (w / 256)) (number_bits 8 w) x n
          (octet-BitGets (w / 256) x (omega arith))
          (rw
            (
              eqb-false (bit_and x 0x80) 0 (omega (arith, and-80 x (omega arith))),
              eqb-true (bit_and x 0xc0) 0x80 (omega (arith, and-c0 x (omega arith))),
            )
            (BitGets-need 8 _ (number_bits 8 w) n (omega arith) (
              BitGets-map (read_bits 8) (λ y. bit_or (bit_and x 0x3f * 2 ^ 8) y) (number_bits 8 w)
                (n % 256) n (octet-BitGets w (n % 256) (omega arith)) joined)))))
  where
    w : ℕ
    w = 0x8000 + n

    x : ℕ
    x = 128 + n / 256

    joined : bit_or (bit_and (128 + n / 256) 0x3f * 2 ^ 8) (n % 256) ≡ n
    joined = omega (
      arith,
      and-3f (128 + n / 256),
      or-fields 8 (bit_and (128 + n / 256) 0x3f) (n % 256) (omega arith),
    )

abbrev w_of : ℕ → ℕ
w_of n = 0xc0000000 + n

-- 32 bits as four octets.
four_octets :
    (w : ℕ)
    → number_bits 32 w
      ≡ number_bits 8 (w / 2 ^ 24)
        ++ (number_bits 8 (w / 2 ^ 16) ++ (number_bits 8 (w / 2 ^ 8) ++ number_bits 8 w))
four_octets w =
    number_bits-split 8 24 w
    ∙ ap (λ (l : List ℕ). number_bits 8 (w / 2 ^ 24) ++ l)
        (number_bits-split 8 16 w
          ∙ ap (λ (l : List ℕ). number_bits 8 (w / 2 ^ 16) ++ l) (number_bits-split 8 8 w))

decode_four_bytes-BitGets :
    (n : ℕ)
    → n < 2 ^ 29
    → BitGets
        (decode_four_bytes (192 + n / 2 ^ 24))
        (number_bits 8 (w_of n / 2 ^ 16)
          ++ (number_bits 8 (w_of n / 2 ^ 8) ++ number_bits 8 (w_of n)))
        n
unfolding decode_four_bytes
decode_four_bytes-BitGets n h =
    BitGets-need 24 (read_bits 8 >>= second) (number_bits 8 (w / 2 ^ 16) ++ low_two) n (omega arith)
      (BitGets-then (read_bits 8) second (number_bits 8 (w / 2 ^ 16)) low_two high n
        (octet-BitGets (w / 2 ^ 16) high (omega arith))
        (BitGets-then (read_bits 8) (third high) (number_bits 8 (w / 2 ^ 8)) (number_bits 8 w) mid n
          (octet-BitGets (w / 2 ^ 8) mid (omega arith))
          (BitGets-map (read_bits 8) (joined high mid) (number_bits 8 w) last n
            (octet-BitGets w last (omega arith)) whole)))
  where
    w : ℕ
    w = w_of n

    low_two : List ℕ
    low_two = number_bits 8 (w_of n / 2 ^ 8) ++ number_bits 8 (w_of n)

    high : ℕ
    high = n / 2 ^ 16 % 256

    mid : ℕ
    mid = n / 2 ^ 8 % 256

    last : ℕ
    last = n % 256

    joined : ℕ → ℕ → ℕ → ℕ
    joined b c d =
        bit_or (bit_or (bit_or (bit_and (192 + n / 2 ^ 24) 0x1f * 2 ^ 24) (b * 2 ^ 16)) (c * 2 ^ 8))
          d

    third : ℕ → ℕ → Op BitStream ℕ
    third b c = read_bits 8 >>= λ d. pure (joined b c d)

    second : ℕ → Op BitStream ℕ
    second b = read_bits 8 >>= third b

    whole : joined (n / 2 ^ 16 % 256) (n / 2 ^ 8 % 256) (n % 256) ≡ n
    whole =
        fields (bit_and (192 + n / 2 ^ 24) 0x1f) (n / 2 ^ 16 % 256) (n / 2 ^ 8 % 256) (n % 256)
          (omega arith) (omega arith) (omega arith)
        ∙ omega (arith, and-1f (192 + n / 2 ^ 24))

determinant_four :
    (n : ℕ) → n < 2 ^ 29 → BitGets decode_length_determinant (number_bits 32 (w_of n)) n
unfolding decode_length_determinant
determinant_four n h =
    subst (λ (bs : List ℕ). BitGets decode_length_determinant bs n) (sym (four_octets (w_of n)))
      (BitGets-need 8 (read_bits 8 >>= forms) (number_bits 8 (w_of n / 2 ^ 24) ++ low) n
        (omega arith)
        (BitGets-then (read_bits 8) forms (number_bits 8 (w_of n / 2 ^ 24)) low x n
          (octet-BitGets (w_of n / 2 ^ 24) x (omega arith))
          (rw
            (
              eqb-false (bit_and x 0x80) 0 (omega (arith, and-80 x (omega arith))),
              eqb-false (bit_and x 0xc0) 0x80 (omega (arith, and-c0 x (omega arith))),
              eqb-true (bit_and x 0xe0) 0xc0 (omega (arith, and-e0 x (omega arith))),
            )
            (decode_four_bytes-BitGets n h))))
  where
    x : ℕ
    x = 192 + n / 2 ^ 24

    low : List ℕ
    low =
        number_bits 8 (w_of n / 2 ^ 16)
        ++ (number_bits 8 (w_of n / 2 ^ 8) ++ number_bits 8 (w_of n))

-- `decode_length_determinant` in front of the bits of a length below 2 ^ 29.
pub decode_length_determinant-BitGets :
    (n : ℕ) → n < 2 ^ 29 → BitGets decode_length_determinant (determinant_bits n) n
unfolding determinant_bits
decode_length_determinant-BitGets n h = elim (le_or_lt n 127) [
  | inl short ↦ rw (leb-true n 127 short) (determinant_one n short)
  | inr more ↦ elim (le_or_lt n 16383) [
    | inl middle ↦ rw (leb-false n 127 more, leb-true n 16383 middle) (determinant_two n middle)
    | inr long ↦ rw (leb-false n 127 more, leb-false n 16383 long) (determinant_four n h)
  ]
]
