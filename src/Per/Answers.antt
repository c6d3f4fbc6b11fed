-- ===== src/Per/Answers.antt =====
-- How large the lengths are that libs/codec/per/uper_decoder.hpp reads from any bytes.
use asn1pp.Prelude.{
  ℕ, ◌+◌, ◌*◌, ◌^◌, ◌≤◌, ◌<◌, ◌≡◌, refl, ap, ◌∙◌, Bool, true, false, List, if◌then◌else◌, ◌==◌,
  arith, length, bit_and, bit_or, le_or_lt, ltb-true, ltb-false, inl, inr,
}
use asn1pp.Prelude.Bits.{and-3f, and-1f, or-fields}
use asn1pp.ErrorCode.{ErrorCode}
use asn1pp.Result.{Result, continue, ok, err, Outcome, returns, Op, pure, raise, ◌>>=◌, ◌>>◌}
use asn1pp.BitOps.Defs.{BitStream, stream, read_bits}
use asn1pp.Per.Decoder.{need, decode_four_bytes, decode_length_determinant, read_checked}
use asn1pp.Per.Lengths.{fields}
use asn1pp.Per.Reading.{BitReads, got_below}

abbrev pub Kept : (ℕ → Type 0) → Result ℕ → Type 0
Kept P (ok n) = P n
Kept P (err e) = Unit

-- An outcome as `BitMoved` has it, with an answer that has the property.
abbrev pub Answered : (ℕ → Type 0) → List ℕ → ℕ → Outcome BitStream ℕ → Type 0
Answered P cells k o =
    (r : Result ℕ) × (j : ℕ) × (o ≡ returns r (stream cells j))
    × (k ≤ j)
    × (j ≤ length cells * 8)
    × Kept P r

abbrev pub BitAnswers : (ℕ → Type 0) → Op BitStream ℕ → Type 0
BitAnswers P m =
    (cells : List ℕ) (k : ℕ) → k ≤ length cells * 8 → Answered P cells k (m (stream cells k))

pub BitAnswers-BitReads : (P : ℕ → Type 0) (m : Op BitStream ℕ) → BitAnswers P m → BitReads m
BitAnswers-BitReads P m p cells k h = let (r, j, e, l, b, a) = p cells k h in (r, j, e, l, b)

if-BitAnswers :
    (P : ℕ → Type 0) (b : Bool) (m n : Op BitStream ℕ)
    → BitAnswers P m
    → BitAnswers P n
    → BitAnswers P (if b then m else n)
if-BitAnswers P true m n p q = p
if-BitAnswers P false m n p q = q

raise-BitAnswers : (P : ℕ → Type 0) (e : ErrorCode) → BitAnswers P (raise e)
raise-BitAnswers P e cells k h = (err e, k, refl, omega arith, h, tt)

need-BitAnswers :
    (P : ℕ → Type 0) (n : ℕ) (m : Op BitStream ℕ)
    → ((cells : List ℕ) (k : ℕ)
        → k + n ≤ length cells * 8
        → Answered P cells k (m (stream cells k)))
    → BitAnswers P (need n >> m)
need-BitAnswers P n m p cells k h = elim (le_or_lt (k + n) (length cells * 8)) [
  | inl room ↦ rw (ltb-false (length cells * 8) (k + n) room) (p cells k room)
  | inr short ↦
      rw (ltb-true (length cells * 8) (k + n) short)
        (err ErrorCode.buffer_underflow, k, refl, omega arith, h, tt)
]

pub read_checked-BitAnswers : (n : ℕ) → n ≤ 64 → BitAnswers (λ x. x < 2 ^ n) (read_checked n)
read_checked-BitAnswers n w =
    need-BitAnswers (λ x. x < 2 ^ n) n (read_bits n)
      λ cells k room.
        let (x, e, b) = got_below n cells k w room in (ok x, k + n, e, omega arith, room, b)

-- The lengths of the determinant have 30 bits at most.
abbrev pub IsLength : ℕ → Type 0
IsLength n = n < 2 ^ 30

four_bytes-BitAnswers : (first_byte : ℕ) → BitAnswers IsLength (decode_four_bytes first_byte)
unfolding decode_four_bytes
four_bytes-BitAnswers first_byte = need-BitAnswers IsLength 24 rest λ cells k room.
    let (b2, e2, h2) = got_below 8 cells k (omega arith) (omega arith) in
    let (b3, e3, h3) = got_below 8 cells (k + 8) (omega arith) (omega arith) in
    let (b4, e4, h4) = got_below 8 cells (k + 8 + 8) (omega arith) (omega arith) in
    (
      ok (word b2 b3 b4),
      k + 8 + 8 + 8,
      rw (e2, e3, e4) refl,
      omega arith,
      omega arith,
      omega (arith, fields (bit_and first_byte 0x1f) b2 b3 b4 h2 h3 h4, and-1f first_byte),
    )
  where
    word : ℕ → ℕ → ℕ → ℕ
    word b2 b3 b4 =
        bit_or (bit_or (bit_or (bit_and first_byte 0x1f * 2 ^ 24) (b2 * 2 ^ 16)) (b3 * 2 ^ 8)) b4

    rest : Op BitStream ℕ
    rest = read_bits 8 >>= λ b2. read_bits 8 >>= λ b3. read_bits 8 >>= λ b4. pure (word b2 b3 b4)

pub decode_length_determinant-BitAnswers : BitAnswers IsLength decode_length_determinant
unfolding decode_length_determinant
decode_length_determinant-BitAnswers =
    need-BitAnswers IsLength 8 (read_bits 8 >>= forms) λ cells k room.
      let (x, e, b) = got_below 8 cells k (omega arith) room in
      let (r, j, d, l, c, a) = forms-BitAnswers x b cells (k + 8) room in
      (r, j, ap (λ o. continue o forms) e ∙ d, omega arith, c, a)
  where
    joined : ℕ → ℕ → ℕ
    joined x y = bit_or (bit_and x 0x3f * 2 ^ 8) y

    second : ℕ → Op BitStream ℕ
    second x = need 8 >> (read_bits 8 >>= λ y. pure (joined x y))

    longer : ℕ → Op BitStream ℕ
    longer x = if bit_and x 0xe0 == 0xc0 then decode_four_bytes x else raise ErrorCode.parse_error

    forms : ℕ → Op BitStream ℕ
    forms x =
        if bit_and x 0x80 == 0
        then pure x
        else (if bit_and x 0xc0 == 0x80 then second x else longer x)

    second-BitAnswers : (x : ℕ) → BitAnswers IsLength (second x)
    second-BitAnswers x =
        need-BitAnswers IsLength 8 (read_bits 8 >>= λ y. pure (joined x y)) λ cells k room.
          let (y, e, b) = got_below 8 cells k (omega arith) room in
          (
            ok (joined x y),
            k + 8,
            ap (λ o. continue o (λ y. pure (joined x y))) e,
            omega arith,
            room,
            omega (arith, or-fields 8 (bit_and x 0x3f) y b, and-3f x),
          )

    forms-BitAnswers : (x : ℕ) → x < 2 ^ 8 → BitAnswers IsLength (forms x)
    forms-BitAnswers x b =
        if-BitAnswers IsLength (bit_and x 0x80 == 0) (pure x)
          (if bit_and x 0xc0 == 0x80 then second x else longer x)
          (λ cells k h. (ok x, k, refl, omega arith, h, omega arith))
          (if-BitAnswers IsLength (bit_and x 0xc0 == 0x80) (second x) (longer x)
            (second-BitAnswers x)
            (if-BitAnswers IsLength (bit_and x 0xe0 == 0xc0) (decode_four_bytes x)
              (raise ErrorCode.parse_error) (four_bytes-BitAnswers x)
              (raise-BitAnswers IsLength ErrorCode.parse_error)))
