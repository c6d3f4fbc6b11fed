-- ===== src/Per/Safety.antt =====
-- libs/codec/per/uper_decoder.hpp on any bytes at all.
use asn1pp.Prelude.{
  ℕ, ◌*◌, ◌≤◌, List, if◌then◌else◌, leb, ◌==◌, arith, length, fold_be, Bool-cases, inl, inr,
}
use asn1pp.Result.{Op, pure, ◌>>=◌}
use asn1pp.Int64.{signed_lt}
use asn1pp.BitOps.Defs.{BitStream, stream}
use asn1pp.Per.Meta.{minus_64, range_of, bits_needed_unsigned, bits_needed_for_range}
use asn1pp.Per.Counts.{bits_needed_unsigned-BitLength}
use asn1pp.Per.Decoder.{
  take_value, decode_length_determinant, plus_64, read_checked, decode_large,
  decode_constrained_whole_number,
}
use asn1pp.Per.Answers.{IsLength, BitAnswers-BitReads, decode_length_determinant-BitAnswers}
use asn1pp.Per.Reading.{
  BitMoved, BitReads, pure-BitReads, bind-BitReads, if-BitReads, read_checked-BitReads,
  take_value-BitReads,
}

determinant-BitReads : BitReads decode_length_determinant
determinant-BitReads =
    BitAnswers-BitReads IsLength decode_length_determinant decode_length_determinant-BitAnswers

pub needed : (n : ℕ) → bits_needed_unsigned (minus_64 n 1) ≤ 64
needed n = (bits_needed_unsigned-BitLength (minus_64 n 1) (omega arith)).1

needed_for_range : (lo hi : ℕ) → bits_needed_for_range lo hi ≤ 64
unfolding bits_needed_for_range
needed_for_range lo hi = elim (Bool-cases (signed_lt hi lo)) [
  | inl t ↦ rw t (omega arith)
  | inr f ↦ rw f (needed (range_of lo hi))
]

near-BitReads :
    (lo hi : ℕ)
    → BitReads (read_checked (bits_needed_for_range lo hi) >>= λ val. pure (plus_64 lo val))
near-BitReads lo hi =
    bind-BitReads (read_checked (bits_needed_for_range lo hi)) (λ val. pure (plus_64 lo val))
      (read_checked-BitReads (bits_needed_for_range lo hi) (needed_for_range lo hi))
      λ val. pure-BitReads (plus_64 lo val)

large-BitReads : (lo : ℕ) → BitReads (decode_large lo)
unfolding decode_large
large-BitReads lo = bind-BitReads decode_length_determinant sized determinant-BitReads λ n.
    if-BitReads (n == 0) (pure lo) (octets n) (pure-BitReads lo) (
      bind-BitReads (take_value n) (λ xs. pure (plus_64 lo (fold_be 0 xs))) (take_value-BitReads n)
        λ xs. pure-BitReads (plus_64 lo (fold_be 0 xs)))
  where
    octets : ℕ → Op BitStream ℕ
    octets n = take_value n >>= λ xs. pure (plus_64 lo (fold_be 0 xs))

    sized : ℕ → Op BitStream ℕ
    sized n = if n == 0 then pure lo else octets n

-- The UPER `decode_constrained_whole_number`, for any bounds, returns on every buffer and from
-- every bit of it. It reads no byte outside the buffer and stops neither before the bit where
-- it started nor behind the last bit.
pub decode_constrained_whole_number-BitMoved :
    (lo hi : ℕ) (cells : List ℕ) (k : ℕ)
    → k ≤ length cells * 8
    → BitMoved cells k (decode_constrained_whole_number lo hi (stream cells k))
unfolding decode_constrained_whole_number
decode_constrained_whole_number-BitMoved lo hi =
    if-BitReads (leb (range_of lo hi) 1) (pure lo) wider (pure-BitReads lo) (
      if-BitReads (leb (range_of lo hi) 256) near
        (if leb (range_of lo hi) 65536 then near else decode_large lo) (near-BitReads lo hi)
        (if-BitReads (leb (range_of lo hi) 65536) near (decode_large lo) (near-BitReads lo hi)
          (large-BitReads lo)))
  where
    near : Op BitStream ℕ
    near = read_checked (bits_needed_for_range lo hi) >>= λ val. pure (plus_64 lo val)

    wider : Op BitStream ℕ
    wider =
        if leb (range_of lo hi) 256
        then near
        else (if leb (range_of lo hi) 65536 then near else decode_large lo)
