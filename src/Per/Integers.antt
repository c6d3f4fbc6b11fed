-- ===== src/Per/Integers.antt =====
-- INTEGERs without a constraint that are not negative, in libs/codec/per/uper_encoder.hpp and
-- uper_decoder.hpp.
use asn1pp.Prelude.{
  ℕ, ◌+◌, ◌*◌, ◌^◌, ◌≤◌, ◌<◌, ◌≡◌, refl, ap, ◌∙◌, false, List, if◌then◌else◌, ◌==◌, arith, All,
  IsByte, length, set, leb-true, eqb-true, eqb-false, eq_or_ne, inl, inr, big_endian,
  length-big_endian, big_endian-IsByte, length-set,
}
use asn1pp.ErrorCode.{ErrorCode}
use asn1pp.Result.{Outcome, fault, continue, ok, returns, Op, pure, ◌>>=◌, ◌>>◌, if_false}
use asn1pp.Arch.{SimdLevel}
use asn1pp.Batch.{BatchBuffer, push, drain}
use asn1pp.Ber.Integer.{decode_integer_value}
use asn1pp.Ber.Integer.Slots.{decode_slot-eq}
use asn1pp.Ber.Decoder as BerDecoder
use asn1pp.Ber.Decoder.{PendingInteger, filled_slot}
use asn1pp.Ber.Decoder.Contents.{IsContents}
use asn1pp.Ber.Decoder.Pending.{
  Ready, batch_size_bounds, push-pushed, pushed, pushed-Ready, emptied, emptied-Ready,
  last_slot-answer,
}
use asn1pp.BitOps.Defs.{BitStream, stream}
use asn1pp.BitOps.Transfer.{BitPuts-BitCarried}
use asn1pp.Per.Meta.{PerMeta}
use asn1pp.Per.Encoder.{value_size, encode_integer}
use asn1pp.Per.Decoder.{
  take_integer, BitSession, on_bits, on_pending, answer_integer, decode_integer,
  decode_constrained_whole_number,
}
use asn1pp.Per.IntegerOctets.{
  value_size-octets, decoded, integer_bits, encode_integer-BitPuts, take_integer-BitGets,
}

abbrev pub bit_session : BatchBuffer PendingInteger → BitStream → BitSession
bit_session q b = record { pending = q; bits = b }

-- What follows the push answers the number of the octets, and the batch is ready again.
answer_integer-Answers :
    (level : SimdLevel) (q : BatchBuffer PendingInteger) (octets : List ℕ)
    → Ready level q
    → IsContents octets
    → (q' : BatchBuffer PendingInteger) × Ready level q'
      × (answer_integer level octets (pushed q (filled_slot octets))
          ≡ returns (ok (decode_integer_value octets)) q')
unfolding answer_integer drain
answer_integer-Answers level q octets r c =
    elim (eq_or_ne (q.count + 1) (BerDecoder.batch_size level)) [
      | inl full ↦ (
        emptied (set q.items q.count (filled_slot octets)),
        emptied-Ready level (set q.items q.count (filled_slot octets))
            (length-set q.items q.count (filled_slot octets) ∙ r.capacity),
        rw
            (
              eqb-true (q.count + 1) (BerDecoder.batch_size level) full,
              leb-true (q.count + 1) (length (set q.items q.count (filled_slot octets))) (
                  omega (
                    arith,
                    length-set q.items q.count (filled_slot octets),
                    r.below,
                    r.capacity,
                    (batch_size_bounds level).1,
                  )),
              last_slot-answer level q octets r c full,
            )
            refl,
      )
      | inr ne ↦ (
        pushed q (filled_slot octets),
        pushed-Ready level q (filled_slot octets) r
            (ap (λ (p : ErrorCode × ℕ). p.0) (decode_slot-eq octets c.0 c.1 c.2)) ne,
        rw (eqb-false (q.count + 1) (BerDecoder.batch_size level) ne) refl,
      )
    ]

-- The integer through the buffer, from the bit `k` on, and the batch of the decoder.
abbrev pub IntegerCarried :
    SimdLevel → PerMeta → BatchBuffer PendingInteger → ℕ → List ℕ → ℕ → Type 0
IntegerCarried level m q v cells k =
    (cells' : List ℕ) × (q' : BatchBuffer PendingInteger) × Ready level q'
    × (encode_integer m v (stream cells k)
        ≡ returns (ok tt) (stream cells' (k + length (integer_bits v))))
    × (decode_integer level m (bit_session q (stream cells' k))
        ≡ returns (ok v) (bit_session q' (stream cells' (k + length (integer_bits v)))))

taken :
    (level : SimdLevel) (m : PerMeta) (q q' : BatchBuffer PendingInteger) (octets : List ℕ)
    (b b' : BitStream)
    → m.has_range_constraint ≡ false
    → Ready level q
    → 1 ≤ length octets
    → take_integer b ≡ returns (ok octets) b'
    → answer_integer level octets (pushed q (filled_slot octets))
      ≡ returns (ok (decode_integer_value octets)) q'
    → decode_integer level m (bit_session q b)
      ≡ returns (ok (decode_integer_value octets)) (bit_session q' b')
unfolding decode_integer
taken level m q q' octets b b' e r some_octets read answer =
    ap (λ (f : Op BitSession ℕ). f (bit_session q b))
      (if_false m.has_range_constraint ranged free e)
    ∙ ap (λ o. continue (moved o) answered) read
    ∙ ap (λ (f : Op BitSession ℕ). f (bit_session q b'))
        (if_false (length octets == 0) (pure 0) answer_pushed
          (eqb-false (length octets) 0 (omega arith)))
    ∙ ap (λ o. continue (queued o) (λ _. on_pending (answer_integer level octets)))
        (push-pushed level q (filled_slot octets) r)
    ∙ ap queued answer
  where
    ranged : Op BitSession ℕ
    ranged = on_bits (decode_constrained_whole_number m.min_value m.max_value)

    answered : List ℕ → Op BitSession ℕ
    answered xs =
        if length xs == 0
        then pure 0
        else (on_pending (push (filled_slot xs)) >> on_pending (answer_integer level xs))

    answer_pushed : Op BitSession ℕ
    answer_pushed =
        on_pending (push (filled_slot octets)) >> on_pending (answer_integer level octets)

    moved : Outcome BitStream (List ℕ) → Outcome BitSession (List ℕ)
    moved (returns a u) = returns a (bit_session q u)
    moved fault = fault

    queued : {A : Type 0} → Outcome (BatchBuffer PendingInteger) A → Outcome BitSession A
    queued (returns a p) = returns a (bit_session p b')
    queued fault = fault

    free : Op BitSession ℕ
    free = on_bits take_integer >>= answered

-- An `int64_t` that is not negative, without a constraint, at any SIMD level and with any ready
-- batch, written by the UPER `encode_integer` at any bit of a buffer of octets with room for
-- it: `decode_integer`, started where it was written, answers it, both stop behind the bits
-- that were written, and the batch is ready again.
pub integer-IntegerCarried :
    (level : SimdLevel) (m : PerMeta) (q : BatchBuffer PendingInteger) (v : ℕ) (cells : List ℕ)
    (k : ℕ)
    → m.has_range_constraint ≡ false
    → v < 2 ^ 63
    → Ready level q
    → All IsByte cells
    → k + length (integer_bits v) ≤ length cells * 8
    → IntegerCarried level m q v cells k
integer-IntegerCarried level m q v cells k e h r all room =
    let (n, s, b, w) = value_size-octets v h in
    let octets : List ℕ = big_endian (value_size v) v in
    let c : IsContents octets = (
      big_endian-IsByte (value_size v) v,
      omega (arith, s, length-big_endian (value_size v) v),
      omega (arith, s, length-big_endian (value_size v) v),
    ) in
    let (cells', held, wrote, read) =
      BitPuts-BitCarried (encode_integer m v) take_integer (integer_bits v) octets
        (encode_integer-BitPuts m v e h) (take_integer-BitGets v h) cells k all room in
    let (q', r', answer) = answer_integer-Answers level q octets r c in
    let number : decode_integer_value octets ≡ v =
      ap (λ (j : ℕ). decode_integer_value (big_endian j v)) s ∙ decoded n v h b w in
    (
      cells',
      q',
      r',
      wrote,
      taken level m q q' octets (stream cells' k) (stream cells' (k + length (integer_bits v))) e r
            c.1 read answer
          ∙ ap
              (λ (x : ℕ).
                returns (ok x) (bit_session q' (stream cells' (k + length (integer_bits v)))))
              number,
    )
