-- ===== src/Oer/Refused.antt =====
-- libs/codec/oer/encoder.hpp: values of unsigned ranges that the check of the batch takes for
-- signed ones.
use asn1pp.Int64.{InRange}
use asn1pp.Prelude.{
  ℕ, suc, ◌-◌, ◌*◌, ◌^◌, ◌≤◌, ◌<◌, ◌≡◌, refl, ap, ◌∙◌, true, List, ◌∷◌, length, ltb-true, ltb-false,
  leb-true, arith, ◌⊎◌, inl, inr,
}
use asn1pp.ErrorCode.{ErrorCode}
use asn1pp.Result.{err, returns, Op, if_true}
use asn1pp.Buffer.{BufferView}
use asn1pp.Arch.{SimdLevel}
use asn1pp.ArchCodec.{check_slot, batch_encode_integers, store_u64_be}
use asn1pp.Batch.{BatchBuffer, push, drain}
use asn1pp.Ber.Session.{Session, session, on_buf}
use asn1pp.Ber.Encoder as BerEncoder
use asn1pp.Ber.Encoder.{PendingInteger}
use asn1pp.Oer.Meta.{OerMeta, integer_byte_width}
use asn1pp.Oer.Encoder.{
  range_slot, drain_full, encode_ranged_integer, encode_integer, encode_unconstrained_integer,
}
use asn1pp.Oer.Integers.{check_slot-unsigned}
use asn1pp.Oer.Writing.{IntegerWidth}
use asn1pp.Oer.Batched.{range_slot-inside}

-- One slot that fails, in a batch of one.
drain_refused :
    (s : PendingInteger) (xs : List PendingInteger)
    → check_slot s.value s.size_of ≡ (ErrorCode.buffer_overflow, 0)
    → s.size_of ≤ length s.value_buf
    → (q' : BatchBuffer PendingInteger) × (drain_full SimdLevel.scalar
          (record { items = s ∷ xs; count = 1 })
        ≡ returns (err ErrorCode.buffer_overflow) q')
unfolding drain_full BerEncoder.drain_full BerEncoder.drain_last BerEncoder.batch_size drain
    batch_encode_integers
drain_refused s xs h inside = (
  record { items = record s { value_buf = store_u64_be s.value_buf 0 s.size_of } ∷ xs; count = 0 },
  rw (leb-true 1 (suc (length xs)) (omega arith), leb-true s.size_of (length s.value_buf) inside, h)
      refl,
)

refused :
    (m : OerMeta) (x : PendingInteger) (xs : List PendingInteger) (v : BufferView) (value : ℕ)
    → InRange m.min_value m.max_value value
    → IntegerWidth (integer_byte_width m)
    → integer_byte_width m ≤ length v.cells
    → check_slot value (integer_byte_width m) ≡ (ErrorCode.buffer_overflow, 0)
    → (q' : BatchBuffer PendingInteger) × (encode_ranged_integer SimdLevel.scalar m value
          (session (record { items = x ∷ xs; count = 0 }) v)
        ≡ returns (err ErrorCode.buffer_overflow) (session q' v))
unfolding encode_ranged_integer push
refused m x xs v value i k fits c =
    let s : PendingInteger = range_slot (integer_byte_width m) value in
    let (q', e) = drain_refused s xs c (range_slot-inside (integer_byte_width m) value k) in
    (
      q',
      rw
          (
            i.above,
            i.below,
            ltb-false (length v.cells) (integer_byte_width m) fits,
            ltb-true 0 (suc (length xs)) (omega arith),
            e,
          )
          refl,
    )

-- A value of an OER range whose width is 1, 2 or 4 octets, with the highest bit of that width
-- set, at scalar level with an empty batch and with room in the view: `encode_integer` answers
-- `buffer_overflow` and leaves the view where it was.
pub encode_integer-unsigned_top :
    (m : OerMeta) (x : PendingInteger) (xs : List PendingInteger) (v : BufferView) (value : ℕ)
    → m.has_range_constraint ≡ true
    → InRange m.min_value m.max_value value
    → (integer_byte_width m ≡ 1) ⊎ ((integer_byte_width m ≡ 2) ⊎ (integer_byte_width m ≡ 4))
    → 2 ^ (integer_byte_width m * 8 - 1) ≤ value
    → value < 256 ^ integer_byte_width m
    → integer_byte_width m ≤ length v.cells
    → (q' : BatchBuffer PendingInteger) × (encode_integer SimdLevel.scalar m value
          (session (record { items = x ∷ xs; count = 0 }) v)
        ≡ returns (err ErrorCode.buffer_overflow) (session q' v))
unfolding encode_integer
encode_integer-unsigned_top m x xs v value t i w top fit room =
    let (q', e) =
      refused m x xs v value i (narrow w) room (check_slot-unsigned _ value w top fit) in
    (
      q',
      ap
            (λ (f : Op (Session PendingInteger) (Unit {0})).
              f (session (record { items = x ∷ xs; count = 0 }) v))
            (if_true m.has_range_constraint (encode_ranged_integer SimdLevel.scalar m value)
              (on_buf (encode_unconstrained_integer value)) t)
          ∙ e,
    )
  where
    narrow :
        (integer_byte_width m ≡ 1) ⊎ ((integer_byte_width m ≡ 2) ⊎ (integer_byte_width m ≡ 4))
        → IntegerWidth (integer_byte_width m)
    narrow (inl e) = inl e
    narrow (inr (inl e)) = inr (inl e)
    narrow (inr (inr e)) = inr (inr (inl e))
