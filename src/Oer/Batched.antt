-- ===== src/Oer/Batched.antt =====
-- libs/codec/oer/encoder.hpp: `encode_integer` of a range constrained integer over the batch.
use asn1pp.Prelude.{
  ℕ, ◌≤◌, ◌≡◌, refl, ap, ◌∙◌, true, ◌||◌, length, ltb-true, ltb-false, big_endian, overwrite,
  replicate, length-big_endian, arith, le_or_lt, inl, inr,
}
use asn1pp.ErrorCode.{ErrorCode}
use asn1pp.Result.{err, returns, Op, if_true}
use asn1pp.Buffer.{BufferView, emitted}
use asn1pp.Int64.{InRange, signed_lt}
use asn1pp.Arch.{SimdLevel}
use asn1pp.Batch.{BatchBuffer}
use asn1pp.Ber.Session.{Session, session, with_buf, on_buf}
use asn1pp.Ber.Encoder.{PendingInteger}
use asn1pp.Ber.Encoder.Pending.{Ready, push-pushed, drain_full-Ready, filled_slot-inside}
use asn1pp.Oer.Meta.{OerMeta, integer_byte_width}
use asn1pp.Oer.Octets.{write_be_integer}
use asn1pp.Oer.Encoder.{
  range_slot, drain_full, encode_ranged_integer, encode_integer, encode_unconstrained_integer,
}
use asn1pp.Oer.Writing.{IntegerWidth, write_be_integer-Puts}
use asn1pp.Oer.Integers.{InWidth, check_slot-InWidth}
use asn1pp.Oer.Numbers.{integer_byte_width-IntegerWidth}

-- The view with the octets in front, or left alone for lack of room.
put_integer :
    (w value : ℕ) (v : BufferView)
    → IntegerWidth w
    → w ≤ length v.cells
    → write_be_integer w value v ≡ emitted (big_endian w value) v
put_integer w value v k h =
    write_be_integer-Puts w value k v.before v.cells (omega (arith, length-big_endian w value))
    ∙ rw
        (ltb-false (length v.cells) (length (big_endian w value))
          (omega (arith, length-big_endian w value)))
        refl

pub range_slot-inside :
    (w value : ℕ) → IntegerWidth w → w ≤ length (overwrite (replicate 8 0) 0 (big_endian w value))
range_slot-inside w value k = omega (
  arith,
  length-big_endian w value,
  filled_slot-inside value (big_endian w value) (omega (arith, length-big_endian w value, k)),
)

ranged :
    (level : SimdLevel) (m : OerMeta) (q : BatchBuffer PendingInteger) (v : BufferView) (value : ℕ)
    → IntegerWidth (integer_byte_width m)
    → InRange m.min_value m.max_value value
    → InWidth (integer_byte_width m) value
    → Ready level q
    → (q' : BatchBuffer PendingInteger) × Ready level q'
      × (encode_ranged_integer level m value (session q v)
          ≡ with_buf q' (emitted (big_endian (integer_byte_width m) value) v))
unfolding encode_ranged_integer drain_full
ranged level m q v value k i h r = elim (le_or_lt w (length v.cells)) [
  | inl fits ↦
      let (q', r', e) =
        drain_full-Ready level q s r
          (check_slot-InWidth w value k i.int64 h, range_slot-inside w value k) in
      (
        q',
        r',
        rw
            (
              i.above,
              i.below,
              ltb-false (length v.cells) w fits,
              push-pushed level q s r,
              e,
              put_integer w value v k fits,
            )
            refl,
      )
  | inr short ↦ (
    q,
    r,
    rw
        (
          i.above,
          i.below,
          ltb-true (length v.cells) w short,
          ltb-true (length v.cells) (length (big_endian w value))
              (omega (arith, length-big_endian w value)),
        )
        refl,
  )
]
  where
    w : ℕ
    w = integer_byte_width m

    s : PendingInteger
    s = range_slot w value

-- `encode_integer` of a range.
pub encode_integer-ranged :
    (level : SimdLevel) (m : OerMeta) (q : BatchBuffer PendingInteger) (v : BufferView) (value : ℕ)
    → m.has_range_constraint ≡ true
    → InRange m.min_value m.max_value value
    → InWidth (integer_byte_width m) value
    → Ready level q
    → (q' : BatchBuffer PendingInteger) × Ready level q'
      × (encode_integer level m value (session q v)
          ≡ with_buf q' (emitted (big_endian (integer_byte_width m) value) v))
unfolding encode_integer
encode_integer-ranged level m q v value t i h r =
    let (q', r', e) = ranged level m q v value (integer_byte_width-IntegerWidth m t) i h r in
    (
      q',
      r',
      ap (λ (f : Op (Session PendingInteger) (Unit {0})). f (session q v))
            (if_true m.has_range_constraint (encode_ranged_integer level m value)
              (on_buf (encode_unconstrained_integer value)) t)
          ∙ e,
    )

-- A value outside the range.
pub encode_integer-out_of_range :
    (level : SimdLevel) (m : OerMeta) (q : BatchBuffer PendingInteger) (v : BufferView) (value : ℕ)
    → m.has_range_constraint ≡ true
    → (signed_lt value m.min_value || signed_lt m.max_value value) ≡ true
    → encode_integer level m value (session q v)
      ≡ returns (err ErrorCode.value_out_of_range) (session q v)
unfolding encode_integer encode_ranged_integer
encode_integer-out_of_range level m q v value t o =
    ap (λ (f : Op (Session PendingInteger) (Unit {0})). f (session q v))
      (if_true m.has_range_constraint (encode_ranged_integer level m value)
        (on_buf (encode_unconstrained_integer value)) t)
    ∙ rw o refl
