-- ===== src/Ber/Encoder/Batched.antt =====
-- libs/codec/ber/ber_encoder.cpp: `encode_integer` over the batch.
use asn1pp.Prelude.{ℕ, ◌≡◌, ◌≤◌, refl, false, length, leb-true}
use asn1pp.Buffer.{BufferView}
use asn1pp.Traits.{UniversalTag, make_universal}
use asn1pp.Tlv
use asn1pp.Arch.{SimdLevel}
use asn1pp.Batch.{BatchBuffer}
use asn1pp.Int64.{IsInt64}
use asn1pp.Ber.Integer.{encode_integer_bytes}
use asn1pp.Ber.Integer.Size.{length-encode_integer_bytes}
use asn1pp.Ber.Integer.Fits.{check_slot-eq}
use asn1pp.Ber.Session.{session, with_buf}
use asn1pp.Ber.Encoder.{PendingInteger, push_slot, filled_slot, encode_integer}
use asn1pp.Ber.Encoder.Pending.{Ready, push-pushed, drain_full-Ready, filled_slot-inside}

-- `encode_integer` of any `int64_t`, at any SIMD level and from any ready batch, leaves the
-- view and answers as `encode_tlv` does for the octets of `encode_integer_bytes`. The batch
-- causes no error and no access out of bounds, and is ready again.
pub encode_integer-Ready :
    (level : SimdLevel) (q : BatchBuffer PendingInteger) (v : BufferView) (value : ℕ)
    → Ready level q
    → IsInt64 value
    → (q' : BatchBuffer PendingInteger) × Ready level q'
      × (encode_integer level value (session q v)
          ≡ with_buf q' (
              Tlv.encode_tlv
                (make_universal UniversalTag.integer false)
                (encode_integer_bytes value)
                v))
unfolding encode_integer push_slot
encode_integer-Ready level q v value r w =
    let short : length (encode_integer_bytes value) ≤ 8 = (length-encode_integer_bytes value w).1 in
    let s : PendingInteger = filled_slot value (encode_integer_bytes value) in
    let (q', r', e) =
      drain_full-Ready level q s r
        (check_slot-eq value w, filled_slot-inside value (encode_integer_bytes value) short) in
    (
      q',
      r',
      rw (leb-true (length (encode_integer_bytes value)) 8 short, push-pushed level q s r, e) refl,
    )
