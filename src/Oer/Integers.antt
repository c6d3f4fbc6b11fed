-- ===== src/Oer/Integers.antt =====
-- The widths of libs/codec/oer for range constrained integers, against the values of the range.
use asn1pp.Prelude.{
  ℕ, ◌-◌, ◌*◌, ◌^◌, ◌≤◌, ◌<◌, ◌≡◌, refl, true, ◌&&◌, arith, subst, Bool-cases, inl, inr, ◌⊎◌,
}
use asn1pp.ErrorCode.{ErrorCode}
use asn1pp.Int64.{InRange, IsInt64, is_negative}
use asn1pp.ArchCodec.{check_slot, out_of_octets}
use asn1pp.Oer.Meta.{signed_le, range_byte_width}
use asn1pp.Oer.Writing.{IntegerWidth}

-- The number fits `w` octets in two's complement.
abbrev pub InWidth : ℕ → ℕ → Type 0
InWidth w value = (w ≡ 8) ⊎ ((value < 2 ^ (w * 8 - 1)) ⊎ (2 ^ 64 - 2 ^ (w * 8 - 1) ≤ value))

pub range_byte_width-IntegerWidth : (lo hi : ℕ) → IntegerWidth (range_byte_width lo hi)
unfolding range_byte_width
range_byte_width-IntegerWidth lo hi = ground arith

-- Bounds `-l` and `l - 1` around the range.
narrow :
    (l lo hi value : ℕ)
    → 1 ≤ l
    → l ≤ 2 ^ 63
    → (signed_le (2 ^ 64 - l) lo && signed_le hi (l - 1)) ≡ true
    → InRange lo hi value
    → (value < l) ⊎ (2 ^ 64 - l ≤ value)
narrow l lo hi value p q t r = ground (arith, r.above, r.below, r.int64)

-- The width that OER chooses for a range with a negative lower bound holds every value of the
-- range in two's complement.
pub range_byte_width-InWidth :
    (lo hi value : ℕ)
    → is_negative lo ≡ true
    → InRange lo hi value
    → InWidth (range_byte_width lo hi) value
unfolding range_byte_width
range_byte_width-InWidth lo hi value neg r =
    rw neg (elim (Bool-cases (signed_le (2 ^ 64 - 128) lo && signed_le hi 127)) [
      | inl t ↦ rw t (inr (narrow 128 lo hi value (omega arith) (omega arith) t r))
      | inr f ↦ rw f (elim (Bool-cases (signed_le (2 ^ 64 - 32768) lo && signed_le hi 32767)) [
        | inl t ↦ rw t (inr (narrow 32768 lo hi value (omega arith) (omega arith) t r))
        | inr g ↦
            rw g
              (elim (Bool-cases (signed_le (2 ^ 64 - 2147483648) lo && signed_le hi 2147483647)) [
                | inl t ↦ rw t (inr (narrow 2147483648 lo hi value (omega arith) (omega arith) t r))
                | inr k ↦ rw k (inl refl)
              ])
      ])
    ])

-- What fits the octets of its slot passes the checks of the batch.
pub check_slot-InWidth :
    (w value : ℕ)
    → IntegerWidth w
    → IsInt64 value
    → InWidth w value
    → check_slot value w ≡ (ErrorCode.ok, value)
unfolding check_slot out_of_octets
check_slot-InWidth w value (inl e) i h =
    let k : InWidth 1 value = subst (λ v. InWidth v value) e h in rw e (ground arith)
check_slot-InWidth w value (inr (inl e)) i h =
    let k : InWidth 2 value = subst (λ v. InWidth v value) e h in rw e (ground arith)
check_slot-InWidth w value (inr (inr (inl e))) i h =
    let k : InWidth 4 value = subst (λ v. InWidth v value) e h in rw e (ground arith)
check_slot-InWidth w value (inr (inr (inr e))) i h = rw e refl

-- An unsigned value with the upper bit of its octets set does not.
pub check_slot-unsigned :
    (w value : ℕ)
    → (w ≡ 1) ⊎ ((w ≡ 2) ⊎ (w ≡ 4))
    → 2 ^ (w * 8 - 1) ≤ value
    → value < 256 ^ w
    → check_slot value w ≡ (ErrorCode.buffer_overflow, 0)
unfolding check_slot out_of_octets
check_slot-unsigned w value (inl e) h k =
    let lo : 2 ^ 7 ≤ value = subst (λ v. 2 ^ (v * 8 - 1) ≤ value) e h in
    let hi : value < 256 ^ 1 = subst (λ v. value < 256 ^ v) e k in rw e (ground arith)
check_slot-unsigned w value (inr (inl e)) h k =
    let lo : 2 ^ 15 ≤ value = subst (λ v. 2 ^ (v * 8 - 1) ≤ value) e h in
    let hi : value < 256 ^ 2 = subst (λ v. value < 256 ^ v) e k in rw e (ground arith)
check_slot-unsigned w value (inr (inr e)) h k =
    let lo : 2 ^ 31 ≤ value = subst (λ v. 2 ^ (v * 8 - 1) ≤ value) e h in
    let hi : value < 256 ^ 4 = subst (λ v. value < 256 ^ v) e k in rw e (ground arith)
