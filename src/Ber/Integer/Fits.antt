-- ===== src/Ber/Integer/Fits.antt =====
-- The contents octets that ber_encoder.cpp writes, before the checks of arch_codec.hpp.
use asn1pp.Prelude.{
  ℕ, zero, suc, ◌-◌, ◌^◌, ◌≤◌, ◌<◌, ◌≡◌, refl, sym, ap, ◌∙◌, Bool, true, false, List, [], ◌∷◌,
  if◌then◌else◌, ◌==◌, arith, bit_and, big_endian, big_endian-IsByte, bytes-big_endian, IsByte, All,
  append-nil, length, eqb-false, ltb-false, inl, inr, Bool-cases, subst,
}
use asn1pp.ErrorCode.{ErrorCode}
use asn1pp.Int64.{IsInt64, is_negative}
use asn1pp.ArchCodec.{out_of_octets, check_slot}
use asn1pp.Ber.Integer.{
  raw_octets, strip_sign, needs_extra, encode_integer_bytes, decode_integer_value,
}
use asn1pp.Ber.Integer.RoundTrip.{sign_octet, raw_octets-eq, decode-encode_integer_bytes}
use asn1pp.Ber.Integer.Size.{length-encode_integer_bytes}
use asn1pp.Ber.Integer.Slots.{fold_be-cons}
use asn1pp.Ber.Integer.Ranges.{fold-in_bounds}

All-strip_sign :
    (left sign : ℕ) (xs : List ℕ) → All IsByte xs → All IsByte (strip_sign left sign xs)
unfolding strip_sign
All-strip_sign zero sign xs h = h
All-strip_sign (suc left) sign [] h = tt
All-strip_sign (suc left) sign (x ∷ xs) h = elim (Bool-cases (x == sign)) [
  | inl e ↦ rw e (All-strip_sign left sign xs h.1)
  | inr e ↦ rw e h
]

All-finished :
    (f : Bool) (xs : List ℕ)
    → All IsByte xs
    → All IsByte (if needs_extra f xs then sign_octet f ∷ xs else xs)
All-finished f xs h = elim (Bool-cases (needs_extra f xs)) [
  | inl e ↦ rw e (sign f, h)
  | inr e ↦ rw e h
]
  where
    sign : (f : Bool) → sign_octet f < 256
    sign true = omega arith
    sign false = omega arith

pub encode_integer_bytes-IsByte : (v : ℕ) → All IsByte (encode_integer_bytes v)
unfolding encode_integer_bytes
encode_integer_bytes-IsByte v = elim (Bool-cases (v == 0)) [
  | inl e ↦ rw e (omega arith, tt)
  | inr e ↦ rw e (
      All-finished (is_negative v) (strip_sign 7 (sign_octet (is_negative v)) (raw_octets 8 v [])) (
        All-strip_sign 7 (sign_octet (is_negative v)) (raw_octets 8 v []) (
          subst (All IsByte) (sym (raw_octets-eq 8 v [] ∙ append-nil (big_endian 8 v)))
            (big_endian-IsByte 8 v))))
]

-- A number lies within the bounds of the bytes that it is decoded from.
decode-in_bounds :
    (bytes : List ℕ)
    → All IsByte bytes
    → 1 ≤ length bytes
    → length bytes ≤ 8
    → out_of_octets (decode_integer_value bytes) (length bytes) ≡ false
unfolding decode_integer_value
decode-in_bounds [] all lo hi = absurd (omega arith)
decode-in_bounds (x ∷ xs) all lo hi =
    let (n, e, w) = bytes-big_endian xs all.1 in
    ap (λ (m : ℕ). out_of_octets m (suc (length xs)))
      (fold_be-cons (if bit_and x 0x80 == 0 then 0 else 2 ^ 64 - 1) (length xs) x n xs
        (small (bit_and x 0x80 == 0)) all.0 w e)
    ∙ fold-in_bounds (length xs) x n (omega arith) all.0 w
  where
    small : (b : Bool) → (if b then 0 else 2 ^ 64 - 1) < 2 ^ 64
    small true = omega arith
    small false = omega arith

-- The checks of `batch_encode_integers` on an `int64_t` and the number of octets that
-- `encode_integer_bytes` gives it find no error.
pub check_slot-eq :
    (v : ℕ) → IsInt64 v → check_slot v (length (encode_integer_bytes v)) ≡ (ErrorCode.ok, v)
unfolding check_slot
check_slot-eq v w =
    let (lo, hi) = length-encode_integer_bytes v w in
    let inside : out_of_octets v (length (encode_integer_bytes v)) ≡ false =
      ap (λ (m : ℕ). out_of_octets m (length (encode_integer_bytes v)))
        (sym (decode-encode_integer_bytes v w))
      ∙ decode-in_bounds (encode_integer_bytes v) (encode_integer_bytes-IsByte v) lo hi in
    rw
      (
        eqb-false (length (encode_integer_bytes v)) 0 (omega arith),
        ltb-false 8 (length (encode_integer_bytes v)) hi,
        inside,
      )
      refl
