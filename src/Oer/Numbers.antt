-- ===== src/Oer/Numbers.antt =====
-- libs/codec/oer/decoder.hpp in front of the octets of an INTEGER, constrained or not.
use asn1pp.Prelude.{
  ℕ, ◌%◌, ◌^◌, ◌<◌, ◌≡◌, refl, sym, ap, ◌∙◌, true, false, not, List, ◌++◌, ltb, ◌==◌, length,
  ltb-false, eqb-false, big_endian, length-big_endian, fold_be-big_endian, arith, subst, Bool-cases,
  inl, inr,
}
use asn1pp.ErrorCode.{ErrorCode}
use asn1pp.Result.{ok, returns, Op, pure, ensure, ◌>>◌, ◌>>=◌, if_true}
use asn1pp.Buffer.{BufferView, view, Puts, Gets, Gets-then, Gets-map, Gets-copy}
use asn1pp.Int64.{InRange, IsInt64, is_negative}
use asn1pp.Ber.Integer.RoundTrip.{decode-encode_integer_bytes}
use asn1pp.Ber.Integer.Size.{length-encode_integer_bytes}
use asn1pp.Oer.Meta.{OerMeta, signed_le, range_byte_width, integer_byte_width}
use asn1pp.Oer.Encoder.{encode_integer_bytes, encode_unconstrained_integer}
use asn1pp.Oer.Decoder.{
  unsigned_to_signed, read_be_bytes, take_checked, check_range, decode_integer,
  decode_unconstrained_integer, decode_integer_value, decode_length_determinant,
}
use asn1pp.Oer.Writing.{IntegerWidth, low_two, low_four, cons}
use asn1pp.Oer.Strings.{counted_octets, counted-Puts}
use asn1pp.Oer.Reading.{decode_length_determinant-Gets}
use asn1pp.Oer.Integers.{InWidth, range_byte_width-IntegerWidth, range_byte_width-InWidth}
use asn1pp.Oer.Writing.{determinant_octets}

low_octets :
    (w value : ℕ)
    → IntegerWidth w
    → IsInt64 value
    → big_endian w (value % 256 ^ w) ≡ big_endian w value
low_octets w value (inl e) i = rw e (cons _ _ _ _ (omega arith) refl)
low_octets w value (inr (inl e)) i = rw e (low_two value)
low_octets w value (inr (inr (inl e))) i = rw e (low_four value)
low_octets w value (inr (inr (inr e))) i =
    let small : value % 256 ^ 8 ≡ value = omega arith in rw e (ap (big_endian 8) small)

pub integer_byte_width-IntegerWidth :
    (m : OerMeta) → m.has_range_constraint ≡ true → IntegerWidth (integer_byte_width m)
unfolding integer_byte_width
integer_byte_width-IntegerWidth m t =
    rw (if_true m.has_range_constraint (range_byte_width m.min_value m.max_value) 0 t)
      (range_byte_width-IntegerWidth m.min_value m.max_value)

-- The octets of fixed width, as a number.
read_ranged :
    (w value : ℕ)
    → IntegerWidth w
    → IsInt64 value
    → read_be_bytes (big_endian w value) ≡ value % 256 ^ w
unfolding read_be_bytes
read_ranged w value k i =
    ap (λ (xs : List ℕ). read_be_bytes xs) (sym (low_octets w value k i))
    ∙ fold_be-big_endian w (value % 256 ^ w) (below w k) (omega arith)
  where
    below : (w : ℕ) → IntegerWidth w → value % 256 ^ w < 256 ^ w
    below w (inl e) = rw e (omega arith)
    below w (inr (inl e)) = rw e (omega arith)
    below w (inr (inr (inl e))) = rw e (omega arith)
    below w (inr (inr (inr e))) = rw e (omega arith)

-- Sign extension gives the number back that fits the octets.
unsigned_to_signed-InWidth :
    (w value : ℕ)
    → IntegerWidth w
    → IsInt64 value
    → InWidth w value
    → unsigned_to_signed (value % 256 ^ w) w ≡ value
unfolding unsigned_to_signed
unsigned_to_signed-InWidth w value (inl e) i h =
    let k : InWidth 1 value = subst (λ v. InWidth v value) e h in rw e (ground arith)
unsigned_to_signed-InWidth w value (inr (inl e)) i h =
    let k : InWidth 2 value = subst (λ v. InWidth v value) e h in rw e (ground arith)
unsigned_to_signed-InWidth w value (inr (inr (inl e))) i h =
    let k : InWidth 4 value = subst (λ v. InWidth v value) e h in rw e (ground arith)
unsigned_to_signed-InWidth w value (inr (inr (inr e))) i h = rw e (omega arith)

-- A value of an unsigned range fits the octets of its width.
unsigned_fits :
    (lo hi value : ℕ)
    → is_negative lo ≡ false
    → InRange lo hi value
    → value % 256 ^ range_byte_width lo hi ≡ value
unfolding range_byte_width
unsigned_fits lo hi value p r = rw p (elim (Bool-cases (signed_le hi 255)) [
  | inl t ↦ rw t (ground (arith, r.above, r.below, r.int64))
  | inr f ↦ rw f (elim (Bool-cases (signed_le hi 65535)) [
    | inl t ↦ rw t (ground (arith, r.above, r.below, r.int64))
    | inr g ↦ rw g (elim (Bool-cases (signed_le hi 4294967295)) [
      | inl t ↦ rw t (ground (arith, r.above, r.below, r.int64))
      | inr k ↦ rw k (omega (arith, r.int64))
    ])
  ])
])

check_range-answers :
    (m : OerMeta) (value : ℕ) (v : BufferView)
    → m.has_range_constraint ≡ true
    → InRange m.min_value m.max_value value
    → check_range m (value % 256 ^ integer_byte_width m) v ≡ returns (ok value) v
unfolding check_range integer_byte_width
check_range-answers m value v t r = rw t (elim (Bool-cases (is_negative m.min_value)) [
  | inl neg ↦
      rw
        (
          neg,
          unsigned_to_signed-InWidth (range_byte_width m.min_value m.max_value) value
              (range_byte_width-IntegerWidth m.min_value m.max_value) r.int64
              (range_byte_width-InWidth m.min_value m.max_value value neg r),
          r.above,
          r.below,
        )
        refl
  | inr pos ↦ rw (pos, unsigned_fits m.min_value m.max_value value pos r) refl
])

-- The octets of the width of the range, in front of `decode_integer`: every value of the range is
-- read, whatever its sign.
pub decode_integer-ranged :
    (m : OerMeta) (value : ℕ)
    → m.has_range_constraint ≡ true
    → InRange m.min_value m.max_value value
    → Gets (decode_integer m) (big_endian (integer_byte_width m) value) value
unfolding decode_integer
decode_integer-ranged m value t r b rest =
    ap (λ (d : Op BufferView ℕ). d (view b (big_endian w value ++ rest)))
      (if_true m.has_range_constraint (take_checked w >>= λ xs. check_range m (read_be_bytes xs))
        decode_unconstrained_integer t)
    ∙ rw
        (
          Gets-copy w (big_endian w value) (sym (length-big_endian w value)) b rest,
          read_ranged w value (integer_byte_width-IntegerWidth m t) r.int64,
        )
        (check_range-answers m value (view (b ++ big_endian w value) rest) t r)
  where
    w : ℕ
    w = integer_byte_width m

-- An unconstrained integer: the octets of `encode_integer_bytes` behind their length.
pub encode_unconstrained_integer-Puts :
    (value : ℕ)
    → IsInt64 value
    → Puts (encode_unconstrained_integer value) (counted_octets (encode_integer_bytes value))
unfolding encode_unconstrained_integer
encode_unconstrained_integer-Puts value i =
    counted-Puts (encode_integer_bytes value) (omega (arith, length-encode_integer_bytes value i))

pub decode_unconstrained_integer-Gets :
    (value : ℕ)
    → IsInt64 value
    → Gets decode_unconstrained_integer (counted_octets (encode_integer_bytes value)) value
unfolding decode_unconstrained_integer
decode_unconstrained_integer-Gets value i =
    Gets-then decode_length_determinant body (determinant_octets k) bytes k value
      (decode_length_determinant-Gets k (omega (arith, length-encode_integer_bytes value i)))
      (λ b rest.
        rw
          (
            eqb-false k 0 (omega (arith, length-encode_integer_bytes value i)),
            ltb-false 8 k (omega (arith, length-encode_integer_bytes value i)),
          )
          (Gets-map (take_checked k) decode_integer_value bytes bytes value (Gets-copy k bytes refl)
            (decode-encode_integer_bytes value i) b rest))
  where
    bytes : List ℕ
    bytes = encode_integer_bytes value

    k : ℕ
    k = length bytes

    body : ℕ → Op BufferView ℕ
    body val_len = do
      ensure (not (val_len == 0)) ErrorCode.invalid_length
      ensure (not (ltb 8 val_len)) ErrorCode.value_out_of_range
      val_buf ← take_checked val_len
      pure (decode_integer_value val_buf)
