-- ===== src/Oer/Coer.antt =====
-- libs/codec/oer/coer_validator.hpp: the checks of the canonical form.
use asn1pp.Prelude.{
  ℕ, suc, ◌+◌, ◌/◌, ◌%◌, ◌≤◌, ◌≡◌, refl, ap, Bool, true, false, not, ◌||◌, List, [], ◌∷◌,
  if◌then◌else◌, ltb, ◌==◌, length, take, drop, bit_and, fold_be, arith, eqb-true, eqb-false,
  ltb-false, leb-true, leb-false,
}
use asn1pp.Prelude.Bits.{and-80}
use asn1pp.ErrorCode.{ErrorCode}
use asn1pp.Result.{ok, err, returns, Op, pure, raise, ensure, ◌>>=◌, ◌>>◌}
use asn1pp.Buffer.{BufferView, view, size, peek, copy_out}
use asn1pp.Int64.{IsInt64}
use asn1pp.Ber.Der.{is_integer_minimal}
use asn1pp.Ber.Der.Minimal.{is_integer_minimal-encode_integer_bytes}
use asn1pp.Ber.Integer.Size.{length-encode_integer_bytes}
use asn1pp.Oer.Meta.{OerMeta}
use asn1pp.Oer.Encoder.{encode_integer_bytes}
use asn1pp.Oer.Writing.{determinant_octets}
use asn1pp.Oer.Strings.{counted_octets}

-- The statements of `is_integer_minimal` in der_encoder.cpp.
abbrev pub is_integer_bytes_minimal : List ℕ → Bool
is_integer_bytes_minimal = is_integer_minimal

-- The contents from `content_start` on.
unfoldable pub check_contents : ℕ → ℕ → Op BufferView (Unit {0})
check_contents content_start content_len = do
  n ← size
  ensure (not (ltb n (content_start + content_len))) ErrorCode.buffer_underflow
  ensure (not (content_len == 0)) ErrorCode.constraint_violation
  octets ← copy_out (content_start + content_len)
  ensure (is_integer_bytes_minimal (drop content_start octets)) ErrorCode.constraint_violation

-- A first octet 10xxxxxx is taken for a count of length octets.
unfoldable pub check_long_contents : ℕ → Op BufferView (Unit {0})
check_long_contents num_octets = do
  ensure (not (num_octets == 0 || ltb 4 num_octets)) ErrorCode.constraint_violation
  n ← size
  ensure (not (ltb n (1 + num_octets))) ErrorCode.buffer_underflow
  octets ← copy_out (1 + num_octets)
  check_contents (1 + num_octets) (fold_be 0 (drop 1 octets))

unfoldable pub check_counted : Op BufferView (Unit {0})
check_counted = do
  first ← peek 0
  if bit_and first 0x80 == 0
      then check_contents 1 first
      else (if bit_and first 0xc0 == 0x80
          then check_long_contents (bit_and first 0x3f)
          else raise ErrorCode.constraint_violation)

unfoldable pub validate_integer : OerMeta → Op BufferView (Unit {0})
validate_integer m = do
  n ← size
  ensure (not (n == 0)) ErrorCode.constraint_violation
  if not m.has_range_constraint then check_counted else pure tt

unfoldable pub check_long_length : ℕ → Op BufferView (Unit {0})
check_long_length num_octets = do
  ensure (not (num_octets == 0)) ErrorCode.constraint_violation
  n ← size
  ensure (not (ltb n (1 + num_octets))) ErrorCode.buffer_underflow
  second ← peek 1
  ensure (not (second == 0)) ErrorCode.constraint_violation
  octets ← copy_out (1 + num_octets)
  ensure (not (ltb (fold_be 0 (drop 1 octets)) 128)) ErrorCode.constraint_violation

unfoldable pub validate_length_determinant : Op BufferView (Unit {0})
validate_length_determinant = do
  n ← size
  ensure (not (n == 0)) ErrorCode.constraint_violation
  first ← peek 0
  if bit_and first 0x80 == 0
      then pure tt
      else (if bit_and first 0xc0 == 0x80
          then check_long_length (bit_and first 0x3f)
          else raise ErrorCode.constraint_violation)

unfoldable pub validate_octet_string : OerMeta → Op BufferView (Unit {0})
validate_octet_string m = if m.has_size_constraint then pure tt else validate_length_determinant

unfoldable pub validate : OerMeta → Op BufferView (Unit {0})
validate m = validate_integer m

check_contents-minimal :
    (b bytes : List ℕ)
    → 1 ≤ length bytes
    → is_integer_minimal bytes ≡ true
    → check_contents 1 (length bytes) (view b (length bytes ∷ bytes))
      ≡ returns (ok tt) (view b (length bytes ∷ bytes))
unfolding check_contents
check_contents-minimal b bytes h e =
    rw
      (
        one_more,
        ltb-false (suc (length bytes)) (suc (length bytes)) (omega arith),
        eqb-false (length bytes) 0 (omega arith),
        leb-true (suc (length bytes)) (suc (length bytes)) (omega arith),
        take_all bytes,
        e,
      )
      refl
  where
    one_more : 1 + length bytes ≡ suc (length bytes)
    one_more = omega arith

    take_all : (xs : List ℕ) → take (length xs) xs ≡ xs
    take_all [] = refl
    take_all (x ∷ xs) = ap (λ l. x ∷ l) (take_all xs)

short_length : (n : ℕ) → n ≤ 127 → determinant_octets n ≡ n ∷ []
unfolding determinant_octets
short_length n h = rw (leb-true n 127 h) refl

-- The octets of an unconstrained OER integer, any `int64_t`, pass `validate_integer` of the
-- canonical form.
pub validate_integer-counted_octets :
    (m : OerMeta) (value : ℕ) (b : List ℕ)
    → m.has_range_constraint ≡ false
    → IsInt64 value
    → validate_integer m (view b (counted_octets (encode_integer_bytes value)))
      ≡ returns (ok tt) (view b (counted_octets (encode_integer_bytes value)))
unfolding validate_integer check_counted
validate_integer-counted_octets m value b f i =
    rw
      (
        short_length k (omega (arith, length-encode_integer_bytes value i)),
        eqb-false (suc k) 0 (omega arith),
        f,
        eqb-true (bit_and k 0x80) 0 (
            omega (
              arith,
              and-80 k (omega (arith, length-encode_integer_bytes value i)),
              length-encode_integer_bytes value i,
            )),
      )
      (check_contents-minimal b bytes (length-encode_integer_bytes value i).0
        (is_integer_minimal-encode_integer_bytes value))
  where
    bytes : List ℕ
    bytes = encode_integer_bytes value

    k : ℕ
    k = length bytes

middle_length : (n : ℕ) → 128 ≤ n → n ≤ 255 → determinant_octets n ≡ 0x80 ∷ n % 256 ∷ []
unfolding determinant_octets
middle_length n l h =
    let e : 128 + n / 256 ≡ 0x80 = omega arith in
    rw (leb-false n 127 l, leb-true n 16383 (omega arith), e) refl

-- An OCTET STRING of 128 to 255 octets without a size constraint, behind the length determinant
-- that OER writes, is refused by `validate_octet_string`.
pub validate_octet_string-middle :
    (m : OerMeta) (octets b : List ℕ)
    → m.has_size_constraint ≡ false
    → 128 ≤ length octets
    → length octets ≤ 255
    → validate_octet_string m (view b (counted_octets octets))
      ≡ returns (err ErrorCode.constraint_violation) (view b (counted_octets octets))
unfolding validate_octet_string validate_length_determinant check_long_length
validate_octet_string-middle m octets b f l h =
    rw (f, middle_length (length octets) l h, eqb-false (suc (suc (length octets))) 0 (omega arith))
      refl
