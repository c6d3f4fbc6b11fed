-- ===== src/Oer/Safety.antt =====
-- libs/codec/oer/decoder.hpp on any bytes at all.
use asn1pp.Prelude.{
  ℕ, ◌*◌, ◌^◌, ◌<◌, Bool, not, ◌||◌, List, arith, ltb, ◌==◌, bit_and, bit_or, length, drop, not-ltb,
  if◌then◌else◌,
}
use asn1pp.ErrorCode.{constraint_violation, invalid_length, buffer_underflow, value_out_of_range}
use asn1pp.Result.{ok, Op, ◌>>=◌, ◌>>◌, ensure, pure}
use asn1pp.Buffer.{
  BufferView, size, peek, skip, copy_out, Moved, Reads, Moved-stay, Moved-bind, Moved-ensure,
  Moved-if,
}
use asn1pp.Int64.{is_negative, signed_lt}
use asn1pp.Tlv.Safety.{peek_inside, skip_reads}
use asn1pp.Ber.Decoder.Safety.{copied, held}
use asn1pp.Oer.Meta.{OerMeta, integer_byte_width}
use asn1pp.Oer.Encoder.{size_byte_width}
use asn1pp.Oer.Decoder.{
  read_be_bytes, take_checked, decode_length_determinant, decode_sized, decode_octet_string,
  decode_counted_bits, decode_bit_string, check_range, decode_unconstrained_integer, decode_integer,
  decode_integer_value, unsigned_to_signed,
}

pub take_checked-Reads : (k : ℕ) → Reads (take_checked k)
take_checked-Reads k v =
    held k (copy_out k >>= λ octets. skip k >> pure octets) v (copied k (λ octets. octets) v)

-- A read inside the view, and what follows it.
looked {ℓ} :
    {A : Type ℓ} (i : ℕ) (f : ℕ → Op BufferView A) (v : BufferView)
    → i < length v.cells
    → ((x : ℕ) → Moved v (f x v))
    → Moved v ((peek i >>= f) v)
looked i f v h g = let (x, e) = peek_inside i v h in rw e (g x)

-- A length determinant.
pub decode_length_determinant-Reads : Reads decode_length_determinant
unfolding decode_length_determinant
decode_length_determinant-Reads v = held 1 whole v λ one. looked 0 forms v one λ first.
    Moved-if (bit_and first 0x80 == 0) (skip 1 >> pure first) (longer first) v
      (λ _. skip_reads 1 first v one)
      λ _.
        Moved-if (bit_and first 0xc0 == 0x80) (two first) three v
          (λ _. Moved-ensure (not (ltb (length v.cells) 2)) buffer_underflow (middle first) v λ e.
            looked 1 (λ low. skip 2 >> pure (bit_or (bit_and first 0x3f * 2 ^ 8) low)) v
              (omega (arith, not-ltb (length v.cells) 2 e))
              λ low.
                skip_reads 2 (bit_or (bit_and first 0x3f * 2 ^ 8) low) v
                  (not-ltb (length v.cells) 2 e))
          λ _. Moved-ensure (not (ltb (length v.cells) 3)) buffer_underflow long v λ e.
            looked 1 (λ high. peek 2 >>= λ low. skip 3 >> pure (bit_or (high * 2 ^ 8) low)) v
              (omega (arith, not-ltb (length v.cells) 3 e))
              λ high.
                looked 2 (λ low. skip 3 >> pure (bit_or (high * 2 ^ 8) low)) v
                  (omega (arith, not-ltb (length v.cells) 3 e))
                  λ low. skip_reads 3 (bit_or (high * 2 ^ 8) low) v (not-ltb (length v.cells) 3 e)
  where
    middle : ℕ → Op BufferView ℕ
    middle first = peek 1 >>= λ low. skip 2 >> pure (bit_or (bit_and first 0x3f * 2 ^ 8) low)

    long : Op BufferView ℕ
    long = peek 1 >>= λ high. peek 2 >>= λ low. skip 3 >> pure (bit_or (high * 2 ^ 8) low)

    two : ℕ → Op BufferView ℕ
    two first = ensure (not (ltb (length v.cells) 2)) buffer_underflow >> middle first

    three : Op BufferView ℕ
    three = ensure (not (ltb (length v.cells) 3)) buffer_underflow >> long

    longer : ℕ → Op BufferView ℕ
    longer first = if bit_and first 0xc0 == 0x80 then two first else three

    forms : ℕ → Op BufferView ℕ
    forms first = if bit_and first 0x80 == 0 then (skip 1 >> pure first) else longer first

    whole : Op BufferView ℕ
    whole = peek 0 >>= forms

decode_sized-Reads : (lo hi : ℕ) → Reads (decode_sized lo hi)
unfolding decode_sized
decode_sized-Reads lo hi v =
    Moved-bind (take_checked (size_byte_width hi)) checked v
      (take_checked-Reads (size_byte_width hi) v)
      λ bytes u.
        Moved-ensure (not (ltb (read_be_bytes bytes) lo || ltb hi (read_be_bytes bytes)))
          constraint_violation (take_checked (read_be_bytes bytes)) u
          λ _. take_checked-Reads (read_be_bytes bytes) u
  where
    checked : List ℕ → Op BufferView (List ℕ)
    checked bytes =
        ensure (not (ltb (read_be_bytes bytes) lo || ltb hi (read_be_bytes bytes)))
          constraint_violation
        >> take_checked (read_be_bytes bytes)

-- The OER `decode_octet_string`, for any constraint, returns on every input. It reads no byte
-- outside the view, writes none, and leaves the view behind bytes that it covered.
pub decode_octet_string-Reads : (m : OerMeta) → Reads (decode_octet_string m)
unfolding decode_octet_string
decode_octet_string-Reads m v =
    Moved-if m.has_size_constraint
      (if m.min_size == m.max_size
        then take_checked m.min_size
        else decode_sized m.min_size m.max_size)
      (decode_length_determinant >>= λ data_len. take_checked data_len) v
      (λ _.
        Moved-if (m.min_size == m.max_size) (take_checked m.min_size)
          (decode_sized m.min_size m.max_size) v (λ _. take_checked-Reads m.min_size v)
          (λ _. decode_sized-Reads m.min_size m.max_size v))
      λ _.
        Moved-bind decode_length_determinant take_checked v (decode_length_determinant-Reads v)
          take_checked-Reads

decode_counted_bits-Reads : Reads decode_counted_bits
unfolding decode_counted_bits
decode_counted_bits-Reads v =
    Moved-bind decode_length_determinant body v (decode_length_determinant-Reads v) λ total u.
      Moved-ensure (not (ltb total 1)) invalid_length (room total) u λ e.
        held total (contents total) u λ fits.
          looked 0
            (λ unused. copy_out total >>= λ octets. skip total >> pure (drop 1 octets, unused)) u
            (omega (arith, not-ltb total 1 e, fits))
            λ unused. copied total (λ octets. (drop 1 octets, unused)) u fits
  where
    contents : ℕ → Op BufferView (List ℕ × ℕ)
    contents total =
        peek 0 >>= λ unused. copy_out total >>= λ octets. skip total >> pure (drop 1 octets, unused)

    room : ℕ → Op BufferView (List ℕ × ℕ)
    room total = size >>= λ n. ensure (not (ltb n total)) buffer_underflow >> contents total

    body : ℕ → Op BufferView (List ℕ × ℕ)
    body total = ensure (not (ltb total 1)) invalid_length >> room total

pub decode_bit_string-Reads : (m : OerMeta) → Reads (decode_bit_string m)
unfolding decode_bit_string
decode_bit_string-Reads m v =
    Moved-if m.has_size_constraint (if m.min_size == m.max_size then bare else decode_counted_bits)
      decode_counted_bits v
      (λ _.
        Moved-if (m.min_size == m.max_size) bare decode_counted_bits v
          (λ _.
            Moved-bind (take_checked m.min_size) (λ octets. pure (octets, 0)) v
              (take_checked-Reads m.min_size v) λ octets u. Moved-stay (ok (octets, 0)) u)
          (λ _. decode_counted_bits-Reads v))
      (λ _. decode_counted_bits-Reads v)
  where
    bare : Op BufferView (List ℕ × ℕ)
    bare = take_checked m.min_size >>= λ octets. pure (octets, 0)

check_range-Reads : (m : OerMeta) (uval : ℕ) → Reads (check_range m uval)
unfolding check_range
check_range-Reads m uval v =
    Moved-if (not (is_negative m.min_value)) (pure uval) (signed (unsigned_to_signed uval w)) v
      (λ _. Moved-stay (ok uval) v)
      λ _.
        Moved-ensure (inside (unsigned_to_signed uval w)) value_out_of_range
          (pure (unsigned_to_signed uval w)) v λ _. Moved-stay (ok (unsigned_to_signed uval w)) v
  where
    w : ℕ
    w = integer_byte_width m

    inside : ℕ → Bool
    inside x = not (signed_lt x m.min_value || signed_lt m.max_value x)

    signed : ℕ → Op BufferView ℕ
    signed x = ensure (inside x) value_out_of_range >> pure x

decode_unconstrained_integer-Reads : Reads decode_unconstrained_integer
unfolding decode_unconstrained_integer
decode_unconstrained_integer-Reads v =
    Moved-bind decode_length_determinant body v (decode_length_determinant-Reads v) λ n u.
      Moved-ensure (not (n == 0)) invalid_length (bounded n) u λ _.
        Moved-ensure (not (ltb 8 n)) value_out_of_range (contents n) u λ _.
          Moved-bind (take_checked n) (λ bytes. pure (decode_integer_value bytes)) u
            (take_checked-Reads n u) λ bytes t. Moved-stay (ok (decode_integer_value bytes)) t
  where
    contents : ℕ → Op BufferView ℕ
    contents n = take_checked n >>= λ bytes. pure (decode_integer_value bytes)

    bounded : ℕ → Op BufferView ℕ
    bounded n = ensure (not (ltb 8 n)) value_out_of_range >> contents n

    body : ℕ → Op BufferView ℕ
    body n = ensure (not (n == 0)) invalid_length >> bounded n

-- The OER `decode_integer`, for any constraint, returns on every input. It reads no byte
-- outside the view, writes none, and leaves the view behind bytes that it covered.
pub decode_integer-Reads : (m : OerMeta) → Reads (decode_integer m)
unfolding decode_integer
decode_integer-Reads m v =
    Moved-if m.has_range_constraint
      (take_checked (integer_byte_width m) >>= λ octets. check_range m (read_be_bytes octets))
      decode_unconstrained_integer v
      (λ _.
        Moved-bind (take_checked (integer_byte_width m))
          (λ octets. check_range m (read_be_bytes octets)) v
          (take_checked-Reads (integer_byte_width m) v)
          λ octets. check_range-Reads m (read_be_bytes octets))
      (λ _. decode_unconstrained_integer-Reads v)
