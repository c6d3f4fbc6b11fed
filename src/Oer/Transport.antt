-- ===== src/Oer/Transport.antt =====
-- libs/codec/oer: a value that encoder.hpp writes into a buffer, read back by decoder.hpp from the
-- place where the encoder started.
use asn1pp.Prelude.{
  ℕ, ◌^◌, ◌≤◌, ◌<◌, ◌≡◌, Bool, true, List, [], ◌∷◌, ◌++◌, drop, length-big_endian, arith,
  if◌then◌else◌, length, big_endian, ap, ◌∙◌,
}
use asn1pp.Result.{ok, returns}
use asn1pp.Buffer.{
  view, rewind, rewind-append, emitted_fits, BufferView, Puts-Emits, Puts-Carried, Carried,
}
use asn1pp.Int64.{InRange, IsInt64}
use asn1pp.Arch.{SimdLevel}
use asn1pp.Batch.{BatchBuffer}
use asn1pp.Ber.Session.{session, with_buf}
use asn1pp.Ber.Encoder.{PendingInteger}
use asn1pp.Ber.Encoder.Pending.{Ready}
use asn1pp.Oer.Integers.{InWidth}
use asn1pp.Oer.Batched.{encode_integer-ranged}
use asn1pp.Oer.Meta.{OerMeta, index_byte_width, integer_byte_width}
use asn1pp.Oer.Octets.{encode_length_determinant}
use asn1pp.Oer.Encoder.{
  encode_octet_string, encode_bit_string, encode_enumerated, encode_choice_index, encode_boolean,
  encode_unconstrained_integer, encode_integer_bytes, encode_integer,
}
use asn1pp.Oer.Decoder.{
  decode_length_determinant, decode_octet_string, decode_bit_string, decode_enumerated,
  decode_choice_index, decode_boolean, decode_unconstrained_integer, decode_integer,
}
use asn1pp.Oer.Writing.{determinant_octets, encode_length_determinant-Emits}
use asn1pp.Oer.Reading.{
  decode_length_determinant-Gets, decode_octet_string-Gets, decode_index-Gets, decode_boolean-Gets,
}
use asn1pp.Oer.Strings.{
  Allowed, octet_string_octets, encode_octet_string-Puts, counted_octets, encode_index-Emits,
  encode_boolean-Emits,
}
use asn1pp.Oer.BitStrings.{
  Readable, bit_string_octets, encode_bit_string-Puts, decode_bit_string-Gets,
}
use asn1pp.Oer.Numbers.{
  encode_unconstrained_integer-Puts, decode_unconstrained_integer-Gets, decode_integer-ranged,
}

pub length_determinant-Carried :
    (n : ℕ)
    → n ≤ 65535
    → (b c : List ℕ) → length (determinant_octets n) ≤ length c
    → Carried (encode_length_determinant n) decode_length_determinant n b c
length_determinant-Carried n h =
    Puts-Carried (determinant_octets n) (encode_length_determinant n) decode_length_determinant n
      (Puts-Emits _ _ (encode_length_determinant-Emits n h)) (decode_length_determinant-Gets n h)

-- An OER OCTET STRING shorter than 2 ^ 32, of a size that its constraint allows, or of at most
-- 65535 octets where there is none, through a buffer that is large enough is read back, whether
-- its size is fixed, bounded or free.
pub octet_string-Carried :
    (m : OerMeta) (octets : List ℕ)
    → Allowed m (length octets)
    → length octets < 2 ^ 32
    → (b c : List ℕ) → length (octet_string_octets m octets) ≤ length c
    → Carried (encode_octet_string m octets) (decode_octet_string m) octets b c
octet_string-Carried m octets a k =
    Puts-Carried (octet_string_octets m octets) (encode_octet_string m octets)
      (decode_octet_string m) octets (encode_octet_string-Puts m octets a)
      (decode_octet_string-Gets m octets a k)

-- An OER BIT STRING shorter than 65535 octets, of a size that its constraint allows, through a
-- buffer that is large enough: octets and count of unused bits are read back, provided that the
-- count is 0 where the size is fixed and that the largest size is at most 126 where it is
-- bounded.
pub bit_string-Carried :
    (m : OerMeta) (octets : List ℕ) (unused_bits : ℕ)
    → Allowed m (length octets)
    → Readable m unused_bits
    → length octets < 65535
    → (b c : List ℕ) → length (bit_string_octets m octets unused_bits) ≤ length c
    → Carried
        (encode_bit_string m octets unused_bits)
        (decode_bit_string m)
        (octets, unused_bits)
        b
        c
bit_string-Carried m octets unused_bits a r k =
    Puts-Carried (bit_string_octets m octets unused_bits) (encode_bit_string m octets unused_bits)
      (decode_bit_string m) (octets, unused_bits) (encode_bit_string-Puts m octets unused_bits a k)
      (decode_bit_string-Gets m octets unused_bits a r k)

pub enumerated-Carried :
    (m : OerMeta) (index : ℕ)
    → index < 256 ^ index_byte_width m.root_count
    → (b c : List ℕ) → length (big_endian (index_byte_width m.root_count) index) ≤ length c
    → Carried (encode_enumerated m index) (decode_enumerated m) index b c
unfolding encode_enumerated decode_enumerated
enumerated-Carried m index h =
    Puts-Carried _ (encode_enumerated m index) (decode_enumerated m) index
      (Puts-Emits (encode_enumerated m index) _ (encode_index-Emits m.root_count index))
      (decode_index-Gets m.root_count index h)

pub choice_index-Carried :
    (m : OerMeta) (choice_index : ℕ)
    → choice_index < 256 ^ index_byte_width m.alternative_count
    → (b c : List ℕ)
    → length (big_endian (index_byte_width m.alternative_count) choice_index) ≤ length c
    → Carried (encode_choice_index m choice_index) (decode_choice_index m) choice_index b c
unfolding encode_choice_index decode_choice_index
choice_index-Carried m choice_index h =
    Puts-Carried _ (encode_choice_index m choice_index) (decode_choice_index m) choice_index
      (Puts-Emits (encode_choice_index m choice_index) _
        (encode_index-Emits m.alternative_count choice_index))
      (decode_index-Gets m.alternative_count choice_index h)

pub boolean-Carried :
    (x : Bool) (b c : List ℕ) → 1 ≤ length c → Carried (encode_boolean x) decode_boolean x b c
boolean-Carried x =
    Puts-Carried ((if x then 0xff else 0) ∷ []) (encode_boolean x) decode_boolean x
      (Puts-Emits _ _ (encode_boolean-Emits x)) (decode_boolean-Gets x)

-- Any `int64_t` without a constraint, written by OER into a buffer that is large enough, is
-- read back.
pub unconstrained_integer-Carried :
    (value : ℕ)
    → IsInt64 value
    → (b c : List ℕ) → length (counted_octets (encode_integer_bytes value)) ≤ length c
    → Carried (encode_unconstrained_integer value) decode_unconstrained_integer value b c
unconstrained_integer-Carried value i =
    Puts-Carried (counted_octets (encode_integer_bytes value)) (encode_unconstrained_integer value)
      decode_unconstrained_integer value (encode_unconstrained_integer-Puts value i)
      (decode_unconstrained_integer-Gets value i)

-- What both sides are left with, for the batch `q` of the sender.
abbrev pub Delivered :
    SimdLevel → OerMeta → BatchBuffer PendingInteger → ℕ → List ℕ → List ℕ → Type 0
Delivered level m q value b c =
    (q' : BatchBuffer PendingInteger) × (w : BufferView) × Ready level q'
    × (encode_integer level m value (session q (view b c)) ≡ returns (ok tt) (session q' w))
    × (decode_integer m (rewind (length b) w) ≡ returns (ok value) w)

-- A range constrained OER integer within its range and within two's complement of the chosen
-- width, at any SIMD level and with any ready batch, through a view with room for that width:
-- `encode_integer` succeeds, `decode_integer`, from where it started, answers the value and
-- stops where it stopped, and the batch is ready again.
pub ranged_integer-Delivered :
    (level : SimdLevel) (m : OerMeta) (q : BatchBuffer PendingInteger) (value : ℕ) (b c : List ℕ)
    → m.has_range_constraint ≡ true
    → InRange m.min_value m.max_value value
    → InWidth (integer_byte_width m) value
    → Ready level q
    → integer_byte_width m ≤ length c
    → Delivered level m q value b c
ranged_integer-Delivered level m q value b c t i h r fits =
    let (q', r', e) = encode_integer-ranged level m q (view b c) value t i h r in
    (
      q',
      view (b ++ bs) rest,
      r',
      e
          ∙ ap (with_buf q')
              (emitted_fits bs b c (omega (arith, length-big_endian (integer_byte_width m) value))),
      ap (decode_integer m) (rewind-append b bs rest) ∙ decode_integer-ranged m value t i b rest,
    )
  where
    bs : List ℕ
    bs = big_endian (integer_byte_width m) value

    rest : List ℕ
    rest = drop (length bs) c
