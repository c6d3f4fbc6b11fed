-- ===== src/Ber/Tagged/Laws.antt =====
-- What libs/codec/ber/tagged_codec.hpp writes.
use asn1pp.Prelude.{
  ℕ, ◌+◌, ◌≤◌, ◌<◌, ◌^◌, ◌≡◌, refl, ap, ◌∙◌, List, [], ◌++◌, arith, length, take, drop,
  length-append, length-drop, take-append, overwrite-append, leb-true,
}
use asn1pp.ErrorCode.{ErrorCode}
use asn1pp.Result.{err, returns, Op}
use asn1pp.Buffer.{BufferView, view, copy_in, Emits, emitted_fits, emitted_short}
use asn1pp.Traits.{Tag}
use asn1pp.Tlv.{encoded_tag_size, encoded_length_size}
use asn1pp.Tlv.Identifier.{identifier_octets}
use asn1pp.Tlv.Length.{length_octets}
use asn1pp.Tlv.Whole.{tlv_octets, encode_tlv-Emits, whole_tlv-Emits, total_size, header_size, Fills}
use asn1pp.Int64.{IsInt64}
use asn1pp.Ber.Integer.{encode_integer_bytes}
use asn1pp.Ber.Integer.Size.{length-encode_integer_bytes}
use asn1pp.Ber.Tagged.{
  integer_value, encode_implicit_tagged, inner_buf, inner_bytes, put_outer, encode_explicit_tagged,
}

-- `encode_implicit_tagged` of any `int64_t`, for a tag number below 2 ^ 32, writes a TLV with
-- that tag around the octets of `encode_integer_bytes`, or answers `buffer_overflow` where it
-- does not fit and writes nothing.
pub encode_implicit_tagged-Emits :
    (outer_t : Tag) (v : ℕ)
    → outer_t.number < 2 ^ 32
    → IsInt64 v
    → Emits
        (encode_implicit_tagged outer_t (integer_value v))
        (tlv_octets outer_t (encode_integer_bytes v))
unfolding encode_implicit_tagged
encode_implicit_tagged-Emits outer_t v w i =
    encode_tlv-Emits outer_t (encode_integer_bytes v) w
      (omega (arith, length-encode_integer_bytes v i))

copy_in-Fills :
    (k : ℕ) (header value : List ℕ) → k ≡ length header → Fills (copy_in k value) header value
copy_in-Fills k header value e b c h =
    rw
      (
        e,
        leb-true (length header + length value) (length (header ++ c))
            (omega (arith, length-append header c)),
        overwrite-append header c value,
      )
      refl

put_outer-Emits :
    (outer_t : Tag) (inner : List ℕ)
    → outer_t.number < 2 ^ 32
    → length inner < 2 ^ 64
    → Emits (put_outer outer_t inner) (tlv_octets outer_t inner)
unfolding put_outer
put_outer-Emits outer_t inner w l =
    whole_tlv-Emits outer_t inner (copy_in pos inner) (pos + length inner) w l
      (total_size outer_t (length inner) inner w l)
      (copy_in-Fills pos (identifier_octets outer_t ++ length_octets (length inner)) inner
        (header_size outer_t (length inner) w l))
  where
    pos : ℕ
    pos = encoded_tag_size outer_t + encoded_length_size (length inner)

-- The bytes that an encoder wrote into the inner buffer.
inner_bytes-written :
    (bs : List ℕ)
    → length bs ≤ length inner_buf
    → inner_bytes (view bs (drop (length bs) inner_buf)) ≡ bs
inner_bytes-written bs h =
    ap (λ (n : ℕ). take n (bs ++ drop (length bs) inner_buf))
      (omega (arith, length-drop (length bs) inner_buf))
    ∙ take-append bs (drop (length bs) inner_buf)

-- `encode_explicit_tagged`, for a tag number below 2 ^ 32 and an inner encoder that writes
-- `bs`, fewer than 2 ^ 64 octets that fit the inner buffer: it writes a TLV whose contents are
-- `bs`, or answers `buffer_overflow` where that does not fit the view and writes nothing.
pub encode_explicit_tagged-Emits :
    (outer_t : Tag) (enc : Op BufferView (Unit {0})) (bs : List ℕ)
    → outer_t.number < 2 ^ 32
    → Emits enc bs
    → length bs ≤ length inner_buf
    → length bs < 2 ^ 64
    → Emits (encode_explicit_tagged outer_t enc) (tlv_octets outer_t bs)
unfolding encode_explicit_tagged
encode_explicit_tagged-Emits outer_t enc bs w e h l v =
    rw
      (
        e (view [] inner_buf) ∙ emitted_fits bs [] inner_buf h,
        encode_explicit_tagged,
        inner_bytes-written bs h,
      )
      (put_outer-Emits outer_t bs w l v)

-- An encoder whose bytes do not fit the inner buffer.
pub encode_explicit_tagged-long :
    (outer_t : Tag) (enc : Op BufferView (Unit {0})) (bs : List ℕ) (v : BufferView)
    → Emits enc bs
    → length inner_buf < length bs
    → encode_explicit_tagged outer_t enc v ≡ returns (err ErrorCode.buffer_overflow) v
unfolding encode_explicit_tagged
encode_explicit_tagged-long outer_t enc bs v e h =
    rw (e (view [] inner_buf) ∙ emitted_short bs [] inner_buf h, encode_explicit_tagged) refl
