-- ===== src/Ber/Tagged.antt =====
-- libs/codec/ber/tagged_codec.hpp: tagged values. The tag `tag_for_type_v` and the inner encoder
-- are parameters, as they are of the templates.
pub mod Laws
use asn1pp.Prelude.{
  ℕ, zero, ◌+◌, ◌-◌, Bool, false, not, List, [], ◌∷◌, ◌++◌, if◌then◌else◌, ltb, length, take,
  replicate,
}
use asn1pp.ErrorCode.{ErrorCode}
use asn1pp.Result.{ok, err, returns, fault, Op, raise, ensure, ◌>>=◌, ◌>>◌}
use asn1pp.Buffer.{BufferView, view, size, skip, copy_in, within}
use asn1pp.Traits.{Tag}
use asn1pp.Tlv.{encode_tag, encode_length, encode_tlv, encoded_tag_size, encoded_length_size}
use asn1pp.Ber.Integer.{encode_integer_bytes}

-- The types of `implicit_tagged<T>` that the branches tell apart. The contents of the integer are
-- computed by the same steps as in `encode_integer_bytes`.
pub data ImplicitValue : Type 0 where
  integer_value : ℕ → ImplicitValue
  boolean_value : Bool → ImplicitValue
  octets_value : List ℕ → ImplicitValue
  string_value : List ℕ → ImplicitValue
  no_value : ImplicitValue
  other_value : ImplicitValue

unfoldable pub encode_implicit_tagged : Tag → ImplicitValue → Op BufferView (Unit {0})
encode_implicit_tagged outer_t (integer_value v) = encode_tlv outer_t (encode_integer_bytes v)
encode_implicit_tagged outer_t (boolean_value b) = encode_tlv outer_t ((if b then 0xff else 0) ∷ [])
encode_implicit_tagged outer_t (octets_value xs) = encode_tlv outer_t xs
encode_implicit_tagged outer_t (string_value xs) = encode_tlv outer_t xs
encode_implicit_tagged outer_t no_value = encode_tlv outer_t []
encode_implicit_tagged outer_t other_value = raise ErrorCode.parse_error

-- `inner_buf(4096)`
unfoldable pub inner_buf : List ℕ
inner_buf = replicate 4096 0

-- What follows the inner encoder, with `inner` the first bytes of `inner_buf`.
unfoldable pub put_outer : Tag → List ℕ → Op BufferView (Unit {0})
put_outer outer_t inner = do
  n ← size
  let inner_len = length inner
  let total_needed = encoded_tag_size outer_t + encoded_length_size inner_len + inner_len
  ensure (not (ltb n total_needed)) ErrorCode.buffer_overflow
  within 0 (encode_tag outer_t)
  within (encoded_tag_size outer_t) (encode_length inner_len false)
  copy_in (encoded_tag_size outer_t + encoded_length_size inner_len) inner
  skip (encoded_tag_size outer_t + encoded_length_size inner_len + inner_len)

-- `inner_buf.size() - inner_view.size()` bytes of `inner_buf`, for `w` the inner view.
abbrev pub inner_bytes : BufferView → List ℕ
inner_bytes w = take (length inner_buf - length w.cells) (w.before ++ w.cells)

unfoldable pub encode_explicit_tagged : Tag → Op BufferView (Unit {0}) → Op BufferView (Unit {0})
encode_explicit_tagged outer_t enc v = elim (enc (view [] inner_buf)) [
  | returns r w ↦ elim r [ ok _ ↦ put_outer outer_t (inner_bytes w) v | err e ↦ returns (err e) v ]
  | fault ↦ fault
]
