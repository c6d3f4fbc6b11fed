-- ===== src/Ber/Decoder.antt =====
-- libs/codec/ber/ber_decoder.cpp.
pub mod RoundTrip
pub mod Elements
pub mod Safety
pub mod Contents
pub mod Pending
pub mod Batched
use asn1pp.Prelude.{
  ℕ, zero, suc, ◌-◌, Bool, true, false, not, ◌&&◌, ◌||◌, List, [], ◌∷◌, Option, none, some,
  if◌then◌else◌, ltb, leb, ◌==◌, length, take, drop, get_elem?, overwrite, replicate,
}
use asn1pp.ErrorCode.{ErrorCode}
use asn1pp.Result.{Result, ok, returns, fault, Op, pure, raise, ensure, ◌>>=◌, ◌>>◌}
use asn1pp.Buffer.{BufferView, size, peek, skip, copy_out}
use asn1pp.Traits.{Tag, UniversalTag, tag_eq, make_universal}
use asn1pp.Tlv.{decode_tag, decode_length}
use asn1pp.Arch.{SimdLevel, CpuFeatures, available_simd_level}
use asn1pp.ArchCodec.{batch_decode_integers}
use asn1pp.Batch.{BatchBuffer, push, drain, empty}
use asn1pp.Ber.Integer.{decode_integer_value}
use asn1pp.Ber.Session.{Session, on_buf, on_pending}

-- `ber_decoder::batch_size`
unfoldable pub batch_size : SimdLevel → ℕ
batch_size SimdLevel.avx2 = 4
batch_size SimdLevel.sse42 = 2
batch_size SimdLevel.neon = 2
batch_size SimdLevel.scalar = 1

-- `pending_integer`
pub record PendingInteger : Type 0 where
  pub value_buf : List ℕ
  pub size_of : ℕ

-- A zeroed slot with the contents copied in.
abbrev pub filled_slot : List ℕ → PendingInteger
filled_slot bytes = record { value_buf = overwrite (replicate 8 0) 0 bytes; size_of = length bytes }

-- `ptrs` and `sizes` of the drained slots.
abbrev pub slot_args : List PendingInteger → List (List ℕ × ℕ)
slot_args [] = []
slot_args (s ∷ slots) = (s.value_buf, s.size_of) ∷ slot_args slots

-- `if (errors[i] != ok) return err(errors[i]); return ok(results[i]);`
abbrev pub slot_answer {ℓ} : {S : Type ℓ} → Option (ErrorCode × ℕ) → Op S ℕ
slot_answer none s = fault
slot_answer (some (ErrorCode.ok, x)) s = returns (ok x) s
slot_answer (some (e, x)) s = raise e s

-- Tag and length of an element that must have the tag `t`.
unfoldable pub expect : Tag → Op BufferView ℕ
expect t = do found ← decode_tag; ensure (tag_eq found t) ErrorCode.invalid_tag; decode_length

-- The checks on the length of an integer, and its contents.
unfoldable pub take_integer : Tag → Op BufferView (List ℕ)
take_integer t = do
  val_len ← expect t
  ensure (not (val_len == 0)) ErrorCode.invalid_length
  n ← size
  ensure (not (ltb n val_len)) ErrorCode.buffer_underflow
  ensure (not (ltb 8 val_len)) ErrorCode.value_out_of_range
  bytes ← copy_out val_len
  skip val_len
  pure bytes

-- The batch is full: all of it is decoded, and the answer is that of the last slot.
unfoldable pub drain_last : SimdLevel → Op (Session PendingInteger) ℕ
drain_last level = do
  drained ← on_pending drain
  slot_answer (get_elem? (batch_decode_integers (slot_args drained)) (batch_size level - 1))

-- What follows the push.
unfoldable pub answer_integer : SimdLevel → List ℕ → Op (Session PendingInteger) ℕ
answer_integer level bytes s =
    (if s.pending.count == batch_size level
        then drain_last level
        else pure (decode_integer_value bytes))
      s

unfoldable pub decode_integer : SimdLevel → Op (Session PendingInteger) ℕ
decode_integer level = do
  bytes ← on_buf (take_integer (make_universal UniversalTag.integer false))
  on_pending (push (filled_slot bytes))
  answer_integer level bytes

unfoldable pub decode_enumerated : Op BufferView ℕ
decode_enumerated = do
  bytes ← take_integer (make_universal UniversalTag.enumerated false)
  pure (decode_integer_value bytes)

unfoldable pub decode_boolean : Op BufferView Bool
decode_boolean = do
  len ← expect (make_universal UniversalTag.boolean false)
  ensure (len == 1) ErrorCode.invalid_length
  n ← size
  ensure (not (n == 0)) ErrorCode.buffer_underflow
  x ← peek 0
  skip 1
  pure (not (x == 0))

unfoldable pub decode_null : Op BufferView (Unit {0})
decode_null = do
  len ← expect (make_universal UniversalTag.null false)
  ensure (len == 0) ErrorCode.invalid_length

-- The contents of a string of octets, of any length that the view holds.
unfoldable pub take_octets : Tag → Op BufferView (List ℕ)
take_octets t = do
  val_len ← expect t
  n ← size
  ensure (not (ltb n val_len)) ErrorCode.buffer_underflow
  octets ← copy_out val_len
  skip val_len
  pure octets

unfoldable pub decode_octet_string : Op BufferView (List ℕ)
decode_octet_string = take_octets (make_universal UniversalTag.octet_string false)

unfoldable pub decode_oid : Op BufferView (List ℕ)
decode_oid = take_octets (make_universal UniversalTag.object_identifier false)

-- The octets behind the count of unused bits, and that count.
unfoldable pub decode_bit_string : Op BufferView (List ℕ × ℕ)
decode_bit_string = do
  val_len ← expect (make_universal UniversalTag.bit_string false)
  n ← size
  ensure (not (ltb n val_len)) ErrorCode.buffer_underflow
  ensure (not (ltb val_len 1)) ErrorCode.invalid_length
  unused_bits ← peek 0
  ensure (not (ltb 7 unused_bits)) ErrorCode.invalid_length
  contents ← copy_out val_len
  skip val_len
  pure (drop 1 contents, unused_bits)

-- The tag, and `content_length`.
unfoldable pub decode_sequence_header : Op BufferView (Tag × ℕ)
decode_sequence_header = do
  t ← decode_tag
  ensure t.constructed ErrorCode.invalid_tag
  content_length ← decode_length
  n ← size
  ensure (not (ltb n content_length)) ErrorCode.buffer_underflow
  pure (t, content_length)

unfoldable pub decode_sequence_end : Op BufferView (Unit {0})
decode_sequence_end = do
  n ← size
  ensure (not (ltb n 2)) ErrorCode.buffer_underflow
  a ← peek 0
  b ← peek 1
  ensure (not (not (a == 0) || not (b == 0))) ErrorCode.invalid_tag
  skip 2

-- `tlv_data`: the tag, and the bytes of the value, whose count is `length`.
unfoldable pub decode_tlv : Op BufferView (Tag × List ℕ)
decode_tlv = do
  t ← decode_tag
  val_len ← decode_length
  n ← size
  ensure (not (ltb n val_len)) ErrorCode.buffer_underflow
  value ← copy_out val_len
  skip val_len
  pure (t, value)

unfoldable pub skip_tlv : Op BufferView (Unit {0})
skip_tlv = do
  decode_tag
  val_len ← decode_length
  n ← size
  ensure (not (ltb n val_len)) ErrorCode.buffer_underflow
  skip val_len

-- A copy of the view is read, and the view stays.
unfoldable pub peek_tag : Op BufferView Tag
peek_tag v = elim (decode_tag v) [ returns r u ↦ returns r v | fault ↦ fault ]

-- The first error of a drained batch.
unfoldable pub first_error : List (ErrorCode × ℕ) → ErrorCode
first_error [] = ErrorCode.ok
first_error ((ErrorCode.ok, x) ∷ rest) = first_error rest
first_error ((e, x) ∷ rest) = e

unfoldable pub drain_errors : Op (BatchBuffer PendingInteger) ErrorCode
drain_errors = do drained ← drain; pure (first_error (batch_decode_integers (slot_args drained)))

unfoldable pub flush_decode : Op (BatchBuffer PendingInteger) ErrorCode
flush_decode q = (if empty q then pure ErrorCode.ok else drain_errors) q
