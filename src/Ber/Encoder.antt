-- ===== src/Ber/Encoder.antt =====
-- libs/codec/ber/ber_encoder.cpp.
pub mod Writing
pub mod Pending
pub mod Batched
pub mod Flushed
use asn1pp.Prelude.{
  ℕ, zero, suc, ◌+◌, ◌-◌, Bool, true, false, not, List, [], ◌∷◌, ◌++◌, Option, none, some,
  if◌then◌else◌, ltb, leb, ◌==◌, length, take, drop, get_elem?, overwrite, replicate,
}
use asn1pp.ErrorCode.{ErrorCode}
use asn1pp.Result.{Result, ok, returns, fault, Op, pure, raise, ensure, ◌>>=◌, ◌>>◌}
use asn1pp.Buffer.{BufferView, size, poke, skip, copy_in, within}
use asn1pp.Traits.{Tag, UniversalTag, make_universal}
use asn1pp.Tlv
use asn1pp.Tlv.{
  encode_tag, encode_length, encoded_tag_size, encoded_length_size, encode_end_of_content,
}
use asn1pp.Arch.{SimdLevel}
use asn1pp.ArchCodec.{batch_encode_integers}
use asn1pp.Batch.{BatchBuffer, push, drain, flush, empty}
use asn1pp.Ber.Integer.{encode_integer_bytes}
use asn1pp.Ber.Session.{Session, on_buf, on_pending}

-- `ber_encoder::batch_size`
unfoldable pub batch_size : SimdLevel → ℕ
batch_size SimdLevel.avx2 = 4
batch_size SimdLevel.sse42 = 2
batch_size SimdLevel.neon = 2
batch_size SimdLevel.scalar = 1

-- `ber_encoder::pending_integer`
pub record PendingInteger : Type 0 where
  pub value_buf : List ℕ
  pub size_of : ℕ
  pub value : ℕ

-- A zeroed slot with the contents copied in.
abbrev pub filled_slot : ℕ → List ℕ → PendingInteger
filled_slot value bytes = record {
  value_buf = overwrite (replicate 8 0) 0 bytes;
  size_of = length bytes;
  value = value;
}

-- `ptrs`, `sizes` and `values` of the drained slots.
abbrev pub slot_args : List PendingInteger → List (List ℕ × ℕ × ℕ)
slot_args [] = []
slot_args (s ∷ slots) = (s.value_buf, s.size_of, s.value) ∷ slot_args slots

-- The drained slots with what the batch stored into their buffers.
abbrev pub stored_slots : List PendingInteger → List (ErrorCode × List ℕ) → List PendingInteger
stored_slots [] outs = []
stored_slots (s ∷ slots) [] = s ∷ slots
stored_slots (s ∷ slots) ((e, p) ∷ outs) = record s { value_buf = p } ∷ stored_slots slots outs

-- Whether `store_u64_be` stays in `value_buf` for each slot.
abbrev pub all_inside : List PendingInteger → Bool
all_inside [] = true
all_inside (s ∷ slots) = if leb s.size_of (length s.value_buf) then all_inside slots else false

-- The drained items of the array are written through `ptrs`, inside their `value_buf`.
abbrev pub store_back :
    List PendingInteger → List (ErrorCode × List ℕ) → Op (BatchBuffer PendingInteger) (Unit {0})
store_back drained outs q =
    if all_inside drained
    then returns (ok tt) (record q { items = overwrite q.items 0 (stored_slots drained outs) })
    else fault

-- `if (errors[i] != ok) return err(errors[i]);`
abbrev pub slot_answer {ℓ} : {S : Type ℓ} → Option (ErrorCode × List ℕ) → Op S (Unit {0})
slot_answer none s = fault
slot_answer (some (ErrorCode.ok, p)) s = returns (ok tt) s
slot_answer (some (e, p)) s = raise e s

-- The batch is full: all of it is encoded, and the last error counts.
unfoldable pub drain_last : SimdLevel → Op (BatchBuffer PendingInteger) (Unit {0})
drain_last level = do
  drained ← drain
  let outs = batch_encode_integers (slot_args drained)
  store_back drained outs
  slot_answer (get_elem? outs (batch_size level - 1))

-- The contents are copied into `value_buf`, which has 8 octets.
unfoldable pub push_slot : ℕ → List ℕ → Op (BatchBuffer PendingInteger) (Unit {0})
push_slot value bytes q =
    (if leb (length bytes) 8 then push (filled_slot value bytes) else λ _. fault) q

-- What follows the push.
unfoldable pub drain_full : SimdLevel → Op (BatchBuffer PendingInteger) (Unit {0})
drain_full level q = (if q.count == batch_size level then drain_last level else pure tt) q

unfoldable pub encode_integer : SimdLevel → ℕ → Op (Session PendingInteger) (Unit {0})
encode_integer level value = do
  let int_buf = encode_integer_bytes value
  on_pending (push_slot value int_buf)
  on_pending (drain_full level)
  on_buf (Tlv.encode_tlv (make_universal UniversalTag.integer false) int_buf)

unfoldable pub encode_boolean : Bool → Op BufferView (Unit {0})
encode_boolean value =
    Tlv.encode_tlv (make_universal UniversalTag.boolean false) ((if value then 0xff else 0) ∷ [])

unfoldable pub encode_null : Op BufferView (Unit {0})
encode_null = Tlv.encode_tlv (make_universal UniversalTag.null false) []

-- Both ways of copying, above 32 octets and below, write the octets at `pos`.
unfoldable pub encode_octet_string : List ℕ → Op BufferView (Unit {0})
encode_octet_string octets = do
  let t = make_universal UniversalTag.octet_string false
  n ← size
  ensure (not (ltb n (encoded_tag_size t + encoded_length_size (length octets) + length octets)))
      ErrorCode.buffer_overflow
  within 0 (encode_tag t)
  within (encoded_tag_size t) (encode_length (length octets) false)
  let pos = encoded_tag_size t + encoded_length_size (length octets)
  if ltb 32 (length octets)
      then copy_in pos octets
      else (if ltb 0 (length octets) then copy_in pos octets else pure tt)
  skip (pos + length octets)

unfoldable pub encode_bit_string : List ℕ → ℕ → Op BufferView (Unit {0})
encode_bit_string octets unused_bits = do
  let t = make_universal UniversalTag.bit_string false
  let total_value_len = 1 + length octets
  n ← size
  ensure (not (ltb n (encoded_tag_size t + encoded_length_size total_value_len + total_value_len)))
      ErrorCode.buffer_overflow
  within 0 (encode_tag t)
  within (encoded_tag_size t) (encode_length total_value_len false)
  let pos = encoded_tag_size t + encoded_length_size total_value_len
  poke pos unused_bits
  if not (length octets == 0) then copy_in (pos + 1) octets else pure tt
  skip (pos + 1 + length octets)

unfoldable pub encode_enumerated : ℕ → Op BufferView (Unit {0})
encode_enumerated value =
    Tlv.encode_tlv (make_universal UniversalTag.enumerated false) (encode_integer_bytes value)

unfoldable pub encode_oid : List ℕ → Op BufferView (Unit {0})
encode_oid encoded_oid =
    Tlv.encode_tlv (make_universal UniversalTag.object_identifier false) encoded_oid

-- The size of the header is returned.
unfoldable pub encode_sequence_header : Tag → ℕ → Op BufferView ℕ
encode_sequence_header t content_length = do
  n ← size
  ensure (not (ltb n (encoded_tag_size t + encoded_length_size content_length)))
      ErrorCode.buffer_overflow
  within 0 (encode_tag t)
  within (encoded_tag_size t) (encode_length content_length false)
  let pos = encoded_tag_size t + encoded_length_size content_length
  skip pos
  pure pos

unfoldable pub encode_sequence_end : Op BufferView (Unit {0})
encode_sequence_end = encode_end_of_content

unfoldable pub encode_tlv : Tag → List ℕ → Op BufferView (Unit {0})
encode_tlv t value = Tlv.encode_tlv t value

-- The first error of a drained batch.
unfoldable pub first_error : List (ErrorCode × List ℕ) → ErrorCode
first_error [] = ErrorCode.ok
first_error ((ErrorCode.ok, p) ∷ rest) = first_error rest
first_error ((e, p) ∷ rest) = e

unfoldable pub drain_errors : Op (BatchBuffer PendingInteger) ErrorCode
drain_errors = do
  drained ← flush
  let outs = batch_encode_integers (slot_args drained)
  store_back drained outs
  pure (first_error outs)

unfoldable pub flush_encode : Op (BatchBuffer PendingInteger) ErrorCode
flush_encode q = (if empty q then pure ErrorCode.ok else drain_errors) q
