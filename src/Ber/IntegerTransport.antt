-- ===== src/Ber/IntegerTransport.antt =====
-- libs/codec/ber: an INTEGER through the batches of ber_encoder.cpp and ber_decoder.cpp.
use asn1pp.Prelude.{ℕ, ◌≤◌, ◌≡◌, ap, ◌∙◌, false, List, ◌++◌, arith, length, drop}
use asn1pp.Result.{ok, returns}
use asn1pp.Buffer.{BufferView, view, rewind, emitted_fits, rewind-append}
use asn1pp.Traits.{Tag, UniversalTag, make_universal}
use asn1pp.Tlv.Whole.{tlv_octets, encode_tlv-Emits}
use asn1pp.Arch.{SimdLevel}
use asn1pp.Batch.{BatchBuffer}
use asn1pp.Int64.{IsInt64}
use asn1pp.Ber.Session.{session, with_buf}
use asn1pp.Ber.Integer.{encode_integer_bytes}
use asn1pp.Ber.Integer.RoundTrip.{decode-encode_integer_bytes}
use asn1pp.Ber.Integer.Size.{length-encode_integer_bytes}
use asn1pp.Ber.Integer.Fits.{encode_integer_bytes-IsByte}
use asn1pp.Ber.Encoder
use asn1pp.Ber.Encoder.Pending as EncoderPending
use asn1pp.Ber.Encoder.Batched.{encode_integer-Ready}
use asn1pp.Ber.Decoder
use asn1pp.Ber.Decoder.Pending as DecoderPending
use asn1pp.Ber.Decoder.Batched.{decode_integer-taken}
use asn1pp.Ber.Decoder.RoundTrip.{take_integer-octets}

-- What sender and receiver are left with, from the batches `qe` and `qd` and the view of `c` behind `b`.
abbrev pub Delivered :
    SimdLevel
    → BatchBuffer Encoder.PendingInteger
    → BatchBuffer Decoder.PendingInteger
    → ℕ
    → List ℕ
    → List ℕ
    → Type 0
Delivered level qe qd value b c =
    (qe' : BatchBuffer Encoder.PendingInteger) × (qd' : BatchBuffer Decoder.PendingInteger)
    × (w : BufferView) × EncoderPending.Ready level qe'
    × DecoderPending.Ready level qd'
    × (Encoder.encode_integer level value (session qe (view b c)) ≡ returns (ok tt) (session qe' w))
    × (Decoder.decode_integer level (session qd (rewind (length b) w))
        ≡ returns (ok value) (session qd' w))

-- Any `int64_t` through a view that is large enough, at any SIMD level and with any ready
-- batches on both sides: `encode_integer` succeeds, `decode_integer`, from where it started,
-- answers the value and stops where it stopped, and both batches are ready again.
pub decode_integer-encode_integer :
    (level : SimdLevel) (qe : BatchBuffer Encoder.PendingInteger)
    (qd : BatchBuffer Decoder.PendingInteger) (value : ℕ) (b c : List ℕ)
    → EncoderPending.Ready level qe
    → DecoderPending.Ready level qd
    → IsInt64 value
    → length (tlv_octets (make_universal UniversalTag.integer false) (encode_integer_bytes value))
      ≤ length c
    → Delivered level qe qd value b c
decode_integer-encode_integer level qe qd value b c re rd i fits =
    let (lo, hi) = length-encode_integer_bytes value i in
    let (qe', re', e) = encode_integer-Ready level qe (view b c) value re i in
    let (qd', rd', d) =
      decode_integer-taken level qd (view b (bs ++ rest)) w (encode_integer_bytes value) rd
        (encode_integer_bytes-IsByte value, lo, hi)
        (take_integer-octets t (encode_integer_bytes value) b rest (omega arith) lo hi) in
    (
      qe',
      qd',
      w,
      re',
      rd',
      e
          ∙ ap (with_buf qe') (
              encode_tlv-Emits t (encode_integer_bytes value) (omega arith) (omega arith) (view b c)
              ∙ emitted_fits bs b c fits),
      ap (λ (u : BufferView). Decoder.decode_integer level (session qd u)) (rewind-append b bs rest)
          ∙ d
          ∙ ap (λ (x : ℕ). returns (ok x) (session qd' w)) (decode-encode_integer_bytes value i),
    )
  where
    t : Tag
    t = make_universal UniversalTag.integer false

    bs : List ℕ
    bs = tlv_octets t (encode_integer_bytes value)

    rest : List ℕ
    rest = drop (length bs) c

    w : BufferView
    w = view (b ++ bs) rest
