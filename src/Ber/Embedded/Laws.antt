-- ===== src/Ber/Embedded/Laws.antt =====
-- The decoders of libs/codec/ber/ber_decoder.cpp for embedded builds, beside the others.
use asn1pp.Prelude.{
  ℕ, ◌<◌, ◌^◌, ◌≡◌, refl, false, List, ◌++◌, if◌then◌else◌, arith, length, length-append, ltb,
  ltb-true, ltb-false, inl, inr, le_or_lt, not,
}
use asn1pp.ErrorCode.{ErrorCode}
use asn1pp.Result.{ok, err, returns, Op, ensure, pure, ◌>>=◌, ◌>>◌}
use asn1pp.Buffer.{BufferView, view, size, skip, copy_out, Reads, Moved-bind, Moved-ensure}
use asn1pp.Traits.{Tag}
use asn1pp.Tlv.Whole.{tlv_octets}
use asn1pp.Ber.Decoder.{expect}
use asn1pp.Ber.Decoder.RoundTrip.{expect-octets, taken, behind_header, behind_tlv}
use asn1pp.Ber.Decoder.Safety.{expect-Reads, held, copied}
use asn1pp.Ber.Embedded.{take_octets_embedded}

-- The reading of strings of octets in embedded builds, on a TLV with the tag that is wanted, a
-- tag number below 2 ^ 32 and contents shorter than 2 ^ 64: it answers the contents where they
-- are no longer than `max_pdu`, and else `value_out_of_range` from the start of the contents.
pub take_octets_embedded-octets :
    (max_pdu : ℕ) (t : Tag) (value b rest : List ℕ)
    → t.number < 2 ^ 32
    → length value < 2 ^ 64
    → take_octets_embedded max_pdu t (view b (tlv_octets t value ++ rest)) ≡ (
        if ltb max_pdu (length value)
        then returns (err ErrorCode.value_out_of_range) (behind_header t value b rest)
        else returns (ok value) (behind_tlv t value b rest))
unfolding take_octets_embedded
take_octets_embedded-octets max_pdu t value b rest w l = elim (le_or_lt (length value) max_pdu) [
  | inl fits ↦
      rw (expect-octets t value b rest w l, there, ltb-false max_pdu (length value) fits)
        (taken t value b rest)
  | inr long ↦
      rw (expect-octets t value b rest w l, there, ltb-true max_pdu (length value) long) refl
]
  where
    there : ltb (length (value ++ rest)) (length value) ≡ false
    there =
        ltb-false (length (value ++ rest)) (length value) (omega (arith, length-append value rest))

-- On any bytes.
pub take_octets_embedded-Reads : (max_pdu : ℕ) (t : Tag) → Reads (take_octets_embedded max_pdu t)
unfolding take_octets_embedded
take_octets_embedded-Reads max_pdu t v =
    Moved-bind (expect t)
      (λ n. size >>= λ have. ensure (not (ltb have n)) ErrorCode.buffer_underflow >> bounded n) v
      (expect-Reads t v)
      λ n u. held n (bounded n) u λ fits.
        Moved-ensure (not (ltb max_pdu n)) ErrorCode.value_out_of_range (body n) u
          λ _. copied n (λ bytes. bytes) u fits
  where
    body : ℕ → Op BufferView (List ℕ)
    body n = copy_out n >>= λ bytes. skip n >> pure bytes

    bounded : ℕ → Op BufferView (List ℕ)
    bounded n = ensure (not (ltb max_pdu n)) ErrorCode.value_out_of_range >> body n
