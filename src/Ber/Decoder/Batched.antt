-- ===== src/Ber/Decoder/Batched.antt =====
-- libs/codec/ber/ber_decoder.cpp: `decode_integer` and `flush_decode` over the batch.
use asn1pp.Prelude.{
  ℕ, ◌≤◌, ◌≡◌, refl, sym, ap, ◌∙◌, false, List, [], ◌∷◌, arith, eqb-true, eqb-false, length, take,
  All, eq_or_ne, inl, inr, leb-true, IsByte,
}
use asn1pp.ErrorCode.{ErrorCode}
use asn1pp.Result.{ok, err, Outcome, returns, fault, Op, pure, ◌>>=◌}
use asn1pp.Buffer.{BufferView}
use asn1pp.Traits.{UniversalTag, make_universal}
use asn1pp.Arch.{SimdLevel}
use asn1pp.ArchCodec.{batch_decode_integers}
use asn1pp.Batch.{BatchBuffer, drain, empty}
use asn1pp.Ber.Integer.{decode_integer_value}
use asn1pp.Ber.Session.{session, with_buf}
use asn1pp.Ber.Decoder.{
  PendingInteger, filled_slot, slot_args, take_integer, decode_integer, first_error, drain_errors,
  flush_decode,
}
use asn1pp.Ber.Decoder.Contents.{IsContents, Yields, take_integer-IsContents}
use asn1pp.Ber.Decoder.Pending.{
  Sound, Ready, batch_size_bounds, push-pushed, emptied, emptied-Ready, answer_integer-Ready,
}

-- The decoder of an INTEGER without a batch.
abbrev pub decode_unbatched : Op BufferView ℕ
decode_unbatched = take_integer (make_universal UniversalTag.integer false) >>= λ bytes.
    pure (decode_integer_value bytes)

-- Contents that are one to eight bytes are pushed, and answered.
pub decode_integer-taken :
    (level : SimdLevel) (q : BatchBuffer PendingInteger) (v u : BufferView) (bytes : List ℕ)
    → Ready level q
    → IsContents bytes
    → take_integer (make_universal UniversalTag.integer false) v ≡ returns (ok bytes) u
    → (q' : BatchBuffer PendingInteger) × Ready level q'
      × (decode_integer level (session q v)
          ≡ returns (ok (decode_integer_value bytes)) (session q' u))
unfolding decode_integer
decode_integer-taken level q v u bytes r c e =
    let (q', r', a) = answer_integer-Ready level q u bytes r c in
    (q', r', rw (e, push-pushed level q (filled_slot bytes) r, a) refl)

-- `decode_integer` on any bytes, at any SIMD level and from any ready batch, answers and moves
-- as the decoder without a batch does, on every error as well. The batch is ready again.
pub decode_integer-Ready :
    (level : SimdLevel) (q : BatchBuffer PendingInteger) (v : BufferView)
    → Ready level q
    → All IsByte v.cells
    → (q' : BatchBuffer PendingInteger) × Ready level q'
      × (decode_integer level (session q v) ≡ with_buf q' (decode_unbatched v))
unfolding decode_integer
decode_integer-Ready level q v r all =
    by_contents (take_integer (make_universal UniversalTag.integer false) v)
      (take_integer-IsContents (make_universal UniversalTag.integer false) v all) refl
  where
    by_contents :
        (o : Outcome BufferView (List ℕ))
        → Yields IsContents o
        → take_integer (make_universal UniversalTag.integer false) v ≡ o
        → (q' : BatchBuffer PendingInteger) × Ready level q'
          × (decode_integer level (session q v) ≡ with_buf q' (decode_unbatched v))
    by_contents (returns (ok bytes) u) c e =
        let (q', r', a) = decode_integer-taken level q v u bytes r c e in
        let answer : decode_unbatched v ≡ returns (ok (decode_integer_value bytes)) u = rw e refl in
        (q', r', a ∙ ap (with_buf q') (sym answer))
    by_contents (returns (err x) u) c e = (q, r, rw e refl)
    by_contents fault c e = (q, r, rw e refl)

first_error-Sound :
    (slots : List PendingInteger)
    → All Sound slots
    → first_error (batch_decode_integers (slot_args slots)) ≡ ErrorCode.ok
unfolding first_error batch_decode_integers
first_error-Sound [] h = refl
first_error-Sound (s ∷ slots) h = rw (h.0) (first_error-Sound slots h.1)

-- `flush_decode` of a ready batch finds no error and leaves an empty batch, which is ready.
pub flush_decode-Ready :
    (level : SimdLevel) (q : BatchBuffer PendingInteger)
    → Ready level q
    → (q' : BatchBuffer PendingInteger) × Ready level q'
      × (q'.count ≡ 0)
      × (flush_decode q ≡ returns (ok ErrorCode.ok) q')
unfolding flush_decode drain_errors drain empty
flush_decode-Ready level q r = elim (eq_or_ne q.count 0) [
  | inl z ↦ (q, r, z, rw (eqb-true q.count 0 z) refl)
  | inr ne ↦ (
    emptied q.items,
    emptied-Ready level q.items r.capacity,
    refl,
    rw
        (
          eqb-false q.count 0 ne,
          leb-true q.count (length q.items) room,
          first_error-Sound (take q.count q.items) r.sound,
        )
        refl,
  )
]
  where
    room : q.count ≤ length q.items
    room = omega (arith, r.below, r.capacity, (batch_size_bounds level).1)
