-- ===== src/Ber/Decoder/Pending.antt =====
-- libs/codec/ber/ber_decoder.cpp: the batch of pending integers, and `decode_integer` over it.
use asn1pp.Prelude.{
  ℕ, suc, ◌+◌, ◌-◌, ◌≤◌, ◌<◌, ◌≡◌, ◌≢◌, refl, sym, ap, ◌∙◌, List, [], ◌∷◌, ◌++◌, some, arith,
  ltb-true, eqb-true, eqb-false, length, take, set, get_elem?, All, All-append, length-set,
  take-set_snoc, length-take_fits, eq_or_ne, inl, inr, leb-true, subst,
}
use asn1pp.ErrorCode.{ErrorCode}
use asn1pp.Result.{ok, returns}
use asn1pp.Buffer.{BufferView}
use asn1pp.Arch.{SimdLevel}
use asn1pp.ArchCodec.{decode_slot, batch_decode_integers}
use asn1pp.Batch.{BatchBuffer, push, drain}
use asn1pp.Ber.Integer.{decode_integer_value}
use asn1pp.Ber.Integer.Slots.{decode_slot-eq}
use asn1pp.Ber.Session.{session}
use asn1pp.Ber.Decoder.{
  PendingInteger, batch_size, filled_slot, slot_args, drain_last, answer_integer,
}
use asn1pp.Ber.Decoder.Contents.{IsContents}

-- A slot that `batch_decode_integers` takes without an error.
abbrev pub Sound : PendingInteger → Type 0
Sound s = (decode_slot s.value_buf s.size_of).0 ≡ ErrorCode.ok

-- The state of `pending_` between calls: fewer slots than a batch, in an array of four, and sound.
pub record Ready (level : SimdLevel) (q : BatchBuffer PendingInteger) : Type 0 where
  pub below : q.count < batch_size level
  pub capacity : length q.items ≡ 4
  pub sound : All Sound (take q.count q.items)

pub batch_size_bounds : (level : SimdLevel) → (1 ≤ batch_size level) × (batch_size level ≤ 4)
unfolding batch_size
batch_size_bounds SimdLevel.avx2 = omega arith
batch_size_bounds SimdLevel.sse42 = omega arith
batch_size_bounds SimdLevel.neon = omega arith
batch_size_bounds SimdLevel.scalar = omega arith

-- The answer for the last slot of a batch.
pub last_answer :
    (slots : List PendingInteger) (s : PendingInteger)
    → get_elem? (batch_decode_integers (slot_args (slots ++ s ∷ []))) (length slots)
      ≡ some (decode_slot s.value_buf s.size_of)
unfolding batch_decode_integers
last_answer [] s = refl
last_answer (r ∷ slots) s = last_answer slots s

abbrev pub pushed : BatchBuffer PendingInteger → PendingInteger → BatchBuffer PendingInteger
pushed q s = record { items = set q.items q.count s; count = q.count + 1 }

pub push-pushed :
    (level : SimdLevel) (q : BatchBuffer PendingInteger) (s : PendingInteger)
    → Ready level q
    → push s q ≡ returns (ok tt) (pushed q s)
unfolding push
push-pushed level q s r =
    rw
      (ltb-true q.count (length q.items)
        (omega (arith, r.below, r.capacity, (batch_size_bounds level).1)))
      refl

taken-pushed :
    (level : SimdLevel) (q : BatchBuffer PendingInteger) (s : PendingInteger)
    → Ready level q
    → take (q.count + 1) (set q.items q.count s) ≡ take q.count q.items ++ s ∷ []
taken-pushed level q s r =
    let e : q.count + 1 ≡ suc q.count = omega arith in
    ap (λ (n : ℕ). take n (set q.items q.count s)) e
    ∙ take-set_snoc q.count q.items s
        (omega (arith, r.below, r.capacity, (batch_size_bounds level).1))

-- The batch behind a drain: empty, with the items left in the array.
abbrev pub emptied : List PendingInteger → BatchBuffer PendingInteger
emptied items = record { items = items; count = 0 }

pub emptied-Ready :
    (level : SimdLevel) (items : List PendingInteger)
    → length items ≡ 4
    → Ready level (emptied items)
emptied-Ready level items h = record {
  below = (batch_size_bounds level).0;
  capacity = h;
  sound = tt;
}

pub pushed-Ready :
    (level : SimdLevel) (q : BatchBuffer PendingInteger) (s : PendingInteger)
    → Ready level q
    → Sound s
    → q.count + 1 ≢ batch_size level
    → Ready level (pushed q s)
pushed-Ready level q s r ok_slot ne = record {
  below = omega (arith, r.below);
  capacity = length-set q.items q.count s ∙ r.capacity;
  sound =
      subst (All Sound) (sym (taken-pushed level q s r))
        (All-append Sound (take q.count q.items) (s ∷ []) r.sound (ok_slot, tt));
}

-- The contents of the last slot pushed are those that the answer comes from.
pub last_slot-answer :
    (level : SimdLevel) (q : BatchBuffer PendingInteger) (bytes : List ℕ)
    → Ready level q
    → IsContents bytes
    → q.count + 1 ≡ batch_size level
    → get_elem?
        (batch_decode_integers
          (slot_args (take (q.count + 1) (set q.items q.count (filled_slot bytes)))))
        (batch_size level - 1)
      ≡ some (ErrorCode.ok, decode_integer_value bytes)
last_slot-answer level q bytes r c full =
    ap
      (λ (xs : List PendingInteger).
        get_elem? (batch_decode_integers (slot_args xs)) (batch_size level - 1))
      (taken-pushed level q (filled_slot bytes) r)
    ∙ ap
        (get_elem?
          (batch_decode_integers (slot_args (take q.count q.items ++ filled_slot bytes ∷ []))))
        index
    ∙ last_answer (take q.count q.items) (filled_slot bytes)
    ∙ ap (λ (p : ErrorCode × ℕ). some p) (decode_slot-eq bytes c.0 c.1 c.2)
  where
    index : batch_size level - 1 ≡ length (take q.count q.items)
    index = omega (
      arith,
      length-take_fits q.count q.items
          (omega (arith, r.below, r.capacity, (batch_size_bounds level).1)),
    )

drain_last-answer :
    (level : SimdLevel) (q : BatchBuffer PendingInteger) (v : BufferView) (bytes : List ℕ)
    → Ready level q
    → IsContents bytes
    → q.count + 1 ≡ batch_size level
    → drain_last level (session (pushed q (filled_slot bytes)) v)
      ≡ returns
          (ok (decode_integer_value bytes))
          (session (emptied (set q.items q.count (filled_slot bytes))) v)
unfolding drain_last drain
drain_last-answer level q v bytes r c full =
    rw
      (
        leb-true (q.count + 1) (length (set q.items q.count (filled_slot bytes))) (
            omega (
              arith,
              length-set q.items q.count (filled_slot bytes),
              r.below,
              r.capacity,
              (batch_size_bounds level).1,
            )),
        last_slot-answer level q bytes r c full,
      )
      refl

-- What follows the push answers the number of the bytes, and the batch is ready again.
pub answer_integer-Ready :
    (level : SimdLevel) (q : BatchBuffer PendingInteger) (v : BufferView) (bytes : List ℕ)
    → Ready level q
    → IsContents bytes
    → (q' : BatchBuffer PendingInteger) × Ready level q'
      × (answer_integer level bytes (session (pushed q (filled_slot bytes)) v)
          ≡ returns (ok (decode_integer_value bytes)) (session q' v))
unfolding answer_integer
answer_integer-Ready level q v bytes r c = elim (eq_or_ne (q.count + 1) (batch_size level)) [
  | inl full ↦ (
    emptied (set q.items q.count (filled_slot bytes)),
    emptied-Ready level (set q.items q.count (filled_slot bytes))
        (length-set q.items q.count (filled_slot bytes) ∙ r.capacity),
    rw (eqb-true (q.count + 1) (batch_size level) full)
        (drain_last-answer level q v bytes r c full),
  )
  | inr ne ↦ (
    pushed q (filled_slot bytes),
    pushed-Ready level q (filled_slot bytes) r
        (ap (λ (p : ErrorCode × ℕ). p.0) (decode_slot-eq bytes c.0 c.1 c.2)) ne,
    rw (eqb-false (q.count + 1) (batch_size level) ne) refl,
  )
]
