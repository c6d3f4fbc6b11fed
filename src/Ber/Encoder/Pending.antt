-- ===== src/Ber/Encoder/Pending.antt =====
-- libs/codec/ber/ber_encoder.cpp: the batch of pending integers, and `encode_integer` over it.
use asn1pp.Prelude.{
  ℕ, suc, ◌+◌, ◌-◌, ◌≤◌, ◌<◌, ◌≡◌, ◌≢◌, refl, sym, ap, ◌∙◌, List, [], ◌∷◌, ◌++◌, some, arith,
  ltb-true, eqb-true, eqb-false, length, take, drop, set, get_elem?, overwrite, replicate, true,
  All, All-append, length-set, length-append, length-drop, take-set_snoc, length-take_fits,
  eq_or_ne, inl, inr, leb-true, subst,
}
use asn1pp.ErrorCode.{ErrorCode}
use asn1pp.Result.{ok, returns}
use asn1pp.Arch.{SimdLevel}
use asn1pp.ArchCodec.{check_slot, batch_encode_integers, store_u64_be}
use asn1pp.Batch.{BatchBuffer, push, drain}
use asn1pp.Ber.Encoder.{
  PendingInteger, batch_size, slot_args, stored_slots, all_inside, drain_last, drain_full,
}

-- A slot that `batch_encode_integers` takes without an error, and stores in its `value_buf`.
abbrev pub Sound : PendingInteger → Type 0
Sound s =
    (check_slot s.value s.size_of ≡ (ErrorCode.ok, s.value)) × (s.size_of ≤ length s.value_buf)

all_inside-Sound : (slots : List PendingInteger) → All Sound slots → all_inside slots ≡ true
all_inside-Sound [] h = refl
all_inside-Sound (s ∷ slots) h =
    rw (leb-true s.size_of (length s.value_buf) h.0.1) (all_inside-Sound slots h.1)

-- Eight octets or fewer, over eight zeros.
pub filled_slot-inside :
    (value : ℕ) (bytes : List ℕ)
    → length bytes ≤ 8
    → length bytes ≤ length (overwrite (replicate 8 0) 0 bytes)
filled_slot-inside value bytes h =
    omega (arith, length-append bytes (drop (length bytes) (replicate 8 0)))

-- The state of `pending_` between calls: fewer slots than a batch, in an array of four, and sound.
pub record Ready (level : SimdLevel) (q : BatchBuffer PendingInteger) : Type 0 where
  pub below : q.count < batch_size level
  pub capacity : length q.items ≡ 4
  pub sound : All Sound (take q.count q.items)

pub batch_size_bounds : (level : SimdLevel) → (1 ≤ batch_size level) × (batch_size level ≤ 4)
unfolding batch_size
batch_size_bounds SimdLevel.avx2 = omega arith
batch_size_bounds SimdLevel.sse42 = omega arith
batch_size_bounds SimdLevel.neon = omega arith
batch_size_bounds SimdLevel.scalar = omega arith

-- The answer for the last slot of a batch.
last_answer :
    (slots : List PendingInteger) (s : PendingInteger)
    → get_elem? (batch_encode_integers (slot_args (slots ++ s ∷ []))) (length slots)
      ≡ some (
        (check_slot s.value s.size_of).0,
        store_u64_be s.value_buf (check_slot s.value s.size_of).1 s.size_of,
      )
unfolding batch_encode_integers
last_answer [] s = refl
last_answer (r ∷ slots) s = last_answer slots s

pub length-stored_slots :
    (slots : List PendingInteger) (outs : List (ErrorCode × List ℕ))
    → length (stored_slots slots outs) ≡ length slots
length-stored_slots [] outs = refl
length-stored_slots (s ∷ slots) [] = refl
length-stored_slots (s ∷ slots) (o ∷ outs) = ap suc (length-stored_slots slots outs)

pub length-overwrite :
    (xs ys : List PendingInteger) → length ys ≤ length xs → length (overwrite xs 0 ys) ≡ length xs
length-overwrite xs ys h =
    omega (arith, length-append ys (drop (length ys) xs), length-drop (length ys) xs)

-- A batch with the slot pushed, before it is looked whether it is full.
abbrev pushed : BatchBuffer PendingInteger → PendingInteger → BatchBuffer PendingInteger
pushed q s = record { items = set q.items q.count s; count = q.count + 1 }

pub push-pushed :
    (level : SimdLevel) (q : BatchBuffer PendingInteger) (s : PendingInteger)
    → Ready level q
    → push s q ≡ returns (ok tt) (pushed q s)
unfolding push
push-pushed level q s r =
    rw
      (ltb-true q.count (length q.items)
        (omega (arith, r.below, r.capacity, (batch_size_bounds level).1)))
      refl

taken-pushed :
    (level : SimdLevel) (q : BatchBuffer PendingInteger) (s : PendingInteger)
    → Ready level q
    → take (q.count + 1) (set q.items q.count s) ≡ take q.count q.items ++ s ∷ []
taken-pushed level q s r =
    let e : q.count + 1 ≡ suc q.count = omega arith in
    ap (λ (n : ℕ). take n (set q.items q.count s)) e
    ∙ take-set_snoc q.count q.items s
        (omega (arith, r.below, r.capacity, (batch_size_bounds level).1))

-- The batch behind a drain: empty, with what was stored left in the array.
abbrev drained_batch : BatchBuffer PendingInteger → PendingInteger → BatchBuffer PendingInteger
drained_batch q s =
    let slots = take (q.count + 1) (set q.items q.count s) in
    record {
      items =
          overwrite (set q.items q.count s) 0
            (stored_slots slots (batch_encode_integers (slot_args slots)));
      count = 0;
    }

drained_batch-Ready :
    (level : SimdLevel) (q : BatchBuffer PendingInteger) (s : PendingInteger)
    → Ready level q
    → Ready level (drained_batch q s)
drained_batch-Ready level q s r = record {
  below = (batch_size_bounds level).0;
  capacity =
      length-overwrite (set q.items q.count s)
        (stored_slots slots (batch_encode_integers (slot_args slots))) fits
      ∙ length-set q.items q.count s
      ∙ r.capacity;
  sound = tt;
}
  where
    slots : List PendingInteger
    slots = take (q.count + 1) (set q.items q.count s)

    fits :
        length (stored_slots slots (batch_encode_integers (slot_args slots)))
        ≤ length (set q.items q.count s)
    fits = omega (
      arith,
      length-stored_slots slots (batch_encode_integers (slot_args slots)),
      length-take_fits (q.count + 1) (set q.items q.count s) (
          omega (
            arith,
            length-set q.items q.count s,
            r.below,
            r.capacity,
            (batch_size_bounds level).1,
          )),
      length-set q.items q.count s,
      r.below,
      r.capacity,
      (batch_size_bounds level).1,
    )

pushed-Ready :
    (level : SimdLevel) (q : BatchBuffer PendingInteger) (s : PendingInteger)
    → Ready level q
    → Sound s
    → q.count + 1 ≢ batch_size level
    → Ready level (pushed q s)
pushed-Ready level q s r ok_slot ne = record {
  below = omega (arith, r.below);
  capacity = length-set q.items q.count s ∙ r.capacity;
  sound =
      subst (All Sound) (sym (taken-pushed level q s r))
        (All-append Sound (take q.count q.items) (s ∷ []) r.sound (ok_slot, tt));
}

drain_last-Sound :
    (level : SimdLevel) (q : BatchBuffer PendingInteger) (s : PendingInteger)
    → Ready level q
    → Sound s
    → q.count + 1 ≡ batch_size level
    → drain_last level (pushed q s) ≡ returns (ok tt) (drained_batch q s)
unfolding drain_last drain
drain_last-Sound level q s r ok_slot full =
    rw
      (
        leb-true (q.count + 1) (length (set q.items q.count s)) (
            omega (
              arith,
              length-set q.items q.count s,
              r.below,
              r.capacity,
              (batch_size_bounds level).1,
            )),
        inside,
        answer,
      )
      refl
  where
    slots : List PendingInteger
    slots = take (q.count + 1) (set q.items q.count s)

    index : batch_size level - 1 ≡ length (take q.count q.items)
    index = omega (
      arith,
      length-take_fits q.count q.items
          (omega (arith, r.below, r.capacity, (batch_size_bounds level).1)),
    )

    inside : all_inside slots ≡ true
    inside = all_inside-Sound slots (
        subst (All Sound) (sym (taken-pushed level q s r))
          (All-append Sound (take q.count q.items) (s ∷ []) r.sound (ok_slot, tt)))

    answer :
        get_elem? (batch_encode_integers (slot_args slots)) (batch_size level - 1)
        ≡ some (ErrorCode.ok, store_u64_be s.value_buf s.value s.size_of)
    answer =
        ap
          (λ (xs : List PendingInteger).
            get_elem? (batch_encode_integers (slot_args xs)) (batch_size level - 1))
          (taken-pushed level q s r)
        ∙ ap (get_elem? (batch_encode_integers (slot_args (take q.count q.items ++ s ∷ [])))) index
        ∙ last_answer (take q.count q.items) s
        ∙ ap (λ (p : ErrorCode × ℕ). some (p.0, store_u64_be s.value_buf p.1 s.size_of)) ok_slot.0

-- After the push, full or not, the batch is ready again, and no error comes out of it.
pub drain_full-Ready :
    (level : SimdLevel) (q : BatchBuffer PendingInteger) (s : PendingInteger)
    → Ready level q
    → Sound s
    → (q' : BatchBuffer PendingInteger) × Ready level q'
      × (drain_full level (pushed q s) ≡ returns (ok tt) q')
unfolding drain_full
drain_full-Ready level q s r ok_slot = elim (eq_or_ne (q.count + 1) (batch_size level)) [
  | inl full ↦ (
    drained_batch q s,
    drained_batch-Ready level q s r,
    rw (eqb-true (q.count + 1) (batch_size level) full) (drain_last-Sound level q s r ok_slot full),
  )
  | inr ne ↦ (
    pushed q s,
    pushed-Ready level q s r ok_slot ne,
    rw (eqb-false (q.count + 1) (batch_size level) ne) refl,
  )
]
