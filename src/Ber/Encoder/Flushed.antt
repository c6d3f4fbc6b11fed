-- ===== src/Ber/Encoder/Flushed.antt =====
-- libs/codec/ber/ber_encoder.cpp: `flush_encode`, and the errors that it finds.
use asn1pp.Prelude.{
  ℕ, ◌-◌, ◌*◌, ◌^◌, ◌≤◌, ◌<◌, ◌≡◌, refl, Bool, true, false, not, ◌&&◌, ◌||◌, List, [], ◌∷◌,
  if◌then◌else◌, ltb, leb, ◌==◌, arith, eqb-true, eqb-false, length, take, overwrite, All,
  length-take_fits, eq_or_ne, le_or_lt, Bool-cases, inl, inr, leb-true, ltb-true, ltb-false,
}
use asn1pp.Prelude.Bits.{two-pow-pos}
use native.Mathlib.Nat.{pow-le-pow_right}
use asn1pp.ErrorCode.{ErrorCode}
use asn1pp.Result.{ok, returns}
use asn1pp.Int64.{IsInt64, signed_lt}
use asn1pp.ArchCodec.{out_of_octets, check_slot, batch_encode_integers}
use asn1pp.Batch.{BatchBuffer, drain, flush, empty}
use asn1pp.Ber.Encoder.{
  PendingInteger, slot_args, stored_slots, all_inside, first_error, drain_errors, flush_encode,
}
use asn1pp.Ber.Encoder.Pending.{length-stored_slots, length-overwrite}

abbrev flushed_batch : BatchBuffer PendingInteger → BatchBuffer PendingInteger
flushed_batch q =
    let slots = take q.count q.items in
    record {
      items = overwrite q.items 0 (stored_slots slots (batch_encode_integers (slot_args slots)));
      count = 0;
    }

-- A slot of the array of eight octets, with an `int64_t`.
pub record InSlot (s : PendingInteger) : Type 0 where
  pub room : s.size_of ≤ 8
  pub inside : s.size_of ≤ length s.value_buf
  pub int64 : IsInt64 s.value

-- The number of octets holds the value in two's complement: below `2 ^ (8n - 1)`, or negative and
-- no further from 0 than that.
unfoldable pub held_in : ℕ → ℕ → Bool
held_in value n =
    not (n == 0) && (ltb value (2 ^ (n * 8 - 1)) || leb (2 ^ 64 - 2 ^ (n * 8 - 1)) value)

-- The error of the first slot whose octets do not hold its value: it has none, or too few.
abbrev pub first_failure : List PendingInteger → ErrorCode
first_failure [] = ErrorCode.ok
first_failure (s ∷ slots) =
    if held_in s.value s.size_of
    then first_failure slots
    else if s.size_of == 0
    then ErrorCode.invalid_length
    else ErrorCode.buffer_overflow

in_range :
    (value p : ℕ)
    → value < 2 ^ 64
    → 1 ≤ p
    → p ≤ 2 ^ 62
    → (signed_lt value (2 ^ 64 - p) || signed_lt (p - 1) value)
      ≡ not (ltb value p || leb (2 ^ 64 - p) value)
in_range value p w l h = ground arith

eight : (value : ℕ) → value < 2 ^ 64 → (ltb value (2 ^ 63) || leb (2 ^ 63) value) ≡ true
eight value w = ground arith

held_out :
    (value n : ℕ) → IsInt64 value → 1 ≤ n → n ≤ 8 → out_of_octets value n ≡ not (held_in value n)
unfolding out_of_octets held_in
held_out value n w l h = elim (le_or_lt 8 n) [
  | inl whole ↦ let e : n ≡ 8 = omega arith in rw (e, eight value w) refl
  | inr part ↦
      rw (ltb-true n 8 part, eqb-false n 0 (omega arith))
        (in_range value (2 ^ (n * 8 - 1)) w (two-pow-pos (n * 8 - 1)) (
          omega
            (arith, pow-le-pow_right {n = 2} (omega arith) {i = n * 8 - 1} {j = 62} (omega arith))))
]

none_held : (value n : ℕ) → n ≡ 0 → held_in value n ≡ false
unfolding held_in
none_held value n z = rw (eqb-true n 0 z) refl

first_error-failure :
    (slots : List PendingInteger)
    → All InSlot slots
    → first_error (batch_encode_integers (slot_args slots)) ≡ first_failure slots
unfolding first_error batch_encode_integers check_slot
first_error-failure [] h = refl
first_error-failure (s ∷ slots) h = elim (eq_or_ne s.size_of 0) [
  | inl z ↦ rw (eqb-true s.size_of 0 z, none_held s.value s.size_of z) refl
  | inr ne ↦ elim (Bool-cases (held_in s.value s.size_of)) [
    | inl t ↦
        rw
          (
            eqb-false s.size_of 0 ne,
            ltb-false 8 s.size_of (h.0.room),
            held_out s.value s.size_of h.0.int64 (omega arith) h.0.room,
            t,
          )
          (first_error-failure slots h.1)
    | inr f ↦
        rw
          (
            eqb-false s.size_of 0 ne,
            ltb-false 8 s.size_of (h.0.room),
            held_out s.value s.size_of h.0.int64 (omega arith) h.0.room,
            f,
          )
          refl
  ]
]

all_inside-InSlot : (slots : List PendingInteger) → All InSlot slots → all_inside slots ≡ true
all_inside-InSlot [] h = refl
all_inside-InSlot (s ∷ slots) h =
    rw (leb-true s.size_of (length s.value_buf) h.0.inside) (all_inside-InSlot slots h.1)

-- `flush_encode` of a batch within its array, whose slots have at most 8 octets, inside their
-- buffers, and an `int64_t`: it answers `ok` where every slot has as many octets as its value
-- takes in two's complement, and else the error of the first that has not, `invalid_length` for
-- none and `buffer_overflow` for too few. It leaves an empty batch in the array.
pub flush_encode-first_failure :
    (q : BatchBuffer PendingInteger)
    → q.count ≤ length q.items
    → All InSlot (take q.count q.items)
    → (q' : BatchBuffer PendingInteger) × (q'.count ≡ 0)
      × (length q'.items ≡ length q.items)
      × (flush_encode q ≡ returns (ok (first_failure (take q.count q.items))) q')
unfolding flush_encode drain_errors flush drain empty
flush_encode-first_failure q room h = elim (eq_or_ne q.count 0) [
  | inl z ↦ (q, z, refl, rw z refl)
  | inr ne ↦ (
    flushed_batch q,
    refl,
    length-overwrite q.items
        (stored_slots (take q.count q.items)
          (batch_encode_integers (slot_args (take q.count q.items))))
        (omega (
          arith,
          length-stored_slots (take q.count q.items)
              (batch_encode_integers (slot_args (take q.count q.items))),
          length-take_fits q.count q.items room,
        )),
    rw
        (
          eqb-false q.count 0 ne,
          leb-true q.count (length q.items) room,
          all_inside-InSlot (take q.count q.items) h,
          first_error-failure (take q.count q.items) h,
        )
        refl,
  )
]
