-- ===== src/Per/Indexes.antt =====
-- BOOLEAN, ENUMERATED, CHOICE and SEQUENCE in libs/codec/per/uper_encoder.hpp and uper_decoder.hpp.
use asn1pp.Prelude.{
  ℕ, ◌-◌, ◌^◌, ◌≤◌, ◌<◌, ◌≡◌, refl, ap, Bool, not, true, false, List, [], ◌∷◌, ◌++◌, if◌then◌else◌,
  leb, ◌==◌, arith, length, leb-true, leb-false, ltb-true, le_or_lt, Bool-cases, inl, inr,
}
use asn1pp.ErrorCode.{ErrorCode}
use asn1pp.Result.{Op, pure, ensure, ◌>>=◌, ◌>>◌}
use asn1pp.BitOps.Defs.{BitStream, write_bits}
use asn1pp.BitOps.Laws.{BitPuts, BitGets}
use asn1pp.BitOps.Numbers.{
  number_bits, write_bits-BitPuts, BitGets-then, BitGets-pure, BitGets-map, BitPuts-then,
  BitPuts-nothing,
}
use asn1pp.Per.Meta.{PerMeta, bits_needed_unsigned, minus_64}
use asn1pp.Per.Counts.{bits_needed_unsigned-BitLength}
use asn1pp.Per.Encoder.{
  encode_boolean, encode_enumerated, encode_choice_index, put_flags, encode_sequence_start,
}
use asn1pp.Per.Decoder.{
  read_checked, decode_boolean, decode_enumerated, decode_choice_index, get_flags,
  decode_sequence_start,
}
use asn1pp.Per.LengthReading.{BitGets-answer}
use asn1pp.Per.Strings.{read_checked-BitGets}

abbrev pub flag : Bool → ℕ
flag x = if x then 1 else 0

pub encode_boolean-BitPuts : (x : Bool) → BitPuts (encode_boolean x) (number_bits 1 (flag x))
unfolding encode_boolean
encode_boolean-BitPuts x = write_bits-BitPuts (flag x) 1 (omega arith)

flag-BitGets :
    (x : Bool)
    → BitGets (read_checked 1 >>= λ bit. pure (not (bit == 0))) (number_bits 1 (flag x)) x
flag-BitGets true =
    BitGets-map (read_checked 1) (λ bit. not (bit == 0)) (number_bits 1 1) 1 true
      (read_checked-BitGets 1 1 (omega arith) (omega arith)) refl
flag-BitGets false =
    BitGets-map (read_checked 1) (λ bit. not (bit == 0)) (number_bits 1 0) 0 false
      (read_checked-BitGets 1 0 (omega arith) (omega arith)) refl

pub decode_boolean-BitGets : (x : Bool) → BitGets decode_boolean (number_bits 1 (flag x)) x
unfolding decode_boolean
decode_boolean-BitGets = flag-BitGets

-- The bits of an index: those of the largest one.
abbrev pub index_bits : ℕ → ℕ → List ℕ
index_bits count index = number_bits (bits_needed_unsigned (count - 1)) index

index_fits :
    (count index : ℕ)
    → index < count
    → count ≤ 2 ^ 63
    → (index < 2 ^ bits_needed_unsigned (count - 1)) × (bits_needed_unsigned (count - 1) ≤ 64)
index_fits count index h w =
    let (b, l) = bits_needed_unsigned-BitLength (count - 1) (omega arith) in
    (omega (arith, b.above), l)

one_name : (count index : ℕ) → index < count → count ≤ 1 → index_bits count index ≡ []
one_name count index h w =
    let (b, l) = bits_needed_unsigned-BitLength (count - 1) (omega arith) in
    ap (λ (k : ℕ). number_bits k index) (b.none_of_zero (omega arith))

pub encode_enumerated-BitPuts :
    (m : PerMeta) (index : ℕ)
    → index < m.normal_index_count
    → m.normal_index_count ≤ 2 ^ 63
    → BitPuts (encode_enumerated m index) (index_bits m.normal_index_count index)
unfolding encode_enumerated
encode_enumerated-BitPuts m index h w = elim (le_or_lt m.normal_index_count 1) [
  | inl one ↦
      rw
        (
          ltb-true index (2 ^ 63) (omega arith),
          leb-false m.normal_index_count index h,
          leb-true m.normal_index_count 1 one,
          one_name m.normal_index_count index h one,
        )
        BitPuts-nothing
  | inr many ↦
      rw
        (
          ltb-true index (2 ^ 63) (omega arith),
          leb-false m.normal_index_count index h,
          leb-false m.normal_index_count 1 many,
        )
        (write_bits-BitPuts index (bits_needed_unsigned (m.normal_index_count - 1))
          (index_fits m.normal_index_count index h w).1)
]

pub decode_enumerated-BitGets :
    (m : PerMeta) (index : ℕ)
    → index < m.normal_index_count
    → m.normal_index_count ≤ 2 ^ 63
    → BitGets (decode_enumerated m) (index_bits m.normal_index_count index) index
unfolding decode_enumerated
decode_enumerated-BitGets m index h w = elim (le_or_lt m.normal_index_count 1) [
  | inl one ↦
      let z : index ≡ 0 = omega arith in
      rw (leb-true m.normal_index_count 1 one, one_name m.normal_index_count index h one, z)
        (BitGets-pure 0)
  | inr many ↦ rw (leb-false m.normal_index_count 1 many) (
      BitGets-answer (read_checked (bits_needed_unsigned (m.normal_index_count - 1)))
        (λ idx.
          ensure (not (leb m.normal_index_count idx)) ErrorCode.value_out_of_range >> pure idx)
        (index_bits m.normal_index_count index) index index
        (read_checked-BitGets (bits_needed_unsigned (m.normal_index_count - 1)) index
          (index_fits m.normal_index_count index h w).1
          (index_fits m.normal_index_count index h w).0)
        λ s. rw (leb-false m.normal_index_count index h) refl)
]

less_one : (count : ℕ) → 1 ≤ count → count ≤ 2 ^ 63 → minus_64 count 1 ≡ count - 1
less_one count p w = omega arith

pub encode_choice_index-BitPuts :
    (m : PerMeta) (index : ℕ)
    → index < m.alternative_count
    → m.alternative_count ≤ 2 ^ 63
    → BitPuts (encode_choice_index m index) (index_bits m.alternative_count index)
unfolding encode_choice_index
encode_choice_index-BitPuts m index h w =
    rw
      (
        ltb-true index (2 ^ 63) (omega arith),
        leb-false m.alternative_count index h,
        less_one m.alternative_count (omega arith) w,
      )
      (write_bits-BitPuts index (bits_needed_unsigned (m.alternative_count - 1))
        (index_fits m.alternative_count index h w).1)

pub decode_choice_index-BitGets :
    (m : PerMeta) (index : ℕ)
    → index < m.alternative_count
    → m.alternative_count ≤ 2 ^ 63
    → BitGets (decode_choice_index m) (index_bits m.alternative_count index) index
unfolding decode_choice_index
decode_choice_index-BitGets m index h w = rw (less_one m.alternative_count (omega arith) w) (
    BitGets-answer (read_checked (bits_needed_unsigned (m.alternative_count - 1)))
      (λ idx. ensure (not (leb m.alternative_count idx)) ErrorCode.value_out_of_range >> pure idx)
      (index_bits m.alternative_count index) index index
      (read_checked-BitGets (bits_needed_unsigned (m.alternative_count - 1)) index
        (index_fits m.alternative_count index h w).1 (index_fits m.alternative_count index h w).0)
      λ s. rw (leb-false m.alternative_count index h) refl)

-- One bit for each optional component.
abbrev pub flags_bits : List Bool → List ℕ
flags_bits [] = []
flags_bits (p ∷ present) = number_bits 1 (flag p) ++ flags_bits present

put_flags-BitPuts : (present : List Bool) → BitPuts (put_flags present) (flags_bits present)
unfolding put_flags
put_flags-BitPuts [] = BitPuts-nothing
put_flags-BitPuts (p ∷ present) =
    BitPuts-then (write_bits (flag p) 1) (put_flags present) (number_bits 1 (flag p))
      (flags_bits present) (write_bits-BitPuts (flag p) 1 (omega arith)) (put_flags-BitPuts present)

get_flags-BitGets :
    (present : List Bool) → BitGets (get_flags (length present)) (flags_bits present) present
unfolding get_flags
get_flags-BitGets [] = BitGets-pure []
get_flags-BitGets (p ∷ present) =
    BitGets-then (read_checked 1)
      (λ pres. get_flags (length present) >>= λ rest. pure (not (pres == 0) ∷ rest))
      (number_bits 1 (flag p)) (flags_bits present) (flag p) (p ∷ present)
      (read_checked-BitGets 1 (flag p) (omega arith) (small p))
      (BitGets-map (get_flags (length present)) (λ rest. not (flag p == 0) ∷ rest)
        (flags_bits present) present (p ∷ present) (get_flags-BitGets present)
        (ap (λ (q : Bool). q ∷ present) (same p)))
  where
    small : (p : Bool) → flag p < 2 ^ 1
    small true = omega arith
    small false = omega arith

    same : (p : Bool) → not (flag p == 0) ≡ p
    same true = refl
    same false = refl

-- The extension bit, always 0, and the optional components.
abbrev pub preamble_bits : PerMeta → List Bool → List ℕ
preamble_bits m present = (if m.has_extension then number_bits 1 0 else []) ++ flags_bits present

pub encode_sequence_start-BitPuts :
    (m : PerMeta) (present : List Bool)
    → BitPuts (encode_sequence_start m present) (preamble_bits m present)
unfolding encode_sequence_start
encode_sequence_start-BitPuts m present = elim (Bool-cases m.has_extension) [
  | inl t ↦ rw t (
      BitPuts-then (write_bits 0 1) (put_flags present) (number_bits 1 0) (flags_bits present)
        (write_bits-BitPuts 0 1 (omega arith)) (put_flags-BitPuts present))
  | inr f ↦ rw f (put_flags-BitPuts present)
]

pub decode_sequence_start-BitGets :
    (m : PerMeta) (present : List Bool)
    → BitGets (decode_sequence_start m (length present)) (preamble_bits m present) (false, present)
unfolding decode_sequence_start
decode_sequence_start-BitGets m present = elim (Bool-cases m.has_extension) [
  | inl t ↦ rw t (
      BitGets-then (read_checked 1 >>= λ ext_bit. pure (not (ext_bit == 0))) flags (number_bits 1 0)
        (flags_bits present) false (false, present) (flag-BitGets false)
        (BitGets-map (get_flags (length present)) (λ xs. (false, xs)) (flags_bits present) present
          (false, present) (get_flags-BitGets present) refl))
  | inr f ↦ rw f (
      BitGets-map (get_flags (length present)) (λ xs. (false, xs)) (flags_bits present) present
        (false, present) (get_flags-BitGets present) refl)
]
  where
    flags : Bool → Op BitStream (Bool × List Bool)
    flags chosen = get_flags (length present) >>= λ xs. pure (chosen, xs)
