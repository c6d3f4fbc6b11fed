-- ===== src/Oer/Preamble.antt =====
-- libs/codec/oer/encoder.hpp: the preamble of a SEQUENCE.
use asn1pp.Prelude.{
  ℕ, zero, suc, ◌+◌, ◌-◌, ◌/◌, ◌<◌, ◌≡◌, ◌≢◌, refl, sym, ap, ◌∙◌, Bool, true, false, List, [], ◌∷◌,
  ◌++◌, Option, if◌then◌else◌, ltb, length, drop, ltb-true, subst, ◌==◌, eqb-false, arith, inl, inr,
  Bool-cases, get_or, none, some,
}
use asn1pp.Result.{◌>>◌}
use asn1pp.Buffer.{view, skip, Emits, ensure_size-Emits, Puts, skip-append}
use asn1pp.Oer.Meta.{OerMeta}
use asn1pp.Oer.Sequence.{preamble_bit, preamble_bits, put_preamble, encode_sequence_start}
use asn1pp.Oer.Packing.{
  packed_octets, put_preamble-written, length-packed_octets, packed_octets-same,
}

-- The first `n` of a list of flags, with `false` for those that it lacks.
abbrev pub flags_of : ℕ → List Bool → List Bool
flags_of zero xs = []
flags_of (suc n) [] = false ∷ flags_of n []
flags_of (suc n) (x ∷ xs) = x ∷ flags_of n xs

-- The preamble that X.696 asks for: a bit for the extension where the type has one, which is not
-- used, and then one for each optional component.
abbrev pub preamble_flags : OerMeta → Option (List Bool) → List Bool
preamble_flags m none = (if m.has_extension then false ∷ [] else []) ++ flags_of m.optional_count []
preamble_flags m (some present) =
    (if m.has_extension then false ∷ [] else []) ++ flags_of m.optional_count present

-- Flags in octets, the first in the highest bit of the first, with zeros behind the last.
abbrev pub flag_octets : List Bool → List ℕ
flag_octets flags =
    packed_octets (λ i. get_or flags i false) (length flags) ((length flags + 7) / 8) 0

length-flags_of : (n : ℕ) (xs : List Bool) → length (flags_of n xs) ≡ n
length-flags_of zero xs = refl
length-flags_of (suc n) [] = ap suc (length-flags_of n [])
length-flags_of (suc n) (x ∷ xs) = ap suc (length-flags_of n xs)

get_or-flags_of :
    (n k : ℕ) (xs : List Bool) → k < n → get_or (flags_of n xs) k false ≡ get_or xs k false
get_or-flags_of zero k xs h = absurd (omega arith)
get_or-flags_of (suc n) zero [] h = refl
get_or-flags_of (suc n) (suc k) [] h = get_or-flags_of n k [] (omega arith)
get_or-flags_of (suc n) zero (x ∷ xs) h = refl
get_or-flags_of (suc n) (suc k) (x ∷ xs) h = get_or-flags_of n k xs (omega arith)

-- A flag behind the bit of the extension, and one without that bit.
extended_flag :
    (n k : ℕ) (xs : List Bool)
    → k < suc n
    → (if k == 0 then false else (if ltb (k - 1) n then get_or xs (k - 1) false else false))
      ≡ get_or (false ∷ flags_of n xs) k false
extended_flag n zero xs h = refl
extended_flag n (suc k) xs h =
    let one : suc k - 1 ≡ k = omega arith in
    rw (eqb-false (suc k) 0 (omega arith), one, ltb-true k n (omega arith))
      (sym (get_or-flags_of n k xs (omega arith)))

plain_flag :
    (n k : ℕ) (xs : List Bool)
    → k < n
    → (if ltb k n then get_or xs k false else false) ≡ get_or (flags_of n xs) k false
plain_flag n k xs h = rw (ltb-true k n h) (sym (get_or-flags_of n k xs h))

absent :
    (b c : Bool) (k : ℕ) → (if b then false else (if c then get_or [] k false else false)) ≡ false
absent true c k = refl
absent false true k = refl
absent false false k = refl

preamble_bit-flag :
    (m : OerMeta) (present : Option (List Bool)) (k : ℕ)
    → k < preamble_bits m
    → preamble_bit m present k ≡ get_or (preamble_flags m present) k false
unfolding preamble_bit
preamble_bit-flag m none k h = elim (Bool-cases m.has_extension) [
  | inl t ↦ rw t (
      sym (absent (k == 0) (ltb (k - 1) m.optional_count) (k - 1))
      ∙ extended_flag m.optional_count k [] (omega (arith, more t)))
  | inr f ↦ rw f (
      sym (absent false (ltb k m.optional_count) k)
      ∙ plain_flag m.optional_count k [] (omega (arith, none_more f)))
]
  where
    more : m.has_extension ≡ true → preamble_bits m ≡ suc m.optional_count
    more t = rw t (omega arith)

    none_more : m.has_extension ≡ false → preamble_bits m ≡ m.optional_count
    none_more f = rw f (omega arith)
preamble_bit-flag m (some present) k h = elim (Bool-cases m.has_extension) [
  | inl t ↦ rw t (extended_flag m.optional_count k present (omega (arith, more t)))
  | inr f ↦ rw f (plain_flag m.optional_count k present (omega (arith, none_more f)))
]
  where
    more : m.has_extension ≡ true → preamble_bits m ≡ suc m.optional_count
    more t = rw t (omega arith)

    none_more : m.has_extension ≡ false → preamble_bits m ≡ m.optional_count
    none_more f = rw f (omega arith)

length-preamble_flags :
    (m : OerMeta) (present : Option (List Bool))
    → length (preamble_flags m present) ≡ preamble_bits m
length-preamble_flags m none = elim (Bool-cases m.has_extension) [
  | inl t ↦ rw t (omega (arith, length-flags_of m.optional_count []))
  | inr f ↦ rw f (omega (arith, length-flags_of m.optional_count []))
]
length-preamble_flags m (some present) = elim (Bool-cases m.has_extension) [
  | inl t ↦ rw t (omega (arith, length-flags_of m.optional_count present))
  | inr f ↦ rw f (omega (arith, length-flags_of m.optional_count present))
]

-- The octets that are written are those of the flags.
packed-flag_octets :
    (m : OerMeta) (present : Option (List Bool))
    → packed_octets (preamble_bit m present) (preamble_bits m) ((preamble_bits m + 7) / 8) 0
      ≡ flag_octets (preamble_flags m present)
packed-flag_octets m present =
    packed_octets-same (preamble_bit m present) (λ i. get_or (preamble_flags m present) i false)
      (preamble_bits m) ((preamble_bits m + 7) / 8) 0 (preamble_bit-flag m present)
    ∙ ap
        (λ (n : ℕ).
          packed_octets (λ i. get_or (preamble_flags m present) i false) n ((n + 7) / 8) 0)
        (sym (length-preamble_flags m present))

-- What is written, in terms of the bits that the code chooses.
encode_sequence_start-packed :
    (m : OerMeta) (present : Option (List Bool))
    → preamble_bits m ≢ 0
    → Emits
        (encode_sequence_start m present)
        (packed_octets (preamble_bit m present) (preamble_bits m) ((preamble_bits m + 7) / 8) 0)
unfolding encode_sequence_start
encode_sequence_start-packed m present ne v =
    rw (eqb-false (preamble_bits m) 0 ne)
      (ensure_size-Emits k (put_preamble k 0 m present >> skip k) bs (sym sized) written v)
  where
    k : ℕ
    k = (preamble_bits m + 7) / 8

    bs : List ℕ
    bs = packed_octets (preamble_bit m present) (preamble_bits m) k 0

    sized : length bs ≡ k
    sized = length-packed_octets (preamble_bit m present) (preamble_bits m) k 0

    written : Puts (put_preamble k 0 m present >> skip k) bs
    written b c h = rw (put_preamble-written m present k b [] c (omega (arith, sized))) (
        ap (λ (j : ℕ). skip j (view b (bs ++ drop j c))) (sym sized)
        ∙ skip-append b bs (drop (length bs) c))

-- `encode_sequence_start` of a type with a preamble writes a zero bit where the type has an
-- extension, then one bit for each optional component, set where the caller's array says that
-- it is present, the first bit in the highest of the first octet and zeros behind the last, or
-- answers `buffer_overflow` where the octets do not fit and writes nothing. Without an array no
-- component is present.
pub encode_sequence_start-Emits :
    (m : OerMeta) (present : Option (List Bool))
    → preamble_bits m ≢ 0
    → Emits (encode_sequence_start m present) (flag_octets (preamble_flags m present))
encode_sequence_start-Emits m present ne =
    subst (Emits (encode_sequence_start m present)) (packed-flag_octets m present)
      (encode_sequence_start-packed m present ne)
