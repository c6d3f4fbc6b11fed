-- ===== src/Oer/Strings.antt =====
-- What libs/codec/oer/encoder.hpp writes for a type.
use asn1pp.Prelude.{
  ℕ, ◌+◌, ◌≤◌, ◌≡◌, refl, sym, Bool, true, false, List, [], ◌∷◌, ◌++◌, if◌then◌else◌, ◌==◌, length,
  length-append, ltb-false, eqb-true, eqb-false, big_endian, length-big_endian, arith, eq_or_ne,
  Bool-cases, inl, inr, ◌⊎◌,
}
use asn1pp.Result.{◌>>◌}
use asn1pp.Buffer.{Emits, ensure_size-Emits, Puts, Puts-Emits, Puts-then}
use asn1pp.Oer.Meta.{OerMeta, index_byte_width}
use asn1pp.Oer.Octets.{write_be_8, write_be_index, write_octets_to_buf, encode_length_determinant}
use asn1pp.Oer.Encoder.{
  write_checked, size_byte_width, encode_fixed, encode_sized, encode_octet_string, encode_index,
  encode_boolean,
}
use asn1pp.Oer.Writing.{
  determinant_octets, encode_length_determinant-Emits, write_checked-Emits, write_be_index-Puts,
  write_be_8-Puts, write_octets_to_buf-Puts,
}

-- `octets` behind their length determinant.
abbrev pub counted_octets : List ℕ → List ℕ
counted_octets octets = determinant_octets (length octets) ++ octets

pub counted-Puts :
    (octets : List ℕ)
    → length octets ≤ 65535
    → Puts
        (encode_length_determinant (length octets) >> write_checked octets)
        (counted_octets octets)
counted-Puts octets h =
    Puts-then (encode_length_determinant (length octets)) (write_checked octets)
      (determinant_octets (length octets)) octets
      (Puts-Emits _ _ (encode_length_determinant-Emits (length octets) h))
      (Puts-Emits _ _ (write_checked-Emits octets))

pub index_width-cases :
    (n : ℕ) → (index_byte_width n ≡ 1) ⊎ ((index_byte_width n ≡ 2) ⊎ (index_byte_width n ≡ 4))
unfolding index_byte_width
index_width-cases n = ground arith

pub size_width-cases :
    (n : ℕ) → (size_byte_width n ≡ 1) ⊎ ((size_byte_width n ≡ 2) ⊎ (size_byte_width n ≡ 4))
size_width-cases n = ground arith

pub encode_index-Emits :
    (count index : ℕ) → Emits (encode_index count index) (big_endian (index_byte_width count) index)
encode_index-Emits count index =
    ensure_size-Emits (index_byte_width count) (write_be_index (index_byte_width count) index)
      (big_endian (index_byte_width count) index)
      (sym (length-big_endian (index_byte_width count) index))
      (write_be_index-Puts (index_byte_width count) index (index_width-cases count))

pub encode_boolean-Emits : (x : Bool) → Emits (encode_boolean x) ((if x then 0xff else 0) ∷ [])
unfolding encode_boolean
encode_boolean-Emits x =
    ensure_size-Emits 1 (write_be_8 (if x then 0xff else 0)) ((if x then 0xff else 0) ∷ []) refl
      (write_be_8-Puts (if x then 0xff else 0))

-- A string of fixed size.
pub encode_fixed-Emits : (octets : List ℕ) → Emits (encode_fixed (length octets) octets) octets
unfolding encode_fixed
encode_fixed-Emits octets v = rw (eqb-true (length octets) (length octets) refl) (
    ensure_size-Emits (length octets) (write_octets_to_buf octets) octets refl
      (write_octets_to_buf-Puts octets) v)

pub encode_sized-Emits :
    (lo hi : ℕ) (octets : List ℕ)
    → lo ≤ length octets
    → length octets ≤ hi
    → Emits (encode_sized lo hi octets) (big_endian (size_byte_width hi) (length octets) ++ octets)
unfolding encode_sized
encode_sized-Emits lo hi octets l h v =
    rw (ltb-false (length octets) lo l, ltb-false hi (length octets) h)
      (ensure_size-Emits (size_byte_width hi + length octets)
        (write_be_index (size_byte_width hi) (length octets) >> write_octets_to_buf octets)
        (big_endian (size_byte_width hi) (length octets) ++ octets)
        (omega (
          arith,
          length-append (big_endian (size_byte_width hi) (length octets)) octets,
          length-big_endian (size_byte_width hi) (length octets),
        ))
        (Puts-then (write_be_index (size_byte_width hi) (length octets))
          (write_octets_to_buf octets) _ _
          (write_be_index-Puts (size_byte_width hi) (length octets) (size_width-cases hi))
          (write_octets_to_buf-Puts octets))
        v)

-- The octets of an OCTET STRING: bare where its size is fixed, behind a number of fixed width where
-- its size is bounded, and else behind a length determinant.
unfoldable pub octet_string_octets : OerMeta → List ℕ → List ℕ
octet_string_octets m octets =
    if m.has_size_constraint
    then (if m.min_size == m.max_size
        then octets
        else big_endian (size_byte_width m.max_size) (length octets) ++ octets)
    else counted_octets octets

-- A size that the constraint of the type allows, or that a length determinant takes where there is
-- no constraint.
pub record Allowed (m : OerMeta) (len : ℕ) : Type 0 where
  pub lower : m.has_size_constraint ≡ true → m.min_size ≤ len
  pub upper : m.has_size_constraint ≡ true → len ≤ m.max_size
  pub counted : m.has_size_constraint ≡ false → len ≤ 65535

-- A string of the only size.
pub fixed_size :
    (m : OerMeta) (len : ℕ)
    → m.has_size_constraint ≡ true
    → m.min_size ≡ m.max_size
    → Allowed m len
    → m.min_size ≡ len
fixed_size m len t e a = omega (arith, a.lower t, a.upper t)

pub encode_octet_string-Puts :
    (m : OerMeta) (octets : List ℕ)
    → Allowed m (length octets)
    → Puts (encode_octet_string m octets) (octet_string_octets m octets)
unfolding encode_octet_string octet_string_octets
encode_octet_string-Puts m octets a = elim (Bool-cases m.has_size_constraint) [
  | inl t ↦ elim (eq_or_ne m.min_size m.max_size) [
    | inl e ↦
        rw (t, eqb-true m.min_size m.max_size e, fixed_size m (length octets) t e a)
          (Puts-Emits (encode_fixed (length octets) octets) octets (encode_fixed-Emits octets))
    | inr ne ↦
        rw (t, eqb-false m.min_size m.max_size ne)
          (Puts-Emits (encode_sized m.min_size m.max_size octets) _
            (encode_sized-Emits m.min_size m.max_size octets (a.lower t) (a.upper t)))
  ]
  | inr f ↦ rw f (counted-Puts octets (a.counted f))
]
