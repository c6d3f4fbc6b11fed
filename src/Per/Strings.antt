-- ===== src/Per/Strings.antt =====
-- The strings of octets of libs/codec/per/uper_encoder.hpp and uper_decoder.hpp.
use asn1pp.Prelude.{
  ℕ, ◌*◌, ◌^◌, ◌≤◌, ◌<◌, ◌≡◌, refl, sym, Bool, true, ◌&&◌, List, [], ◌∷◌, ◌++◌, if◌then◌else◌, leb,
  ◌==◌, arith, All, IsByte, length, eqb-true, Bool-cases, inl, inr,
}
use asn1pp.Result.{pure, ◌>>=◌, ◌>>◌}
use asn1pp.BitOps.Defs.{write_bits, read_bits}
use asn1pp.BitOps.Laws.{BitPuts, BitGets}
use asn1pp.BitOps.Numbers.{
  number_bits, length-number_bits, write_bits-BitPuts, read_bits-BitGets, BitGets-then,
  BitGets-pure, BitGets-map, BitPuts-then, BitPuts-nothing,
}
use asn1pp.Per.Meta.{PerMeta}
use asn1pp.Per.Encoder.{
  write_octets_unaligned, encode_length_determinant, encode_octet_string, size_bits, size_range,
}
use asn1pp.Per.Decoder.{
  read_octets_unaligned, take_octets, take_value, read_checked, decode_length_determinant,
  decode_octet_string,
}
use asn1pp.Per.Lengths.{
  BitGets-need, BitGets-need_octets, determinant_bits, encode_length_determinant-BitPuts,
}
use asn1pp.Per.LengthReading.{decode_length_determinant-BitGets}

abbrev pub octets_bits : List ℕ → List ℕ
octets_bits [] = []
octets_bits (x ∷ octets) = number_bits 8 x ++ octets_bits octets

pub length-octets_bits : (octets : List ℕ) → length (octets_bits octets) ≡ length octets * 8
length-octets_bits [] = refl
length-octets_bits (x ∷ octets) = omega (arith, length-octets_bits octets)

pub write_octets_unaligned-BitPuts :
    (octets : List ℕ) → BitPuts (write_octets_unaligned octets) (octets_bits octets)
unfolding write_octets_unaligned
write_octets_unaligned-BitPuts [] = BitPuts-nothing
write_octets_unaligned-BitPuts (x ∷ octets) =
    BitPuts-then (write_bits x 8) (write_octets_unaligned octets) (number_bits 8 x)
      (octets_bits octets) (write_bits-BitPuts x 8 (omega arith))
      (write_octets_unaligned-BitPuts octets)

pub read_octets_unaligned-BitGets :
    (octets : List ℕ)
    → All IsByte octets
    → BitGets (read_octets_unaligned (length octets)) (octets_bits octets) octets
unfolding read_octets_unaligned
read_octets_unaligned-BitGets [] all = BitGets-pure []
read_octets_unaligned-BitGets (x ∷ octets) all =
    BitGets-then (read_bits 8)
      (λ y. read_octets_unaligned (length octets) >>= λ dst. pure (y ∷ dst)) (number_bits 8 x)
      (octets_bits octets) x (x ∷ octets) (read_bits-BitGets 8 x (omega arith) all.0)
      (BitGets-map (read_octets_unaligned (length octets)) (λ dst. x ∷ dst) (octets_bits octets)
        octets (x ∷ octets) (read_octets_unaligned-BitGets octets all.1) refl)

pub take_octets-BitGets :
    (n : ℕ) (octets : List ℕ)
    → n ≡ length octets
    → All IsByte octets
    → BitGets (take_octets n) (octets_bits octets) octets
take_octets-BitGets n octets e all = rw e (
    BitGets-need_octets (length octets) (read_octets_unaligned (length octets)) (octets_bits octets)
      octets (omega (arith, length-octets_bits octets)) (read_octets_unaligned-BitGets octets all))

pub take_value-BitGets :
    (n : ℕ) (octets : List ℕ)
    → n ≡ length octets
    → All IsByte octets
    → BitGets (take_value n) (octets_bits octets) octets
take_value-BitGets n octets e all = rw e (
    BitGets-need (length octets * 8) (read_octets_unaligned (length octets)) (octets_bits octets)
      octets (omega (arith, length-octets_bits octets)) (read_octets_unaligned-BitGets octets all))

pub read_checked-BitGets :
    (k n : ℕ) → k ≤ 64 → n < 2 ^ k → BitGets (read_checked k) (number_bits k n) n
read_checked-BitGets k n h w =
    BitGets-need k (read_bits k) (number_bits k n) n (omega (arith, length-number_bits k n))
      (read_bits-BitGets k n h w)

-- Octets behind their length determinant.
unfoldable pub counted_bits : List ℕ → List ℕ
counted_bits octets = determinant_bits (length octets) ++ octets_bits octets

pub counted-BitPuts :
    (octets : List ℕ)
    → length octets < 2 ^ 29
    → BitPuts
        (encode_length_determinant (length octets) >> write_octets_unaligned octets)
        (counted_bits octets)
unfolding counted_bits
counted-BitPuts octets h =
    BitPuts-then (encode_length_determinant (length octets)) (write_octets_unaligned octets)
      (determinant_bits (length octets)) (octets_bits octets)
      (encode_length_determinant-BitPuts (length octets) h) (write_octets_unaligned-BitPuts octets)

pub counted-BitGets :
    (octets : List ℕ)
    → All IsByte octets
    → length octets < 2 ^ 29
    → BitGets
        (decode_length_determinant >>= λ data_len. take_octets data_len)
        (counted_bits octets)
        octets
unfolding counted_bits
counted-BitGets octets all h =
    BitGets-then decode_length_determinant take_octets (determinant_bits (length octets))
      (octets_bits octets) (length octets) octets
      (decode_length_determinant-BitGets (length octets) h)
      (take_octets-BitGets (length octets) octets refl all)

abbrev pub is_fixed : PerMeta → Bool
is_fixed m = m.has_size_constraint && m.min_size == m.max_size

abbrev pub is_bounded : PerMeta → Bool
is_bounded m = m.has_size_constraint && leb (size_range m) 65536

-- The bits of an OCTET STRING: bare where its size is fixed, behind a number of fixed width where
-- its size is bounded, and else behind a length determinant.
unfoldable pub octet_string_bits : PerMeta → List ℕ → List ℕ
octet_string_bits m octets =
    if is_fixed m
    then octets_bits octets
    else if is_bounded m
    then number_bits (size_bits m) (length octets) ++ octets_bits octets
    else counted_bits octets

-- A size that is the only one, or that the bits of the length hold.
pub record PerAllowed (m : PerMeta) (len : ℕ) : Type 0 where
  pub fixed : is_fixed m ≡ true → m.min_size ≡ len
  pub bounded : is_bounded m ≡ true → len < 2 ^ size_bits m
  pub width : size_bits m ≤ 64
  pub counted : len < 2 ^ 29

pub encode_octet_string-BitPuts :
    (m : PerMeta) (octets : List ℕ)
    → PerAllowed m (length octets)
    → BitPuts (encode_octet_string m octets) (octet_string_bits m octets)
unfolding encode_octet_string octet_string_bits
encode_octet_string-BitPuts m octets a = elim (Bool-cases (is_fixed m)) [
  | inl t ↦
      rw (t, eqb-true (length octets) m.min_size (sym (a.fixed t)))
        (write_octets_unaligned-BitPuts octets)
  | inr f ↦ elim (Bool-cases (is_bounded m)) [
    | inl t ↦
        rw (f, t)
          (BitPuts-then (write_bits (length octets) (size_bits m)) (write_octets_unaligned octets)
            (number_bits (size_bits m) (length octets)) (octets_bits octets)
            (write_bits-BitPuts (length octets) (size_bits m) a.width)
            (write_octets_unaligned-BitPuts octets))
    | inr g ↦ rw (f, g) (counted-BitPuts octets a.counted)
  ]
]

pub decode_octet_string-BitGets :
    (m : PerMeta) (octets : List ℕ)
    → PerAllowed m (length octets)
    → All IsByte octets
    → BitGets (decode_octet_string m) (octet_string_bits m octets) octets
unfolding decode_octet_string octet_string_bits
decode_octet_string-BitGets m octets a all = elim (Bool-cases (is_fixed m)) [
  | inl t ↦ rw t (take_octets-BitGets m.min_size octets (a.fixed t) all)
  | inr f ↦ elim (Bool-cases (is_bounded m)) [
    | inl t ↦
        rw (f, t)
          (BitGets-then (read_checked (size_bits m)) take_octets
            (number_bits (size_bits m) (length octets)) (octets_bits octets) (length octets) octets
            (read_checked-BitGets (size_bits m) (length octets) a.width (a.bounded t))
            (take_octets-BitGets (length octets) octets refl all))
    | inr g ↦ rw (f, g) (counted-BitGets octets all a.counted)
  ]
]
