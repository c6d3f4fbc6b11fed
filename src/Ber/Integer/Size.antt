-- ===== src/Ber/Integer/Size.antt =====
-- How many octets the contents of an INTEGER take.
use asn1pp.Prelude.{
  ℕ, zero, suc, ◌*◌, ◌/◌, ◌%◌, ◌^◌, ◌≤◌, ◌≡◌, refl, ap, Bool, true, false, not, List, [], ◌∷◌,
  if◌then◌else◌, ◌==◌, arith, bit_and, length, eqb-true, eqb-false, ltb-true, ltb-false, le_or_lt,
  inl, inr, Bool-cases, ◌⊎◌, eq_or_ne,
}
use asn1pp.Prelude.Bits.{and-ff, and-80}
use asn1pp.Int64.{IsInt64, is_negative}
use asn1pp.Ber.Integer.{raw_octets, strip_sign, needs_extra, encode_integer_bytes}
use asn1pp.Ber.Integer.RoundTrip.{strip_sign-cons, sign_octet}

length-strip_sign : (left sign : ℕ) (xs : List ℕ) → length (strip_sign left sign xs) ≤ length xs
unfolding strip_sign
length-strip_sign zero sign xs = omega arith
length-strip_sign (suc left) sign [] = omega arith
length-strip_sign (suc left) sign (x ∷ xs) = ground (arith, length-strip_sign left sign xs)

-- The first octet of the eight has the sign of the value.
first_sign :
    (v : ℕ)
    → IsInt64 v
    → (x : ℕ) × (xs : List ℕ) × (raw_octets 8 v [] ≡ x ∷ xs)
      × (length xs ≡ 7)
      × ((bit_and x 0x80 == 0) ≡ not (is_negative v))
unfolding raw_octets
first_sign v w = (bit_and top 0xff % 256, _, refl, refl, agree)
  where
    top : ℕ
    top = v / 256 / 256 / 256 / 256 / 256 / 256 / 256

    bits : bit_and (bit_and top 0xff % 256) 0x80 ≡ v / 2 ^ 63 * 128
    bits = omega (arith, and-ff top, and-80 (bit_and top 0xff % 256) (omega arith))

    agree : (bit_and (bit_and top 0xff % 256) 0x80 == 0) ≡ not (is_negative v)
    agree = elim (le_or_lt (2 ^ 63) v) [
      | inl h ↦
          rw (ltb-false v (2 ^ 63) h)
            (eqb-false (bit_and (bit_and top 0xff % 256) 0x80) 0 (omega (arith, bits)))
      | inr h ↦
          rw (ltb-true v (2 ^ 63) h)
            (eqb-true (bit_and (bit_and top 0xff % 256) 0x80) 0 (omega (arith, bits)))
    ]

-- With eight octets left the sign needs no ninth.
finished_size :
    (f : Bool) (x : ℕ) (xs : List ℕ)
    → (length xs ≤ 6) ⊎ ((length xs ≡ 7) × ((bit_and x 0x80 == 0) ≡ not f))
    → (1 ≤ length (if needs_extra f (x ∷ xs) then sign_octet f ∷ x ∷ xs else x ∷ xs))
      × (length (if needs_extra f (x ∷ xs) then sign_octet f ∷ x ∷ xs else x ∷ xs) ≤ 8)
unfolding needs_extra
finished_size true x xs (inl h) = elim (Bool-cases (bit_and x 0x80 == 0)) [
  | inl e ↦ rw e (omega arith)
  | inr e ↦ rw e (omega arith)
]
finished_size false x xs (inl h) = elim (Bool-cases (bit_and x 0x80 == 0)) [
  | inl e ↦ rw e (omega arith)
  | inr e ↦ rw e (omega arith)
]
finished_size true x xs (inr (h, e)) = rw e (omega arith)
finished_size false x xs (inr (h, e)) = rw e (omega arith)

-- What is left when the first of eight octets is a needless one, or is not.
stripped_shape :
    (f : Bool) (x : ℕ) (xs : List ℕ)
    → length xs ≡ 7
    → (bit_and x 0x80 == 0) ≡ not f
    → (y : ℕ) × (ys : List ℕ) × (strip_sign 7 (sign_octet f) (x ∷ xs) ≡ y ∷ ys)
      × ((length ys ≤ 6) ⊎ ((length ys ≡ 7) × ((bit_and y 0x80 == 0) ≡ not f)))
unfolding strip_sign
stripped_shape f x xs l s = elim (Bool-cases (x == sign_octet f)) [
  | inl e ↦
      let (y, ys, q) = strip_sign-cons 6 (sign_octet f) xs (omega arith) in
      (
        y,
        ys,
        rw e q,
        inl (omega (arith, length-strip_sign 6 (sign_octet f) xs, ap (λ (t : List ℕ). length t) q)),
      )
  | inr e ↦ (x, xs, rw e refl, inr (l, s))
]

-- The contents octets of an `int64_t` are 1 to 8, so they fit the slots of the batch.
pub length-encode_integer_bytes :
    (v : ℕ)
    → IsInt64 v
    → (1 ≤ length (encode_integer_bytes v)) × (length (encode_integer_bytes v) ≤ 8)
unfolding encode_integer_bytes
length-encode_integer_bytes v w = elim (eq_or_ne v 0) [
  | inl z ↦ rw z (omega arith)
  | inr p ↦
      let (x, xs, e, l, s) = first_sign v w in
      let (y, ys, q, shape) = stripped_shape (is_negative v) x xs l s in
      rw (eqb-false v 0 p, e, q) (finished_size (is_negative v) y ys shape)
]
