-- ===== src/Ber/Der/Minimal.antt =====
-- libs/codec/ber/der_encoder.cpp on the contents octets that ber_encoder.cpp writes for integers.
use asn1pp.Prelude.{
  ℕ, zero, suc, ◌+◌, ◌<◌, ◌≡◌, ◌≢◌, refl, sym, ◌∙◌, Bool, true, false, not, List, [], ◌∷◌,
  if◌then◌else◌, ◌==◌, leb, arith, bit_and, length, eqb-false, and-false, inl, inr, Bool-cases, ◌⊎◌,
  eq_or_ne, subst,
}
use asn1pp.Result.{ok}
use asn1pp.Int64.{is_negative}
use asn1pp.Ber.Integer.{raw_octets, strip_sign, needs_extra, encode_integer_bytes}
use asn1pp.Ber.Integer.RoundTrip.{sign_octet, length-raw_octets}
use asn1pp.Ber.Der.{is_integer_minimal, count_sign_leading_octets, validate_integer_der, violation}

-- Where the loop over needless octets stops: in front of another octet, or at the last one.
strip_sign-stop :
    (left sign : ℕ) (xs : List ℕ)
    → left < length xs
    → (y : ℕ) × (ys : List ℕ) × (strip_sign left sign xs ≡ y ∷ ys)
      × (((y == sign) ≡ false) ⊎ (length ys + 1 + left ≡ length xs))
unfolding strip_sign
strip_sign-stop left sign [] h = absurd (omega arith)
strip_sign-stop zero sign (x ∷ xs) h = (x, xs, refl, inr (omega arith))
strip_sign-stop (suc left) sign (x ∷ xs) h = elim (Bool-cases (x == sign)) [
  | inl e ↦
      let (y, ys, q, stop) = strip_sign-stop left sign xs (omega arith) in
      rw e (y, ys, q, elim stop [ inl a ↦ inl a | inr b ↦ inr (omega arith) ])
  | inr e ↦ rw e (x, xs, refl, inl e)
]

-- Two octets in front, of which the first has the other sign bit or is no sign octet.
minimal_other :
    (x y : ℕ) (ys : List ℕ)
    → (x == 0) ≡ false
    → (x == 0xff) ≡ false
    → is_integer_minimal (x ∷ y ∷ ys) ≡ true
unfolding is_integer_minimal
minimal_other x y ys p q = rw (p, q) refl

minimal_alone : (f : Bool) (x : ℕ) → is_integer_minimal (x ∷ []) ≡ true
unfolding is_integer_minimal
minimal_alone f x = refl

-- An octet with the sign bit `f` that is not the sign octet of `f` is neither sign octet.
no_sign_octet :
    (f : Bool) (x : ℕ)
    → (bit_and x 0x80 == 0) ≡ not f
    → (x == sign_octet f) ≡ false
    → ((x == 0) ≡ false) × ((x == 0xff) ≡ false)
no_sign_octet true x s n = (other (eq_or_ne x 0), n)
  where
    other : (x ≡ 0) ⊎ (x ≢ 0) → (x == 0) ≡ false
    other (inl e) =
        let h : true ≡ false = subst (λ (z : ℕ). (bit_and z 0x80 == 0) ≡ false) e s in cc
    other (inr e) = eqb-false x 0 e
no_sign_octet false x s n = (n, other (eq_or_ne x 0xff))
  where
    other : (x ≡ 0xff) ⊎ (x ≢ 0xff) → (x == 0xff) ≡ false
    other (inl e) = let h : false ≡ true = subst (λ (z : ℕ). (bit_and z 0x80 == 0) ≡ true) e s in cc
    other (inr e) = eqb-false x 0xff e

minimal_finished :
    (f : Bool) (y : ℕ) (ys : List ℕ)
    → ((y == sign_octet f) ≡ false) ⊎ (length ys + 1 + 7 ≡ 8)
    → is_integer_minimal (if needs_extra f (y ∷ ys) then sign_octet f ∷ y ∷ ys else y ∷ ys) ≡ true
unfolding needs_extra
minimal_finished true y ys stop = elim (Bool-cases (bit_and y 0x80 == 0)) [
  | inl e ↦ rw e (unfold is_integer_minimal in rw e refl)
  | inr e ↦ rw e (kept ys stop e)
]
  where
    kept :
        (ys : List ℕ)
        → ((y == 0xff) ≡ false) ⊎ (length ys + 1 + 7 ≡ 8)
        → (bit_and y 0x80 == 0) ≡ false
        → is_integer_minimal (y ∷ ys) ≡ true
    kept [] stop e = minimal_alone true y
    kept (z ∷ ys) (inl n) e = let (p, q) = no_sign_octet true y e n in minimal_other y z ys p q
    kept (z ∷ ys) (inr n) e = absurd (omega arith)
minimal_finished false y ys stop = elim (Bool-cases (bit_and y 0x80 == 0)) [
  | inl e ↦ rw e (kept ys stop e)
  | inr e ↦ rw e (unfold is_integer_minimal in rw e refl)
]
  where
    kept :
        (ys : List ℕ)
        → ((y == 0) ≡ false) ⊎ (length ys + 1 + 7 ≡ 8)
        → (bit_and y 0x80 == 0) ≡ true
        → is_integer_minimal (y ∷ ys) ≡ true
    kept [] stop e = minimal_alone true y
    kept (z ∷ ys) (inl n) e = let (p, q) = no_sign_octet false y e n in minimal_other y z ys p q
    kept (z ∷ ys) (inr n) e = absurd (omega arith)

-- The octets of `encode_integer_bytes` pass the test `is_integer_minimal`, whatever the value
-- is.
pub is_integer_minimal-encode_integer_bytes :
    (v : ℕ) → is_integer_minimal (encode_integer_bytes v) ≡ true
unfolding encode_integer_bytes
is_integer_minimal-encode_integer_bytes v = elim (eq_or_ne v 0) [
  | inl z ↦ rw z (minimal_alone true 0)
  | inr p ↦
      let (y, ys, q, stop) =
        strip_sign-stop 7 (sign_octet (is_negative v)) (raw_octets 8 v [])
          (omega (arith, length-raw_octets v)) in
      rw (eqb-false v 0 p, q) (minimal_finished (is_negative v) y ys (sized ys y stop))
]
  where
    sized :
        (ys : List ℕ) (y : ℕ)
        → ((y == sign_octet (is_negative v)) ≡ false)
          ⊎ (length ys + 1 + 7 ≡ length (raw_octets 8 v []))
        → ((y == sign_octet (is_negative v)) ≡ false) ⊎ (length ys + 1 + 7 ≡ 8)
    sized ys y (inl a) = inl a
    sized ys y (inr b) = inr (b ∙ length-raw_octets v)

other_sign : (y : ℕ) → (bit_and y 0x80 == 0) ≡ true → (y == 0xff) ≡ false
other_sign y b = elim (eq_or_ne y 0xff) [
  | inl e ↦ let h : false ≡ true = subst (λ (z : ℕ). (bit_and z 0x80 == 0) ≡ true) e b in cc
  | inr e ↦ eqb-false y 0xff e
]

-- Contents octets that `is_integer_minimal` accepts pass `validate_integer_der`.
pub validate_integer_der-minimal :
    (content : List ℕ) → is_integer_minimal content ≡ true → validate_integer_der content ≡ ok tt
unfolding is_integer_minimal validate_integer_der count_sign_leading_octets
validate_integer_der-minimal [] m = cc
validate_integer_der-minimal (x ∷ []) m = refl
validate_integer_der-minimal (x ∷ y ∷ rest) m = elim (Bool-cases (bit_and x 0x80 == 0)) [
  | inl p ↦ rw p (zero_first (Bool-cases (x == 0)) (Bool-cases (bit_and y 0x80 == 0)))
  | inr n ↦ rw n (ones_first (Bool-cases (x == 0xff)) (Bool-cases (bit_and y 0x80 == 0)))
]
  where
    zero_first :
        ((x == 0) ≡ true) ⊎ ((x == 0) ≡ false)
        → ((bit_and y 0x80 == 0) ≡ true) ⊎ ((bit_and y 0x80 == 0) ≡ false)
        → (if x == 0 then (if bit_and y 0x80 == 0 then violation else ok tt) else ok tt) ≡ ok tt
    zero_first (inr a) b = rw a refl
    zero_first (inl a) (inr b) = rw (a, b) refl
    zero_first (inl a) (inl b) =
        let e : is_integer_minimal (x ∷ y ∷ rest) ≡ false = rw (a, b) refl in
        let h : false ≡ true = sym e ∙ m in cc

    ones_first :
        ((x == 0xff) ≡ true) ⊎ ((x == 0xff) ≡ false)
        → ((bit_and y 0x80 == 0) ≡ true) ⊎ ((bit_and y 0x80 == 0) ≡ false)
        → (if x == 0xff
            then (if leb 2 (count_sign_leading_octets (x ∷ y ∷ rest) 0xff)
                then violation
                else ok tt)
            else ok tt)
          ≡ ok tt
    ones_first (inr a) b = rw a refl
    ones_first (inl a) (inr b) =
        let e : is_integer_minimal (x ∷ y ∷ rest) ≡ false = rw (b, and-false (x == 0), a) refl in
        let h : false ≡ true = sym e ∙ m in cc
    ones_first (inl a) (inl b) = rw (a, other_sign y b) refl
