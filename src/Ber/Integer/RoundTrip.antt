-- ===== src/Ber/Integer/RoundTrip.antt =====
-- The contents octets of an INTEGER carry its value.
use asn1pp.Prelude.{
  ℕ, zero, suc, ◌+◌, ◌-◌, ◌*◌, ◌/◌, ◌%◌, ◌^◌, ◌<◌, ◌≡◌, refl, sym, ap, ◌∙◌, Bool, true, false, not,
  List, [], ◌∷◌, ◌++◌, if◌then◌else◌, ◌==◌, arith, bit_and, bit_or, fold_be, fold_be-append,
  big_endian, append_assoc, append-nil, length, eqb-true, eqb-false, inl, inr, Bool-cases, eq_or_ne,
}
use asn1pp.Prelude.Bits.{and-ff, or-fields}
use asn1pp.Int64.{IsInt64, is_negative}
use asn1pp.Ber.Integer.{
  raw_octets, strip_sign, needs_extra, encode_integer_bytes, decode_integer_value,
}
use native.Mathlib.Nat.{pow-suc}

pub raw_octets-eq : (k n : ℕ) (filled : List ℕ) → raw_octets k n filled ≡ big_endian k n ++ filled
unfolding raw_octets
raw_octets-eq zero n filled = refl
raw_octets-eq (suc k) n filled =
    raw_octets-eq k (n / 256) ((bit_and n 0xff % 256) ∷ filled)
    ∙ ap (λ (d : ℕ). big_endian k (n / 256) ++ d ∷ filled) low
    ∙ sym (append_assoc (big_endian k (n / 256)) (n % 256 ∷ []) filled)
  where
    low : bit_and n 0xff % 256 ≡ n % 256
    low = omega (arith, and-ff n)

-- The octets of the accumulator that leave it do not matter.
shift_any : (acc b : ℕ) → b < 256 → bit_or (acc * 2 ^ 8 % 2 ^ 64) b ≡ (acc * 256 + b) % 2 ^ 64
shift_any acc b h = ap (λ (x : ℕ). bit_or x b) split ∙ or-fields 8 (acc % 2 ^ 56) b h ∙ omega arith
  where
    split : acc * 2 ^ 8 % 2 ^ 64 ≡ acc % 2 ^ 56 * 2 ^ 8
    split = omega arith

pub fold_be-eq :
    (k acc n : ℕ)
    → acc < 2 ^ 64
    → n < 256 ^ k
    → fold_be acc (big_endian k n) ≡ (acc * 256 ^ k + n) % 2 ^ 64
fold_be-eq zero acc n h w = omega arith
fold_be-eq (suc k) acc n h w =
    fold_be-append acc (big_endian k (n / 256)) (n % 256 ∷ [])
    ∙ ap (λ (x : ℕ). bit_or (x * 2 ^ 8 % 2 ^ 64) (n % 256))
        (fold_be-eq k acc (n / 256) h (omega (arith, pow-suc 256 k)))
    ∙ shift_any ((acc * 256 ^ k + n / 256) % 2 ^ 64) (n % 256) (omega arith)
    ∙ omega (arith, ap (λ (x : ℕ). acc * x) (pow-suc 256 k))

-- What the sign fills the accumulator with.
abbrev pub fill : Bool → ℕ
fill negative = if negative then 2 ^ 64 - 1 else 0

abbrev pub sign_octet : Bool → ℕ
sign_octet negative = if negative then 0xff else 0

-- A sign octet in front adds nothing.
fold_be-sign :
    (negative : Bool) (xs : List ℕ)
    → fold_be (fill negative) (sign_octet negative ∷ xs) ≡ fold_be (fill negative) xs
fold_be-sign true xs = refl
fold_be-sign false xs = refl

fold_be-strip :
    (negative : Bool) (left : ℕ) (xs : List ℕ)
    → fold_be (fill negative) (strip_sign left (sign_octet negative) xs)
      ≡ fold_be (fill negative) xs
unfolding strip_sign
fold_be-strip negative zero xs = refl
fold_be-strip negative (suc left) [] = refl
fold_be-strip negative (suc left) (x ∷ xs) = elim (eq_or_ne x (sign_octet negative)) [
  | inl e ↦ rw (eqb-true x (sign_octet negative) e) (
      fold_be-strip negative left xs
      ∙ sym (fold_be-sign negative xs)
      ∙ ap (λ (y : ℕ). fold_be (fill negative) (y ∷ xs)) (sym e))
  | inr ne ↦ rw (eqb-false x (sign_octet negative) ne) refl
]

-- The octets of a value, under its own sign, are the value.
fold_be-raw : (v : ℕ) → IsInt64 v → fold_be (fill (is_negative v)) (raw_octets 8 v []) ≡ v
fold_be-raw v w =
    ap (λ (l : List ℕ). fold_be (fill (is_negative v)) l)
      (raw_octets-eq 8 v [] ∙ append-nil (big_endian 8 v))
    ∙ either (is_negative v)
  where
    either : (f : Bool) → fold_be (fill f) (big_endian 8 v) ≡ v
    either true = fold_be-eq 8 (2 ^ 64 - 1) v (omega arith) w ∙ omega arith
    either false = fold_be-eq 8 0 v (omega arith) w ∙ omega arith

decode-fill :
    (f : Bool) (x : ℕ) (xs : List ℕ)
    → (bit_and x 0x80 == 0) ≡ not f
    → decode_integer_value (x ∷ xs) ≡ fold_be (fill f) (x ∷ xs)
unfolding decode_integer_value
decode-fill true x xs e = rw e refl
decode-fill false x xs e = rw e refl

-- With the sign octet in front where it is needed, the first bit is the sign.
decode-finished :
    (f : Bool) (x : ℕ) (xs : List ℕ)
    → decode_integer_value (if needs_extra f (x ∷ xs) then sign_octet f ∷ x ∷ xs else x ∷ xs)
      ≡ fold_be (fill f) (x ∷ xs)
unfolding needs_extra
decode-finished true x xs = elim (Bool-cases (bit_and x 0x80 == 0)) [
  | inl e ↦ rw e (decode-fill true 0xff (x ∷ xs) refl)
  | inr e ↦ rw e (decode-fill true x xs e)
]
decode-finished false x xs = elim (Bool-cases (bit_and x 0x80 == 0)) [
  | inl e ↦ rw e (decode-fill false x xs e)
  | inr e ↦ rw e (decode-fill false 0 (x ∷ xs) refl)
]

pub strip_sign-cons :
    (left sign : ℕ) (xs : List ℕ)
    → left < length xs
    → (y : ℕ) × (ys : List ℕ) × (strip_sign left sign xs ≡ y ∷ ys)
unfolding strip_sign
strip_sign-cons left sign [] h = absurd (omega arith)
strip_sign-cons zero sign (x ∷ xs) h = (x, xs, refl)
strip_sign-cons (suc left) sign (x ∷ xs) h = elim (Bool-cases (x == sign)) [
  | inl e ↦ rw e (strip_sign-cons left sign xs (omega arith))
  | inr e ↦ rw e (x, xs, refl)
]

pub length-raw_octets : (v : ℕ) → length (raw_octets 8 v []) ≡ 8
unfolding raw_octets
length-raw_octets v = refl

-- A value that is not 0, as its octets without the needless ones.
meaningful-value :
    (f : Bool) (v : ℕ)
    → is_negative v ≡ f
    → IsInt64 v
    → decode_integer_value (
        if needs_extra f (strip_sign 7 (sign_octet f) (raw_octets 8 v []))
        then sign_octet f ∷ strip_sign 7 (sign_octet f) (raw_octets 8 v [])
        else strip_sign 7 (sign_octet f) (raw_octets 8 v []))
      ≡ v
meaningful-value f v s w =
    let (y, ys, e) =
      strip_sign-cons 7 (sign_octet f) (raw_octets 8 v []) (omega (arith, length-raw_octets v)) in
    rw e (
      decode-finished f y ys
      ∙ ap (λ (l : List ℕ). fold_be (fill f) l) (sym e)
      ∙ fold_be-strip f 7 (raw_octets 8 v [])
      ∙ ap (λ (g : Bool). fold_be (fill g) (raw_octets 8 v [])) (sym s)
      ∙ fold_be-raw v w)

-- Decoding the contents octets of an `int64_t` gives it back.
pub decode-encode_integer_bytes :
    (v : ℕ) → IsInt64 v → decode_integer_value (encode_integer_bytes v) ≡ v
unfolding encode_integer_bytes
decode-encode_integer_bytes v w = elim (eq_or_ne v 0) [
  | inl z ↦ rw z (unfold decode_integer_value in refl)
  | inr p ↦ rw (eqb-false v 0 p) (meaningful-value (is_negative v) v refl w)
]
