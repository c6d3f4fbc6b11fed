-- ===== src/Per/Reading.antt =====
-- Operations of libs/codec/per/uper_decoder.hpp that read no bit behind the end, whatever the bytes.
use asn1pp.Prelude.{
  ℕ, zero, suc, ◌+◌, ◌-◌, ◌*◌, ◌/◌, ◌%◌, ◌^◌, ◌≤◌, ◌<◌, ◌≡◌, refl, ap, ◌∙◌, Bool, true, false, List,
  [], ◌∷◌, if◌then◌else◌, arith, length, bit_and, bit_or, le_or_lt, leb-true, ltb-true, ltb-false,
  inl, inr,
}
use asn1pp.Prelude.Bits.{and-1, or-fields}
use native.Mathlib.Nat.{pow-suc, mul-le-mul_right, mul_assoc, mul_comm}
use asn1pp.ErrorCode.{ErrorCode}
use asn1pp.Result.{
  Result, continue, ok, err, Outcome, returns, Op, pure, raise, ensure, ◌>>=◌, ◌>>◌,
}
use asn1pp.BitOps.Defs.{BitStream, stream, read_bit, get_bits, read_bits}
use asn1pp.BitOps.Laws.{get_inside}
use asn1pp.Per.Decoder.{need, read_octets_unaligned, take_value, read_checked}

-- An outcome that is no fault, with the same bytes, and from the bit `k` on not behind the last bit.
abbrev pub BitMoved {ℓ} : {A : Type ℓ} → List ℕ → ℕ → Outcome BitStream A → Type ℓ
BitMoved {A = A} cells k o =
    (r : Result A) × (j : ℕ) × (o ≡ returns r (stream cells j)) × (k ≤ j) × (j ≤ length cells * 8)

abbrev pub BitReads {ℓ} : {A : Type ℓ} → Op BitStream A → Type ℓ
BitReads m = (cells : List ℕ) (k : ℕ) → k ≤ length cells * 8 → BitMoved cells k (m (stream cells k))

pub pure-BitReads {ℓ} : {A : Type ℓ} (a : A) → BitReads (pure a)
pure-BitReads a cells k h = (ok a, k, refl, omega arith, h)

pub raise-BitReads {ℓ} : {A : Type ℓ} (e : ErrorCode) → BitReads (raise {A = A} e)
raise-BitReads e cells k h = (err e, k, refl, omega arith, h)

pub bind-BitReads {ℓ κ} :
    {A : Type ℓ} {B : Type κ} (m : Op BitStream A) (f : A → Op BitStream B)
    → BitReads m
    → ((a : A) → BitReads (f a))
    → BitReads (m >>= f)
bind-BitReads {A = A} m f p q cells k h = let (r, j, e, l, b) = p cells k h in go r j e l b
  where
    go :
        (r : Result A) (j : ℕ)
        → m (stream cells k) ≡ returns r (stream cells j)
        → k ≤ j
        → j ≤ length cells * 8
        → BitMoved cells k ((m >>= f) (stream cells k))
    go (ok a) j e l b =
        let (r, i, d, g, c) = q a cells j b in (r, i, ap (λ o. continue o f) e ∙ d, omega arith, c)
    go (err x) j e l b = (err x, j, ap (λ o. continue o f) e, l, b)

pub ensure-BitReads {ℓ} :
    {A : Type ℓ} (b : Bool) (e : ErrorCode) (m : Op BitStream A)
    → BitReads m
    → BitReads (ensure b e >> m)
ensure-BitReads true e m p cells k h = p cells k h
ensure-BitReads false e m p cells k h = (err e, k, refl, omega arith, h)

pub if-BitReads {ℓ} :
    {A : Type ℓ} (b : Bool) (m n : Op BitStream A)
    → BitReads m
    → BitReads n
    → BitReads (if b then m else n)
if-BitReads true m n p q = p
if-BitReads false m n p q = q

-- Behind the test that `n` bits are left.
pub need-BitReads {ℓ} :
    {A : Type ℓ} (n : ℕ) (m : Op BitStream A)
    → ((cells : List ℕ) (k : ℕ) → k + n ≤ length cells * 8 → BitMoved cells k (m (stream cells k)))
    → BitReads (need n >> m)
need-BitReads n m p cells k h = elim (le_or_lt (k + n) (length cells * 8)) [
  | inl room ↦ rw (ltb-false (length cells * 8) (k + n) room) (p cells k room)
  | inr short ↦
      rw (ltb-true (length cells * 8) (k + n) short)
        (err ErrorCode.buffer_underflow, k, refl, omega arith, h)
]

-- A bit behind a number that is shifted, in 64 bits.
next_bit : (result bit : ℕ) → bit < 2 → bit_or (result * 2 % 2 ^ 64) bit ≤ result * 2 + 1
next_bit result bit h =
    let even : result * 2 % 2 ^ 64 ≡ result % 2 ^ 63 * 2 ^ 1 = omega arith in
    omega
      (arith, ap (λ (x : ℕ). bit_or x bit) even, or-fields 1 (result % 2 ^ 63) bit (omega arith))

-- Bits that are there, and the number that they make behind those of `result`.
got_bits :
    (n result : ℕ) (cells : List ℕ) (k : ℕ)
    → k + n ≤ length cells * 8
    → (x : ℕ) × (get_bits n result (stream cells k) ≡ returns (ok x) (stream cells (k + n)))
      × (x < (result + 1) * 2 ^ n)
unfolding get_bits read_bit
got_bits zero result cells k h =
    let same : k ≡ k + 0 = omega arith in
    (result, ap (λ (j : ℕ). returns (ok result) (stream cells j)) same, omega arith)
got_bits (suc n) result cells k h =
    let (x, e) = get_inside cells (k / 8) (omega arith) in
    let bit : ℕ = bit_and (x / 2 ^ (7 - k % 8)) 1 in
    let (y, d, b) = got_bits n (bit_or (result * 2 % 2 ^ 64) bit) cells (k + 1) (omega arith) in
    let same : k + 1 + n ≡ k + suc n = omega arith in
    let step : bit_or (result * 2 % 2 ^ 64) bit + 1 ≤ (result + 1) * 2 =
      omega (arith, next_bit result bit (omega (arith, and-1 (x / 2 ^ (7 - k % 8))))) in
    (
      y,
      rw e (d ∙ ap (λ (j : ℕ). returns (ok y) (stream cells j)) same),
      omega (
        arith,
        b,
        mul-le-mul_right (2 ^ n) step,
        mul_assoc (result + 1) 2 (2 ^ n),
        ap (λ (t : ℕ). (result + 1) * t) (pow-suc 2 n),
        ap (λ (t : ℕ). (result + 1) * t) (mul_comm 2 (2 ^ n)),
      ),
    )

pub got_below :
    (n : ℕ) (cells : List ℕ) (k : ℕ)
    → n ≤ 64
    → k + n ≤ length cells * 8
    → (x : ℕ) × (read_bits n (stream cells k) ≡ returns (ok x) (stream cells (k + n))) × (x < 2 ^ n)
unfolding read_bits
got_below n cells k w h =
    let (x, e, b) = got_bits n 0 cells k h in rw (leb-true n 64 w) (x, e, omega (arith, b))

pub got :
    (n : ℕ) (cells : List ℕ) (k : ℕ)
    → n ≤ 64
    → k + n ≤ length cells * 8
    → (x : ℕ) × (read_bits n (stream cells k) ≡ returns (ok x) (stream cells (k + n)))
got n cells k w h = let (x, e, b) = got_below n cells k w h in (x, e)

pub got_octets :
    (count : ℕ) (cells : List ℕ) (k : ℕ)
    → k + count * 8 ≤ length cells * 8
    → (xs : List ℕ) × (read_octets_unaligned count (stream cells k)
        ≡ returns (ok xs) (stream cells (k + count * 8)))
unfolding read_octets_unaligned
got_octets zero cells k h =
    let same : k ≡ k + 0 = omega arith in
    ([], ap (λ (j : ℕ). returns (ok []) (stream cells j)) same)
got_octets (suc count) cells k h =
    let (x, e) = got 8 cells k (omega arith) (omega arith) in
    let (xs, d) = got_octets count cells (k + 8) (omega arith) in
    let same : k + 8 + count * 8 ≡ k + suc count * 8 = omega arith in
    (x ∷ xs, rw (e, d) (ap (λ (j : ℕ). returns (ok (x ∷ xs)) (stream cells j)) same))

pub read_checked-BitReads : (n : ℕ) → n ≤ 64 → BitReads (read_checked n)
read_checked-BitReads n w =
    need-BitReads n (read_bits n)
      λ cells k room. let (x, e) = got n cells k w room in (ok x, k + n, e, omega arith, room)

pub take_value-BitReads : (count : ℕ) → BitReads (take_value count)
take_value-BitReads count = need-BitReads (count * 8) (read_octets_unaligned count) λ cells k room.
    let (xs, e) = got_octets count cells k room in (ok xs, k + count * 8, e, omega arith, room)
