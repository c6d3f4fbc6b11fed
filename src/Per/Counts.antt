-- ===== src/Per/Counts.antt =====
-- The counts of bits and octets of libs/codec/per.
use asn1pp.Prelude.{
  ℕ, zero, suc, ◌+◌, ◌*◌, ◌/◌, ◌^◌, ◌≤◌, ◌<◌, ◌≡◌, ◌≢◌, refl, ap, subst, arith, eqb-true, eqb-false,
  eq_or_ne, inl, inr,
}
use native.Mathlib.Nat.{pow-suc}
use asn1pp.Per.Meta.{count_bits, bits_needed_unsigned, count_bytes}

-- `k` is the number of binary digits of `n`.
pub record BitLength (n k : ℕ) : Type 0 where
  pub above : n < 2 ^ k
  pub below : 0 < n → 2 ^ k ≤ 2 * n
  pub none_of_zero : n ≡ 0 → k ≡ 0

count_bits-BitLength :
    (left range bits : ℕ)
    → range < 2 ^ left
    → (k : ℕ) × BitLength range k × (count_bits left range bits ≡ bits + k) × (k ≤ left)
unfolding count_bits
count_bits-BitLength zero range bits h = (
  0,
  record { above = omega arith; below = λ p. absurd (omega arith); none_of_zero = λ z. refl },
  omega arith,
  omega arith,
)
count_bits-BitLength (suc left) range bits h = elim (eq_or_ne range 0) [
  | inl z ↦ (
    0,
    record { above = omega arith; below = λ p. absurd (omega arith); none_of_zero = λ w. refl },
    rw (eqb-true range 0 z) (omega arith),
    omega arith,
  )
  | inr ne ↦
      let (k, b, e, l) =
        count_bits-BitLength left (range / 2) (bits + 1) (omega (arith, pow-suc 2 left)) in
      (
        suc k,
        record {
          above = omega (arith, b.above, pow-suc 2 k);
          below = λ p. doubled k b ne;
          none_of_zero = λ z. absurd (omega arith);
        },
        rw (eqb-false range 0 ne) (omega (arith, e)),
        omega (arith, l),
      )
]
  where
    doubled : (k : ℕ) → BitLength (range / 2) k → range ≢ 0 → 2 ^ suc k ≤ 2 * range
    doubled k b ne = elim (eq_or_ne (range / 2) 0) [
      | inl z ↦ omega (arith, pow-suc 2 k, ap (λ (j : ℕ). 2 ^ j) (b.none_of_zero z))
      | inr more ↦ omega (arith, pow-suc 2 k, b.below (omega arith))
    ]

-- The loop of `bits_needed_unsigned` for a number below 2 ^ 64 ends within 64 rounds, and its
-- count is the number of binary digits, 0 for 0.
pub bits_needed_unsigned-BitLength :
    (n : ℕ) → n < 2 ^ 64 → BitLength n (bits_needed_unsigned n) × (bits_needed_unsigned n ≤ 64)
unfolding bits_needed_unsigned
bits_needed_unsigned-BitLength n h = elim (eq_or_ne n 0) [
  | inl z ↦ rw (eqb-true n 0 z) (
    record { above = omega arith; below = λ p. absurd (omega arith); none_of_zero = λ w. refl },
    omega arith,
  )
  | inr ne ↦
      let (k, b, e, l) = count_bits-BitLength 64 n 0 h in
      let same : k ≡ count_bits 64 n 0 = omega (arith, e) in
      rw (eqb-false n 0 ne) (subst (λ (j : ℕ). BitLength n j × (j ≤ 64)) same (b, l))
]

count_bytes-fits :
    (left n bytes : ℕ)
    → n < 256 ^ suc left
    → (k : ℕ) × (count_bytes (suc left) n bytes ≡ bytes + k)
      × (n < 256 ^ k)
      × (1 ≤ k)
      × (k ≤ suc left)
unfolding count_bytes
count_bytes-fits zero n bytes h =
    let e : n / 2 ^ 8 ≡ 0 = omega arith in
    (1, rw (eqb-true (n / 2 ^ 8) 0 e) refl, omega arith, omega arith, omega arith)
count_bytes-fits (suc left) n bytes h = elim (eq_or_ne (n / 2 ^ 8) 0) [
  | inl z ↦ (1, rw (eqb-true (n / 2 ^ 8) 0 z) refl, omega arith, omega arith, omega arith)
  | inr ne ↦
      let (k, e, f, lo, hi) =
        count_bytes-fits left (n / 2 ^ 8) (bytes + 1) (omega (arith, pow-suc 256 (suc left))) in
      (
        suc k,
        rw (eqb-false (n / 2 ^ 8) 0 ne) (omega (arith, e)),
        omega (arith, f, pow-suc 256 k),
        omega arith,
        omega (arith, hi),
      )
]

-- The octets of a 64-bit number: one to eight, and enough.
pub count_bytes-octets :
    (n : ℕ)
    → n < 2 ^ 64
    → (n < 256 ^ count_bytes 8 n 0) × (1 ≤ count_bytes 8 n 0) × (count_bytes 8 n 0 ≤ 8)
count_bytes-octets n h =
    let (k, e, f, lo, hi) = count_bytes-fits 7 n 0 (omega arith) in
    let same : k ≡ count_bytes 8 n 0 = omega (arith, e) in
    subst (λ (j : ℕ). (n < 256 ^ j) × (1 ≤ j) × (j ≤ 8)) same (f, lo, hi)
