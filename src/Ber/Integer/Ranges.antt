-- ===== src/Ber/Integer/Ranges.antt =====
-- The bounds that libs/codec/arch_codec.hpp checks, on the numbers of one to eight bytes.
use asn1pp.Prelude.{
  ℕ, zero, suc, ◌+◌, ◌-◌, ◌*◌, ◌%◌, ◌^◌, ◌≤◌, ◌<◌, ◌≡◌, false, if◌then◌else◌, ltb, ◌==◌, arith,
  bit_and, eqb-true, eqb-false, ltb-false, and-false, le_or_lt, inl, inr,
}
use asn1pp.Prelude.Bits.{and-80}
use asn1pp.ArchCodec.{out_of_octets}

-- The bounds of `n` octets, read as `int64_t`.
in_bounds :
    (n p x raw : ℕ)
    → x < 256
    → (x ≤ 127
        → ((2 ^ 64 - 2 ^ (n * 8 - 1) + 2 ^ 63) % 2 ^ 64
            ≤ ((0 * p + raw) % 2 ^ 64 + 2 ^ 63) % 2 ^ 64)
          × (((0 * p + raw) % 2 ^ 64 + 2 ^ 63) % 2 ^ 64 ≤ (2 ^ (n * 8 - 1) - 1 + 2 ^ 63) % 2 ^ 64))
    → (127 < x
        → ((2 ^ 64 - 2 ^ (n * 8 - 1) + 2 ^ 63) % 2 ^ 64
            ≤ (((2 ^ 64 - 1) * p + raw) % 2 ^ 64 + 2 ^ 63) % 2 ^ 64)
          × ((((2 ^ 64 - 1) * p + raw) % 2 ^ 64 + 2 ^ 63) % 2 ^ 64
              ≤ (2 ^ (n * 8 - 1) - 1 + 2 ^ 63) % 2 ^ 64))
    → out_of_octets (((if bit_and x 0x80 == 0 then 0 else 2 ^ 64 - 1) * p + raw) % 2 ^ 64) n ≡ false
unfolding out_of_octets
in_bounds n p x raw h small large = elim (le_or_lt x 127) [
  | inl s ↦
      rw
        (
          eqb-true (bit_and x 0x80) 0 (omega (arith, and-80 x h)),
          ltb-false _ _ (small s).0,
          ltb-false _ _ (small s).1,
        )
        (and-false (ltb n 8))
  | inr l ↦
      rw
        (
          eqb-false (bit_and x 0x80) 0 (omega (arith, and-80 x h)),
          ltb-false _ _ (large l).0,
          ltb-false _ _ (large l).1,
        )
        (and-false (ltb n 8))
]

pub fold-in_bounds :
    (k x n : ℕ)
    → k ≤ 7
    → x < 256
    → n < 256 ^ k
    → out_of_octets
        (((if bit_and x 0x80 == 0 then 0 else 2 ^ 64 - 1) * 256 ^ suc k + (x * 256 ^ k + n))
          % 2 ^ 64)
        (suc k)
      ≡ false
fold-in_bounds zero x n le h w =
    in_bounds 1 (256 ^ 1) x (x * 256 ^ 0 + n) h (λ s. (omega arith, omega arith))
      (λ l. (omega arith, omega arith))
fold-in_bounds (suc zero) x n le h w =
    in_bounds 2 (256 ^ 2) x (x * 256 ^ 1 + n) h (λ s. (omega arith, omega arith))
      (λ l. (omega arith, omega arith))
fold-in_bounds (suc (suc zero)) x n le h w =
    in_bounds 3 (256 ^ 3) x (x * 256 ^ 2 + n) h (λ s. (omega arith, omega arith))
      (λ l. (omega arith, omega arith))
fold-in_bounds (suc (suc (suc zero))) x n le h w =
    in_bounds 4 (256 ^ 4) x (x * 256 ^ 3 + n) h (λ s. (omega arith, omega arith))
      (λ l. (omega arith, omega arith))
fold-in_bounds (suc (suc (suc (suc zero)))) x n le h w =
    in_bounds 5 (256 ^ 5) x (x * 256 ^ 4 + n) h (λ s. (omega arith, omega arith))
      (λ l. (omega arith, omega arith))
fold-in_bounds (suc (suc (suc (suc (suc zero))))) x n le h w =
    in_bounds 6 (256 ^ 6) x (x * 256 ^ 5 + n) h (λ s. (omega arith, omega arith))
      (λ l. (omega arith, omega arith))
fold-in_bounds (suc (suc (suc (suc (suc (suc zero)))))) x n le h w =
    in_bounds 7 (256 ^ 7) x (x * 256 ^ 6 + n) h (λ s. (omega arith, omega arith))
      (λ l. (omega arith, omega arith))
fold-in_bounds (suc (suc (suc (suc (suc (suc (suc zero))))))) x n le h w =
    in_bounds 8 (256 ^ 8) x (x * 256 ^ 7 + n) h (λ s. (omega arith, omega arith))
      (λ l. (omega arith, omega arith))
fold-in_bounds (suc (suc (suc (suc (suc (suc (suc (suc k)))))))) x n le h w = absurd (omega arith)
