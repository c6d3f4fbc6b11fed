-- ===== src/BitOps/Bounds.antt =====
-- What write_bits of libs/buffer/bit_ops.hpp does behind the end of the buffer.
use asn1pp.Prelude.{
  ℕ, zero, suc, ◌+◌, ◌*◌, ◌/◌, ◌%◌, ◌^◌, ◌≤◌, ◌<◌, ◌≡◌, refl, List, [], ◌∷◌, none, arith, set,
  get_elem?, length, length-set, bit_and, leb-true, le_or_lt, inl, inr,
}
use asn1pp.Result.{fault}
use asn1pp.BitOps.Defs.{stream, merged, write_bit, put_bits, write_bits}
use asn1pp.BitOps.Laws.{get_inside}

get_outside : (cells : List ℕ) (i : ℕ) → length cells ≤ i → get_elem? cells i ≡ none
get_outside [] i h = refl
get_outside (x ∷ cells) zero h = absurd (omega arith)
get_outside (x ∷ cells) (suc i) h = get_outside cells i (omega arith)

put_bits-outside :
    (n v : ℕ) (cells : List ℕ) (k : ℕ)
    → 1 ≤ n
    → length cells * 8 < k + n
    → put_bits n v (stream cells k) ≡ fault
unfolding put_bits write_bit
put_bits-outside zero v cells k l h = absurd (omega arith)
put_bits-outside (suc n) v cells k l h = elim (le_or_lt (length cells) (k / 8)) [
  | inl out ↦ rw (get_outside cells (k / 8) out) refl
  | inr inside ↦
      let (x, e) = get_inside cells (k / 8) inside in
      rw e (
        put_bits-outside n v (set cells (k / 8) (merged x (k % 8) (bit_and (v / 2 ^ n) 1))) (k + 1)
          (omega arith)
          (omega (arith, length-set cells (k / 8) (merged x (k % 8) (bit_and (v / 2 ^ n) 1)))))
]

-- `write_bits` of 1 to 64 bits that do not fit the rest of the buffer accesses a byte outside
-- the buffer.
pub write_bits-outside :
    (n v : ℕ) (cells : List ℕ) (k : ℕ)
    → 1 ≤ n
    → n ≤ 64
    → length cells * 8 < k + n
    → write_bits v n (stream cells k) ≡ fault
unfolding write_bits
write_bits-outside n v cells k l w h = rw (leb-true n 64 w) (put_bits-outside n v cells k l h)
