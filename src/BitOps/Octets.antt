-- ===== src/BitOps/Octets.antt =====
-- An octet as eight bits, and what bit_ops.hpp does with one of them.
use asn1pp.Prelude.{
  ℕ, zero, suc, ◌-◌, ◌/◌, ◌%◌, ◌^◌, ◌<◌, ◌≡◌, refl, ap, Bool, true, false, List, [], ◌∷◌,
  if◌then◌else◌, ◌==◌, arith, set, get_elem?, some, bit_and,
}
use asn1pp.Prelude.Bits.{and-1}
use asn1pp.BitOps.Defs.{merged}

-- The highest bit first.
abbrev pub octet_bits : ℕ → List ℕ
octet_bits x =
    x / 128 % 2
    ∷ x / 64 % 2
    ∷ x / 32 % 2
    ∷ x / 16 % 2
    ∷ x / 8 % 2
    ∷ x / 4 % 2
    ∷ x / 2 % 2
    ∷ x % 2
    ∷ []

same_list : List ℕ → List ℕ → Bool
same_list [] [] = true
same_list [] (y ∷ ys) = false
same_list (x ∷ xs) [] = false
same_list (x ∷ xs) (y ∷ ys) = if x == y then same_list xs ys else false

same_list_sound : (xs ys : List ℕ) → same_list xs ys ≡ true → xs ≡ ys
unfolding same_list
same_list_sound [] [] e = refl
same_list_sound [] (y ∷ ys) e = absurd (cc)
same_list_sound (x ∷ xs) [] e = absurd (cc)
same_list_sound (x ∷ xs) (y ∷ ys) e = ground (arith, same_list_sound xs ys)

all_below : ℕ → (ℕ → Bool) → Bool
all_below zero p = true
all_below (suc n) p = if p n then all_below n p else false

all_below_sound : (n : ℕ) (p : ℕ → Bool) (x : ℕ) → all_below n p ≡ true → x < n → p x ≡ true
unfolding all_below
all_below_sound zero p x t h = absurd (omega arith)
all_below_sound (suc n) p x t h = ground (arith, all_below_sound n p x)

-- A table of all octets for one position and one bit.
merged_table : ℕ → ℕ → Bool
merged_table pos bit =
    all_below 256 (λ x. same_list (octet_bits (merged x pos bit)) (set (octet_bits x) pos bit))

merged_row :
    (pos bit x : ℕ)
    → merged_table pos bit ≡ true
    → x < 256
    → octet_bits (merged x pos bit) ≡ set (octet_bits x) pos bit
unfolding merged_table
merged_row pos bit x t h =
    same_list_sound (octet_bits (merged x pos bit)) (set (octet_bits x) pos bit) (
      all_below_sound 256
        (λ y. same_list (octet_bits (merged y pos bit)) (set (octet_bits y) pos bit)) x t h)

-- The octet with one bit replaced.
pub octet_bits-merged :
    (pos bit x : ℕ)
    → pos < 8
    → bit < 2
    → x < 256
    → octet_bits (merged x pos bit) ≡ set (octet_bits x) pos bit
unfolding merged_table merged all_below same_list
octet_bits-merged zero zero x h w k = merged_row 0 0 x refl k
octet_bits-merged zero (suc zero) x h w k = merged_row 0 1 x refl k
octet_bits-merged zero (suc (suc bit)) x h w k = absurd (omega arith)
octet_bits-merged (suc zero) zero x h w k = merged_row 1 0 x refl k
octet_bits-merged (suc zero) (suc zero) x h w k = merged_row 1 1 x refl k
octet_bits-merged (suc zero) (suc (suc bit)) x h w k = absurd (omega arith)
octet_bits-merged (suc (suc zero)) zero x h w k = merged_row 2 0 x refl k
octet_bits-merged (suc (suc zero)) (suc zero) x h w k = merged_row 2 1 x refl k
octet_bits-merged (suc (suc zero)) (suc (suc bit)) x h w k = absurd (omega arith)
octet_bits-merged (suc (suc (suc zero))) zero x h w k = merged_row 3 0 x refl k
octet_bits-merged (suc (suc (suc zero))) (suc zero) x h w k = merged_row 3 1 x refl k
octet_bits-merged (suc (suc (suc zero))) (suc (suc bit)) x h w k = absurd (omega arith)
octet_bits-merged (suc (suc (suc (suc zero)))) zero x h w k = merged_row 4 0 x refl k
octet_bits-merged (suc (suc (suc (suc zero)))) (suc zero) x h w k = merged_row 4 1 x refl k
octet_bits-merged (suc (suc (suc (suc zero)))) (suc (suc bit)) x h w k = absurd (omega arith)
octet_bits-merged (suc (suc (suc (suc (suc zero))))) zero x h w k = merged_row 5 0 x refl k
octet_bits-merged (suc (suc (suc (suc (suc zero))))) (suc zero) x h w k = merged_row 5 1 x refl k
octet_bits-merged (suc (suc (suc (suc (suc zero))))) (suc (suc bit)) x h w k = absurd (omega arith)
octet_bits-merged (suc (suc (suc (suc (suc (suc zero)))))) zero x h w k = merged_row 6 0 x refl k
octet_bits-merged (suc (suc (suc (suc (suc (suc zero)))))) (suc zero) x h w k =
    merged_row 6 1 x refl k
octet_bits-merged (suc (suc (suc (suc (suc (suc zero)))))) (suc (suc bit)) x h w k =
    absurd (omega arith)
octet_bits-merged (suc (suc (suc (suc (suc (suc (suc zero))))))) zero x h w k =
    merged_row 7 0 x refl k
octet_bits-merged (suc (suc (suc (suc (suc (suc (suc zero))))))) (suc zero) x h w k =
    merged_row 7 1 x refl k
octet_bits-merged (suc (suc (suc (suc (suc (suc (suc zero))))))) (suc (suc bit)) x h w k =
    absurd (omega arith)
octet_bits-merged (suc (suc (suc (suc (suc (suc (suc (suc pos)))))))) bit x h w k =
    absurd (omega arith)

pub merged-IsByte : (pos bit x : ℕ) → merged x pos bit < 256
unfolding merged
merged-IsByte pos bit x = omega arith

-- The bit that `read_bits` takes from an octet.
pub octet_bit :
    (pos x : ℕ) → pos < 8 → get_elem? (octet_bits x) pos ≡ some (bit_and (x / 2 ^ (7 - pos)) 1)
octet_bit zero x h = ap some (omega (arith, and-1 (x / 2 ^ (7 - 0))))
octet_bit (suc zero) x h = ap some (omega (arith, and-1 (x / 2 ^ (7 - 1))))
octet_bit (suc (suc zero)) x h = ap some (omega (arith, and-1 (x / 2 ^ (7 - 2))))
octet_bit (suc (suc (suc zero))) x h = ap some (omega (arith, and-1 (x / 2 ^ (7 - 3))))
octet_bit (suc (suc (suc (suc zero)))) x h = ap some (omega (arith, and-1 (x / 2 ^ (7 - 4))))
octet_bit (suc (suc (suc (suc (suc zero))))) x h = ap some (omega (arith, and-1 (x / 2 ^ (7 - 5))))
octet_bit (suc (suc (suc (suc (suc (suc zero)))))) x h =
    ap some (omega (arith, and-1 (x / 2 ^ (7 - 6))))
octet_bit (suc (suc (suc (suc (suc (suc (suc zero))))))) x h =
    ap some (omega (arith, and-1 (x / 2 ^ (7 - 7))))
octet_bit (suc (suc (suc (suc (suc (suc (suc (suc pos)))))))) x h = absurd (omega arith)
