-- ===== src/Oer/Packing.antt =====
-- libs/codec/oer/encoder.hpp: the octets of the preamble of a SEQUENCE.
use asn1pp.Prelude.{length-append, set-append, append_assoc}
use asn1pp.Prelude.{
  ℕ, zero, suc, ◌+◌, ◌-◌, ◌*◌, ◌^◌, ◌≤◌, ◌<◌, ◌≡◌, refl, sym, ap, ap₂, ◌∙◌, Bool, true, false, List,
  [], ◌∷◌, ◌++◌, Option, if◌then◌else◌, ltb, length, drop, bit_or, ltb-true, ltb-false, arith, inl,
  inr, le_or_lt,
}
use asn1pp.Prelude.Bits.{or-fields, two-pow-pos}
use native.Mathlib.Nat.{pow-suc}
use asn1pp.Result.{ok, returns}
use asn1pp.Buffer.{view, poke-at}
use asn1pp.Oer.Meta.{OerMeta}
use asn1pp.Oer.Sequence.{preamble_bit, preamble_bits, preamble_octet, put_preamble}

-- The number that eight bits make, the first the highest; the bits from `n` on do not count.
unfoldable pub packed_octet : (ℕ → Bool) → ℕ → ℕ → ℕ → ℕ
packed_octet bit n i zero = 0
packed_octet bit n i (suc b) =
    packed_octet bit n i b * 2
    + (if ltb (i * 8 + b) n then (if bit (i * 8 + b) then 1 else 0) else 0)

abbrev pub packed_octets : (ℕ → Bool) → ℕ → ℕ → ℕ → List ℕ
packed_octets bit n zero i = []
packed_octets bit n (suc left) i = packed_octet bit n i 8 ∷ packed_octets bit n left (i + 1)

shifted : (p d t : ℕ) → (p * 2 + d) * t ≡ p * (t * 2) + d * t
shifted p d t = grind arith

-- Bits behind the last one.
padded :
    (bit : ℕ → Bool) (n i left b : ℕ)
    → left + b ≡ 8
    → n ≤ i * 8 + b
    → packed_octet bit n i 8 ≡ packed_octet bit n i b * 2 ^ left
unfolding packed_octet
padded bit n i zero b e h =
    let f : 8 ≡ b = omega arith in ap (λ (k : ℕ). packed_octet bit n i k) f ∙ omega arith
padded bit n i (suc left) b e h =
    padded bit n i left (suc b) (omega arith) (omega arith)
    ∙ rw (ltb-false (i * 8 + b) n h) (
        shifted (packed_octet bit n i b) 0 (2 ^ left)
        ∙ omega (arith, ap (λ (t : ℕ). packed_octet bit n i b * t) (pow-suc 2 left)))

next_round :
    (p left b : ℕ) (x : Bool)
    → suc left + b ≡ 8
    → (if x then bit_or (p * 2 ^ suc left) (2 ^ (7 - b)) else p * 2 ^ suc left)
      ≡ (p * 2 + (if x then 1 else 0)) * 2 ^ left
next_round p left b true e =
    ap (λ (k : ℕ). bit_or (p * 2 ^ suc left) (2 ^ k)) same
    ∙ or-fields (suc left) p (2 ^ left) (omega (arith, pow-suc 2 left, two-pow-pos left))
    ∙ omega (arith, shifted p 1 (2 ^ left), ap (λ (t : ℕ). p * t) (pow-suc 2 left))
  where
    same : 7 - b ≡ left
    same = omega arith
next_round p left b false e =
    omega (arith, shifted p 0 (2 ^ left), ap (λ (t : ℕ). p * t) (pow-suc 2 left))

counted_bit :
    (bit : ℕ → Bool) (n i b : ℕ)
    → i * 8 + b < n
    → packed_octet bit n i (suc b) ≡ packed_octet bit n i b * 2 + (if bit (i * 8 + b) then 1 else 0)
unfolding packed_octet
counted_bit bit n i b h = rw (ltb-true (i * 8 + b) n h) refl

-- The rounds `b` and later, where `byte_val` holds the bits before.
preamble_octet-packed :
    (m : OerMeta) (present : Option (List Bool)) (i left b : ℕ)
    → left + b ≡ 8
    → preamble_octet left b m present i
        (packed_octet (preamble_bit m present) (preamble_bits m) i b * 2 ^ left)
      ≡ packed_octet (preamble_bit m present) (preamble_bits m) i 8
unfolding preamble_octet
preamble_octet-packed m present i zero b e =
    let f : b ≡ 8 = omega arith in
    ap (λ (k : ℕ). packed_octet (preamble_bit m present) (preamble_bits m) i k * 1) f ∙ omega arith
preamble_octet-packed m present i (suc left) b e = elim (le_or_lt (preamble_bits m) (i * 8 + b)) [
  | inl behind ↦
      rw (ltb-false (i * 8 + b) (preamble_bits m) behind, preamble_octet)
        (sym (padded bit (preamble_bits m) i (suc left) b e behind))
  | inr counts ↦
      rw (ltb-true (i * 8 + b) (preamble_bits m) counts, preamble_octet)
        (ap₂ (λ (k x : ℕ). preamble_octet left k m present i x) one_more
            (next_round (packed_octet bit (preamble_bits m) i b) left b (bit (i * 8 + b)) e
              ∙ ap (λ (p : ℕ). p * 2 ^ left) (sym (counted_bit bit (preamble_bits m) i b counts)))
          ∙ preamble_octet-packed m present i left (suc b) (omega arith))
]
  where
    bit : ℕ → Bool
    bit = preamble_bit m present

    one_more : b + 1 ≡ suc b
    one_more = omega arith

whole_octet :
    (m : OerMeta) (present : Option (List Bool)) (i : ℕ)
    → preamble_octet 8 0 m present i 0 ≡ packed_octet (preamble_bit m present) (preamble_bits m) i 8
unfolding packed_octet
whole_octet m present i = preamble_octet-packed m present i 8 0 refl

pub put_preamble-written :
    (m : OerMeta) (present : Option (List Bool)) (left : ℕ) (b pre c : List ℕ)
    → left ≤ length c
    → put_preamble left (length pre) m present (view b (pre ++ c))
      ≡ returns (ok tt) (
          view b (
            pre
            ++ (packed_octets (preamble_bit m present) (preamble_bits m) left (length pre)
                ++ drop left c)))
unfolding put_preamble
put_preamble-written m present zero b pre c h = refl
put_preamble-written m present (suc left) b pre [] h = absurd (omega arith)
put_preamble-written m present (suc left) b pre (y ∷ c) h =
    rw
      (
        poke-at (length pre) (preamble_octet 8 0 m present (length pre) 0) b (pre ++ y ∷ c)
            (omega (arith, length-append pre (y ∷ c))),
        set-append pre c y (preamble_octet 8 0 m present (length pre) 0),
        whole_octet m present (length pre),
        ← append_assoc pre (packed (length pre) ∷ []) c,
        one_more,
        put_preamble-written m present left b (pre ++ packed (length pre) ∷ []) c (omega arith),
        append_assoc pre (packed (length pre) ∷ [])
            (packed_octets bit n left (length (pre ++ packed (length pre) ∷ [])) ++ drop left c),
        ← one_more,
      )
      refl
  where
    bit : ℕ → Bool
    bit = preamble_bit m present

    n : ℕ
    n = preamble_bits m

    packed : ℕ → ℕ
    packed i = packed_octet bit n i 8

    one_more : length pre + 1 ≡ length (pre ++ packed (length pre) ∷ [])
    one_more = omega (arith, length-append pre (packed (length pre) ∷ []))

pub length-packed_octets :
    (bit : ℕ → Bool) (n left i : ℕ) → length (packed_octets bit n left i) ≡ left
length-packed_octets bit n zero i = refl
length-packed_octets bit n (suc left) i = ap suc (length-packed_octets bit n left (i + 1))

-- Octets that the same bits make.
packed_octet-same :
    (f g : ℕ → Bool) (n i b : ℕ)
    → ((k : ℕ) → k < n → f k ≡ g k)
    → packed_octet f n i b ≡ packed_octet g n i b
unfolding packed_octet
packed_octet-same f g n i zero h = refl
packed_octet-same f g n i (suc b) h = elim (le_or_lt n (i * 8 + b)) [
  | inl behind ↦
      rw (ltb-false (i * 8 + b) n behind)
        (ap (λ (x : ℕ). x * 2 + 0) (packed_octet-same f g n i b h))
  | inr counts ↦
      rw (ltb-true (i * 8 + b) n counts, h (i * 8 + b) counts)
        (ap (λ (x : ℕ). x * 2 + (if g (i * 8 + b) then 1 else 0)) (packed_octet-same f g n i b h))
]

pub packed_octets-same :
    (f g : ℕ → Bool) (n left i : ℕ)
    → ((k : ℕ) → k < n → f k ≡ g k)
    → packed_octets f n left i ≡ packed_octets g n left i
packed_octets-same f g n zero i h = refl
packed_octets-same f g n (suc left) i h =
    ap₂ (λ (x : ℕ) (xs : List ℕ). x ∷ xs) (packed_octet-same f g n i 8 h)
      (packed_octets-same f g n left (i + 1) h)
