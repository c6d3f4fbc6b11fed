-- ===== src/Ber/Integer/Slots.antt =====
-- libs/codec/arch_codec.hpp against ber_encoder.cpp and ber_decoder.cpp: the batch operations on
-- the slots of INTEGERs do what the stateless functions do.
use asn1pp.Prelude.{
  ℕ, zero, suc, ◌+◌, ◌-◌, ◌*◌, ◌/◌, ◌%◌, ◌^◌, ◌≤◌, ◌<◌, ◌≡◌, refl, sym, ap, ◌∙◌, Bool, true, false,
  not, ◌&&◌, List, [], ◌∷◌, if◌then◌else◌, ltb, ◌==◌, arith, bit_and, bit_or, fold_be, big_endian,
  bytes-big_endian, big_endian-cons, IsByte, All, length, overwrite, replicate, take-overwrite,
  eqb-true, eqb-false, ltb-true, ltb-false, le_or_lt, inl, inr, Bool-cases, ◌⊎◌,
}
use asn1pp.Prelude.Bits.{and-1, and-80, or-fields, or_comm}
use native.Mathlib.Nat.{pow-suc, mul-le-mul_right, pow-le-pow_right}
use asn1pp.ErrorCode.{ErrorCode}
use asn1pp.ArchCodec.{load_u64_be, decode_slot}
use asn1pp.Ber.Integer.{decode_integer_value}
use asn1pp.Ber.Integer.RoundTrip.{fold_be-eq}

-- The number of `w` bits with the sign filled in above them.
abbrev extended : ℕ → ℕ → ℕ
extended w raw =
    if not (bit_and (raw / 2 ^ (w - 1)) 1 == 0) && ltb w 64
    then bit_or raw ((2 ^ 64 - 1) * 2 ^ w % 2 ^ 64)
    else raw

-- The upper bits, where the lower ones are known.
filled_above :
    (w raw : ℕ)
    → raw < 2 ^ w
    → (2 ^ 64 - 1) * 2 ^ w % 2 ^ 64 ≡ (2 ^ (64 - w) - 1) * 2 ^ w
    → bit_or raw ((2 ^ 64 - 1) * 2 ^ w % 2 ^ 64) ≡ (2 ^ 64 - 1) * 2 ^ w % 2 ^ 64 + raw
filled_above w raw h e =
    rw e (or_comm raw ((2 ^ (64 - w) - 1) * 2 ^ w) ∙ or-fields w (2 ^ (64 - w) - 1) raw h)

-- For one size of `w` bits: the sign is that of the first octet `x`.
extended-eq :
    (w x raw : ℕ)
    → x < 256
    → raw / 2 ^ (w - 1) % 2 ≡ x / 128
    → raw < 2 ^ w
    → (2 ^ 64 - 1) * 2 ^ w % 2 ^ 64 ≡ (2 ^ (64 - w) - 1) * 2 ^ w
    → w ≤ 64
    → (w < 64) ⊎ ((w ≡ 64) × ((2 ^ 64 - 1) * 2 ^ w % 2 ^ 64 ≡ 0))
    → extended w raw ≡ (if bit_and x 0x80 == 0 then 0 else (2 ^ 64 - 1) * 2 ^ w % 2 ^ 64) + raw
extended-eq w x raw h top low e le full = elim (le_or_lt x 127) [
  | inl small ↦
      rw
        (
          eqb-true (bit_and (raw / 2 ^ (w - 1)) 1) 0 (omega (arith, and-1 (raw / 2 ^ (w - 1)))),
          eqb-true (bit_and x 0x80) 0 (omega (arith, and-80 x h)),
        )
        (omega arith)
  | inr large ↦
      rw
        (
          eqb-false (bit_and (raw / 2 ^ (w - 1)) 1) 0 (omega (arith, and-1 (raw / 2 ^ (w - 1)))),
          eqb-false (bit_and x 0x80) 0 (omega (arith, and-80 x h)),
        )
        (elim full [
          | inl t ↦ rw (ltb-true w 64 t) (filled_above w raw low e)
          | inr (t, z) ↦ rw (ltb-false w 64 (omega arith)) (omega arith)
        ])
]

-- The same, as the fold of `decode_integer_value` gives it.
folded :
    (w p x raw : ℕ)
    → x < 256
    → raw / 2 ^ (w - 1) % 2 ≡ x / 128
    → raw < 2 ^ w
    → (2 ^ 64 - 1) * 2 ^ w % 2 ^ 64 ≡ (2 ^ (64 - w) - 1) * 2 ^ w
    → w ≤ 64
    → (w < 64) ⊎ ((w ≡ 64) × ((2 ^ 64 - 1) * 2 ^ w % 2 ^ 64 ≡ 0))
    → raw < 2 ^ 64
    → ((2 ^ 64 - 1) * p + raw) % 2 ^ 64 ≡ (2 ^ 64 - 1) * 2 ^ w % 2 ^ 64 + raw
    → extended w raw ≡ ((if bit_and x 0x80 == 0 then 0 else 2 ^ 64 - 1) * p + raw) % 2 ^ 64
folded w p x raw h top low e le full fits sum =
    extended-eq w x raw h top low e le full ∙ elim (Bool-cases (bit_and x 0x80 == 0)) [
      | inl t ↦ rw t (omega arith)
      | inr t ↦ rw t (sym sum)
    ]

-- All eight sizes.
extended-fold :
    (k x n : ℕ)
    → k ≤ 7
    → x < 256
    → n < 256 ^ k
    → extended (suc k * 8) (x * 256 ^ k + n)
      ≡ ((if bit_and x 0x80 == 0 then 0 else 2 ^ 64 - 1) * 256 ^ suc k + (x * 256 ^ k + n)) % 2 ^ 64
extended-fold zero x n le h w =
    folded 8 (256 ^ 1) x (x * 256 ^ 0 + n) h (omega arith) (omega arith) refl (omega arith)
      (inl (omega arith)) (omega arith) (omega arith)
extended-fold (suc zero) x n le h w =
    folded 16 (256 ^ 2) x (x * 256 ^ 1 + n) h (omega arith) (omega arith) refl (omega arith)
      (inl (omega arith)) (omega arith) (omega arith)
extended-fold (suc (suc zero)) x n le h w =
    folded 24 (256 ^ 3) x (x * 256 ^ 2 + n) h (omega arith) (omega arith) refl (omega arith)
      (inl (omega arith)) (omega arith) (omega arith)
extended-fold (suc (suc (suc zero))) x n le h w =
    folded 32 (256 ^ 4) x (x * 256 ^ 3 + n) h (omega arith) (omega arith) refl (omega arith)
      (inl (omega arith)) (omega arith) (omega arith)
extended-fold (suc (suc (suc (suc zero)))) x n le h w =
    folded 40 (256 ^ 5) x (x * 256 ^ 4 + n) h (omega arith) (omega arith) refl (omega arith)
      (inl (omega arith)) (omega arith) (omega arith)
extended-fold (suc (suc (suc (suc (suc zero))))) x n le h w =
    folded 48 (256 ^ 6) x (x * 256 ^ 5 + n) h (omega arith) (omega arith) refl (omega arith)
      (inl (omega arith)) (omega arith) (omega arith)
extended-fold (suc (suc (suc (suc (suc (suc zero)))))) x n le h w =
    folded 56 (256 ^ 7) x (x * 256 ^ 6 + n) h (omega arith) (omega arith) refl (omega arith)
      (inl (omega arith)) (omega arith) (omega arith)
extended-fold (suc (suc (suc (suc (suc (suc (suc zero))))))) x n le h w =
    folded 64 (256 ^ 8) x (x * 256 ^ 7 + n) h (omega arith) (omega arith) refl (omega arith)
      (inr (refl, refl)) (omega arith) (omega arith)
extended-fold (suc (suc (suc (suc (suc (suc (suc (suc k)))))))) x n le h w = absurd (omega arith)

pub fold_be-cons :
    (acc k x n : ℕ) (xs : List ℕ)
    → acc < 2 ^ 64
    → x < 256
    → n < 256 ^ k
    → xs ≡ big_endian k n
    → fold_be acc (x ∷ xs) ≡ (acc * 256 ^ suc k + (x * 256 ^ k + n)) % 2 ^ 64
fold_be-cons acc k x n xs a h w e =
    ap (λ (l : List ℕ). fold_be acc (x ∷ l)) e
    ∙ ap (fold_be acc) (sym (big_endian-cons k x n h w))
    ∙ fold_be-eq (suc k) acc (x * 256 ^ k + n) a (omega (arith, top, pow-suc 256 k))
  where
    top : x * 256 ^ k ≤ 255 * 256 ^ k
    top = mul-le-mul_right (256 ^ k) (omega arith)

-- What `batch_decode_integers` answers for the number of the bytes `raw`.
answered :
    (k raw : ℕ)
    → k ≤ 7
    → (p : List ℕ) → load_u64_be p (suc k) ≡ raw
    → decode_slot p (suc k) ≡ (ErrorCode.ok, extended (suc k * 8) raw)
unfolding decode_slot
answered k raw h p e =
    rw (eqb-false (suc k) 0 (omega arith), ltb-false 8 (suc k) (omega arith), e, same_test) refl
  where
    same_test : ltb (suc k) 8 ≡ ltb (suc k * 8) 64
    same_test = elim (le_or_lt 8 (suc k)) [
      | inl f ↦ ltb-false (suc k) 8 f ∙ sym (ltb-false (suc k * 8) 64 (omega arith))
      | inr l ↦ ltb-true (suc k) 8 l ∙ sym (ltb-true (suc k * 8) 64 (omega arith))
    ]

-- One to eight bytes in a zeroed slot: a round of `batch_decode_integers` gives no error, and
-- the number that `decode_integer_value` computes from the bytes.
pub decode_slot-eq :
    (bytes : List ℕ)
    → All IsByte bytes
    → 1 ≤ length bytes
    → length bytes ≤ 8
    → decode_slot (overwrite (replicate 8 0) 0 bytes) (length bytes)
      ≡ (ErrorCode.ok, decode_integer_value bytes)
unfolding decode_integer_value load_u64_be
decode_slot-eq [] all lo hi = absurd (omega arith)
decode_slot-eq (x ∷ xs) all lo hi =
    let (n, e, w) = bytes-big_endian xs all.1 in
    let k : ℕ = length xs in
    let raw : ℕ = x * 256 ^ k + n in
    let top : x * 256 ^ k ≤ 255 * 256 ^ k = mul-le-mul_right (256 ^ k) (omega (arith, all.0)) in
    let word : 256 ^ suc k ≤ 256 ^ 8 =
      pow-le-pow_right (omega arith) {i = suc k} {j = 8} (omega arith) in
    let loaded : load_u64_be (overwrite (replicate 8 0) 0 (x ∷ xs)) (suc k) ≡ raw =
      rw (eqb-false (suc k) 0 (omega arith), take-overwrite (replicate 8 0) (x ∷ xs))
        (fold_be-cons 0 k x n xs (omega arith) all.0 w e
          ∙ omega (arith, top, word, pow-suc 256 k)) in
    answered k raw (omega arith) (overwrite (replicate 8 0) 0 (x ∷ xs)) loaded
    ∙ ap (λ (m : ℕ). (ErrorCode.ok, m))
        (extended-fold k x n (omega arith) all.0 w
          ∙ sym (
              fold_be-cons (if bit_and x 0x80 == 0 then 0 else 2 ^ 64 - 1) k x n xs
                (small (bit_and x 0x80 == 0)) all.0 w e))
  where
    small : (b : Bool) → (if b then 0 else 2 ^ 64 - 1) < 2 ^ 64
    small true = omega arith
    small false = omega arith
