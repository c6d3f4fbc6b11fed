-- ===== src/BitOps/Laws.antt =====
-- libs/buffer/bit_ops.hpp over a buffer as one list of bits.
use asn1pp.Prelude.{
  ℕ, zero, suc, ◌+◌, ◌-◌, ◌*◌, ◌/◌, ◌%◌, ◌^◌, ◌≤◌, ◌<◌, ◌≡◌, refl, sym, ap, ap₂, ◌∙◌, subst, List,
  [], ◌∷◌, ◌++◌, All, IsByte, some, arith, set, get_elem?, length, length-append, set-append,
  get_elem?-append, drop, bit_and,
}
use asn1pp.Result.{ok, returns, Op}
use asn1pp.BitOps.Defs.{BitStream, stream, merged, write_bit, read_bit}
use asn1pp.BitOps.Octets.{octet_bits, octet_bits-merged, merged-IsByte, octet_bit}

-- All the bits of a buffer.
abbrev pub bits_of : List ℕ → List ℕ
bits_of [] = []
bits_of (x ∷ cells) = octet_bits x ++ bits_of cells

pub length-bits_of : (cells : List ℕ) → length (bits_of cells) ≡ length cells * 8
length-bits_of [] = refl
length-bits_of (x ∷ cells) = omega (arith, length-bits_of cells)

-- A position in the first octet, or eight bits further.
set_near :
    (pos bit : ℕ) (xs ys : List ℕ) → pos < length xs → set (xs ++ ys) pos bit ≡ set xs pos bit ++ ys
set_near pos bit [] ys h = absurd (omega arith)
set_near zero bit (x ∷ xs) ys h = refl
set_near (suc pos) bit (x ∷ xs) ys h = ap (λ l. x ∷ l) (set_near pos bit xs ys (omega arith))

get_near :
    (pos : ℕ) (xs ys : List ℕ) → pos < length xs → get_elem? (xs ++ ys) pos ≡ get_elem? xs pos
get_near pos [] ys h = absurd (omega arith)
get_near zero (x ∷ xs) ys h = refl
get_near (suc pos) (x ∷ xs) ys h = get_near pos xs ys (omega arith)

eight_more :
    (i pos : ℕ) → suc i * 8 + pos ≡ suc (suc (suc (suc (suc (suc (suc (suc (i * 8 + pos))))))))
eight_more i pos = omega arith

-- A bit replaced in the octet `i`.
bits_of-set :
    (cells : List ℕ) (i pos bit x : ℕ)
    → All IsByte cells
    → get_elem? cells i ≡ some x
    → pos < 8
    → bit < 2
    → bits_of (set cells i (merged x pos bit)) ≡ set (bits_of cells) (i * 8 + pos) bit
bits_of-set [] i pos bit x all e h w = absurd (cc)
bits_of-set (y ∷ cells) zero pos bit x all e h w =
    let same : y ≡ x = cc in
    let small : x < 256 = subst IsByte same all.0 in
    let start : 0 * 8 + pos ≡ pos = omega arith in
    ap (λ (l : List ℕ). l ++ bits_of cells)
      (octet_bits-merged pos bit x h w small
        ∙ ap (λ (z : ℕ). set (octet_bits z) pos bit) (sym same))
    ∙ sym (set_near pos bit (octet_bits y) (bits_of cells) h)
    ∙ ap (λ (k : ℕ). set (bits_of (y ∷ cells)) k bit) (sym start)
bits_of-set (y ∷ cells) (suc i) pos bit x all e h w =
    ap (λ (l : List ℕ). octet_bits y ++ l) (bits_of-set cells i pos bit x all.1 e h w)
    ∙ ap (λ (k : ℕ). set (bits_of (y ∷ cells)) k bit) (sym (eight_more i pos))

bits_of-get :
    (cells : List ℕ) (i pos x : ℕ)
    → get_elem? cells i ≡ some x
    → pos < 8
    → get_elem? (bits_of cells) (i * 8 + pos) ≡ some (bit_and (x / 2 ^ (7 - pos)) 1)
bits_of-get [] i pos x e h = absurd (cc)
bits_of-get (y ∷ cells) zero pos x e h =
    let same : y ≡ x = cc in
    let start : 0 * 8 + pos ≡ pos = omega arith in
    ap (get_elem? (bits_of (y ∷ cells))) start
    ∙ get_near pos (octet_bits y) (bits_of cells) h
    ∙ ap (λ (z : ℕ). get_elem? (octet_bits z) pos) same
    ∙ octet_bit pos x h
bits_of-get (y ∷ cells) (suc i) pos x e h =
    ap (get_elem? (bits_of (y ∷ cells))) (eight_more i pos) ∙ bits_of-get cells i pos x e h

All-set : (cells : List ℕ) (i y : ℕ) → All IsByte cells → IsByte y → All IsByte (set cells i y)
All-set [] i y all h = tt
All-set (x ∷ cells) zero y all h = (h, all.1)
All-set (x ∷ cells) (suc i) y all h = (all.0, All-set cells i y all.1 h)

pub get_inside :
    (cells : List ℕ) (i : ℕ) → i < length cells → (x : ℕ) × (get_elem? cells i ≡ some x)
get_inside [] i h = absurd (omega arith)
get_inside (x ∷ cells) zero h = (x, refl)
get_inside (x ∷ cells) (suc i) h = get_inside cells i (omega arith)

-- The buffer `cells'` holds the bits `bs` and is one of octets.
pub record Holds (bs : List ℕ) (cells : List ℕ) : Type 0 where
  pub octets : All IsByte cells
  pub bits : bits_of cells ≡ bs

-- Behind the bits `pre`, `m` replaces as many bits as `bs` has by `bs`, and goes on behind them.
abbrev pub BitPuts : Op BitStream (Unit {0}) → List ℕ → Type 0
BitPuts m bs =
    (cells pre c : List ℕ)
    → Holds (pre ++ c) cells
    → length bs ≤ length c
    → (cells' : List ℕ) × Holds (pre ++ (bs ++ drop (length bs) c)) cells'
      × (m (stream cells (length pre)) ≡ returns (ok tt) (stream cells' (length pre + length bs)))

-- In front of the bits `bs`, `d` answers `a` and goes on behind them.
abbrev pub BitGets {ℓ} : {A : Type ℓ} → Op BitStream A → List ℕ → A → Type ℓ
BitGets d bs a =
    (cells pre rest : List ℕ)
    → Holds (pre ++ (bs ++ rest)) cells
    → d (stream cells (length pre)) ≡ returns (ok a) (stream cells (length pre + length bs))

-- The buffer is as long as its bits tell.
pub held_length : (bs cells : List ℕ) → Holds bs cells → length cells * 8 ≡ length bs
held_length bs cells h = sym (length-bits_of cells) ∙ ap (λ (l : List ℕ). length l) h.bits

pub write_bit-BitPuts : (bit : ℕ) → bit < 2 → BitPuts (write_bit bit) (bit ∷ [])
unfolding write_bit
write_bit-BitPuts bit w cells pre [] h l = absurd (omega arith)
write_bit-BitPuts bit w cells pre (y ∷ c) h l =
    let k : ℕ = length pre in
    let (x, e) =
      get_inside cells (k / 8)
        (omega (arith, held_length (pre ++ y ∷ c) cells h, length-append pre (y ∷ c))) in
    let place : k / 8 * 8 + k % 8 ≡ k = omega arith in
    (
      set cells (k / 8) (merged x (k % 8) bit),
      record {
        octets =
            All-set cells (k / 8) (merged x (k % 8) bit) h.octets (merged-IsByte (k % 8) bit x);
        bits =
            bits_of-set cells (k / 8) (k % 8) bit x h.octets e (omega arith) w
            ∙ ap₂ (λ (l : List ℕ) (j : ℕ). set l j bit) h.bits place
            ∙ set-append pre c y bit;
      },
      rw e refl,
    )

pub read_bit-BitGets : (bit : ℕ) → BitGets read_bit (bit ∷ []) bit
unfolding read_bit
read_bit-BitGets bit cells pre rest h =
    let k : ℕ = length pre in
    let (x, e) =
      get_inside cells (k / 8)
        (omega (arith, held_length (pre ++ bit ∷ rest) cells h, length-append pre (bit ∷ rest))) in
    let place : k / 8 * 8 + k % 8 ≡ k = omega arith in
    let found : some (bit_and (x / 2 ^ (7 - k % 8)) 1) ≡ some bit =
      sym (bits_of-get cells (k / 8) (k % 8) x e (omega arith))
      ∙ ap₂ (λ (l : List ℕ) (j : ℕ). get_elem? l j) h.bits place
      ∙ get_elem?-append pre rest bit in
    let same : bit_and (x / 2 ^ (7 - k % 8)) 1 ≡ bit = cc in rw (e, same) refl
