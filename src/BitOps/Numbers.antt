-- ===== src/BitOps/Numbers.antt =====
-- libs/buffer/bit_ops.hpp: a number as its bits, written and read.
use asn1pp.Prelude.{
  ℕ, zero, suc, ◌+◌, ◌*◌, ◌/◌, ◌%◌, ◌^◌, ◌≤◌, ◌<◌, ◌≡◌, refl, sym, ap, ap₂, ◌∙◌, subst, List, [],
  ◌∷◌, ◌++◌, arith, length, length-append, length-drop, drop-drop, append_assoc, drop, bit_and,
  bit_or, leb-true,
}
use asn1pp.Prelude.Bits.{and-1, or-fields, two-pow-pos}
use native.Mathlib.Nat.{
  div-div-eq-div-mul, mod-lt, mod-eq_of_lt, add-mod_left, div-add-mod', pow-suc, mul-le-mul_right,
  pow-le-pow_right,
}
use asn1pp.Result.{ok, returns, Op, pure, ◌>>=◌, ◌>>◌}
use asn1pp.BitOps.Defs.{
  BitStream, stream, write_bit, put_bits, write_bits, read_bit, get_bits, read_bits,
}
use asn1pp.BitOps.Laws.{BitPuts, BitGets, Holds, write_bit-BitPuts, read_bit-BitGets}

-- The `k` lowest bits of `n`, the highest first.
abbrev pub number_bits : ℕ → ℕ → List ℕ
number_bits zero n = []
number_bits (suc k) n = n / 2 ^ k % 2 ∷ number_bits k n

pub length-number_bits : (k n : ℕ) → length (number_bits k n) ≡ k
length-number_bits zero n = refl
length-number_bits (suc k) n = ap suc (length-number_bits k n)

pub BitPuts-then :
    (m n : Op BitStream (Unit {0})) (xs ys : List ℕ)
    → BitPuts m xs
    → BitPuts n ys
    → BitPuts (m >> n) (xs ++ ys)
BitPuts-then m n xs ys p q cells pre c h l =
    let (c1, h1, e1) = p cells pre c h (omega (arith, length-append xs ys)) in
    let h1' : Holds ((pre ++ xs) ++ drop (length xs) c) c1 =
      subst (λ (bs : List ℕ). Holds bs c1) (sym (append_assoc pre xs (drop (length xs) c))) h1 in
    let (c2, h2, e2) =
      q c1 (pre ++ xs) (drop (length xs) c) h1'
        (omega (arith, length-append xs ys, length-drop (length xs) c)) in
    (
      c2,
      subst (λ (bs : List ℕ). Holds bs c2) regroup h2,
      rw e1 (
          ap (λ (k : ℕ). n (stream c1 k)) (sym (length-append pre xs))
          ∙ e2
          ∙ ap (λ (k : ℕ). returns (ok tt) (stream c2 k))
              (omega (arith, length-append pre xs, length-append xs ys))),
    )
  where
    regroup :
        (pre ++ xs) ++ (ys ++ drop (length ys) (drop (length xs) c))
        ≡ pre ++ ((xs ++ ys) ++ drop (length (xs ++ ys)) c)
    regroup =
        rw
          (
            append_assoc pre xs (ys ++ drop (length ys) (drop (length xs) c)),
            append_assoc xs ys (drop (length (xs ++ ys)) c),
            drop-drop (length xs) (length ys) c,
            length-append xs ys,
          )
          refl

pub BitPuts-nothing : BitPuts (pure tt) []
BitPuts-nothing cells pre c h l =
    (cells, h, ap (λ (k : ℕ). returns (ok tt) (stream cells k)) (omega arith))

pub BitGets-then {ℓ κ} :
    {A : Type ℓ} {B : Type κ} (d : Op BitStream A) (f : A → Op BitStream B) (xs ys : List ℕ) (a : A)
    (z : B)
    → BitGets d xs a
    → BitGets (f a) ys z
    → BitGets (d >>= f) (xs ++ ys) z
BitGets-then d f xs ys a z g k cells pre rest h =
    let h1 : Holds (pre ++ (xs ++ (ys ++ rest))) cells =
      subst (λ (l : List ℕ). Holds (pre ++ l) cells) (append_assoc xs ys rest) h in
    let h2 : Holds ((pre ++ xs) ++ (ys ++ rest)) cells =
      subst (λ (l : List ℕ). Holds l cells) (sym (append_assoc pre xs (ys ++ rest))) h1 in
    rw (g cells pre (ys ++ rest) h1) (
      ap (λ (j : ℕ). f a (stream cells j)) (sym (length-append pre xs))
      ∙ k cells (pre ++ xs) rest h2
      ∙ ap (λ (j : ℕ). returns (ok z) (stream cells j))
          (omega (arith, length-append pre xs, length-append xs ys)))

pub BitGets-pure {ℓ} : {A : Type ℓ} (a : A) → BitGets (pure a) [] a
BitGets-pure a cells pre rest h = ap (λ (k : ℕ). returns (ok a) (stream cells k)) (omega arith)

pub BitGets-map {ℓ κ} :
    {A : Type ℓ} {B : Type κ} (d : Op BitStream A) (f : A → B) (xs : List ℕ) (a : A) (z : B)
    → BitGets d xs a
    → f a ≡ z
    → BitGets (d >>= λ x. pure (f x)) xs z
BitGets-map d f xs a z g e cells pre rest h = rw (g cells pre rest h, e) refl

put_bits-BitPuts : (k n : ℕ) → BitPuts (put_bits k n) (number_bits k n)
unfolding put_bits
put_bits-BitPuts zero n = BitPuts-nothing
put_bits-BitPuts (suc k) n =
    let low : bit_and (n / 2 ^ k) 1 ≡ n / 2 ^ k % 2 = and-1 (n / 2 ^ k) in
    rw low (
      BitPuts-then (write_bit (n / 2 ^ k % 2)) (put_bits k n) (n / 2 ^ k % 2 ∷ []) (number_bits k n)
        (write_bit-BitPuts (n / 2 ^ k % 2) (omega arith)) (put_bits-BitPuts k n))

-- `write_bits` of up to 64 bits.
pub write_bits-BitPuts : (n k : ℕ) → k ≤ 64 → BitPuts (write_bits n k) (number_bits k n)
unfolding write_bits
write_bits-BitPuts n k h = rw (leb-true k 64 h) (put_bits-BitPuts k n)

whole_part : (x m y : ℕ) → (x * m + y) % m ≡ y % m
whole_part zero m y = ap (λ (z : ℕ). z % m) (omega arith)
whole_part (suc x) m y =
    let e : suc x * m + y ≡ m + (x * m + y) = grind arith in
    ap (λ (z : ℕ). z % m) e ∙ add-mod_left m (x * m + y) ∙ whole_part x m y

regrouped : (a b p r : ℕ) → (a * 2 + b) * p + r ≡ a * (p * 2) + (b * p + r)
regrouped a b p r = grind arith

below_double : (b p r : ℕ) → b < 2 → r < p → b * p + r < p * 2
below_double zero p r h k = omega arith
below_double (suc zero) p r h k = omega arith
below_double (suc (suc b)) p r h k = absurd (omega arith)

split_bits : (n p : ℕ) → 0 < p → n % (p * 2) ≡ n / p % 2 * p + n % p
split_bits n p h =
    ap (λ (z : ℕ). z % (p * 2)) total
    ∙ whole_part (n / p / 2) (p * 2) (n / p % 2 * p + n % p)
    ∙ mod-eq_of_lt (below_double (n / p % 2) p (n % p) (omega arith) (mod-lt n h))
  where
    halves : n / p ≡ n / p / 2 * 2 + n / p % 2
    halves = omega arith

    total : n ≡ n / p / 2 * (p * 2) + (n / p % 2 * p + n % p)
    total =
        sym (div-add-mod' n p)
        ∙ ap (λ (q : ℕ). q * p + n % p) halves
        ∙ regrouped (n / p / 2) (n / p % 2) p (n % p)

doubled : (a p : ℕ) → (a + 1) * (p * 2) ≡ (a * 2 + 2) * p
doubled a p = grind arith

at_least : (a p : ℕ) → 0 < p → a ≤ a * p
at_least a zero h = absurd (omega arith)
at_least a (suc p) h = let e : a * suc p ≡ a + a * p = grind arith in omega arith

spread : (a b p : ℕ) → (a * 2 + b) * p ≡ a * (p * 2) + b * p
spread a b p = grind arith

-- Room for `k` more bits in 64.
get_bits-BitGets :
    (k n acc : ℕ)
    → (acc + 1) * 2 ^ k ≤ 2 ^ 64
    → BitGets (get_bits k acc) (number_bits k n) (acc * 2 ^ k + n % 2 ^ k)
unfolding get_bits
get_bits-BitGets zero n acc h =
    let e : acc * 2 ^ 0 + n % 2 ^ 0 ≡ acc = omega arith in rw e (BitGets-pure acc)
get_bits-BitGets (suc k) n acc h =
    let bit : ℕ = n / 2 ^ k % 2 in
    let low : bit < 2 = omega arith in
    let wide : (acc + 1) * 2 ^ suc k ≡ (acc * 2 + 2) * 2 ^ k = widened in
    let shifted : acc * 2 % 2 ^ 64 ≡ acc * 2 = omega (arith, room) in
    let joined : bit_or (acc * 2 % 2 ^ 64) bit ≡ acc * 2 + bit =
      ap (λ (x : ℕ). bit_or x bit) shifted ∙ or-fields 1 acc bit low in
    let next : BitGets (get_bits k (acc * 2 + bit)) (number_bits k n)
        ((acc * 2 + bit) * 2 ^ k + n % 2 ^ k) =
      get_bits-BitGets k n (acc * 2 + bit) (fits bit low) in
    rw (value bit refl) (
      BitGets-then read_bit (λ b. get_bits k (bit_or (acc * 2 % 2 ^ 64) b)) (bit ∷ [])
        (number_bits k n) bit ((acc * 2 + bit) * 2 ^ k + n % 2 ^ k) (read_bit-BitGets bit)
        (rw joined next))
  where
    widened : (acc + 1) * 2 ^ suc k ≡ (acc * 2 + 2) * 2 ^ k
    widened = ap (λ (p : ℕ). (acc + 1) * p) (pow-suc 2 k) ∙ doubled acc (2 ^ k)

    room : (acc * 2 + 2) ≤ 2 ^ 64
    room = omega (arith, widened, at_least (acc * 2 + 2) (2 ^ k) (two-pow-pos k))

    fits : (b : ℕ) → b < 2 → (acc * 2 + b + 1) * 2 ^ k ≤ 2 ^ 64
    fits b low = omega (
      arith,
      widened,
      mul-le-mul_right {m = acc * 2 + b + 1} {n = acc * 2 + 2} (2 ^ k) (omega arith),
    )

    value :
        (b : ℕ)
        → n / 2 ^ k % 2 ≡ b
        → acc * 2 ^ suc k + n % 2 ^ suc k ≡ (acc * 2 + b) * 2 ^ k + n % 2 ^ k
    value b e = omega (
      arith,
      ap (λ (p : ℕ). acc * p) (pow-suc 2 k),
      ap (λ (p : ℕ). n % p) (pow-suc 2 k),
      split_bits n (2 ^ k) (two-pow-pos k),
      ap (λ (z : ℕ). z * 2 ^ k) e,
      spread acc b (2 ^ k),
    )

-- `read_bits` of up to 64 bits in front of the bits of a number.
pub read_bits-low : (k n : ℕ) → k ≤ 64 → BitGets (read_bits k) (number_bits k n) (n % 2 ^ k)
unfolding read_bits
read_bits-low k n h =
    let same : 0 * 2 ^ k + n % 2 ^ k ≡ n % 2 ^ k = omega arith in
    let all : BitGets (get_bits k 0) (number_bits k n) (n % 2 ^ k) =
      subst (λ (a : ℕ). BitGets (get_bits k 0) (number_bits k n) a) same
        (get_bits-BitGets k n 0 (omega (arith, pow-le-pow_right {n = 2} (omega arith) h))) in
    rw (leb-true k 64 h) all

pub read_bits-BitGets : (k n : ℕ) → k ≤ 64 → n < 2 ^ k → BitGets (read_bits k) (number_bits k n) n
read_bits-BitGets k n h w =
    subst (λ (a : ℕ). BitGets (read_bits k) (number_bits k n) a) (mod-eq_of_lt w)
      (read_bits-low k n h)

pow_sum : (j k : ℕ) → 2 ^ (j + k) ≡ 2 ^ k * 2 ^ j
pow_sum zero k = let e : 0 + k ≡ k = omega arith in ap (λ (i : ℕ). 2 ^ i) e ∙ omega arith
pow_sum (suc j) k =
    let e : suc j + k ≡ suc (j + k) = omega arith in
    ap (λ (i : ℕ). 2 ^ i) e
    ∙ pow-suc 2 (j + k)
    ∙ omega (arith, pow_sum j k, ap (λ (p : ℕ). 2 ^ k * p) (pow-suc 2 j))

-- The upper bits, and the lower ones.
pub number_bits-split :
    (j k n : ℕ) → number_bits (j + k) n ≡ number_bits j (n / 2 ^ k) ++ number_bits k n
number_bits-split zero k n = let e : 0 + k ≡ k = omega arith in ap (λ (i : ℕ). number_bits i n) e
number_bits-split (suc j) k n =
    let e : suc j + k ≡ suc (j + k) = omega arith in
    ap (λ (i : ℕ). number_bits i n) e
    ∙ ap₂ (λ (x : ℕ) (l : List ℕ). x % 2 ∷ l) top (number_bits-split j k n)
  where
    top : n / 2 ^ (j + k) ≡ n / 2 ^ k / 2 ^ j
    top = ap (λ (p : ℕ). n / p) (pow_sum j k) ∙ sym (div-div-eq-div-mul n (2 ^ k) (2 ^ j))
