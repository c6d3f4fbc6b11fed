-- ===== src/Prelude/Bits.antt =====
-- The masks, shifts and joins of the codecs as arithmetic: `x & (2^k - 1)` is a remainder, and
-- `(q << k) | r` a sum where `r` fits `k` bits.
use Prim.Native.Nat.{ℕ, zero, suc, ◌+◌, ◌-◌, ◌*◌, ◌/◌, ◌%◌, ◌^◌, ◌≤◌, ◌<◌, min, max}
use Prim.Native.Nat.{bit_and, bit_or, digits, bit_and-bitwise, bit_or-bitwise}
use mathlib.Core.Path.{◌≡◌, refl, ap, ◌∙◌}
use mathlib.Core.Bool.{Bool, true, false}
use native.Mathlib.Nat.{pow-suc}
use native.Mathlib.Omega.{arith}
use asn1pp.Prelude.Tests.{◌==◌, if◌then◌else◌}

-- One more unit of fuel changes no digit, once there is enough.
module _ (z : ℕ → ℕ) (f : ℕ → ℕ → ℕ) where
  digits-suc : (n a b : ℕ) → a ≤ n → digits z f (suc n) a b ≡ digits z f n a b
  digits-suc zero zero b h = refl
  digits-suc zero (suc a) b h = absurd (omega arith)
  digits-suc (suc n) zero b h = refl
  digits-suc (suc n) (suc a) b h =
      ap (λ (d : ℕ). d * 2 + f (suc a % 2) (b % 2)) (digits-suc n (suc a / 2) (b / 2) (omega arith))

  digits-add : (k n a b : ℕ) → a ≤ n → digits z f (k + n) a b ≡ digits z f n a b
  digits-add zero n a b h = let e : 0 + n ≡ n = omega arith in ap (λ (m : ℕ). digits z f m a b) e
  digits-add (suc k) n a b h = omega (
    arith,
    ap (λ (m : ℕ). digits z f m a b) (next k),
    digits-suc (k + n) a b (omega arith),
    digits-add k n a b h,
  )
    where
      next : (j : ℕ) → suc j + n ≡ suc (j + n)
      next j = omega arith

  halves : (a b : ℕ) → digits z f a (suc a / 2) (b / 2) ≡ digits z f (suc a / 2) (suc a / 2) (b / 2)
  halves a b = omega (
    arith,
    ap (λ (m : ℕ). digits z f m (suc a / 2) (b / 2)) split,
    digits-add (a - suc a / 2) (suc a / 2) (suc a / 2) (b / 2) (omega arith),
  )
    where
      split : a ≡ (a - suc a / 2) + suc a / 2
      split = omega arith

and_digit : (a b : ℕ) → bit_and a b ≡ bit_and (a / 2) (b / 2) * 2 + min (a % 2) (b % 2)
and_digit zero b = omega (arith, bit_and-bitwise 0 b, bit_and-bitwise 0 (b / 2))
and_digit (suc a) b =
    omega (
      arith,
      bit_and-bitwise (suc a) b,
      bit_and-bitwise (suc a / 2) (b / 2),
      halves (λ y. 0) min a b,
    )

or_digit : (a b : ℕ) → bit_or a b ≡ bit_or (a / 2) (b / 2) * 2 + max (a % 2) (b % 2)
or_digit zero b = omega (arith, bit_or-bitwise 0 b, bit_or-bitwise 0 (b / 2))
or_digit (suc a) b =
    omega
      (arith, bit_or-bitwise (suc a) b, bit_or-bitwise (suc a / 2) (b / 2), halves (λ y. y) max a b)

and-zero_below : (n a : ℕ) → a ≤ n → bit_and a 0 ≡ 0
and-zero_below zero a h = let e : a ≡ 0 = omega arith in ap (λ (x : ℕ). bit_and x 0) e
and-zero_below (suc n) zero h = refl
and-zero_below (suc n) (suc a) h =
    omega (arith, and_digit (suc a) 0, and-zero_below n (suc a / 2) (omega arith))

or-zero_below : (n a : ℕ) → a ≤ n → bit_or a 0 ≡ a
or-zero_below zero a h = let e : a ≡ 0 = omega arith in omega (arith, ap (λ (x : ℕ). bit_or x 0) e)
or-zero_below (suc n) zero h = refl
or-zero_below (suc n) (suc a) h =
    omega (arith, or_digit (suc a) 0, or-zero_below n (suc a / 2) (omega arith))

-- The mask of the `k` lowest bits.
abbrev ones : ℕ → ℕ
ones zero = 0
ones (suc k) = ones k * 2 + 1

pub two-pow-pos : (k : ℕ) → 0 < 2 ^ k
two-pow-pos zero = omega arith
two-pow-pos (suc k) = omega (arith, pow-suc 2 k, two-pow-pos k)

mod-double : (p a : ℕ) → 0 < p → a % (p * 2) ≡ a / 2 % p * 2 + a % 2
mod-double p a h = grind arith

and-ones : (k a : ℕ) → bit_and a (ones k) ≡ a % 2 ^ k
and-ones zero a = omega (arith, and-zero_below a a (omega arith))
and-ones (suc k) a = omega (
  arith,
  and_digit a (ones k * 2 + 1),
  ap (λ (m : ℕ). bit_and (a / 2) m) half,
  and-ones k (a / 2),
  pow-suc 2 k,
  mod_double,
)
  where
    half : (ones k * 2 + 1) / 2 ≡ ones k
    half = omega arith

    mod_double : a % 2 ^ suc k ≡ a / 2 % 2 ^ k * 2 + a % 2
    mod_double = ap (λ (m : ℕ). a % m) (pow-suc 2 k) ∙ mod-double (2 ^ k) a (two-pow-pos k)

pub and-7f : (a : ℕ) → bit_and a 0x7f ≡ a % 128
and-7f a = and-ones 7 a

pub and-ff : (a : ℕ) → bit_and a 0xff ≡ a % 256
and-ff a = and-ones 8 a

pub and-3f : (a : ℕ) → bit_and a 0x3f ≡ a % 64
and-3f a = and-ones 6 a

pub and-3fff : (a : ℕ) → bit_and a 0x3fff ≡ a % 16384
and-3fff a = and-ones 14 a

pub and-1f : (a : ℕ) → bit_and a 0x1f ≡ a % 32
and-1f a = and-ones 5 a

-- `(q << k) | r`, for `r` below `2 ^ k`.
pub or-fields : (k q r : ℕ) → r < 2 ^ k → bit_or (q * 2 ^ k) r ≡ q * 2 ^ k + r
or-fields zero q r h =
    let e : r ≡ 0 = omega arith in
    omega (arith, ap (λ (x : ℕ). bit_or (q * 1) x) e, or-zero_below (q * 1) (q * 1) (omega arith))
or-fields (suc k) q r h = omega (
  arith,
  or_digit (q * 2 ^ suc k) r,
  ap (λ (x : ℕ). bit_or x (r / 2)) half,
  or-fields k q (r / 2) (omega (arith, pow-suc 2 k)),
  double,
)
  where
    double : q * 2 ^ suc k ≡ q * 2 ^ k * 2
    double = omega (arith, ap (λ (x : ℕ). q * x) (pow-suc 2 k))

    half : q * 2 ^ suc k / 2 ≡ q * 2 ^ k
    half = omega (arith, double)

or_comm_below : (n a b : ℕ) → a ≤ n → b ≤ n → bit_or a b ≡ bit_or b a
or_comm_below zero a b h k =
    let e : a ≡ b = omega arith in
    ap (λ (x : ℕ). bit_or x b) e ∙ ap (λ (x : ℕ). bit_or b x) (omega arith)
or_comm_below (suc n) a b h k =
    omega (
      arith,
      or_digit a b,
      or_digit b a,
      or_comm_below n (a / 2) (b / 2) (omega arith) (omega arith),
    )

pub or_comm : (a b : ℕ) → bit_or a b ≡ bit_or b a
or_comm a b = or_comm_below (a + b) a b (omega arith) (omega arith)

pub and-1 : (a : ℕ) → bit_and a 1 ≡ a % 2
and-1 a = and-ones 1 a

-- Masks of single bits of a byte, by a table of all bytes.
same_below : (f g : ℕ → ℕ) → ℕ → Bool
same_below f g zero = true
same_below f g (suc n) = if f n == g n then same_below f g n else false

same_below_sound : (f g : ℕ → ℕ) (n x : ℕ) → same_below f g n ≡ true → x < n → f x ≡ g x
unfolding same_below
same_below_sound f g zero x t h = absurd (omega arith)
same_below_sound f g (suc n) x t h = ground (arith, same_below_sound f g n x)

pub and-c0 : (b : ℕ) → b < 256 → bit_and b 0xc0 ≡ b / 64 * 64
unfolding same_below
and-c0 b = same_below_sound (λ x. bit_and x 0xc0) (λ x. x / 64 * 64) 256 b refl

pub and-80 : (b : ℕ) → b < 256 → bit_and b 0x80 ≡ b / 128 * 128
unfolding same_below
and-80 b = same_below_sound (λ x. bit_and x 0x80) (λ x. x / 128 * 128) 256 b refl

pub and-20 : (b : ℕ) → b < 256 → bit_and b 0x20 ≡ b / 32 % 2 * 32
unfolding same_below
and-20 b = same_below_sound (λ x. bit_and x 0x20) (λ x. x / 32 % 2 * 32) 256 b refl

pub or-80 : (b : ℕ) → b < 128 → bit_or b 0x80 ≡ b + 128
unfolding same_below
or-80 b = same_below_sound (λ x. bit_or x 0x80) (λ x. x + 128) 128 b refl

pub and-e0 : (b : ℕ) → b < 256 → bit_and b 0xe0 ≡ b / 32 * 32
unfolding same_below
and-e0 b = same_below_sound (λ x. bit_and x 0xe0) (λ x. x / 32 * 32) 256 b refl
