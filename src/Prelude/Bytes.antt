-- ===== src/Prelude/Bytes.antt =====
-- Bytes, and numbers written in them with the most significant byte first.
use Prim.Native.Nat.{ℕ, zero, suc, ◌+◌, ◌*◌, ◌/◌, ◌%◌, ◌^◌, ◌<◌, ◌≤◌, bit_or}
use mathlib.Core.Path.{◌≡◌, refl, ap, ap₂, sym, ◌∙◌}
use mathlib.Core.List.{List, [], ◌∷◌, ◌++◌}
use native.Mathlib.Nat.{pow-suc, mul-le-mul_right}
use native.Mathlib.Omega.{arith}
use asn1pp.Prelude.Lists.{length, All, length-append}
use asn1pp.Prelude.Bits.{or-fields}

abbrev pub IsByte : ℕ → Type 0
IsByte b = b < 256

-- The `k` lowest bytes of `n`, the most significant first.
abbrev pub big_endian : ℕ → ℕ → List ℕ
big_endian zero n = []
big_endian (suc k) n = big_endian k (n / 256) ++ n % 256 ∷ []

pub length-big_endian : (k n : ℕ) → length (big_endian k n) ≡ k
length-big_endian zero n = refl
length-big_endian (suc k) n =
    omega
      (arith, length-append (big_endian k (n / 256)) (n % 256 ∷ []), length-big_endian k (n / 256))

pub All-append {ℓ κ} :
    {A : Type ℓ} (P : A → Type κ) (xs ys : List A) → All P xs → All P ys → All P (xs ++ ys)
All-append P [] ys p q = q
All-append P (x ∷ xs) ys p q = (p.0, All-append P xs ys p.1 q)

pub big_endian-IsByte : (k n : ℕ) → All IsByte (big_endian k n)
big_endian-IsByte zero n = tt
big_endian-IsByte (suc k) n =
    All-append IsByte (big_endian k (n / 256)) (n % 256 ∷ []) (big_endian-IsByte k (n / 256))
      (omega arith)

-- `acc = (acc << 8) | b` on a `uint64_t`, for each byte in turn.
abbrev pub fold_be : ℕ → List ℕ → ℕ
fold_be acc [] = acc
fold_be acc (b ∷ bs) = fold_be (bit_or (acc * 2 ^ 8 % 2 ^ 64) b) bs

pub fold_be-append :
    (acc : ℕ) (xs ys : List ℕ) → fold_be acc (xs ++ ys) ≡ fold_be (fold_be acc xs) ys
fold_be-append acc [] ys = refl
fold_be-append acc (x ∷ xs) ys = fold_be-append (bit_or (acc * 2 ^ 8 % 2 ^ 64) x) xs ys

-- One step of the fold where nothing wraps away.
pub shift_in :
    (acc b : ℕ) → acc < 2 ^ 56 → b < 256 → bit_or (acc * 2 ^ 8 % 2 ^ 64) b ≡ acc * 256 + b
shift_in acc b h k = omega (arith, ap (λ (x : ℕ). bit_or x b) small, or-fields 8 acc b k)
  where
    small : acc * 2 ^ 8 % 2 ^ 64 ≡ acc * 256
    small = omega arith

-- Reading back what `big_endian` wrote.
pub fold_be-big_endian : (k n : ℕ) → n < 256 ^ k → n < 2 ^ 64 → fold_be 0 (big_endian k n) ≡ n
fold_be-big_endian zero n h w = omega arith
fold_be-big_endian (suc k) n h w =
    let previous : fold_be 0 (big_endian k (n / 256)) ≡ n / 256 =
      fold_be-big_endian k (n / 256) (omega (arith, pow-suc 256 k)) (omega arith) in
    fold_be-append 0 (big_endian k (n / 256)) (n % 256 ∷ [])
    ∙ ap (λ (x : ℕ). bit_or (x * 2 ^ 8 % 2 ^ 64) (n % 256)) previous
    ∙ omega (arith, shift_in (n / 256) (n % 256) (omega arith) (omega arith))

pub big_endian-cons :
    (k x n : ℕ) → x < 256 → n < 256 ^ k → big_endian (suc k) (x * 256 ^ k + n) ≡ x ∷ big_endian k n
big_endian-cons zero x n h w = ap (λ (d : ℕ). d ∷ []) (omega arith)
big_endian-cons (suc k) x n h w =
    ap₂ (λ (m d : ℕ). big_endian (suc k) m ++ d ∷ []) upper lower
    ∙ ap (λ (l : List ℕ). l ++ n % 256 ∷ [])
        (big_endian-cons k x (n / 256) h (omega (arith, pow-suc 256 k)))
  where
    total : x * 256 ^ suc k ≡ x * 256 ^ k * 256
    total = omega (arith, ap (λ (y : ℕ). x * y) (pow-suc 256 k))

    upper : (x * 256 ^ suc k + n) / 256 ≡ x * 256 ^ k + n / 256
    upper = omega (arith, total)

    lower : (x * 256 ^ suc k + n) % 256 ≡ n % 256
    lower = omega (arith, total)

-- Every list of bytes is some number, written with that many bytes.
pub bytes-big_endian :
    (xs : List ℕ)
    → All IsByte xs
    → (n : ℕ) × (xs ≡ big_endian (length xs) n) × (n < 256 ^ length xs)
bytes-big_endian [] h = (0, refl, omega arith)
bytes-big_endian (x ∷ xs) h =
    let (n, e, w) = bytes-big_endian xs h.1 in
    let top : x * 256 ^ length xs ≤ 255 * 256 ^ length xs =
      mul-le-mul_right (256 ^ length xs) (omega (arith, h.0)) in
    (
      x * 256 ^ length xs + n,
      ap (λ (l : List ℕ). x ∷ l) e ∙ sym (big_endian-cons (length xs) x n h.0 w),
      omega (arith, top, pow-suc 256 (length xs)),
    )
