-- ===== src/Prelude/Lists.antt =====
-- Lists measured and indexed by native numbers, under the library's names, and `overwrite`, what
-- a run of writes into an array leaves.
use Prim.Native.Nat.{ℕ, zero, suc, ◌+◌, ◌-◌, ◌≤◌, ◌<◌}
use mathlib.Core.Path.{◌≡◌, refl, ap, sym, ◌∙◌}
use mathlib.Core.List.{List, [], ◌∷◌, ◌++◌, append_assoc}
use mathlib.Core.Option.{Option, none, some}
use native.Mathlib.Omega.{arith}

module _ {ℓ} {A : Type ℓ} where
  abbrev pub length : List A → ℕ
  length [] = 0
  length (x ∷ xs) = suc (length xs)

  abbrev pub get_elem? : List A → ℕ → Option A
  get_elem? [] i = none
  get_elem? (x ∷ xs) zero = some x
  get_elem? (x ∷ xs) (suc i) = get_elem? xs i

  abbrev pub get_or : List A → ℕ → A → A
  get_or [] i d = d
  get_or (x ∷ xs) zero d = x
  get_or (x ∷ xs) (suc i) d = get_or xs i d

  -- A write out of bounds changes nothing.
  abbrev pub set : List A → ℕ → A → List A
  set [] i v = []
  set (x ∷ xs) zero v = v ∷ xs
  set (x ∷ xs) (suc i) v = x ∷ set xs i v

  abbrev pub take : ℕ → List A → List A
  take zero xs = []
  take (suc n) [] = []
  take (suc n) (x ∷ xs) = x ∷ take n xs

  abbrev pub drop : ℕ → List A → List A
  drop zero xs = xs
  drop (suc n) [] = []
  drop (suc n) (x ∷ xs) = drop n xs

  abbrev pub replicate : ℕ → A → List A
  replicate zero a = []
  replicate (suc n) a = a ∷ replicate n a

  -- The array `xs` with `ys` in the place of its elements from `i` on.
  abbrev pub overwrite : List A → ℕ → List A → List A
  overwrite xs zero ys = ys ++ drop (length ys) xs
  overwrite [] (suc i) ys = []
  overwrite (x ∷ xs) (suc i) ys = x ∷ overwrite xs i ys

  abbrev pub All {κ} : (A → Type κ) → List A → Type κ
  All P [] = Unit {κ}
  All P (x ∷ xs) = P x × All P xs

module _ {ℓ} {A : Type ℓ} where
  pub length-append : (xs ys : List A) → length (xs ++ ys) ≡ length xs + length ys
  length-append [] ys = omega arith
  length-append (x ∷ xs) ys = omega (arith, length-append xs ys)

  pub length-set : (xs : List A) (i : ℕ) (v : A) → length (set xs i v) ≡ length xs
  length-set [] i v = refl
  length-set (x ∷ xs) zero v = refl
  length-set (x ∷ xs) (suc i) v = ap suc (length-set xs i v)

  pub take-append : (xs ys : List A) → take (length xs) (xs ++ ys) ≡ xs
  take-append [] ys = refl
  take-append (x ∷ xs) ys = ap (λ t. x ∷ t) (take-append xs ys)

  pub drop-append : (xs ys : List A) → drop (length xs) (xs ++ ys) ≡ ys
  drop-append [] ys = refl
  drop-append (x ∷ xs) ys = drop-append xs ys

  pub take-append-drop : (n : ℕ) (xs : List A) → take n xs ++ drop n xs ≡ xs
  take-append-drop zero xs = refl
  take-append-drop (suc n) [] = refl
  take-append-drop (suc n) (x ∷ xs) = ap (λ t. x ∷ t) (take-append-drop n xs)

  pub length-take_le : (n : ℕ) (xs : List A) → n ≤ length xs → length (take n xs) ≡ n
  length-take_le zero xs h = refl
  length-take_le (suc n) [] h = absurd (omega arith)
  length-take_le (suc n) (x ∷ xs) h = ap suc (length-take_le n xs (omega arith))

  pub length-drop : (n : ℕ) (xs : List A) → length (drop n xs) ≡ length xs - n
  length-drop zero xs = omega arith
  length-drop (suc n) [] = omega arith
  length-drop (suc n) (x ∷ xs) = omega (arith, length-drop n xs)

  drop-nil : (n : ℕ) → drop {A = A} n [] ≡ []
  drop-nil zero = refl
  drop-nil (suc n) = refl

  pub drop-drop : (n m : ℕ) (xs : List A) → drop m (drop n xs) ≡ drop (n + m) xs
  drop-drop zero m xs = let e : m ≡ 0 + m = omega arith in ap (λ (k : ℕ). drop k xs) e
  drop-drop (suc n) m [] = drop-nil m ∙ sym (drop-nil (suc n + m))
  drop-drop (suc n) m (x ∷ xs) =
      let e : suc (n + m) ≡ suc n + m = omega arith in
      drop-drop n m xs ∙ ap (λ (k : ℕ). drop k (x ∷ xs)) e

  pub get_elem?-append : (xs ys : List A) (y : A) → get_elem? (xs ++ y ∷ ys) (length xs) ≡ some y
  get_elem?-append [] ys y = refl
  get_elem?-append (x ∷ xs) ys y = get_elem?-append xs ys y

  pub overwrite-set_first :
      (xs : List A) (i : ℕ) (y : A) (ys : List A)
      → i < length xs
      → overwrite (set xs i y) (suc i) ys ≡ overwrite xs i (y ∷ ys)
  overwrite-set_first [] i y ys h = absurd (omega arith)
  overwrite-set_first (x ∷ xs) zero y ys h = refl
  overwrite-set_first (x ∷ xs) (suc i) y ys h =
      ap (λ t. x ∷ t) (overwrite-set_first xs i y ys (omega arith))

  pub overwrite-nil : (xs : List A) (i : ℕ) → overwrite xs i [] ≡ xs
  overwrite-nil xs zero = refl
  overwrite-nil [] (suc i) = refl
  overwrite-nil (x ∷ xs) (suc i) = ap (λ t. x ∷ t) (overwrite-nil xs i)

  drop-set :
      (n : ℕ) (xs : List A) (y : A) → n < length xs → drop n (set xs n y) ≡ y ∷ drop (suc n) xs
  drop-set n [] y h = absurd (omega arith)
  drop-set zero (x ∷ xs) y h = refl
  drop-set (suc n) (x ∷ xs) y h = drop-set n xs y (omega arith)

  pub drop-snoc :
      (ys : List A) (y : A) (xs : List A)
      → drop (suc (length ys)) xs ≡ drop (length (ys ++ y ∷ [])) xs
  drop-snoc ys y xs =
      let e : suc (length ys) ≡ length (ys ++ y ∷ []) = omega (arith, length-append ys (y ∷ [])) in
      ap (λ (k : ℕ). drop k xs) e

  pub overwrite-set_last :
      (xs : List A) (k i : ℕ) (ys : List A) (y : A)
      → k ≡ i + length ys
      → k < length xs
      → overwrite (set xs k y) i ys ≡ overwrite xs i (ys ++ y ∷ [])
  overwrite-set_last xs k zero ys y e h =
      let e' : k ≡ length ys = omega arith in
      rw e' (rw (drop-set (length ys) xs y (omega arith), ← drop-snoc ys y xs, append_assoc) refl)
  overwrite-set_last [] k (suc i) ys y e h = absurd (omega arith)
  overwrite-set_last (x ∷ xs) zero (suc i) ys y e h = absurd (omega arith)
  overwrite-set_last (x ∷ xs) (suc k) (suc i) ys y e h =
      ap (λ t. x ∷ t) (overwrite-set_last xs k i ys y (omega arith) (omega arith))

  pub overwrite-append :
      (xs c ys : List A) → overwrite (xs ++ c) (length xs) ys ≡ xs ++ (ys ++ drop (length ys) c)
  overwrite-append [] c ys = refl
  overwrite-append (x ∷ xs) c ys = ap (λ t. x ∷ t) (overwrite-append xs c ys)

  pub take-overwrite : (xs ys : List A) → take (length ys) (overwrite xs 0 ys) ≡ ys
  take-overwrite xs ys = take-append ys (drop (length ys) xs)

  pub drop-overwrite : (xs ys : List A) → drop (length ys) (overwrite xs 0 ys) ≡ drop (length ys) xs
  drop-overwrite xs ys = drop-append ys (drop (length ys) xs)

  pub set-append : (xs c : List A) (y x : A) → set (xs ++ y ∷ c) (length xs) x ≡ xs ++ x ∷ c
  set-append [] c y x = refl
  set-append (z ∷ xs) c y x = ap (λ t. z ∷ t) (set-append xs c y x)

  pub take-set_snoc :
      (n : ℕ) (xs : List A) (y : A)
      → n < length xs
      → take (suc n) (set xs n y) ≡ take n xs ++ y ∷ []
  take-set_snoc n [] y h = absurd (omega arith)
  take-set_snoc zero (x ∷ xs) y h = refl
  take-set_snoc (suc n) (x ∷ xs) y h = ap (λ t. x ∷ t) (take-set_snoc n xs y (omega arith))

  pub length-take_fits : (n : ℕ) (xs : List A) → n ≤ length xs → length (take n xs) ≡ n
  length-take_fits zero xs h = refl
  length-take_fits (suc n) [] h = absurd (omega arith)
  length-take_fits (suc n) (x ∷ xs) h = ap suc (length-take_fits n xs (omega arith))
