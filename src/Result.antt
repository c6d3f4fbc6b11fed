-- ===== src/Result.antt =====
-- libs/codec/result.hpp: `result<T>`, and the operations of the codecs, which return one and
-- advance or change an object.
use asn1pp.Prelude.{◌≡◌, refl, Bool, true, false, if◌then◌else◌}
use asn1pp.ErrorCode.{ErrorCode}

-- `storage_` is a value with the code `ok`, or another code.
pub data Result {ℓ} (A : Type ℓ) : Type ℓ where
  ok : A → Result A
  err : ErrorCode → Result A

module _ {ℓ} {A : Type ℓ} where
  pub is_ok : Result A → Bool
  is_ok (ok a) = true
  is_ok (err e) = false

  pub is_err : Result A → Bool
  is_err (ok a) = false
  is_err (err e) = true

  pub error : Result A → ErrorCode
  error (ok a) = ErrorCode.ok
  error (err e) = e

module _ {ℓ κ} {A : Type ℓ} {B : Type κ} where
  pub map : Result A → (A → B) → Result B
  map (ok a) f = ok (f a)
  map (err e) f = err e

  pub and_then : Result A → (A → Result B) → Result B
  and_then (ok a) f = f a
  and_then (err e) f = err e

-- What a method leaves: its result and the object, also beside an error. `fault` is an access out
-- of bounds or an assertion that fails, which C++ leaves undefined.
pub data Outcome {ℓ κ} (S : Type ℓ) (A : Type κ) : Type (ℓ ⊔ κ) where
  returns : Result A → S → Outcome S A
  fault : Outcome S A

abbrev pub Op {ℓ κ} : Type ℓ → Type κ → Type (ℓ ⊔ κ)
Op S A = S → Outcome S A

module _ {ℓ κ μ} {S : Type ℓ} {A : Type κ} {B : Type μ} where
  abbrev pub continue : Outcome S A → (A → Op S B) → Outcome S B
  continue (returns (ok a) s) f = f a s
  continue (returns (err e) s) f = returns (err e) s
  continue fault f = fault

  -- `if (r.is_err()) return err(r.error());`, and on with `r.value()`.
  infixl 5 ◌>>=◌ ◌>>◌
  abbrev pub ◌>>=◌ : Op S A → (A → Op S B) → Op S B
  ◌>>=◌ m f s = continue (m s) f

  abbrev pub ◌>>◌ : Op S A → Op S B → Op S B
  ◌>>◌ m n s = continue (m s) (λ _. n)

module _ {ℓ κ} {S : Type ℓ} {A : Type κ} where
  abbrev pub pure : A → Op S A
  pure a s = returns (ok a) s

  abbrev pub raise : ErrorCode → Op S A
  raise e s = returns (err e) s

-- `if (!b) return err(e);`
abbrev pub ensure {ℓ} : {S : Type ℓ} → Bool → ErrorCode → Op S (Unit {0})
ensure true e s = returns (ok tt) s
ensure false e s = returns (err e) s

-- Where both branches do the same, the test does not matter.
pub if_same {ℓ κ} :
    {S : Type ℓ} {A : Type κ} (b : Bool) (m n : Op S A) (s : S) (r : Outcome S A)
    → m s ≡ r
    → n s ≡ r
    → (if b then m else n) s ≡ r
if_same true m n s r p q = p
if_same false m n s r p q = q

-- A test whose outcome is known.
pub if_true {ℓ} : {A : Type ℓ} (b : Bool) (x y : A) → b ≡ true → (if b then x else y) ≡ x
if_true b x y e = rw e refl

pub if_false {ℓ} : {A : Type ℓ} (b : Bool) (x y : A) → b ≡ false → (if b then x else y) ≡ y
if_false b x y e = rw e refl
