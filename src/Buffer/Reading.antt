-- ===== src/Buffer/Reading.antt =====
-- What it is to read through a view: no access out of bounds, no write, and a move forwards.
use asn1pp.Prelude.{
  ℕ, zero, suc, ◌+◌, ◌≤◌, ◌≡◌, refl, sym, ap, ap₂, ◌∙◌, Bool, true, false, List, [], ◌∷◌, ◌++◌,
  if◌then◌else◌, arith, leb-true, length, take, drop, append_assoc, append-nil, drop-drop,
  length-drop, ltb, ltb-false, not, length-append, take-append, drop-append,
}
use asn1pp.ErrorCode.{ErrorCode}
use asn1pp.Result.{Result, ok, err, Outcome, returns, Op, pure, ensure, ◌>>=◌, ◌>>◌}
use asn1pp.Buffer.Defs.{BufferView, view, skip, size, copy_out}

-- The view behind its first `k` bytes.
abbrev pub moved : ℕ → BufferView → BufferView
moved k v = view (v.before ++ take k v.cells) (drop k v.cells)

-- `o` is a return, a result or an error, from a view moved forwards within its own bytes.
pub record Moved {ℓ} {A : Type ℓ} (v : BufferView) (o : Outcome BufferView A) : Type ℓ where
  pub result : Result A
  pub consumed : ℕ
  pub returned : o ≡ returns result (moved consumed v)
  pub inside : consumed ≤ length v.cells

-- `m` never faults, writes nothing, and leaves the view within the bytes that it covered.
abbrev pub Reads {ℓ} : {A : Type ℓ} → Op BufferView A → Type ℓ
Reads m = (v : BufferView) → Moved v (m v)

moved-zero : (v : BufferView) → moved 0 v ≡ v
moved-zero v = ap (λ (b : List ℕ). view b v.cells) (append-nil v.before)

take-add : (k j : ℕ) (xs : List ℕ) → take k xs ++ take j (drop k xs) ≡ take (k + j) xs
take-add zero j xs = let e : j ≡ 0 + j = omega arith in ap (λ (n : ℕ). take n xs) e
take-add (suc k) zero [] = let e : suc k + 0 ≡ suc k = omega arith in rw e refl
take-add (suc k) (suc j) [] = let e : suc k + suc j ≡ suc (k + suc j) = omega arith in rw e refl
take-add (suc k) j (x ∷ xs) =
    let e : suc k + j ≡ suc (k + j) = omega arith in rw e (ap (λ t. x ∷ t) (take-add k j xs))

pub moved-moved : (k j : ℕ) (v : BufferView) → moved j (moved k v) ≡ moved (k + j) v
moved-moved k j v =
    ap₂ view
      (append_assoc v.before (take k v.cells) (take j (drop k v.cells))
        ∙ ap (λ (t : List ℕ). v.before ++ t) (take-add k j v.cells))
      (drop-drop k j v.cells)

-- A step that stays where it is.
pub Moved-stay {ℓ} : {A : Type ℓ} (r : Result A) (v : BufferView) → Moved v (returns r v)
Moved-stay r v = record {
  result = r;
  consumed = 0;
  returned = ap (returns r) (sym (moved-zero v));
  inside = omega arith;
}

pub Moved-skip : (k : ℕ) (v : BufferView) → k ≤ length v.cells → Moved v (skip k v)
Moved-skip k v h = record {
  result = ok tt;
  consumed = k;
  returned = rw (leb-true k (length v.cells) h) refl;
  inside = h;
}

-- What follows a return at a moved view.
pub Moved-after {ℓ} :
    {A : Type ℓ} (k : ℕ) (v : BufferView) (o : Outcome BufferView A)
    → k ≤ length v.cells
    → Moved (moved k v) o
    → Moved v o
Moved-after k v o h m = record {
  result = m.result;
  consumed = k + m.consumed;
  returned = m.returned ∙ ap (returns m.result) (moved-moved k m.consumed v);
  inside = omega (arith, m.inside, length-drop k v.cells);
}

module _ {ℓ κ} {A : Type ℓ} {B : Type κ} where
  continue_result :
      (r : Result A) (f : A → Op BufferView B) (k : ℕ) (v : BufferView)
      → k ≤ length v.cells
      → ((a : A) → Moved (moved k v) (f a (moved k v)))
      → Moved v (((λ (_ : BufferView). returns r (moved k v)) >>= f) v)
  continue_result (ok a) f k v h g = Moved-after k v (f a (moved k v)) h (g a)
  continue_result (err e) f k v h g = record {
    result = err e;
    consumed = k;
    returned = refl;
    inside = h;
  }

  pub Moved-bind :
      (m : Op BufferView A) (f : A → Op BufferView B) (v : BufferView)
      → Moved v (m v)
      → ((a : A) (u : BufferView) → Moved u (f a u))
      → Moved v ((m >>= f) v)
  Moved-bind m f v d g =
      rw d.returned
        (continue_result d.result f d.consumed v d.inside (λ a. g a (moved d.consumed v)))

pub Moved-ensure {ℓ} :
    {A : Type ℓ} (b : Bool) (e : ErrorCode) (m : Op BufferView A) (v : BufferView)
    → (b ≡ true → Moved v (m v))
    → Moved v ((ensure b e >> m) v)
Moved-ensure true e m v h = h refl
Moved-ensure false e m v h = Moved-stay (err e) v

pub Moved-if {ℓ} :
    {A : Type ℓ} (b : Bool) (m n : Op BufferView A) (v : BufferView)
    → (b ≡ true → Moved v (m v))
    → (b ≡ false → Moved v (n v))
    → Moved v ((if b then m else n) v)
Moved-if true m n v p q = p refl
Moved-if false m n v p q = q refl

-- A step that looks and does not move.
pub Moved-stays {ℓ κ} :
    {A : Type ℓ} {B : Type κ} (r : Result A) (m : Op BufferView A) (f : A → Op BufferView B)
    (v : BufferView)
    → m v ≡ returns r v
    → ((a : A) → r ≡ ok a → Moved v (f a v))
    → Moved v ((m >>= f) v)
Moved-stays (ok a) m f v e g = rw e (g a refl)
Moved-stays (err c) m f v e g = rw e (Moved-stay (err c) v)

-- In front of the bytes `bs`, whatever follows them, `d` answers `a` and stops behind them.
abbrev pub Gets {ℓ} : {A : Type ℓ} → Op BufferView A → List ℕ → A → Type ℓ
Gets d bs a = (b rest : List ℕ) → d (view b (bs ++ rest)) ≡ returns (ok a) (view (b ++ bs) rest)

pub Gets-then {ℓ κ} :
    {A : Type ℓ} {B : Type κ} (d : Op BufferView A) (f : A → Op BufferView B) (xs ys : List ℕ)
    (a : A) (z : B)
    → Gets d xs a
    → Gets (f a) ys z
    → Gets (d >>= f) (xs ++ ys) z
Gets-then d f xs ys a z g h b rest =
    rw (append_assoc xs ys rest, g b (ys ++ rest), h (b ++ xs) rest, append_assoc b xs ys) refl

-- What is computed from what was read.
pub Gets-map {ℓ κ} :
    {A : Type ℓ} {B : Type κ} (d : Op BufferView A) (f : A → B) (xs : List ℕ) (a : A) (z : B)
    → Gets d xs a
    → f a ≡ z
    → Gets (d >>= λ x. pure (f x)) xs z
Gets-map d f xs a z g e b rest = rw (g b rest, e) refl

-- A run of bytes, tested, copied and passed over.
pub Gets-copy :
    (k : ℕ) (bs : List ℕ)
    → k ≡ length bs
    → Gets
        (size >>= λ n.
          ensure (not (ltb n k)) ErrorCode.buffer_underflow
          >> (copy_out k >>= λ octets. skip k >> pure octets))
        bs
        bs
Gets-copy k bs e b rest =
    rw
      (
        e,
        ltb-false (length (bs ++ rest)) (length bs) (omega (arith, length-append bs rest)),
        leb-true (length bs) (length (bs ++ rest)) (omega (arith, length-append bs rest)),
        take-append bs rest,
        drop-append bs rest,
        leb-true (length bs) (length (bs ++ rest)) (omega (arith, length-append bs rest)),
      )
      refl
