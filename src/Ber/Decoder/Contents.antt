-- ===== src/Ber/Decoder/Contents.antt =====
-- libs/codec/ber/ber_decoder.cpp: what the checks in front of an integer's contents establish.
use asn1pp.Prelude.{
  ℕ, zero, suc, ◌≤◌, ◌≡◌, refl, Bool, true, false, not, List, [], ◌∷◌, arith, ltb, ◌==◌, leb-true,
  length, take, drop, All, IsByte, not-ltb, length-take_fits,
}
use asn1pp.ErrorCode.{ErrorCode, invalid_length, buffer_underflow, value_out_of_range}
use asn1pp.Result.{Result, ok, err, Outcome, returns, fault, Op, ensure, ◌>>=◌, ◌>>◌, pure}
use asn1pp.Buffer.{BufferView, size, skip, copy_out, moved}
use asn1pp.Traits.{Tag}
use asn1pp.Ber.Decoder.{take_integer}
use asn1pp.Ber.Decoder.Safety.{expect-Reads}

-- One to eight bytes.
abbrev pub IsContents : List ℕ → Type 0
IsContents bytes = All IsByte bytes × (1 ≤ length bytes) × (length bytes ≤ 8)

-- The answer of `o`, if it has one, has the property.
abbrev pub Yields {ℓ κ} : {A : Type ℓ} → (A → Type κ) → Outcome BufferView A → Type κ
Yields P (returns (ok a) v) = P a
Yields P (returns (err e) v) = Unit
Yields P fault = Unit

Yields-ensure {ℓ κ} :
    {A : Type ℓ} (P : A → Type κ) (b : Bool) (e : ErrorCode) (m : Op BufferView A) (v : BufferView)
    → (b ≡ true → Yields P (m v))
    → Yields P ((ensure b e >> m) v)
Yields-ensure P true e m v f = f refl
Yields-ensure P false e m v f = tt

All-take : (n : ℕ) (xs : List ℕ) → All IsByte xs → All IsByte (take n xs)
All-take zero xs h = tt
All-take (suc n) [] h = tt
All-take (suc n) (x ∷ xs) h = (h.0, All-take n xs h.1)

All-drop : (n : ℕ) (xs : List ℕ) → All IsByte xs → All IsByte (drop n xs)
All-drop zero xs h = h
All-drop (suc n) [] h = tt
All-drop (suc n) (x ∷ xs) h = All-drop n xs h.1

-- The bytes that are copied, behind the checks of their count.
contents :
    (n : ℕ) (v : BufferView)
    → All IsByte v.cells
    → Yields IsContents (
        (ensure (not (n == 0)) invalid_length
            >> (size >>= λ have.
                ensure (not (ltb have n)) buffer_underflow
                >> (ensure (not (ltb 8 n)) value_out_of_range
                    >> (copy_out n >>= λ bytes. skip n >> pure bytes))))
          v)
contents n v all = Yields-ensure IsContents (not (n == 0)) invalid_length third v λ p.
    Yields-ensure IsContents (not (ltb (length v.cells) n)) buffer_underflow second v λ q.
      Yields-ensure IsContents (not (ltb 8 n)) value_out_of_range first v λ r.
        let fits : n ≤ length v.cells = not-ltb (length v.cells) n q in
        let at_most : n ≤ 8 = not-ltb 8 n r in
        let at_least : 1 ≤ n = positive n p in
        let sized : length (take n v.cells) ≡ n = length-take_fits n v.cells fits in
        rw (leb-true n (length v.cells) fits)
          (rw (leb-true n (length v.cells) fits) (All-take n v.cells all, omega arith, omega arith))
  where
    positive : (n : ℕ) → not (n == 0) ≡ true → 1 ≤ n
    positive n p = ground arith

    first : Op BufferView (List ℕ)
    first = copy_out n >>= λ bytes. skip n >> pure bytes

    second : Op BufferView (List ℕ)
    second = ensure (not (ltb 8 n)) value_out_of_range >> first

    third : Op BufferView (List ℕ)
    third = size >>= λ have. ensure (not (ltb have n)) buffer_underflow >> second

-- The contents that `take_integer` reads out of bytes are one to eight bytes.
pub take_integer-IsContents :
    (t : Tag) (v : BufferView) → All IsByte v.cells → Yields IsContents (take_integer t v)
unfolding take_integer
take_integer-IsContents t v all =
    let m = expect-Reads t v in rw m.returned (behind m.result m.consumed)
  where
    behind :
        (r : Result ℕ) (k : ℕ)
        → Yields IsContents (
            ((λ (_ : BufferView). returns r (moved k v)) >>= λ n.
            ensure (not (n == 0)) invalid_length
            >> (size >>= λ have.
                ensure (not (ltb have n)) buffer_underflow
                >> (ensure (not (ltb 8 n)) value_out_of_range
                    >> (copy_out n >>= λ bytes. skip n >> pure bytes))))
              v)
    behind (ok n) k = contents n (moved k v) (All-drop k v.cells all)
    behind (err e) k = tt
