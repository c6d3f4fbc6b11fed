-- ===== src/Buffer/Writing.antt =====
-- What it is to write a run of bytes through a view.
use asn1pp.Prelude.{
  ℕ, suc, ◌+◌, ◌≤◌, ◌<◌, ◌≡◌, refl, ap, ◌∙◌, not, inl, inr, List, [], ◌∷◌, ◌++◌, if◌then◌else◌,
  arith, ltb, ltb-true, eqb-false, overwrite-append, length-drop, drop-drop, ◌==◌, ltb-false,
  leb-true, length, drop, set, overwrite, length-append, take-append, drop-append, append_assoc,
  le_or_lt, get_elem?-append,
}
use asn1pp.ErrorCode.{ErrorCode}
use asn1pp.Result.{ok, err, Outcome, returns, Op, pure, ensure, ◌>>◌}
use asn1pp.Buffer.Defs.{BufferView, view, peek, poke, skip, copy_in, rewind, within}
use asn1pp.Buffer.Laws.{skip-append, rewind-append}

-- The bytes go to the front of the view, which moves behind them; where they do not fit, nothing
-- is written and the view stays.
abbrev pub emitted : List ℕ → BufferView → Outcome BufferView (Unit {0})
emitted bs v =
    if ltb (length v.cells) (length bs)
    then returns (err ErrorCode.buffer_overflow) v
    else returns (ok tt) (view (v.before ++ bs) (drop (length bs) v.cells))

-- `m` writes exactly the bytes `bs`, or answers `buffer_overflow`.
abbrev pub Emits : Op BufferView (Unit {0}) → List ℕ → Type 0
Emits m bs = (v : BufferView) → m v ≡ emitted bs v

pub emitted_fits :
    (bs b c : List ℕ)
    → length bs ≤ length c
    → emitted bs (view b c) ≡ returns (ok tt) (view (b ++ bs) (drop (length bs) c))
emitted_fits bs b c h = rw (ltb-false (length c) (length bs) h) refl

pub emitted_short :
    (bs b c : List ℕ)
    → length c < length bs
    → emitted bs (view b c) ≡ returns (err ErrorCode.buffer_overflow) (view b c)
emitted_short bs b c h = rw (ltb-true (length c) (length bs) h) refl

pub peek-at :
    (k : ℕ) (b xs ys : List ℕ) (y : ℕ)
    → k ≡ length xs
    → peek k (view b (xs ++ y ∷ ys)) ≡ returns (ok y) (view b (xs ++ y ∷ ys))
peek-at k b xs ys y e = rw (e, get_elem?-append xs ys y, peek) refl

pub poke-at :
    (k x : ℕ) (b c : List ℕ)
    → k < length c
    → poke k x (view b c) ≡ returns (ok tt) (view b (set c k x))
poke-at k x b c h = rw (ltb-true k (length c) h) refl

settled :
    (b pre bs d : List ℕ) → rewind (length b) (view (b ++ pre ++ bs) d) ≡ view b (pre ++ (bs ++ d))
settled b pre bs d =
    ap (λ (l : List ℕ). rewind (length b) (view l d)) (append_assoc b pre bs)
    ∙ rewind-append b (pre ++ bs) d
    ∙ ap (view b) (append_assoc pre bs d)

-- A local view at `pre`, through which `bs` is written.
pub within-Emits :
    (m : Op BufferView (Unit {0})) (bs : List ℕ)
    → Emits m bs
    → (k : ℕ) (b pre c : List ℕ) → k ≡ length pre
    → length bs ≤ length c
    → within k m (view b (pre ++ c)) ≡ returns (ok tt) (view b (pre ++ (bs ++ drop (length bs) c)))
within-Emits m bs w k b pre c e h =
    rw
      (
        e,
        leb-true (length pre) (length (pre ++ c)) (omega (arith, length-append pre c)),
        take-append pre c,
        drop-append pre c,
        w (view (b ++ pre) c),
        ltb-false (length c) (length bs) h,
      )
      (ap (λ (u : BufferView). returns (ok tt) u) (settled b pre bs (drop (length bs) c)))

-- A view over a cell at least: one octet written in front.
pub put_octet :
    (x y : ℕ) (b c : List ℕ)
    → (poke 0 x >> skip 1) (view b (y ∷ c)) ≡ returns (ok tt) (view (b ++ x ∷ []) c)
put_octet x y b c =
    rw (ltb-true 0 (suc (length c)) (omega arith), leb-true 1 (suc (length c)) (omega arith)) refl

-- A first octet and a run behind it, written in any order, and then passed over.
pub skip-overwrite :
    (k x : ℕ) (b c bs : List ℕ)
    → k ≡ 1 + length bs
    → length bs ≤ length c
    → skip k (view b (overwrite (x ∷ c) 1 bs))
      ≡ returns (ok tt) (view (b ++ x ∷ bs) (drop (length bs) c))
skip-overwrite k x b c bs e h = rw (e1) (skip-append b (x ∷ bs) (drop (length bs) c))
  where
    e1 : k ≡ suc (length bs)
    e1 = omega arith

-- `if (buf.size() < n) return err(buffer_overflow);`, in front of a body that writes `bs`.
pub ensure_size-Emits :
    (n : ℕ) (m : Op BufferView (Unit {0})) (bs : List ℕ)
    → n ≡ length bs
    → ((b c : List ℕ)
        → length bs ≤ length c
        → m (view b c) ≡ returns (ok tt) (view (b ++ bs) (drop (length bs) c)))
    → (v : BufferView)
    → (ensure (not (ltb (length v.cells) n)) ErrorCode.buffer_overflow >> m) v ≡ emitted bs v
ensure_size-Emits n m bs e w v = elim (le_or_lt (length bs) (length v.cells)) [
  | inl fits ↦ rw (e, ltb-false (length v.cells) (length bs) fits) (w v.before v.cells fits)
  | inr short ↦ rw (e, ltb-true (length v.cells) (length bs) short) refl
]

-- `memcpy` behind `pre`, guarded against an empty source.
pub copy_in-at :
    (k : ℕ) (b pre c xs : List ℕ)
    → k ≡ length pre
    → length xs ≤ length c
    → (if not (length xs == 0) then copy_in k xs else pure tt) (view b (pre ++ c))
      ≡ returns (ok tt) (view b (pre ++ (xs ++ drop (length xs) c)))
copy_in-at k b pre c [] e h = refl
copy_in-at k b pre c (x ∷ xs) e h =
    rw
      (
        eqb-false (suc (length xs)) 0 (omega arith),
        e,
        leb-true (length pre + suc (length xs)) (length (pre ++ c))
            (omega (arith, length-append pre c)),
        overwrite-append pre c (x ∷ xs),
      )
      refl

-- `m` writes the bytes `bs` wherever they fit.
abbrev pub Puts : Op BufferView (Unit {0}) → List ℕ → Type 0
Puts m bs =
    (b c : List ℕ)
    → length bs ≤ length c
    → m (view b c) ≡ returns (ok tt) (view (b ++ bs) (drop (length bs) c))

-- What is written wherever it fits and is refused elsewhere.
pub Puts-Emits : (m : Op BufferView (Unit {0})) (bs : List ℕ) → Emits m bs → Puts m bs
Puts-Emits m bs e b c h = e (view b c) ∙ emitted_fits bs b c h

pub Puts-then :
    (m n : Op BufferView (Unit {0})) (xs ys : List ℕ)
    → Puts m xs
    → Puts n ys
    → Puts (m >> n) (xs ++ ys)
Puts-then m n xs ys p q b c h =
    rw
      (
        p b c (omega (arith, length-append xs ys)),
        q (b ++ xs) (drop (length xs) c)
            (omega (arith, length-append xs ys, length-drop (length xs) c)),
        append_assoc b xs ys,
        drop-drop (length xs) (length ys) c,
        length-append xs ys,
      )
      refl

-- A run copied to the front, and passed over.
pub Puts-copy : (k : ℕ) (bs : List ℕ) → k ≡ length bs → Puts (copy_in 0 bs >> skip k) bs
Puts-copy k bs e b c h =
    rw (e, leb-true (0 + length bs) (length c) (omega arith))
      (skip-append b bs (drop (length bs) c))

-- A write whose size was compared with the room before.
pub Puts-ensure :
    (n : ℕ) (m : Op BufferView (Unit {0})) (bs : List ℕ)
    → n ≤ length bs
    → Puts m bs
    → Puts (λ v. (ensure (not (ltb (length v.cells) n)) ErrorCode.buffer_overflow >> m) v) bs
Puts-ensure n m bs e p b c h = rw (ltb-false (length c) n (omega arith)) (p b c h)
