-- ===== src/Buffer/Laws.antt =====
-- Steps of the view operations at views whose cells are known.
use asn1pp.Prelude.{
  ℕ, ◌≡◌, refl, List, ◌∷◌, ◌++◌, arith, leb-true, length, length-append, take-append, drop-append,
  get_elem?-append, append_assoc,
}
use asn1pp.Result.{ok, returns}
use asn1pp.Buffer.Defs.{view, peek, skip, rewind}

-- Skipping the bytes that stand in front.
pub skip-append :
    (b xs ys : List ℕ) → skip (length xs) (view b (xs ++ ys)) ≡ returns (ok tt) (view (b ++ xs) ys)
skip-append b xs ys =
    rw
      (
        leb-true (length xs) (length (xs ++ ys)) (omega (arith, length-append xs ys)),
        take-append xs ys,
        drop-append xs ys,
      )
      refl

pub skip-at :
    (k : ℕ) (b xs ys : List ℕ)
    → k ≡ length xs
    → skip k (view b (xs ++ ys)) ≡ returns (ok tt) (view (b ++ xs) ys)
skip-at k b xs ys e = rw e (skip-append b xs ys)

pub peek-append :
    (b xs ys : List ℕ) (y : ℕ)
    → peek (length xs) (view b (xs ++ y ∷ ys)) ≡ returns (ok y) (view b (xs ++ y ∷ ys))
peek-append b xs ys y = rw (get_elem?-append xs ys y, peek) refl

pub rewind-append : (b xs ys : List ℕ) → rewind (length b) (view (b ++ xs) ys) ≡ view b (xs ++ ys)
rewind-append b xs ys =
    rw (append_assoc b xs ys, take-append b (xs ++ ys), drop-append b (xs ++ ys)) refl
