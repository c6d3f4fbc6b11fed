-- ===== src/Buffer/Transfer.antt =====
-- A value through a buffer: written at a place and read back from there.
use asn1pp.Prelude.{ℕ, ◌≤◌, ◌≡◌, ap, ◌∙◌, List, ◌++◌, length, drop}
use asn1pp.Result.{ok, returns, Op}
use asn1pp.Buffer.Defs.{BufferView, view, rewind}
use asn1pp.Buffer.Laws.{rewind-append}
use asn1pp.Buffer.Writing.{Puts}
use asn1pp.Buffer.Reading.{Gets}

-- Through the view of `c` behind `b`, `m` succeeds, and `d`, started where `m` was, answers `a` and
-- ends where `m` ended.
abbrev pub Carried {ℓ} :
    {A : Type ℓ} → Op BufferView (Unit {0}) → Op BufferView A → A → List ℕ → List ℕ → Type ℓ
Carried m d a b c =
    (w : BufferView) × (m (view b c) ≡ returns (ok tt) w)
    × (d (rewind (length b) w) ≡ returns (ok a) w)

pub Puts-Carried {ℓ} :
    {A : Type ℓ} (bs : List ℕ) (m : Op BufferView (Unit {0})) (d : Op BufferView A) (a : A)
    → Puts m bs
    → Gets d bs a
    → (b c : List ℕ) → length bs ≤ length c
    → Carried m d a b c
Puts-Carried bs m d a p g b c h = (
  view (b ++ bs) (drop (length bs) c),
  p b c h,
  ap d (rewind-append b bs (drop (length bs) c)) ∙ g b (drop (length bs) c),
)
