-- ===== src/Buffer/Defs.antt =====
-- `buffer_view`: the memory in front of the pointer, and the bytes that the view covers.
use asn1pp.Prelude.{
  ℕ, ◌+◌, List, ◌++◌, none, some, if◌then◌else◌, leb, ltb, length, get_elem?, set, take, drop,
  overwrite,
}
use asn1pp.Result.{ok, Outcome, returns, fault, Op, ◌>>◌}

-- `data_` points behind `before`; `size_` is the length of `cells`.
pub record BufferView : Type 0 where
  pub before : List ℕ
  pub cells : List ℕ

abbrev pub view : List ℕ → List ℕ → BufferView
view b c = record { before = b; cells = c }

abbrev pub size : Op BufferView ℕ
size v = returns (ok (length v.cells)) v

-- `buf[i]`
abbrev pub peek : ℕ → Op BufferView ℕ
peek i v = elim (get_elem? v.cells i) [ none ↦ fault | some x ↦ returns (ok x) v ]

-- `out[i] = x` for `out` the data of the view
abbrev pub poke : ℕ → ℕ → Op BufferView (Unit {0})
poke i x v =
    if ltb i (length v.cells) then returns (ok tt) (view v.before (set v.cells i x)) else fault

-- `buf = buf.subview(n, buf.size() - n)`
abbrev pub skip : ℕ → Op BufferView (Unit {0})
skip n v =
    if leb n (length v.cells)
    then returns (ok tt) (view (v.before ++ take n v.cells) (drop n v.cells))
    else fault

-- `memcpy(dst, buf.data(), n)`
abbrev pub copy_out : ℕ → Op BufferView (List ℕ)
copy_out n v = if leb n (length v.cells) then returns (ok (take n v.cells)) v else fault

-- `memcpy(out + i, xs.data(), xs.size())`
abbrev pub copy_in : ℕ → List ℕ → Op BufferView (Unit {0})
copy_in i xs v =
    if leb (i + length xs) (length v.cells)
    then returns (ok tt) (view v.before (overwrite v.cells i xs))
    else fault

-- The view of the same memory that starts at the address `n`.
abbrev pub rewind : ℕ → BufferView → BufferView
rewind n v = view (take n (v.before ++ v.cells)) (drop n (v.before ++ v.cells))

abbrev settle {ℓ} : {A : Type ℓ} → ℕ → Outcome BufferView A → Outcome BufferView A
settle n (returns r v) = returns r (rewind n v)
settle n fault = fault

-- `buffer_view local(out + i, buf.size() - i); m(local)`: what `m` writes stays, and `buf` itself
-- does not move.
abbrev pub within {ℓ} : {A : Type ℓ} → ℕ → Op BufferView A → Op BufferView A
within i m v = settle (length v.before) ((skip i >> m) v)
