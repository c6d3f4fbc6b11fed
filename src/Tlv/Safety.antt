-- ===== src/Tlv/Safety.antt =====
-- The decoders of tlv.hpp on any bytes at all.
use asn1pp.Prelude.{
  ℕ, zero, suc, ◌+◌, ◌-◌, ◌*◌, ◌%◌, ◌^◌, ◌≤◌, ◌<◌, ◌≡◌, refl, Bool, true, false, not, ◌&&◌, List,
  [], ◌∷◌, some, if◌then◌else◌, arith, ltb, ◌==◌, length, get_elem?, bit_and, bit_or, inl, inr,
  Bool-cases, le_or_lt, not-ltb, eqb-true, eqb-false, eqb-false,
}
use asn1pp.ErrorCode.{ErrorCode, buffer_underflow, invalid_length, invalid_tag}
use asn1pp.Result.{Result, ok, err, returns, Op, ◌>>=◌, ◌>>◌, ensure, pure}
use asn1pp.Buffer.{
  BufferView, peek, skip, Moved, Reads, Moved-stay, Moved-stays, Moved-skip, Moved-bind,
  Moved-ensure, Moved-if,
}
use asn1pp.Traits.{Tag, TagClass}
use asn1pp.Tlv.Defs.{
  tag_loop, check_last, decode_long_tag, decode_tag, length_loop, decode_long_length, decode_length,
  decode_tlv_header,
}

get_elem?-some : (xs : List ℕ) (i : ℕ) → i < length xs → (x : ℕ) × (get_elem? xs i ≡ some x)
get_elem?-some [] i h = absurd (omega arith)
get_elem?-some (x ∷ xs) zero h = (x, refl)
get_elem?-some (x ∷ xs) (suc i) h = get_elem?-some xs i (omega arith)

-- A read inside the view.
pub peek_inside :
    (i : ℕ) (v : BufferView) → i < length v.cells → (x : ℕ) × (peek i v ≡ returns (ok x) v)
peek_inside i v h = let (x, e) = get_elem?-some v.cells i h in (x, rw (e, peek) refl)

-- The loop stays inside the view and leaves it where it is.
tag_loop_inside :
    (left consumed number : ℕ) (v : BufferView)
    → consumed + left ≡ length v.cells
    → (p : ℕ × ℕ) × (tag_loop left consumed number v ≡ returns (ok p) v)
      × (consumed ≤ p.0)
      × (p.0 ≤ length v.cells)
unfolding tag_loop
tag_loop_inside zero consumed number v e = ((consumed, number), refl, omega arith, omega arith)
tag_loop_inside (suc left) consumed number v e =
    let (x, q) = peek_inside consumed v (omega arith) in
    let number' : ℕ = bit_or (number * 2 ^ 7 % 2 ^ 32) (bit_and x 0x7f) in
    let (p, r, lo, hi) = tag_loop_inside left (consumed + 1) number' v (omega arith) in
    rw q (elim (Bool-cases (bit_and x 0x80 == 0)) [
      | inl t ↦ rw t ((consumed + 1, number'), refl, omega arith, omega arith)
      | inr t ↦ rw t (p, r, omega arith, hi)
    ])

stays-ensure :
    (b : Bool) (e : ErrorCode) (v : BufferView)
    → (r : Result (Unit {0})) × (ensure b e v ≡ returns r v)
stays-ensure true e v = (ok tt, refl)
stays-ensure false e v = (err e, refl)

check_last_stays :
    (consumed : ℕ) (v : BufferView)
    → 1 ≤ consumed
    → consumed ≤ length v.cells
    → (r : Result (Unit {0})) × (check_last consumed v ≡ returns r v)
check_last_stays consumed v lo hi =
    let (x, e) = peek_inside (consumed - 1) v (omega arith) in
    rw e (stays-ensure (bit_and x 0x80 == 0) buffer_underflow v)

maybe_stays :
    (b : Bool) (m n : Op BufferView (Unit {0})) (v : BufferView)
    → (r : Result (Unit {0})) × (m v ≡ returns r v)
    → (r : Result (Unit {0})) × (n v ≡ returns r v)
    → (r : Result (Unit {0})) × ((if b then m else n) v ≡ returns r v)
maybe_stays true m n v p q = p
maybe_stays false m n v p q = q

-- A return behind `k` bytes.
pub skip_reads {ℓ} :
    {A : Type ℓ} (k : ℕ) (a : A) (v : BufferView)
    → k ≤ length v.cells
    → Moved v ((skip k >> pure a) v)
skip_reads k a v h =
    Moved-bind (skip k) (λ _. pure a) v (Moved-skip k v h) (λ _ u. Moved-stay (ok a) u)

decode_long_tag-Reads :
    (cls : TagClass) (f : Bool) (v : BufferView)
    → 1 ≤ length v.cells
    → Moved v (decode_long_tag cls f v)
unfolding decode_long_tag
decode_long_tag-Reads cls f v h =
    let ((consumed, number), e, lo, hi) =
      tag_loop_inside (length v.cells - 1) 1 0 v (omega arith) in
    let n : ℕ = length v.cells in
    let last = if consumed == n && ltb 1 n then check_last consumed else pure tt in
    let t : Tag = record { cls = cls; constructed = f; number = number } in
    let (r, s) =
      maybe_stays (consumed == n && ltb 1 n) (check_last consumed) (pure tt) v
        (check_last_stays consumed v lo hi) (ok tt, refl) in
    rw e (
      Moved-ensure (not (consumed == n && consumed == 1)) invalid_tag
        (last >> (skip consumed >> pure t)) v
        (λ _.
          Moved-stays r last (λ _. skip consumed >> pure t) v s
            (λ _ _. skip_reads consumed t v hi)))

-- `decode_tag` returns on every input. It reads no byte outside the view, writes none, and
-- leaves the view behind bytes that it covered.
pub decode_tag-Reads : Reads decode_tag
unfolding decode_tag
decode_tag-Reads v = elim (le_or_lt (length v.cells) 0) [
  | inl none_left ↦
      rw (eqb-true (length v.cells) 0 (omega arith)) (Moved-stay (err buffer_underflow) v)
  | inr some_left ↦
      let (x, e) = peek_inside 0 v some_left in
      rw (eqb-false (length v.cells) 0 (omega arith), e)
        (Moved-if (not (bit_and x 0x1f == 0x1f)) _ _ v (λ _. skip_reads 1 _ v some_left)
          (λ _. decode_long_tag-Reads _ _ v some_left))
]

length_loop_inside :
    (left i acc : ℕ) (v : BufferView)
    → 1 + i + left ≤ length v.cells
    → (n : ℕ) × (length_loop left i acc v ≡ returns (ok n) v)
unfolding length_loop
length_loop_inside zero i acc v h = (acc, refl)
length_loop_inside (suc left) i acc v h =
    let (x, e) = peek_inside (1 + i) v (omega arith) in
    rw e (length_loop_inside left (i + 1) (bit_or (acc * 2 ^ 8 % 2 ^ 64) x) v (omega arith))

decode_long_length-Reads : (k : ℕ) → Reads (decode_long_length k)
unfolding decode_long_length
decode_long_length-Reads k v = Moved-ensure (not (k == 0)) invalid_length third v λ _.
    Moved-ensure (not (k == 0x7f)) invalid_length second v λ _.
      Moved-ensure (not (ltb (length v.cells) (1 + k))) buffer_underflow first v λ t.
        Moved-ensure (not (ltb 8 k)) invalid_length body v λ _.
          let fits : 1 + k ≤ length v.cells = not-ltb (length v.cells) (1 + k) t in
          let (n, e) = length_loop_inside k 0 0 v (omega arith) in
          rw e (skip_reads (1 + k) n v fits)
  where
    body : Op BufferView ℕ
    body = length_loop k 0 0 >>= λ len. skip (1 + k) >> pure len

    first : Op BufferView ℕ
    first = ensure (not (ltb 8 k)) invalid_length >> body

    second : Op BufferView ℕ
    second = ensure (not (ltb (length v.cells) (1 + k))) buffer_underflow >> first

    third : Op BufferView ℕ
    third = ensure (not (k == 0x7f)) invalid_length >> second

-- `decode_length` returns on every input. It reads no byte outside the view, writes none, and
-- leaves the view behind bytes that it covered.
pub decode_length-Reads : Reads decode_length
unfolding decode_length
decode_length-Reads v = elim (le_or_lt (length v.cells) 0) [
  | inl none_left ↦
      rw (eqb-true (length v.cells) 0 (omega arith)) (Moved-stay (err buffer_underflow) v)
  | inr some_left ↦
      let (x, e) = peek_inside 0 v some_left in
      rw (eqb-false (length v.cells) 0 (omega arith), e)
        (Moved-if (x == 0x80) _ _ v (λ _. skip_reads 1 0x80 v some_left)
          (λ _.
            Moved-if (bit_and x 0x80 == 0) _ _ v (λ _. skip_reads 1 x v some_left)
              (λ _. decode_long_length-Reads (bit_and x 0x7f) v)))
]

-- So does `decode_tlv_header`.
pub decode_tlv_header-Reads : Reads decode_tlv_header
unfolding decode_tlv_header
decode_tlv_header-Reads v =
    Moved-bind decode_tag (λ t. decode_length >>= rest t) v (decode_tag-Reads v)
      λ t u. Moved-bind decode_length (rest t) u (decode_length-Reads u) λ n w.
        Moved-ensure (not (not (n == 0x80) && ltb (length w.cells) n)) buffer_underflow
          (pure (t, n)) w (λ _. Moved-stay (ok (t, n)) w)
  where
    rest : Tag → ℕ → Op BufferView (Tag × ℕ)
    rest t n u =
        (ensure (not (not (n == 0x80) && ltb (length u.cells) n)) buffer_underflow >> pure (t, n)) u
