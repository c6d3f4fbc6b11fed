-- ===== src/Tlv/Length.antt =====
-- The length octets of tlv.hpp.
use asn1pp.Prelude.{
  ℕ, zero, suc, ◌+◌, ◌-◌, ◌*◌, ◌/◌, ◌%◌, ◌^◌, ◌≤◌, ◌<◌, ◌≡◌, refl, ap, ◌∙◌, false, List, [], ◌∷◌,
  ◌++◌, if◌then◌else◌, arith, leb, ltb, leb-true, leb-false, ltb-false, eqb-true, eqb-false, length,
  drop, set, overwrite, length-append, length-set, overwrite-set_last, overwrite-nil, big_endian,
  length-big_endian, fold_be, fold_be-big_endian, bit_and, bit_or, append_assoc, le_or_lt, inl, inr,
}
use asn1pp.Prelude.Bits.{and-ff, and-80, and-7f, or-fields}
use asn1pp.Result.{ok, returns, Op, ◌>>◌}
use asn1pp.Buffer.{BufferView, view, poke, skip, Emits}
use asn1pp.Buffer.{put_octet, skip-at, skip-overwrite, ensure_size-Emits, peek-at, poke-at}
use asn1pp.Tlv.Defs.{
  count_octets, encoded_length_size, put_length, put_short_length, put_long_length,
}
use asn1pp.Tlv.Defs.{encode_length, length_loop, decode_long_length, decode_length}

-- The number of bytes that a number below 2 ^ 64 needs.
unfoldable pub octet_count : ℕ → ℕ
octet_count n =
    if ltb n (2 ^ 8)
    then 1
    else if ltb n (2 ^ 16)
    then 2
    else if ltb n (2 ^ 24)
    then 3
    else if ltb n (2 ^ 32)
    then 4
    else if ltb n (2 ^ 40)
    then 5
    else if ltb n (2 ^ 48)
    then 6
    else if ltb n (2 ^ 56)
    then 7
    else 8

-- X.690 8.1.3: a length up to 127 is its own octet; any other follows a count of its octets.
unfoldable pub length_octets : ℕ → List ℕ
length_octets n = if leb n 127 then n ∷ [] else (128 + octet_count n) ∷ big_endian (octet_count n) n

octet_count-fits : (n : ℕ) → n < 2 ^ 64 → n < 256 ^ octet_count n
unfolding octet_count
octet_count-fits n h = ground arith

octet_count_bounds : (n : ℕ) → (1 ≤ octet_count n) × (octet_count n ≤ 8)
unfolding octet_count
octet_count_bounds n = ground arith

pub count_octets-eq : (n : ℕ) → 0 < n → n < 2 ^ 64 → count_octets 8 n 0 ≡ octet_count n
unfolding count_octets octet_count
count_octets-eq n p h = ground arith

written :
    (left val : ℕ) (c : List ℕ)
    → suc left < length c
    → overwrite (set c (1 + left) (bit_and val 0xff % 256)) 1 (big_endian left (val / 256))
      ≡ overwrite c 1 (big_endian (suc left) val)
written left val c h =
    ap (λ (x : ℕ). overwrite (set c (1 + left) x) 1 (big_endian left (val / 256))) low
    ∙ overwrite-set_last c (1 + left) 1 (big_endian left (val / 256)) (val % 256)
        (omega (arith, length-big_endian left (val / 256))) (omega arith)
  where
    low : bit_and val 0xff % 256 ≡ val % 256
    low = omega (arith, and-ff val)

-- The loop from the last length octet to the first.
put_length-overwrite :
    (left val : ℕ) (b c : List ℕ)
    → left < length c
    → put_length left val (view b c)
      ≡ returns (ok tt) (view b (overwrite c 1 (big_endian left val)))
unfolding put_length
put_length-overwrite zero val b c h = rw (overwrite-nil c 1) refl
put_length-overwrite (suc left) val b c h =
    rw
      (
        poke-at (1 + left) (bit_and val 0xff % 256) b c (omega arith),
        put_length-overwrite left (val / 256) b (set c (1 + left) (bit_and val 0xff % 256))
            (omega (arith, length-set c (1 + left) (bit_and val 0xff % 256))),
      )
      (ap (λ (l : List ℕ). returns (ok tt) (view b l)) (written left val c h))

put_short_length-Emits : (len : ℕ) → len ≤ 127 → Emits (put_short_length len) (len ∷ [])
unfolding put_short_length
put_short_length-Emits len h =
    ensure_size-Emits 1 (poke 0 (len % 256) >> skip 1) (len ∷ []) refl fits
  where
    low : len % 256 ≡ len
    low = omega arith

    fits :
        (b c : List ℕ)
        → 1 ≤ length c
        → (poke 0 (len % 256) >> skip 1) (view b c)
          ≡ returns (ok tt) (view (b ++ len ∷ []) (drop 1 c))
    fits b [] k = absurd (omega arith)
    fits b (y ∷ c) k = rw low (put_octet len y b c)

long_size : (len : ℕ) → 127 < len → len < 2 ^ 64 → encoded_length_size len - 1 ≡ octet_count len
unfolding encoded_length_size
long_size len h w = rw (leb-false len 127 h) (omega (arith, count_octets-eq len (omega arith) w))

first_octet : (k : ℕ) → k ≤ 8 → bit_or 0x80 k % 256 ≡ 128 + k
first_octet k h = omega (arith, or-fields 7 1 k (omega arith))

put_long_length-Emits :
    (len : ℕ)
    → 127 < len
    → len < 2 ^ 64
    → Emits (put_long_length len) ((128 + octet_count len) ∷ big_endian (octet_count len) len)
unfolding put_long_length
put_long_length-Emits len h w =
    rw (long_size len h w) (ensure_size-Emits (1 + k) body bs (omega (arith, sized)) fits)
  where
    k : ℕ
    k = octet_count len

    bs : List ℕ
    bs = (128 + k) ∷ big_endian k len

    body : Op BufferView (Unit {0})
    body = poke 0 (bit_or 0x80 k % 256) >> (put_length k len >> skip (1 + k))

    sized : 1 + k ≡ 1 + length (big_endian k len)
    sized = omega (arith, length-big_endian k len)

    fits :
        (b c : List ℕ)
        → length bs ≤ length c
        → body (view b c) ≡ returns (ok tt) (view (b ++ bs) (drop (length bs) c))
    fits b [] l = absurd (omega arith)
    fits b (y ∷ c) l =
        rw
          (
            first_octet k (octet_count_bounds len).1,
            poke-at 0 (128 + k) b (y ∷ c) (omega arith),
            put_length-overwrite k len b ((128 + k) ∷ c) (omega (arith, length-big_endian k len)),
          )
          (skip-overwrite (1 + k) (128 + k) b c (big_endian k len) sized (omega arith))

length_loop-fold :
    (left i acc : ℕ) (b pre xs rest : List ℕ)
    → length pre ≡ 1 + i
    → length xs ≡ left
    → length_loop left i acc (view b (pre ++ (xs ++ rest)))
      ≡ returns (ok (fold_be acc xs)) (view b (pre ++ (xs ++ rest)))
unfolding length_loop
length_loop-fold zero i acc b pre [] rest e l = refl
length_loop-fold zero i acc b pre (x ∷ xs) rest e l = absurd (omega arith)
length_loop-fold (suc left) i acc b pre [] rest e l = absurd (omega arith)
length_loop-fold (suc left) i acc b pre (x ∷ xs) rest e l =
    rw (peek-at (1 + i) b pre (xs ++ rest) x (omega arith)) (
      rw (append_assoc pre (x ∷ []) (xs ++ rest)) at (
        length_loop-fold left (i + 1) (bit_or (acc * 2 ^ 8 % 2 ^ 64) x) b (pre ++ x ∷ []) xs rest
          (omega (arith, length-append pre (x ∷ []))) (omega arith)))

-- `encode_length`, for a length below 2 ^ 64, writes the length octets of the definite form, or
-- answers `buffer_overflow` where they do not fit and writes nothing.
pub encode_length-Emits :
    (len : ℕ) → len < 2 ^ 64 → Emits (encode_length len false) (length_octets len)
unfolding encode_length length_octets
encode_length-Emits len w = elim (le_or_lt len 127) [
  | inl h ↦ rw (leb-true len 127 h) (put_short_length-Emits len h)
  | inr h ↦ rw (leb-false len 127 h) (put_long_length-Emits len h w)
]

decode_long_length-octets :
    (k : ℕ) (b bs rest : List ℕ) (x : ℕ)
    → length bs ≡ k
    → 1 ≤ k
    → k ≤ 8
    → decode_long_length k (view b (x ∷ (bs ++ rest)))
      ≡ returns (ok (fold_be 0 bs)) (view (b ++ x ∷ bs) rest)
unfolding decode_long_length
decode_long_length-octets k b bs rest x e lo hi =
    rw
      (
        eqb-false k 0 (omega arith),
        eqb-false k 0x7f (omega arith),
        ltb-false (suc (length (bs ++ rest))) (1 + k) (omega (arith, length-append bs rest)),
        ltb-false 8 k hi,
        length_loop-fold k 0 0 b (x ∷ []) bs rest (omega arith) e,
        skip-at (1 + k) b (x ∷ bs) rest (omega arith),
      )
      refl

-- `decode_length` reads the length octets of the definite form for a length below 2 ^ 64,
-- whatever follows them, and stops behind them.
pub decode_length-octets :
    (len : ℕ) (b rest : List ℕ)
    → len < 2 ^ 64
    → decode_length (view b (length_octets len ++ rest))
      ≡ returns (ok len) (view (b ++ length_octets len) rest)
unfolding decode_length length_octets
decode_length-octets len b rest w = elim (le_or_lt len 127) [
  | inl h ↦
      rw
        (
          leb-true len 127 h,
          eqb-false (suc (length rest)) 0 (omega arith),
          eqb-false len 0x80 (omega arith),
          eqb-true (bit_and len 0x80) 0 (omega (arith, and-80 len (omega arith))),
          skip-at 1 b (len ∷ []) rest refl,
        )
        refl
  | inr h ↦
      rw
        (
          leb-false len 127 h,
          eqb-false (suc (length (big_endian k len ++ rest))) 0 (omega arith),
          eqb-false (128 + k) 0x80 (omega (arith, octet_count_bounds len)),
          eqb-false (bit_and (128 + k) 0x80) 0 (
              omega (
                arith,
                octet_count_bounds len,
                and-80 (128 + k) (omega (arith, octet_count_bounds len)),
              )),
          low k (octet_count_bounds len).1,
          decode_long_length-octets k b (big_endian k len) rest (128 + k) (length-big_endian k len)
              (octet_count_bounds len).0 (octet_count_bounds len).1,
          fold_be-big_endian k len (octet_count-fits len w) w,
        )
        refl
]
  where
    k : ℕ
    k = octet_count len

    low : (j : ℕ) → j ≤ 8 → bit_and (128 + j) 0x7f ≡ j
    low j h = omega (arith, and-7f (128 + j))
