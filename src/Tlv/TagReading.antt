-- ===== src/Tlv/TagReading.antt =====
-- `decode_tag` of tlv.hpp on the octets that `encode_tag` writes.
use asn1pp.Prelude.{
  ℕ, zero, suc, ◌+◌, ◌-◌, ◌*◌, ◌/◌, ◌%◌, ◌^◌, ◌≤◌, ◌<◌, ◌≡◌, refl, sym, ap, ◌∙◌, Bool, true, false,
  not, ◌&&◌, List, [], ◌∷◌, ◌++◌, some, if◌then◌else◌, arith, ltb, ◌==◌, leb-true, leb-false,
  ltb-true, eqb-true, eqb-false, length, get_elem?, length-append, bit_and, bit_or, append_assoc,
  le_or_lt, inl, inr, and-false,
}
use asn1pp.Prelude.Bits.{and-7f, and-80, and-c0, and-20, and-1f, or-fields, two-pow-pos}
use asn1pp.Result.{ok, returns, pure, if_same}
use asn1pp.Buffer.{BufferView, view, skip-at, peek-at}
use asn1pp.Traits.{Tag, TagClass, class_code, class_of}
use asn1pp.Tlv.Defs.{tag_loop, check_last, decode_long_tag, decode_tag}
use asn1pp.Tlv.Identifier.{group_count, groups, first_octet, identifier_octets, group_count_bounds}
use asn1pp.Tlv.Identifier.{group_count-fits, length-groups, class_code-lt}
use native.Mathlib.Nat.{div-div-eq-div-mul, div-eq_of_lt}
use native.Mathlib.Numerals.{towards_suc}

pow_seven : (k : ℕ) → 2 ^ (suc k * 7) ≡ 128 * 2 ^ (k * 7)
pow_seven k = ap (λ (e : ℕ). 2 ^ e) split ∙ simp towards_suc (omega arith)
  where
    split : suc k * 7 ≡ k * 7 + 7
    split = omega arith

div_digit : (n p : ℕ) → 0 < p → n / (128 * p) * 128 + n / p % 128 ≡ n / p
div_digit n p h = omega (arith, div-div-eq-div-mul n p 128, ap (λ (x : ℕ). n / x) swapped)
  where
    swapped : p * 128 ≡ 128 * p
    swapped = omega arith

div_le : (n p : ℕ) → n / p ≤ n
div_le n p = grind arith

next_number :
    (acc k n byte : ℕ)
    → n < 2 ^ 32
    → acc ≡ n / 2 ^ (suc k * 7)
    → byte % 128 ≡ n / 2 ^ (k * 7) % 128
    → bit_or (acc * 2 ^ 7 % 2 ^ 32) (bit_and byte 0x7f) ≡ n / 2 ^ (k * 7)
next_number acc k n byte w e d =
    ap (λ (x : ℕ). bit_or (acc * 2 ^ 7 % 2 ^ 32) x) (and-7f byte)
    ∙ ap (λ (x : ℕ). bit_or x (byte % 128)) kept
    ∙ or-fields 7 acc (byte % 128) (omega arith)
    ∙ omega (arith, d, e', digits)
  where
    digits : n / (128 * 2 ^ (k * 7)) * 128 + n / 2 ^ (k * 7) % 128 ≡ n / 2 ^ (k * 7)
    digits = div_digit n (2 ^ (k * 7)) (two-pow-pos (k * 7))

    e' : acc ≡ n / (128 * 2 ^ (k * 7))
    e' = e ∙ ap (λ (x : ℕ). n / x) (pow_seven k)

    kept : acc * 2 ^ 7 % 2 ^ 32 ≡ acc * 2 ^ 7
    kept = omega (arith, digits, e', div_le n (2 ^ (k * 7)))

-- One continuation byte.
group_low :
    (k n : ℕ) → (n / 2 ^ (k * 7) % 128 + (if ltb 0 k then 128 else 0)) % 128 ≡ n / 2 ^ (k * 7) % 128
group_low k n = ground arith

more_bit : (d : ℕ) → d < 128 → bit_and (d + 128) 0x80 ≡ 128
more_bit d h = omega (arith, and-80 (d + 128) (omega arith))

last_bit : (d : ℕ) → d < 128 → bit_and (d + 0) 0x80 ≡ 0
last_bit d h = omega (arith, and-80 (d + 0) (omega arith))

module _ (n : ℕ) (fits : n < 2 ^ 32) where
  tag_loop-groups :
      (k left consumed acc : ℕ) (b pre rest : List ℕ)
      → left ≡ suc k + length rest
      → consumed ≡ length pre
      → acc ≡ n / 2 ^ (suc k * 7)
      → tag_loop left consumed acc (view b (pre ++ (groups (suc k) n ++ rest)))
        ≡ returns (ok (consumed + suc k, n)) (view b (pre ++ (groups (suc k) n ++ rest)))
  unfolding tag_loop groups
  tag_loop-groups k zero consumed acc b pre rest l c e = absurd (omega arith)
  tag_loop-groups zero (suc left) consumed acc b pre rest l c e =
      rw
        (
          peek-at consumed b pre rest (n / 2 ^ (0 * 7) % 128 + 0) c,
          last_bit (n / 2 ^ (0 * 7) % 128) (omega arith),
        )
        (ap (λ (x : ℕ). returns (ok (consumed + 1, x)) (view b (pre ++ (groups 1 n ++ rest))))
          (next_number acc 0 n (n / 2 ^ (0 * 7) % 128 + 0) fits e (omega arith) ∙ omega arith))
  tag_loop-groups (suc k) (suc left) consumed acc b pre rest l c e =
      rw
        (
          ltb-true 0 (suc k) (omega arith),
          peek-at consumed b pre (groups (suc k) n ++ rest) (n / 2 ^ (suc k * 7) % 128 + 128) c,
          more_bit (n / 2 ^ (suc k * 7) % 128) (omega arith),
        )
        (rw (append_assoc pre (byte ∷ []) (groups (suc k) n ++ rest), counted) at
          (tag_loop-groups k left (consumed + 1) (bit_or (acc * 2 ^ 7 % 2 ^ 32) (bit_and byte 0x7f))
            b (pre ++ byte ∷ []) rest (omega arith) (omega (arith, length-append pre (byte ∷ [])))
            (next_number acc (suc k) n byte fits e (omega arith))))
    where
      byte : ℕ
      byte = n / 2 ^ (suc k * 7) % 128 + 128

      counted : consumed + 1 + suc k ≡ consumed + suc (suc k)
      counted = omega arith

class_of-code : (c : TagClass) → class_of (class_code c) ≡ c
class_of-code TagClass.universal = refl
class_of-code TagClass.application = refl
class_of-code TagClass.context_specific = refl
class_of-code TagClass.private_class = refl

top_bits : (c f low : ℕ) → c < 4 → f ≤ 32 → low < 32 → bit_and (c * 64 + f + low) 0xc0 / 2 ^ 6 ≡ c
top_bits c f low hc hf hl = omega (arith, and-c0 (c * 64 + f + low) (omega arith))

octet_class :
    (c : TagClass) (f : Bool) (low : ℕ)
    → low < 32
    → class_of (bit_and (class_code c * 64 + (if f then 32 else 0) + low) 0xc0 / 2 ^ 6) ≡ c
octet_class c true low h =
    ap class_of (top_bits (class_code c) 32 low (class_code-lt c) (omega arith) h) ∙ class_of-code c
octet_class c false low h =
    ap class_of (top_bits (class_code c) 0 low (class_code-lt c) (omega arith) h) ∙ class_of-code c

octet_form :
    (c low : ℕ) (f : Bool)
    → c < 4
    → low < 32
    → not (bit_and (c * 64 + (if f then 32 else 0) + low) 0x20 == 0) ≡ f
octet_form c low true hc hl =
    ap (λ (x : Bool). not x)
      (eqb-false (bit_and (c * 64 + 32 + low) 0x20) 0
        (omega (arith, and-20 (c * 64 + 32 + low) (omega arith))))
octet_form c low false hc hl =
    ap (λ (x : Bool). not x)
      (eqb-true (bit_and (c * 64 + 0 + low) 0x20) 0
        (omega (arith, and-20 (c * 64 + 0 + low) (omega arith))))

octet_low :
    (c low : ℕ) (f : Bool) → low < 32 → bit_and (c * 64 + (if f then 32 else 0) + low) 0x1f ≡ low
octet_low c low true h = omega (arith, and-1f (c * 64 + 32 + low))
octet_low c low false h = omega (arith, and-1f (c * 64 + 0 + low))

group_last :
    (k n : ℕ) (rest : List ℕ)
    → get_elem? (groups (suc k) n ++ rest) k ≡ some (n / 2 ^ (0 * 7) % 128 + 0)
unfolding groups
group_last zero n rest = refl
group_last (suc k) n rest = group_last k n rest

check_last-groups :
    (consumed k n x : ℕ) (b rest : List ℕ)
    → consumed ≡ 2 + k
    → check_last consumed (view b (x ∷ (groups (suc k) n ++ rest)))
      ≡ returns (ok tt) (view b (x ∷ (groups (suc k) n ++ rest)))
unfolding groups
check_last-groups consumed k n x b rest e =
    rw (at, group_last k n rest, last_bit (n / 2 ^ (0 * 7) % 128) (omega arith)) refl
  where
    at : consumed - 1 ≡ suc k
    at = omega arith

-- What the long form answers on the groups of a number.
decode_long_tag-groups :
    (cls : TagClass) (f : Bool) (k n x : ℕ) (b rest : List ℕ)
    → n < 2 ^ 32
    → n < 2 ^ (suc k * 7)
    → decode_long_tag cls f (view b (x ∷ (groups (suc k) n ++ rest)))
      ≡ returns
          (ok (record { cls = cls; constructed = f; number = n }))
          (view (b ++ x ∷ groups (suc k) n) rest)
unfolding decode_long_tag
decode_long_tag-groups cls f k n x b rest w h =
    rw
      (
        tag_loop-groups n w k (suc (length (groups (suc k) n ++ rest)) - 1) 1 0 b (x ∷ []) rest
            (omega (arith, length-append (groups (suc k) n) rest, length-groups (suc k) n)) refl
            (sym (div-eq_of_lt h)),
        eqb-false (1 + suc k) 1 (omega arith),
        and-false (1 + suc k == size_of),
        if_same (1 + suc k == size_of && ltb 1 size_of) (check_last (1 + suc k)) (pure tt) whole
            (returns (ok tt) whole) (check_last-groups (1 + suc k) k n x b rest (omega arith)) refl,
        skip-at (1 + suc k) b (x ∷ groups (suc k) n) rest (omega (arith, length-groups (suc k) n)),
      )
      refl
  where
    whole : BufferView
    whole = view b (x ∷ (groups (suc k) n ++ rest))

    size_of : ℕ
    size_of = suc (length (groups (suc k) n ++ rest))

decode_long_tag-octets :
    (cls : TagClass) (f : Bool) (k n x : ℕ) (b rest : List ℕ)
    → 1 ≤ k
    → n < 2 ^ 32
    → n < 2 ^ (k * 7)
    → decode_long_tag cls f (view b (x ∷ (groups k n ++ rest)))
      ≡ returns
          (ok (record { cls = cls; constructed = f; number = n }))
          (view (b ++ x ∷ groups k n) rest)
decode_long_tag-octets cls f zero n x b rest p w h = absurd (omega arith)
decode_long_tag-octets cls f (suc k) n x b rest p w h =
    decode_long_tag-groups cls f k n x b rest w h

-- `decode_tag` reads the identifier octets of a tag with a number below 2 ^ 32, whatever
-- follows them, and stops behind them.
pub decode_tag-octets :
    (t : Tag) (b rest : List ℕ)
    → t.number < 2 ^ 32
    → decode_tag (view b (identifier_octets t ++ rest))
      ≡ returns (ok t) (view (b ++ identifier_octets t) rest)
unfolding decode_tag identifier_octets
decode_tag-octets t b rest w = elim (le_or_lt t.number 30) [
  | inl h ↦
      rw
        (
          leb-true t.number 30 h,
          eqb-false (suc (length rest)) 0 (omega arith),
          octet_class t.cls t.constructed t.number (omega arith),
          octet_form (class_code t.cls) t.number t.constructed (class_code-lt t.cls) (omega arith),
          octet_low (class_code t.cls) t.number t.constructed (omega arith),
          eqb-false t.number 0x1f (omega arith),
          skip-at 1 b (first_octet t t.number ∷ []) rest refl,
        )
        refl
  | inr h ↦
      rw
        (
          leb-false t.number 30 h,
          eqb-false (suc (length (groups (group_count t.number) t.number ++ rest))) 0 (omega arith),
          octet_class t.cls t.constructed 31 (omega arith),
          octet_form (class_code t.cls) 31 t.constructed (class_code-lt t.cls) (omega arith),
          octet_low (class_code t.cls) 31 t.constructed (omega arith),
        )
        (decode_long_tag-octets t.cls t.constructed (group_count t.number) t.number
          (first_octet t 31) b rest (group_count_bounds t.number).0 w (group_count-fits t.number w))
]
