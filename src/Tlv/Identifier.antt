-- ===== src/Tlv/Identifier.antt =====
-- The identifier octets of tlv.hpp: what `encode_tag` writes.
use asn1pp.Prelude.{
  ℕ, zero, suc, ◌+◌, ◌*◌, ◌/◌, ◌%◌, ◌^◌, ◌≤◌, ◌<◌, ◌≡◌, refl, ap, ◌∙◌, Bool, true, false, List, [],
  ◌∷◌, ◌++◌, if◌then◌else◌, arith, leb, ltb, leb-true, leb-false, ltb-true, ltb-false, length, drop,
  set, overwrite, length-set, overwrite-set_first, overwrite-nil, bit_and, bit_or, le_or_lt, inl,
  inr,
}
use asn1pp.Prelude.Bits.{and-7f, or-80, or-fields}
use asn1pp.Result.{ok, returns}
use asn1pp.Buffer.{view, Emits, skip-overwrite, ensure_size-Emits, put_octet, poke-at}
use asn1pp.Traits.{Tag, TagClass, class_code}
use asn1pp.Tlv.Defs.{
  count_groups, encoded_tag_size, put_groups, leading, put_short_tag, put_long_tag, encode_tag,
}

-- The number of base-128 digits of a number below 2 ^ 32.
unfoldable pub group_count : ℕ → ℕ
group_count n =
    if ltb n (2 ^ 7)
    then 1
    else if ltb n (2 ^ 14)
    then 2
    else if ltb n (2 ^ 21)
    then 3
    else if ltb n (2 ^ 28)
    then 4
    else 5

-- The `k` lowest base-128 digits of `n`, the most significant first, with bit 8 set on all but
-- the last.
unfoldable pub groups : ℕ → ℕ → List ℕ
groups zero n = []
groups (suc k) n = (n / 2 ^ (k * 7) % 128 + (if ltb 0 k then 128 else 0)) ∷ groups k n

-- X.690 8.1.2: the first octet has the class, the form and five bits.
abbrev pub first_octet : Tag → ℕ → ℕ
first_octet t low = class_code t.cls * 64 + (if t.constructed then 32 else 0) + low

-- A number up to 30 stands in the first octet; any other follows in base 128.
unfoldable pub identifier_octets : Tag → List ℕ
identifier_octets t =
    if leb t.number 30
    then first_octet t t.number ∷ []
    else first_octet t 31 ∷ groups (group_count t.number) t.number

pub group_count_bounds : (n : ℕ) → (1 ≤ group_count n) × (group_count n ≤ 5)
unfolding group_count
group_count_bounds n = ground arith

pub group_count-fits : (n : ℕ) → n < 2 ^ 32 → n < 2 ^ (group_count n * 7)
unfolding group_count
group_count-fits n h = ground arith

pub count_groups-eq : (n : ℕ) → n < 2 ^ 32 → count_groups 5 n 1 ≡ group_count n
unfolding count_groups group_count
count_groups-eq n h = ground arith

pub length-groups : (k n : ℕ) → length (groups k n) ≡ k
unfolding groups
length-groups zero n = refl
length-groups (suc k) n = ap suc (length-groups k n)

pub class_code-lt : (c : TagClass) → class_code c < 4
class_code-lt TagClass.universal = omega arith
class_code-lt TagClass.application = omega arith
class_code-lt TagClass.context_specific = omega arith
class_code-lt TagClass.private_class = omega arith

joined :
    (c f low : ℕ)
    → c < 4
    → f < 2
    → low < 32
    → bit_or (bit_or (c * 2 ^ 6 % 256) (f * 32)) low ≡ c * 64 + f * 32 + low
joined c f low hc hf hl =
    ap (λ (x : ℕ). bit_or (bit_or x (f * 32)) low) small
    ∙ ap (λ (x : ℕ). bit_or x low) (or-fields 6 c (f * 32) (omega arith) ∙ regroup)
    ∙ or-fields 5 (c * 2 + f) low hl
    ∙ omega arith
  where
    small : c * 2 ^ 6 % 256 ≡ c * 2 ^ 6
    small = omega arith

    regroup : c * 2 ^ 6 + f * 32 ≡ (c * 2 + f) * 2 ^ 5
    regroup = omega arith

form_bit :
    (c low : ℕ) (b : Bool)
    → c < 4
    → low < 32
    → bit_or (bit_or (c * 2 ^ 6 % 256) (if b then 0x20 else 0)) low
      ≡ c * 64 + (if b then 32 else 0) + low
form_bit c low true hc hl = joined c 1 low hc (omega arith) hl
form_bit c low false hc hl = joined c 0 low hc (omega arith) hl

pub leading-eq : (t : Tag) (low : ℕ) → low < 32 → leading t low ≡ first_octet t low
leading-eq t low h = form_bit (class_code t.cls) low t.constructed (class_code-lt t.cls) h

group_byte :
    (k n : ℕ)
    → (let byte_val = bit_and (n / 2 ^ (k * 7)) 0x7f % 256 in
        if ltb 0 k then bit_or byte_val 0x80 else byte_val)
      ≡ n / 2 ^ (k * 7) % 128 + (if ltb 0 k then 128 else 0)
group_byte k n = elim (le_or_lt k 0) [
  | inl h ↦ rw (ltb-false 0 k h) (omega (arith, and-7f (n / 2 ^ (k * 7))))
  | inr h ↦
      rw (ltb-true 0 k h)
        (omega (arith, and-7f (n / 2 ^ (k * 7)), or-80 (bit_and (n / 2 ^ (k * 7)) 0x7f % 256)))
]

-- The loop from the first continuation byte to the last.
put_groups-overwrite :
    (left i n : ℕ) (b c : List ℕ)
    → i + left < length c
    → put_groups left i n (view b c)
      ≡ returns (ok tt) (view b (overwrite c (1 + i) (groups left n)))
unfolding put_groups groups
put_groups-overwrite zero i n b c h = rw (overwrite-nil c (1 + i)) refl
put_groups-overwrite (suc left) i n b c h =
    rw
      (
        group_byte left n,
        poke-at (1 + i) x b c (omega arith),
        put_groups-overwrite left (i + 1) n b (set c (1 + i) x)
            (omega (arith, length-set c (1 + i) x)),
        next,
        overwrite-set_first c (1 + i) x (groups left n) (omega arith),
      )
      refl
  where
    x : ℕ
    x = n / 2 ^ (left * 7) % 128 + (if ltb 0 left then 128 else 0)

    next : 1 + (i + 1) ≡ suc (1 + i)
    next = omega arith

short_tag_fits :
    (t : Tag)
    → t.number ≤ 30
    → (b c : List ℕ) → 1 ≤ length c
    → put_short_tag t (view b c)
      ≡ returns (ok tt) (view (b ++ first_octet t t.number ∷ []) (drop 1 c))
unfolding put_short_tag
short_tag_fits t h b [] l = absurd (omega arith)
short_tag_fits t h b (y ∷ c) l =
    rw (low, leading-eq t t.number (omega arith)) (put_octet (first_octet t t.number) y b c)
  where
    low : t.number % 256 ≡ t.number
    low = omega arith

long_tag_fits :
    (t : Tag)
    → t.number < 2 ^ 32
    → (b c : List ℕ) → 1 + group_count t.number ≤ length c
    → put_long_tag t (view b c)
      ≡ returns (ok tt) (
          view
            (b ++ first_octet t 31 ∷ groups (group_count t.number) t.number)
            (drop (suc (group_count t.number)) c))
unfolding put_long_tag
long_tag_fits t w b [] l = absurd (omega arith)
long_tag_fits t w b (y ∷ c) l =
    rw
      (
        leading-eq t 31 (omega arith),
        count_groups-eq t.number w,
        poke-at 0 (first_octet t 31) b (y ∷ c) (omega arith),
        put_groups-overwrite k 0 t.number b (first_octet t 31 ∷ c) (omega arith),
        skip-overwrite (1 + k) (first_octet t 31) b c (groups k t.number)
            (omega (arith, length-groups k t.number)) (omega (arith, length-groups k t.number)),
        length-groups k t.number,
      )
      refl
  where
    k : ℕ
    k = group_count t.number

-- `encode_tag`, for a tag number below 2 ^ 32, writes the identifier octets of X.690 8.1.2, or
-- answers `buffer_overflow` where they do not fit and writes nothing.
pub encode_tag-Emits : (t : Tag) → t.number < 2 ^ 32 → Emits (encode_tag t) (identifier_octets t)
unfolding encode_tag identifier_octets encoded_tag_size
encode_tag-Emits t w v = elim (le_or_lt t.number 30) [
  | inl h ↦ rw (leb-true t.number 30 h) (
      ensure_size-Emits 1 (put_short_tag t) (first_octet t t.number ∷ []) refl (short_tag_fits t h)
        v)
  | inr h ↦ rw (leb-false t.number 30 h) (
      ensure_size-Emits (1 + count_groups 5 t.number 1) (put_long_tag t)
        (first_octet t 31 ∷ groups k t.number)
        (omega (arith, count_groups-eq t.number w, length-groups k t.number)) long v)
]
  where
    k : ℕ
    k = group_count t.number

    long :
        (b c : List ℕ)
        → suc (length (groups k t.number)) ≤ length c
        → put_long_tag t (view b c)
          ≡ returns (ok tt) (
              view
                (b ++ first_octet t 31 ∷ groups k t.number)
                (drop (suc (length (groups k t.number))) c))
    long b c l =
        rw (length-groups k t.number)
          (long_tag_fits t w b c (omega (arith, length-groups k t.number)))
