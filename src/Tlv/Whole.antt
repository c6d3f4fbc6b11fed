-- ===== src/Tlv/Whole.antt =====
-- Whole TLVs of tlv.hpp.
use asn1pp.Prelude.{
  ℕ, ◌+◌, ◌^◌, ◌≤◌, ◌<◌, ◌≡◌, refl, ap, ◌∙◌, false, not, List, [], ◌++◌, if◌then◌else◌, arith, ltb,
  ◌==◌, leb-true, leb-false, ltb-false, length, drop, length-append, append_assoc, le_or_lt, inl,
  inr, drop-drop, and-false, length-drop, length-big_endian,
}
use asn1pp.ErrorCode.{ErrorCode}
use asn1pp.Result.{ok, returns, Op, ◌>>◌, ensure, pure}
use asn1pp.Buffer.{
  BufferView, view, skip, copy_in, within, skip-at, Emits, emitted, within-Emits, copy_in-at,
  ensure_size-Emits,
}
use asn1pp.Traits.{Tag}
use asn1pp.Tlv.Defs.{
  encoded_tag_size, encoded_length_size, encode_tag, encode_length, encode_tlv, decode_tlv_header,
}
use asn1pp.Tlv.Identifier.{
  identifier_octets, group_count, encode_tag-Emits, length-groups, count_groups-eq,
}
use asn1pp.Tlv.Length.{
  length_octets, octet_count, encode_length-Emits, decode_length-octets, count_octets-eq,
}
use asn1pp.Tlv.TagReading.{decode_tag-octets}

-- X.690 8.1.1: identifier octets, length octets, contents octets.
abbrev pub tlv_octets : Tag → List ℕ → List ℕ
tlv_octets t value = identifier_octets t ++ (length_octets (length value) ++ value)

-- `encoded_tag_size` is the number of the identifier octets, for a tag number below 2 ^ 32.
pub encoded_tag_size-eq :
    (t : Tag) → t.number < 2 ^ 32 → encoded_tag_size t ≡ length (identifier_octets t)
unfolding encoded_tag_size identifier_octets
encoded_tag_size-eq t w = elim (le_or_lt t.number 30) [
  | inl h ↦ rw (leb-true t.number 30 h) refl
  | inr h ↦
      rw (leb-false t.number 30 h)
        (omega (arith, count_groups-eq t.number w, length-groups (group_count t.number) t.number))
]

-- `encoded_length_size` is the number of the length octets, for a length below 2 ^ 64.
pub encoded_length_size-eq : (n : ℕ) → n < 2 ^ 64 → encoded_length_size n ≡ length (length_octets n)
unfolding encoded_length_size length_octets
encoded_length_size-eq n w = elim (le_or_lt n 127) [
  | inl h ↦ rw (leb-true n 127 h) refl
  | inr h ↦
      rw (leb-false n 127 h)
        (omega (arith, count_octets-eq n (omega arith) w, length-big_endian (octet_count n) n))
]

regroup3 : (xs ys zs d : List ℕ) → xs ++ ys ++ (zs ++ d) ≡ xs ++ (ys ++ zs) ++ d
regroup3 xs ys zs d = simp append_assoc

drop-three :
    (xs ys zs c : List ℕ)
    → drop (length zs) (drop (length ys) (drop (length xs) c)) ≡ drop (length (xs ++ (ys ++ zs))) c
drop-three xs ys zs c =
    drop-drop (length ys) (length zs) (drop (length xs) c)
    ∙ drop-drop (length xs) (length ys + length zs) c
    ∙ ap (λ (n : ℕ). drop n c) total
  where
    total : length xs + (length ys + length zs) ≡ length (xs ++ (ys ++ zs))
    total = omega (arith, length-append xs (ys ++ zs), length-append ys zs)

-- What a filler of the contents does behind a header.
abbrev pub Fills : Op BufferView (Unit {0}) → List ℕ → List ℕ → Type 0
Fills m header value =
    (b c : List ℕ)
    → length value ≤ length c
    → m (view b (header ++ c))
      ≡ returns (ok tt) (view b (header ++ (value ++ drop (length value) c)))

-- The identifier octets and the octets of the length `n` go in front, the contents behind them,
-- and what follows finds the view at its old start.
pub framed {ℓ} :
    {B : Type ℓ} (t : Tag) (n : ℕ) (value : List ℕ) (m : Op BufferView (Unit {0}))
    (k : Op BufferView B) (b c : List ℕ)
    → t.number < 2 ^ 32
    → n < 2 ^ 64
    → Fills m (identifier_octets t ++ length_octets n) value
    → length (identifier_octets t ++ (length_octets n ++ value)) ≤ length c
    → (within 0 (encode_tag t) >> (within (encoded_tag_size t) (encode_length n false) >> (m >> k)))
        (view b c)
      ≡ k (
          view b (
            identifier_octets t
            ++ (length_octets n ++ value)
            ++ drop (length (identifier_octets t ++ (length_octets n ++ value))) c))
framed t n value m k b c w l f h =
    rw
      (
        within-Emits (encode_tag t) ident (encode_tag-Emits t w) 0 b [] c refl
            (omega (arith, length-append ident (lens ++ value))),
        within-Emits (encode_length n false) lens (encode_length-Emits n l) (encoded_tag_size t) b
            ident c1 (encoded_tag_size-eq t w) room1,
        ← append_assoc ident lens c2,
        f b c2 room2,
        regroup3 ident lens value (drop (length value) c2),
        drop-three ident lens value c,
      )
      refl
  where
    ident : List ℕ
    ident = identifier_octets t

    lens : List ℕ
    lens = length_octets n

    c1 : List ℕ
    c1 = drop (length ident) c

    c2 : List ℕ
    c2 = drop (length lens) c1

    room1 : length lens ≤ length c1
    room1 = omega (
      arith,
      length-append ident (lens ++ value),
      length-append lens value,
      length-drop (length ident) c,
    )

    room2 : length value ≤ length c2
    room2 = omega (
      arith,
      length-append ident (lens ++ value),
      length-append lens value,
      length-drop (length ident) c,
      length-drop (length lens) c1,
    )

-- The sizes that are added up are the size of the header, and that of all that is written.
pub header_size :
    (t : Tag) (n : ℕ)
    → t.number < 2 ^ 32
    → n < 2 ^ 64
    → encoded_tag_size t + encoded_length_size n ≡ length (identifier_octets t ++ length_octets n)
header_size t n w l = omega (
  arith,
  encoded_tag_size-eq t w,
  encoded_length_size-eq n l,
  length-append (identifier_octets t) (length_octets n),
)

pub total_size :
    (t : Tag) (n : ℕ) (value : List ℕ)
    → t.number < 2 ^ 32
    → n < 2 ^ 64
    → encoded_tag_size t + encoded_length_size n + length value
      ≡ length (identifier_octets t ++ (length_octets n ++ value))
total_size t n value w l = omega (
  arith,
  encoded_tag_size-eq t w,
  encoded_length_size-eq n l,
  length-append (identifier_octets t) (length_octets n ++ value),
  length-append (length_octets n) value,
)

-- The shape of the functions that write a TLV: a check of the size, the header, the contents.
pub whole_tlv-Emits :
    (t : Tag) (value : List ℕ) (m : Op BufferView (Unit {0})) (total : ℕ)
    → t.number < 2 ^ 32
    → length value < 2 ^ 64
    → total ≡ length (tlv_octets t value)
    → Fills m (identifier_octets t ++ length_octets (length value)) value
    → (v : BufferView)
    → (ensure (not (ltb (length v.cells) total)) ErrorCode.buffer_overflow
          >> (within 0 (encode_tag t)
              >> (within (encoded_tag_size t) (encode_length (length value) false)
                  >> (m >> skip total))))
        v
      ≡ emitted (tlv_octets t value) v
whole_tlv-Emits t value m total w l e f = ensure_size-Emits total _ (tlv_octets t value) e λ b c h.
    framed t (length value) value m (skip total) b c w l f h
    ∙ skip-at total b (tlv_octets t value) (drop (length (tlv_octets t value)) c) e

-- `encode_tlv`, for a tag number below 2 ^ 32 and contents shorter than 2 ^ 64, writes
-- identifier, length and contents octets, or answers `buffer_overflow` where they do not fit
-- and writes nothing.
pub encode_tlv-Emits :
    (t : Tag) (value : List ℕ)
    → t.number < 2 ^ 32
    → length value < 2 ^ 64
    → Emits (encode_tlv t value) (tlv_octets t value)
unfolding encode_tlv
encode_tlv-Emits t value w l =
    whole_tlv-Emits t value (if not (length value == 0) then copy_in pos value else pure tt) total w
      l (total_size t (length value) value w l)
      λ b c h.
        copy_in-at pos b (identifier_octets t ++ length_octets (length value)) c value
          (header_size t (length value) w l) h
  where
    pos : ℕ
    pos = encoded_tag_size t + encoded_length_size (length value)

    total : ℕ
    total = pos + length value

-- `decode_tlv_header` on a TLV with a tag number below 2 ^ 32 and contents shorter than 2 ^ 64
-- answers the tag and the length, and the view stands at the contents.
pub decode_tlv_header-octets :
    (t : Tag) (value b rest : List ℕ)
    → t.number < 2 ^ 32
    → length value < 2 ^ 64
    → decode_tlv_header (view b (tlv_octets t value ++ rest))
      ≡ returns
          (ok (t, length value))
          (view (b ++ identifier_octets t ++ length_octets (length value)) (value ++ rest))
unfolding decode_tlv_header
decode_tlv_header-octets t value b rest w l =
    rw
      (
        append_assoc (identifier_octets t) (length_octets (length value) ++ value) rest,
        decode_tag-octets t b (length_octets (length value) ++ value ++ rest) w,
        append_assoc (length_octets (length value)) value rest,
        decode_length-octets (length value) (b ++ identifier_octets t) (value ++ rest) l,
        ltb-false (length (value ++ rest)) (length value) (omega (arith, length-append value rest)),
        and-false (not (length value == 0x80)),
      )
      refl
