-- ===== src/Ber/Encoder/Writing.antt =====
-- What the functions of libs/codec/ber/ber_encoder.cpp write.
use asn1pp.Prelude.{
  ℕ, suc, ◌+◌, ◌≤◌, ◌<◌, ◌^◌, ◌≡◌, refl, sym, ap, ◌∙◌, Bool, false, not, List, [], ◌∷◌, ◌++◌,
  if◌then◌else◌, arith, ltb, ltb-true, ltb-false, ◌==◌, eqb-false, length, drop, length-append,
  append_assoc, append-nil, set-append,
}
use mathlib.Core.Path.{fun_ext}
use asn1pp.ErrorCode.{ErrorCode}
use asn1pp.Result.{ok, err, Outcome, returns, fault, Op, pure, ensure, ◌>>◌, if_same, continue}
use asn1pp.Buffer.{
  BufferView, view, poke, skip, copy_in, within, Emits, copy_in-at, skip-at, poke-at,
}
use asn1pp.Traits.{Tag, UniversalTag, make_universal}
use asn1pp.Tlv.{encode_tag, encode_length, encoded_tag_size, encoded_length_size}
use asn1pp.Tlv.Identifier.{identifier_octets}
use asn1pp.Tlv.Length.{length_octets}
use asn1pp.Tlv.Whole.{
  tlv_octets, encode_tlv-Emits, whole_tlv-Emits, total_size, header_size, framed, Fills,
}
use asn1pp.Int64.{IsInt64}
use asn1pp.Ber.Integer.{encode_integer_bytes}
use asn1pp.Ber.Integer.Size.{length-encode_integer_bytes}
use asn1pp.Ber.Encoder.{
  encode_boolean, encode_null, encode_octet_string, encode_bit_string, encode_enumerated,
  encode_oid, encode_sequence_header,
}

pub encode_boolean-Emits :
    (x : Bool)
    → Emits
        (encode_boolean x)
        (tlv_octets (make_universal UniversalTag.boolean false) ((if x then 0xff else 0) ∷ []))
unfolding encode_boolean
encode_boolean-Emits x =
    encode_tlv-Emits (make_universal UniversalTag.boolean false) ((if x then 0xff else 0) ∷ [])
      (omega arith) (omega arith)

pub encode_null-Emits : Emits encode_null (tlv_octets (make_universal UniversalTag.null false) [])
unfolding encode_null
encode_null-Emits =
    encode_tlv-Emits (make_universal UniversalTag.null false) [] (omega arith) (omega arith)

pub encode_oid-Emits :
    (encoded_oid : List ℕ)
    → length encoded_oid < 2 ^ 64
    → Emits
        (encode_oid encoded_oid)
        (tlv_octets (make_universal UniversalTag.object_identifier false) encoded_oid)
unfolding encode_oid
encode_oid-Emits encoded_oid l =
    encode_tlv-Emits (make_universal UniversalTag.object_identifier false) encoded_oid (omega arith)
      l

pub encode_enumerated-Emits :
    (v : ℕ)
    → IsInt64 v
    → Emits
        (encode_enumerated v)
        (tlv_octets (make_universal UniversalTag.enumerated false) (encode_integer_bytes v))
unfolding encode_enumerated
encode_enumerated-Emits v w =
    encode_tlv-Emits (make_universal UniversalTag.enumerated false) (encode_integer_bytes v)
      (omega arith) (omega (arith, length-encode_integer_bytes v w))

-- All three ways of copying the octets do the same.
copying :
    (pos : ℕ) (octets : List ℕ) (v : BufferView)
    → (if ltb 32 (length octets)
          then copy_in pos octets
          else (if ltb 0 (length octets) then copy_in pos octets else pure tt))
        v
      ≡ (if not (length octets == 0) then copy_in pos octets else pure tt) v
copying pos [] v = refl
copying pos (x ∷ octets) v =
    rw
      (
        ltb-true 0 (suc (length octets)) (omega arith),
        eqb-false (suc (length octets)) 0 (omega arith),
      )
      (if_same (ltb 32 (suc (length octets))) (copy_in pos (x ∷ octets)) (copy_in pos (x ∷ octets))
        v (copy_in pos (x ∷ octets) v) refl refl)

-- `encode_octet_string` writes an OCTET STRING of any length below 2 ^ 64, or nothing where it does not fit.
pub encode_octet_string-Emits :
    (octets : List ℕ)
    → length octets < 2 ^ 64
    → Emits
        (encode_octet_string octets)
        (tlv_octets (make_universal UniversalTag.octet_string false) octets)
unfolding encode_octet_string
encode_octet_string-Emits octets l =
    whole_tlv-Emits t octets _ (pos + length octets) (omega arith) l
      (total_size t (length octets) octets (omega arith) l)
      λ b c h.
        copying pos octets (view b (identifier_octets t ++ length_octets (length octets) ++ c))
        ∙ copy_in-at pos b (identifier_octets t ++ length_octets (length octets)) c octets
            (header_size t (length octets) (omega arith) l) h
  where
    t : Tag
    t = make_universal UniversalTag.octet_string false

    pos : ℕ
    pos = encoded_tag_size t + encoded_length_size (length octets)

-- An octet behind `pre`, and octets behind it.
poke_then_copy :
    (pos x : ℕ) (octets pre : List ℕ)
    → pos ≡ length pre
    → Fills
        (poke pos x >> (if not (length octets == 0) then copy_in (pos + 1) octets else pure tt))
        pre
        (x ∷ octets)
poke_then_copy pos x octets pre e b [] h = absurd (omega arith)
poke_then_copy pos x octets pre e b (y ∷ c) h =
    rw
      (
        poke-at pos x b (pre ++ y ∷ c) (omega (arith, length-append pre (y ∷ c))),
        e,
        set-append pre c y x,
      )
      (ap
          (λ (l : List ℕ).
            (if not (length octets == 0) then copy_in (length pre + 1) octets else pure tt)
              (view b l))
          (sym (append_assoc pre (x ∷ []) c))
        ∙ copy_in-at (length pre + 1) b (pre ++ x ∷ []) c octets
            (omega (arith, length-append pre (x ∷ []))) (omega arith)
        ∙ ap (λ (l : List ℕ). returns (ok tt) (view b l))
            (append_assoc pre (x ∷ []) (octets ++ drop (length octets) c)))

then_assoc {ℓ κ μ ν} :
    {S : Type ℓ} {A : Type κ} {B : Type μ} {C : Type ν} (m : Op S A) (n : Op S B) (k : Op S C)
    (s : S)
    → (m >> (n >> k)) s ≡ ((m >> n) >> k) s
then_assoc {S = S} {A = A} m n k s = by_outcome (m s)
  where
    by_outcome :
        (o : Outcome S A) → continue o (λ _. n >> k) ≡ continue (continue o (λ _. n)) (λ _. k)
    by_outcome (returns (ok a) u) = refl
    by_outcome (returns (err e) u) = refl
    by_outcome fault = refl

-- `encode_bit_string` writes the count of unused bits and the octets, or nothing where they do not fit.
pub encode_bit_string-Emits :
    (octets : List ℕ) (unused_bits : ℕ)
    → 1 + length octets < 2 ^ 64
    → Emits
        (encode_bit_string octets unused_bits)
        (tlv_octets (make_universal UniversalTag.bit_string false) (unused_bits ∷ octets))
unfolding encode_bit_string
encode_bit_string-Emits octets unused_bits l v =
    rw (one_more, same_size)
      (ap
          (λ (k : Op BufferView (Unit {0})).
            (ensure (not (ltb (length v.cells) (pos + 1 + length octets))) ErrorCode.buffer_overflow
                >> (within 0 (encode_tag t)
                    >> (within (encoded_tag_size t) (encode_length (suc (length octets)) false)
                        >> k)))
              v)
          (fun_ext (then_assoc (poke pos unused_bits) copy (skip (pos + 1 + length octets))))
        ∙ whole_tlv-Emits t (unused_bits ∷ octets) (poke pos unused_bits >> copy)
            (pos + 1 + length octets) (omega arith) (omega arith)
            (sym same_size
              ∙ total_size t (suc (length octets)) (unused_bits ∷ octets) (omega arith)
                  (omega arith))
            (poke_then_copy pos unused_bits octets
              (identifier_octets t ++ length_octets (suc (length octets)))
              (header_size t (suc (length octets)) (omega arith) (omega arith)))
            v)
  where
    t : Tag
    t = make_universal UniversalTag.bit_string false

    pos : ℕ
    pos = encoded_tag_size t + encoded_length_size (suc (length octets))

    copy : Op BufferView (Unit {0})
    copy = if not (length octets == 0) then copy_in (pos + 1) octets else pure tt

    same_size : pos + suc (length octets) ≡ pos + 1 + length octets
    same_size = omega arith

    one_more : 1 + length octets ≡ suc (length octets)
    one_more = omega arith

-- `encode_sequence_header`, for a tag number and a length below 2 ^ 32 and 2 ^ 64 and a view
-- that is large enough, writes the identifier and length octets and answers their count.
pub encode_sequence_header-fits :
    (t : Tag) (content_length : ℕ) (b c : List ℕ)
    → t.number < 2 ^ 32
    → content_length < 2 ^ 64
    → length (identifier_octets t ++ length_octets content_length) ≤ length c
    → encode_sequence_header t content_length (view b c)
      ≡ returns (ok (length (identifier_octets t ++ length_octets content_length))) (
          view
            (b ++ (identifier_octets t ++ length_octets content_length))
            (drop (length (identifier_octets t ++ length_octets content_length)) c))
unfolding encode_sequence_header
encode_sequence_header-fits t n b c w l h = rw (ltb-false (length c) pos (omega (arith, sized))) (
    framed t n [] (pure tt) (skip pos >> pure pos) b c w l (λ _ _ _. refl) (rw bare h)
    ∙ rw (bare, skip-at pos b header (drop (length header) c) sized)
        (ap (λ (k : ℕ). returns (ok k) (view (b ++ header) (drop (length header) c))) sized))
  where
    header : List ℕ
    header = identifier_octets t ++ length_octets n

    pos : ℕ
    pos = encoded_tag_size t + encoded_length_size n

    sized : pos ≡ length header
    sized = header_size t n w l

    bare : identifier_octets t ++ (length_octets n ++ []) ≡ header
    bare = ap (λ (xs : List ℕ). identifier_octets t ++ xs) (append-nil (length_octets n))
