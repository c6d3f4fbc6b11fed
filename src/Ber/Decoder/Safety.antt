-- ===== src/Ber/Decoder/Safety.antt =====
-- libs/codec/ber/ber_decoder.cpp on any bytes at all.
use asn1pp.Prelude.{
  ℕ, ◌≤◌, ◌≡◌, refl, Bool, true, false, not, List, arith, ltb, ◌==◌, leb-true, ltb-true, ltb-false,
  length, take, inl, inr, eqb-false, le_or_lt, not-ltb, eqb-true,
}
use asn1pp.ErrorCode.{invalid_tag, invalid_length, buffer_underflow, value_out_of_range}
use asn1pp.Result.{Outcome, fault, continue, ok, err, returns, Op, ◌>>=◌, ◌>>◌, ensure, pure}
use asn1pp.Buffer.{
  BufferView, size, peek, skip, copy_out, Moved, Reads, Moved-stay, Moved-skip, Moved-bind,
  Moved-ensure,
}
use asn1pp.Traits.{Tag, UniversalTag, make_universal, tag_eq}
use asn1pp.Tlv.{decode_tag, decode_length}
use asn1pp.Tlv.Safety.{decode_tag-Reads, decode_length-Reads, peek_inside, skip_reads}
use asn1pp.Ber.Integer.{decode_integer_value}
use asn1pp.Ber.Decoder.{
  expect, take_integer, take_octets, decode_enumerated, decode_boolean, decode_null, decode_tlv,
  skip_tlv, decode_sequence_header,
}

-- Copying bytes that the view holds, and passing over them.
pub copied {ℓ} :
    {A : Type ℓ} (n : ℕ) (f : List ℕ → A) (v : BufferView)
    → n ≤ length v.cells
    → Moved v ((copy_out n >>= λ bytes. skip n >> pure (f bytes)) v)
copied n f v h = rw (leb-true n (length v.cells) h) (skip_reads n (f (take n v.cells)) v h)

-- `expect` never faults and stays inside the view.
pub expect-Reads : (t : Tag) → Reads (expect t)
unfolding expect
expect-Reads t v =
    Moved-bind decode_tag (λ found. ensure (tag_eq found t) invalid_tag >> decode_length) v
      (decode_tag-Reads v)
      λ found u.
        Moved-ensure (tag_eq found t) invalid_tag decode_length u (λ _. decode_length-Reads u)

-- The guard that the contents are there, and then the contents.
pub held {ℓ} :
    {A : Type ℓ} (n : ℕ) (m : Op BufferView A) (v : BufferView)
    → (n ≤ length v.cells → Moved v (m v))
    → Moved v ((size >>= λ have. ensure (not (ltb have n)) buffer_underflow >> m) v)
held n m v f =
    Moved-ensure (not (ltb (length v.cells) n)) buffer_underflow m v
      (λ e. f (not-ltb (length v.cells) n e))

-- The reading of the contents of OCTET STRINGs and OBJECT IDENTIFIERs returns on every input.
-- It reads no byte outside the view, writes none, and leaves the view behind bytes that it
-- covered.
pub take_octets-Reads : (t : Tag) → Reads (take_octets t)
unfolding take_octets
take_octets-Reads t v =
    Moved-bind (expect t)
      (λ n. size >>= λ have. ensure (not (ltb have n)) buffer_underflow >> body n) v
      (expect-Reads t v) λ n u. held n (body n) u (copied n (λ bytes. bytes) u)
  where
    body : ℕ → Op BufferView (List ℕ)
    body n = copy_out n >>= λ bytes. skip n >> pure bytes

-- The reading of an integer's contents, for any tag, returns on every input. It reads no byte
-- outside the view, writes none, and leaves the view behind bytes that it covered.
pub take_integer-Reads : (t : Tag) → Reads (take_integer t)
unfolding take_integer
take_integer-Reads t v =
    Moved-bind (expect t) (λ n. ensure (not (n == 0)) invalid_length >> guarded n) v
      (expect-Reads t v)
      λ n u. Moved-ensure (not (n == 0)) invalid_length (guarded n) u λ _.
        held n (bounded n) u λ fits.
          Moved-ensure (not (ltb 8 n)) value_out_of_range (body n) u
            λ _. copied n (λ bytes. bytes) u fits
  where
    body : ℕ → Op BufferView (List ℕ)
    body n = copy_out n >>= λ bytes. skip n >> pure bytes

    bounded : ℕ → Op BufferView (List ℕ)
    bounded n = ensure (not (ltb 8 n)) value_out_of_range >> body n

    guarded : ℕ → Op BufferView (List ℕ)
    guarded n = size >>= λ have. ensure (not (ltb have n)) buffer_underflow >> bounded n

pub decode_enumerated-Reads : Reads decode_enumerated
unfolding decode_enumerated
decode_enumerated-Reads v =
    Moved-bind (take_integer (make_universal UniversalTag.enumerated false))
      (λ bytes. pure (decode_integer_value bytes)) v
      (take_integer-Reads (make_universal UniversalTag.enumerated false) v)
      λ bytes u. Moved-stay (ok (decode_integer_value bytes)) u

pub decode_boolean-Reads : Reads decode_boolean
unfolding decode_boolean
decode_boolean-Reads v =
    Moved-bind (expect (make_universal UniversalTag.boolean false))
      (λ n. ensure (n == 1) invalid_length >> filled) v
      (expect-Reads (make_universal UniversalTag.boolean false) v)
      λ n u. Moved-ensure (n == 1) invalid_length filled u λ _. one u
  where
    answer : Op BufferView Bool
    answer = peek 0 >>= λ x. skip 1 >> pure (not (x == 0))

    filled : Op BufferView Bool
    filled = size >>= λ have. ensure (not (have == 0)) buffer_underflow >> answer

    one : Reads filled
    one u = elim (le_or_lt (length u.cells) 0) [
      | inl none_left ↦
          rw (eqb-true (length u.cells) 0 (omega arith)) (Moved-stay (err buffer_underflow) u)
      | inr some_left ↦
          let (x, e) = peek_inside 0 u some_left in
          rw (eqb-false (length u.cells) 0 (omega arith), e)
            (skip_reads 1 (not (x == 0)) u some_left)
    ]

pub decode_null-Reads : Reads decode_null
unfolding decode_null
decode_null-Reads v =
    Moved-bind (expect (make_universal UniversalTag.null false))
      (λ n. ensure (n == 0) invalid_length) v
      (expect-Reads (make_universal UniversalTag.null false) v) λ n u. checked (n == 0) u
  where
    checked : (b : Bool) (u : BufferView) → Moved u (ensure b invalid_length u)
    checked true u = Moved-stay (ok tt) u
    checked false u = Moved-stay (err invalid_length) u

-- `decode_tlv` returns on every input. It reads no byte outside the view, writes none, and
-- leaves the view behind bytes that it covered.
pub decode_tlv-Reads : Reads decode_tlv
unfolding decode_tlv
decode_tlv-Reads v =
    Moved-bind decode_tag (λ t. decode_length >>= guarded t) v (decode_tag-Reads v)
      λ t u.
        Moved-bind decode_length (guarded t) u (decode_length-Reads u)
          λ n w. held n (body t n) w (copied n (λ value. (t, value)) w)
  where
    body : Tag → ℕ → Op BufferView (Tag × List ℕ)
    body t n = copy_out n >>= λ value. skip n >> pure (t, value)

    guarded : Tag → ℕ → Op BufferView (Tag × List ℕ)
    guarded t n = size >>= λ have. ensure (not (ltb have n)) buffer_underflow >> body t n

pub skip_tlv-Reads : Reads skip_tlv
unfolding skip_tlv
skip_tlv-Reads v =
    Moved-bind decode_tag (λ _. decode_length >>= guarded) v (decode_tag-Reads v)
      λ t u.
        Moved-bind decode_length guarded u (decode_length-Reads u)
          λ n w. held n (skip n) w (Moved-skip n w)
  where
    guarded : ℕ → Op BufferView (Unit {0})
    guarded n = size >>= λ have. ensure (not (ltb have n)) buffer_underflow >> skip n

pub decode_sequence_header-Reads : Reads decode_sequence_header
unfolding decode_sequence_header
decode_sequence_header-Reads v =
    Moved-bind decode_tag (λ t. ensure t.constructed invalid_tag >> rest t) v (decode_tag-Reads v)
      λ t u. Moved-ensure t.constructed invalid_tag (rest t) u λ _.
        Moved-bind decode_length (guarded t) u (decode_length-Reads u)
          λ n w. held n (pure (t, n)) w (λ _. Moved-stay (ok (t, n)) w)
  where
    guarded : Tag → ℕ → Op BufferView (Tag × ℕ)
    guarded t n = size >>= λ have. ensure (not (ltb have n)) buffer_underflow >> pure (t, n)

    rest : Tag → Op BufferView (Tag × ℕ)
    rest t = decode_length >>= guarded t

-- `skip_tlv` does with the view what `decode_tlv` does, on every input and with every error,
-- and answers no contents.
pub skip_tlv-decode_tlv : (v : BufferView) → skip_tlv v ≡ (decode_tlv >>= λ _. pure tt) v
unfolding skip_tlv decode_tlv
skip_tlv-decode_tlv v = behind_tag (decode_tag v)
  where
    guarded : ℕ → Op BufferView (Unit {0})
    guarded n = size >>= λ have. ensure (not (ltb have n)) buffer_underflow >> skip n

    copying : Tag → ℕ → Op BufferView (Tag × List ℕ)
    copying t n = size >>= λ have.
        ensure (not (ltb have n)) buffer_underflow
        >> (copy_out n >>= λ value. skip n >> pure (t, value))

    contents : (t : Tag) (n : ℕ) (u : BufferView) → guarded n u ≡ (copying t n >>= λ _. pure tt) u
    contents t n u = elim (le_or_lt n (length u.cells)) [
      | inl h ↦
          rw (ltb-false (length u.cells) n h)
            (rw (leb-true n (length u.cells) h) (rw (leb-true n (length u.cells) h) refl))
      | inr h ↦ rw (ltb-true (length u.cells) n h) refl
    ]

    behind_length :
        (t : Tag) (o : Outcome BufferView ℕ)
        → continue o guarded ≡ continue (continue o (copying t)) (λ _. pure tt)
    behind_length t (returns (ok n) u) = contents t n u
    behind_length t (returns (err e) u) = refl
    behind_length t fault = refl

    behind_tag :
        (o : Outcome BufferView Tag)
        → continue o (λ _. decode_length >>= guarded)
          ≡ continue (continue o (λ t. decode_length >>= copying t)) (λ _. pure tt)
    behind_tag (returns (ok t) u) = behind_length t (decode_length u)
    behind_tag (returns (err e) u) = refl
    behind_tag fault = refl
