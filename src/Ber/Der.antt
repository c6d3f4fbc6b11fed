-- ===== src/Ber/Der.antt =====
-- libs/codec/ber/der_encoder.cpp: the checks of the distinguished encoding.
pub mod Minimal
pub mod Lengths
use asn1pp.Prelude.{
  ℕ, zero, suc, ◌+◌, ◌-◌, ◌*◌, ◌%◌, ◌^◌, Bool, true, false, not, ◌&&◌, ◌||◌, List, [], ◌∷◌,
  if◌then◌else◌, ltb, leb, ◌==◌, length, bit_and,
}
use asn1pp.ErrorCode.{ErrorCode}
use asn1pp.Result.{Result, ok, err, Outcome, returns, fault, ◌>>=◌}
use asn1pp.Buffer.{BufferView, view}
use asn1pp.Traits.{Tag, TagClass, UniversalTag, class_code, universal_number}
use asn1pp.Tlv.{decode_tag, decode_length}
use asn1pp.Ber.Decoder.{decode_tlv}

unfoldable pub is_integer_minimal : List ℕ → Bool
is_integer_minimal [] = false
is_integer_minimal (first ∷ []) = true
is_integer_minimal (first ∷ second ∷ rest) =
    if first == 0 && bit_and second 0x80 == 0
    then false
    else if first == 0xff && not (bit_and second 0x80 == 0)
    then false
    else true

unfoldable pub count_sign_leading_octets : List ℕ → ℕ → ℕ
count_sign_leading_octets [] sign_byte = 0
count_sign_leading_octets (x ∷ content) sign_byte =
    let more = count_sign_leading_octets content sign_byte in if x == sign_byte then suc more else 0

abbrev pub violation : Result (Unit {0})
violation = err ErrorCode.constraint_violation

unfoldable pub validate_boolean_der : List ℕ → Result (Unit {0})
validate_boolean_der (x ∷ []) = if not (x == 0) && not (x == 0xff) then violation else ok tt
validate_boolean_der content = violation

unfoldable pub validate_integer_der : List ℕ → Result (Unit {0})
validate_integer_der [] = violation
validate_integer_der (first ∷ []) = ok tt
validate_integer_der (first ∷ second ∷ rest) =
    if bit_and first 0x80 == 0
    then (if first == 0 then (if bit_and second 0x80 == 0 then violation else ok tt) else ok tt)
    else (if first == 0xff
        then (if leb 2 (count_sign_leading_octets (first ∷ second ∷ rest) 0xff)
            then violation
            else ok tt)
        else ok tt)

abbrev pub last_octet : ℕ → List ℕ → ℕ
last_octet x [] = x
last_octet x (y ∷ ys) = last_octet y ys

-- `mask` is `(0xFF << (8 - unused_bits))`, cut to eight bits.
unfoldable pub validate_bit_string_unused_bits : List ℕ → Result (Unit {0})
validate_bit_string_unused_bits [] = violation
validate_bit_string_unused_bits (unused_bits ∷ []) = if ltb 7 unused_bits then violation else ok tt
validate_bit_string_unused_bits (unused_bits ∷ x ∷ rest) =
    if ltb 7 unused_bits
    then violation
    else if ltb 0 unused_bits
    then (if not (bit_and (last_octet x rest) (0xff * 2 ^ (8 - unused_bits) % 2 ^ 8) == 0)
        then violation
        else ok tt)
    else ok tt

-- What a function that owns its view returns.
abbrev pub finish {ℓ} :
    {A : Type ℓ} → (A → Result (Unit {0})) → Outcome BufferView A → Outcome (Unit {0}) (Unit {0})
finish f (returns (ok a) v) = returns (f a) tt
finish f (returns (err e) v) = returns (err e) tt
finish f fault = fault

unfoldable pub check_definite : ℕ → Result (Unit {0})
check_definite len = if len == 0x80 then err ErrorCode.invalid_length else ok tt

unfoldable pub validate_length_definite : List ℕ → Outcome (Unit {0}) (Unit {0})
validate_length_definite [] = returns (err ErrorCode.buffer_underflow) tt
validate_length_definite (x ∷ tlv) =
    finish check_definite ((decode_tag >>= λ _. decode_length) (view [] (x ∷ tlv)))

abbrev pub check_primitive : Tag → Result (Unit {0})
check_primitive t = if t.constructed then violation else ok tt

unfoldable pub validate_primitive_string : List ℕ → Outcome (Unit {0}) (Unit {0})
validate_primitive_string [] = returns (err ErrorCode.buffer_underflow) tt
validate_primitive_string (x ∷ tlv) = finish check_primitive (decode_tag (view [] (x ∷ tlv)))

abbrev pub has_number : Tag → UniversalTag → Bool
has_number t u = t.number == universal_number u

abbrev pub plain : Result (Unit {0}) → Outcome (Unit {0}) (Unit {0})
plain r = returns r tt

-- The rules for the contents, by the universal tag, and else the rule for the length.
unfoldable pub check_contents : List ℕ → Tag → List ℕ → Outcome (Unit {0}) (Unit {0})
check_contents encoded t value =
    if (has_number t UniversalTag.octet_string || has_number t UniversalTag.bit_string)
      && t.constructed
    then plain violation
    else if has_number t UniversalTag.boolean
    then plain (validate_boolean_der value)
    else if has_number t UniversalTag.integer || has_number t UniversalTag.enumerated
    then plain (validate_integer_der value)
    else if has_number t UniversalTag.bit_string
    then plain (validate_bit_string_unused_bits value)
    else validate_length_definite encoded

unfoldable pub check_tlv :
    List ℕ → Outcome BufferView (Tag × List ℕ) → Outcome (Unit {0}) (Unit {0})
check_tlv encoded (returns (ok (t, value)) v) =
    if class_code t.cls == class_code TagClass.universal
    then check_contents encoded t value
    else validate_length_definite encoded
check_tlv encoded (returns (err e) v) = plain (err e)
check_tlv encoded fault = fault

unfoldable pub validate : List ℕ → Outcome (Unit {0}) (Unit {0})
validate encoded = check_tlv encoded (decode_tlv (view [] encoded))
