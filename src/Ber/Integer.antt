-- ===== src/Ber/Integer.antt =====
-- `ber_encoder::encode_integer_bytes` and `ber_decoder::decode_integer_value`: the contents octets
-- of an INTEGER.
pub mod RoundTrip
pub mod Size
pub mod Slots
pub mod Ranges
pub mod Fits
use asn1pp.Prelude.{
  ℕ, zero, suc, ◌-◌, ◌/◌, ◌%◌, ◌^◌, Bool, true, false, not, ◌&&◌, ◌||◌, List, [], ◌∷◌, ◌++◌,
  if◌then◌else◌, ◌==◌, bit_and, fold_be,
}
use asn1pp.Int64.{is_negative}

-- `raw[7 - i] = uval & 0xFF; uval >>= 8;` with `left` rounds left; the last argument is what is
-- filled already.
unfoldable pub raw_octets : ℕ → ℕ → List ℕ → List ℕ
raw_octets zero uval filled = filled
raw_octets (suc left) uval filled =
    raw_octets left (uval / 2 ^ 8) ((bit_and uval 0xff % 256) ∷ filled)

-- `while (start < 7 && raw[start] == sign_byte) ++start;` as what is left of `raw` from `start` on,
-- with `left` more steps at most.
unfoldable pub strip_sign : ℕ → ℕ → List ℕ → List ℕ
strip_sign zero sign raw = raw
strip_sign (suc left) sign [] = []
strip_sign (suc left) sign (x ∷ raw) =
    let more = strip_sign left sign raw in if x == sign then more else x ∷ raw

-- Whether the first octet left tells another sign.
unfoldable pub needs_extra : Bool → List ℕ → Bool
needs_extra negative [] = false
needs_extra negative (x ∷ raw) =
    (not negative && not (bit_and x 0x80 == 0)) || (negative && bit_and x 0x80 == 0)

unfoldable pub encode_integer_bytes : ℕ → List ℕ
encode_integer_bytes value =
    if value == 0
    then 0 ∷ []
    else (let negative = is_negative value in
        let sign_byte = if negative then 0xff else 0 in
        let meaningful = strip_sign 7 sign_byte (raw_octets 8 value []) in
        if needs_extra negative meaningful then sign_byte ∷ meaningful else meaningful)

-- `bytes` has one element at least.
unfoldable pub decode_integer_value : List ℕ → ℕ
decode_integer_value [] = 0
decode_integer_value (x ∷ bytes) =
    fold_be (if bit_and x 0x80 == 0 then 0 else 2 ^ 64 - 1) (x ∷ bytes)
