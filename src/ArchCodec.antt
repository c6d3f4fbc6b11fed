-- ===== src/ArchCodec.antt =====
-- libs/codec/arch_codec.hpp over libs/arch/scalar.hpp: the batch operations, in a build with no
-- SIMD backend. Arrays that a call takes side by side are one list.
use asn1pp.Prelude.{
  ℕ, zero, suc, ◌+◌, ◌-◌, ◌*◌, ◌/◌, ◌%◌, ◌^◌, Bool, not, ◌&&◌, ◌||◌, List, [], ◌∷◌, ◌++◌,
  if◌then◌else◌, ltb, ◌==◌, length, take, set, bit_and, bit_or, fold_be,
}
use asn1pp.ErrorCode.{ErrorCode}
use asn1pp.Int64.{signed_lt}

-- `scalar::load_u64_be`
unfoldable pub load_u64_be : List ℕ → ℕ → ℕ
load_u64_be p n = if n == 0 then 0 else fold_be 0 (take n p)

-- `scalar::store_u64_be`: `for (i = n; i > 0; --i) { p[i - 1] = v & 0xFF; v >>= 8; }`.
-- The stores are inside `p`: the callers fault where the buffer of a slot is shorter than `n`.
unfoldable pub store_u64_be : List ℕ → ℕ → ℕ → List ℕ
store_u64_be p v zero = p
store_u64_be p v (suc i) = store_u64_be (set p i (bit_and v 0xff % 256)) (v / 2 ^ 8) i

-- One round of `batch_decode_integers`: `errors[i]` and `out[i]`.
unfoldable pub decode_slot : List ℕ → ℕ → ErrorCode × ℕ
decode_slot p n =
    let raw = load_u64_be p n in
    if n == 0
    then (ErrorCode.invalid_length, 0)
    else if ltb 8 n
    then (ErrorCode.buffer_overflow, 0)
    else (let negative = not (bit_and (raw / 2 ^ (n * 8 - 1)) 1 == 0) in
        (
          ErrorCode.ok,
          (if negative && ltb n 8 then bit_or raw ((2 ^ 64 - 1) * 2 ^ (n * 8) % 2 ^ 64) else raw),
        ))

unfoldable pub batch_decode_integers : List (List ℕ × ℕ) → List (ErrorCode × ℕ)
batch_decode_integers [] = []
batch_decode_integers ((p, n) ∷ slots) = decode_slot p n ∷ batch_decode_integers slots

-- Whether an `int64_t` lies outside what `n` octets hold; `-(1 << k)` is `2 ^ 64 - 2 ^ k`.
unfoldable pub out_of_octets : ℕ → ℕ → Bool
out_of_octets value n =
    ltb n 8 && (signed_lt value (2 ^ 64 - 2 ^ (n * 8 - 1)) || signed_lt (2 ^ (n * 8 - 1) - 1) value)

-- One round of `batch_encode_integers`: `errors[i]` and `raw_values[i]`.
unfoldable pub check_slot : ℕ → ℕ → ErrorCode × ℕ
check_slot value n =
    if n == 0
    then (ErrorCode.invalid_length, 0)
    else if ltb 8 n
    then (ErrorCode.buffer_overflow, 0)
    else if out_of_octets value n
    then (ErrorCode.buffer_overflow, 0)
    else (ErrorCode.ok, value)

-- The errors, and what the buffers hold afterwards.
unfoldable pub batch_encode_integers : List (List ℕ × ℕ × ℕ) → List (ErrorCode × List ℕ)
batch_encode_integers [] = []
batch_encode_integers ((p, n, value) ∷ slots) =
    (let (e, raw) = check_slot value n in (e, store_u64_be p raw n)) ∷ batch_encode_integers slots

-- `batch_copy_octet_strings`: the destination from offset 0 on, and the offsets.
unfoldable pub batch_copy_octet_strings : ℕ → List (List ℕ) → List ℕ × List ℕ
batch_copy_octet_strings offset [] = ([], [])
batch_copy_octet_strings offset (src ∷ srcs) =
    let (dst, offsets) = batch_copy_octet_strings (offset + length src) srcs in
    (src ++ dst, offset ∷ offsets)

-- `batch_compare_tags`
unfoldable pub batch_compare_tags : List ℕ → ℕ → List Bool
batch_compare_tags [] expected = []
batch_compare_tags (t ∷ tags) expected = (t == expected) ∷ batch_compare_tags tags expected
