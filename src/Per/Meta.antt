-- ===== src/Per/Meta.antt =====
-- libs/codec/per: what the codec is told about a type, and the counts of bits that follow from it.
use asn1pp.Prelude.{ℕ, zero, suc, ◌+◌, ◌-◌, ◌/◌, ◌%◌, ◌^◌, Bool, if◌then◌else◌, ◌==◌}
use asn1pp.Int64.{signed_lt}

-- The members of the template argument `PerMeta` that the codec reads. `min_value` and
-- `max_value` are `int64_t`.
pub record PerMeta : Type 0 where
  pub has_range_constraint : Bool
  pub min_value : ℕ
  pub max_value : ℕ
  pub has_size_constraint : Bool
  pub min_size : ℕ
  pub max_size : ℕ
  pub normal_index_count : ℕ
  pub alternative_count : ℕ
  pub has_extension : Bool

-- `a - b` in 64 bits.
abbrev pub minus_64 : ℕ → ℕ → ℕ
minus_64 a b = (a + (2 ^ 64 - b)) % 2 ^ 64

-- `while (range > 0) { range >>= 1; ++bits; }`, with at most as many rounds as `range` has bits.
unfoldable pub count_bits : ℕ → ℕ → ℕ → ℕ
count_bits zero range bits = bits
count_bits (suc left) range bits =
    let more = count_bits left (range / 2) (bits + 1) in if range == 0 then bits else more

unfoldable pub bits_needed_unsigned : ℕ → ℕ
bits_needed_unsigned range = if range == 0 then 0 else count_bits 64 range 0

-- `static_cast<uint64_t>(max - min) + 1`
abbrev pub range_of : ℕ → ℕ → ℕ
range_of lo hi = (minus_64 hi lo + 1) % 2 ^ 64

unfoldable pub bits_needed_for_range : ℕ → ℕ → ℕ
bits_needed_for_range lo hi =
    if signed_lt hi lo then 0 else bits_needed_unsigned (minus_64 (range_of lo hi) 1)

-- `do { ++val_bytes; tmp >>= 8; } while (tmp > 0);` from `val_bytes` on; eight octets are enough.
unfoldable pub count_bytes : ℕ → ℕ → ℕ → ℕ
count_bytes zero tmp val_bytes = val_bytes
count_bytes (suc left) tmp val_bytes =
    let more = count_bytes left (tmp / 2 ^ 8) (val_bytes + 1) in
    if tmp / 2 ^ 8 == 0 then val_bytes + 1 else more
