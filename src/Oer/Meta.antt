-- ===== src/Oer/Meta.antt =====
-- libs/codec/oer: what the codec is told about a type, and the widths that follow from it.
use asn1pp.Prelude.{ℕ, ◌-◌, ◌^◌, Bool, not, ◌&&◌, if◌then◌else◌, leb}
use asn1pp.Int64.{is_negative, signed_lt}

-- The members of the template argument `OerMeta` that the codec reads. `min_value` and
-- `max_value` are `int64_t`.
pub record OerMeta : Type 0 where
  pub has_range_constraint : Bool
  pub min_value : ℕ
  pub max_value : ℕ
  pub has_size_constraint : Bool
  pub min_size : ℕ
  pub max_size : ℕ
  pub root_count : ℕ
  pub alternative_count : ℕ
  pub has_extension : Bool
  pub optional_count : ℕ

-- `a <= b` on `int64_t`
abbrev pub signed_le : ℕ → ℕ → Bool
signed_le a b = not (signed_lt b a)

-- The first branch is that of unsigned ranges; `-128` is `2 ^ 64 - 128`.
unfoldable pub range_byte_width : ℕ → ℕ → ℕ
range_byte_width range_min range_max =
    if not (is_negative range_min)
    then (if signed_le range_max 255
        then 1
        else if signed_le range_max 65535
        then 2
        else if signed_le range_max 4294967295
        then 4
        else 8)
    else if signed_le (2 ^ 64 - 128) range_min && signed_le range_max 127
    then 1
    else if signed_le (2 ^ 64 - 32768) range_min && signed_le range_max 32767
    then 2
    else if signed_le (2 ^ 64 - 2147483648) range_min && signed_le range_max 2147483647
    then 4
    else 8

unfoldable pub integer_byte_width : OerMeta → ℕ
integer_byte_width m =
    if m.has_range_constraint then range_byte_width m.min_value m.max_value else 0

unfoldable pub index_byte_width : ℕ → ℕ
index_byte_width count = if leb count 255 then 1 else if leb count 65535 then 2 else 4
