-- ===== src/Int64.antt =====
-- `int64_t` as its bit pattern, a number below 2 ^ 64.
use asn1pp.Prelude.{ℕ, ◌+◌, ◌%◌, ◌^◌, ◌<◌, ◌≡◌, Bool, false, ltb, not}

abbrev pub IsInt64 : ℕ → Type 0
IsInt64 v = v < 2 ^ 64

-- `value < 0`
abbrev pub is_negative : ℕ → Bool
is_negative v = not (ltb v (2 ^ 63))

-- `a < b` on `int64_t`
abbrev pub signed_lt : ℕ → ℕ → Bool
signed_lt a b = ltb ((a + 2 ^ 63) % 2 ^ 64) ((b + 2 ^ 63) % 2 ^ 64)

-- An `int64_t` of the range, in the signed order.
pub record InRange (lo hi value : ℕ) : Type 0 where
  pub above : signed_lt value lo ≡ false
  pub below : signed_lt hi value ≡ false
  pub int64 : IsInt64 value
