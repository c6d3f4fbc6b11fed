-- ===== src/ErrorCode.antt =====
-- libs/codec/result.hpp: `error_code`.
pub data ErrorCode : Type 0 where
  ok buffer_overflow buffer_underflow invalid_tag invalid_length constraint_violation : ErrorCode
  parse_error unexpected_extension value_out_of_range encoding_error : ErrorCode
