-- ===== src/Tlv.antt =====
-- libs/codec/ber/tlv.hpp: identifier and length octets, and whole TLVs.
mod Defs
pub mod Length
pub mod Identifier
pub mod TagReading
pub mod Whole
pub mod Safety
unfoldable pub use Defs.{
  count_groups, encoded_tag_size, put_groups, encode_tag, tag_loop, decode_tag,
}
unfoldable pub use Defs.{
  count_octets, encoded_length_size, put_length, encode_length, length_loop, decode_length,
}
unfoldable pub use Defs.{encode_end_of_content, encode_tlv, decode_tlv_header}
