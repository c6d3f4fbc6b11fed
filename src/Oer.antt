-- ===== src/Oer.antt =====
-- libs/codec/oer: the octet encoding rules.
pub mod Meta
pub mod Octets
pub mod Sequence
pub mod Encoder
pub mod Decoder
pub mod Writing
pub mod Strings
pub mod Reading
pub mod BitStrings
pub mod Integers
pub mod Numbers
pub mod Batched
pub mod Refused
pub mod Packing
pub mod Preamble
pub mod Coer
pub mod Transport
pub mod Safety
