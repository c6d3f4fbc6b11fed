-- ===== src/Ber.antt =====
-- libs/codec/ber: the BER encoder and decoder, and the DER checks.
pub mod Integer
pub mod Session
pub mod Decoder
pub mod Encoder
pub mod Der
pub mod Tagged
pub mod Embedded
pub mod Transport
pub mod IntegerTransport
