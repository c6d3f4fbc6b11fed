-- ===== src/Per.antt =====
-- libs/codec/per: the packed encoding rules, in their unaligned variant.
pub mod Meta
pub mod Encoder
pub mod Decoder
pub mod Lengths
pub mod LengthReading
pub mod Strings
pub mod BitStrings
pub mod Counts
pub mod Indexes
pub mod Whole
pub mod IntegerOctets
pub mod Integers
pub mod Transport
pub mod Negative
pub mod Reading
pub mod Answers
pub mod Safety
pub mod StringSafety
