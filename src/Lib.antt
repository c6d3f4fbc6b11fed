-- ===== src/Lib.antt =====
-- asn1pp: the codecs of libs/codec over the views of libs/buffer.
--
-- An encoder or a decoder is an object beside a `buffer_view`, a pointer and a size, which every
-- call advances. BER lays each value out as a TLV: identifier octets, length octets, contents
-- octets. Encoder and decoder of BER keep a batch of pending integers, `batch_buffer`, which they
-- hand to the batch operations of arch_codec.hpp when it is full, and which `flush_encode` and
-- `flush_decode` empty. The checks of DER read what the BER encoder wrote.
--
-- Files, with the sources they model:
--   Result, ErrorCode: libs/codec/result.hpp. A method that changes its object is a function from
--     the object to an `Outcome`: a result and the object afterwards, beside an error as well, or
--     `fault` where C++ leaves the behaviour undefined (an index out of bounds, a failing assert).
--   Buffer: libs/buffer/buffer_view.hpp. A view is the memory in front of its pointer (`before`)
--     and the bytes it covers (`cells`); `skip` is the `subview` that advances it, `within` a local
--     view at an offset. Buffer/Writing and Buffer/Reading say what it is to write a run of bytes
--     and to read without leaving the view.
--   Traits: libs/codec/traits.hpp. Numbers of tags are `uint32_t`.
--   Tlv: libs/codec/ber/tlv.hpp, its functions under their names in Tlv/Defs. Tlv/Identifier and
--     Tlv/Length hold the octets that X.690 8.1.2 and 8.1.3 lay down, Tlv/TagReading and Tlv/Whole
--     what is read and written, Tlv/Safety the decoders on any bytes.
--   Arch, ArchCodec, Batch: libs/arch/detect.hpp, libs/arch/scalar.hpp, libs/codec/arch_codec.hpp,
--     libs/codec/batch_buffer.hpp. Arrays that a call takes side by side are one list.
--   Ber/Integer: the contents octets of an INTEGER (`encode_integer_bytes` of
--     libs/codec/ber/ber_encoder.cpp and `decode_integer_value` of libs/codec/ber/ber_decoder.cpp).
--   Ber/Session, Ber/Encoder, Ber/Decoder: the objects of the same two files, method by method; a
--     method that leaves the batch alone is an operation on the view. Their Pending and Batched
--     modules hold the state of the batch between calls, `Ready`; Ber/Encoder/Flushed is what
--     `flush_encode` answers.
--   Ber/Der: libs/codec/ber/der_encoder.cpp, its checks.
--   Ber/Tagged: libs/codec/ber/tagged_codec.hpp, with the tag and the inner encoder as parameters.
--   Ber/Embedded: the decoders of strings that ber_decoder.cpp has for ASN1PP_EMBEDDED, with
--     ASN1PP_MAX_PDU as a parameter.
--   Ber/Transport, Ber/IntegerTransport: encoder and decoder together (Buffer/Transfer has the form
--     of such a statement).
--   Oer: libs/codec/oer. Meta holds what the templates read of `OerMeta`; Octets, Sequence and
--     Encoder are encoder.hpp, Decoder is decoder.hpp with oer_decoder.cpp, Coer is
--     coer_validator.hpp. The statements for full batches and for the octets of integers, which
--     repeat those of BER, share their definitions. Writing, Strings, BitStrings, Numbers,
--     Packing and Preamble say what is written and read, Batched and Refused how integers pass the batch,
--     Transport is encoder and decoder together, Safety the decoder on any bytes.
--   BitOps: libs/buffer/bit_ops.hpp, its functions in BitOps/Defs over the bytes of a buffer and a
--     position in bits. BitOps/Laws and Numbers take the buffer as one list of bits; Transfer and
--     Bounds say what is written, read back and written past the end.
--   Per: the unaligned variant, libs/codec/per/uper_encoder.hpp (Per/Encoder, counts of bits in
--     Per/Meta) and libs/codec/per/uper_decoder.hpp with its functions of
--     libs/codec/per/per_decoder.cpp (Per/Decoder). Lengths, LengthReading, Strings, BitStrings, Indexes,
--     Counts and Whole say what is written and read, Transport is encoder and decoder together, Reading,
--     Answers, Safety and StringSafety the decoder on any bytes, IntegerOctets and Integers the integers
--     without a constraint and the batch, Negative the size of negative ones.
--   Examples: runs at concrete inputs.
--
-- Integers. An `int64_t` is its bit pattern, a number below 2 ^ 64, and arithmetic that wraps has
-- its remainder written out; `size_t` has 64 bits. `max - min` of two `int64_t` wraps where
-- it leaves the type. Sums of the sizes of buffers and strings are not reduced; where a size comes
-- from a type or from 64 bits that are read (`need_octets` and `byte_length` of Per/Decoder), they
-- are. A vector is taken to be allocated: where it is larger than memory the source throws, and
-- the model goes on to a read behind the end of the buffer.
--
-- Loops. Those over an index are recursion on the rounds that are left. `count_groups` has fuel 5,
-- enough for the five groups of seven bits that 32 bits need, and `count_octets` fuel 8, enough
-- for the eight octets of 64 bits. `strip_sign` takes 7 steps at most, as in the source. In
-- Per, `count_bits` has 64 rounds and `count_bytes` 8, which the bits and octets of a word need,
-- `put_chunks` one round for each 16383 of the length and one more, `check_padding` one for each
-- octet of the buffer.
--
-- Not modelled: the SIMD backends (intrinsics), so that the batch operations are those of a build
-- without one, while `batch_size` takes any level; the probe of the processor, a parameter of
-- `available_simd_level`; the octets of a fixed array that a decoder leaves unset; aligned PER, JER,
-- XER and the ASN.1 compiler; templates that only declare traits of generated code.
pub mod Oer
pub mod BitOps
pub mod Per
pub mod Prelude
pub mod ErrorCode
pub mod Result
pub mod Buffer
pub mod Traits
pub mod Tlv
pub mod Int64
pub mod Arch
pub mod ArchCodec
pub mod Batch
pub mod Ber
pub mod Examples
