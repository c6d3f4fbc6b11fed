-- ===== src/BitOps.antt =====
-- libs/buffer/bit_ops.hpp: numbers of any width in a buffer of octets, from a position in bits on.
pub mod Defs
pub mod Octets
pub mod Laws
pub mod Numbers
pub mod Bounds
pub mod Transfer
