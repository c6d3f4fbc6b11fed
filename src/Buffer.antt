-- ===== src/Buffer.antt =====
-- libs/buffer/buffer_view.hpp: a pointer into the caller's memory and a size.
mod Defs
mod Laws
mod Writing
mod Reading
mod Transfer
pub use Defs.{BufferView}
unfoldable pub use Defs.{view, size, peek, poke, skip, copy_out, copy_in, rewind, within}
pub use Laws.*
pub use Writing.*
pub use Reading.*
pub use Transfer.{Puts-Carried}
unfoldable pub use Transfer.{Carried}
