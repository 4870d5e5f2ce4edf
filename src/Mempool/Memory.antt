-- ===== src/Mempool/Memory.antt =====
-- The memory that the allocator reads and writes. Memory mappings are the kernel's, so a memory is
-- a parameter: bytes are loaded and stored through it.
mod Defs
pub mod ByteMap
pub mod CowMap
mod Words
mod Frame
unfoldable pub use Defs.*
pub use Words.*
pub use Frame.*
