-- ===== src/Mempool.antt =====
-- src/rseq-mempool.c: the per-CPU memory allocator.
pub mod Types
pub mod Decides
pub mod Addr
pub mod Memory
pub mod Items
pub mod Bitmap
pub mod Mmap
pub mod Range
pub mod Alloc
pub mod Attr
pub mod Destroy
pub mod Create
pub mod Set
pub mod Examples
