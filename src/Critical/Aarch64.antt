-- ===== src/Critical/Aarch64.antt =====
-- AArch64: include/rseq/arch/aarch64.h and include/rseq/arch/aarch64/bits.h, without the copy.
pub mod Code
mod Sections
mod Stores
pub mod Atomic
mod Examples
