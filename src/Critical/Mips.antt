-- ===== src/Critical/Mips.antt =====
-- MIPS: include/rseq/arch/mips.h and include/rseq/arch/mips/bits.h.
pub mod Code
mod Sections
mod Copy
pub mod Atomic
mod Examples
