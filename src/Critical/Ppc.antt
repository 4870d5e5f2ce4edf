-- ===== src/Critical/Ppc.antt =====
-- PowerPC: include/rseq/arch/ppc.h and include/rseq/arch/ppc/bits.h, without the copy.
pub mod Code
mod Sections
pub mod Atomic
mod Examples
