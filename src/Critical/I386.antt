-- ===== src/Critical/I386.antt =====
-- i386: include/rseq/arch/x86.h and include/rseq/arch/x86/bits.h.
pub mod Code
mod Sections
mod Copy
pub mod Atomic
