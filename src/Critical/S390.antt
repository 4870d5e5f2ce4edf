-- ===== src/Critical/S390.antt =====
-- s390x: include/rseq/arch/s390.h and include/rseq/arch/s390/bits.h.
pub mod Code
mod Sections
mod Copy
pub mod Atomic
mod Examples
