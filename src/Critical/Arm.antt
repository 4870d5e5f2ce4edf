-- ===== src/Critical/Arm.antt =====
-- Arm: include/rseq/arch/arm.h and include/rseq/arch/arm/bits.h.
pub mod Code
mod Sections
mod Copy
pub mod Atomic
