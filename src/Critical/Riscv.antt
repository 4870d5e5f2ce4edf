-- ===== src/Critical/Riscv.antt =====
-- RISC-V: include/rseq/arch/riscv.h and include/rseq/arch/riscv/bits.h.
pub mod Code
mod Sections
mod Copy
pub mod Atomic
mod Examples
