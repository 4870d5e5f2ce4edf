-- ===== src/Critical.antt =====
-- The critical sections of include/rseq/arch/: the machine they run on, the pseudo-code of
-- include/rseq/pseudocode.h that they implement, and the instructions of each architecture.
pub mod Words
pub mod Machine
pub mod Pseudo
pub mod Quiet
pub mod Entry
mod Instrs
pub mod Lands
mod Shape
pub mod Implements
pub mod Code
mod Sections
mod Copy
pub mod Atomic
pub mod Riscv
pub mod S390
pub mod Mips
pub mod Ppc
pub mod Aarch64
pub mod Arm
pub mod I386
pub mod Dispatch
mod Examples
