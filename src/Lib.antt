-- ===== src/Lib.antt =====
-- librseq: the memory pools, the bit helpers, the registration of threads, the count of CPUs, and the
-- restartable sequences of eight architectures.
--
-- librseq gives programs per-CPU data. include/rseq/ holds critical sections that the kernel
-- restarts where it interrupts them, one set for each architecture; src/rseq-mempool.c allocates
-- items that have one instance per CPU, from ranges of mapped memory; src/rseq-utils.h holds the
-- arithmetic that it uses. A program takes an item from a pool, and changes the instance of the CPU
-- it runs on by a critical section.
--
-- The files, and the code that they model:
--   Base, Bits: shared names, lists and Boolean tests over the native numbers, and words of 64 bits.
--   Utils: src/rseq-utils.h. Utils/Defs has `rseq_align`, `rseq_fls_u64`, `rseq_fls_u32`,
--     `rseq_get_count_order_ulong`, `is_pow2` and `offset_align`, the other files their theory.
--   Critical: include/rseq/arch/. Critical/Machine has the instructions, a thread's state, what the
--     kernel may do where it interrupts, and the runs; Critical/Pseudo the pseudo-code of
--     include/rseq/pseudocode.h; Critical/Quiet and Critical/Entry the theory of interrupted runs;
--     Critical/Shape what stands around every section; Critical/Lands what running a section finds;
--     Critical/Implements the guarantee for a section that lands where the pseudo-code says. The
--     sections of x86/bits.h for x86-64 are the instruction lists of Critical/Code, with
--     Critical/Sections, Critical/Copy and Critical/Atomic; those of riscv/bits.h, aarch64/bits.h,
--     ppc/bits.h, mips/bits.h and s390/bits.h, with the macros of riscv.h, aarch64.h, ppc.h, mips.h
--     and s390.h, are in Critical/Riscv, Critical/Aarch64, Critical/Ppc, Critical/Mips and
--     Critical/S390, with a child Code each; those of arm/bits.h, with arm.h, in Critical/Arm, and
--     those of x86/bits.h for i386 in Critical/I386. Critical/Words says what a word is.
--     Critical/Dispatch is include/rseq/rseq.h: the helpers that choose a section by the memory order
--     and by the field of arch/templates/bits.h, over an interface, ArchSections, that
--     Critical/Dispatch/Archs fills for each architecture; Critical/Dispatch/Chosen says which section
--     is chosen, and Critical/Dispatch/Served what the call then does.
--   Registration: src/rseq.c, the variables of the file and the functions that change them, and in
--     Registration/Sizes what holds of the sizes that are registered and shown.
--   Smp: src/smp.c, the length of arrays indexed by CPU ids; Smp/Mask is about the mask of CPUs and
--     Smp/Directory about the fallback.
--   Mempool: src/rseq-mempool.c. Mempool/Types has the structures, Mempool/Attr the attributes and
--     their setters, Mempool/Create the validation of `rseq_mempool_create`, with the rest of
--     it in Mempool/Create/Pool, Mempool/Addr the addresses in a range, Mempool/Memory a byte memory
--     with shared (copy-on-write) mappings, of which its CowMap has one,
--     Mempool/Items what is written to and compared in an item, Mempool/Bitmap the allocation bitmap,
--     Mempool/Mmap `aligned_mmap_anonymous`, Mempool/Range the creation and destruction of ranges,
--     Mempool/Alloc malloc and free, whose children are about fresh and freed items, Mempool/Destroy
--     the destruction of a pool and the checks before it, whose children say what each check means,
--     and Mempool/Set the pool sets, with the rule by which they ask their pools in Mempool/Set/Tries.
--
-- How the code became definitions:
--   A `size_t`, `uintptr_t` or `unsigned long` is a number below 2 ^ 64, and its wrap-around is
--   written out; an `int` that may be negative is an integer, and a `long` that becomes an `int` is
--   reduced modulo 2 ^ 32. The target is LP64. A structure is a
--   record, a pointer that may be null an Option. A call returns, calls `abort()`, or meets behaviour
--   that C does not define: Mempool.Types.Outcome. What the kernel and the C library answer
--   (`mmap`, `munmap`, `madvise`, `calloc`, `sysconf`) is a parameter: MapCalls, RangeCalls. The memory
--   is a parameter too, whose laws say which bytes a write changes; those that share a page until they
--   are written follow one another. The pool's mutex makes malloc and free one step each.
--   The memory of a critical section stands for what the threads of one CPU write, and changes under a
--   thread only where that is interrupted. Of the kernel it is assumed what include/rseq/abi.h says of
--   `rseq_cs`: an interrupt in the range of the descriptor resumes at the abort address, another one
--   where it struck.
--   The sections are built without RSEQ_COMPARE_TWICE and fault injection, on Arm and i386 for 32 bits
--   and elsewhere with the macros for 64 bits. Loads
--   and stores take effect in the order of the instructions, so that a barrier does nothing: the
--   memory order of a release store towards other CPUs is not part of the model. A word
--   has the bytes that the memory's `word_bytes` says, eight or four, the least significant first; the
--   pool allocator's words have eight. The pseudo-code and the sections read words alike,
--   so nothing is said of the byte order of the big-endian architectures. The loops of the allocator
--   are recursions on the number of rounds left; only Critical/Quiet and Critical/Lands count steps,
--   to find where a section is left, and each section has its number of steps.
--
-- Not modelled: messages on stderr, names of pools, and what `errno` holds after a system call. The
-- macros for the 32-bit builds of RISC-V, PowerPC, MIPS and s390, the accessors of the thread's rseq
-- area in include/rseq/rseq.h, the threads that race for the initialisation in src/rseq.c and its
-- queries, the reads of the files in src/smp.c and the lists of src/list.h are left for later work.
-- So are the copies of AArch64 and PowerPC, which Critical/Dispatch/Archs leaves out: the one copies
-- from the end, and agrees with the pseudo-code only where source and destination are apart, the
-- other moves its operands to registers before the descriptor is stored, where an interrupt of the
-- model may change a register. In Mempool/Create the count of CPUs that src/smp.c detects is an
-- argument. In Mempool/Set no pool is added to a set between the searches of one malloc.
pub mod Base
pub mod Bits
pub mod Critical
pub mod Mempool
pub mod Registration
pub mod Smp
pub mod Utils
