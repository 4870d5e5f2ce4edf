-- ===== src/Critical/I386/Code.antt =====
-- The sections of include/rseq/arch/x86/bits.h for i386, with the macros of include/rseq/arch/x86.h,
-- built without RSEQ_COMPARE_TWICE.
use librseq.Base.{ℕ, Bool, true, false, List, [], ◌∷◌, ◌++◌, Option, some, none}
use librseq.Critical.Machine.{
  count_down, inc_reg, store_byte, load_at, load_byte_low, add_reg, store_reg, store_mem, jump_eq,
  store_cs, jump_ne, compare_reg, compare_mem_reg, move_reg, load_reg, fence, compare_mem,
  compare_cpu, address_cs, add_mem, Instr, Program, assemble,
}
use librseq.Critical.Pseudo.{
  load_cbne_memcpy_store, load_cbne_store_store, load_cbne_load_cbne_store, load_add_store,
  load_cbeq_store_add_load_store, load_cbne_store, Call,
}

-- The numbers of the registers.
abbrev pub eax : ℕ
eax = 0

abbrev pub ebx : ℕ
ebx = 3

abbrev pub ecx : ℕ
ecx = 1

abbrev pub edx : ℕ
edx = 2

-- RSEQ_ASM_STORE_RSEQ_CS: `jmp`, `call`, `movl (%esp)`, `ret`, the store to `ref_ip` and `leal` for
-- the address, in the order in which they run, and `movl`.
abbrev pub store_rseq_cs : List Instr
store_rseq_cs =
    address_cs ∷ address_cs ∷ address_cs ∷ address_cs ∷ address_cs ∷ address_cs ∷ store_cs ∷ []

-- RSEQ_ASM_CBNE_CPU_ID: `cmpl` and `jnz`.
abbrev pub cbne_cpu_id : (cpu label : ℕ) → List Instr
cbne_cpu_id cpu label = compare_cpu cpu ∷ jump_ne label ∷ []

-- The locked addition to the stack, where the final store is a store-release.
abbrev pub barrier : (release : Bool) → List Instr
barrier true = fence ∷ []
barrier false = []

-- The sections leave for `abort`, the label 4, or for `ne`, the C label `ne` or `eq`. In the copy,
-- label 222 is at 17 and 333 at 23, the operands are loaded from `rseq_local`, and of the flags that
-- `inc` and `dec` set the last one is read.
abbrev pub load_cbne_store_body : (v expect newv cpu : ℕ) → (abort ne : ℕ) → List Instr
load_cbne_store_body v expect newv cpu abort ne =
    cbne_cpu_id cpu abort ++ compare_mem v expect ∷ jump_ne ne ∷ store_mem v newv ∷ []

unfoldable pub load_cbne_store_code : (v expect newv cpu : ℕ) → Program
load_cbne_store_code v expect newv cpu =
    assemble store_rseq_cs (load_cbne_store_body v expect newv cpu) []

abbrev pub load_cbeq_store_add_load_store_body :
    (v expectnot voffp load cpu : ℕ) → (abort ne : ℕ) → List Instr
load_cbeq_store_add_load_store_body v expectnot voffp load cpu abort ne =
    cbne_cpu_id cpu abort
    ++ load_reg ebx v
      ∷ compare_reg ebx expectnot
      ∷ jump_eq ne
      ∷ store_reg ebx load
      ∷ add_reg ebx voffp
      ∷ load_at ebx ebx
      ∷ store_reg ebx v
      ∷ []

unfoldable pub load_cbeq_store_add_load_store_code : (v expectnot voffp load cpu : ℕ) → Program
load_cbeq_store_add_load_store_code v expectnot voffp load cpu =
    assemble store_rseq_cs (load_cbeq_store_add_load_store_body v expectnot voffp load cpu) []

abbrev pub load_add_store_body : (v count cpu : ℕ) → (abort ne : ℕ) → List Instr
load_add_store_body v count cpu abort ne = cbne_cpu_id cpu abort ++ add_mem v count ∷ []

unfoldable pub load_add_store_code : (v count cpu : ℕ) → Program
load_add_store_code v count cpu = assemble store_rseq_cs (load_add_store_body v count cpu) []

abbrev pub load_cbne_load_cbne_store_body :
    (v expect v2 expect2 newv cpu : ℕ) → (abort ne : ℕ) → List Instr
load_cbne_load_cbne_store_body v expect v2 expect2 newv cpu abort ne =
    cbne_cpu_id cpu abort
    ++ compare_mem v expect
      ∷ jump_ne ne
      ∷ compare_mem v2 expect2
      ∷ jump_ne ne
      ∷ move_reg eax newv
      ∷ store_reg eax v
      ∷ []

unfoldable pub load_cbne_load_cbne_store_code : (v expect v2 expect2 newv cpu : ℕ) → Program
load_cbne_load_cbne_store_code v expect v2 expect2 newv cpu =
    assemble store_rseq_cs (load_cbne_load_cbne_store_body v expect v2 expect2 newv cpu) []

abbrev pub load_cbne_store_store_body :
    (release : Bool) (v expect v2 newv2 newv cpu : ℕ) → (abort ne : ℕ) → List Instr
load_cbne_store_store_body release v expect v2 newv2 newv cpu abort ne =
    cbne_cpu_id cpu abort
    ++ move_reg eax expect ∷ compare_mem_reg v eax ∷ jump_ne ne ∷ store_mem v2 newv2 ∷ []
    ++ barrier release
    ++ store_mem v newv ∷ []

unfoldable pub load_cbne_store_store_code :
    (release : Bool) (v expect v2 newv2 newv cpu : ℕ) → Program
load_cbne_store_store_code release v expect v2 newv2 newv cpu =
    assemble store_rseq_cs (load_cbne_store_store_body release v expect v2 newv2 newv cpu) []

abbrev pub load_cbne_memcpy_store_body :
    (release : Bool) (v expect dst src len newv cpu : ℕ) → (abort ne : ℕ) → List Instr
load_cbne_memcpy_store_body release v expect dst src len newv cpu abort ne =
    cbne_cpu_id cpu abort
    ++ move_reg ebx expect
      ∷ compare_mem_reg v ebx
      ∷ jump_ne ne
      ∷ move_reg ebx dst
      ∷ move_reg ecx src
      ∷ move_reg edx len
      ∷ compare_reg edx 0
      ∷ jump_eq 23
      ∷ load_byte_low eax ecx
      ∷ store_byte eax ebx
      ∷ inc_reg ecx
      ∷ inc_reg ebx
      ∷ count_down edx
      ∷ jump_ne 17
      ∷ []
    ++ barrier release
    ++ move_reg ebx newv ∷ store_reg ebx v ∷ []

unfoldable pub load_cbne_memcpy_store_code :
    (release : Bool) (v expect dst src len newv cpu : ℕ) → Program
load_cbne_memcpy_store_code release v expect dst src len newv cpu =
    assemble store_rseq_cs (load_cbne_memcpy_store_body release v expect dst src len newv cpu) []

-- The section of a call for a CPU. The helpers with one store have no release variant.
unfoldable pub i386_code : (release : Bool) → Call → ℕ → Option Program
i386_code false (load_cbne_store v expect newv) cpu = some (load_cbne_store_code v expect newv cpu)
i386_code false (load_cbeq_store_add_load_store v expectnot voffp load) cpu =
    some (load_cbeq_store_add_load_store_code v expectnot voffp load cpu)
i386_code false (load_add_store v count) cpu = some (load_add_store_code v count cpu)
i386_code false (load_cbne_load_cbne_store v expect v2 expect2 newv) cpu =
    some (load_cbne_load_cbne_store_code v expect v2 expect2 newv cpu)
i386_code release (load_cbne_store_store v expect v2 newv2 newv) cpu =
    some (load_cbne_store_store_code release v expect v2 newv2 newv cpu)
i386_code release (load_cbne_memcpy_store v expect dst src len newv) cpu =
    some (load_cbne_memcpy_store_code release v expect dst src len newv cpu)
i386_code release call cpu = none
