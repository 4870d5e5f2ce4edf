-- ===== src/Critical/Arm/Code.antt =====
-- The sections of include/rseq/arch/arm/bits.h, with the macros of include/rseq/arch/arm.h, built
-- without RSEQ_COMPARE_TWICE.
use librseq.Base.{ℕ, Bool, true, false, List, [], ◌∷◌, ◌++◌, Option, some, none}
use librseq.Critical.Machine.{
  count_down, inc_reg, store_byte, load_byte, load_at, store_reg, jump_ne, jump_eq, compare_regs,
  store_cs, move_reg, compare_reg, add_reg, store_mem, load_reg, load_cpu, fence, address_cs, Instr,
  Program, assemble,
}
use librseq.Critical.Pseudo.{
  load_cbne_memcpy_store, load_cbne_store_store, load_cbne_load_cbne_store, load_add_store,
  load_cbeq_store_add_load_store, load_cbne_store, Call,
}

-- The numbers of the registers.
abbrev pub r0 : ℕ
r0 = 0

abbrev pub r5 : ℕ
r5 = 5

abbrev pub r6 : ℕ
r6 = 6

abbrev pub r7 : ℕ
r7 = 7

-- RSEQ_ASM_STORE_RSEQ_CS: `adr` and `str`.
abbrev pub store_rseq_cs : List Instr
store_rseq_cs = address_cs ∷ store_cs ∷ []

-- RSEQ_ASM_CBNE_CPU_ID: `ldr`, `cmp` and `bne`.
abbrev pub cbne_cpu_id : (cpu label : ℕ) → List Instr
cbne_cpu_id cpu label = load_cpu r0 ∷ compare_reg r0 cpu ∷ jump_ne label ∷ []

-- `ldr r0, %[var]`, `cmp %[expect], r0`, `bne`.
abbrev pub op_cbne : (var expect label : ℕ) → List Instr
op_cbne var expect label = load_reg r0 var ∷ compare_reg r0 expect ∷ jump_ne label ∷ []

-- `dmb`, where the final store is a store-release.
abbrev pub barrier : (release : Bool) → List Instr
barrier true = fence ∷ []
barrier false = []

-- The sections leave for `abort`, the label 4, or for `ne`, the C label `ne` or `eq`. In the copy,
-- label 222 is at 14 and 333 at 20, the operands are loaded from `rseq_local`, and of the flags that
-- `adds` and `subs` set the last one is read.
abbrev pub load_cbne_store_body : (v expect newv cpu : ℕ) → (abort ne : ℕ) → List Instr
load_cbne_store_body v expect newv cpu abort ne =
    cbne_cpu_id cpu abort ++ op_cbne v expect ne ++ store_mem v newv ∷ []

unfoldable pub load_cbne_store_code : (v expect newv cpu : ℕ) → Program
load_cbne_store_code v expect newv cpu =
    assemble store_rseq_cs (load_cbne_store_body v expect newv cpu) []

abbrev pub load_cbeq_store_add_load_store_body :
    (v expectnot voffp load cpu : ℕ) → (abort ne : ℕ) → List Instr
load_cbeq_store_add_load_store_body v expectnot voffp load cpu abort ne =
    cbne_cpu_id cpu abort
    ++ load_reg r0 v
      ∷ compare_reg r0 expectnot
      ∷ jump_eq ne
      ∷ store_reg r0 load
      ∷ add_reg r0 voffp
      ∷ load_at r0 r0
      ∷ store_reg r0 v
      ∷ []

unfoldable pub load_cbeq_store_add_load_store_code : (v expectnot voffp load cpu : ℕ) → Program
load_cbeq_store_add_load_store_code v expectnot voffp load cpu =
    assemble store_rseq_cs (load_cbeq_store_add_load_store_body v expectnot voffp load cpu) []

abbrev pub load_add_store_body : (v count cpu : ℕ) → (abort ne : ℕ) → List Instr
load_add_store_body v count cpu abort ne =
    cbne_cpu_id cpu abort ++ load_reg r0 v ∷ add_reg r0 count ∷ store_reg r0 v ∷ []

unfoldable pub load_add_store_code : (v count cpu : ℕ) → Program
load_add_store_code v count cpu = assemble store_rseq_cs (load_add_store_body v count cpu) []

abbrev pub load_cbne_load_cbne_store_body :
    (v expect v2 expect2 newv cpu : ℕ) → (abort ne : ℕ) → List Instr
load_cbne_load_cbne_store_body v expect v2 expect2 newv cpu abort ne =
    cbne_cpu_id cpu abort ++ op_cbne v expect ne ++ op_cbne v2 expect2 ne ++ store_mem v newv ∷ []

unfoldable pub load_cbne_load_cbne_store_code : (v expect v2 expect2 newv cpu : ℕ) → Program
load_cbne_load_cbne_store_code v expect v2 expect2 newv cpu =
    assemble store_rseq_cs (load_cbne_load_cbne_store_body v expect v2 expect2 newv cpu) []

abbrev pub load_cbne_store_store_body :
    (release : Bool) (v expect v2 newv2 newv cpu : ℕ) → (abort ne : ℕ) → List Instr
load_cbne_store_store_body release v expect v2 newv2 newv cpu abort ne =
    cbne_cpu_id cpu abort
    ++ op_cbne v expect ne
    ++ store_mem v2 newv2 ∷ []
    ++ barrier release
    ++ store_mem v newv ∷ []

unfoldable pub load_cbne_store_store_code :
    (release : Bool) (v expect v2 newv2 newv cpu : ℕ) → Program
load_cbne_store_store_code release v expect v2 newv2 newv cpu =
    assemble store_rseq_cs (load_cbne_store_store_body release v expect v2 newv2 newv cpu) []

abbrev pub load_cbne_memcpy_store_body :
    (release : Bool) (v expect dst src len newv cpu : ℕ) → (abort ne : ℕ) → List Instr
load_cbne_memcpy_store_body release v expect dst src len newv cpu abort ne =
    cbne_cpu_id cpu abort
    ++ load_reg r0 v
      ∷ move_reg r5 expect
      ∷ compare_regs r5 r0
      ∷ jump_ne ne
      ∷ move_reg r5 dst
      ∷ move_reg r6 src
      ∷ move_reg r7 len
      ∷ compare_reg r7 0
      ∷ jump_eq 20
      ∷ load_byte r0 r6
      ∷ store_byte r0 r5
      ∷ inc_reg r6
      ∷ inc_reg r5
      ∷ count_down r7
      ∷ jump_ne 14
      ∷ []
    ++ barrier release
    ++ move_reg r5 newv ∷ store_reg r5 v ∷ []

unfoldable pub load_cbne_memcpy_store_code :
    (release : Bool) (v expect dst src len newv cpu : ℕ) → Program
load_cbne_memcpy_store_code release v expect dst src len newv cpu =
    assemble store_rseq_cs (load_cbne_memcpy_store_body release v expect dst src len newv cpu) []

-- The section of a call for a CPU. The helpers with one store have no release variant.
unfoldable pub arm_code : (release : Bool) → Call → ℕ → Option Program
arm_code false (load_cbne_store v expect newv) cpu = some (load_cbne_store_code v expect newv cpu)
arm_code false (load_cbeq_store_add_load_store v expectnot voffp load) cpu =
    some (load_cbeq_store_add_load_store_code v expectnot voffp load cpu)
arm_code false (load_add_store v count) cpu = some (load_add_store_code v count cpu)
arm_code false (load_cbne_load_cbne_store v expect v2 expect2 newv) cpu =
    some (load_cbne_load_cbne_store_code v expect v2 expect2 newv cpu)
arm_code release (load_cbne_store_store v expect v2 newv2 newv) cpu =
    some (load_cbne_store_store_code release v expect v2 newv2 newv cpu)
arm_code release (load_cbne_memcpy_store v expect dst src len newv) cpu =
    some (load_cbne_memcpy_store_code release v expect dst src len newv cpu)
arm_code release call cpu = none
