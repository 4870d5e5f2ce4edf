-- ===== src/Critical/Riscv/Code.antt =====
-- The sections of include/rseq/arch/riscv/bits.h on RV64, with the macros of
-- include/rseq/arch/riscv.h, built without RSEQ_COMPARE_TWICE.
use librseq.Base.{◌+◌, ℕ, Bool, true, false, List, [], ◌∷◌, ◌++◌, Option, some, none}
use librseq.Critical.Machine.{
  inc_reg, dec_reg, store_byte, load_byte_signed, move_reg, store_cs, load_at, branch_ne, branch_eq,
  store_reg, store_mem, load_reg, load_cpu, fence, branch_zero, address_cs, add_reg, Instr, Program,
  assemble,
}
use librseq.Critical.Pseudo.{
  load_cbne_memcpy_store, load_cbne_store_store, load_cbne_load_cbne_store, load_add_store,
  load_cbeq_store_add_load_store, load_cbne_store, Call,
}

-- The numbers of the registers.
abbrev pub t6 : ℕ
t6 = 31

abbrev pub t5 : ℕ
t5 = 30

abbrev pub t4 : ℕ
t4 = 29

abbrev pub t3 : ℕ
t3 = 28

-- RSEQ_ASM_STORE_RSEQ_CS: `la` and the store.
abbrev pub store_rseq_cs : List Instr
store_rseq_cs = address_cs ∷ store_cs ∷ []

-- RSEQ_ASM_CBNE_CPU_ID, by RSEQ_ASM_OP_CBNE32.
abbrev pub cbne_cpu_id : (cpu label : ℕ) → List Instr
cbne_cpu_id cpu label = load_cpu t6 ∷ branch_ne t6 cpu label ∷ []

abbrev pub op_cbne : (var expect label : ℕ) → List Instr
op_cbne var expect label = load_reg t6 var ∷ branch_ne t6 expect label ∷ []

abbrev pub op_cbeq : (var expect label : ℕ) → List Instr
op_cbeq var expect label = load_reg t6 var ∷ branch_eq t6 expect label ∷ []

abbrev pub op_store : (value var : ℕ) → List Instr
op_store value var = store_mem var value ∷ []

abbrev pub op_r_load : (var : ℕ) → List Instr
op_r_load var = load_reg t6 var ∷ []

abbrev pub op_r_store : (var : ℕ) → List Instr
op_r_store var = store_reg t6 var ∷ []

abbrev pub op_r_load_off : (offset : ℕ) → List Instr
op_r_load_off offset = add_reg t6 offset ∷ load_at t6 t6 ∷ []

abbrev pub op_r_add : (count : ℕ) → List Instr
op_r_add count = add_reg t6 count ∷ []

-- RSEQ_ASM_OP_FINAL_STORE_RELEASE, or RSEQ_ASM_OP_FINAL_STORE where the store is relaxed.
abbrev pub op_final_store : (release : Bool) (value var : ℕ) → List Instr
op_final_store true value var = fence ∷ op_store value var
op_final_store false value var = op_store value var

abbrev pub op_r_final_store : (var : ℕ) → List Instr
op_r_final_store var = store_reg t6 var ∷ []

-- RSEQ_ASM_OP_R_BYTEWISE_MEMCPY, from the address `start` on, for the operands in registers.
abbrev pub op_r_bytewise_memcpy : (dst src len start : ℕ) → List Instr
op_r_bytewise_memcpy dst src len start =
    branch_zero len (start + 10)
    ∷ move_reg t6 len
    ∷ move_reg t5 src
    ∷ move_reg t4 dst
    ∷ load_byte_signed t3 t5
    ∷ store_byte t3 t4
    ∷ dec_reg t6
    ∷ inc_reg t5
    ∷ inc_reg t4
    ∷ branch_ne t6 0 (start + 4)
    ∷ []

-- The sections leave for `abort`, the label 4, or for `ne`, the C label `ne` or `eq`.
abbrev pub load_cbne_store_body : (v expect newv cpu : ℕ) → (abort ne : ℕ) → List Instr
load_cbne_store_body v expect newv cpu abort ne =
    cbne_cpu_id cpu abort ++ op_cbne v expect ne ++ op_final_store false newv v

unfoldable pub load_cbne_store_code : (v expect newv cpu : ℕ) → Program
load_cbne_store_code v expect newv cpu =
    assemble store_rseq_cs (load_cbne_store_body v expect newv cpu) []

abbrev pub load_cbeq_store_add_load_store_body :
    (v expectnot voffp load cpu : ℕ) → (abort ne : ℕ) → List Instr
load_cbeq_store_add_load_store_body v expectnot voffp load cpu abort ne =
    cbne_cpu_id cpu abort
    ++ op_cbeq v expectnot ne
    ++ op_r_load v
    ++ op_r_store load
    ++ op_r_load_off voffp
    ++ op_r_final_store v

unfoldable pub load_cbeq_store_add_load_store_code : (v expectnot voffp load cpu : ℕ) → Program
load_cbeq_store_add_load_store_code v expectnot voffp load cpu =
    assemble store_rseq_cs (load_cbeq_store_add_load_store_body v expectnot voffp load cpu) []

abbrev pub load_add_store_body : (v count cpu : ℕ) → (abort ne : ℕ) → List Instr
load_add_store_body v count cpu abort ne =
    cbne_cpu_id cpu abort ++ op_r_load v ++ op_r_add count ++ op_r_final_store v

unfoldable pub load_add_store_code : (v count cpu : ℕ) → Program
load_add_store_code v count cpu = assemble store_rseq_cs (load_add_store_body v count cpu) []

abbrev pub load_cbne_load_cbne_store_body :
    (v expect v2 expect2 newv cpu : ℕ) → (abort ne : ℕ) → List Instr
load_cbne_load_cbne_store_body v expect v2 expect2 newv cpu abort ne =
    cbne_cpu_id cpu abort
    ++ op_cbne v expect ne
    ++ op_cbne v2 expect2 ne
    ++ op_final_store false newv v

unfoldable pub load_cbne_load_cbne_store_code : (v expect v2 expect2 newv cpu : ℕ) → Program
load_cbne_load_cbne_store_code v expect v2 expect2 newv cpu =
    assemble store_rseq_cs (load_cbne_load_cbne_store_body v expect v2 expect2 newv cpu) []

abbrev pub load_cbne_store_store_body :
    (release : Bool) (v expect v2 newv2 newv cpu : ℕ) → (abort ne : ℕ) → List Instr
load_cbne_store_store_body release v expect v2 newv2 newv cpu abort ne =
    cbne_cpu_id cpu abort
    ++ op_cbne v expect ne
    ++ op_store newv2 v2
    ++ op_final_store release newv v

unfoldable pub load_cbne_store_store_code :
    (release : Bool) (v expect v2 newv2 newv cpu : ℕ) → Program
load_cbne_store_store_code release v expect v2 newv2 newv cpu =
    assemble store_rseq_cs (load_cbne_store_store_body release v expect v2 newv2 newv cpu) []

abbrev pub load_cbne_memcpy_store_body :
    (release : Bool) (v expect dst src len newv cpu : ℕ) → (abort ne : ℕ) → List Instr
load_cbne_memcpy_store_body release v expect dst src len newv cpu abort ne =
    cbne_cpu_id cpu abort
    ++ op_cbne v expect ne
    ++ op_r_bytewise_memcpy dst src len 6
    ++ op_final_store release newv v

unfoldable pub load_cbne_memcpy_store_code :
    (release : Bool) (v expect dst src len newv cpu : ℕ) → Program
load_cbne_memcpy_store_code release v expect dst src len newv cpu =
    assemble store_rseq_cs (load_cbne_memcpy_store_body release v expect dst src len newv cpu) []

-- The section of a call for a CPU. The helpers with one store have no release variant.
unfoldable pub riscv_code : (release : Bool) → Call → ℕ → Option Program
riscv_code false (load_cbne_store v expect newv) cpu = some (load_cbne_store_code v expect newv cpu)
riscv_code false (load_cbeq_store_add_load_store v expectnot voffp load) cpu =
    some (load_cbeq_store_add_load_store_code v expectnot voffp load cpu)
riscv_code false (load_add_store v count) cpu = some (load_add_store_code v count cpu)
riscv_code false (load_cbne_load_cbne_store v expect v2 expect2 newv) cpu =
    some (load_cbne_load_cbne_store_code v expect v2 expect2 newv cpu)
riscv_code release (load_cbne_store_store v expect v2 newv2 newv) cpu =
    some (load_cbne_store_store_code release v expect v2 newv2 newv cpu)
riscv_code release (load_cbne_memcpy_store v expect dst src len newv) cpu =
    some (load_cbne_memcpy_store_code release v expect dst src len newv cpu)
riscv_code release call cpu = none
