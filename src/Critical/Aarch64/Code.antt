-- ===== src/Critical/Aarch64/Code.antt =====
-- The sections of include/rseq/arch/aarch64/bits.h, with the macros of
-- include/rseq/arch/aarch64.h, built without RSEQ_COMPARE_TWICE.
use librseq.Base.{ℕ, Bool, false, List, [], ◌∷◌, ◌++◌, Option, some, none}
use librseq.Critical.Machine.{
  branch_ne, branch_eq, sub_reg32, sub_reg, store_cs, store_reg, store_mem, load_sum, load_reg,
  load_cpu, address_cs, add_reg, Instr, Program, assemble,
}
use librseq.Critical.Pseudo.{
  load_cbne_store_store, load_cbne_load_cbne_store, load_add_store, load_cbeq_store_add_load_store,
  load_cbne_store, Call,
}

-- The number of the register.
abbrev pub x15 : ℕ
x15 = 15

-- RSEQ_ASM_STORE_RSEQ_CS: `adrp`, `add` and `str`.
abbrev pub store_rseq_cs : List Instr
store_rseq_cs = address_cs ∷ address_cs ∷ store_cs ∷ []

-- RSEQ_ASM_CBNE_CPU_ID, by RSEQ_ASM_OP_CBNE32: `ldr`, `sub` and `cbnz` of 32 bits.
abbrev pub cbne_cpu_id : (cpu label : ℕ) → List Instr
cbne_cpu_id cpu label = load_cpu x15 ∷ sub_reg32 x15 cpu ∷ branch_ne x15 0 label ∷ []

-- `ldr`, `sub` and `cbnz`, or `cbz`.
abbrev pub op_cbne : (var expect label : ℕ) → List Instr
op_cbne var expect label = load_reg x15 var ∷ sub_reg x15 expect ∷ branch_ne x15 0 label ∷ []

abbrev pub op_cbeq : (var expect label : ℕ) → List Instr
op_cbeq var expect label = load_reg x15 var ∷ sub_reg x15 expect ∷ branch_eq x15 0 label ∷ []

abbrev pub op_store : (value var : ℕ) → List Instr
op_store value var = store_mem var value ∷ []

abbrev pub op_r_load : (var : ℕ) → List Instr
op_r_load var = load_reg x15 var ∷ []

abbrev pub op_r_store : (var : ℕ) → List Instr
op_r_store var = store_reg x15 var ∷ []

-- `ldr x15, [x15, offset]`.
abbrev pub op_r_load_off : (offset : ℕ) → List Instr
op_r_load_off offset = load_sum x15 offset ∷ []

abbrev pub op_r_add : (count : ℕ) → List Instr
op_r_add count = add_reg x15 count ∷ []

-- `stlr` orders the stores before it, which are in order here; else it stores as `str` does.
abbrev pub op_final_store : (release : Bool) (value var : ℕ) → List Instr
op_final_store release value var = op_store value var

abbrev pub op_r_final_store : (var : ℕ) → List Instr
op_r_final_store var = store_reg x15 var ∷ []

-- The sections leave for `abort`, the label 4, or for `ne`, the C label `ne` or `eq`.
abbrev pub load_cbne_store_body : (v expect newv cpu : ℕ) → (abort ne : ℕ) → List Instr
load_cbne_store_body v expect newv cpu abort ne =
    cbne_cpu_id cpu abort ++ op_cbne v expect ne ++ op_final_store false newv v

unfoldable pub load_cbne_store_code : (v expect newv cpu : ℕ) → Program
load_cbne_store_code v expect newv cpu =
    assemble store_rseq_cs (load_cbne_store_body v expect newv cpu) []

abbrev pub load_cbeq_store_add_load_store_body :
    (v expectnot voffp load cpu : ℕ) → (abort ne : ℕ) → List Instr
load_cbeq_store_add_load_store_body v expectnot voffp load cpu abort ne =
    cbne_cpu_id cpu abort
    ++ op_cbeq v expectnot ne
    ++ op_r_load v
    ++ op_r_store load
    ++ op_r_load_off voffp
    ++ op_r_final_store v

unfoldable pub load_cbeq_store_add_load_store_code : (v expectnot voffp load cpu : ℕ) → Program
load_cbeq_store_add_load_store_code v expectnot voffp load cpu =
    assemble store_rseq_cs (load_cbeq_store_add_load_store_body v expectnot voffp load cpu) []

abbrev pub load_add_store_body : (v count cpu : ℕ) → (abort ne : ℕ) → List Instr
load_add_store_body v count cpu abort ne =
    cbne_cpu_id cpu abort ++ op_r_load v ++ op_r_add count ++ op_r_final_store v

unfoldable pub load_add_store_code : (v count cpu : ℕ) → Program
load_add_store_code v count cpu = assemble store_rseq_cs (load_add_store_body v count cpu) []

abbrev pub load_cbne_load_cbne_store_body :
    (v expect v2 expect2 newv cpu : ℕ) → (abort ne : ℕ) → List Instr
load_cbne_load_cbne_store_body v expect v2 expect2 newv cpu abort ne =
    cbne_cpu_id cpu abort
    ++ op_cbne v expect ne
    ++ op_cbne v2 expect2 ne
    ++ op_final_store false newv v

unfoldable pub load_cbne_load_cbne_store_code : (v expect v2 expect2 newv cpu : ℕ) → Program
load_cbne_load_cbne_store_code v expect v2 expect2 newv cpu =
    assemble store_rseq_cs (load_cbne_load_cbne_store_body v expect v2 expect2 newv cpu) []

abbrev pub load_cbne_store_store_body :
    (release : Bool) (v expect v2 newv2 newv cpu : ℕ) → (abort ne : ℕ) → List Instr
load_cbne_store_store_body release v expect v2 newv2 newv cpu abort ne =
    cbne_cpu_id cpu abort
    ++ op_cbne v expect ne
    ++ op_store newv2 v2
    ++ op_final_store release newv v

unfoldable pub load_cbne_store_store_code :
    (release : Bool) (v expect v2 newv2 newv cpu : ℕ) → Program
load_cbne_store_store_code release v expect v2 newv2 newv cpu =
    assemble store_rseq_cs (load_cbne_store_store_body release v expect v2 newv2 newv cpu) []

-- The section of a call for a CPU. The helpers with one store have no release variant.
-- The copy is not among them.
unfoldable pub aarch64_code : (release : Bool) → Call → ℕ → Option Program
aarch64_code false (load_cbne_store v expect newv) cpu =
    some (load_cbne_store_code v expect newv cpu)
aarch64_code false (load_cbeq_store_add_load_store v expectnot voffp load) cpu =
    some (load_cbeq_store_add_load_store_code v expectnot voffp load cpu)
aarch64_code false (load_add_store v count) cpu = some (load_add_store_code v count cpu)
aarch64_code false (load_cbne_load_cbne_store v expect v2 expect2 newv) cpu =
    some (load_cbne_load_cbne_store_code v expect v2 expect2 newv cpu)
aarch64_code release (load_cbne_store_store v expect v2 newv2 newv) cpu =
    some (load_cbne_store_store_code release v expect v2 newv2 newv cpu)
aarch64_code release call cpu = none
