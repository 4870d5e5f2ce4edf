-- ===== src/Critical/Ppc/Code.antt =====
-- The sections of include/rseq/arch/ppc/bits.h on 64 bits, with the macros of
-- include/rseq/arch/ppc.h, built without RSEQ_COMPARE_TWICE.
use librseq.Base.{ℕ, Bool, true, false, List, [], ◌∷◌, ◌++◌, Option, some, none}
use librseq.Critical.Machine.{
  jump_ne, jump_eq, store_cs, compare_reg, store_reg, store_mem, load_sum, load_reg, load_cpu,
  fence, address_cs, add_reg, Instr, Program, assemble,
}
use librseq.Critical.Pseudo.{
  load_cbne_store_store, load_cbne_load_cbne_store, load_add_store, load_cbeq_store_add_load_store,
  load_cbne_store, Call,
}

-- The number of the register.
abbrev pub r17 : ℕ
r17 = 17

-- RSEQ_ASM_STORE_RSEQ_CS: five instructions for the address, and `std`.
abbrev pub store_rseq_cs : List Instr
store_rseq_cs = address_cs ∷ address_cs ∷ address_cs ∷ address_cs ∷ address_cs ∷ store_cs ∷ []

-- RSEQ_ASM_CBNE_CPU_ID: `lwz`, `cmpw` and `bne-`.
abbrev pub cbne_cpu_id : (cpu label : ℕ) → List Instr
cbne_cpu_id cpu label = load_cpu r17 ∷ compare_reg r17 cpu ∷ jump_ne label ∷ []

abbrev pub op_cbne : (var expect label : ℕ) → List Instr
op_cbne var expect label = load_reg r17 var ∷ compare_reg r17 expect ∷ jump_ne label ∷ []

abbrev pub op_cbeq : (var expect label : ℕ) → List Instr
op_cbeq var expect label = load_reg r17 var ∷ compare_reg r17 expect ∷ jump_eq label ∷ []

abbrev pub op_store : (value var : ℕ) → List Instr
op_store value var = store_mem var value ∷ []

abbrev pub op_r_load : (var : ℕ) → List Instr
op_r_load var = load_reg r17 var ∷ []

abbrev pub op_r_store : (var : ℕ) → List Instr
op_r_store var = store_reg r17 var ∷ []

abbrev pub op_r_add : (count : ℕ) → List Instr
op_r_add count = add_reg r17 count ∷ []

-- RSEQ_ASM_OP_R_LOADX: `ldx` adds the offset to the address.
abbrev pub op_r_loadx : (voffp : ℕ) → List Instr
op_r_loadx voffp = load_sum r17 voffp ∷ []

abbrev pub op_r_final_store : (var : ℕ) → List Instr
op_r_final_store var = store_reg r17 var ∷ []

abbrev pub op_final_store : (value var : ℕ) → List Instr
op_final_store value var = store_mem var value ∷ []

-- `lwsync`, which the release variants have before the final store.
abbrev pub lwsync : (release : Bool) → List Instr
lwsync true = fence ∷ []
lwsync false = []

-- The sections leave for `abort`, the label 4, or for `ne`, the C label `ne` or `eq`.
abbrev pub load_cbne_store_body : (v expect newv cpu : ℕ) → (abort ne : ℕ) → List Instr
load_cbne_store_body v expect newv cpu abort ne =
    cbne_cpu_id cpu abort ++ op_cbne v expect ne ++ op_final_store newv v

unfoldable pub load_cbne_store_code : (v expect newv cpu : ℕ) → Program
load_cbne_store_code v expect newv cpu =
    assemble store_rseq_cs (load_cbne_store_body v expect newv cpu) []

abbrev pub load_cbeq_store_add_load_store_body :
    (v expectnot voffp load cpu : ℕ) → (abort ne : ℕ) → List Instr
load_cbeq_store_add_load_store_body v expectnot voffp load cpu abort ne =
    cbne_cpu_id cpu abort
    ++ op_cbeq v expectnot ne
    ++ op_r_load v
    ++ op_r_store load
    ++ op_r_loadx voffp
    ++ op_r_final_store v

unfoldable pub load_cbeq_store_add_load_store_code : (v expectnot voffp load cpu : ℕ) → Program
load_cbeq_store_add_load_store_code v expectnot voffp load cpu =
    assemble store_rseq_cs (load_cbeq_store_add_load_store_body v expectnot voffp load cpu) []

abbrev pub load_add_store_body : (v count cpu : ℕ) → (abort ne : ℕ) → List Instr
load_add_store_body v count cpu abort ne =
    cbne_cpu_id cpu abort ++ op_r_load v ++ op_r_add count ++ op_r_final_store v

unfoldable pub load_add_store_code : (v count cpu : ℕ) → Program
load_add_store_code v count cpu = assemble store_rseq_cs (load_add_store_body v count cpu) []

abbrev pub load_cbne_load_cbne_store_body :
    (v expect v2 expect2 newv cpu : ℕ) → (abort ne : ℕ) → List Instr
load_cbne_load_cbne_store_body v expect v2 expect2 newv cpu abort ne =
    cbne_cpu_id cpu abort ++ op_cbne v expect ne ++ op_cbne v2 expect2 ne ++ op_final_store newv v

unfoldable pub load_cbne_load_cbne_store_code : (v expect v2 expect2 newv cpu : ℕ) → Program
load_cbne_load_cbne_store_code v expect v2 expect2 newv cpu =
    assemble store_rseq_cs (load_cbne_load_cbne_store_body v expect v2 expect2 newv cpu) []

abbrev pub load_cbne_store_store_body :
    (release : Bool) (v expect v2 newv2 newv cpu : ℕ) → (abort ne : ℕ) → List Instr
load_cbne_store_store_body release v expect v2 newv2 newv cpu abort ne =
    cbne_cpu_id cpu abort
    ++ op_cbne v expect ne
    ++ op_store newv2 v2
    ++ lwsync release
    ++ op_final_store newv v

unfoldable pub load_cbne_store_store_code :
    (release : Bool) (v expect v2 newv2 newv cpu : ℕ) → Program
load_cbne_store_store_code release v expect v2 newv2 newv cpu =
    assemble store_rseq_cs (load_cbne_store_store_body release v expect v2 newv2 newv cpu) []

-- The section of a call for a CPU. The helpers with one store have no release variant.
-- The copy is not among them.
unfoldable pub ppc_code : (release : Bool) → Call → ℕ → Option Program
ppc_code false (load_cbne_store v expect newv) cpu = some (load_cbne_store_code v expect newv cpu)
ppc_code false (load_cbeq_store_add_load_store v expectnot voffp load) cpu =
    some (load_cbeq_store_add_load_store_code v expectnot voffp load cpu)
ppc_code false (load_add_store v count) cpu = some (load_add_store_code v count cpu)
ppc_code false (load_cbne_load_cbne_store v expect v2 expect2 newv) cpu =
    some (load_cbne_load_cbne_store_code v expect v2 expect2 newv cpu)
ppc_code release (load_cbne_store_store v expect v2 newv2 newv) cpu =
    some (load_cbne_store_store_code release v expect v2 newv2 newv cpu)
ppc_code release call cpu = none
