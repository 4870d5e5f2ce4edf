-- ===== src/Critical/Mips/Code.antt =====
-- The sections of include/rseq/arch/mips/bits.h on 64 bits, with the macros of
-- include/rseq/arch/mips.h, built without RSEQ_COMPARE_TWICE.
use librseq.Base.{ℕ, Bool, true, false, List, [], ◌∷◌, ◌++◌, Option, some, none}
use librseq.Critical.Machine.{
  branch_len_nonzero, dec_len, inc_dst, restore_src, inc_src, restore_dst, byte_to_dst,
  signed_from_src, restore_len, load_at, store_reg, save_len, branch_len_zero, store_mem, store_cs,
  save_dst, branch_ne, branch_eq, add_reg, save_src, load_reg, load_cpu, fence, address_cs, Instr,
  Program, assemble,
}
use librseq.Critical.Pseudo.{
  load_cbne_memcpy_store, load_cbne_store_store, load_cbne_load_cbne_store, load_add_store,
  load_cbeq_store_add_load_store, load_cbne_store, Call,
}

-- The number of the register.
abbrev pub reg4 : ℕ
reg4 = 4

-- RSEQ_ASM_STORE_RSEQ_CS: `dla` and `sd`.
abbrev pub store_rseq_cs : List Instr
store_rseq_cs = address_cs ∷ store_cs ∷ []

-- RSEQ_ASM_CBNE_CPU_ID: `lw` and `bne`.
abbrev pub cbne_cpu_id : (cpu label : ℕ) → List Instr
cbne_cpu_id cpu label = load_cpu reg4 ∷ branch_ne reg4 cpu label ∷ []

-- The final store, behind `sync` where it is a store-release.
abbrev pub final_store : (release : Bool) (value var : ℕ) → List Instr
final_store true value var = fence ∷ store_mem var value ∷ []
final_store false value var = store_mem var value ∷ []

-- The sections leave for `abort`, the label 4, or for `ne`, the C label `ne` or `eq`, in the copy
-- the label 5. In the copy, label 222 is at 10 and 333 at 16, and the machine's flag, which
-- counting down also sets, is not read.
abbrev pub load_cbne_store_body : (v expect newv cpu : ℕ) → (abort ne : ℕ) → List Instr
load_cbne_store_body v expect newv cpu abort ne =
    cbne_cpu_id cpu abort ++ load_reg reg4 v ∷ branch_ne reg4 expect ne ∷ store_mem v newv ∷ []

unfoldable pub load_cbne_store_code : (v expect newv cpu : ℕ) → Program
load_cbne_store_code v expect newv cpu =
    assemble store_rseq_cs (load_cbne_store_body v expect newv cpu) []

abbrev pub load_cbeq_store_add_load_store_body :
    (v expectnot voffp load cpu : ℕ) → (abort ne : ℕ) → List Instr
load_cbeq_store_add_load_store_body v expectnot voffp load cpu abort ne =
    cbne_cpu_id cpu abort
    ++ load_reg reg4 v
      ∷ branch_eq reg4 expectnot ne
      ∷ store_reg reg4 load
      ∷ add_reg reg4 voffp
      ∷ load_at reg4 reg4
      ∷ store_reg reg4 v
      ∷ []

unfoldable pub load_cbeq_store_add_load_store_code : (v expectnot voffp load cpu : ℕ) → Program
load_cbeq_store_add_load_store_code v expectnot voffp load cpu =
    assemble store_rseq_cs (load_cbeq_store_add_load_store_body v expectnot voffp load cpu) []

abbrev pub load_add_store_body : (v count cpu : ℕ) → (abort ne : ℕ) → List Instr
load_add_store_body v count cpu abort ne =
    cbne_cpu_id cpu abort ++ load_reg reg4 v ∷ add_reg reg4 count ∷ store_reg reg4 v ∷ []

unfoldable pub load_add_store_code : (v count cpu : ℕ) → Program
load_add_store_code v count cpu = assemble store_rseq_cs (load_add_store_body v count cpu) []

abbrev pub load_cbne_load_cbne_store_body :
    (v expect v2 expect2 newv cpu : ℕ) → (abort ne : ℕ) → List Instr
load_cbne_load_cbne_store_body v expect v2 expect2 newv cpu abort ne =
    cbne_cpu_id cpu abort
    ++ load_reg reg4 v
      ∷ branch_ne reg4 expect ne
      ∷ load_reg reg4 v2
      ∷ branch_ne reg4 expect2 ne
      ∷ store_mem v newv
      ∷ []

unfoldable pub load_cbne_load_cbne_store_code : (v expect v2 expect2 newv cpu : ℕ) → Program
load_cbne_load_cbne_store_code v expect v2 expect2 newv cpu =
    assemble store_rseq_cs (load_cbne_load_cbne_store_body v expect v2 expect2 newv cpu) []

abbrev pub load_cbne_store_store_body :
    (release : Bool) (v expect v2 newv2 newv cpu : ℕ) → (abort ne : ℕ) → List Instr
load_cbne_store_store_body release v expect v2 newv2 newv cpu abort ne =
    cbne_cpu_id cpu abort
    ++ load_reg reg4 v ∷ branch_ne reg4 expect ne ∷ store_mem v2 newv2 ∷ final_store release newv v

unfoldable pub load_cbne_store_store_code :
    (release : Bool) (v expect v2 newv2 newv cpu : ℕ) → Program
load_cbne_store_store_code release v expect v2 newv2 newv cpu =
    assemble store_rseq_cs (load_cbne_store_store_body release v expect v2 newv2 newv cpu) []

abbrev pub load_cbne_memcpy_store_body :
    (release : Bool) (v expect newv cpu : ℕ) → (abort ne : ℕ) → List Instr
load_cbne_memcpy_store_body release v expect newv cpu abort ne =
    cbne_cpu_id cpu abort
    ++ load_reg reg4 v
      ∷ branch_ne reg4 expect ne
      ∷ branch_len_zero 16
      ∷ signed_from_src reg4
      ∷ byte_to_dst reg4
      ∷ inc_src
      ∷ inc_dst
      ∷ dec_len
      ∷ branch_len_nonzero 10
      ∷ final_store release newv v

unfoldable pub load_cbne_memcpy_store_code : (release : Bool) (v expect newv cpu : ℕ) → Program
load_cbne_memcpy_store_code release v expect newv cpu =
    assemble (save_src ∷ save_dst ∷ save_len ∷ store_rseq_cs)
      (load_cbne_memcpy_store_body release v expect newv cpu)
      (restore_len ∷ restore_dst ∷ restore_src ∷ [])

-- The section of a call for a CPU. The helpers with one store have no release variant.
unfoldable pub mips_code : (release : Bool) → Call → ℕ → Option Program
mips_code false (load_cbne_store v expect newv) cpu = some (load_cbne_store_code v expect newv cpu)
mips_code false (load_cbeq_store_add_load_store v expectnot voffp load) cpu =
    some (load_cbeq_store_add_load_store_code v expectnot voffp load cpu)
mips_code false (load_add_store v count) cpu = some (load_add_store_code v count cpu)
mips_code false (load_cbne_load_cbne_store v expect v2 expect2 newv) cpu =
    some (load_cbne_load_cbne_store_code v expect v2 expect2 newv cpu)
mips_code release (load_cbne_store_store v expect v2 newv2 newv) cpu =
    some (load_cbne_store_store_code release v expect v2 newv2 newv cpu)
mips_code release (load_cbne_memcpy_store v expect dst src len newv) cpu =
    some (load_cbne_memcpy_store_code release v expect newv cpu)
mips_code release call cpu = none
