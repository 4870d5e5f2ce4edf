-- ===== src/Critical/Code.antt =====
-- The sections of include/rseq/arch/x86/bits.h for x86-64, built without RSEQ_COMPARE_TWICE, whose
-- second comparisons only report bugs. The release variants have the same instructions.
use librseq.Base.{ℕ, List, [], ◌∷◌, ◌++◌}
use librseq.Critical.Machine.{
  dec_len, inc_dst, inc_src, byte_to_dst, store_reg, byte_from_src, add_at, test_len, store_mem,
  save_len, restore_src, load_at, jump_eq, store_cs, save_dst, restore_dst, jump_ne, compare_reg,
  add_reg, save_src, restore_len, load_reg, compare_mem, compare_cpu, address_cs, add_mem, Instr,
  Program, program,
}
use librseq.Critical.Pseudo.{
  Call, load_cbne_store, load_add_store, load_cbeq_store_add_load_store,
  load_add_load_load_add_store, load_cbne_load_cbne_store, load_cbne_store_store,
  load_cbne_memcpy_store,
}

-- The numbers of the registers.
abbrev pub rax : ℕ
rax = 0

abbrev pub rcx : ℕ
rcx = 1

abbrev pub rbx : ℕ
rbx = 3

-- RSEQ_ASM_STORE_RSEQ_CS(1, 3b, …).
abbrev pub store_rseq_cs : List Instr
store_rseq_cs = address_cs ∷ store_cs ∷ []

-- RSEQ_ASM_CBNE_CPU_ID(cpu_id, …, abort).
abbrev pub cbne_cpu_id : ℕ → ℕ → List Instr
cbne_cpu_id cpu abort = compare_cpu cpu ∷ jump_ne abort ∷ []

-- The jumps of a section leave it for the abort handler, one instruction behind the commit (after
-- the operands are restored), or for the C label `ne` or `eq`, one handler further.
abbrev pub load_cbne_store_body : (v expect newv cpu : ℕ) → List Instr
load_cbne_store_body v expect newv cpu =
    cbne_cpu_id cpu 8 ++ compare_mem v expect ∷ jump_ne 9 ∷ store_mem v newv ∷ []

unfoldable pub load_cbne_store_code : (v expect newv cpu : ℕ) → Program
load_cbne_store_code v expect newv cpu =
    program store_rseq_cs (load_cbne_store_body v expect newv cpu) []

abbrev pub load_cbeq_store_add_load_store_body : (v expectnot voffp load cpu : ℕ) → List Instr
load_cbeq_store_add_load_store_body v expectnot voffp load cpu =
    cbne_cpu_id cpu 12
    ++ load_reg rbx v
      ∷ compare_reg rbx expectnot
      ∷ jump_eq 13
      ∷ store_reg rbx load
      ∷ add_reg rbx voffp
      ∷ load_at rbx rbx
      ∷ store_reg rbx v
      ∷ []

unfoldable pub load_cbeq_store_add_load_store_code : (v expectnot voffp load cpu : ℕ) → Program
load_cbeq_store_add_load_store_code v expectnot voffp load cpu =
    program store_rseq_cs (load_cbeq_store_add_load_store_body v expectnot voffp load cpu) []

abbrev pub load_add_store_body : (v count cpu : ℕ) → List Instr
load_add_store_body v count cpu = cbne_cpu_id cpu 6 ++ add_mem v count ∷ []

unfoldable pub load_add_store_code : (v count cpu : ℕ) → Program
load_add_store_code v count cpu = program store_rseq_cs (load_add_store_body v count cpu) []

abbrev pub load_add_load_load_add_store_body : (ptr off inc cpu : ℕ) → List Instr
load_add_load_load_add_store_body ptr off inc cpu =
    cbne_cpu_id cpu 9 ++ load_reg rbx ptr ∷ add_reg rbx off ∷ load_at rcx rbx ∷ add_at rcx inc ∷ []

unfoldable pub load_add_load_load_add_store_code : (ptr off inc cpu : ℕ) → Program
load_add_load_load_add_store_code ptr off inc cpu =
    program store_rseq_cs (load_add_load_load_add_store_body ptr off inc cpu) []

abbrev pub load_cbne_load_cbne_store_body : (v expect v2 expect2 newv cpu : ℕ) → List Instr
load_cbne_load_cbne_store_body v expect v2 expect2 newv cpu =
    cbne_cpu_id cpu 10
    ++ compare_mem v expect
      ∷ jump_ne 11
      ∷ compare_mem v2 expect2
      ∷ jump_ne 11
      ∷ store_mem v newv
      ∷ []

unfoldable pub load_cbne_load_cbne_store_code : (v expect v2 expect2 newv cpu : ℕ) → Program
load_cbne_load_cbne_store_code v expect v2 expect2 newv cpu =
    program store_rseq_cs (load_cbne_load_cbne_store_body v expect v2 expect2 newv cpu) []

abbrev pub load_cbne_store_store_body : (v expect v2 newv2 newv cpu : ℕ) → List Instr
load_cbne_store_store_body v expect v2 newv2 newv cpu =
    cbne_cpu_id cpu 9
    ++ compare_mem v expect ∷ jump_ne 10 ∷ store_mem v2 newv2 ∷ store_mem v newv ∷ []

unfoldable pub load_cbne_store_store_code : (v expect v2 newv2 newv cpu : ℕ) → Program
load_cbne_store_store_code v expect v2 newv2 newv cpu =
    program store_rseq_cs (load_cbne_store_store_body v expect v2 newv2 newv cpu) []

-- Here `src`, `dst` and `len` are registers, which the section changes. Its label 222 is at 11 and
-- 333 at 17.
abbrev pub restore : List Instr
restore = restore_len ∷ restore_dst ∷ restore_src ∷ []

abbrev pub load_cbne_memcpy_store_body : (v expect newv cpu : ℕ) → List Instr
load_cbne_memcpy_store_body v expect newv cpu =
    cbne_cpu_id cpu 22
    ++ compare_mem v expect
      ∷ jump_ne 26
      ∷ test_len
      ∷ jump_eq 17
      ∷ byte_from_src rax
      ∷ byte_to_dst rax
      ∷ inc_src
      ∷ inc_dst
      ∷ dec_len
      ∷ jump_ne 11
      ∷ store_mem v newv
      ∷ []

unfoldable pub load_cbne_memcpy_store_code : (v expect newv cpu : ℕ) → Program
load_cbne_memcpy_store_code v expect newv cpu =
    program (save_src ∷ save_dst ∷ save_len ∷ store_rseq_cs)
      (load_cbne_memcpy_store_body v expect newv cpu) restore

-- The section of a call for a CPU.
unfoldable pub code_of : Call → ℕ → Program
code_of (load_cbne_store v expect newv) cpu = load_cbne_store_code v expect newv cpu
code_of (load_add_store v count) cpu = load_add_store_code v count cpu
code_of (load_cbeq_store_add_load_store v expectnot voffp load) cpu =
    load_cbeq_store_add_load_store_code v expectnot voffp load cpu
code_of (load_add_load_load_add_store ptr off inc) cpu =
    load_add_load_load_add_store_code ptr off inc cpu
code_of (load_cbne_load_cbne_store v expect v2 expect2 newv) cpu =
    load_cbne_load_cbne_store_code v expect v2 expect2 newv cpu
code_of (load_cbne_store_store v expect v2 newv2 newv) cpu =
    load_cbne_store_store_code v expect v2 newv2 newv cpu
code_of (load_cbne_memcpy_store v expect dst src len newv) cpu =
    load_cbne_memcpy_store_code v expect newv cpu
