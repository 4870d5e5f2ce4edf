-- ===== src/Critical/S390/Code.antt =====
-- The sections of include/rseq/arch/s390/bits.h on s390x, with the macros of
-- include/rseq/arch/s390.h, built without RSEQ_COMPARE_TWICE.
use librseq.Base.{ℕ, Bool, false, List, [], ◌∷◌, ◌++◌, Option, some, none}
use librseq.Critical.Machine.{
  dec_len, inc_dst, restore_src, inc_src, restore_dst, byte_to_dst, restore_len, load_at,
  byte_from_src, test_len, store_reg, store_mem, save_len, jump_eq, store_cs, save_dst, jump_ne,
  compare_reg, add_reg, save_src, load_reg, compare_mem, compare_cpu, address_cs, Instr, Program,
  assemble,
}
use librseq.Critical.Pseudo.{
  load_cbne_memcpy_store, load_cbne_store_store, load_cbne_load_cbne_store, load_add_store,
  load_cbeq_store_add_load_store, load_cbne_store, Call,
}

-- The numbers of the registers.
abbrev pub r0 : ℕ
r0 = 0

abbrev pub r1 : ℕ
r1 = 1

-- RSEQ_ASM_STORE_RSEQ_CS: `larl` and `stg`.
abbrev pub store_rseq_cs : List Instr
store_rseq_cs = address_cs ∷ store_cs ∷ []

-- RSEQ_ASM_CBNE_CPU_ID: `c` and `jnz`.
abbrev pub cbne_cpu_id : (cpu label : ℕ) → List Instr
cbne_cpu_id cpu label = compare_cpu cpu ∷ jump_ne label ∷ []

-- The sections leave for `abort`, the label 4, or for `ne`, the C label `ne` or `eq`, in the copy
-- the label 5. The words are compared by `cg` and `cgr`. In the copy, label 222 is at 11 and 333 at
-- 17; the bytes go through `ic` and `stc`, and `ltgr` and `aghi` set the condition code for the jumps.
abbrev pub load_cbne_store_body : (v expect newv cpu : ℕ) → (abort ne : ℕ) → List Instr
load_cbne_store_body v expect newv cpu abort ne =
    cbne_cpu_id cpu abort ++ compare_mem v expect ∷ jump_ne ne ∷ store_mem v newv ∷ []

unfoldable pub load_cbne_store_code : (v expect newv cpu : ℕ) → Program
load_cbne_store_code v expect newv cpu =
    assemble store_rseq_cs (load_cbne_store_body v expect newv cpu) []

abbrev pub load_cbeq_store_add_load_store_body :
    (v expectnot voffp load cpu : ℕ) → (abort ne : ℕ) → List Instr
load_cbeq_store_add_load_store_body v expectnot voffp load cpu abort ne =
    cbne_cpu_id cpu abort
    ++ load_reg r1 v
      ∷ compare_reg r1 expectnot
      ∷ jump_eq ne
      ∷ store_reg r1 load
      ∷ add_reg r1 voffp
      ∷ load_at r1 r1
      ∷ store_reg r1 v
      ∷ []

unfoldable pub load_cbeq_store_add_load_store_code : (v expectnot voffp load cpu : ℕ) → Program
load_cbeq_store_add_load_store_code v expectnot voffp load cpu =
    assemble store_rseq_cs (load_cbeq_store_add_load_store_body v expectnot voffp load cpu) []

abbrev pub load_add_store_body : (v count cpu : ℕ) → (abort ne : ℕ) → List Instr
load_add_store_body v count cpu abort ne =
    cbne_cpu_id cpu abort ++ load_reg r0 v ∷ add_reg r0 count ∷ store_reg r0 v ∷ []

unfoldable pub load_add_store_code : (v count cpu : ℕ) → Program
load_add_store_code v count cpu = assemble store_rseq_cs (load_add_store_body v count cpu) []

abbrev pub load_cbne_load_cbne_store_body :
    (v expect v2 expect2 newv cpu : ℕ) → (abort ne : ℕ) → List Instr
load_cbne_load_cbne_store_body v expect v2 expect2 newv cpu abort ne =
    cbne_cpu_id cpu abort
    ++ compare_mem v expect
      ∷ jump_ne ne
      ∷ compare_mem v2 expect2
      ∷ jump_ne ne
      ∷ store_mem v newv
      ∷ []

unfoldable pub load_cbne_load_cbne_store_code : (v expect v2 expect2 newv cpu : ℕ) → Program
load_cbne_load_cbne_store_code v expect v2 expect2 newv cpu =
    assemble store_rseq_cs (load_cbne_load_cbne_store_body v expect v2 expect2 newv cpu) []

abbrev pub load_cbne_store_store_body :
    (v expect v2 newv2 newv cpu : ℕ) → (abort ne : ℕ) → List Instr
load_cbne_store_store_body v expect v2 newv2 newv cpu abort ne =
    cbne_cpu_id cpu abort
    ++ compare_mem v expect ∷ jump_ne ne ∷ store_mem v2 newv2 ∷ store_mem v newv ∷ []

unfoldable pub load_cbne_store_store_code : (v expect v2 newv2 newv cpu : ℕ) → Program
load_cbne_store_store_code v expect v2 newv2 newv cpu =
    assemble store_rseq_cs (load_cbne_store_store_body v expect v2 newv2 newv cpu) []

abbrev pub load_cbne_memcpy_store_body : (v expect newv cpu : ℕ) → (abort ne : ℕ) → List Instr
load_cbne_memcpy_store_body v expect newv cpu abort ne =
    cbne_cpu_id cpu abort
    ++ compare_mem v expect
      ∷ jump_ne ne
      ∷ test_len
      ∷ jump_eq 17
      ∷ byte_from_src r0
      ∷ byte_to_dst r0
      ∷ inc_src
      ∷ inc_dst
      ∷ dec_len
      ∷ jump_ne 11
      ∷ store_mem v newv
      ∷ []

unfoldable pub load_cbne_memcpy_store_code : (v expect newv cpu : ℕ) → Program
load_cbne_memcpy_store_code v expect newv cpu =
    assemble (save_src ∷ save_dst ∷ save_len ∷ store_rseq_cs)
      (load_cbne_memcpy_store_body v expect newv cpu) (restore_len ∷ restore_dst ∷ restore_src ∷ [])

-- The section of a call for a CPU. The helpers with one store have no release variant; the
-- release variants of the others have the same instructions.
unfoldable pub s390_code : (release : Bool) → Call → ℕ → Option Program
s390_code false (load_cbne_store v expect newv) cpu = some (load_cbne_store_code v expect newv cpu)
s390_code false (load_cbeq_store_add_load_store v expectnot voffp load) cpu =
    some (load_cbeq_store_add_load_store_code v expectnot voffp load cpu)
s390_code false (load_add_store v count) cpu = some (load_add_store_code v count cpu)
s390_code false (load_cbne_load_cbne_store v expect v2 expect2 newv) cpu =
    some (load_cbne_load_cbne_store_code v expect v2 expect2 newv cpu)
s390_code release (load_cbne_store_store v expect v2 newv2 newv) cpu =
    some (load_cbne_store_store_code v expect v2 newv2 newv cpu)
s390_code release (load_cbne_memcpy_store v expect dst src len newv) cpu =
    some (load_cbne_memcpy_store_code v expect newv cpu)
s390_code release call cpu = none
