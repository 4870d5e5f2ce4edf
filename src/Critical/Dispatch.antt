-- ===== src/Critical/Dispatch.antt =====
-- The helpers of include/rseq/rseq.h, which choose a section by the memory order and the field that
-- identifies the CPU, over the sections of any architecture.
use librseq.Base.{ℕ, Bool, true, false, Option, some, none, ◌≡◌, ◌⊎◌}
use librseq.Mempool.Memory.{Memory}
use librseq.Critical.Machine.{Exit, abort, Program, State, Run}
use librseq.Critical.Pseudo.{
  Call, load_cbne_store, load_cbeq_store_add_load_store, load_add_store,
  load_add_load_load_add_store, load_cbne_load_cbne_store, load_cbne_store_store,
  load_cbne_memcpy_store,
}
use librseq.Critical.Implements.{Atomic}
pub mod Chosen
pub mod Served
pub mod Archs
mod Examples

-- enum rseq_mo, and any other value.
pub data Mo : Type 0 where
  mo_relaxed mo_consume mo_acquire mo_release mo_acq_rel mo_seq_cst : Mo
  mo_unnamed : ℕ → Mo

-- enum rseq_percpu_mode, and any other value.
pub data PercpuMode : Type 0 where
  percpu_cpu_id percpu_mm_cid : PercpuMode
  percpu_unnamed : ℕ → PercpuMode

-- The two fields of `struct rseq_abi` that a section may compare with the CPU asked for.
pub record Ids : Type 0 where
  pub cpu_id : ℕ
  pub mm_cid : ℕ

-- What include/rseq/arch/ gives for one architecture: the section of a call, relaxed or release, if
-- there is one, what must be ready at its entry, and the guarantee of the section.
pub record ArchSections (M : Memory) : Type 1 where
  pub code : (release : Bool) → Call → ℕ → Option Program
  pub Ready : Call → ℕ → State M → Type 0
  pub code-Atomic :
      (release : Bool) (call : Call) (cpu : ℕ) (P : Program) (s t : State M) (e : Exit)
      → code release call cpu ≡ some P
      → s.pc ≡ 0
      → Ready call cpu s
      → Run M P s e t
      → (e ≡ abort) ⊎ Atomic M P call cpu s e t

-- What a helper comes to: it returns -1 at once, enters a section built for a field, or is not
-- there, because the architecture has no such section.
pub data Selected : Type 0 where
  refused absent : Selected
  enters : PercpuMode → Program → Selected

-- `switch (percpu_mode)`.
unfoldable pub by_mode : PercpuMode → Option Program → Selected
by_mode (percpu_unnamed n) code = refused
by_mode mode none = absent
by_mode mode (some P) = enters mode P

-- `if (rseq_mo != RSEQ_MO_RELAXED) return -1;`
unfoldable pub relaxed_only : Mo → Selected → Selected
relaxed_only mo_relaxed rest = rest
relaxed_only mo rest = refused

-- `switch (rseq_mo)`, in the helpers with a release variant.
unfoldable pub by_mo : Mo → (relaxed release : Selected) → Selected
by_mo mo_relaxed relaxed release = relaxed
by_mo mo_release relaxed release = release
by_mo mo relaxed release = refused

module _ {M : Memory} (S : ArchSections M) where
  open S use {code}

  unfoldable pub load_cbne_store_ptr :
      (mo : Mo) (mode : PercpuMode) (v expect newv cpu : ℕ) → Selected
  load_cbne_store_ptr mo mode v expect newv cpu =
      relaxed_only mo (by_mode mode (code false (load_cbne_store v expect newv) cpu))

  unfoldable pub load_cbeq_store_add_load_store_ptr :
      (mo : Mo) (mode : PercpuMode) (v expectnot voffp load cpu : ℕ) → Selected
  load_cbeq_store_add_load_store_ptr mo mode v expectnot voffp load cpu =
      relaxed_only mo
        (by_mode mode (code false (load_cbeq_store_add_load_store v expectnot voffp load) cpu))

  unfoldable pub load_add_store_ptr : (mo : Mo) (mode : PercpuMode) (v count cpu : ℕ) → Selected
  load_add_store_ptr mo mode v count cpu =
      relaxed_only mo (by_mode mode (code false (load_add_store v count) cpu))

  unfoldable pub load_add_load_load_add_store_ptr :
      (mo : Mo) (mode : PercpuMode) (ptr off inc cpu : ℕ) → Selected
  load_add_load_load_add_store_ptr mo mode ptr off inc cpu =
      relaxed_only mo (by_mode mode (code false (load_add_load_load_add_store ptr off inc) cpu))

  unfoldable pub load_cbne_store_store_ptr :
      (mo : Mo) (mode : PercpuMode) (v expect v2 newv2 newv cpu : ℕ) → Selected
  load_cbne_store_store_ptr mo mode v expect v2 newv2 newv cpu =
      by_mo mo (by_mode mode (code false (load_cbne_store_store v expect v2 newv2 newv) cpu))
        (by_mode mode (code true (load_cbne_store_store v expect v2 newv2 newv) cpu))

  unfoldable pub load_cbne_load_cbne_store_ptr :
      (mo : Mo) (mode : PercpuMode) (v expect v2 expect2 newv cpu : ℕ) → Selected
  load_cbne_load_cbne_store_ptr mo mode v expect v2 expect2 newv cpu =
      relaxed_only mo
        (by_mode mode (code false (load_cbne_load_cbne_store v expect v2 expect2 newv) cpu))

  unfoldable pub load_cbne_memcpy_store_ptr :
      (mo : Mo) (mode : PercpuMode) (v expect dst src len newv cpu : ℕ) → Selected
  load_cbne_memcpy_store_ptr mo mode v expect dst src len newv cpu =
      by_mo mo (by_mode mode (code false (load_cbne_memcpy_store v expect dst src len newv) cpu))
        (by_mode mode (code true (load_cbne_memcpy_store v expect dst src len newv) cpu))

  -- The helper of a call.
  unfoldable pub rseq_ptr : Mo → PercpuMode → Call → ℕ → Selected
  rseq_ptr mo mode (load_cbne_store v expect newv) cpu =
      load_cbne_store_ptr mo mode v expect newv cpu
  rseq_ptr mo mode (load_add_store v count) cpu = load_add_store_ptr mo mode v count cpu
  rseq_ptr mo mode (load_cbeq_store_add_load_store v expectnot voffp load) cpu =
      load_cbeq_store_add_load_store_ptr mo mode v expectnot voffp load cpu
  rseq_ptr mo mode (load_add_load_load_add_store ptr off inc) cpu =
      load_add_load_load_add_store_ptr mo mode ptr off inc cpu
  rseq_ptr mo mode (load_cbne_load_cbne_store v expect v2 expect2 newv) cpu =
      load_cbne_load_cbne_store_ptr mo mode v expect v2 expect2 newv cpu
  rseq_ptr mo mode (load_cbne_store_store v expect v2 newv2 newv) cpu =
      load_cbne_store_store_ptr mo mode v expect v2 newv2 newv cpu
  rseq_ptr mo mode (load_cbne_memcpy_store v expect dst src len newv) cpu =
      load_cbne_memcpy_store_ptr mo mode v expect dst src len newv cpu

module _ (M : Memory) where
  -- The thread of `s`, whose section compares the field of the mode.
  unfoldable pub reading : PercpuMode → Ids → State M → State M
  reading percpu_cpu_id ids s = record s { cpu = ids.cpu_id }
  reading percpu_mm_cid ids s = record s { cpu = ids.mm_cid }
  reading (percpu_unnamed n) ids s = s

  -- A call of a helper from `s` that returns `e` in `t`.
  pub data Calls (chosen : Selected) (ids : Ids) (s : State M) : Exit → State M → Type 0 where
    returns_error : chosen ≡ refused → Calls chosen ids s abort s
    runs :
        {mode : PercpuMode} {P : Program} {e : Exit} {t : State M}
        → chosen ≡ enters mode P
        → Run M P (reading mode ids s) e t
        → Calls chosen ids s e t
