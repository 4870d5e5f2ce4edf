-- ===== src/Critical/Riscv/Examples.antt =====
-- The RISC-V sections at a plain memory.
use librseq.Base.{refl, true, false, ◌≡◌, ◌⊎◌}
use librseq.Mempool.Memory.ByteMap.{plain}
use librseq.Critical.Machine.{
  success, abort, Program, State, Run, returns, steps, interrupted, exec, step, fetch, program,
  assemble,
}
use librseq.Critical.Pseudo.{load_add_store, load_cbne_memcpy_store}
use librseq.Critical.Lands.{Lands}
use librseq.Critical.Implements.{Atomic, attempt}
use librseq.Critical.Riscv.Code.{riscv_code, load_add_store_code, load_cbne_memcpy_store_code}
use librseq.Critical.Riscv.Atomic.{riscv_code-Lands, riscv_code-Atomic}
use librseq.Critical.Examples.{entry, in_copy, seven, moved}

riscv_code-Lands_example :
    Lands plain
      (load_cbne_memcpy_store_code true 64 seven 32 16 2 9 3)
      (record in_copy { pc = 2 })
      (attempt plain (load_cbne_memcpy_store 64 seven 32 16 2 9) 3 (record in_copy { pc = 2 }))
unfolding riscv_code assemble program load_cbne_memcpy_store_code
riscv_code-Lands_example =
    riscv_code-Lands plain true (load_cbne_memcpy_store 64 seven 32 16 2 9) 3
      (load_cbne_memcpy_store_code true 64 seven 32 16 2 9 3) (record in_copy { pc = 2 }) refl refl

-- An addition; between its two first instructions, the thread moves to CPU 3.
abbrev riscv_add : Program
riscv_add = load_add_store_code 64 5 3

riscv_run : (t : State plain) × Run plain riscv_add entry success t
unfolding load_add_store_code assemble program step fetch exec
riscv_run = (
  _,
  steps refl (
      interrupted (moved _) (
        steps refl
          (steps refl (steps refl (steps refl (steps refl (steps refl (returns refl)))))))),
)

riscv_code-Atomic_example :
    (success ≡ abort) ⊎ Atomic plain riscv_add (load_add_store 64 5) 3 entry success riscv_run.0
unfolding riscv_code
riscv_code-Atomic_example =
    riscv_code-Atomic plain false (load_add_store 64 5) 3 riscv_add refl refl riscv_run.1
