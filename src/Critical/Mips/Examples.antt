-- ===== src/Critical/Mips/Examples.antt =====
-- The MIPS sections at a plain memory.
use librseq.Base.{refl, true, false, ◌≡◌, ◌⊎◌}
use librseq.Mempool.Memory.ByteMap.{plain}
use librseq.Critical.Machine.{
  success, abort, Program, State, Run, returns, steps, interrupted, exec, step, fetch, program,
  assemble,
}
use librseq.Critical.Pseudo.{load_add_store, load_cbne_memcpy_store}
use librseq.Critical.Lands.{Lands}
use librseq.Critical.Implements.{Atomic, attempt}
use librseq.Critical.Mips.Code.{mips_code, load_add_store_code, load_cbne_memcpy_store_code}
use librseq.Critical.Mips.Atomic.{mips_code-Lands, mips_code-Atomic}
use librseq.Critical.Examples.{entry, in_copy, seven, moved}

mips_code-Lands_example :
    Lands plain
      (load_cbne_memcpy_store_code true 64 seven 9 3)
      in_copy
      (attempt plain (load_cbne_memcpy_store 64 seven 32 16 2 9) 3 in_copy)
unfolding mips_code assemble program load_cbne_memcpy_store_code
mips_code-Lands_example =
    mips_code-Lands plain true (load_cbne_memcpy_store 64 seven 32 16 2 9) 3
      (load_cbne_memcpy_store_code true 64 seven 9 3) in_copy refl refl (refl, refl, refl)

-- An addition; between its two first instructions, the thread moves to CPU 3.
abbrev mips_add : Program
mips_add = load_add_store_code 64 5 3

mips_run : (t : State plain) × Run plain mips_add entry success t
unfolding load_add_store_code assemble program step fetch exec
mips_run = (
  _,
  steps refl (
      interrupted (moved _) (
        steps refl
          (steps refl (steps refl (steps refl (steps refl (steps refl (returns refl)))))))),
)

mips_code-Atomic_example :
    (success ≡ abort) ⊎ Atomic plain mips_add (load_add_store 64 5) 3 entry success mips_run.0
unfolding mips_code
mips_code-Atomic_example =
    mips_code-Atomic plain false (load_add_store 64 5) 3 mips_add refl refl tt mips_run.1
