-- ===== src/Critical/Aarch64/Examples.antt =====
-- The AArch64 sections at a plain memory.
use librseq.Base.{refl, true, false, ◌≡◌, ◌⊎◌, arith}
use librseq.Mempool.Memory.ByteMap.{plain}
use librseq.Critical.Machine.{
  success, abort, Program, State, Run, returns, steps, interrupted, exec, step, fetch, program,
  assemble,
}
use librseq.Critical.Pseudo.{load_add_store, load_cbne_store_store}
use librseq.Critical.Lands.{Lands}
use librseq.Critical.Implements.{Atomic, attempt}
use librseq.Critical.Aarch64.Code.{aarch64_code, load_add_store_code, load_cbne_store_store_code}
use librseq.Critical.Aarch64.Atomic.{aarch64_code-Lands, aarch64_code-Atomic}
use librseq.Critical.Examples.{entry, in_copy, seven, moved}

aarch64_code-Lands_example :
    Lands plain
      (load_cbne_store_store_code true 64 seven 32 16 9 3)
      (record in_copy { pc = 3 })
      (attempt plain (load_cbne_store_store 64 seven 32 16 9) 3 (record in_copy { pc = 3 }))
unfolding aarch64_code assemble program load_cbne_store_store_code
aarch64_code-Lands_example =
    aarch64_code-Lands plain true (load_cbne_store_store 64 seven 32 16 9) 3
      (load_cbne_store_store_code true 64 seven 32 16 9 3) (record in_copy { pc = 3 }) refl refl
      (omega arith) (omega arith) (omega arith)

-- An addition; between its two first instructions, the thread moves to CPU 3.
abbrev aarch64_add : Program
aarch64_add = load_add_store_code 64 5 3

aarch64_run : (t : State plain) × Run plain aarch64_add entry success t
unfolding load_add_store_code assemble program step fetch exec
aarch64_run = (
  _,
  steps refl (
      interrupted (moved _) (
        steps refl (
          steps refl (
            steps refl
              (steps refl (steps refl (steps refl (steps refl (steps refl (returns refl)))))))))),
)

aarch64_code-Atomic_example :
    (success ≡ abort) ⊎ Atomic plain aarch64_add (load_add_store 64 5) 3 entry success aarch64_run.0
unfolding aarch64_code
aarch64_code-Atomic_example =
    aarch64_code-Atomic plain false (load_add_store 64 5) 3 aarch64_add refl refl (omega arith)
      (omega arith) tt aarch64_run.1
