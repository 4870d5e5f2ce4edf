-- ===== src/Critical/Ppc/Examples.antt =====
-- The PowerPC sections at a plain memory.
use librseq.Base.{refl, true, false, ◌≡◌, ◌⊎◌}
use librseq.Mempool.Memory.ByteMap.{plain}
use librseq.Critical.Machine.{
  success, abort, Program, State, Run, returns, steps, interrupted, exec, step, fetch, program,
  assemble,
}
use librseq.Critical.Pseudo.{load_add_store, load_cbne_store_store}
use librseq.Critical.Lands.{Lands}
use librseq.Critical.Implements.{Atomic, attempt}
use librseq.Critical.Ppc.Code.{ppc_code, load_add_store_code, load_cbne_store_store_code}
use librseq.Critical.Ppc.Atomic.{ppc_code-Lands, ppc_code-Atomic}
use librseq.Critical.Examples.{entry, in_copy, seven, moved}

ppc_code-Lands_example :
    Lands plain
      (load_cbne_store_store_code true 64 seven 32 16 9 3)
      (record in_copy { pc = 6 })
      (attempt plain (load_cbne_store_store 64 seven 32 16 9) 3 (record in_copy { pc = 6 }))
unfolding ppc_code assemble program load_cbne_store_store_code
ppc_code-Lands_example =
    ppc_code-Lands plain true (load_cbne_store_store 64 seven 32 16 9) 3
      (load_cbne_store_store_code true 64 seven 32 16 9 3) (record in_copy { pc = 6 }) refl refl

-- An addition; between its two first instructions, the thread moves to CPU 3.
abbrev ppc_add : Program
ppc_add = load_add_store_code 64 5 3

ppc_run : (t : State plain) × Run plain ppc_add entry success t
unfolding load_add_store_code assemble program step fetch exec
ppc_run = (
  _,
  steps refl (
      interrupted (moved _) (
        steps refl (
          steps refl (
            steps refl (
              steps refl (
                steps refl (
                  steps refl (
                    steps refl
                      (steps refl (steps refl (steps refl (steps refl (returns refl))))))))))))),
)

ppc_code-Atomic_example :
    (success ≡ abort) ⊎ Atomic plain ppc_add (load_add_store 64 5) 3 entry success ppc_run.0
unfolding ppc_code
ppc_code-Atomic_example =
    ppc_code-Atomic plain false (load_add_store 64 5) 3 ppc_add refl refl ppc_run.1
