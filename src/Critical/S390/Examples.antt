-- ===== src/Critical/S390/Examples.antt =====
-- The s390x sections at a plain memory.
use librseq.Base.{refl, true, false, ◌≡◌, ◌⊎◌}
use librseq.Mempool.Memory.ByteMap.{plain}
use librseq.Critical.Machine.{
  success, abort, Program, State, Run, returns, steps, interrupted, exec, step, fetch, program,
  assemble,
}
use librseq.Critical.Pseudo.{load_add_store, load_cbne_memcpy_store}
use librseq.Critical.Lands.{Lands}
use librseq.Critical.Implements.{Atomic, attempt}
use librseq.Critical.S390.Code.{s390_code, load_add_store_code, load_cbne_memcpy_store_code}
use librseq.Critical.S390.Atomic.{s390_code-Lands, s390_code-Atomic}
use librseq.Critical.Examples.{entry, in_copy, seven, moved}

s390_code-Lands_example :
    Lands plain
      (load_cbne_memcpy_store_code 64 seven 9 3)
      in_copy
      (attempt plain (load_cbne_memcpy_store 64 seven 32 16 2 9) 3 in_copy)
unfolding s390_code assemble program load_cbne_memcpy_store_code
s390_code-Lands_example =
    s390_code-Lands plain true (load_cbne_memcpy_store 64 seven 32 16 2 9) 3
      (load_cbne_memcpy_store_code 64 seven 9 3) in_copy refl refl (refl, refl, refl)

-- An addition; between its two first instructions, the thread moves to CPU 3.
abbrev s390_add : Program
s390_add = load_add_store_code 64 5 3

s390_run : (t : State plain) × Run plain s390_add entry success t
unfolding load_add_store_code assemble program step fetch exec
s390_run = (
  _,
  steps refl (
      interrupted (moved _) (
        steps refl
          (steps refl (steps refl (steps refl (steps refl (steps refl (returns refl)))))))),
)

s390_code-Atomic_example :
    (success ≡ abort) ⊎ Atomic plain s390_add (load_add_store 64 5) 3 entry success s390_run.0
unfolding s390_code
s390_code-Atomic_example =
    s390_code-Atomic plain false (load_add_store 64 5) 3 s390_add refl refl tt s390_run.1
