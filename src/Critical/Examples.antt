-- ===== src/Critical/Examples.antt =====
-- The sections at a plain memory.
use librseq.Base.{arith, ℕ, refl, true, false, ◌≡◌, ◌⊎◌}
use librseq.Mempool.Memory.ByteMap.{plain}
use librseq.Critical.Machine.{
  success, abort, Program, State, Interrupted, Run, returns, steps, interrupted, exec, step, fetch,
  program,
}
use librseq.Critical.Pseudo.{load_add_store, load_cbne_memcpy_store}
use librseq.Critical.Code.{load_cbne_memcpy_store_code, code_of, load_add_store_code}
use librseq.Critical.Lands.{Lands}
use librseq.Critical.Implements.{Atomic, attempt}
use librseq.Critical.Atomic.{code_of-Lands, Run-Atomic}

-- A thread at the entry of a helper, and one at the start of the section of a copy of two bytes.
abbrev pub entry : State plain
entry = record {
  pc = 0;
  regs = λ _. 0;
  src = 0;
  dst = 0;
  len = 0;
  scratch0 = 0;
  scratch1 = 0;
  scratch2 = 0;
  zf = false;
  rseq_cs = false;
  cpu = 0;
  mem = λ _. 7;
}

abbrev pub in_copy : State plain
in_copy = record entry { pc = 5; src = 16; dst = 32; len = 2; rseq_cs = true; cpu = 3 }

abbrev pub seven : ℕ
seven = 0x0707_0707_0707_0707

code_of-Lands_example :
    Lands plain
      (code_of (load_cbne_memcpy_store 64 seven 32 16 2 9) 3)
      in_copy
      (attempt plain (load_cbne_memcpy_store 64 seven 32 16 2 9) 3 in_copy)
unfolding code_of load_cbne_memcpy_store_code program
code_of-Lands_example =
    code_of-Lands plain (load_cbne_memcpy_store 64 seven 32 16 2 9) 3 in_copy refl
      (refl, refl, refl)

-- Between its two first instructions, the thread moves to CPU 3, where the memory holds ones.
abbrev before : State plain
before = record entry { pc = 1 }

abbrev after : State plain
after = record entry { pc = 1; cpu = 3; mem = λ _. 1 }

pub moved : (P : Program) → Interrupted plain P before after
moved P = record {
  restarts = λ set. cc;
  continues = λ _. refl;
  src = refl;
  dst = refl;
  len = refl;
  fits = λ _. omega arith;
}

run : (t : State plain) × Run plain (code_of (load_add_store 64 5) 3) entry success t
unfolding code_of load_add_store_code program step fetch exec
run = (
  _,
  steps refl
      (interrupted (moved _) (steps refl (steps refl (steps refl (steps refl (returns refl)))))),
)

Run-Atomic_example :
    (success ≡ abort)
    ⊎ Atomic plain (code_of (load_add_store 64 5) 3) (load_add_store 64 5) 3 entry success run.0
Run-Atomic_example = Run-Atomic plain (load_add_store 64 5) 3 refl tt run.1
