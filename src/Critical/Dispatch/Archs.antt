-- ===== src/Critical/Dispatch/Archs.antt =====
-- The architectures whose sections the helpers of include/rseq/rseq.h are built with.
use librseq.Base.{ℕ, Bool, true, false, Option, some, none, ◌≡◌, ◌⊎◌, ◌<◌, ◌^◌, subst, sym}
use librseq.Mempool.Memory.{Memory}
use librseq.Critical.Machine.{abort, Program, Run}
use librseq.Critical.Pseudo.{Call, load_cbne_store_store, load_cbne_memcpy_store}
use librseq.Critical.Implements.{Atomic, Holds}
use librseq.Critical.Code.{code_of}
use librseq.Critical.Atomic.{Run-Atomic}
use librseq.Critical.I386.Code.{i386_code}
use librseq.Critical.I386.Atomic.{i386_code-Atomic}
use librseq.Critical.Arm.Code.{arm_code}
use librseq.Critical.Arm.Atomic.{arm_code-Atomic}
use librseq.Critical.Aarch64.Code.{aarch64_code}
use librseq.Critical.Aarch64.Atomic.{Words, aarch64_code-Atomic}
use librseq.Critical.Riscv.Code.{riscv_code}
use librseq.Critical.Riscv.Atomic.{riscv_code-Atomic}
use librseq.Critical.Mips.Code.{mips_code}
use librseq.Critical.Mips.Atomic.{mips_code-Atomic}
use librseq.Critical.Ppc.Code.{ppc_code}
use librseq.Critical.Ppc.Atomic.{ppc_code-Atomic}
use librseq.Critical.S390.Code.{s390_code}
use librseq.Critical.S390.Atomic.{s390_code-Atomic}
use librseq.Critical.Dispatch.{ArchSections}

-- On x86-64 the release variants are the same instructions, for the two helpers that have one.
unfoldable pub x86_64_code : (release : Bool) → Call → ℕ → Option Program
x86_64_code false call cpu = some (code_of call cpu)
x86_64_code true (load_cbne_store_store v expect v2 newv2 newv) cpu =
    some (code_of (load_cbne_store_store v expect v2 newv2 newv) cpu)
x86_64_code true (load_cbne_memcpy_store v expect dst src len newv) cpu =
    some (code_of (load_cbne_memcpy_store v expect dst src len newv) cpu)
x86_64_code release call cpu = none

module _ (M : Memory) where
  pub x86_64_code-is_code_of :
      (release : Bool) (call : Call) (cpu : ℕ) {P : Program}
      → x86_64_code release call cpu ≡ some P
      → code_of call cpu ≡ P
  unfolding x86_64_code
  x86_64_code-is_code_of false call cpu h = cc
  x86_64_code-is_code_of true (load_cbne_store_store v expect v2 newv2 newv) cpu h = cc
  x86_64_code-is_code_of true (load_cbne_memcpy_store v expect dst src len newv) cpu h = cc
  x86_64_code-is_code_of true (Call.load_cbne_store v expect newv) cpu h = absurd cc
  x86_64_code-is_code_of true (Call.load_add_store v count) cpu h = absurd cc
  x86_64_code-is_code_of true (Call.load_cbeq_store_add_load_store v e o l) cpu h = absurd cc
  x86_64_code-is_code_of true (Call.load_add_load_load_add_store p o i) cpu h = absurd cc
  x86_64_code-is_code_of true (Call.load_cbne_load_cbne_store v e v2 e2 n) cpu h = absurd cc

  abbrev pub x86_64 : ArchSections M
  x86_64 = record {
    code = x86_64_code;
    Ready = λ call cpu s. Holds M call s;
    code-Atomic = λ release call cpu P s t e h at ready run.
        subst (λ Q. (e ≡ abort) ⊎ Atomic M Q call cpu s e t)
          (x86_64_code-is_code_of release call cpu h)
          (Run-Atomic M call cpu at ready
            (subst (λ Q. Run M Q s e t) (sym (x86_64_code-is_code_of release call cpu h)) run));
  }

  abbrev pub i386 : ArchSections M
  i386 = record {
    code = i386_code;
    Ready = λ call cpu s. Unit;
    code-Atomic =
        λ release call cpu P s t e h at ready run. i386_code-Atomic M release call cpu P h at run;
  }

  abbrev pub arm : ArchSections M
  arm = record {
    code = arm_code;
    Ready = λ call cpu s. Unit;
    code-Atomic =
        λ release call cpu P s t e h at ready run. arm_code-Atomic M release call cpu P h at run;
  }

  abbrev pub riscv : ArchSections M
  riscv = record {
    code = riscv_code;
    Ready = λ call cpu s. Unit;
    code-Atomic =
        λ release call cpu P s t e h at ready run. riscv_code-Atomic M release call cpu P h at run;
  }

  abbrev pub ppc : ArchSections M
  ppc = record {
    code = ppc_code;
    Ready = λ call cpu s. Unit;
    code-Atomic =
        λ release call cpu P s t e h at ready run. ppc_code-Atomic M release call cpu P h at run;
  }

  abbrev pub mips : ArchSections M
  mips = record {
    code = mips_code;
    Ready = λ call cpu s. Holds M call s;
    code-Atomic = λ release call cpu P s t e h at ready run.
        mips_code-Atomic M release call cpu P h at ready run;
  }

  abbrev pub s390 : ArchSections M
  s390 = record {
    code = s390_code;
    Ready = λ call cpu s. Holds M call s;
    code-Atomic = λ release call cpu P s t e h at ready run.
        s390_code-Atomic M release call cpu P h at ready run;
  }

  abbrev pub aarch64 : ArchSections M
  aarch64 = record {
    code = aarch64_code;
    Ready = λ call cpu s. (cpu < 2 ^ 32) × (s.cpu < 2 ^ 32) × Words M call;
    code-Atomic = λ release call cpu P s t e h at ready run.
        aarch64_code-Atomic M release call cpu P h at ready.0 ready.1 ready.2 run;
  }
