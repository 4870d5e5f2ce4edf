-- ===== src/Critical/S390/Copy.antt =====
-- The s390x section with the copy loop: its instructions do what those of x86-64 do.
use librseq.Base.{ℕ}
use librseq.Mempool.Memory.{Memory}
use librseq.Critical.Machine.{State, assemble}
use librseq.Critical.Pseudo.{Call}
use librseq.Critical.Lands.{Lands}
use librseq.Critical.Implements.{attempt, Holds}
use librseq.Critical.Copy.{load_cbne_memcpy_store-Lands}
use librseq.Critical.Code.{load_cbne_memcpy_store_code as x86_code}
use librseq.Critical.S390.Code.{load_cbne_memcpy_store_code}

pub copy-Lands :
    (M : Memory) (v expect newv cpu dst src len : ℕ) (s : State M)
    → Holds M (Call.load_cbne_memcpy_store v expect dst src len newv) s
    → Lands M
        (load_cbne_memcpy_store_code v expect newv cpu)
        (record s { pc = 5 })
        (attempt M (Call.load_cbne_memcpy_store v expect dst src len newv) cpu s)
unfolding assemble x86_code load_cbne_memcpy_store_code
copy-Lands M v expect newv cpu dst src len s held =
    load_cbne_memcpy_store-Lands M v expect newv cpu dst src len s held
