-- ===== src/Critical/Dispatch/Examples.antt =====
-- A helper on Arm, at a memory whose words are four bytes.
use librseq.Base.{refl, false, ℕ, ◌≡◌, ◌⊎◌}
use librseq.Mempool.Memory.{Memory, load_bytes, store_bytes}
use librseq.Mempool.Memory.ByteMap.{plain}
use librseq.Critical.Machine.{
  success, abort, State, returns, steps, exec, step, fetch, program, assemble,
}
use librseq.Critical.Pseudo.{load_cbne_store_store}
use librseq.Critical.Arm.Code.{arm_code, load_cbne_store_store_code}
use librseq.Critical.Dispatch.{
  mo_release, percpu_mm_cid, Ids, Calls, runs, rseq_ptr, load_cbne_store_store_ptr, by_mo, by_mode,
  reading,
}
use librseq.Critical.Dispatch.Chosen.{Unserved}
use librseq.Critical.Dispatch.Served.{Serves, rseq_ptr-Serves}
use librseq.Critical.Dispatch.Archs.{arm}

abbrev four : Memory
four = record plain { word_bytes = 4 }

-- A thread on CPU 9 whose concurrency id is 3, and the helper for 3 with a release store.
abbrev both : Ids
both = record { cpu_id = 9; mm_cid = 3 }

abbrev start : State four
start = record {
  pc = 0;
  regs = λ _. 0;
  src = 0;
  dst = 0;
  len = 0;
  scratch0 = 0;
  scratch1 = 0;
  scratch2 = 0;
  zf = false;
  rseq_cs = false;
  cpu = 0;
  mem = λ _. 7;
}

abbrev sevens : ℕ
sevens = 0x0707_0707

store_store_call :
    (t : State four) × Calls four
      (rseq_ptr (arm four) mo_release percpu_mm_cid (load_cbne_store_store 64 sevens 32 5 9) 3)
      both
      start
      success
      t
unfolding rseq_ptr load_cbne_store_store_ptr by_mo by_mode reading arm_code
    load_cbne_store_store_code assemble program step fetch exec load_bytes store_bytes
store_store_call = (
  _,
  runs refl (
      steps refl (
        steps refl (
          steps refl (
            steps refl (
              steps refl (
                steps refl (
                  steps refl
                    (steps refl (steps refl (steps refl (steps refl (returns refl)))))))))))),
)

rseq_ptr-Serves_example :
    Unserved mo_release percpu_mm_cid (load_cbne_store_store 64 sevens 32 5 9)
      × (success ≡ abort)
      × (store_store_call.0 ≡ start)
    ⊎ Serves
        (arm four)
        mo_release
        percpu_mm_cid
        (load_cbne_store_store 64 sevens 32 5 9)
        3
        both
        start
        success
        store_store_call.0
rseq_ptr-Serves_example =
    rseq_ptr-Serves (arm four) mo_release percpu_mm_cid (load_cbne_store_store 64 sevens 32 5 9) 3
      both start success store_store_call.0 refl (λ id names. tt) store_store_call.1
