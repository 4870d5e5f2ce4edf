-- ===== src/Critical/Pseudo.antt =====
-- include/rseq/pseudocode.h: each section as one step on the memory, with what it returns if it is
-- not aborted.
use librseq.Critical.Words.{load_long, store_long, wrap}
use librseq.Base.{ℕ, zero, suc, ◌+◌, ◌==◌, if◌then◌else◌}
use librseq.Mempool.Memory.{Memory}
use librseq.Critical.Machine.{Exit, success, ne}

-- A call of one of the helpers, with its arguments.
pub data Call : Type 0 where
  load_cbne_store : (v expect newv : ℕ) → Call
  load_add_store : (v count : ℕ) → Call
  load_cbeq_store_add_load_store : (v expectnot voffp load : ℕ) → Call
  load_add_load_load_add_store : (ptr off inc : ℕ) → Call
  load_cbne_load_cbne_store : (v expect v2 expect2 newv : ℕ) → Call
  load_cbne_store_store : (v expect v2 newv2 newv : ℕ) → Call
  load_cbne_memcpy_store : (v expect dst src len newv : ℕ) → Call

module _ (M : Memory) where
  open M use {Mem, load, store}

  -- `memcpy(dst, src, len)`, a byte after the other.
  unfoldable pub copy : ℕ → Mem → ℕ → ℕ → Mem
  copy zero m dst src = m
  copy (suc n) m dst src = copy n (store m dst (load m src)) (dst + 1) (src + 1)

  unfoldable pub pseudo : Call → Mem → Exit × Mem
  pseudo (load_cbne_store v expect newv) m =
      if load_long M m v == expect then (success, store_long M m v newv) else (ne, m)
  pseudo (load_add_store v count) m =
      let r1 = load_long M m v in (success, store_long M m v (wrap M (r1 + count)))
  pseudo (load_cbeq_store_add_load_store v expectnot voffp load) m =
      let r1 = load_long M m v in
      let m' = store_long M m load r1 in
      let r2 = load_long M m' (wrap M (r1 + voffp)) in
      if r1 == expectnot then (ne, m) else (success, store_long M m' v r2)
  pseudo (load_add_load_load_add_store ptr off inc) m =
      let r1 = wrap M (load_long M m ptr + off) in
      let r2 = load_long M m r1 in
      let r3 = wrap M (load_long M m r2 + inc) in (success, store_long M m r2 r3)
  pseudo (load_cbne_load_cbne_store v expect v2 expect2 newv) m =
      if load_long M m v == expect
      then (if load_long M m v2 == expect2 then (success, store_long M m v newv) else (ne, m))
      else (ne, m)
  pseudo (load_cbne_store_store v expect v2 newv2 newv) m =
      if load_long M m v == expect
      then (success, store_long M (store_long M m v2 newv2) v newv)
      else (ne, m)
  pseudo (load_cbne_memcpy_store v expect dst src len newv) m =
      if load_long M m v == expect
      then (success, store_long M (copy len m dst src) v newv)
      else (ne, m)
