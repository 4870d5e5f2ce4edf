-- ===== src/Mempool/Destroy/Examples.antt =====
-- A robust pool of two items, before and after they are freed.
use librseq.Base.{ℕ, ◌+◌, ◌*◌, ◌≡◌, ◌⊎◌, refl, true, arith, none, some, [], ◌∷◌}
use librseq.Mempool.Types.{Mempool, MempoolRange, done, aborted, mempool_stride}
use librseq.Mempool.Memory.ByteMap.{plain}
use librseq.Mempool.Examples.{range, pool, calls, blank}
use librseq.Mempool.Destroy.{mempool_destroy, pool_mappings_accessible}
use librseq.Mempool.Destroy.Totals.{IsWhole}
use librseq.Mempool.Destroy.Clean.{IsClean, mempool_destroy-IsClean}

abbrev used : MempoolRange
used = record range { alloc_bitmap = some (0 ∷ []) }

-- The node of the item at 16, then the one at 0.
abbrev node : ℕ → ℕ
node offset = 0x10_0000 + 2 * mempool_stride + offset

abbrev freed_pool : Mempool
freed_pool = record pool { range_list = used ∷ []; free_list_head = node 16 }

whole : IsWhole freed_pool
whole = record {
  count = 4096;
  stride = refl;
  stride_lt = omega arith;
  ranges = ((2, refl, omega arith), tt);
  countable = omega arith;
}

accessible : pool_mappings_accessible plain calls freed_pool blank ≡ true
unfolding pool_mappings_accessible
accessible = refl

mempool_destroy-IsClean_example :
    (IsClean plain freed_pool whole blank
      × (mempool_destroy plain calls freed_pool blank ≡ done none))
    ⊎ (¬ (IsClean plain freed_pool whole blank)
        × (mempool_destroy plain calls freed_pool blank ≡ aborted))
mempool_destroy-IsClean_example =
    mempool_destroy-IsClean plain calls freed_pool blank whole (λ a l. refl) refl (omega arith)
      accessible
