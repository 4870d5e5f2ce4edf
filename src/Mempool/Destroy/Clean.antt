-- ===== src/Mempool/Destroy/Clean.antt =====
-- What a pool must be like to be destroyed.
use librseq.Base.{if_false, ℕ, ◌<◌, ◌≡◌, ◌⊎◌, true, false, refl, not, ◌||◌, arith, none, inl, inr}
use librseq.Mempool.Types.{Mempool, done, aborted}
use librseq.Mempool.Decides.{Decides-cases}
use librseq.Mempool.Memory.{Memory}
use librseq.Mempool.Range.{RangeCalls}
use librseq.Mempool.Destroy.{
  check_free_list, check_pool_poison, pool_mappings_accessible, after_ranges, mempool_destroy,
  check_totals, check_ranges,
}
use librseq.Mempool.Destroy.Poison.{ArePoisoned, check_ranges-Decides}
use librseq.Mempool.Destroy.Leaks.{AreReturned, destroy_ranges-cases}
use librseq.Mempool.Destroy.Totals.{IsWhole, CountsAllFree, check_totals-Decides}

-- The free list has a node for each item that was ever allocated, by number, and every such item is
-- poisoned and has a free slot.
pub record IsClean (M : Memory) (pool : Mempool) (whole : IsWhole pool) (m : M.Mem) : Type 0 where
  pub free_list : CountsAllFree M pool whole m
  pub poisoned : ArePoisoned M pool pool.range_list m
  pub returned : AreReturned pool.range_list

module _ (M : Memory) (K : RangeCalls M) (pool : Mempool) (m : M.Mem) (whole : IsWhole pool)
    (unmaps : (addr len : ℕ) → K.maps.munmap addr len ≡ true) (robust : pool.attr.robust_set ≡ true)
    (some_byte : 0 < pool.item_len) (accessible : pool_mappings_accessible M K pool m ≡ true) where
  guard : (not pool.attr.robust_set || not true) ≡ false
  guard = ground arith

  frees : check_free_list M pool true m ≡ check_totals M pool m
  unfolding check_free_list
  frees = if_false _ _ _ guard

  poisons : check_pool_poison M pool true m ≡ check_ranges M pool pool.range_list m
  unfolding check_pool_poison
  poisons = if_false _ _ _ guard

  -- Where every `munmap` succeeds and the mappings are accessible, `rseq_mempool_destroy` frees a
  -- robust pool, whose stride and the used part of each range are made up of whole items of one byte
  -- at least, less than 2 ^ 64 in all, if its free list ends after as many nodes as there are items
  -- that were ever allocated, each node's address lies in the used part of a range, and each item that
  -- was ever allocated is poisoned and marked free; and else it aborts.
  pub mempool_destroy-IsClean :
      (IsClean M pool whole m × (mempool_destroy M K pool m ≡ done none))
      ⊎ (¬ (IsClean M pool whole m) × (mempool_destroy M K pool m ≡ aborted))
  unfolding mempool_destroy after_ranges
  mempool_destroy-IsClean =
      rw (accessible, frees, poisons)
        (elim (Decides-cases (check_totals-Decides M pool whole m)) [
          | inl (free, e) ↦
              elim (Decides-cases
                (check_ranges-Decides M pool robust some_byte pool.range_list m)) [
                  | inl (poisoned, e') ↦
                      elim (destroy_ranges-cases M K unmaps pool.range_list true) [
                        | inl (returned, e'') ↦ inl (
                          record { free_list = free; poisoned = poisoned; returned = returned },
                          rw (e, e', e'') refl,
                        )
                        | inr (taken, e'') ↦ inr (λ c. taken c.returned, rw (e, e', e'') refl)
                      ]
                  | inr (bad, e') ↦ inr (λ c. bad c.poisoned, rw (e, e') refl)
                ]
          | inr (broken, e) ↦ inr (λ c. broken c.free_list, rw e refl)
        ])
