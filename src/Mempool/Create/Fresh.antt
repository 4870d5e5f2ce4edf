-- ===== src/Mempool/Create/Fresh.antt =====
-- A pool that `rseq_mempool_create` has made can be destroyed.
use librseq.Base.{
  ◌||◌, ℕ, zero, suc, ◌+◌, ◌-◌, ◌^◌, ◌<◌, ◌≡◌, ◌∙◌, refl, arith, Bool, true, not, ◌==◌, Bool-cases,
  none, List, [], ◌∷◌, inl, inr, if_true, if_false,
}
use librseq.Bits.{u64}
use librseq.Mempool.Types.{MempoolRange, Mempool, done}
use librseq.Mempool.Memory.{Memory}
use librseq.Mempool.Range.{RangeCalls}
use librseq.Mempool.Destroy.{
  total_item, total_never_allocated, walk_free_list, check_totals, check_free_list, check_offsets,
  check_range_poison, check_ranges, check_pool_poison, pool_mappings_accessible, after_ranges,
  mempool_destroy,
}
use librseq.Mempool.Destroy.Leaks.{IsReturned, AreReturned, destroy_ranges-cases}

-- A range that was never used.
pub record IsFresh (range : MempoolRange) : Type 0 where
  pub unused : range.next_unused ≡ 0
  pub returned : IsReturned range

-- All ranges of a list are.
abbrev pub AreFresh : List MempoolRange → Type 0
AreFresh [] = Unit
AreFresh (range ∷ ranges) = IsFresh range × AreFresh ranges

AreFresh-AreReturned : (ranges : List MempoolRange) → AreFresh ranges → AreReturned ranges
AreFresh-AreReturned [] h = tt
AreFresh-AreReturned (range ∷ ranges) (h, hs) = (h.returned, AreFresh-AreReturned ranges hs)

module _ (pool : Mempool) (stride_lt : pool.attr.stride < 2 ^ 64) where
  same_totals :
      (ranges : List MempoolRange)
      → AreFresh ranges
      → total_never_allocated pool ranges ≡ total_item pool ranges
  unfolding total_never_allocated total_item
  same_totals [] h = refl
  same_totals (range ∷ ranges) (h, hs) =
      let unused : u64 (pool.attr.stride + 2 ^ 64 - range.next_unused) ≡ pool.attr.stride =
        omega (arith, h.unused) in
      rw (unused, same_totals ranges hs) refl

  total_item-lt : (ranges : List MempoolRange) → total_item pool ranges < 2 ^ 64
  unfolding total_item
  total_item-lt [] = omega arith
  total_item-lt (range ∷ ranges) = omega arith

  module _ (M : Memory) (m : M.Mem) (empty : pool.free_list_head ≡ 0)
      (fresh : AreFresh pool.range_list) where
    walk_empty : (n node : ℕ) → node ≡ 0 → walk_free_list M n pool m node 0 ≡ done 0
    unfolding walk_free_list
    walk_empty zero node e = ground arith
    walk_empty (suc n) node e = ground arith

    totals_pass : check_totals M pool m ≡ done tt
    unfolding check_totals
    totals_pass =
        let same : (u64 (total_never_allocated pool pool.range_list + 0)
              == total_item pool pool.range_list)
            ≡ true =
          ground (arith, same_totals pool.range_list fresh, total_item-lt pool.range_list) in
        rw (walk_empty _ pool.free_list_head empty, same) refl

    offsets_pass :
        (range : MempoolRange) → range.next_unused ≡ 0 → check_range_poison M pool range m ≡ done tt
    unfolding check_range_poison check_offsets
    offsets_pass range h = ground arith

    poison_passes :
        (ranges : List MempoolRange) → AreFresh ranges → check_ranges M pool ranges m ≡ done tt
    unfolding check_ranges
    poison_passes [] h = refl
    poison_passes (range ∷ ranges) (h, hs) =
        rw (offsets_pass range h.unused) (poison_passes ranges hs)

-- Without its ranges' bitmaps and items, a pool is destroyed whether or not the mappings are
-- accessible.
module _ (M : Memory) (K : RangeCalls M) (pool : Mempool) (m : M.Mem)
    (unmaps : (addr len : ℕ) → K.maps.munmap addr len ≡ true)
    (stride_lt : pool.attr.stride < 2 ^ 64) (empty : pool.free_list_head ≡ 0)
    (fresh : AreFresh pool.range_list) where
  checks_pass :
      (accessible : Bool)
      → (check_free_list M pool accessible m ≡ done tt)
        × (check_pool_poison M pool accessible m ≡ done tt)
  unfolding check_free_list check_pool_poison
  checks_pass accessible = elim (Bool-cases (not pool.attr.robust_set || not accessible)) [
    | inl skip ↦ (if_true _ _ _ skip, if_true _ _ _ skip)
    | inr check ↦ (
      if_false _ _ _ check ∙ totals_pass pool stride_lt M m empty fresh,
      if_false _ _ _ check ∙ poison_passes pool stride_lt M m empty fresh pool.range_list fresh,
    )
  ]

  pub mempool_destroy-AreFresh : mempool_destroy M K pool m ≡ done none
  unfolding mempool_destroy after_ranges
  mempool_destroy-AreFresh =
      let (free, poison) = checks_pass (pool_mappings_accessible M K pool m) in
      elim (destroy_ranges-cases M K unmaps pool.range_list (pool_mappings_accessible M K pool m)) [
        | inl (returned, e) ↦ rw (free, poison, e) refl
        | inr (taken, e) ↦ absurd (taken (AreFresh-AreReturned pool.range_list fresh))
      ]
