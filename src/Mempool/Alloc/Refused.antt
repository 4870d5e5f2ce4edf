-- ===== src/Mempool/Alloc/Refused.antt =====
-- Where malloc returns `NULL`.
use librseq.Base.{
  Bool-cases, inl, inr, if◌then◌else◌, ◌∙◌, ◌+◌, ◌≤◌, ◌<◌, ◌≡◌, refl, true, not, ◌&&◌, List, [],
  ◌∷◌, ltb, leb, ◌==◌, arith, if_true,
}
use librseq.Mempool.Types.{MempoolRange, Mempool, einval, enomem, done}
use librseq.Mempool.Memory.{Memory}
use librseq.Mempool.Range.{RangeCalls, range_create}
use librseq.Mempool.Alloc.{
  Init, null_with, internal_percpu_malloc, malloc_unused, create_range, malloc_in,
}

-- The first range of a list has no room for another item.
abbrev pub IsFull : Mempool → List MempoolRange → Type 0
IsFull pool [] = Unit
IsFull pool (range ∷ ranges) = pool.attr.stride < range.next_unused + pool.item_len

module _ (M : Memory) (K : RangeCalls M) (pool : Mempool) (init : Init) (m : M.Mem) where
  limited :
      0 < pool.attr.max_nr_ranges
      → pool.attr.max_nr_ranges ≤ pool.nr_ranges
      → create_range M K init pool m ≡ done (null_with M K enomem pool m)
  unfolding create_range range_create malloc_in
  limited some_limit reached =
      let stop : (not (pool.attr.max_nr_ranges == 0) && leb pool.attr.max_nr_ranges pool.nr_ranges)
          ≡ true =
        ground arith in
      rw stop refl

  full :
      (ranges : List MempoolRange)
      → IsFull pool ranges
      → create_range M K init pool m ≡ done (null_with M K enomem pool m)
      → malloc_unused M K ranges init pool m ≡ done (null_with M K enomem pool m)
  unfolding malloc_unused
  full [] h none = none
  full (range ∷ ranges) h none =
      let no_room : ltb pool.attr.stride (range.next_unused + pool.item_len) ≡ true =
        ground arith in
      if_true _ _ _ no_room ∙ none

  -- With an empty free list, no room in the first range, and as many ranges as the attributes
  -- allow, malloc returns `NULL`, and leaves the pool and the memory as they are; errno is EINVAL if
  -- the init value is longer than an item, else ENOMEM.
  pub internal_percpu_malloc-null_with :
      pool.free_list_head ≡ 0
      → IsFull pool pool.range_list
      → 0 < pool.attr.max_nr_ranges
      → pool.attr.max_nr_ranges ≤ pool.nr_ranges
      → internal_percpu_malloc M K init pool m
        ≡ done (null_with M K (if ltb pool.item_len init.init_len then einval else enomem) pool m)
  unfolding internal_percpu_malloc
  internal_percpu_malloc-null_with empty no_room some_limit reached =
      let no_node : (pool.free_list_head == 0) ≡ true = ground arith in
      let refused = full pool.range_list no_room (limited some_limit reached) in
      elim (Bool-cases (ltb pool.item_len init.init_len)) [
        | inl long ↦ rw long refl
        | inr fits ↦ rw fits (rw no_node refused)
      ]
