-- ===== src/Mempool/Destroy.antt =====
-- `rseq_mempool_destroy` of src/rseq-mempool.c, with the checks of a robust pool before it.
pub mod Poison
pub mod Leaks
pub mod FreeList
pub mod Totals
pub mod Clean
mod Examples
use librseq.Base.{
  ℕ, zero, suc, ◌+◌, ◌-◌, ◌/◌, ◌^◌, bit_and, Bool, true, false, not, ◌&&◌, ◌||◌, Option, none, some,
  List, [], ◌∷◌, ltb, leb, ◌==◌, if◌then◌else◌,
}
use librseq.Bits.{u64, bit_not}
use librseq.Mempool.Types.{MempoolRange, Mempool, Outcome, done, aborted, undefined, ◌>>=◌, ◌>>◌}
use librseq.Mempool.Addr.{is_cow_init, free_list_to_percpu_ptr}
use librseq.Mempool.Memory.{Memory, load_word}
use librseq.Mempool.Items.{percpu_check_poison_item}
use librseq.Mempool.Range.{RangeCalls, range_destroy, get_page_len}

-- `RANGE_HEADER_OFFSET`, the size of `struct rseq_mempool_range` on an LP64 target.
abbrev pub range_header_offset : ℕ
range_header_offset = 80

-- `percpu_addr_in_pool`, over the ranges.
unfoldable pub percpu_addr_in_pool : List MempoolRange → ℕ → Bool
percpu_addr_in_pool [] addr = false
percpu_addr_in_pool (range ∷ ranges) addr =
    (leb range.base addr && ltb addr (range.base + range.next_unused))
    || percpu_addr_in_pool ranges addr

-- The first loop of `check_free_list`: `total_item` and `total_never_allocated`.
unfoldable pub total_item : Mempool → List MempoolRange → ℕ
total_item pool [] = 0
total_item pool (range ∷ ranges) =
    u64 (pool.attr.stride / 2 ^ pool.item_order + total_item pool ranges)

unfoldable pub total_never_allocated : Mempool → List MempoolRange → ℕ
total_never_allocated pool [] = 0
total_never_allocated pool (range ∷ ranges) = u64 (
    u64 (pool.attr.stride + 2 ^ 64 - range.next_unused) / 2 ^ pool.item_order
    + total_never_allocated pool ranges)

module _ (M : Memory) where
  open M use {Mem, load}

  -- The second loop, with the traversals that `max_list_traversal` leaves; the result is
  -- `total_freed`.
  unfoldable pub walk_free_list : ℕ → Mempool → Mem → (node total_freed : ℕ) → Outcome ℕ
  walk_free_list zero pool m node total_freed = if node == 0 then done total_freed else aborted
  walk_free_list (suc n) pool m node total_freed =
      let rest = walk_free_list n pool m (load_word M m node) (total_freed + 1) in
      if node == 0
      then done total_freed
      else (if percpu_addr_in_pool pool.range_list (free_list_to_percpu_ptr pool.attr node)
          then rest
          else aborted)

  -- Both loops and the comparison.
  unfoldable pub check_totals : Mempool → Mem → Outcome (Unit {0})
  check_totals pool m =
      let items = total_item pool pool.range_list in
      let never = total_never_allocated pool pool.range_list in
      do
        total_freed ← walk_free_list (u64 (items + 2 ^ 64 - never)) pool m pool.free_list_head 0
        if u64 (never + total_freed) == items then done tt else aborted

  -- `check_free_list`.
  unfoldable pub check_free_list : Mempool → (mapping_accessible : Bool) → Mem → Outcome (Unit {0})
  check_free_list pool mapping_accessible m =
      if not pool.attr.robust_set || not mapping_accessible then done tt else check_totals pool m

  -- The loop of `check_range_poison`, on fuel; it goes on for ever with items of no byte.
  unfoldable pub check_offsets : ℕ → Mempool → MempoolRange → ℕ → Mem → Outcome (Unit {0})
  check_offsets zero pool range item_offset m = undefined
  check_offsets (suc n) pool range item_offset m =
      let rest = check_offsets n pool range (item_offset + pool.item_len) m in
      if ltb item_offset range.next_unused
      then percpu_check_poison_item M pool range item_offset m >> rest
      else done tt

  -- `check_range_poison`.
  unfoldable pub check_range_poison : Mempool → MempoolRange → Mem → Outcome (Unit {0})
  check_range_poison pool range m = check_offsets (suc range.next_unused) pool range 0 m

  unfoldable pub check_ranges : Mempool → List MempoolRange → Mem → Outcome (Unit {0})
  check_ranges pool [] m = done tt
  check_ranges pool (range ∷ ranges) m = do
    check_range_poison pool range m
    check_ranges pool ranges m

  -- `check_pool_poison`.
  unfoldable pub check_pool_poison :
      Mempool → (mapping_accessible : Bool) → Mem → Outcome (Unit {0})
  check_pool_poison pool mapping_accessible m =
      if not pool.attr.robust_set || not mapping_accessible
      then done tt
      else check_ranges pool pool.range_list m

-- The address of the marker: `((uintptr_t) range & ~(page_size - 1)) - page_size`.
unfoldable pub marker_addr : (page_size : ℕ) → MempoolRange → ℕ
marker_addr page_size range = u64 (
    bit_and (range.base - range_header_offset) (bit_not (u64 (page_size + 2 ^ 64 - 1)))
    + 2 ^ 64
    - page_size)

-- The pool after the loop: freed, or as it is left at `goto end`.
unfoldable pub after_ranges : Mempool → List MempoolRange → Option Mempool
after_ranges pool [] = none
after_ranges pool (range ∷ ranges) = some (record pool { range_list = range ∷ ranges })

module _ (M : Memory) (K : RangeCalls M) where
  open M use {Mem, load}

  -- `pool_mappings_accessible`: the 0x1 marker of the first range, for a pool of init values.
  unfoldable pub marked : List MempoolRange → Mem → Bool
  marked [] m = true
  marked (range ∷ ranges) m = load m (marker_addr (get_page_len K.sysconf) range) == 1

  unfoldable pub pool_mappings_accessible : Mempool → Mem → Bool
  pool_mappings_accessible pool m =
      if is_cow_init pool.attr.populate_policy then marked pool.range_list m else true

  -- The loop of `rseq_mempool_destroy`: the ranges that are left in the list when it is over, which
  -- are none unless a `munmap` fails.
  unfoldable pub destroy_ranges :
      List MempoolRange → (mapping_accessible : Bool) → Outcome (List MempoolRange)
  destroy_ranges [] mapping_accessible = done []
  destroy_ranges (range ∷ ranges) mapping_accessible =
      let rest = destroy_ranges ranges mapping_accessible in
      do
        (unmapped, range') ← range_destroy M K range mapping_accessible
        if unmapped then rest else done (range' ∷ ranges)

  -- `rseq_mempool_destroy` of a pool. It returns 0 in any case, so the result tells what is left:
  -- `none` is a pool that was freed.
  unfoldable pub mempool_destroy : Mempool → Mem → Outcome (Option Mempool)
  mempool_destroy pool m =
      let mapping_accessible = pool_mappings_accessible pool m in
      do
        check_free_list M pool mapping_accessible m
        check_pool_poison M pool mapping_accessible m
        left ← destroy_ranges pool.range_list mapping_accessible
        done (after_ranges pool left)
