-- ===== src/Mempool/Destroy/Totals.antt =====
-- `check_free_list`: its totals, and what it comes to.
use native.Mathlib.Nat.{mul-zero, mul-suc, add-mul, div-eq_of_eq-mul_left}
use librseq.Base.{
  ◌↔◌, ◌∙◌, ◌==◌, if◌then◌else◌, ℕ, suc, ◌+◌, ◌-◌, ◌*◌, ◌/◌, ◌^◌, ◌<◌, ◌≤◌, ◌≡◌, ap, arith, List,
  [], ◌∷◌, length, inl, inr, subst,
}
use librseq.Bits.{u64, two-pow-pos}
use librseq.Mempool.Types.{MempoolRange, Mempool, done, aborted}
use librseq.Mempool.Decides.{Decides, passes, stops, Decides-if}
use librseq.Mempool.Memory.{Memory}
use librseq.Mempool.Destroy.{walk_free_list, total_item, total_never_allocated, check_totals}
use librseq.Mempool.Destroy.FreeList.{Chain, Chain-unique, walk_free_list-Walks}

-- Ranges that hold `count` items of `2 ^ order` bytes each, of which a whole number was ever
-- allocated.
abbrev pub AreWhole : (count order : ℕ) → List MempoolRange → Type 0
AreWhole count order [] = Unit
AreWhole count order (range ∷ ranges) =
    ((k : ℕ) × (range.next_unused ≡ k * 2 ^ order) × (k ≤ count)) × AreWhole count order ranges

-- The number of items that were ever allocated.
abbrev pub once_allocated : (order : ℕ) → List MempoolRange → ℕ
once_allocated order [] = 0
once_allocated order (range ∷ ranges) = range.next_unused / 2 ^ order + once_allocated order ranges

-- The stride is made up of whole items, and all items can be counted.
pub record IsWhole (pool : Mempool) : Type 0 where
  pub count : ℕ
  pub stride : pool.attr.stride ≡ count * 2 ^ pool.item_order
  pub stride_lt : pool.attr.stride < 2 ^ 64
  pub ranges : AreWhole count pool.item_order pool.range_list
  pub countable : count * length pool.range_list < 2 ^ 64

module _ (pool : Mempool) (count : ℕ) (stride : pool.attr.stride ≡ count * 2 ^ pool.item_order)
    (stride_lt : pool.attr.stride < 2 ^ 64) where
  total_item_lem :
      (ranges : List MempoolRange)
      → count * length ranges < 2 ^ 64
      → total_item pool ranges ≡ count * length ranges
  unfolding total_item
  total_item_lem [] h = omega (arith, mul-zero count)
  total_item_lem (range ∷ ranges) h =
      let here : pool.attr.stride / 2 ^ pool.item_order ≡ count =
        div-eq_of_eq-mul_left (two-pow-pos pool.item_order) stride in
      let more : count * suc (length ranges) ≡ count * length ranges + count =
        mul-suc count (length ranges) in
      let rest = total_item_lem ranges (omega arith) in omega arith

  -- A range of which `k` items were allocated.
  never_here :
      (range : MempoolRange) (k : ℕ)
      → range.next_unused ≡ k * 2 ^ pool.item_order
      → k ≤ count
      → u64 (pool.attr.stride + 2 ^ 64 - range.next_unused) / 2 ^ pool.item_order ≡ count - k
  never_here range k e le = div-eq_of_eq-mul_left (two-pow-pos pool.item_order) (
      let parts : (k + (count - k)) * 2 ^ pool.item_order
          ≡ k * 2 ^ pool.item_order + (count - k) * 2 ^ pool.item_order =
        add-mul k (count - k) (2 ^ pool.item_order) in
      let whole : k + (count - k) ≡ count = omega arith in
      let parts' = ap (λ (t : ℕ). t * 2 ^ pool.item_order) whole in omega arith)

  total_never_allocated_lem :
      (ranges : List MempoolRange)
      → AreWhole count pool.item_order ranges
      → count * length ranges < 2 ^ 64
      → total_never_allocated pool ranges + once_allocated pool.item_order ranges
        ≡ count * length ranges
  unfolding total_never_allocated
  total_never_allocated_lem [] h lt = omega (arith, mul-zero count)
  total_never_allocated_lem (range ∷ ranges) ((k, e, le), h) lt =
      let here = never_here range k e le in
      let used : range.next_unused / 2 ^ pool.item_order ≡ k =
        div-eq_of_eq-mul_left (two-pow-pos pool.item_order) e in
      let more : count * suc (length ranges) ≡ count * length ranges + count =
        mul-suc count (length ranges) in
      let rest = total_never_allocated_lem ranges h (omega arith) in omega arith

module _ (M : Memory) (pool : Mempool) (whole : IsWhole pool) (m : M.Mem) where
  open whole use {count, stride, stride_lt, ranges, countable}

  abbrev allocated : ℕ
  allocated = once_allocated pool.item_order pool.range_list

  -- The free list ends after as many nodes as there are items that were ever allocated, each of them
  -- for an address among these. Which items the nodes are for is not compared.
  abbrev pub CountsAllFree : Type 0
  CountsAllFree = Chain M pool m pool.free_list_head allocated

  -- The last comparison, after a walk over `k` nodes.
  compared :
      (k never items : ℕ)
      → Chain M pool m pool.free_list_head k
      → (u64 (never + k) ≡ items) ↔ (k ≡ allocated)
      → Decides CountsAllFree (if u64 (never + k) == items then done tt else aborted)
  compared k never items c e =
      Decides-if (u64 (never + k) == items)
        (λ h.
          let all = e.0 (ground arith) in passes (subst (Chain M pool m pool.free_list_head) all c))
        (λ h. stops (λ c'. let same = e.1 (Chain-unique M pool m c c') in absurd (ground arith)))

  pub check_totals-Decides : Decides CountsAllFree (check_totals M pool m)
  unfolding check_totals
  check_totals-Decides =
      let items = total_item_lem pool count stride stride_lt pool.range_list countable in
      let never =
        total_never_allocated_lem pool count stride stride_lt pool.range_list ranges countable in
      let rounds : u64
            (total_item pool pool.range_list + 2 ^ 64 - total_never_allocated pool pool.range_list)
          ≡ allocated =
        omega arith in
      rw rounds (elim (walk_free_list-Walks M pool m allocated pool.free_list_head 0) [
        | inl (k, c, le, e) ↦
            let e' : walk_free_list M allocated pool m pool.free_list_head 0 ≡ done k =
              e ∙ ap done (omega arith) in
            rw e' (
              compared k (total_never_allocated pool pool.range_list)
                (total_item pool pool.range_list) c (λ h. omega arith, λ h. omega arith))
        | inr (none, e) ↦ rw e (stops (λ c. let lt = none allocated c in absurd (omega arith)))
      ])
