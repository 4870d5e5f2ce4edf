-- ===== src/Mempool/Set/Served.antt =====
-- A set that has room for a value serves it.
use librseq.Base.{
  false, ℕ, ◌+◌, ◌^◌, ◌<◌, ◌≤◌, ◌≡◌, ◌≢◌, ◌∙◌, refl, sym, ap, arith, Option, none, some, List, ◌∷◌,
  ℕ_discrete, ◌==◌, if_false,
}
use librseq.Utils.{OrderOf, get_count_order_ulong, get_count_order_ulong-OrderOf}
use librseq.Mempool.Types.{Mempool, MempoolRange, Outcome, done}
use librseq.Mempool.Memory.{Memory}
use librseq.Mempool.Range.{RangeCalls}
use librseq.Mempool.Alloc.{Allocation, Init, internal_percpu_malloc}
use librseq.Mempool.Alloc.Fresh.{IsFree, internal_percpu_malloc-room_left}
use librseq.Mempool.Set.{PoolSet, put_entry, SetAllocation, set_malloc, min_order, order_from}
use librseq.Mempool.Set.Tries.{
  Tries, exhausted, absent, too_small, refuses, gives, aborts, strays, set_malloc-Tries,
}

-- A pool whose next item comes from the unused part of its first range.
pub record HasRoom (pool : Mempool) : Type 0 where
  pub range : MempoolRange
  pub ranges : List MempoolRange
  pub empty : pool.free_list_head ≡ 0
  pub listed : pool.range_list ≡ range ∷ ranges
  pub room : range.next_unused + pool.item_len ≤ pool.attr.stride
  pub slot : IsFree pool range range.next_unused

module _ (M : Memory) (K : RangeCalls M) (init : Init) where
  open M use {Mem}

  -- The malloc of the pools of the orders from `low` to `high` returns, in any memory.
  abbrev pub AreSound : PoolSet → (low high : ℕ) → Type 0
  AreSound set low high =
      (order : ℕ) (pool : Mempool) (m : Mem)
      → low ≤ order
      → order < high
      → set.entries order ≡ some pool
      → (a : Allocation M) × (internal_percpu_malloc M K init pool m ≡ done a)

  -- An item comes out.
  abbrev pub Serves : Outcome (SetAllocation M) → Type 0
  Serves x = (a : SetAllocation M) × (p : ℕ) × (x ≡ done a) × (a.addr ≡ some p)

  module _ (k : ℕ) (pool : Mempool) (has_room : HasRoom pool) (in_set : k < 64)
      (fits : init.init_len ≤ pool.item_len) where
    item_at :
        (m : Mem)
        → (a : Allocation M) × (p : ℕ) × (internal_percpu_malloc M K init pool m ≡ done a)
          × (a.addr ≡ some p)
    item_at m =
        let (range', pool', run, _, _, _, _, _) =
          internal_percpu_malloc-room_left M K pool has_room.range has_room.ranges init m fits
            has_room.empty has_room.listed has_room.room has_room.slot in
        (_, _, run, refl)

    same_pool :
        (set : PoolSet) (order : ℕ) (other : Mempool)
        → order ≡ k
        → set.entries order ≡ some other
        → set.entries k ≡ some pool
        → other ≡ pool
    same_pool set order other same present listed =
        let e : some other ≡ some pool =
          sym present ∙ ap (λ (i : ℕ). set.entries i) same ∙ listed in
        cc

    elsewhere :
        (set : PoolSet) (order i : ℕ) (entry : Option Mempool)
        → i ≢ order
        → (put_entry set order entry).entries i ≡ set.entries i
    elsewhere set order i entry differ =
        let other : (i == order) ≡ false = ground arith in if_false _ _ _ other

    serves :
        {set : PoolSet} {order : ℕ} {m : Mem} {x : Outcome (SetAllocation M)}
        → Tries M K init set order m x
        → order ≤ k
        → set.entries k ≡ some pool
        → AreSound set order k
        → Serves x
    serves (exhausted over) le listed sound = absurd (omega arith)
    serves {set = set} {order = order} (absent lt no_pool more) le listed sound =
        elim (ℕ_discrete order k) [
          | yes same ↦
              let none_there : set.entries k ≡ none =
                ap (λ (i : ℕ). set.entries i) (sym same) ∙ no_pool in
              absurd (cc)
          | no differ ↦
              serves more (omega arith) listed (λ o p m low high. sound o p m (omega arith) high)
        ]
    serves {set = set} {order = order} (too_small {pool = p} lt present small more) le listed
          sound =
        elim (ℕ_discrete order k) [
          | yes same ↦
              let e = same_pool set order p same present listed in
              let e' = ap (λ (q : Mempool). q.item_len) e in absurd (omega arith)
          | no differ ↦
              serves more (omega arith) listed (λ o p m low high. sound o p m (omega arith) high)
        ]
    serves {set = set} {order = order} {m = m}
          (refuses {pool = p} {a = a} lt present large run null more) le listed sound =
        elim (ℕ_discrete order k) [
          | yes same ↦
              let e = same_pool set order p same present listed in
              let (a', q, run', given) = item_at m in absurd (cc)
          | no differ ↦
              serves more (omega arith) (elsewhere set order k _ (λ e. differ (sym e)) ∙ listed)
                (λ o p' m' low high e.
                  sound o p' m' (omega arith) high
                    (sym (elsewhere set order o (some a.pool) (omega arith)) ∙ e))
        ]
    serves (gives lt present large run given) le listed sound = (_, _, refl, refl)
    serves {set = set} {order = order} {m = m} (aborts {pool = p} lt present large run) le listed
          sound =
        elim (ℕ_discrete order k) [
          | yes same ↦
              let e = same_pool set order p same present listed in
              let (a', q, run', given) = item_at m in absurd (cc)
          | no differ ↦
              let (a, returned) = sound order p m (omega arith) (omega arith) present in absurd (cc)
        ]
    serves {set = set} {order = order} {m = m} (strays {pool = p} lt present large run) le listed
          sound =
        elim (ℕ_discrete order k) [
          | yes same ↦
              let e = same_pool set order p same present listed in
              let (a', q, run', given) = item_at m in absurd (cc)
          | no differ ↦
              let (a, returned) = sound order p m (omega arith) (omega arith) present in absurd (cc)
        ]

    order_from-le_of :
        (len : ℕ) (o : Option ℕ) → OrderOf len o → len ≤ 2 ^ k → 3 ≤ k → order_from o ≤ k
    unfolding order_from
    order_from-le_of len none h small large = large
    order_from-le_of len (some order) (some_byte, le, count) small large =
        let below = count.least k small in ground arith

    -- If the set has a pool of items of `2 ^ k` bytes with an empty free list and room in its first
    -- range, where `3 ≤ k < 64`, and the length is a word and fits, then
    -- `__rseq_mempool_set_malloc` returns an item, provided that the malloc of the pools between the
    -- order of the length and `k` always returns, with an item or without.
    pub set_malloc-Serves :
        (set : PoolSet) (m : Mem)
        → init.init_len < 2 ^ 64
        → 3 ≤ k
        → pool.item_len ≡ 2 ^ k
        → set.entries k ≡ some pool
        → AreSound set (min_order init.init_len) k
        → Serves (set_malloc M K init set m)
    unfolding min_order
    set_malloc-Serves set m word large item listed sound =
        serves (set_malloc-Tries M K init set m word)
          (order_from-le_of init.init_len (get_count_order_ulong init.init_len)
            (get_count_order_ulong-OrderOf init.init_len word) (omega arith) large)
          listed sound
