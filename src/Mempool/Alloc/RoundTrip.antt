-- ===== src/Mempool/Alloc/RoundTrip.antt =====
-- An item that is freed is the next one that malloc returns.
use native.Mathlib.Nat.{mul-le-mul_left, mul-suc, mul_comm}
use librseq.Base.{
  false, ◌-◌, ltb, ◌==◌, ℕ, suc, ◌+◌, ◌*◌, ◌%◌, ◌^◌, ◌≤◌, ◌<◌, ◌≡◌, ◌≢◌, refl, true, Option, none,
  some, List, Bool-cases, inl, inr, if◌then◌else◌, arith, if_false, if_true, subst, sym,
}
use librseq.Mempool.Types.{MempoolRange, Mempool, done, nr_cpus}
use librseq.Mempool.Addr.{
  free_list_to_percpu_ptr, percpu_to_free_list_ptr, range_base_of, offset_of, range_percpu_ptr,
  is_cow_init,
}
use librseq.Mempool.Addr.Laws.{free_list_to_percpu_ptr-percpu_to_free_list_ptr, range_base_offset}
use librseq.Mempool.Memory.{load-store_word, Memory, Apart, Plain, store_word, store_word-Changes}
use librseq.Mempool.Items.{percpu_poison_item, percpu_check_poison_item, words}
use librseq.Mempool.Items.Placed.{IsPlaced}
use librseq.Mempool.Items.Check.{IsPoisoned, IsPoisoned-Changes, percpu_check_poison_item_iff}
use librseq.Mempool.Items.RoundTrip.{percpu_poison_item-IsPoisoned}
use librseq.Mempool.Bitmap.{clear_alloc_slot, set_alloc_slot}
use librseq.Mempool.Range.{RangeCalls}
use librseq.Mempool.Alloc.{
  load_word, Allocation, init_args, init_item, init_bytes, find_range, put_range,
  mempool_percpu_malloc, mempool_percpu_free, internal_percpu_malloc, malloc_free_list, end,
}
use librseq.Mempool.Alloc.Slots.{find_range-put_range, free-alloc, IsAllocated}

-- The free-list node of the item at `off`.
abbrev pub node_of : Mempool → MempoolRange → ℕ → ℕ
node_of pool range off = percpu_to_free_list_ptr pool.attr (range.base + off)

-- An allocated item of a pool: where `rseq_mempool_create` and `rseq_mempool_range_create` put it,
-- its range in the pool's list, its slot taken. No byte of the node follows another one of it. The
-- node of a robust pool, in an area of its own, has no followers; that of a pool of init values that
-- is not robust lies in the init values, which the areas of the CPUs may follow.
pub record IsLive (M : Memory) (pool : Mempool) (range : MempoolRange) (k off : ℕ) : Type 0 where
  pub small : k ≤ 63
  pub stride : pool.attr.stride ≡ 2 ^ k
  pub aligned : range.base % 2 ^ k ≡ 0
  pub not_null : 0 < range.base
  pub placed : IsPlaced M pool range off
  pub node_fits : 8 ≤ pool.item_len
  pub node_word : Plain M (node_of pool range off) 8
  pub node_quiet :
      pool.attr.robust_set ≡ true
      → (a b : ℕ) → node_of pool range off ≤ a
      → a < node_of pool range off + 8
      → ¬ (M.Follows a b)
  pub in_space : range.base + off + nr_cpus pool.attr * pool.attr.stride + pool.attr.stride < 2 ^ 64
  pub init_policy : range.init ≢ none → is_cow_init pool.attr.populate_policy ≡ true
  pub poison_word : pool.attr.poison < 2 ^ 64
  pub poisoned : pool.attr.robust_set ≡ true → pool.attr.poison_set ≡ true
  pub listed : find_range pool.range_list range.base ≡ done range
  pub allocated : IsAllocated pool range off
  pub head_word : pool.free_list_head < 2 ^ 64

module _ {M : Memory} {pool : Mempool} {range : MempoolRange} {k off : ℕ}
    (live : IsLive M pool range k off) where
  open M use {Mem}
  open live use {
    small, stride, aligned, not_null, placed, node_fits, node_word, node_quiet, in_space,
    init_policy, poison_word, poisoned, listed, allocated, head_word,
  }

  abbrev node : ℕ
  node = node_of pool range off

  -- The node lies behind the areas of the CPUs in a robust pool, and behind the init values.
  node_after :
      pool.attr.robust_set ≡ true → range.base + off + nr_cpus pool.attr * pool.attr.stride ≤ node
  unfolding percpu_to_free_list_ptr
  node_after robust = ground arith

  node_after_init :
      pool.attr.robust_set ≡ true
      → is_cow_init pool.attr.populate_policy ≡ true
      → range.base + off + nr_cpus pool.attr * pool.attr.stride + pool.attr.stride ≤ node
  unfolding percpu_to_free_list_ptr
  node_after_init robust cow = ground arith

  node_pos : 0 < node
  unfolding percpu_to_free_list_ptr
  node_pos = ground arith

  located :
      (range_base_of (range.base + off) pool.attr.stride ≡ range.base)
      × (offset_of (range.base + off) pool.attr.stride ≡ off)
  located = rw stride (
      range_base_offset k range.base off small aligned
        (omega (arith, placed.fits, node_fits, stride)) (omega arith))

  module _ (bitmap : Option (List ℕ)) where
    abbrev range' : MempoolRange
    range' = record range { alloc_bitmap = bitmap }

    -- The pool after the item was freed, and the memory.
    abbrev pool' : Mempool
    pool' = record pool { range_list = put_range pool.range_list range'; free_list_head = node }

    abbrev poisoned_mem : Mem → Mem
    poisoned_mem m = if pool.attr.poison_set then percpu_poison_item M pool range' off m else m

    abbrev freed_mem : Mem → Mem
    freed_mem m = store_word M (poisoned_mem m) node pool.free_list_head

    placed' : IsPlaced M pool range' off
    placed' = record {
      fits = placed.fits;
      whole = placed.whole;
      private = placed.private;
      init_at = placed.init_at;
    }

    free_runs :
        (m : Mem)
        → clear_alloc_slot pool range off ≡ done range'
        → mempool_percpu_free M (range.base + off) pool.attr.stride pool m
          ≡ done (pool', freed_mem m)
    unfolding mempool_percpu_free
    free_runs m cleared = rw (located.0, located.1, listed, cleared) refl

    areas :
        (i : ℕ)
        → i < nr_cpus pool.attr
        → pool.attr.stride * i + pool.attr.stride ≤ nr_cpus pool.attr * pool.attr.stride
    areas i lt = omega (
      arith,
      mul-le-mul_left {m = suc i} {n = nr_cpus pool.attr} pool.attr.stride lt,
      mul-suc pool.attr.stride i,
      mul_comm pool.attr.stride (nr_cpus pool.attr),
    )

    node-cpu-Apart :
        pool.attr.robust_set ≡ true
        → (i : ℕ) → i < nr_cpus pool.attr
        → Apart M node 8 (range_percpu_ptr range' i off pool.attr.stride) (8 * words pool.item_len)
    unfolding range_percpu_ptr
    node-cpu-Apart robust i lt b lo hi a la ha = (
      λ same. absurd (omega (arith, areas i lt, node_after robust, placed.fits, placed.whole)),
      node_quiet robust a b la ha,
    )

    node-init-Apart :
        pool.attr.robust_set ≡ true
        → (init : ℕ) → range.init ≡ some init
        → Apart M node 8 (init + off) (8 * words pool.item_len)
    node-init-Apart robust init e b lo hi a la ha = (
      λ same. absurd (
          omega (
            arith,
            node_after_init robust (init_policy (λ none_e. cc)),
            (placed.init_at init e).0,
            placed.fits,
            placed.whole,
            mul_comm pool.attr.stride (nr_cpus pool.attr),
          )),
      node_quiet robust a b la ha,
    )

    check_passes : (m : Mem) → percpu_check_poison_item M pool' range' off (freed_mem m) ≡ done tt
    unfolding percpu_check_poison_item
    check_passes m = elim (Bool-cases pool.attr.robust_set) [
      | inl robust ↦
          let p : IsPoisoned M pool range' off (poisoned_mem m) =
            subst (IsPoisoned M pool range' off) (sym (if_true _ _ _ (poisoned robust)))
              (percpu_poison_item-IsPoisoned placed' poison_word m) in
          (percpu_check_poison_item_iff M pool' range' off (freed_mem m) robust).1 (
            IsPoisoned-Changes M pool' range' off node 8
              (store_word-Changes M (poisoned_mem m) node pool.free_list_head)
              (node-cpu-Apart robust) (node-init-Apart robust)
              (record { cpus = p.cpus; init_values = p.init_values }))
      | inr plain ↦ if_false _ _ _ plain
    ]

    head_read : (m : Mem) → load_word M (freed_mem m) node ≡ pool.free_list_head
    head_read m = load-store_word M (poisoned_mem m) node pool.free_list_head head_word node_word

    module _ (K : RangeCalls M) (again : Option (List ℕ)) (m : Mem)
        (set : set_alloc_slot pool range' off ≡ done (record range' { alloc_bitmap = again })) where
      -- What malloc then leaves.
      abbrev result : Allocation M
      result = record {
        addr = some (range.base + off);
        errno = none;
        pool = record pool' {
          range_list =
              put_range (put_range pool.range_list range') (record range' { alloc_bitmap = again });
          free_list_head = pool.free_list_head;
        };
        mem = freed_mem m;
      }

      -- The test of the slot reads neither the list nor the head.
      set_anywhere :
          (rs : List MempoolRange) (head : ℕ)
          → set_alloc_slot (record pool { range_list = rs; free_list_head = head }) range' off
            ≡ done (record range' { alloc_bitmap = again })
      unfolding set_alloc_slot
      set_anywhere rs head = set

      from_list :
          malloc_free_list M K (init_args false none 0) pool' node (freed_mem m) ≡ done result
      unfolding malloc_free_list end init_item init_bytes
      from_list =
          let item : free_list_to_percpu_ptr pool.attr node ≡ range.base + off =
            free_list_to_percpu_ptr-percpu_to_free_list_ptr pool.attr (range.base + off) in_space in
          let offset : range.base + off - range.base ≡ off = omega arith in
          rw
            (
              item,
              located.0,
              offset,
              find_range-put_range pool.range_list range.base range range' refl listed,
              check_passes m,
              head_read m,
              set_anywhere (put_range pool.range_list range') pool.free_list_head,
            )
            refl

      malloc_runs : mempool_percpu_malloc M K pool' (freed_mem m) ≡ done result
      unfolding mempool_percpu_malloc internal_percpu_malloc
      malloc_runs =
          let no_init : ltb pool.item_len 0 ≡ false = ground arith in
          let listed : (node == 0) ≡ false = ground (arith, node_pos) in
          rw (no_init, listed) from_list

  -- Freeing an allocated item of eight bytes at least, of any pool, robust or not and with init values
  -- or without, succeeds, and malloc right after it succeeds too: it returns the same item, passes the
  -- poison check of a robust pool, puts back the free list's head, and changes no memory; where, as
  -- `IsLive` says, the item lies as the pool and the range were created, and no byte of its node
  -- follows another byte of it, nor, in a robust pool, any byte the node.
  pub mempool_percpu_malloc-mempool_percpu_free :
      (K : RangeCalls M) (m : Mem)
      → (pool' : Mempool) × (m' : Mem) × (mempool_percpu_free M
            (range.base + off)
            pool.attr.stride
            pool
            m
          ≡ done (pool', m'))
        × (a : Allocation M) × (mempool_percpu_malloc M K pool' m' ≡ done a)
        × (a.addr ≡ some (range.base + off))
        × (a.pool.free_list_head ≡ pool.free_list_head)
        × (a.mem ≡ m')
  mempool_percpu_malloc-mempool_percpu_free K m =
      let (freed, again, cleared, set) = free-alloc pool range off allocated in
      (
        pool' freed,
        freed_mem freed m,
        free_runs freed m cleared,
        result freed K again m set,
        malloc_runs freed K again m set,
        refl,
        refl,
        refl,
      )
