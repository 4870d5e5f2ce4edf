-- ===== src/Mempool/Set.antt =====
-- The pool sets of src/rseq-mempool.c: pools by the order of their item size. The set's mutex is held
-- over the search of a pool and over the addition of one; a call of malloc is modelled with no
-- addition between its searches.
pub mod Tries
pub mod Served
mod Examples
use librseq.Base.{
  ℕ, zero, suc, ◌+◌, ◌-◌, Bool, true, false, Option, none, some, List, ltb, leb, ◌==◌, ◌&&◌,
  if◌then◌else◌,
}
use librseq.Utils.{get_count_order_ulong}
use librseq.Mempool.Types.{
  Mempool, Errno, enomem, ebusy, einval, enosys, Outcome, done, undefined, ◌>>=◌,
  pool_set_min_entry, pool_set_nr_entries,
}
use librseq.Mempool.Memory.{Memory}
use librseq.Mempool.Range.{RangeCalls}
use librseq.Mempool.Alloc.{Allocation, Init, init_args, internal_percpu_malloc}
use librseq.Mempool.Destroy.{mempool_destroy}

-- `struct rseq_mempool_set`; `none` is a null entry.
pub record PoolSet : Type 0 where
  pub entries : ℕ → Option Mempool

-- A write to `entries[order]`.
abbrev pub put_entry : PoolSet → ℕ → Option Mempool → PoolSet
put_entry set order entry = record { entries = λ k. if k == order then entry else set.entries k }

-- `rseq_mempool_set_create`; `none` is `NULL`.
unfoldable pub set_create : (calloc : Bool) → Option PoolSet
set_create false = none
set_create true = some (record { entries = λ order. none })

-- `rseq_mempool_set_add_pool`: errno, if it fails, with the set.
unfoldable pub add_at : PoolSet → Mempool → Option Mempool → Option Errno × PoolSet
add_at set pool none = (none, put_entry set pool.item_order (some pool))
add_at set pool (some _) = (some ebusy, set)

unfoldable pub set_add_pool : PoolSet → Mempool → Option Errno × PoolSet
set_add_pool set pool = add_at set pool (set.entries pool.item_order)

-- What a call of malloc leaves.
pub record SetAllocation (M : Memory) : Type 0 where
  pub addr : Option ℕ
  pub errno : Option Errno
  pub set : PoolSet
  pub mem : M.Mem

-- `min_order` for a length.
unfoldable pub order_from : Option ℕ → ℕ
order_from none = pool_set_min_entry
order_from (some order) = if ltb pool_set_min_entry order then order else pool_set_min_entry

unfoldable pub min_order : (len : ℕ) → ℕ
min_order len = order_from (get_count_order_ulong len)

-- "First smallest present pool where @len fits", with the rounds left; its order and the pool.
unfoldable pub find_pool : ℕ → PoolSet → (order len : ℕ) → Option (ℕ × Mempool)
find_pool zero set order len = none
find_pool (suc n) set order len =
    let rest = find_pool n set (order + 1) len in
    elim (set.entries order) [
      | none ↦ rest
      | some pool ↦ if leb len pool.item_len then some (order, pool) else rest
    ]

-- `errno == ENOMEM`.
abbrev pub is_enomem : Option Errno → Bool
is_enomem none = false
is_enomem (some einval) = false
is_enomem (some enomem) = true
is_enomem (some ebusy) = false
is_enomem (some enosys) = false

-- `addr == NULL && errno == ENOMEM`.
abbrev pub out_of_memory : Option ℕ → Option Errno → Bool
out_of_memory none errno = is_enomem errno
out_of_memory (some addr) errno = false

module _ (M : Memory) (K : RangeCalls M) where
  open M use {Mem}

  -- `goto again` with a larger `min_order`, on fuel.
  unfoldable pub again : ℕ → Init → PoolSet → (order : ℕ) → Mem → Outcome (SetAllocation M)
  again zero init set order m = undefined
  again (suc n) init set order m =
      elim (find_pool (pool_set_nr_entries - order) set order init.init_len) [
        | none ↦ done (record { addr = none; errno = some enomem; set = set; mem = m })
        | some (order', pool) ↦ internal_percpu_malloc M K init pool m >>= λ a.
            let set' = put_entry set order' (some a.pool) in
            let rest = again n init set' (order' + 1) a.mem in
            if out_of_memory a.addr a.errno
            then rest
            else done (record { addr = a.addr; errno = a.errno; set = set'; mem = a.mem })
      ]

  -- `__rseq_mempool_set_malloc`. A search begins behind the pool of the one before it, so 64 are
  -- enough.
  unfoldable pub set_malloc : Init → PoolSet → Mem → Outcome (SetAllocation M)
  set_malloc init set m = again (suc pool_set_nr_entries) init set (min_order init.init_len) m

  -- `rseq_mempool_set_percpu_malloc`, `rseq_mempool_set_percpu_zmalloc`,
  -- `rseq_mempool_set_percpu_malloc_init`.
  unfoldable pub set_percpu_malloc : (len : ℕ) → PoolSet → Mem → Outcome (SetAllocation M)
  set_percpu_malloc len = set_malloc (init_args false none len)

  unfoldable pub set_percpu_zmalloc : (len : ℕ) → PoolSet → Mem → Outcome (SetAllocation M)
  set_percpu_zmalloc len = set_malloc (init_args true none len)

  unfoldable pub set_percpu_malloc_init :
      (bytes : List ℕ) → (len : ℕ) → PoolSet → Mem → Outcome (SetAllocation M)
  set_percpu_malloc_init bytes len = set_malloc (init_args true (some bytes) len)

  -- The loop of `rseq_mempool_set_destroy`, with the rounds left. `rseq_mempool_destroy` returns 0 in
  -- any case, so the entry is cleared and the loop goes on even if the pool is left.
  unfoldable pub destroy_entries : ℕ → (order : ℕ) → PoolSet → Mem → Outcome PoolSet
  destroy_entries zero order set m = done set
  destroy_entries (suc n) order set m = elim (set.entries order) [
    | none ↦ destroy_entries n (order + 1) set m
    | some pool ↦ do
      left ← mempool_destroy M K pool m
      destroy_entries n (order + 1) (put_entry set order none) m
  ]

  -- `rseq_mempool_set_destroy`.
  unfoldable pub set_destroy : PoolSet → Mem → Outcome PoolSet
  set_destroy = destroy_entries (pool_set_nr_entries - pool_set_min_entry) pool_set_min_entry
