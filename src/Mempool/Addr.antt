-- ===== src/Mempool/Addr.antt =====
-- Addresses in a range: the item of each CPU, the init values, the node of the free list.
pub mod Laws
use librseq.Bits.{u64, bit_not}
use librseq.Base.{bit_and}
use librseq.Base.{ℕ, ◌+◌, ◌-◌, ◌*◌, ◌%◌, ◌^◌, Bool, true, false, Option, none, some, if◌then◌else◌}
use librseq.Mempool.Types.{PopulatePolicy, cow_init, cow_zero, unknown, Attr, nr_cpus, MempoolRange}

-- `__rseq_pool_range_percpu_ptr`; `rseq_percpu_ptr` of rseq/mempool.h is the same sum on the
-- encoded pointer.
unfoldable pub range_percpu_ptr : MempoolRange → ℕ → ℕ → ℕ → ℕ
range_percpu_ptr range cpu item_offset stride = range.base + stride * cpu + item_offset

-- `__rseq_pool_range_init_ptr`.
unfoldable pub range_init_ptr : MempoolRange → ℕ → Option ℕ
range_init_ptr range item_offset = elim range.init [
  | none ↦ none
  | some init ↦ some (init + item_offset)
]

-- `rseq_percpu_ptr(ptr, cpu, stride)`.
unfoldable pub percpu_ptr : ℕ → ℕ → ℕ → ℕ
percpu_ptr ptr cpu stride = ptr + cpu * stride

abbrev pub is_cow_init : PopulatePolicy → Bool
is_cow_init cow_init = true
is_cow_init cow_zero = false
is_cow_init (unknown _) = false

-- Pointers to parts of one mapping are plain sums, since the mapping lies below `2 ^ 64`. The node
-- that is taken back to an item may be any word, so there the difference wraps.
abbrev pub ptr_sub : ℕ → ℕ → ℕ
ptr_sub p n = (p + 2 ^ 64 - n % 2 ^ 64) % 2 ^ 64

-- `__rseq_free_list_to_percpu_ptr`.
unfoldable pub free_list_to_percpu_ptr : Attr → ℕ → ℕ
free_list_to_percpu_ptr attr node =
    if attr.robust_set
    then (let p = ptr_sub node (nr_cpus attr * attr.stride) in
        if is_cow_init attr.populate_policy then ptr_sub p attr.stride else p)
    else (if is_cow_init attr.populate_policy
        then ptr_sub node (nr_cpus attr * attr.stride)
        else node)

-- `__rseq_percpu_to_free_list_ptr`.
unfoldable pub percpu_to_free_list_ptr : Attr → ℕ → ℕ
percpu_to_free_list_ptr attr p =
    if attr.robust_set
    then (let p = p + nr_cpus attr * attr.stride in
        if is_cow_init attr.populate_policy then p + attr.stride else p)
    else (if is_cow_init attr.populate_policy then p + nr_cpus attr * attr.stride else p)

-- `ptr & ~(stride - 1)` and `ptr & (stride - 1)`: the base of the range of an encoded pointer, and
-- the offset of its item.
unfoldable pub range_base_of : ℕ → ℕ → ℕ
range_base_of ptr stride = bit_and ptr (bit_not (u64 (stride + 2 ^ 64 - 1)))

unfoldable pub offset_of : ℕ → ℕ → ℕ
offset_of ptr stride = bit_and ptr (u64 (stride + 2 ^ 64 - 1))
