-- ===== src/Mempool/Range.antt =====
-- `rseq_mempool_range_create` and `rseq_mempool_range_destroy` of src/rseq-mempool.c.
use librseq.Mempool.Bitmap.{create_alloc_bitmap, destroy_alloc_bitmap}
use librseq.Mempool.Mmap.{MapResult, mapped, map_failed, invalid, aligned_mmap_anonymous}
use librseq.Base.{
  true, false, leb, ◌==◌, not, ℕ, zero, suc, ◌+◌, ◌*◌, Bool, ◌&&◌, Option, none, some,
  if◌then◌else◌,
}
use librseq.Bits.{u64}
use librseq.Base.Int.{ℤ, pos, negsuc, pos_part, is_neg}
use librseq.Mempool.Types.{
  ◌>>=◌, pool_header_nr_pages, done, Outcome, MempoolType, percpu, global, Attr, nr_cpus,
  MempoolRange, Mempool,
}
use librseq.Mempool.Addr.{is_cow_init}
use librseq.Mempool.Memory.{Memory}
use librseq.Mempool.Mmap.{mapped, aligned_mmap_anonymous, MapResult, MapCalls, Mapping}

-- `rseq_get_page_len` of src/rseq-utils.h, from the value of `sysconf`.
unfoldable pub get_page_len : ℤ → ℕ
get_page_len page_len = if is_neg page_len then 4096 else pos_part page_len

-- What the kernel and the C library answer while a range is created: `sysconf`, the anonymous
-- mapping, the file of init values, its mappings at fixed addresses, the two `madvise`, `calloc`, and
-- the callback of the pool's user, which sees the memory and may write to it.
pub record RangeCalls (M : Memory) : Type 0 where
  pub sysconf : ℤ
  pub maps : MapCalls
  pub memfd : Bool
  pub mmap_fixed : (addr len : ℕ) → Bool
  pub dontfork : Bool
  pub wipeonfork : Bool
  pub calloc : Bool
  pub mmap_memory : M.Mem → Mapping → M.Mem
  pub mmap_fixed_memory : M.Mem → (addr len : ℕ) → M.Mem
  pub init_func : M.Mem → (addr len : ℕ) → (cpu : ℤ) → Bool × M.Mem

module _ (M : Memory) (K : RangeCalls M) where
  open M use {Mem, store}

  -- `range_len`, without the header: a `size_t`, which wraps.
  unfoldable pub range_len : Attr → ℕ
  range_len attr =
      let areas = u64 (attr.stride * nr_cpus attr) in
      let with_init =
        if is_cow_init attr.populate_policy then u64 (areas + attr.stride) else areas in
      if attr.robust_set then u64 (with_init + attr.stride) else with_init

  -- `header_len`.
  unfoldable pub header_len : ℕ
  header_len = u64 (pool_header_nr_pages * get_page_len K.sysconf)

  -- `base + stride * cpu`.
  abbrev pub area : (base stride cpu : ℕ) → ℕ
  area base stride cpu = u64 (base + u64 (stride * cpu))

  -- The private mappings of the init values, a CPU after the other; `false` is `goto error_alloc`.
  unfoldable pub map_cpus : ℕ → ℕ → ℕ → ℕ → Mem → Bool × Mem
  map_cpus zero cpu base stride m = (true, m)
  map_cpus (suc n) cpu base stride m =
      let rest =
        map_cpus n (cpu + 1) base stride (K.mmap_fixed_memory m (area base stride cpu) stride) in
      if K.mmap_fixed (area base stride cpu) stride then rest else (false, m)

  -- The block under `populate_policy == RSEQ_MEMPOOL_POPULATE_COW_INIT`. The marker 0x1 goes to the
  -- first byte of the header. The assertion that the pool is per-CPU is left out:
  -- `rseq_mempool_create` gives a global pool the other policy.
  unfoldable pub map_init : Mempool → MempoolRange → Mem → Bool × Mem
  map_init pool range m =
      let init = area range.base pool.attr.stride (nr_cpus pool.attr) in
      if K.memfd && K.mmap_fixed init pool.attr.stride
      then (let (success, m') =
            map_cpus (nr_cpus pool.attr) 0 range.base pool.attr.stride
              (K.mmap_fixed_memory m init pool.attr.stride) in
          if success && K.dontfork then (K.wipeonfork, store m' range.header 1) else (false, m'))
      else (false, m)

  -- `attr.init_func` for each CPU.
  unfoldable pub init_cpus : ℕ → ℕ → ℕ → ℕ → Mem → Bool × Mem
  init_cpus zero cpu base stride m = (true, m)
  init_cpus (suc n) cpu base stride m =
      let (success, m') = K.init_func m (area base stride cpu) stride (pos cpu) in
      let rest = init_cpus n (cpu + 1) base stride m' in if success then rest else (false, m')

  -- The switch on the pool's type.
  unfoldable pub init_range : MempoolType → Mempool → MempoolRange → Mem → Bool × Mem
  init_range global pool range m = K.init_func m range.base pool.attr.stride (negsuc 0)
  init_range percpu pool range m = init_cpus (nr_cpus pool.attr) 0 range.base pool.attr.stride m

  -- `rseq_mempool_range_destroy`: whether `munmap` succeeds, and the range without its bitmap.
  unfoldable pub range_destroy :
      MempoolRange → (mapping_accessible : Bool) → Outcome (Bool × MempoolRange)
  range_destroy range mapping_accessible = do
    range' ← destroy_alloc_bitmap range
    done (
      if mapping_accessible
          then K.maps.munmap range'.mmap_addr range'.mmap_len
          else K.maps.munmap range'.header header_len,
      range',
    )

  -- The range as the function first fills it in; a new mapping holds zeros.
  abbrev pub new_range : Mapping → ℕ → MempoolRange
  new_range mapping len = record {
    header = mapping.pre_header;
    base = mapping.ptr;
    init = none;
    next_unused = 0;
    mmap_addr = mapping.pre_header;
    mmap_len = len;
    alloc_bitmap = none;
  }

  -- `error_alloc`: the range is destroyed, and the result is `NULL`.
  unfoldable pub error_alloc : MempoolRange → Mem → Outcome (Option MempoolRange × Mem)
  error_alloc range m = do destroyed ← range_destroy range true; done (none, m)

  -- The stages after the mapping, each of them followed by the next: the callback,
  unfoldable pub create_init : Mempool → MempoolRange → Mem → Outcome (Option MempoolRange × Mem)
  create_init pool range m =
      if pool.attr.init_set
      then (let (success, m') = init_range pool.attr.type pool range m in
          if success then done (some range, m') else error_alloc range m')
      else done (some range, m)

  -- the bitmap,
  unfoldable pub create_bitmap : Mempool → MempoolRange → Mem → Outcome (Option MempoolRange × Mem)
  create_bitmap pool range m =
      if pool.attr.robust_set
      then (elim (create_alloc_bitmap K.calloc pool range) [
        | none ↦ error_alloc range m
        | some range' ↦ create_init pool range' m
      ])
      else create_init pool range m

  -- and the init values.
  unfoldable pub create_stages : Mempool → MempoolRange → Mem → Outcome (Option MempoolRange × Mem)
  create_stages pool range m =
      if is_cow_init pool.attr.populate_policy
      then (let range' = record range {
        init = some (area range.base pool.attr.stride (nr_cpus pool.attr));
      } in
          let (success, m') = map_init pool range' m in
          if success then create_bitmap pool range' m' else error_alloc range' m')
      else create_bitmap pool range m

  -- `pool->nr_ranges++`, on success.
  unfoldable pub count_range :
      Mempool → Option MempoolRange × Mem → Option MempoolRange × Mempool × Mem
  count_range pool (none, m) = (none, pool, m)
  count_range pool (some range, m) = (some range, record pool { nr_ranges = pool.nr_ranges + 1 }, m)

  -- The mapping's result: from a `NULL`, or from the range.
  unfoldable pub create_in :
      Mempool → Mem → ℕ → MapResult → Outcome (Option MempoolRange × Mempool × Mem)
  create_in pool m len invalid = done (none, pool, m)
  create_in pool m len map_failed = done (none, pool, m)
  create_in pool m len (mapped mapping) = do
    created ← create_stages pool (new_range mapping len) (K.mmap_memory m mapping)
    done (count_range pool created)

  -- `rseq_mempool_range_create`: the new range, or `none` for `NULL`, and the pool.
  unfoldable pub range_create : Mempool → Mem → Outcome (Option MempoolRange × Mempool × Mem)
  range_create pool m =
      if not (pool.attr.max_nr_ranges == 0) && leb pool.attr.max_nr_ranges pool.nr_ranges
      then done (none, pool, m)
      else aligned_mmap_anonymous K.maps (get_page_len K.sysconf) (range_len pool.attr)
          pool.attr.stride header_len
        >>= create_in pool m (u64 (header_len + range_len pool.attr))
