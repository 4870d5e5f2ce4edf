-- ===== src/Mempool/Create/NewRange.antt =====
-- `rseq_mempool_range_create` makes a range that was never used.
use librseq.Base.{
  not, ◌==◌, ◌&&◌, leb, ℕ, ◌+◌, ◌/◌, ◌%◌, ◌≡◌, refl, Bool, true, false, Option, none, some,
  replicate, subst, if◌then◌else◌,
}
use librseq.Bits.{bit-zero, u64}
use librseq.Mempool.Types.{nr_cpus, MempoolRange, Mempool, Outcome, done, aborted, undefined, ◌>>=◌}
use librseq.Mempool.Addr.{is_cow_init}
use librseq.Mempool.Memory.{Memory}
use librseq.Mempool.Bitmap.{bitmap_count, create_alloc_bitmap}
use librseq.Mempool.Bitmap.Laws.{slot_of, get_or-replicate}
use librseq.Mempool.Mmap.{aligned_mmap_anonymous, MapResult, mapped, map_failed, invalid}
use librseq.Mempool.Range.{
  get_page_len, range_len, header_len, area, range_create, create_in, new_range, RangeCalls,
  range_create, create_in, create_stages, create_bitmap, create_init, init_range, map_init,
  error_alloc, new_range, count_range, range_destroy,
}
use librseq.Mempool.Destroy.Leaks.{IsEmpty}
use librseq.Mempool.Create.Fresh.{IsFresh}

replicate-IsEmpty : (n : ℕ) → IsEmpty (replicate n 0)
unfolding slot_of
replicate-IsEmpty n i = rw (get_or-replicate n (i / 64)) (bit-zero (i % 64))

module _ (M : Memory) (K : RangeCalls M) where
  open M use {Mem}

  -- A range that comes out is fresh.
  abbrev MakesFresh : Outcome (Option MempoolRange × Mem) → Type 0
  MakesFresh (done (none, m)) = Unit
  MakesFresh (done (some range, m)) = IsFresh range
  MakesFresh aborted = Unit
  MakesFresh undefined = Unit

  after_destroy :
      (x : Outcome (Bool × MempoolRange)) (m : Mem) → MakesFresh (x >>= λ _. done (none, m))
  after_destroy (done _) m = tt
  after_destroy aborted m = tt
  after_destroy undefined m = tt

  init_step :
      (pool : Mempool) (range : MempoolRange) (m : Mem)
      → IsFresh range
      → (init_set success : Bool) (m' : Mem)
      → MakesFresh (
          if init_set
          then (if success then done (some range, m') else error_alloc M K range m')
          else done (some range, m))
  unfolding error_alloc
  init_step pool range m h true true m' = h
  init_step pool range m h true false m' = after_destroy (range_destroy M K range true) m'
  init_step pool range m h false success m' = h

  create_init-MakesFresh :
      (pool : Mempool) (range : MempoolRange) (m : Mem)
      → IsFresh range
      → MakesFresh (create_init M K pool range m)
  unfolding create_init
  create_init-MakesFresh pool range m h =
      let (success, m') = init_range M K pool.attr.type pool range m in
      init_step pool range m h pool.attr.init_set success m'

  with_bitmap :
      (pool : Mempool) (range : MempoolRange) (m : Mem)
      → IsFresh range
      → (robust calloc : Bool)
      → MakesFresh (
          if robust
          then (elim (create_alloc_bitmap calloc pool range) [
            | none ↦ error_alloc M K range m
            | some range' ↦ create_init M K pool range' m
          ])
          else create_init M K pool range m)
  unfolding error_alloc create_alloc_bitmap
  with_bitmap pool range m h true true = create_init-MakesFresh pool _ m (record {
    unused = h.unused;
    returned = λ b e.
        subst IsEmpty (let same : replicate (bitmap_count pool) 0 ≡ b = cc in same)
          (replicate-IsEmpty (bitmap_count pool));
  })
  with_bitmap pool range m h true false = after_destroy (range_destroy M K range true) m
  with_bitmap pool range m h false calloc = create_init-MakesFresh pool range m h

  create_bitmap-MakesFresh :
      (pool : Mempool) (range : MempoolRange) (m : Mem)
      → IsFresh range
      → MakesFresh (create_bitmap M K pool range m)
  unfolding create_bitmap
  create_bitmap-MakesFresh pool range m h = with_bitmap pool range m h pool.attr.robust_set K.calloc

  with_init :
      (pool : Mempool) (range range' : MempoolRange) (m : Mem)
      → IsFresh range
      → IsFresh range'
      → (cow success : Bool) (m' : Mem)
      → MakesFresh (
          if cow
          then (if success then create_bitmap M K pool range' m' else error_alloc M K range' m')
          else create_bitmap M K pool range m)
  unfolding error_alloc
  with_init pool range range' m h h' true true m' = create_bitmap-MakesFresh pool range' m' h'
  with_init pool range range' m h h' true false m' =
      after_destroy (range_destroy M K range' true) m'
  with_init pool range range' m h h' false success m' = create_bitmap-MakesFresh pool range m h

  create_stages-MakesFresh :
      (pool : Mempool) (range : MempoolRange) (m : Mem)
      → IsFresh range
      → MakesFresh (create_stages M K pool range m)
  unfolding create_stages
  create_stages-MakesFresh pool range m h =
      let range' = record range {
        init = some (area M K range.base pool.attr.stride (nr_cpus pool.attr));
      } in
      let (success, m') = map_init M K pool range' m in
      with_init pool range range' m h (record { unused = h.unused; returned = h.returned })
        (is_cow_init pool.attr.populate_policy) success m'

  -- The new range is fresh, and the pool counts it; without a range the pool stays as it is.
  abbrev pub Counts : Mempool → Outcome (Option MempoolRange × Mempool × Mem) → Type 0
  Counts pool (done (none, pool', m)) = pool' ≡ pool
  Counts pool (done (some range, pool', m)) =
      IsFresh range × (pool' ≡ record pool { nr_ranges = pool.nr_ranges + 1 })
  Counts pool aborted = Unit
  Counts pool undefined = Unit

  counted :
      (pool : Mempool) (x : Outcome (Option MempoolRange × Mem))
      → MakesFresh x
      → Counts pool (x >>= λ created. done (count_range M K pool created))
  unfolding count_range
  counted pool (done (none, m)) h = refl
  counted pool (done (some range, m)) h = (h, refl)
  counted pool aborted h = tt
  counted pool undefined h = tt

  from_mapping :
      (pool : Mempool) (m : Mem) (len : ℕ) (x : Outcome MapResult)
      → Counts pool (x >>= create_in M K pool m len)
  unfolding create_in
  from_mapping pool m len (done invalid) = refl
  from_mapping pool m len (done map_failed) = refl
  from_mapping pool m len (done (mapped mapping)) = counted pool _ (
      create_stages-MakesFresh pool (new_range M K mapping len) _
        (record { unused = refl; returned = λ b e. cc }))
  from_mapping pool m len aborted = tt
  from_mapping pool m len undefined = tt

  limited :
      (pool : Mempool) (m : Mem) (x : Outcome (Option MempoolRange × Mempool × Mem)) (stop : Bool)
      → Counts pool x
      → Counts pool (if stop then done (none, pool, m) else x)
  limited pool m x true h = refl
  limited pool m x false h = h

  -- `rseq_mempool_range_create` makes a fresh range and counts it, or leaves the pool as it is.
  pub range_create-Counts : (pool : Mempool) (m : Mem) → Counts pool (range_create M K pool m)
  unfolding range_create
  range_create-Counts pool m =
      let mapping =
        aligned_mmap_anonymous K.maps (get_page_len K.sysconf) (range_len M K pool.attr)
          pool.attr.stride (header_len M K) in
      let len = u64 (header_len M K + range_len M K pool.attr) in
      limited pool m (mapping >>= create_in M K pool m len)
        (not (pool.attr.max_nr_ranges == 0) && leb pool.attr.max_nr_ranges pool.nr_ranges)
        (from_mapping pool m len mapping)
