-- ===== src/Mempool/Create/Created.antt =====
-- `rseq_mempool_create` against `rseq_mempool_destroy`.
use librseq.Base.{
  if_true, ℕ, ◌^◌, ◌<◌, ◌≡◌, ◌⊎◌, refl, sym, subst, inl, inr, Bool, true, false, not, ◌&&◌,
  Bool-cases, Option, none, some, [], ◌∷◌,
}
use librseq.Mempool.Types.{MempoolRange, Mempool, enomem, Outcome, done, Attr}
use librseq.Mempool.Memory.{Memory}
use librseq.Mempool.Range.{RangeCalls, range_create, get_page_len}
use librseq.Mempool.Destroy.{mempool_destroy}
use librseq.Mempool.Create.{Config, configure}
use librseq.Mempool.Create.Pool.{
  CreateCalls, Created, null_pool, new_pool, create_error, set_name, add_range, create_pool,
  mempool_create,
}
use librseq.Mempool.Create.Fresh.{IsFresh, mempool_destroy-AreFresh}
use librseq.Mempool.Create.NewRange.{Counts, range_create-Counts}

module _ (M : Memory) (K : RangeCalls M) (C : CreateCalls) (c : Config) (named : Bool) where
  open M use {Mem}

  -- The pool of a configuration with its first range.
  abbrev pub first_pool : MempoolRange → Mempool
  first_pool range = record (new_pool c) { range_list = range ∷ []; nr_ranges = 1 }

  -- What `rseq_mempool_create` leaves after the creation of the range: `NULL` with ENOMEM, if there
  -- is no range or no memory for the name, and else the pool with its one range, of which no item
  -- was allocated, and which can be destroyed, whatever is in memory then.
  pub data Creates (m : Mem) : Option MempoolRange → Outcome (Created M) → Type 0 where
    refused :
        {o : Option MempoolRange}
        → (o ≡ none) ⊎ ((named && not C.strdup) ≡ true)
        → Creates m o (done (null_pool M K C (some enomem) m))
    made :
        {range : MempoolRange}
        → (named && not C.strdup) ≡ false
        → IsFresh range
        → ((m' : Mem) → mempool_destroy M K (first_pool range) m' ≡ done none)
        → Creates m
            (some range)
            (done (record { pool = some (first_pool range); errno = none; mem = m }))

  module _ (unmaps : (addr len : ℕ) → K.maps.munmap addr len ≡ true)
      (stride_lt : c.attr.stride < 2 ^ 64) where
    destroyed :
        (range : MempoolRange)
        → IsFresh range
        → (m : Mem) → mempool_destroy M K (first_pool range) m ≡ done none
    unfolding new_pool
    destroyed range h m =
        mempool_destroy-AreFresh M K (first_pool range) m unmaps stride_lt refl (h, tt)

    with_name :
        (range : MempoolRange)
        → IsFresh range
        → (m : Mem) → Creates m (some range) (set_name M K C named (first_pool range) m)
    unfolding set_name create_error new_pool
    with_name range fresh m = elim (Bool-cases (named && not C.strdup)) [
      | inl lost ↦ rw (lost, destroyed range fresh m) (refused (inr lost))
      | inr kept ↦ rw kept (made kept fresh (destroyed range fresh))
    ]

    added :
        (r : Option MempoolRange × Mempool × Mem)
        → Counts M K (new_pool c) (done r)
        → Creates r.2 r.0 (add_range M K C named r)
    unfolding add_range create_error new_pool
    added (none, pool, m) h =
        let gone : mempool_destroy M K (new_pool c) m ≡ done none =
          mempool_destroy-AreFresh M K (new_pool c) m unmaps stride_lt refl tt in
        subst (λ p. Creates m none (create_error M K C p m)) (sym h) (rw gone (refused (inl refl)))
    added (some range, pool, m) (fresh, e) =
        subst
          (λ p.
            Creates m (some range)
              (set_name M K C named (record p { range_list = range ∷ p.range_list }) m))
          (sym e) (with_name range fresh m)

    -- Where memory for the pool is there, every `munmap` succeeds, the stride is a word, the
    -- arguments are valid, and `rseq_mempool_range_create` returns, `rseq_mempool_create` returns too,
    -- as `Creates` says: without a range, or without memory for the name, `NULL` with ENOMEM, and
    -- else a pool of that one range, unused, which `rseq_mempool_destroy` frees, whatever is in
    -- memory.
    pub mempool_create-Creates :
        (item_len : ℕ) (attr : Option Attr) (m : Mem) {o : Option MempoolRange} {pool : Mempool}
        {m' : Mem}
        → C.calloc ≡ true
        → configure (get_page_len K.sysconf) C.detected item_len attr ≡ done (some c)
        → range_create M K (new_pool c) m ≡ done (o, pool, m')
        → Creates m' o (mempool_create M K C named item_len attr m)
    unfolding mempool_create create_pool
    mempool_create-Creates item_len attr m {o = o} {pool = pool} {m' = m'} memory valid returned =
        let run : mempool_create M K C named item_len attr m ≡ add_range M K C named (o, pool, m') =
          rw (valid, returned) (if_true _ _ C.calloc memory) in
        subst (Creates m' o) (sym run) (
          added (o, pool, m')
            (subst (Counts M K (new_pool c)) returned (range_create-Counts M K (new_pool c) m)))
