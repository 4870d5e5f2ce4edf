-- ===== src/Mempool/Create/Pool.antt =====
-- `rseq_mempool_create` of src/rseq-mempool.c as a whole: the pool and its first range. The name
-- has no reader but the messages, so whether one is given is all that is kept of it; when the range
-- is created it is not set yet.
use librseq.Base.{ℕ, Bool, not, ◌&&◌, Option, none, some, [], ◌∷◌, if◌then◌else◌}
use librseq.Mempool.Types.{MempoolRange, Mempool, Attr, Errno, einval, enomem, Outcome, done, ◌>>=◌}
use librseq.Mempool.Memory.{Memory}
use librseq.Mempool.Range.{RangeCalls, range_create, get_page_len}
use librseq.Mempool.Destroy.{mempool_destroy}
use librseq.Mempool.Create.{Config, configure}

-- The answers of `calloc` for the pool and of `strdup`, and the value of `rseq_get_max_nr_cpus`.
pub record CreateCalls : Type 0 where
  pub calloc : Bool
  pub strdup : Bool
  pub detected : ℕ

-- The pool or `NULL`, errno if the function sets it, and the memory.
pub record Created (M : Memory) : Type 0 where
  pub pool : Option Mempool
  pub errno : Option Errno
  pub mem : M.Mem

-- The pool before its first range; `calloc` gives zeroed bytes.
unfoldable pub new_pool : Config → Mempool
new_pool c = record {
  range_list = [];
  nr_ranges = 0;
  item_len = c.item_len;
  item_order = c.order;
  free_list_head = 0;
  attr = c.attr;
}

module _ (M : Memory) (K : RangeCalls M) (C : CreateCalls) where
  open M use {Mem}

  abbrev pub null_pool : Option Errno → Mem → Created M
  null_pool errno m = record { pool = none; errno = errno; mem = m }

  -- The label `error_alloc`.
  unfoldable pub create_error : Mempool → Mem → Outcome (Created M)
  create_error pool m = do left ← mempool_destroy M K pool m; done (null_pool (some enomem) m)

  -- The name, once the range is in the list.
  unfoldable pub set_name : (named : Bool) → Mempool → Mem → Outcome (Created M)
  set_name named pool m =
      if named && not C.strdup
      then create_error pool m
      else done (record { pool = some pool; errno = none; mem = m })

  unfoldable pub add_range :
      (named : Bool) → Option MempoolRange × Mempool × Mem → Outcome (Created M)
  add_range named (none, pool, m) = create_error pool m
  add_range named (some range, pool, m) =
      set_name named (record pool { range_list = range ∷ pool.range_list }) m

  -- From the allocation of the pool on.
  unfoldable pub create_pool : (named : Bool) → Mem → Option Config → Outcome (Created M)
  create_pool named m none = done (null_pool (some einval) m)
  create_pool named m (some c) =
      if C.calloc
      then range_create M K (new_pool c) m >>= add_range named
      else done (null_pool none m)

  -- `rseq_mempool_create`.
  unfoldable pub mempool_create :
      (named : Bool) → (item_len : ℕ) → Option Attr → Mem → Outcome (Created M)
  mempool_create named item_len attr m =
      configure (get_page_len K.sysconf) C.detected item_len attr >>= create_pool named m
