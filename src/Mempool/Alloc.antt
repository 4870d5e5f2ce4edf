-- ===== src/Mempool/Alloc.antt =====
-- `__rseq_percpu_malloc`, its three callers, and `librseq_mempool_percpu_free` of
-- src/rseq-mempool.c. The pool's mutex makes each of them one step, save for the writes to the new
-- item after the unlock, which no other call touches.
pub mod Slots
pub mod Fresh
pub mod Refused
pub mod RoundTrip
pub mod Answers
mod Examples
use librseq.Base.{
  Bool, take, true, false, ℕ, ◌+◌, ◌-◌, Option, none, some, List, [], ◌∷◌, ◌==◌, ltb, if◌then◌else◌,
  length,
}
use librseq.Mempool.Types.{
  MempoolRange, Mempool, Errno, einval, enomem, Outcome, done, undefined, ◌>>=◌, ◌>>◌,
}
use librseq.Mempool.Addr.{
  free_list_to_percpu_ptr, percpu_to_free_list_ptr, range_base_of, offset_of,
}
use librseq.Mempool.Memory.{Memory, load_word, store_word}
use librseq.Mempool.Items.{
  percpu_zero_item, percpu_init_item, percpu_poison_item, percpu_check_poison_item,
}
use librseq.Mempool.Bitmap.{set_alloc_slot, clear_alloc_slot}
use librseq.Mempool.Range.{RangeCalls, range_create}

-- The range whose header stands before `base`; behaviour is undefined where there is none.
unfoldable pub find_range : List MempoolRange → ℕ → Outcome MempoolRange
find_range [] base = undefined
find_range (r ∷ rs) base = if r.base == base then done r else find_range rs base

-- A write to the fields of the range at the same base.
unfoldable pub put_range : List MempoolRange → MempoolRange → List MempoolRange
put_range [] r = []
put_range (s ∷ rs) r = if s.base == r.base then r ∷ rs else s ∷ put_range rs r

-- What a call of malloc leaves: the encoded pointer or `NULL`, errno if it is set, pool and memory.
pub record Allocation (M : Memory) : Type 0 where
  pub addr : Option ℕ
  pub errno : Option Errno
  pub pool : Mempool
  pub mem : M.Mem

-- The arguments `zeroed`, `init_ptr` and `init_len`; a pointer stands for the caller's bytes there.
pub record Init : Type 0 where
  pub zeroed : Bool
  pub init_ptr : Option (List ℕ)
  pub init_len : ℕ

abbrev pub init_args : Bool → Option (List ℕ) → ℕ → Init
init_args z p n = record { zeroed = z; init_ptr = p; init_len = n }

module _ (M : Memory) (K : RangeCalls M) where
  open M use {Mem}

  abbrev pub null_with : Errno → Mempool → Mem → Allocation M
  null_with e pool m = record { addr = none; errno = some e; pool = pool; mem = m }

  -- `if (zeroed) … else if (init_ptr) …`.
  unfoldable pub init_bytes : Option (List ℕ) → ℕ → Mempool → MempoolRange → ℕ → Mem → Mem
  init_bytes none len pool range item_offset m = m
  init_bytes (some bytes) len pool range item_offset m =
      percpu_init_item M pool range item_offset (take len bytes) m

  unfoldable pub init_item : Init → Mempool → MempoolRange → ℕ → Mem → Mem
  init_item init pool range item_offset m =
      if init.zeroed
      then percpu_zero_item M pool range item_offset m
      else init_bytes init.init_ptr init.init_len pool range item_offset m

  -- From the label `end` on, with an item: its slot is marked and the item initialised.
  unfoldable pub end : Init → Mempool → MempoolRange → ℕ → ℕ → Mem → Outcome (Allocation M)
  end init pool range item_offset addr m = do
    range' ← set_alloc_slot pool range item_offset
    let pool' = record pool { range_list = put_range pool.range_list range' }
    done (record {
      addr = some addr;
      errno = none;
      pool = pool';
      mem = init_item init pool' range' item_offset m;
    })

  -- An item from the free list.
  unfoldable pub malloc_free_list : Init → Mempool → ℕ → Mem → Outcome (Allocation M)
  malloc_free_list init pool node m =
      let ptr = free_list_to_percpu_ptr pool.attr node in
      let range_base = range_base_of ptr pool.attr.stride in
      let item_offset = ptr - range_base in
      do
        range ← find_range pool.range_list range_base
        percpu_check_poison_item M pool range item_offset m
        end init (record pool { free_list_head = load_word M m node }) range item_offset ptr m

  -- The label `room_left`: the next item of a range that was never allocated.
  unfoldable pub room_left : Init → Mempool → MempoolRange → Mem → Outcome (Allocation M)
  room_left init pool range m =
      let item_offset = range.next_unused in
      let range' = record range { next_unused = range.next_unused + pool.item_len } in
      end init (record pool { range_list = put_range pool.range_list range' }) range' item_offset
        (range.base + item_offset) m

  -- The label `create_range`.
  unfoldable pub malloc_in : Init → Option MempoolRange × Mempool × Mem → Outcome (Allocation M)
  malloc_in init (none, pool, m) = done (null_with enomem pool m)
  malloc_in init (some range, pool, m) =
      room_left init (record pool { range_list = range ∷ pool.range_list }) range m

  unfoldable pub create_range : Init → Mempool → Mem → Outcome (Allocation M)
  create_range init pool m = range_create M K pool m >>= malloc_in init

  -- An item that was never allocated, from the first range or from a new one.
  unfoldable pub malloc_unused : List MempoolRange → Init → Mempool → Mem → Outcome (Allocation M)
  malloc_unused [] init pool m = create_range init pool m
  malloc_unused (range ∷ ranges) init pool m =
      if ltb pool.attr.stride (range.next_unused + pool.item_len)
      then create_range init pool m
      else room_left init pool range m

  -- `__rseq_percpu_malloc`.
  unfoldable pub internal_percpu_malloc : Init → Mempool → Mem → Outcome (Allocation M)
  internal_percpu_malloc init pool m =
      if ltb pool.item_len init.init_len
      then done (null_with einval pool m)
      else (if pool.free_list_head == 0
          then malloc_unused pool.range_list init pool m
          else malloc_free_list init pool pool.free_list_head m)

  -- `rseq_mempool_percpu_malloc`, `rseq_mempool_percpu_zmalloc`, `rseq_mempool_percpu_malloc_init`.
  unfoldable pub mempool_percpu_malloc : Mempool → Mem → Outcome (Allocation M)
  mempool_percpu_malloc = internal_percpu_malloc (init_args false none 0)

  unfoldable pub mempool_percpu_zmalloc : Mempool → Mem → Outcome (Allocation M)
  mempool_percpu_zmalloc = internal_percpu_malloc (init_args true none 0)

  unfoldable pub mempool_percpu_malloc_init : List ℕ → Mempool → Mem → Outcome (Allocation M)
  mempool_percpu_malloc_init bytes =
      internal_percpu_malloc (init_args false (some bytes) (length bytes))

-- `librseq_mempool_percpu_free` of a pointer into a range of this pool.
unfoldable pub mempool_percpu_free :
    (M : Memory) → ℕ → (stride : ℕ) → Mempool → M.Mem → Outcome (Mempool × M.Mem)
mempool_percpu_free M ptr stride pool m =
    let item_offset = offset_of ptr stride in
    let item = percpu_to_free_list_ptr pool.attr ptr in
    do
      range ← find_range pool.range_list (range_base_of ptr stride)
      range' ← clear_alloc_slot pool range item_offset
      let m' = if pool.attr.poison_set then percpu_poison_item M pool range' item_offset m else m
      done (
        record pool { range_list = put_range pool.range_list range'; free_list_head = item },
        store_word M m' item pool.free_list_head,
      )
