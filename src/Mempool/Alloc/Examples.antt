-- ===== src/Mempool/Alloc/Examples.antt =====
-- Malloc and free in a pool of the default attributes: not robust, with init values, over a memory
-- whose CPU areas show the init values until they are written.
use librseq.Base.{
  ltb, leb, ◌&&◌, sym, ℕ, ◌+◌, ◌-◌, ◌*◌, ◌%◌, ◌≤◌, ◌≡◌, refl, true, false, arith, none, some, [],
  ◌∷◌,
}
use librseq.Base.Int.{pos}
use librseq.Mempool.Types.{percpu, cow_init, Attr, MempoolRange, Mempool, done, mempool_stride}
use librseq.Mempool.Addr.{percpu_to_free_list_ptr}
use librseq.Mempool.Memory.{Memory}
use librseq.Mempool.Memory.CowMap.{Cow, copy_on_write}
use librseq.Mempool.Range.{RangeCalls}
use librseq.Mempool.Alloc.{Allocation, find_range, mempool_percpu_malloc, mempool_percpu_free}
use librseq.Mempool.Alloc.RoundTrip.{IsLive, mempool_percpu_malloc-mempool_percpu_free}

abbrev default_attr : Attr
default_attr = record {
  init_set = false;
  robust_set = false;
  type = percpu;
  stride = mempool_stride;
  max_nr_cpus = pos 2;
  max_nr_ranges = 1;
  poison_set = false;
  poison = 0;
  populate_policy = cow_init;
}

abbrev default_range : MempoolRange
default_range = record {
  header = 0x10_0000 - 8192;
  base = 0x10_0000;
  init = some (0x10_0000 + mempool_stride * 2);
  next_unused = 32;
  mmap_addr = 0x10_0000 - 8192;
  mmap_len = 8192 + 3 * mempool_stride;
  alloc_bitmap = none;
}

abbrev default_pool : Mempool
default_pool = record {
  range_list = default_range ∷ [];
  nr_ranges = 1;
  item_len = 16;
  item_order = 4;
  free_list_head = 0;
  attr = default_attr;
}

abbrev shared : Memory
shared = copy_on_write 0x10_0000 mempool_stride 2

-- The item of CPU 0 was written, that of CPU 1 was not.
abbrev half_written : Cow
half_written = record { written = λ a. ltb a 0x11_0000; bytes = λ a. a % 251 }

-- What the system answers; no call of the example asks it.
abbrev no_calls : RangeCalls shared
no_calls = record {
  sysconf = pos 4096;
  maps = record { mmap = λ len. none; munmap = λ addr len. true };
  memfd = false;
  mmap_fixed = λ addr len. false;
  dontfork = true;
  wipeonfork = true;
  calloc = true;
  mmap_memory = λ m mapping. m;
  mmap_fixed_memory = λ m addr len. m;
  init_func = λ m addr len cpu. (true, m);
}

-- No byte behind the areas follows another one.
below :
    (b : ℕ)
    → (leb 0x10_0000 b && ltb b (0x10_0000 + mempool_stride * 2)) ≡ true
    → 0x10_0000 + mempool_stride * 2 ≤ b
    → ⊥
below b inside behind = ground arith

default_pool-IsLive : IsLive shared default_pool default_range 16 16
unfolding find_range percpu_to_free_list_ptr
default_pool-IsLive = record {
  small = omega arith;
  stride = refl;
  aligned = refl;
  not_null = omega arith;
  placed = record {
    fits = omega arith;
    whole = refl;
    private = λ a b lo hi h. omega (arith, h.1);
    init_at = λ init e.
        let at : 0x10_0000 + mempool_stride * 2 ≡ init = cc in
        (sym at, λ a b la ha lb hb h. below b h.0 (omega arith));
  };
  node_fits = omega arith;
  node_word = λ a b la ha lb hb h. below b h.0 (omega (arith, lb));
  node_quiet = λ robust. cc;
  in_space = omega arith;
  init_policy = λ h. refl;
  poison_word = omega arith;
  poisoned = λ h. cc;
  listed = refl;
  allocated = λ b e. cc;
  head_word = omega arith;
}

mempool_percpu_malloc-mempool_percpu_free_example :
    (pool' : Mempool) × (m' : Cow) × (mempool_percpu_free shared
        (0x10_0000 + 16)
        mempool_stride
        default_pool
        half_written
      ≡ done (pool', m'))
    × (a : Allocation shared) × (mempool_percpu_malloc shared no_calls pool' m' ≡ done a)
    × (a.addr ≡ some (0x10_0000 + 16))
    × (a.pool.free_list_head ≡ 0)
    × (a.mem ≡ m')
mempool_percpu_malloc-mempool_percpu_free_example =
    mempool_percpu_malloc-mempool_percpu_free default_pool-IsLive no_calls half_written
