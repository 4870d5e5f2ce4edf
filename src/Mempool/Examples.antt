-- ===== src/Mempool/Examples.antt =====
-- A small robust pool over a plain memory, and the theorems at it.
use librseq.Base.{
  ◌≤◌, sym, ℕ, ◌+◌, ◌-◌, ◌*◌, ◌^◌, ◌<◌, true, false, none, some, [], ◌∷◌, ◌≡◌, refl, arith, length,
  replicate, ◌↔◌,
}
use librseq.Base.Int.{pos}
use librseq.Mempool.Types.{
  enomem, percpu, cow_zero, Attr, MempoolRange, Mempool, done, mempool_stride,
}
use librseq.Mempool.Addr.{
  range_percpu_ptr, free_list_to_percpu_ptr, percpu_to_free_list_ptr, range_base_of, offset_of,
}
use librseq.Mempool.Addr.Laws.{free_list_to_percpu_ptr-percpu_to_free_list_ptr, range_base_offset}
use librseq.Mempool.Memory.ByteMap.{plain}
use librseq.Mempool.Memory.{ZeroAt, read}
use librseq.Mempool.Items.{
  percpu_zero_item, percpu_init_item, percpu_poison_item, percpu_check_poison_item,
}
use librseq.Mempool.Items.Placed.{IsPlaced}
use librseq.Mempool.Items.Writes.{percpu_zero_item-ZeroAt, percpu_init_item-read}
use librseq.Mempool.Items.Check.{IsPoisoned, percpu_check_poison_item_iff}
use librseq.Mempool.Items.RoundTrip.{percpu_check_poison_item-percpu_poison_item}
use librseq.Utils.{get_count_order_ulong, fls_u64, is_pow2}
use librseq.Mempool.Attr.{zero_attr}
use librseq.Mempool.Create.{
  configure, config_order, config_attr, config_typed, checked, sizes_ok, set_type, with_cpus,
  set_max_nr_cpus, set_stride, set_poison, known_policy, given_attr,
}
use librseq.Mempool.Create.Valid.{IsValid, configure-IsValid}
use librseq.Mempool.Range.{RangeCalls}
use librseq.Mempool.Alloc.{null_with, find_range}
use librseq.Mempool.Alloc.Fresh.{internal_percpu_malloc-room_left}
use librseq.Mempool.Alloc.{internal_percpu_malloc, init_args, init_item}
use librseq.Mempool.Alloc.Refused.{internal_percpu_malloc-null_with}
use librseq.Mempool.Alloc.RoundTrip.{IsLive}
use librseq.Mempool.Bitmap.{bitmap_count, set_slot, clear_slot}
use librseq.Mempool.Bitmap.Laws.{
  slot_of, Flips, set_slot-Flips, clear_slot-Flips, bitmap_count-bounds,
}

abbrev pub attr : Attr
attr = record {
  init_set = false;
  robust_set = true;
  type = percpu;
  stride = mempool_stride;
  max_nr_cpus = pos 2;
  max_nr_ranges = 1;
  poison_set = true;
  poison = 0x55;
  populate_policy = cow_zero;
}

abbrev pub range : MempoolRange
range = record {
  header = 0x10_0000 - 8192;
  base = 0x10_0000;
  init = none;
  next_unused = 32;
  mmap_addr = 0x10_0000 - 8192;
  mmap_len = 8192 + 3 * mempool_stride;
  alloc_bitmap = some (0b101 ∷ []);
}

abbrev pub pool : Mempool
pool = record {
  range_list = range ∷ [];
  nr_ranges = 1;
  item_len = 16;
  item_order = 4;
  free_list_head = 0;
  attr = attr;
}

placed : IsPlaced plain pool range 16
placed = record {
  fits = omega arith;
  whole = refl;
  private = λ a b lo hi h. h;
  init_at = λ init e. cc;
}

abbrev pub blank : ℕ → ℕ
blank _ = 7

percpu_zero_item-ZeroAt_example :
    ZeroAt plain
      (percpu_zero_item plain pool range 16 blank)
      (range_percpu_ptr range 1 16 mempool_stride)
      16
percpu_zero_item-ZeroAt_example = percpu_zero_item-ZeroAt placed blank 1 (omega arith)

percpu_init_item-read_example :
    read plain 3
      (percpu_init_item plain pool range 16 (1 ∷ 2 ∷ 3 ∷ []) blank)
      (range_percpu_ptr range 1 16 mempool_stride)
    ≡ 1 ∷ 2 ∷ 3 ∷ []
percpu_init_item-read_example =
    percpu_init_item-read placed (1 ∷ 2 ∷ 3 ∷ []) (omega arith) (omega arith) blank 1 (omega arith)

percpu_check_poison_item_iff_example :
    (percpu_check_poison_item plain pool range 16 blank ≡ done tt)
    ↔ IsPoisoned plain pool range 16 blank
percpu_check_poison_item_iff_example = percpu_check_poison_item_iff plain pool range 16 blank refl

percpu_check_poison_item-percpu_poison_item_example :
    percpu_check_poison_item plain pool range 16 (percpu_poison_item plain pool range 16 blank)
    ≡ done tt
percpu_check_poison_item-percpu_poison_item_example =
    percpu_check_poison_item-percpu_poison_item placed (omega arith) blank refl

free_list_to_percpu_ptr-percpu_to_free_list_ptr_example :
    free_list_to_percpu_ptr attr (percpu_to_free_list_ptr attr 0x10_0010) ≡ 0x10_0010
free_list_to_percpu_ptr-percpu_to_free_list_ptr_example =
    free_list_to_percpu_ptr-percpu_to_free_list_ptr attr 0x10_0010 (omega arith)

range_base_offset_example :
    (range_base_of (0x10_0000 + 0x30) (2 ^ 16) ≡ 0x10_0000)
    × (offset_of (0x10_0000 + 0x30) (2 ^ 16) ≡ 0x30)
range_base_offset_example =
    range_base_offset 16 0x10_0000 0x30 (omega arith) refl (omega arith) (omega arith)

set_slot-Flips_example : Flips (0b101 ∷ []) 1 0 1 (set_slot (0b101 ∷ []) 1)
set_slot-Flips_example = set_slot-Flips (0b101 ∷ []) 1 (omega arith)

clear_slot-Flips_example : Flips (0b101 ∷ []) 1 1 0 (clear_slot (0b101 ∷ []) 1)
clear_slot-Flips_example = clear_slot-Flips (0b101 ∷ []) 1 (omega arith)

bitmap_count-bounds_example :
    (4095 < 64 * length (replicate {A = ℕ} (bitmap_count pool) 0))
    × (slot_of (replicate (bitmap_count pool) 0) 4095 ≡ 0)
bitmap_count-bounds_example = bitmap_count-bounds pool 4095 (omega arith)

configure-IsValid_example : IsValid 4096 100 (record {
  order = 7;
  item_len = 128;
  attr = record zero_attr { max_nr_cpus = pos 2; stride = mempool_stride };
})
unfolding configure config_order config_attr config_typed checked sizes_ok set_type with_cpus
    set_max_nr_cpus set_stride set_poison known_policy given_attr get_count_order_ulong fls_u64
    is_pow2
configure-IsValid_example = configure-IsValid 4096 2 100 none (omega arith) (omega arith) refl

-- What the system answers; no call of the example asks it.
abbrev pub calls : RangeCalls plain
calls = record {
  sysconf = pos 4096;
  maps = record { mmap = λ len. none; munmap = λ addr len. true };
  memfd = false;
  mmap_fixed = λ addr len. false;
  dontfork = true;
  wipeonfork = true;
  calloc = true;
  mmap_memory = λ m mapping. m;
  mmap_fixed_memory = λ m addr len. m;
  init_func = λ m addr len cpu. (true, m);
}

live : IsLive plain pool range 16 32
unfolding find_range percpu_to_free_list_ptr slot_of
live = record {
  small = omega arith;
  stride = refl;
  aligned = refl;
  not_null = omega arith;
  placed = record {
    fits = omega arith;
    whole = refl;
    private = λ a b lo hi h. h;
    init_at = λ init e. cc;
  };
  node_fits = omega arith;
  node_word = λ a b la ha lb hb h. h;
  node_quiet = λ robust a b lo hi h. h;
  in_space = omega arith;
  init_policy = λ h. absurd (h refl);
  poison_word = omega arith;
  poisoned = λ h. refl;
  listed = refl;
  allocated = λ b e. let same : 0b101 ∷ [] ≡ b = cc in rw (sym same) (omega arith, refl);
  head_word = omega arith;
}

abbrev pub roomy : MempoolRange
roomy = record range { next_unused = 48 }

abbrev pub roomy_pool : Mempool
roomy_pool = record pool { range_list = roomy ∷ [] }

internal_percpu_malloc-room_left_example :
    (range' : MempoolRange) × (pool' : Mempool) × (internal_percpu_malloc plain calls
        (init_args false (some (1 ∷ [])) 1)
        roomy_pool
        blank
      ≡ done (record {
        addr = some (0x10_0000 + 48);
        errno = none;
        pool = pool';
        mem = init_item plain calls (init_args false (some (1 ∷ [])) 1) pool' range' 48 blank;
      }))
    × (pool'.range_list ≡ range' ∷ [])
    × (pool'.free_list_head ≡ 0)
    × (range'.base ≡ 0x10_0000)
    × (range'.next_unused ≡ 48 + 16)
    × (range'.next_unused ≤ pool'.attr.stride)
unfolding slot_of
internal_percpu_malloc-room_left_example =
    internal_percpu_malloc-room_left plain calls roomy_pool roomy []
      (init_args false (some (1 ∷ [])) 1) blank (omega arith) refl refl (omega arith)
      (λ b e. let same : 0b101 ∷ [] ≡ b = cc in rw (sym same) (omega arith, refl))

abbrev pub full_pool : Mempool
full_pool = record pool { range_list = record range { next_unused = mempool_stride } ∷ [] }

internal_percpu_malloc-null_with_example :
    internal_percpu_malloc plain calls (init_args true none 0) full_pool blank
    ≡ done (null_with plain calls enomem full_pool blank)
internal_percpu_malloc-null_with_example =
    internal_percpu_malloc-null_with plain calls full_pool (init_args true none 0) blank refl
      (omega arith) (omega arith) (omega arith)
