-- ===== src/Mempool/Create/Examples.antt =====
-- The creation of a global pool.
use librseq.Utils.{is_pow2, get_count_order_ulong, fls_u64, offset_align}
use librseq.Mempool.Mmap.{
  aligned_mmap_anonymous, args_ok, pre_header_ok, map_and_trim, trim_before, trim_after,
}
use librseq.Mempool.Bitmap.{create_alloc_bitmap, bitmap_count}
use librseq.Mempool.Range.{
  range_create, range_len, header_len, get_page_len, create_in, create_stages, create_bitmap,
  create_init, count_range, RangeCalls,
}
use librseq.Mempool.Create.{
  configure, config_order, config_attr, known_policy, given_attr, config_typed, set_type, checked,
  sizes_ok, set_poison, set_stride, Config,
}
use librseq.Mempool.Create.Pool.{new_pool, CreateCalls, mempool_create}
use librseq.Base.{◌+◌, ◌-◌, ◌*◌, ◌≡◌, refl, true, false, arith, none, some, replicate}
use librseq.Base.Int.{pos}
use librseq.Mempool.Types.{Attr, MempoolRange, global, cow_zero, mempool_stride, done}
use librseq.Mempool.Memory.ByteMap.{plain}
use librseq.Mempool.Attr.{zero_attr}
use librseq.Mempool.Examples.{calls, blank}
use librseq.Mempool.Create.Created.{Creates, mempool_create-Creates}

-- Attributes of a global pool with checks.
abbrev given : Attr
given = record zero_attr { type = global; robust_set = true }

abbrev config : Config
config = record {
  order = 4;
  item_len = 16;
  attr = record given {
    stride = mempool_stride;
    max_nr_cpus = pos 1;
    populate_policy = cow_zero;
    poison_set = true;
    poison = 0;
  };
}

-- The mapping is aligned behind its header as it comes.
abbrev mapping_calls : RangeCalls plain
mapping_calls = record calls {
  maps = record { mmap = λ len. some (0x10_0000 - 8192); munmap = λ addr len. true };
}

abbrev create_calls : CreateCalls
create_calls = record { calloc = true; strdup = false; detected = 2 }

abbrev range : MempoolRange
range = record {
  header = 0x10_0000 - 8192;
  base = 0x10_0000;
  init = none;
  next_unused = 0;
  mmap_addr = 0x10_0000 - 8192;
  mmap_len = 8192 + 2 * mempool_stride;
  alloc_bitmap = some (replicate 64 0);
}

maps :
    range_create plain mapping_calls (new_pool config) blank
    ≡ done (some range, record (new_pool config) { nr_ranges = 1 }, blank)
unfolding range_create range_len header_len get_page_len aligned_mmap_anonymous args_ok is_pow2
    get_count_order_ulong fls_u64 pre_header_ok map_and_trim trim_before trim_after create_in
    create_stages create_bitmap create_alloc_bitmap create_init bitmap_count count_range new_pool
    offset_align
maps = refl

valid : configure (get_page_len (pos 4096)) 2 12 (some given) ≡ done (some config)
unfolding configure config_order get_count_order_ulong fls_u64 config_attr known_policy given_attr
    config_typed set_type checked sizes_ok set_poison set_stride get_page_len is_pow2
valid = refl

mempool_create-Creates_example :
    Creates plain mapping_calls create_calls config false blank
      (some range)
      (mempool_create plain mapping_calls create_calls false 12 (some given) blank)
mempool_create-Creates_example =
    mempool_create-Creates plain mapping_calls create_calls config false (λ a l. refl) (omega arith)
      12 (some given) blank refl valid maps
