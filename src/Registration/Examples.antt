-- ===== src/Registration/Examples.antt =====
-- The registration at concrete answers: no symbols of the C library, a kernel that shows 28 bytes.
use librseq.Base.{◌≡◌, ◌≤◌, ◌<◌, true, false, none, refl}
use librseq.Mempool.Types.{done, aborted}
use librseq.Registration.{
  Env, Globals, initial, starts, registers, min_alloc_size, register_current_thread, register_owned,
  init, adopt, libc_symbols, set_size, kernel_feature_size,
}
use librseq.Registration.Sizes.{
  min_alloc_size-bounds, register_current_thread-pos, register_current_thread-aborted,
}

abbrev env : Env
env = record {
  libc_offset = none;
  libc_size = none;
  libc_flags = none;
  auxv_align = 32;
  auxv_feature_size = 28;
  area_offset = 4096;
}

abbrev registered : Globals
registered = record {
  init_done = true;
  rseq_offset = 4096;
  rseq_size = 28;
  rseq_flags = 0;
  rseq_ownership = true;
}

first : register_current_thread env true true initial ≡ done (true, registered)
unfolding register_current_thread register_owned init adopt libc_symbols set_size
    kernel_feature_size
first = refl

min_alloc_size-bounds_example :
    (32 ≤ min_alloc_size registered) × (min_alloc_size registered ≤ 1024)
min_alloc_size-bounds_example =
    min_alloc_size-bounds {env = env} registered (registers true true starts first) refl

register_current_thread-pos_example : 0 < 28
register_current_thread-pos_example =
    register_current_thread-pos {env = env} true true initial registered starts first

register_current_thread-aborted_example :
    register_current_thread env false true registered ≡ aborted
register_current_thread-aborted_example =
    register_current_thread-aborted {env = env} true true true initial registered starts first refl
