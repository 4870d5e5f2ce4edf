-- ===== src/Mempool/Set/Examples.antt =====
-- A set of two pools, the smaller of which is full.
use librseq.Base.{true, sym, ℕ, ◌≡◌, refl, arith, none, some, [], ◌∷◌, ◌==◌, if◌then◌else◌}
use librseq.Mempool.Memory.ByteMap.{plain}
use librseq.Mempool.Examples.{full_pool, roomy, roomy_pool, calls, blank}
use librseq.Mempool.Alloc.{Init, init_args, internal_percpu_malloc, null_with}
use librseq.Mempool.Bitmap.Laws.{slot_of}
use librseq.Mempool.Alloc.Refused.{internal_percpu_malloc-null_with}
use librseq.Mempool.Set.{enomem, done, Mempool, PoolSet, min_order, set_malloc}
use librseq.Mempool.Set.Tries.{Tries, set_malloc-Tries}
use librseq.Mempool.Set.Served.{HasRoom, AreSound, Serves, set_malloc-Serves}

abbrev small_pool : Mempool
small_pool = record full_pool { item_len = 8; item_order = 3 }

abbrev pools : PoolSet
pools = record {
  entries = λ order.
      if order == 4 then some roomy_pool else (if order == 3 then some small_pool else none);
}

abbrev init : Init
init = init_args true none 8

set_malloc-Tries_example :
    Tries plain calls init pools (min_order 8) blank (set_malloc plain calls init pools blank)
set_malloc-Tries_example = set_malloc-Tries plain calls init pools blank (omega arith)

has_room : HasRoom roomy_pool
unfolding slot_of
has_room = record {
  range = roomy;
  ranges = [];
  empty = refl;
  listed = refl;
  room = omega arith;
  slot = λ b e. let same : 0b101 ∷ [] ≡ b = cc in rw (sym same) (omega arith, refl);
}

refused :
    (m : ℕ → ℕ)
    → internal_percpu_malloc plain calls init small_pool m
      ≡ done (null_with plain calls enomem small_pool m)
refused m =
    internal_percpu_malloc-null_with plain calls small_pool init m refl (omega arith) (omega arith)
      (omega arith)

sound : (low : ℕ) → AreSound plain calls init pools low 4
sound low order pool m lo hi e =
    let same : pool ≡ small_pool = ground arith in
    (null_with plain calls enomem small_pool m, rw same (refused m))

set_malloc-Serves_example : Serves plain calls init (set_malloc plain calls init pools blank)
set_malloc-Serves_example =
    set_malloc-Serves plain calls init 4 roomy_pool has_room (omega arith) (omega arith) pools blank
      (omega arith) (omega arith) refl refl (sound (min_order 8))
