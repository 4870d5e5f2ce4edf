-- ===== src/Mempool/Alloc/Fresh.antt =====
-- An item that malloc takes from the unused part of the first range.
use librseq.Base.{
  if_true, ℕ, ◌+◌, ◌*◌, ◌/◌, ◌^◌, ◌≤◌, ◌<◌, ◌≡◌, refl, false, true, Option, none, some, List, ◌∷◌,
  length, ltb, ◌==◌, arith,
}
use librseq.Mempool.Types.{MempoolRange, Mempool, done}
use librseq.Mempool.Memory.{Memory}
use librseq.Mempool.Bitmap.{set_alloc_slot, set_slot, on_bitmap}
use librseq.Mempool.Bitmap.Laws.{slot_of, set_slot-Flips}
use librseq.Mempool.Range.{RangeCalls}
use librseq.Mempool.Alloc.{
  Init, init_item, put_range, internal_percpu_malloc, malloc_unused, room_left, end,
}
use librseq.Mempool.Alloc.Slots.{Flips-done}

-- The slot is free, in a pool that keeps a bitmap.
abbrev pub IsFree : Mempool → MempoolRange → ℕ → Type 0
IsFree pool range off =
    (bitmap : List ℕ)
    → range.alloc_bitmap ≡ some bitmap
    → (off / 2 ^ pool.item_order < 64 * length bitmap)
      × (slot_of bitmap (off / 2 ^ pool.item_order) ≡ 0)

put_first :
    (r r' : MempoolRange) (rs : List MempoolRange)
    → r.base ≡ r'.base
    → put_range (r ∷ rs) r' ≡ r' ∷ rs
unfolding put_range
put_first r r' rs h = let same : (r.base == r'.base) ≡ true = ground arith in if_true _ _ _ same

set_free :
    (i : ℕ) (bitmap : Option (List ℕ))
    → ((b : List ℕ) → bitmap ≡ some b → (i < 64 * length b) × (slot_of b i ≡ 0))
    → (taken : Option (List ℕ)) × (on_bitmap (λ b. set_slot b i) bitmap ≡ done taken)
unfolding on_bitmap
set_free i none h = (none, refl)
set_free i (some b) h =
    let (inside, free) = h b refl in
    let (b', set, _, _) = Flips-done (set_slot-Flips b i inside) free in (some b', rw set refl)

module _ (M : Memory) (K : RangeCalls M) (pool : Mempool) (range : MempoolRange)
    (ranges : List MempoolRange) where
  open M use {Mem}

  -- With an empty free list and room in the first range, malloc of an init value that fits succeeds:
  -- it returns the first unused item, which ends within the stride, and the first range then
  -- begins its unused part behind it; the other ranges and the free list stay as they are, and the
  -- memory is that of the initialised item.
  pub internal_percpu_malloc-room_left :
      (init : Init) (m : Mem)
      → init.init_len ≤ pool.item_len
      → pool.free_list_head ≡ 0
      → pool.range_list ≡ range ∷ ranges
      → range.next_unused + pool.item_len ≤ pool.attr.stride
      → IsFree pool range range.next_unused
      → (range' : MempoolRange) × (pool' : Mempool) × (internal_percpu_malloc M K init pool m
          ≡ done (record {
            addr = some (range.base + range.next_unused);
            errno = none;
            pool = pool';
            mem = init_item M K init pool' range' range.next_unused m;
          }))
        × (pool'.range_list ≡ range' ∷ ranges)
        × (pool'.free_list_head ≡ 0)
        × (range'.base ≡ range.base)
        × (range'.next_unused ≡ range.next_unused + pool.item_len)
        × (range'.next_unused ≤ pool'.attr.stride)
  unfolding internal_percpu_malloc malloc_unused room_left end set_alloc_slot
  internal_percpu_malloc-room_left init m fits empty list room free =
      let (taken, set) =
        set_free (range.next_unused / 2 ^ pool.item_order) range.alloc_bitmap free in
      let no_error : ltb pool.item_len init.init_len ≡ false = ground arith in
      let no_node : (pool.free_list_head == 0) ≡ true = ground arith in
      let no_new : ltb pool.attr.stride (range.next_unused + pool.item_len) ≡ false =
        ground arith in
      let used = record range { next_unused = range.next_unused + pool.item_len } in
      let range' = record range {
        next_unused = range.next_unused + pool.item_len;
        alloc_bitmap = taken;
      } in
      (
        range',
        record pool { range_list = range' ∷ ranges },
        rw
            (
              no_error,
              no_node,
              list,
              no_new,
              put_first range used ranges refl,
              set,
              put_first used range' ranges refl,
            )
            refl,
        refl,
        empty,
        refl,
        refl,
        room,
      )
