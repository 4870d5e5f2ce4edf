-- ===== src/Mempool/Bitmap.antt =====
-- The allocation bitmap of a robust pool: `create_alloc_bitmap`, `set_alloc_slot`,
-- `clear_alloc_slot`, and the leak count of `destroy_alloc_bitmap` in src/rseq-mempool.c.
pub mod Laws
use librseq.Base.{
  ℕ, zero, suc, ◌+◌, ◌-◌, ◌*◌, ◌/◌, ◌%◌, ◌^◌, bit_and, bit_or, Bool, Option, none, some, List, [],
  ◌∷◌, ◌==◌, if◌then◌else◌, get_elem?, set, replicate,
}
use librseq.Bits.{bit, bit_not, u64}
use librseq.Mempool.Types.{
  MempoolRange, Mempool, Outcome, done, aborted, undefined, ◌>>=◌, bit_per_ulong,
}

-- `((stride >> item_order) + BIT_PER_ULONG - 1) / BIT_PER_ULONG` words.
unfoldable pub bitmap_count : Mempool → ℕ
bitmap_count pool = (pool.attr.stride / 2 ^ pool.item_order + bit_per_ulong - 1) / bit_per_ulong

-- `create_alloc_bitmap`; `calloc` gives zeroed words, or fails.
unfoldable pub create_alloc_bitmap : (calloc : Bool) → Mempool → MempoolRange → Option MempoolRange
create_alloc_bitmap calloc pool range =
    if calloc
    then some (record range { alloc_bitmap = some (replicate (bitmap_count pool) 0) })
    else none

-- The word of a slot, and the write of a new word; out of the bitmap C's behaviour is undefined.
unfoldable pub word_at : List ℕ → ℕ → Outcome ℕ
word_at bitmap k = elim (get_elem? bitmap k) [ none ↦ undefined | some w ↦ done w ]

-- The body of `set_alloc_slot` on a bitmap.
unfoldable pub set_slot : List ℕ → ℕ → Outcome (List ℕ)
set_slot bitmap item_index =
    let k = item_index / bit_per_ulong in
    let mask = 2 ^ (item_index % bit_per_ulong) in
    do
      w ← word_at bitmap k
      if bit_and w mask == 0 then done (set bitmap k (bit_or w mask)) else aborted

-- The body of `clear_alloc_slot` on a bitmap.
unfoldable pub clear_slot : List ℕ → ℕ → Outcome (List ℕ)
clear_slot bitmap item_index =
    let k = item_index / bit_per_ulong in
    let mask = 2 ^ (item_index % bit_per_ulong) in
    do
      w ← word_at bitmap k
      if bit_and w mask == 0 then aborted else done (set bitmap k (bit_and w (bit_not mask)))

-- `if (!bitmap) return;` before either.
unfoldable pub on_bitmap : (List ℕ → Outcome (List ℕ)) → Option (List ℕ) → Outcome (Option (List ℕ))
on_bitmap f none = done none
on_bitmap f (some bitmap) = do bitmap' ← f bitmap; done (some bitmap')

unfoldable pub set_alloc_slot : Mempool → MempoolRange → ℕ → Outcome MempoolRange
set_alloc_slot pool range item_offset = do
  bitmap ← on_bitmap (λ b. set_slot b (item_offset / 2 ^ pool.item_order)) range.alloc_bitmap
  done (record range { alloc_bitmap = bitmap })

unfoldable pub clear_alloc_slot : Mempool → MempoolRange → ℕ → Outcome MempoolRange
clear_alloc_slot pool range item_offset = do
  bitmap ← on_bitmap (λ b. clear_slot b (item_offset / 2 ^ pool.item_order)) range.alloc_bitmap
  done (record range { alloc_bitmap = bitmap })

-- `rseq_hweight_ulong`, the number of bits set in the `n` low bits.
unfoldable pub hweight : ℕ → ℕ → ℕ
hweight zero v = 0
hweight (suc n) v = v % 2 + hweight n (v / 2)

unfoldable pub total_leaks : List ℕ → ℕ
total_leaks [] = 0
total_leaks (w ∷ ws) = hweight 64 w + total_leaks ws

-- `destroy_alloc_bitmap`: it aborts on leaked items.
unfoldable pub destroy_alloc_bitmap : MempoolRange → Outcome MempoolRange
destroy_alloc_bitmap range = elim range.alloc_bitmap [
  | none ↦ done range
  | some bitmap ↦
      if total_leaks bitmap == 0 then done (record range { alloc_bitmap = none }) else aborted
]
