-- ===== src/Mempool/Alloc/Slots.antt =====
-- An allocated slot can be freed, and a freed one allocated; ranges are found where they were.
use librseq.Base.{
  if_false, if_true, ℕ, ◌*◌, ◌/◌, ◌^◌, ◌<◌, ◌≡◌, ◌∙◌, refl, sym, ap, true, false, Option, none,
  some, List, [], ◌∷◌, length, ◌==◌, Bool-cases, inl, inr, arith,
}
use librseq.Mempool.Types.{MempoolRange, Mempool, Outcome, done}
use librseq.Mempool.Bitmap.{set_alloc_slot, clear_alloc_slot, set_slot, clear_slot, on_bitmap}
use librseq.Mempool.Bitmap.Laws.{slot_of, Flips, refused, flipped, set_slot-Flips, clear_slot-Flips}
use librseq.Mempool.Alloc.{find_range, put_range}

-- The slot of the item is allocated, in a pool that keeps a bitmap.
abbrev pub IsAllocated : Mempool → MempoolRange → ℕ → Type 0
IsAllocated pool range off =
    (bitmap : List ℕ)
    → range.alloc_bitmap ≡ some bitmap
    → (off / 2 ^ pool.item_order < 64 * length bitmap)
      × (slot_of bitmap (off / 2 ^ pool.item_order) ≡ 1)

pub Flips-done :
    {bitmap : List ℕ} {i from to : ℕ} {x : Outcome (List ℕ)}
    → Flips bitmap i from to x
    → slot_of bitmap i ≡ from
    → (bitmap' : List ℕ) × (x ≡ done bitmap')
      × (length bitmap' ≡ length bitmap)
      × (slot_of bitmap' i ≡ to)
Flips-done (refused differs) h = absurd (differs h)
Flips-done {i = i} (flipped {bitmap' = b} at len all) h = (b, refl, len, all i ∙ ground arith)

-- The bitmap after the slot was freed, and after it was allocated again.
clear_then_set :
    (i : ℕ) (bitmap : Option (List ℕ))
    → ((b : List ℕ) → bitmap ≡ some b → (i < 64 * length b) × (slot_of b i ≡ 1))
    → (freed : Option (List ℕ)) × (again : Option (List ℕ)) × (on_bitmap
          (λ b. clear_slot b i)
          bitmap
        ≡ done freed)
      × (on_bitmap (λ b. set_slot b i) freed ≡ done again)
unfolding on_bitmap
clear_then_set i none h = (none, none, refl, refl)
clear_then_set i (some b) h =
    let (inside, taken) = h b refl in
    let (b', cleared, len, free) = Flips-done (clear_slot-Flips b i inside) taken in
    let (b'', set, _, _) = Flips-done (set_slot-Flips b' i (rw len inside)) free in
    (some b', some b'', rw cleared refl, rw set refl)

-- The same on a range.
pub free-alloc :
    (pool : Mempool) (range : MempoolRange) (off : ℕ)
    → IsAllocated pool range off
    → (freed : Option (List ℕ)) × (again : Option (List ℕ)) × (clear_alloc_slot pool range off
        ≡ done (record range { alloc_bitmap = freed }))
      × (set_alloc_slot pool (record range { alloc_bitmap = freed }) off
          ≡ done (record range { alloc_bitmap = again }))
unfolding clear_alloc_slot set_alloc_slot
free-alloc pool range off h =
    let (freed, again, cleared, set) =
      clear_then_set (off / 2 ^ pool.item_order) range.alloc_bitmap h in
    (freed, again, rw cleared refl, rw set refl)

-- A range that was written is found where it was.
pub find_range-put_range :
    (rs : List MempoolRange) (base : ℕ) (r r' : MempoolRange)
    → r'.base ≡ base
    → find_range rs base ≡ done r
    → find_range (put_range rs r') base ≡ done r'
unfolding find_range put_range
find_range-put_range [] base r r' same h = cc
find_range-put_range (s ∷ rs) base r r' same h = elim (Bool-cases (s.base == base)) [
  | inl here ↦
      let written : (s.base == r'.base) ≡ true = ground arith in
      let found : (r'.base == base) ≡ true = ground arith in
      ap (λ t. find_range t base) (if_true _ _ _ written) ∙ if_true _ _ _ found
  | inr there ↦
      let kept : (s.base == r'.base) ≡ false = ground arith in
      ap (λ t. find_range t base) (if_false _ _ _ kept)
      ∙ if_false _ _ _ there
      ∙ find_range-put_range rs base r r' same (sym (if_false _ _ _ there) ∙ h)
]
