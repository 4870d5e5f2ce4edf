-- ===== src/Mempool/Destroy/Leaks.antt =====
-- `destroy_alloc_bitmap` and the loop of `rseq_mempool_destroy`: no slot is taken any more.
use librseq.Base.{
  false, if◌then◌else◌, Bool, ◌⊎◌, ℕ, zero, suc, ◌+◌, ◌-◌, ◌/◌, ◌%◌, ◌<◌, ◌≡◌, true, refl, arith,
  List, [], ◌∷◌, Option, none, some, Bool-cases, inl, inr, subst, sym, ◌∙◌, dec_lt, ◌==◌,
}
use librseq.Bits.{bit, bit-zero}
use librseq.Mempool.Types.{MempoolRange, Outcome, done, aborted}
use librseq.Mempool.Memory.{Memory}
use librseq.Mempool.Bitmap.{hweight, total_leaks, destroy_alloc_bitmap}
use librseq.Mempool.Bitmap.Laws.{slot_of}
use librseq.Mempool.Range.{RangeCalls, range_destroy}
use librseq.Mempool.Destroy.{destroy_ranges}

hweight-zero_to : (n w : ℕ) → hweight n w ≡ 0 → (i : ℕ) → i < n → bit w i ≡ 0
unfolding hweight
hweight-zero_to zero w h i lt = absurd (omega arith)
hweight-zero_to (suc n) w h zero lt = omega arith
hweight-zero_to (suc n) w h (suc i) lt = hweight-zero_to n (w / 2) (omega arith) i (omega arith)

hweight-zero_from : (n w : ℕ) → ((i : ℕ) → i < n → bit w i ≡ 0) → hweight n w ≡ 0
unfolding hweight
hweight-zero_from zero w h = refl
hweight-zero_from (suc n) w h =
    omega (arith, h 0 (omega arith), hweight-zero_from n (w / 2) (λ i lt. h (suc i) (omega arith)))

slot_of-head : (w : ℕ) (ws : List ℕ) (i : ℕ) → i < 64 → slot_of (w ∷ ws) i ≡ bit w i
unfolding slot_of
slot_of-head w ws i h =
    let first : i / 64 ≡ 0 = omega arith in
    let same : i % 64 ≡ i = omega arith in rw (first, same) refl

slot_of-tail : (w : ℕ) (ws : List ℕ) (i : ℕ) → slot_of (w ∷ ws) (i + 64) ≡ slot_of ws i
unfolding slot_of
slot_of-tail w ws i =
    let next : (i + 64) / 64 ≡ suc (i / 64) = omega arith in
    let same : (i + 64) % 64 ≡ i % 64 = omega arith in rw (next, same) refl

-- No slot of a bitmap is taken.
abbrev pub IsEmpty : List ℕ → Type 0
IsEmpty bitmap = (i : ℕ) → slot_of bitmap i ≡ 0

total_leaks-zero_to : (bitmap : List ℕ) → total_leaks bitmap ≡ 0 → IsEmpty bitmap
unfolding total_leaks
total_leaks-zero_to [] h i = unfold slot_of in bit-zero (i % 64)
total_leaks-zero_to (w ∷ ws) h i = elim (dec_lt i 64) [
  | yes lt ↦ slot_of-head w ws i lt ∙ hweight-zero_to 64 w (omega arith) i lt
  | no ge ↦
      let back : i - 64 + 64 ≡ i = omega arith in
      subst (λ k. slot_of (w ∷ ws) k ≡ 0) back
        (slot_of-tail w ws (i - 64) ∙ total_leaks-zero_to ws (omega arith) (i - 64))
]

total_leaks-zero_from : (bitmap : List ℕ) → IsEmpty bitmap → total_leaks bitmap ≡ 0
unfolding total_leaks
total_leaks-zero_from [] h = refl
total_leaks-zero_from (w ∷ ws) h = omega (
  arith,
  hweight-zero_from 64 w (λ i lt. sym (slot_of-head w ws i lt) ∙ h i),
  total_leaks-zero_from ws (λ i. sym (slot_of-tail w ws i) ∙ h (i + 64)),
)

-- No slot of a range is taken, if it has a bitmap.
abbrev pub IsReturned : MempoolRange → Type 0
IsReturned range = (bitmap : List ℕ) → range.alloc_bitmap ≡ some bitmap → IsEmpty bitmap

-- The range without its bitmap.
abbrev pub without_bitmap : MempoolRange → MempoolRange
without_bitmap range = record range { alloc_bitmap = none }

-- What `destroy_alloc_bitmap` comes to.
abbrev Destroys : MempoolRange → Outcome MempoolRange → Type 0
Destroys range x =
    (IsReturned range × (x ≡ done (without_bitmap range))) ⊎ (¬ (IsReturned range) × (x ≡ aborted))

destroys :
    (range : MempoolRange) (o : Option (List ℕ))
    → let r = record range { alloc_bitmap = o } in Destroys r (destroy_alloc_bitmap r)
unfolding destroy_alloc_bitmap
destroys range none = inl ((λ b e. cc), refl)
destroys range (some bitmap) = elim (Bool-cases (total_leaks bitmap == 0)) [
  | inl clear ↦
      let free = total_leaks-zero_to bitmap (ground arith) in
      inl ((λ b e. subst IsEmpty (let same : bitmap ≡ b = cc in same) free), rw clear refl)
  | inr leaks ↦ inr (
    λ h. let none_left = total_leaks-zero_from bitmap (h bitmap refl) in absurd (ground arith),
    rw leaks refl,
  )
]

pub destroy_alloc_bitmap-Destroys :
    (range : MempoolRange) → Destroys range (destroy_alloc_bitmap range)
destroy_alloc_bitmap-Destroys range = destroys range range.alloc_bitmap

abbrev pub AreReturned : List MempoolRange → Type 0
AreReturned [] = Unit
AreReturned (range ∷ ranges) = IsReturned range × AreReturned ranges

-- Where each `munmap` succeeds, the loop aborts exactly if a slot of a range is taken.
module _ (M : Memory) (K : RangeCalls M)
    (unmaps : (addr len : ℕ) → K.maps.munmap addr len ≡ true) where
  unmap :
      (mapping_accessible : Bool) (a b c d : ℕ)
      → (if mapping_accessible then K.maps.munmap a b else K.maps.munmap c d) ≡ true
  unmap true a b c d = unmaps a b
  unmap false a b c d = unmaps c d

  pub destroy_ranges-cases :
      (ranges : List MempoolRange) (mapping_accessible : Bool)
      → (AreReturned ranges × (destroy_ranges M K ranges mapping_accessible ≡ done []))
        ⊎ (¬ (AreReturned ranges) × (destroy_ranges M K ranges mapping_accessible ≡ aborted))
  unfolding destroy_ranges range_destroy
  destroy_ranges-cases [] mapping_accessible = inl (tt, refl)
  destroy_ranges-cases (range ∷ ranges) mapping_accessible =
      elim (destroy_alloc_bitmap-Destroys range) [
        | inl (free, e) ↦ elim (destroy_ranges-cases ranges mapping_accessible) [
          | inl (frees, es) ↦ inl ((free, frees), rw (e, unmap mapping_accessible) es)
          | inr (taken, es) ↦ inr (λ h. taken h.1, rw (e, unmap mapping_accessible) es)
        ]
        | inr (taken, e) ↦ inr (λ h. taken h.0, rw e refl)
      ]
