-- ===== src/Mempool/Bitmap/Laws.antt =====
-- The bitmap as the set of allocated slots.
use native.Mathlib.Nat.{one-le-mul, mod-eq_of_lt}
use librseq.Base.{
  length-replicate, get_elem?-get_or, get_or-set, length-set, ℕ, zero, suc, ◌-◌, ◌*◌, ◌/◌, ◌%◌, ◌^◌,
  ◌≤◌, ◌<◌, bit_and, bit_or, List, ◌==◌, if◌then◌else◌, set, replicate, length, get_or, ◌≡◌, ◌≢◌,
  inl, inr, refl, arith, Bool-cases,
}
use librseq.Bits.{
  bit-zero, two-pow-lt, bit, bit_not, bit-bit_or, bit-bit_and, bit-two-pow, bit-not,
  bit_and-two-pow, bit-cases, two-pow-pos,
}
use librseq.Mempool.Types.{Mempool, Outcome, done, aborted}
use librseq.Mempool.Bitmap.{bitmap_count, word_at, set_slot, clear_slot}

-- Bit `i` of a bitmap.
unfoldable pub slot_of : List ℕ → ℕ → ℕ
slot_of bitmap i = bit (get_or bitmap (i / 64) 0) (i % 64)

-- What `set_alloc_slot` and `clear_alloc_slot` come to at slot `i`: abort if it holds `from` no
-- more, else a bitmap that has the value `to` there and is the same elsewhere.
pub data Flips (bitmap : List ℕ) (i from to : ℕ) : Outcome (List ℕ) → Type 0 where
  refused : slot_of bitmap i ≢ from → Flips bitmap i from to aborted
  flipped :
      {bitmap' : List ℕ}
      → slot_of bitmap i ≡ from
      → length bitmap' ≡ length bitmap
      → ((j : ℕ) → slot_of bitmap' j ≡ (if i == j then to else slot_of bitmap j))
      → Flips bitmap i from to (done bitmap')

-- The test of a bit, as `set_alloc_slot` and `clear_alloc_slot` make it.
test_bit : (w b : ℕ) → (bit_and w (2 ^ b) == 0) ≡ (bit w b == 0)
test_bit w b = rw (bit_and-two-pow w b) (go (bit w b) (bit-cases w b))
  where
    go : (x : ℕ) → x ≤ 1 → (x * 2 ^ b == 0) ≡ (x == 0)
    go zero h = ground arith
    go (suc x) h =
        ground (arith, two-pow-pos b, one-le-mul {a = suc x} (omega arith) (two-pow-pos b))

module _ (bitmap : List ℕ) (i : ℕ) (h : i < 64 * length bitmap) where
  abbrev w : ℕ
  w = get_or bitmap (i / 64) 0

  at : word_at bitmap (i / 64) ≡ done w
  unfolding word_at
  at = rw (get_elem?-get_or bitmap (i / 64) 0 (omega arith), word_at)

  slot_of-set :
      (v j : ℕ)
      → slot_of (set bitmap (i / 64) v) j
        ≡ (if i / 64 == j / 64 then bit v (j % 64) else slot_of bitmap j)
  unfolding slot_of
  slot_of-set v j = rw (get_or-set bitmap (i / 64) (j / 64) v 0 (omega arith)) (ground arith)

  set_flips :
      (j : ℕ)
      → slot_of (set bitmap (i / 64) (bit_or w (2 ^ (i % 64)))) j
        ≡ (if i == j then 1 else slot_of bitmap j)
  unfolding slot_of
  set_flips j = ground (
    arith,
    slot_of-set (bit_or w (2 ^ (i % 64))) j,
    bit-bit_or w (2 ^ (i % 64)) (j % 64),
    bit-two-pow (i % 64) (j % 64),
    bit-cases w (j % 64),
  )

  clear_flips :
      (j : ℕ)
      → slot_of (set bitmap (i / 64) (bit_and w (bit_not (2 ^ (i % 64))))) j
        ≡ (if i == j then 0 else slot_of bitmap j)
  unfolding slot_of
  clear_flips j = ground (
    arith,
    slot_of-set (bit_and w (bit_not (2 ^ (i % 64)))) j,
    bit-bit_and w (bit_not (2 ^ (i % 64))) (j % 64),
    bit-bit_not,
    bit-two-pow (i % 64) (j % 64),
    bit-cases w (j % 64),
  )
    where
      fits : 2 ^ (i % 64) % 2 ^ 64 ≡ 2 ^ (i % 64)
      fits = mod-eq_of_lt (two-pow-lt (i % 64) 64 (omega arith))

      bit-bit_not : bit (bit_not (2 ^ (i % 64))) (j % 64) ≡ 1 - bit (2 ^ (i % 64)) (j % 64)
      bit-bit_not =
          rw fits (
            bit-not 64 (2 ^ (i % 64)) (j % 64) (two-pow-lt (i % 64) 64 (omega arith)) (omega arith))

  -- In its range, `set_alloc_slot` aborts exactly on a slot that is allocated already, and else sets
  -- its bit alone.
  pub set_slot-Flips : Flips bitmap i 0 1 (set_slot bitmap i)
  unfolding set_slot slot_of
  set_slot-Flips =
      rw (at, test_bit w (i % 64))
        (elim (Bool-cases (bit w (i % 64) == 0)) [
          | inl free ↦ rw free (flipped (ground arith) (length-set bitmap (i / 64) _) set_flips)
          | inr taken ↦ rw taken (refused (ground arith))
        ])

  -- In its range, `clear_alloc_slot` aborts exactly on a slot that is not allocated, a double free,
  -- and else clears its bit alone.
  pub clear_slot-Flips : Flips bitmap i 1 0 (clear_slot bitmap i)
  unfolding clear_slot slot_of
  clear_slot-Flips =
      rw (at, test_bit w (i % 64))
        (elim (Bool-cases (bit w (i % 64) == 0)) [
          | inl free ↦ rw free (refused (ground arith))
          | inr taken ↦ rw taken (
              flipped (ground (arith, bit-cases w (i % 64))) (length-set bitmap (i / 64) _)
                clear_flips)
        ])

pub get_or-replicate : (n i : ℕ) → ◌≡◌ {A = ℕ} (get_or (replicate n 0) i 0) 0
get_or-replicate zero i = refl
get_or-replicate (suc n) zero = refl
get_or-replicate (suc n) (suc i) = get_or-replicate n i

-- A fresh bitmap has a slot for every item of the stride, and all slots are free.
pub bitmap_count-bounds :
    (pool : Mempool) (i : ℕ)
    → i < pool.attr.stride / 2 ^ pool.item_order
    → (i < 64 * length (replicate {A = ℕ} (bitmap_count pool) 0))
      × (slot_of (replicate (bitmap_count pool) 0) i ≡ 0)
unfolding slot_of bitmap_count
bitmap_count-bounds pool i h = (
  omega (arith, length-replicate {A = ℕ} (bitmap_count pool) 0),
  rw (get_or-replicate (bitmap_count pool) (i / 64)) (bit-zero (i % 64)),
)
