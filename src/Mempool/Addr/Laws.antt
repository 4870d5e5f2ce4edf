-- ===== src/Mempool/Addr/Laws.antt =====
-- The addresses of a range fit together.
use native.Mathlib.Nat.{zero-add, mod-eq_of_lt, add-mod}
use librseq.Base.{ℕ, ◌+◌, ◌*◌, ◌%◌, ◌^◌, ◌≤◌, ◌<◌, ◌≡◌, refl, arith}
use librseq.Bits.{bit_and_mask, bit_and_align}
use librseq.Utils.{mask_of_align}
use librseq.Mempool.Types.{Attr, nr_cpus}
use librseq.Mempool.Addr.{
  free_list_to_percpu_ptr, percpu_to_free_list_ptr, ptr_sub, range_base_of, offset_of,
}

ptr_sub-add : (p n : ℕ) → p + n < 2 ^ 64 → ptr_sub (p + n) n ≡ p
ptr_sub-add p n h = omega arith

-- The node of an item leads back to the item, for every kind of pool, if the areas of the CPUs, the
-- init values and the free list lie in the address space.
pub free_list_to_percpu_ptr-percpu_to_free_list_ptr :
    (attr : Attr) (p : ℕ)
    → p + nr_cpus attr * attr.stride + attr.stride < 2 ^ 64
    → free_list_to_percpu_ptr attr (percpu_to_free_list_ptr attr p) ≡ p
unfolding free_list_to_percpu_ptr percpu_to_free_list_ptr
free_list_to_percpu_ptr-percpu_to_free_list_ptr attr p h = ground (
  arith,
  ptr_sub-add (p + nr_cpus attr * attr.stride) attr.stride (omega arith),
  ptr_sub-add p (nr_cpus attr * attr.stride) (omega arith),
)

module _ (k base off : ℕ) (small : k ≤ 63) (aligned : base % 2 ^ k ≡ 0) (inside : off < 2 ^ k) where
  low_part : (base + off) % 2 ^ k ≡ off
  low_part =
      rw (add-mod base off (2 ^ k), aligned, mod-eq_of_lt inside, zero-add off)
        (mod-eq_of_lt inside)

  -- From the encoded pointer alone: its offset in the stride, and the base of its range.
  pub range_base_offset :
      base + off < 2 ^ 64
      → (range_base_of (base + off) (2 ^ k) ≡ base) × (offset_of (base + off) (2 ^ k) ≡ off)
  unfolding range_base_of offset_of
  range_base_offset fits =
      rw
        (
          mask_of_align k small,
          bit_and_align k (base + off) (omega arith) fits,
          bit_and_mask k (base + off),
          low_part,
        )
        (omega arith, refl)
