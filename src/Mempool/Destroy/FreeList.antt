-- ===== src/Mempool/Destroy/FreeList.antt =====
-- The walk of `check_free_list`: the chain of nodes from the head.

use librseq.Base.{
  ℕ, zero, suc, ◌+◌, ◌<◌, ◌≤◌, ◌≡◌, ◌≢◌, ◌⊎◌, true, refl, arith, List, [], ◌∷◌, Bool-cases, inl,
  inr, ◌==◌,
}
use librseq.Mempool.Types.{MempoolRange, Mempool, Outcome, done, aborted}
use librseq.Mempool.Addr.{free_list_to_percpu_ptr}
use librseq.Mempool.Memory.{Memory, load_word}
use librseq.Mempool.Destroy.{percpu_addr_in_pool, walk_free_list}

-- An address of an item that was ever allocated, in one of the ranges.
pub data IsInRanges (addr : ℕ) : List MempoolRange → Type 0 where
  here :
      {range : MempoolRange} {ranges : List MempoolRange}
      → range.base ≤ addr
      → addr < range.base + range.next_unused
      → IsInRanges addr (range ∷ ranges)
  there :
      {range : MempoolRange} {ranges : List MempoolRange}
      → IsInRanges addr ranges
      → IsInRanges addr (range ∷ ranges)

in_ranges_to :
    (ranges : List MempoolRange) (addr : ℕ)
    → percpu_addr_in_pool ranges addr ≡ true
    → IsInRanges addr ranges
unfolding percpu_addr_in_pool
in_ranges_to [] addr h = cc
in_ranges_to (range ∷ ranges) addr h = elim (Bool-cases (percpu_addr_in_pool ranges addr)) [
  | inl later ↦ there (in_ranges_to ranges addr later)
  | inr none_later ↦ here (ground arith) (ground arith)
]

in_ranges_from :
    {addr : ℕ} {ranges : List MempoolRange}
    → IsInRanges addr ranges
    → percpu_addr_in_pool ranges addr ≡ true
unfolding percpu_addr_in_pool
in_ranges_from (here lo hi) = ground arith
in_ranges_from (there h) = ground (arith, in_ranges_from h)

module _ (M : Memory) (pool : Mempool) (m : M.Mem) where
  -- A free list of `k` nodes from `node` on, each of them for an address in the used
  -- part of a range.
  pub data Chain : (node k : ℕ) → Type 0 where
    last : {node k : ℕ} → node ≡ 0 → k ≡ 0 → Chain node k
    link :
        {node k : ℕ}
        → node ≢ 0
        → IsInRanges (free_list_to_percpu_ptr pool.attr node) pool.range_list
        → Chain (load_word M m node) k
        → Chain node (suc k)

  pub Chain-unique : {node k l : ℕ} → Chain node k → Chain node l → k ≡ l
  Chain-unique (last e1 e2) (last e3 e4) = cc
  Chain-unique (last e1 e2) (link n h c) = absurd (n e1)
  Chain-unique (link n h c) (last e1 e2) = absurd (n e1)
  Chain-unique (link n h c) (link n' h' c') = omega (arith, Chain-unique c c')

  Chain-inv :
      {node k : ℕ}
      → Chain node k
      → node ≢ 0
      → (j : ℕ) × (k ≡ suc j)
        × IsInRanges (free_list_to_percpu_ptr pool.attr node) pool.range_list
        × Chain (load_word M m node) j
  Chain-inv (last null e) h = absurd (h null)
  Chain-inv (link {k = k} h inside c) h' = (k, refl, inside, c)

  -- What the walk comes to in `n` rounds.
  abbrev pub Walks : (n node total : ℕ) → Outcome ℕ → Type 0
  Walks n node total x =
      ((k : ℕ) × Chain node k × (k ≤ n) × (x ≡ done (total + k)))
      ⊎ (((k : ℕ) → Chain node k → n < k) × (x ≡ aborted))

  pub walk_free_list-Walks :
      (n node total : ℕ) → Walks n node total (walk_free_list M n pool m node total)
  unfolding walk_free_list
  walk_free_list-Walks zero node total = elim (Bool-cases (node == 0)) [
    | inl null ↦ inl (0, last (ground arith) refl, omega arith, rw null (ground arith))
    | inr more ↦
        inr ((λ k c. let (j, e, _, _) = Chain-inv c (ground arith) in omega arith), rw more refl)
  ]
  walk_free_list-Walks (suc n) node total = elim (Bool-cases (node == 0)) [
    | inl null ↦ inl (0, last (ground arith) refl, omega arith, rw null (ground arith))
    | inr more ↦
        elim (Bool-cases
          (percpu_addr_in_pool pool.range_list (free_list_to_percpu_ptr pool.attr node))) [
            | inl inside ↦ elim (walk_free_list-Walks n (load_word M m node) (total + 1)) [
              | inl (k, c, le, e) ↦ inl (
                suc k,
                link (ground arith) (in_ranges_to pool.range_list _ inside) c,
                omega arith,
                rw (more, inside, e) (ground arith),
              )
              | inr (none, e) ↦ inr (
                (λ k c.
                    let (j, e', _, c') = Chain-inv c (ground arith) in
                    let lt = none j c' in omega arith),
                rw (more, inside) e,
              )
            ]
            | inr outside ↦ inr (
              (λ k c.
                  let (j, e', inside, _) = Chain-inv c (ground arith) in
                  let contra = in_ranges_from inside in absurd (cc)),
              rw (more, outside) refl,
            )
          ]
  ]
