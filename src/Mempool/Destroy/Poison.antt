-- ===== src/Mempool/Destroy/Poison.antt =====
-- `check_pool_poison`: every item that was ever allocated is poisoned.
use native.Mathlib.Nat.{suc-mul, zero-mul}
use librseq.Mempool.Addr.{range_init_ptr}
use librseq.Base.{
  Option, none, some, some, Option, ℕ, zero, suc, ◌+◌, ◌*◌, ◌<◌, ◌≤◌, ◌≡◌, ◌≢◌, true, arith, List,
  [], ◌∷◌, ltb, subst, sym,
}
use librseq.Mempool.Types.{nr_cpus, MempoolRange, Mempool, done, undefined}
use librseq.Mempool.Decides.{
  if-≢-undefined, Decides-if, Decides, passes, Decides-map, Decides-of_iff, Decides-then,
  >>-≢-undefined,
}
use librseq.Mempool.Memory.{Memory}
use librseq.Mempool.Items.{
  percpu_check_poison_item, check_poison_item, check_poison_init, check_poison_cpus,
}
use librseq.Mempool.Items.Check.{IsPoisoned, percpu_check_poison_item_iff}
use librseq.Mempool.Destroy.{check_offsets, check_range_poison, check_ranges}

module _ (M : Memory) (pool : Mempool) where
  open M use {Mem}

  check_item_defined : (m : Mem) (p len poison : ℕ) → check_poison_item M m p len poison ≢ undefined
  unfolding check_poison_item
  check_item_defined m p len poison = ground arith

  check_cpus_defined :
      (range : MempoolRange) (n i o : ℕ) (m : Mem)
      → check_poison_cpus M n i pool range o m ≢ undefined
  unfolding check_poison_cpus
  check_cpus_defined range zero i o m = λ h. cc
  check_cpus_defined range (suc n) i o m =
      >>-≢-undefined _ _ (check_item_defined m _ _ _) (check_cpus_defined range n (i + 1) o m)

  check_init_defined : (o : Option ℕ) (m : Mem) → check_poison_init M pool o m ≢ undefined
  unfolding check_poison_init
  check_init_defined none m = λ h. cc
  check_init_defined (some p) m = check_item_defined m p pool.item_len pool.attr.poison

  check_defined :
      (range : MempoolRange) (o : ℕ) (m : Mem)
      → percpu_check_poison_item M pool range o m ≢ undefined
  unfolding percpu_check_poison_item
  check_defined range o m =
      if-≢-undefined pool.attr.robust_set _ (done tt)
        (>>-≢-undefined _ _ (check_init_defined (range_init_ptr range o) m)
          (check_cpus_defined range (nr_cpus pool.attr) 0 o m))
        (λ h. cc)

  -- The items of a range from an offset on, as far as any was ever allocated.
  abbrev pub ArePoisonedFrom : MempoolRange → ℕ → Mem → Type 0
  ArePoisonedFrom range item_offset m =
      (i : ℕ)
      → item_offset + i * pool.item_len < range.next_unused
      → IsPoisoned M pool range (item_offset + i * pool.item_len) m

  -- All of them, in each range of a list.
  abbrev pub ArePoisoned : List MempoolRange → Mem → Type 0
  ArePoisoned [] m = Unit
  ArePoisoned (range ∷ ranges) m = ArePoisonedFrom range 0 m × ArePoisoned ranges m

  module _ (range : MempoolRange) (o : ℕ) (m : Mem) where
    step : (i : ℕ) → o + pool.item_len + i * pool.item_len ≡ o + suc i * pool.item_len
    step i = omega (arith, suc-mul i pool.item_len)

    from_here :
        IsPoisoned M pool range o m
        → ArePoisonedFrom range (o + pool.item_len) m
        → ArePoisonedFrom range o m
    from_here here later zero h =
        subst (λ a. IsPoisoned M pool range a m)
          (let same : o ≡ o + 0 * pool.item_len = omega (arith, zero-mul pool.item_len) in same)
          here
    from_here here later (suc i) h =
        subst (λ a. IsPoisoned M pool range a m) (step i)
          (later i (subst (λ a. a < range.next_unused) (sym (step i)) h))

    at_here : o < range.next_unused → ArePoisonedFrom range o m → IsPoisoned M pool range o m
    at_here lt all =
        let same : o + 0 * pool.item_len ≡ o = omega (arith, zero-mul pool.item_len) in
        subst (λ a. IsPoisoned M pool range a m) same (all 0 (omega (arith, same)))

    after_here : ArePoisonedFrom range o m → ArePoisonedFrom range (o + pool.item_len) m
    after_here all i h =
        subst (λ a. IsPoisoned M pool range a m) (sym (step i))
          (all (suc i) (subst (λ a. a < range.next_unused) (step i) h))

  module _ (robust : pool.attr.robust_set ≡ true) (some_byte : 0 < pool.item_len) where
    check_item :
        (range : MempoolRange) (o : ℕ) (m : Mem)
        → Decides (IsPoisoned M pool range o m) (percpu_check_poison_item M pool range o m)
    check_item range o m =
        Decides-of_iff _ (check_defined range o m)
          (percpu_check_poison_item_iff M pool range o m robust)

    check_offsets-Decides :
        (range : MempoolRange) (n o : ℕ) (m : Mem)
        → 0 < n
        → range.next_unused < o + n
        → Decides (ArePoisonedFrom range o m) (check_offsets M n pool range o m)
    unfolding check_offsets
    check_offsets-Decides range zero o m fuel h = absurd (omega arith)
    check_offsets-Decides range (suc n) o m fuel h =
        Decides-if (ltb o range.next_unused)
          (λ e.
            let lt : o < range.next_unused = ground arith in
            Decides-map
              (
                λ p. from_here range o m p.0 p.1,
                λ all. (at_here range o m lt all, after_here range o m all),
              )
              (Decides-then (check_item range o m)
                (check_offsets-Decides range n (o + pool.item_len) m (omega arith) (omega arith))))
          (λ e.
            let le : range.next_unused ≤ o = ground arith in passes (λ i h. absurd (omega arith)))

    -- For a robust pool `check_pool_poison` aborts unless every item that was ever allocated is
    -- poisoned.
    pub check_ranges-Decides :
        (ranges : List MempoolRange) (m : Mem)
        → Decides (ArePoisoned ranges m) (check_ranges M pool ranges m)
    unfolding check_ranges check_range_poison
    check_ranges-Decides [] m = passes tt
    check_ranges-Decides (range ∷ ranges) m =
        Decides-then
          (check_offsets-Decides range (suc range.next_unused) 0 m (omega arith) (omega arith))
          (check_ranges-Decides ranges m)
