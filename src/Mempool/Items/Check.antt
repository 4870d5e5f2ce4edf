-- ===== src/Mempool/Items/Check.antt =====
-- `rseq_percpu_check_poison_item` against `rseq_percpu_poison_item`.
use librseq.Base.{
  ◌∙◌, sym, if_true, ℕ, zero, suc, ◌+◌, ◌*◌, ◌≤◌, ◌<◌, ◌≡◌, ◌↔◌, refl, true, Option, none, some,
  arith, subst, Option-cases, inl, inr, ℕ_discrete,
}
use librseq.Mempool.Types.{◌>>◌, >>=-eq-done, MempoolRange, Mempool, nr_cpus, done}
use librseq.Mempool.Addr.{range_percpu_ptr, range_init_ptr}
use librseq.Mempool.Memory.{Apart, Memory, WordsAt, WordsAt-Changes, Changes}
use librseq.Mempool.Items.{
  Outcome, check_poison_init, words, cmp_item, check_poison_item, check_poison_cpus,
  percpu_check_poison_item,
}
use librseq.Mempool.Items.Words.{cmp_words-none, cmp_words-WordsAt}

module _ (M : Memory) (pool : Mempool) (range : MempoolRange) (o : ℕ) where
  open M use {Mem, load}

  -- Every word of the item is the poison, on every CPU and in the init values if there are any.
  pub record IsPoisoned (m : Mem) : Type 0 where
    pub cpus :
        (i : ℕ)
        → i < nr_cpus pool.attr
        → WordsAt M
            (words pool.item_len)
            m
            (range_percpu_ptr range i o pool.attr.stride)
            pool.attr.poison
    pub init_values :
        (init : ℕ)
        → range.init ≡ some init
        → WordsAt M (words pool.item_len) m (init + o) pool.attr.poison

  check_item_done :
      (m : Mem) (p : ℕ)
      → (check_poison_item M m p pool.item_len pool.attr.poison ≡ done tt)
        ↔ WordsAt M (words pool.item_len) m p pool.attr.poison
  unfolding check_poison_item cmp_item
  check_item_done m p = (
    λ h. cmp_words-none M (words pool.item_len) m p pool.attr.poison (ground arith),
    λ w. rw (cmp_words-WordsAt M (words pool.item_len) m p pool.attr.poison w, check_poison_item),
  )

  check_cpus_sound :
      (n i j : ℕ) (m : Mem)
      → check_poison_cpus M n i pool range o m ≡ done tt
      → i ≤ j
      → j < i + n
      → WordsAt M
          (words pool.item_len)
          m
          (range_percpu_ptr range j o pool.attr.stride)
          pool.attr.poison
  unfolding check_poison_cpus
  check_cpus_sound zero i j m h lo hi = absurd (omega arith)
  check_cpus_sound (suc n) i j m h lo hi =
      let (u, first, rest) =
        >>=-eq-done
          (check_poison_item M m (range_percpu_ptr range i o pool.attr.stride) pool.item_len
            pool.attr.poison)
          (λ _. check_poison_cpus M n (i + 1) pool range o m) h in
      elim (ℕ_discrete i j) [
        | yes e ↦
            subst
              (λ j.
                WordsAt M (words pool.item_len) m (range_percpu_ptr range j o pool.attr.stride)
                  pool.attr.poison)
              e ((check_item_done m (range_percpu_ptr range i o pool.attr.stride)).0 first)
        | no ne ↦ check_cpus_sound n (i + 1) j m rest (omega arith) (omega arith)
      ]

  check_cpus_complete :
      (n i : ℕ) (m : Mem)
      → ((j : ℕ)
          → i ≤ j
          → j < i + n
          → WordsAt M
              (words pool.item_len)
              m
              (range_percpu_ptr range j o pool.attr.stride)
              pool.attr.poison)
      → check_poison_cpus M n i pool range o m ≡ done tt
  unfolding check_poison_cpus
  check_cpus_complete zero i m h = refl
  check_cpus_complete (suc n) i m h =
      rw
        ((check_item_done m (range_percpu_ptr range i o pool.attr.stride)).1
          (h i (omega arith) (omega arith)))
        (check_cpus_complete n (i + 1) m (λ j lo hi. h j (omega arith) (omega arith)))

  pub init_ptr_some : (init : ℕ) → range.init ≡ some init → range_init_ptr range o ≡ some (init + o)
  unfolding range_init_ptr
  init_ptr_some init e = rw (e, range_init_ptr)

  init_ptr_inv :
      (p : ℕ)
      → range_init_ptr range o ≡ some p
      → (init : ℕ) × (range.init ≡ some init) × (p ≡ init + o)
  unfolding range_init_ptr
  init_ptr_inv p h = elim (Option-cases range.init) [
    | inl e ↦ absurd (ground arith)
    | inr (init, e) ↦ (init, e, ground arith)
  ]

  check_init_done :
      (r : Option ℕ) (m : Mem)
      → (check_poison_init M pool r m ≡ done tt)
        ↔ ((p : ℕ) → r ≡ some p → WordsAt M (words pool.item_len) m p pool.attr.poison)
  unfolding check_poison_init
  check_init_done none m = (λ h p e. cc, λ h. refl)
  check_init_done (some q) m = (
    λ h p e.
        subst (λ p. WordsAt M (words pool.item_len) m p pool.attr.poison) (cc)
          ((check_item_done m q).0 h),
    λ h. (check_item_done m q).1 (h q refl),
  )

  -- For a robust pool `rseq_percpu_check_poison_item` returns exactly if the item is poisoned on
  -- every CPU and in the init values.
  pub percpu_check_poison_item_iff :
      (m : Mem)
      → pool.attr.robust_set ≡ true
      → (percpu_check_poison_item M pool range o m ≡ done tt) ↔ IsPoisoned m
  unfolding percpu_check_poison_item
  percpu_check_poison_item_iff m robust = (
    λ h. sound (sym run ∙ h),
    λ p.
        run
        ∙ rw ((check_init_done _ m).1 (inits p))
            (check_cpus_complete _ 0 m (λ j lo hi. p.cpus j (omega arith))),
  )
    where
      both : Outcome (Unit {0})
      both = do
        check_poison_init M pool (range_init_ptr range o) m
        check_poison_cpus M (nr_cpus pool.attr) 0 pool range o m

      run : percpu_check_poison_item M pool range o m ≡ both
      run = if_true both (done tt) pool.attr.robust_set robust

      sound : both ≡ done tt → IsPoisoned m
      sound h =
          let (u, first, rest) =
            >>=-eq-done (check_poison_init M pool (range_init_ptr range o) m)
              (λ _. check_poison_cpus M (nr_cpus pool.attr) 0 pool range o m) h in
          record {
            cpus = λ i lt. check_cpus_sound _ 0 i m rest (omega arith) (omega arith);
            init_values = λ init e. (check_init_done _ m).0 first (init + o) (init_ptr_some init e);
          }

      inits :
          IsPoisoned m
          → (p : ℕ) → range_init_ptr range o ≡ some p
          → WordsAt M (words pool.item_len) m p pool.attr.poison
      inits p q e = let (init, e1, e2) = init_ptr_inv q e in rw e2 (p.init_values init e1)

  -- What changes neither a CPU's item nor its init values keeps it poisoned.
  pub IsPoisoned-Changes :
      (p k : ℕ) {m m' : Mem}
      → Changes M m m' p k
      → ((i : ℕ)
          → i < nr_cpus pool.attr
          → Apart M p k (range_percpu_ptr range i o pool.attr.stride) (8 * words pool.item_len))
      → ((init : ℕ) → range.init ≡ some init → Apart M p k (init + o) (8 * words pool.item_len))
      → IsPoisoned m
      → IsPoisoned m'
  IsPoisoned-Changes p k c hc hi h = record {
    cpus = λ i lt.
        WordsAt-Changes M (words pool.item_len) p k _ pool.attr.poison c (hc i lt) (h.cpus i lt);
    init_values = λ init e.
        WordsAt-Changes M (words pool.item_len) p k _ pool.attr.poison c (hi init e)
          (h.init_values init e);
  }
