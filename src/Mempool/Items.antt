-- ===== src/Mempool/Items.antt =====
-- What src/rseq-mempool.c does to the bytes of an item, on every CPU and in the init values.
mod Cpus
pub mod Placed
mod Words
pub mod Writes
pub mod Check
pub mod RoundTrip
use librseq.Base.{ℕ, zero, suc, ◌+◌, ◌/◌, Option, none, some, List, ◌==◌, if◌then◌else◌}
use librseq.Mempool.Types.{nr_cpus, MempoolRange, Mempool, Outcome, done, aborted, ◌>>◌}
use librseq.Mempool.Addr.{range_percpu_ptr, range_init_ptr}
use librseq.Mempool.Memory.{Memory, load_word, store_word, memcpy, bzero, same_bytes}

-- `for (i = 0; i < max_nr_cpus; i++)`, with the rounds left.
unfoldable pub each_cpu {ℓ} : {S : Type ℓ} → ℕ → ℕ → (ℕ → S → S) → S → S
each_cpu zero i body s = s
each_cpu (suc n) i body s = each_cpu n (i + 1) body (body i s)

-- `if (rseq_cmp_item(…) == 0) continue;` before a write that makes `m'` of `m`.
unfoldable pub unless_same {ℓ} : {S : Type ℓ} → Option ℕ → S → S → S
unless_same none m m' = m
unless_same (some _) m m' = m'

-- The rounds of `for (offset = 0; offset < item_len; offset += sizeof(uintptr_t))`.
abbrev pub words : ℕ → ℕ
words item_len = (item_len + 7) / 8

module _ (M : Memory) where
  open M use {Mem, load, store}

  unfoldable pub cmp_words : ℕ → Mem → ℕ → ℕ → Option ℕ
  cmp_words zero m p value = none
  cmp_words (suc n) m p value =
      let v = load_word M m p in if v == value then cmp_words n m (p + 8) value else some v

  -- `rseq_cmp_item`: `none` is the result 0, else the unexpected value.
  unfoldable pub cmp_item : Mem → ℕ → ℕ → ℕ → Option ℕ
  unfolding cmp_words
  cmp_item m p item_len value = cmp_words (words item_len) m p value

  unfoldable pub poison_words : ℕ → Mem → ℕ → ℕ → Mem
  poison_words zero m p poison = m
  poison_words (suc n) m p poison = poison_words n (store_word M m p poison) (p + 8) poison

  -- `rseq_poison_item`.
  unfoldable pub poison_item : Mem → ℕ → ℕ → ℕ → Mem
  unfolding poison_words
  poison_item m p item_len poison = poison_words (words item_len) m p poison

  -- `if (init_p)` before a write into the init values.
  unfoldable pub on_init : Option ℕ → (ℕ → Mem → Mem) → Mem → Mem
  on_init none write m = m
  on_init (some init_p) write m = write init_p m

  -- `rseq_percpu_zero_item`.
  unfoldable pub percpu_zero_item : Mempool → MempoolRange → ℕ → Mem → Mem
  percpu_zero_item pool range item_offset m =
      each_cpu (nr_cpus pool.attr) 0
        (λ i m.
          let p = range_percpu_ptr range i item_offset pool.attr.stride in
          unless_same (cmp_item m p pool.item_len 0) m (bzero M m p pool.item_len))
        (on_init (range_init_ptr range item_offset) (λ init_p m. bzero M m init_p pool.item_len) m)

  -- `rseq_percpu_init_item`, with the bytes at `init_ptr`.
  unfoldable pub percpu_init_item : Mempool → MempoolRange → ℕ → List ℕ → Mem → Mem
  percpu_init_item pool range item_offset init m =
      each_cpu (nr_cpus pool.attr) 0
        (λ i m.
          let p = range_percpu_ptr range i item_offset pool.attr.stride in
          if same_bytes M m p init then m else memcpy M m p init)
        (on_init (range_init_ptr range item_offset) (λ init_p m. memcpy M m init_p init) m)

  -- `rseq_percpu_poison_item`.
  unfoldable pub percpu_poison_item : Mempool → MempoolRange → ℕ → Mem → Mem
  percpu_poison_item pool range item_offset m =
      each_cpu (nr_cpus pool.attr) 0
        (λ i m.
          let p = range_percpu_ptr range i item_offset pool.attr.stride in
          unless_same (cmp_item m p pool.item_len pool.attr.poison) m
            (poison_item m p pool.item_len pool.attr.poison))
        (on_init (range_init_ptr range item_offset)
          (λ init_p m. poison_item m init_p pool.item_len pool.attr.poison) m)

  -- `rseq_check_poison_item`.
  unfoldable pub check_poison_item : Mem → ℕ → ℕ → ℕ → Outcome (Unit {0})
  check_poison_item m p item_len poison = elim (cmp_item m p item_len poison) [
    | none ↦ done tt
    | some _ ↦ aborted
  ]

  unfoldable pub check_poison_cpus : ℕ → ℕ → Mempool → MempoolRange → ℕ → Mem → Outcome (Unit {0})
  check_poison_cpus zero i pool range item_offset m = done tt
  check_poison_cpus (suc n) i pool range item_offset m = do
    check_poison_item m (range_percpu_ptr range i item_offset pool.attr.stride) pool.item_len
        pool.attr.poison
    check_poison_cpus n (i + 1) pool range item_offset m

  -- `if (init_p)` before the check of the init values.
  unfoldable pub check_poison_init : Mempool → Option ℕ → Mem → Outcome (Unit {0})
  check_poison_init pool none m = done tt
  check_poison_init pool (some init_p) m = check_poison_item m init_p pool.item_len pool.attr.poison

  -- `rseq_percpu_check_poison_item`.
  unfoldable pub percpu_check_poison_item : Mempool → MempoolRange → ℕ → Mem → Outcome (Unit {0})
  percpu_check_poison_item pool range item_offset m =
      if pool.attr.robust_set
      then (do
        check_poison_init pool (range_init_ptr range item_offset) m
        check_poison_cpus (nr_cpus pool.attr) 0 pool range item_offset m)
      else done tt
