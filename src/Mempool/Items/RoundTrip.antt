-- ===== src/Mempool/Items/RoundTrip.antt =====
-- A robust pool's poison: what `rseq_percpu_poison_item` writes passes the check.
use librseq.Base.{ℕ, ◌+◌, ◌^◌, ◌<◌, ◌≡◌, true, some, arith}
use librseq.Mempool.Types.{MempoolRange, Mempool, nr_cpus, done}
use librseq.Mempool.Addr.{range_init_ptr}
use librseq.Mempool.Memory.{Memory, WordsAt, WordsAt-Changes}
use librseq.Mempool.Items.{
  words, poison_item, percpu_poison_item, percpu_check_poison_item, on_init,
}
use librseq.Mempool.Items.Cpus.{each_cpu_inv}
use librseq.Mempool.Items.Placed.{IsPlaced, slot, slot-init-Apart, init-Plain}
use librseq.Mempool.Items.Words.{poison_words-WordsAt}
use librseq.Mempool.Items.Writes.{percpu_poison_item-WordsAt, poison_IsRound, poison_round}
use librseq.Mempool.Items.Check.{IsPoisoned, percpu_check_poison_item_iff, init_ptr_some}

module _ {M : Memory} {pool : Mempool} {range : MempoolRange} {o : ℕ}
    (placed : IsPlaced M pool range o) (fits : pool.attr.poison < 2 ^ 64) where
  open M use {Mem}
  open placed use {whole}

  poison_init :
      (m : Mem) (init : ℕ)
      → range.init ≡ some init
      → WordsAt M
          (words pool.item_len)
          (on_init M
            (range_init_ptr range o)
            (λ init_p m. poison_item M m init_p pool.item_len pool.attr.poison)
            m)
          (init + o)
          pool.attr.poison
  unfolding poison_item on_init
  poison_init m init e =
      rw (init_ptr_some M pool range o init e, on_init)
        (poison_words-WordsAt M (words pool.item_len) m (init + o) pool.attr.poison fits
          (rw whole (init-Plain placed init e)))

  -- `rseq_percpu_poison_item` poisons the item everywhere.
  pub percpu_poison_item-IsPoisoned :
      (m : Mem) → IsPoisoned M pool range o (percpu_poison_item M pool range o m)
  unfolding percpu_poison_item
  percpu_poison_item-IsPoisoned m = record {
    cpus = percpu_poison_item-WordsAt placed fits m;
    init_values = λ init e.
        each_cpu_inv (λ m. WordsAt M (words pool.item_len) m (init + o) pool.attr.poison)
          (nr_cpus pool.attr) (poison_round placed fits)
          (λ i s lt w.
            WordsAt-Changes M (words pool.item_len) (slot placed i) pool.item_len (init + o)
              pool.attr.poison ((poison_IsRound placed fits).local i s)
              (rw whole (
                slot-init-Apart placed init i pool.item_len pool.item_len e lt (omega arith)
                  (omega arith)))
              w)
          (nr_cpus pool.attr) 0 _ (omega arith) (poison_init m init e);
  }

  -- For a robust pool, the check of an item passes right after the item was poisoned.
  pub percpu_check_poison_item-percpu_poison_item :
      (m : Mem)
      → pool.attr.robust_set ≡ true
      → percpu_check_poison_item M pool range o (percpu_poison_item M pool range o m) ≡ done tt
  percpu_check_poison_item-percpu_poison_item m robust =
      (percpu_check_poison_item_iff M pool range o _ robust).1 (percpu_poison_item-IsPoisoned m)
