-- ===== src/Mempool/Items/Writes.antt =====
-- What `rseq_percpu_zero_item`, `rseq_percpu_init_item` and `rseq_percpu_poison_item` leave on every
-- CPU, though they skip the CPUs that have the right content already.
use librseq.Base.{
  if◌then◌else◌, ◌∙◌, ℕ, ◌^◌, ◌≤◌, ◌<◌, ◌≡◌, ◌≢◌, refl, Bool, true, false, Option, none, some, List,
  length, arith,
}
use librseq.Mempool.Types.{MempoolRange, Mempool, nr_cpus}
use librseq.Mempool.Addr.{range_percpu_ptr}
use librseq.Mempool.Memory.{
  Memory, memcpy, bzero, same_bytes, read, AllBytes, Changes, WordsAt, ZeroAt, bzero-ZeroAt,
  bzero-Changes, memcpy-Changes, read-memcpy_self, same_bytes-read, ZeroAt-words, WordsAt-Changes,
}
use librseq.Mempool.Items.{
  unless_same, words, each_cpu, cmp_item, poison_item, percpu_zero_item, percpu_init_item,
  percpu_poison_item,
}
use librseq.Mempool.Items.Cpus.{each_cpu_all}
use librseq.Mempool.Items.Placed.{IsPlaced, slot, slot-Plain, slots-Apart, read-Changes}
use librseq.Mempool.Items.Words.{cmp_words-none, poison_words-Changes, poison_words-WordsAt}

unless_same-elim {ℓ κ} :
    {S : Type ℓ} (P : S → Type κ) (o : Option ℕ) (m m' : S)
    → (o ≡ none → P m)
    → P m'
    → P (unless_same o m m')
unfolding unless_same
unless_same-elim P none m m' same write = same refl
unless_same-elim P (some _) m m' same write = write

if-elim {ℓ κ} :
    {S : Type ℓ} (P : S → Type κ) (b : Bool) (m m' : S)
    → (b ≡ true → P m)
    → P m'
    → P (if b then m else m')
if-elim P true m m' same write = same refl
if-elim P false m m' same write = write

module _ {M : Memory} {pool : Mempool} {range : MempoolRange} {o : ℕ}
    (placed : IsPlaced M pool range o) where
  open M use {Mem, load}
  open placed use {whole}

  abbrev cpus : ℕ
  cpus = nr_cpus pool.attr

  -- What a round makes of memory: its CPU's item is good, and no more than this item changes.
  pub record IsRound {κ} (Good : ℕ → Mem → Type κ) (round : ℕ → Mem → Mem) : Type κ where
    pub made : (i : ℕ) (m : Mem) → i < cpus → Good i (round i m)
    pub local : (i : ℕ) (m : Mem) → Changes M m (round i m) (slot placed i) pool.item_len
    pub stable :
        (i j : ℕ) {m m' : Mem}
        → i < cpus
        → i ≢ j
        → Changes M m m' (slot placed i) pool.item_len
        → Good j m
        → Good j m'

  rounds_all {κ} :
      (Good : ℕ → Mem → Type κ) (round : ℕ → Mem → Mem)
      → IsRound Good round
      → (m : Mem) (j : ℕ) → j < cpus
      → Good j (each_cpu cpus 0 round m)
  rounds_all Good round r m j h =
      each_cpu_all Good cpus round r.made (λ i j s hi hj ne g. r.stable i j hi ne (r.local i s) g)
        cpus 0 j m (omega arith) (omega arith) (omega arith)

  abbrev zero_round : ℕ → Mem → Mem
  zero_round i m =
      unless_same (cmp_item M m (slot placed i) pool.item_len 0) m
        (bzero M m (slot placed i) pool.item_len)

  zero_IsRound : IsRound (λ i m. ZeroAt M m (slot placed i) pool.item_len) zero_round
  unfolding cmp_item
  zero_IsRound = record {
    made = λ i m h.
        unless_same-elim (λ m. ZeroAt M m (slot placed i) pool.item_len) _ m _
          (λ e. rw whole at (
            ZeroAt-words M (words pool.item_len) m (slot placed i)
              (cmp_words-none M _ m (slot placed i) 0 e)))
          (bzero-ZeroAt M pool.item_len m (slot placed i) (slot-Plain placed i h));
    local = λ i m.
        unless_same-elim (λ m'. Changes M m m' (slot placed i) pool.item_len) _ m _ (λ e b c. refl)
          (bzero-Changes M m (slot placed i) pool.item_len);
    stable = λ i j h ne c z b lo hi.
        c b (
          slots-Apart placed i j pool.item_len pool.item_len h ne (omega arith) (omega arith) b lo
            hi)
        ∙ z b lo hi;
  }

  -- After `rseq_percpu_zero_item` every byte of the item is zero, on every CPU.
  pub percpu_zero_item-ZeroAt :
      (m : Mem) (i : ℕ)
      → i < nr_cpus pool.attr
      → ZeroAt M
          (percpu_zero_item M pool range o m)
          (range_percpu_ptr range i o pool.attr.stride)
          pool.item_len
  unfolding percpu_zero_item
  percpu_zero_item-ZeroAt m i h = rounds_all _ zero_round zero_IsRound _ i h

  module _ (init : List ℕ) (fits : AllBytes init) (short : length init ≤ pool.item_len) where
    abbrev init_round : ℕ → Mem → Mem
    init_round i m =
        if same_bytes M m (slot placed i) init then m else memcpy M m (slot placed i) init

    init_IsRound : IsRound (λ i m. read M (length init) m (slot placed i) ≡ init) init_round
    init_IsRound = record {
      made = λ i m h.
          if-elim (λ m. read M (length init) m (slot placed i) ≡ init)
            (same_bytes M m (slot placed i) init) m _ (same_bytes-read M m (slot placed i) init)
            (read-memcpy_self M m (slot placed i) init fits
              (λ a b la ha lb hb. slot-Plain placed i h a b la (omega arith) lb (omega arith)));
      local = λ i m.
          if-elim (λ m'. Changes M m m' (slot placed i) pool.item_len)
            (same_bytes M m (slot placed i) init) m _ (λ e b c. refl)
            (λ b c. memcpy-Changes M m (slot placed i) init b (λ a lo hi. c a lo (omega arith)));
      stable = λ i j {m} {m'} h ne c g.
          read-Changes M (length init) (slot placed i) pool.item_len (slot placed j) c
            (slots-Apart placed i j pool.item_len (length init) h ne (omega arith) short)
          ∙ g;
    }

    -- After `rseq_percpu_init_item` the item begins with the caller's bytes, on every CPU.
    pub percpu_init_item-read :
        (m : Mem) (i : ℕ)
        → i < nr_cpus pool.attr
        → read M
            (length init)
            (percpu_init_item M pool range o init m)
            (range_percpu_ptr range i o pool.attr.stride)
          ≡ init
    unfolding percpu_init_item
    percpu_init_item-read m i h = rounds_all _ init_round init_IsRound _ i h

  module _ (fits : pool.attr.poison < 2 ^ 64) where
    abbrev pub poison_round : ℕ → Mem → Mem
    poison_round i m =
        unless_same (cmp_item M m (slot placed i) pool.item_len pool.attr.poison) m
          (poison_item M m (slot placed i) pool.item_len pool.attr.poison)

    pub poison_IsRound :
        IsRound
          (λ i m. WordsAt M (words pool.item_len) m (slot placed i) pool.attr.poison)
          poison_round
    unfolding cmp_item poison_item
    poison_IsRound = record {
      made = λ i m h.
          unless_same-elim (λ m. WordsAt M (words pool.item_len) m (slot placed i) pool.attr.poison)
            _ m _ (cmp_words-none M (words pool.item_len) m (slot placed i) pool.attr.poison)
            (poison_words-WordsAt M (words pool.item_len) m (slot placed i) pool.attr.poison fits
              (rw whole (slot-Plain placed i h)));
      local = λ i m.
          unless_same-elim (λ m'. Changes M m m' (slot placed i) pool.item_len) _ m _
            (λ e b c. refl)
            (rw whole at
              (poison_words-Changes M (words pool.item_len) m (slot placed i) pool.attr.poison));
      stable = λ i j {m} {m'} h ne c g.
          WordsAt-Changes M (words pool.item_len) (slot placed i) pool.item_len (slot placed j)
            pool.attr.poison c
            (rw whole
              (slots-Apart placed i j pool.item_len pool.item_len h ne (omega arith) (omega arith)))
            g;
    }

    -- After `rseq_percpu_poison_item` every word of the item is the poison, on every CPU.
    pub percpu_poison_item-WordsAt :
        (m : Mem) (i : ℕ)
        → i < nr_cpus pool.attr
        → WordsAt M
            (words pool.item_len)
            (percpu_poison_item M pool range o m)
            (range_percpu_ptr range i o pool.attr.stride)
            pool.attr.poison
    unfolding percpu_poison_item
    percpu_poison_item-WordsAt m i h = rounds_all _ poison_round poison_IsRound _ i h
