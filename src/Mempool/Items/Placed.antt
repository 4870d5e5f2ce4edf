-- ===== src/Mempool/Items/Placed.antt =====
-- Where an item lies: one slot of each CPU's area, and the areas are private to the CPUs.
use native.Mathlib.Nat.{mul-le-mul_left, mul-suc}
use librseq.Base.{refl, ◌∷◌, ℕ, zero, suc, ◌+◌, ◌*◌, ◌≤◌, ◌<◌, ◌≡◌, ◌≢◌, arith, dec_lt, ap₂, some}
use librseq.Mempool.Types.{MempoolRange, Mempool, nr_cpus}
use librseq.Mempool.Addr.{range_percpu_ptr}
use librseq.Mempool.Memory.{Memory}
use librseq.Mempool.Memory.{Apart, Plain, read}
use librseq.Mempool.Memory.{Changes}
use librseq.Mempool.Items.{words}

-- The item at `item_offset` of a range: it fits its stride and is made of words, no write into the
-- area of a CPU changes what is read elsewhere, and the init values, if any, follow the CPUs.
pub record IsPlaced (M : Memory) (pool : Mempool) (range : MempoolRange) (item_offset : ℕ)
    : Type 0 where
  pub fits : item_offset + pool.item_len ≤ pool.attr.stride
  pub whole : 8 * words pool.item_len ≡ pool.item_len
  pub private :
      (a b : ℕ)
      → range.base ≤ a
      → a < range.base + pool.attr.stride * nr_cpus pool.attr
      → ¬ (M.Follows a b)
  pub init_at :
      (init : ℕ)
      → range.init ≡ some init
      → (init ≡ range.base + pool.attr.stride * nr_cpus pool.attr)
        × ((a b : ℕ)
            → init ≤ a
            → a < init + pool.attr.stride
            → init ≤ b
            → b < init + pool.attr.stride
            → ¬ (M.Follows a b))

next_slot : (stride i j : ℕ) → i < j → stride * i + stride ≤ stride * j
next_slot stride i j h =
    omega (arith, mul-le-mul_left {m = suc i} {n = j} stride h, mul-suc stride i)

module _ {M : Memory} {pool : Mempool} {range : MempoolRange} {o : ℕ}
    (placed : IsPlaced M pool range o) where
  open placed use {fits, private, init_at}

  abbrev stride : ℕ
  stride = pool.attr.stride

  abbrev cpus : ℕ
  cpus = nr_cpus pool.attr

  -- The item of a CPU.
  abbrev pub slot : ℕ → ℕ
  slot i = range_percpu_ptr range i o pool.attr.stride

  pub slot-private :
      (i a b : ℕ) → i < cpus → slot i ≤ a → a < slot i + pool.item_len → ¬ (M.Follows a b)
  unfolding range_percpu_ptr
  slot-private i a b h lo hi = private a b (omega arith) (omega (arith, next_slot stride i cpus h))

  pub slot-Plain : (i : ℕ) → i < cpus → Plain M (slot i) pool.item_len
  slot-Plain i h a b la ha lb hb = slot-private i a b h la ha

  slot_ne :
      (i j a b : ℕ)
      → i ≢ j
      → slot i ≤ a
      → a < slot i + pool.item_len
      → slot j ≤ b
      → b < slot j + pool.item_len
      → a ≢ b
  unfolding range_percpu_ptr
  slot_ne i j a b ne la ha lb hb = elim (dec_lt i j) [
    | yes lt ↦ omega (arith, next_slot stride i j lt)
    | no ge ↦ omega (arith, next_slot stride j i (omega arith))
  ]

  pub slots-Apart :
      (i j n k : ℕ)
      → i < cpus
      → i ≢ j
      → n ≤ pool.item_len
      → k ≤ pool.item_len
      → Apart M (slot i) n (slot j) k
  slots-Apart i j n k h ne hn hk b lb hb a la ha =
      (slot_ne i j a b ne la (omega arith) lb (omega arith), slot-private i a b h la (omega arith))

  -- The same item in the init values, `init + item_offset`.
  pub init-Plain : (init : ℕ) → range.init ≡ some init → Plain M (init + o) pool.item_len
  init-Plain init e a b la ha lb hb =
      (init_at init e).1 a b (omega arith) (omega arith) (omega arith) (omega arith)

  pub slot-init-Apart :
      (init i n k : ℕ)
      → range.init ≡ some init
      → i < cpus
      → n ≤ pool.item_len
      → k ≤ pool.item_len
      → Apart M (slot i) n (init + o) k
  unfolding range_percpu_ptr
  slot-init-Apart init i n k e h hn hk b lb hb a la ha = (
    λ same. absurd (omega (arith, (init_at init e).0, next_slot stride i cpus h)),
    slot-private i a b h la (omega arith),
  )

pub read-Changes :
    (M : Memory) (n p k q : ℕ) {m m' : M.Mem}
    → Changes M m m' p k
    → Apart M p k q n
    → read M n m' q ≡ read M n m q
read-Changes M zero p k q c h = refl
read-Changes M (suc n) p k q c h =
    ap₂ ◌∷◌ (c q (h q (omega arith) (omega arith)))
      (read-Changes M n p k (q + 1) c (λ b lo hi. h b (omega arith) (omega arith)))
