-- ===== src/Mempool/Types.antt =====
-- The data of src/rseq-mempool.c: attributes, ranges, pools, and the constants.
use librseq.Base.{◌≡◌, refl, ℕ, Bool, Option, List}
use librseq.Base.Int.{ℤ, pos_part}

-- `POOL_SET_NR_ENTRIES`, `RSEQ_BITS_PER_LONG` on an LP64 target.
abbrev pub pool_set_nr_entries : ℕ
pool_set_nr_entries = 64

abbrev pub pool_header_nr_pages : ℕ
pool_header_nr_pages = 2

-- `POOL_SET_MIN_ENTRY`: the smallest item has 8 bytes.
abbrev pub pool_set_min_entry : ℕ
pool_set_min_entry = 3

abbrev pub bit_per_ulong : ℕ
bit_per_ulong = 64

abbrev pub default_cow_init_poison_value : ℕ
default_cow_init_poison_value = 0x5555_5555_5555_5555

abbrev pub default_cow_zero_poison_value : ℕ
default_cow_zero_poison_value = 0x0

-- `RSEQ_MEMPOOL_STRIDE` of rseq/mempool.h.
abbrev pub mempool_stride : ℕ
mempool_stride = 65536

-- `enum mempool_type`.
pub data MempoolType : Type 0 where
  percpu global : MempoolType

-- `enum rseq_mempool_populate_policy`, with the values that it does not name.
pub data PopulatePolicy : Type 0 where
  cow_init cow_zero : PopulatePolicy
  unknown : ℕ → PopulatePolicy

-- `struct rseq_mempool_attr`. The callback of `init_func` and its argument are parameters of the
-- functions that call it.
pub record Attr : Type 0 where
  pub init_set : Bool
  pub robust_set : Bool
  pub type : MempoolType
  pub stride : ℕ
  pub max_nr_cpus : ℤ
  pub max_nr_ranges : ℕ
  pub poison_set : Bool
  pub poison : ℕ
  pub populate_policy : PopulatePolicy

-- The rounds of `for (i = 0; i < max_nr_cpus; i++)`.
abbrev pub nr_cpus : Attr → ℕ
nr_cpus a = pos_part a.max_nr_cpus

-- `struct rseq_mempool_range`, at `base - RANGE_HEADER_OFFSET`. `none` is a null `init` or
-- `alloc_bitmap`; a bitmap is a list of `unsigned long`.
pub record MempoolRange : Type 0 where
  pub header : ℕ
  pub base : ℕ
  pub init : Option ℕ
  pub next_unused : ℕ
  pub mmap_addr : ℕ
  pub mmap_len : ℕ
  pub alloc_bitmap : Option (List ℕ)

-- `struct rseq_mempool`, the ranges in the order of `range_list`; 0 is the null free-list head.
pub record Mempool : Type 0 where
  pub range_list : List MempoolRange
  pub nr_ranges : ℕ
  pub item_len : ℕ
  pub item_order : ℕ
  pub free_list_head : ℕ
  pub attr : Attr

pub data Errno : Type 0 where
  einval enomem ebusy enosys : Errno

-- What a call comes to: it returns, it calls `abort()`, or its behaviour is undefined.
pub data Outcome {ℓ} (A : Type ℓ) : Type ℓ where
  done : A → Outcome A
  aborted : Outcome A
  undefined : Outcome A

infixl 5 ◌>>=◌ ◌>>◌
abbrev pub ◌>>=◌ {ℓ κ} : {A : Type ℓ} {B : Type κ} → Outcome A → (A → Outcome B) → Outcome B
done a >>= f = f a
aborted >>= f = aborted
undefined >>= f = undefined

abbrev pub ◌>>◌ {κ} : {B : Type κ} → Outcome (Unit {0}) → Outcome B → Outcome B
m >> k = m >>= λ _. k

-- Inversion of a sequence that returns.
pub >>=-eq-done {ℓ κ} :
    {A : Type ℓ} {B : Type κ} (m : Outcome A) (f : A → Outcome B) {b : B}
    → (m >>= f) ≡ done b
    → (a : A) × (m ≡ done a) × (f a ≡ done b)
>>=-eq-done (done a) f h = (a, refl, h)
>>=-eq-done aborted f h = cc
>>=-eq-done undefined f h = cc
