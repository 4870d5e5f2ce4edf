-- ===== src/Mempool/Create.antt =====
-- `rseq_mempool_create` of src/rseq-mempool.c up to the range: what the arguments and the
-- attributes become.
pub mod Valid
pub mod Pool
pub mod Fresh
pub mod NewRange
pub mod Created
mod Examples
use librseq.Base.{
  ℕ, ◌+◌, ◌^◌, Bool, true, false, not, ◌&&◌, ◌||◌, Option, none, some, ltb, ◌==◌, if◌then◌else◌,
  max,
}
use librseq.Base.Int.{ℤ, pos, negsuc, pos_part, is_neg}
use librseq.Utils.{get_count_order_ulong, is_pow2}
use librseq.Mempool.Types.{
  Attr, MempoolType, percpu, global, PopulatePolicy, cow_init, cow_zero, unknown, mempool_stride,
  default_cow_init_poison_value, default_cow_zero_poison_value, Outcome, done, undefined,
}
use librseq.Mempool.Addr.{is_cow_init}
use librseq.Mempool.Attr.{zero_attr}

-- The item order and size, and the attributes of the new pool.
pub record Config : Type 0 where
  pub order : ℕ
  pub item_len : ℕ
  pub attr : Attr

-- "Validate that the pool populate policy requested is known."
unfoldable pub known_policy : PopulatePolicy → Bool
known_policy cow_init = true
known_policy cow_zero = true
known_policy (unknown _) = false

-- `attr.max_nr_cpus` of a per-CPU pool, with the value of `rseq_get_max_nr_cpus`.
unfoldable pub set_max_nr_cpus : (detected : ℕ) → ℤ → Option ℤ
set_max_nr_cpus detected (negsuc n) = none
set_max_nr_cpus detected (pos n) =
    if n == 0 then (if detected == 0 then none else some (pos detected)) else some (pos n)

-- The switch on `attr.type`; `none` is `EINVAL`.
unfoldable pub with_cpus : Attr → Option ℤ → Option Attr
with_cpus attr none = none
with_cpus attr (some n) = some (record attr { max_nr_cpus = n })

unfoldable pub set_type : (detected : ℕ) → MempoolType → Attr → Option Attr
set_type detected percpu attr = with_cpus attr (set_max_nr_cpus detected attr.max_nr_cpus)
set_type detected global attr = some (record attr {
  populate_policy = if is_cow_init attr.populate_policy then cow_zero else attr.populate_policy;
  max_nr_cpus = pos 1;
})

-- The default stride, and the default poison of a robust pool.
unfoldable pub set_stride : Attr → Attr
set_stride attr = record attr { stride = if attr.stride == 0 then mempool_stride else attr.stride }

unfoldable pub set_poison : Attr → Attr
set_poison attr =
    if attr.robust_set && not attr.poison_set
    then record attr {
      poison_set = true;
      poison =
          if is_cow_init attr.populate_policy
          then default_cow_init_poison_value
          else default_cow_zero_poison_value;
    }
    else attr

-- The last test of the sizes.
unfoldable pub sizes_ok : (page_len item_len : ℕ) → Attr → Bool
sizes_ok page_len item_len attr =
    not (ltb attr.stride item_len || ltb attr.stride page_len || not (is_pow2 attr.stride))

unfoldable pub checked : (page_len order item_len : ℕ) → Attr → Option Config
checked page_len order item_len attr =
    if sizes_ok page_len item_len attr
    then some (record { order = order; item_len = item_len; attr = attr })
    else none

unfoldable pub config_typed : (page_len order : ℕ) → Option Attr → Option Config
config_typed page_len order none = none
config_typed page_len order (some attr) =
    checked page_len order (2 ^ order) (set_poison (set_stride attr))

unfoldable pub config_attr : (page_len detected order : ℕ) → Attr → Option Config
config_attr page_len detected order attr =
    if known_policy attr.populate_policy
    then config_typed page_len order (set_type detected attr.type attr)
    else none

unfoldable pub given_attr : Option Attr → Attr
given_attr none = zero_attr
given_attr (some attr) = attr

-- The shift `1UL << order`, whose result C does not define for an order of 64.
unfoldable pub config_order : (page_len detected : ℕ) → Attr → Option ℕ → Outcome (Option Config)
config_order page_len detected attr none = done none
config_order page_len detected attr (some order) =
    if ltb order 64 then done (config_attr page_len detected order attr) else undefined

-- From the arguments of `rseq_mempool_create`; `none` is `NULL` with `EINVAL`.
unfoldable pub configure : (page_len detected item_len : ℕ) → Option Attr → Outcome (Option Config)
configure page_len detected item_len attr =
    config_order page_len detected (given_attr attr)
      (get_count_order_ulong (if ltb item_len 8 then 8 else item_len))
