-- ===== src/Mempool/Attr.antt =====
-- `rseq_mempool_attr_create` and the setters of src/rseq-mempool.c; `none` is a null `attr`, and the
-- result of a setter is its errno, if it fails, with the attributes.
use librseq.Base.{ℕ, Bool, true, false, Option, none, some}
use librseq.Base.Int.{ℤ, pos}
use librseq.Mempool.Types.{Attr, percpu, global, PopulatePolicy, cow_init, Errno, einval, Mempool}

-- All bytes zero, by `calloc`, and in the `attr = {}` of `rseq_mempool_create`.
abbrev pub zero_attr : Attr
zero_attr = record {
  init_set = false;
  robust_set = false;
  type = percpu;
  stride = 0;
  max_nr_cpus = pos 0;
  max_nr_ranges = 0;
  poison_set = false;
  poison = 0;
  populate_policy = cow_init;
}

unfoldable pub attr_create : (calloc : Bool) → Option Attr
attr_create true = some zero_attr
attr_create false = none

abbrev pub Setter : Type 0
Setter = Option Attr → Option Errno × Option Attr

-- `if (!attr) { errno = EINVAL; return -1; }`.
unfoldable pub setter : (Attr → Attr) → Setter
setter write none = (some einval, none)
setter write (some attr) = (none, some (write attr))

unfoldable pub attr_set_init : Setter
attr_set_init = setter (λ attr. record attr { init_set = true; populate_policy = cow_init })

unfoldable pub attr_set_robust : Setter
attr_set_robust = setter (λ attr. record attr { robust_set = true })

unfoldable pub attr_set_percpu : ℕ → ℤ → Setter
attr_set_percpu stride max_nr_cpus =
    setter (λ attr. record attr { type = percpu; stride = stride; max_nr_cpus = max_nr_cpus })

unfoldable pub attr_set_global : ℕ → Setter
attr_set_global stride =
    setter (λ attr. record attr { type = global; stride = stride; max_nr_cpus = pos 0 })

unfoldable pub attr_set_max_nr_ranges : ℕ → Setter
attr_set_max_nr_ranges n = setter (λ attr. record attr { max_nr_ranges = n })

unfoldable pub attr_set_poison : ℕ → Setter
attr_set_poison poison = setter (λ attr. record attr { poison_set = true; poison = poison })

unfoldable pub attr_set_populate_policy : PopulatePolicy → Setter
attr_set_populate_policy policy = setter (λ attr. record attr { populate_policy = policy })

-- `rseq_mempool_get_max_nr_cpus`; `none` is -1 with `EINVAL`.
unfoldable pub get_max_nr_cpus : Option Mempool → Option ℤ
get_max_nr_cpus none = none
get_max_nr_cpus (some pool) = elim pool.attr.type [
  | percpu ↦ some pool.attr.max_nr_cpus
  | global ↦ none
]
