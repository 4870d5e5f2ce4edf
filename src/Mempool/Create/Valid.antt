-- ===== src/Mempool/Create/Valid.antt =====
-- What a pool can rely on.
use librseq.Base.{
  subst, sym, ℕ, ◌^◌, ◌≤◌, ◌<◌, ◌≡◌, true, Option, none, some, refl, arith, Bool-cases, inl, inr,
  ltb, ◌==◌, if◌then◌else◌,
}
use librseq.Base.Int.{pos_part, ℤ, pos, negsuc}
use librseq.Bits.{IsPow2}
use librseq.Utils.{
  OrderOf, is_pow2, is_pow2_iff, get_count_order_ulong, get_count_order_ulong-OrderOf,
}
use librseq.Mempool.Types.{Attr, nr_cpus, percpu, global, done, MempoolType}
use librseq.Mempool.Create.{
  cow_zero, is_cow_init, with_cpus, Config, configure, config_order, config_attr, config_typed,
  checked, sizes_ok, set_type, set_max_nr_cpus, set_stride, set_poison, known_policy, given_attr,
}

-- What the rest of the allocator relies on: items of `2 ^ order` bytes with room for a free-list
-- node, in a stride that is a power of two and holds whole pages, for one CPU at least, and poison
-- in a robust pool.
pub record IsValid (page_len item_len : ℕ) (c : Config) : Type 0 where
  pub item_is_pow2 : c.item_len ≡ 2 ^ c.order
  pub order_lt : c.order < 64
  pub node_fits : 8 ≤ c.item_len
  pub item_fits : item_len ≤ c.item_len
  pub stride_fits : c.item_len ≤ c.attr.stride
  pub stride_pages : page_len ≤ c.attr.stride
  pub stride_is_pow2 : IsPow2 c.attr.stride
  pub some_cpu : 0 < nr_cpus c.attr
  pub poisoned : c.attr.robust_set ≡ true → c.attr.poison_set ≡ true

set_max_nr_cpus-some :
    (detected : ℕ) (n : ℤ) {k : ℤ} → set_max_nr_cpus detected n ≡ some k → 0 < pos_part k
unfolding set_max_nr_cpus
set_max_nr_cpus-some detected (negsuc n) h = cc
set_max_nr_cpus-some detected (pos n) {k = k} h = elim (Bool-cases (n == 0)) [
  | inl zero ↦ elim (Bool-cases (detected == 0)) [
    | inl none_found ↦ cc
    | inr found ↦ let same : pos detected ≡ k = cc in rw (sym same) (ground arith)
  ]
  | inr positive ↦ let same : pos n ≡ k = cc in rw (sym same) (ground arith)
]

with_cpus-some :
    (attr : Attr) (o : Option ℤ) {a : Attr}
    → with_cpus attr o ≡ some a
    → (n : ℤ) × (o ≡ some n) × (record attr { max_nr_cpus = n } ≡ a)
unfolding with_cpus
with_cpus-some attr none h = cc
with_cpus-some attr (some n) h = (n, refl, cc)

set_type-some :
    (detected : ℕ) (t : MempoolType) (attr : Attr) {a : Attr}
    → set_type detected t attr ≡ some a
    → (0 < nr_cpus a) × (a.stride ≡ attr.stride)
unfolding set_type
set_type-some detected percpu attr {a = a} h =
    let (n, found, same) = with_cpus-some attr (set_max_nr_cpus detected attr.max_nr_cpus) h in
    rw (sym same) (set_max_nr_cpus-some detected attr.max_nr_cpus found, refl)
set_type-some detected global attr {a = a} h =
    let same : record attr {
      populate_policy = if is_cow_init attr.populate_policy then cow_zero else attr.populate_policy;
      max_nr_cpus = pos 1;
    }
        ≡ a =
      cc in
    rw (sym same) (omega arith, refl)

-- What the defaults leave, and the poison of a robust pool.
defaults :
    (attr : Attr)
    → (nr_cpus (set_poison attr) ≡ nr_cpus attr)
      × ((set_poison attr).stride ≡ attr.stride)
      × ((set_poison attr).robust_set ≡ true → (set_poison attr).poison_set ≡ true)
unfolding set_poison
defaults attr = elim (Bool-cases attr.robust_set) [
  | inl robust ↦ elim (Bool-cases attr.poison_set) [
    | inl set ↦ rw (robust, set) (refl, refl, λ h. refl)
    | inr unset ↦ rw (robust, unset) (refl, refl, λ h. refl)
  ]
  | inr plain ↦ rw plain (refl, refl, λ h. cc)
]

set_stride-lt : (attr : Attr) → attr.stride < 2 ^ 64 → (set_stride attr).stride < 2 ^ 64
unfolding set_stride
set_stride-lt attr h = ground arith

checked-some :
    (page_len order item_len : ℕ) (attr : Attr) {c : Config}
    → checked page_len order item_len attr ≡ some c
    → (sizes_ok page_len item_len attr ≡ true)
      × (record { order = order; item_len = item_len; attr = attr } ≡ c)
unfolding checked
checked-some page_len order item_len attr h = elim (Bool-cases (sizes_ok page_len item_len attr)) [
  | inl ok ↦ (ok, cc)
  | inr bad ↦ cc
]

sizes_ok-true :
    (page_len item_len : ℕ) (attr : Attr)
    → attr.stride < 2 ^ 64
    → 0 < item_len
    → sizes_ok page_len item_len attr ≡ true
    → (item_len ≤ attr.stride) × (page_len ≤ attr.stride) × IsPow2 attr.stride
unfolding sizes_ok
sizes_ok-true page_len item_len attr word some_bytes h =
    let fits : item_len ≤ attr.stride = ground arith in
    let pages : page_len ≤ attr.stride = ground arith in
    let pow2 : is_pow2 attr.stride ≡ true = ground arith in
    (
      fits,
      pages,
      elim ((is_pow2_iff attr.stride word).0 pow2) [ inl zero ↦ absurd (omega arith) | inr p ↦ p ],
    )

config_typed-some :
    (page_len order : ℕ) (o : Option Attr) {c : Config}
    → config_typed page_len order o ≡ some c
    → (a : Attr) × (o ≡ some a)
      × (checked page_len order (2 ^ order) (set_poison (set_stride a)) ≡ some c)
unfolding config_typed
config_typed-some page_len order none h = cc
config_typed-some page_len order (some a) h = (a, refl, h)

config_attr-IsValid :
    (page_len detected order item_len : ℕ) (attr : Attr) {c : Config}
    → attr.stride < 2 ^ 64
    → order < 64
    → item_len ≤ 2 ^ order
    → 8 ≤ 2 ^ order
    → config_attr page_len detected order attr ≡ some c
    → IsValid page_len item_len c
unfolding config_attr set_stride
config_attr-IsValid page_len detected order item_len attr word lt fits node h =
    elim (Bool-cases (known_policy attr.populate_policy)) [
      | inl known ↦
          let (a, typed, ok) =
            config_typed-some page_len order (set_type detected attr.type attr) (rw known at h) in
          let (cpus, stride) = set_type-some detected attr.type attr typed in
          let (same_cpus, same_stride, poisoned) = defaults (set_stride a) in
          let (sizes, same) =
            checked-some page_len order (2 ^ order) (set_poison (set_stride a)) ok in
          let (stride_fits, pages, pow2) =
            sizes_ok-true page_len (2 ^ order) (set_poison (set_stride a))
              (rw same_stride (set_stride-lt a (rw stride word))) (omega arith) sizes in
          subst (λ c. IsValid page_len item_len c) same
            (record {
              item_is_pow2 = refl;
              order_lt = lt;
              node_fits = node;
              item_fits = fits;
              stride_fits = stride_fits;
              stride_pages = pages;
              stride_is_pow2 = pow2;
              some_cpu = rw same_cpus cpus;
              poisoned = poisoned;
            })
      | inr unknown ↦ cc
    ]

config_order-IsValid :
    (page_len detected item_len len : ℕ) (attr : Attr) (o : Option ℕ) {c : Config}
    → attr.stride < 2 ^ 64
    → item_len ≤ len
    → 8 ≤ len
    → OrderOf len o
    → config_order page_len detected attr o ≡ done (some c)
    → IsValid page_len item_len c
unfolding config_order
config_order-IsValid page_len detected item_len len attr none word fits node order h = cc
config_order-IsValid page_len detected item_len len attr (some o) {c = c} word fits node order h =
    elim (Bool-cases (ltb o 64)) [
      | inl lt ↦
          let found : config_attr page_len detected o attr ≡ some c = cc in
          let room : len ≤ 2 ^ o = order.2.fits in
          config_attr-IsValid page_len detected o item_len attr word (ground arith) (omega arith)
            (omega arith) found
      | inr ge ↦ cc
    ]

-- Whatever attributes it is given, `rseq_mempool_create` goes on to allocate a pool only with a
-- valid configuration.
pub configure-IsValid :
    (page_len detected item_len : ℕ) (attr : Option Attr) {c : Config}
    → item_len < 2 ^ 64
    → (given_attr attr).stride < 2 ^ 64
    → configure page_len detected item_len attr ≡ done (some c)
    → IsValid page_len item_len c
unfolding configure
configure-IsValid page_len detected item_len attr fits word h =
    let len = if ltb item_len 8 then 8 else item_len in
    config_order-IsValid page_len detected item_len len (given_attr attr)
      (get_count_order_ulong len) word (ground arith) (ground arith)
      (get_count_order_ulong-OrderOf len (ground arith)) h
