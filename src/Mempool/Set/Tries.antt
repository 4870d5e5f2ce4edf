-- ===== src/Mempool/Set/Tries.antt =====
-- `__rseq_mempool_set_malloc` asks the pools in the order of their size.
use librseq.Mempool.Alloc.Answers.{Answers, internal_percpu_malloc-Answers}
use librseq.Base.{
  ◌^◌, ◌-◌, if◌then◌else◌, ap₂, ◌∙◌, true, false, Option, zero, suc, if_true, if_false, refl, ◌∙◌,
  leb, Bool-cases, inr, inl, Option-cases, arith, sym, subst, ◌+◌, ℕ, suc, ◌<◌, ◌≤◌, ◌≡◌, none,
  some,
}
use librseq.Mempool.Types.{◌>>=◌, Errno, Mempool, enomem, Outcome, done, aborted, undefined}
use librseq.Utils.{OrderOf, get_count_order_ulong, get_count_order_ulong-OrderOf}
use librseq.Mempool.Memory.{Memory}
use librseq.Mempool.Range.{RangeCalls}
use librseq.Mempool.Alloc.{Init, Allocation, internal_percpu_malloc}
use librseq.Mempool.Set.{
  set_malloc, min_order, order_from, out_of_memory, again, find_pool, PoolSet, put_entry,
  SetAllocation,
}

order_from-le : (len : ℕ) (o : Option ℕ) → OrderOf len o → order_from o ≤ 64
unfolding order_from
order_from-le len none h = omega arith
order_from-le len (some order) h = ground arith

min_order-le : (len : ℕ) → len < 2 ^ 64 → min_order len ≤ 64
unfolding min_order
min_order-le len word =
    order_from-le len (get_count_order_ulong len) (get_count_order_ulong-OrderOf len word)

module _ (M : Memory) (K : RangeCalls M) (init : Init) where
  open M use {Mem}

  -- The pools are asked in ascending order of their item size, each once: an order with no pool, and
  -- a pool whose items are too small, are passed over, a pool that has no memory left is passed over
  -- as its malloc leaves it, and the first other one decides. Behind the last there is `NULL` with
  -- ENOMEM.
  pub data Tries : (set : PoolSet) (order : ℕ) (m : Mem) → Outcome (SetAllocation M) → Type 0 where
    exhausted :
        {set : PoolSet} {order : ℕ} {m : Mem}
        → 64 ≤ order
        → Tries set order m (done (record { addr = none; errno = some enomem; set = set; mem = m }))
    absent :
        {set : PoolSet} {order : ℕ} {m : Mem} {x : Outcome (SetAllocation M)}
        → order < 64
        → set.entries order ≡ none
        → Tries set (order + 1) m x
        → Tries set order m x
    too_small :
        {set : PoolSet} {order : ℕ} {m : Mem} {x : Outcome (SetAllocation M)} {pool : Mempool}
        → order < 64
        → set.entries order ≡ some pool
        → pool.item_len < init.init_len
        → Tries set (order + 1) m x
        → Tries set order m x
    refuses :
        {set : PoolSet} {order : ℕ} {m : Mem} {x : Outcome (SetAllocation M)} {pool : Mempool}
        {a : Allocation M}
        → order < 64
        → set.entries order ≡ some pool
        → init.init_len ≤ pool.item_len
        → internal_percpu_malloc M K init pool m ≡ done a
        → a.addr ≡ none
        → Tries (put_entry set order (some a.pool)) (order + 1) a.mem x
        → Tries set order m x
    gives :
        {set : PoolSet} {order : ℕ} {m : Mem} {pool : Mempool} {a : Allocation M} {p : ℕ}
        → order < 64
        → set.entries order ≡ some pool
        → init.init_len ≤ pool.item_len
        → internal_percpu_malloc M K init pool m ≡ done a
        → a.addr ≡ some p
        → Tries set order m (
            done (record {
              addr = some p;
              errno = none;
              set = put_entry set order (some a.pool);
              mem = a.mem;
            }))
    aborts :
        {set : PoolSet} {order : ℕ} {m : Mem} {pool : Mempool}
        → order < 64
        → set.entries order ≡ some pool
        → init.init_len ≤ pool.item_len
        → internal_percpu_malloc M K init pool m ≡ aborted
        → Tries set order m aborted
    strays :
        {set : PoolSet} {order : ℕ} {m : Mem} {pool : Mempool}
        → order < 64
        → set.entries order ≡ some pool
        → init.init_len ≤ pool.item_len
        → internal_percpu_malloc M K init pool m ≡ undefined
        → Tries set order m undefined

  -- What a round of the search finds.
  module _ (n order : ℕ) (set : PoolSet) where
    abbrev rest : Option (ℕ × Mempool)
    rest = find_pool n set (order + 1) init.init_len

    abbrev here : Option (ℕ × Mempool)
    here = find_pool (suc n) set order init.init_len

    find-absent : set.entries order ≡ none → here ≡ rest
    unfolding find_pool
    find-absent e = rw (e, find_pool) refl

    find-too_small :
        (pool : Mempool)
        → set.entries order ≡ some pool
        → leb init.init_len pool.item_len ≡ false
        → here ≡ rest
    unfolding find_pool
    find-too_small pool e small = rw (e, find_pool) (if_false _ _ _ small)

    find-fits :
        (pool : Mempool)
        → set.entries order ≡ some pool
        → leb init.init_len pool.item_len ≡ true
        → here ≡ some (order, pool)
    unfolding find_pool
    find-fits pool e fits = rw (e, find_pool) (if_true _ _ _ fits)

  -- From a search on: what stands before the pool that it finds is passed over.
  walk :
      (n order : ℕ) (set : PoolSet) (m : Mem) (x : Outcome (SetAllocation M))
      → order + n ≡ 64
      → (find_pool n set order init.init_len ≡ none
          → x ≡ done (record { addr = none; errno = some enomem; set = set; mem = m }))
      → ((order' : ℕ) (pool : Mempool)
          → find_pool n set order init.init_len ≡ some (order', pool)
          → order ≤ order'
          → order' < 64
          → set.entries order' ≡ some pool
          → init.init_len ≤ pool.item_len
          → Tries set order' m x)
      → Tries set order m x
  walk zero order set m x sum none_found found =
      subst (Tries set order m) (sym (none_found (unfold find_pool in refl)))
        (exhausted (omega arith))
  walk (suc n) order set m x sum none_found found = elim (Option-cases (set.entries order)) [
    | inl no_pool ↦
        let same = find-absent n order set no_pool in
        absent (omega arith) no_pool (
          walk n (order + 1) set m x (omega arith) (λ e. none_found (same ∙ e))
            (λ o pool e le. found o pool (same ∙ e) (omega arith)))
    | inr (pool, present) ↦ elim (Bool-cases (leb init.init_len pool.item_len)) [
      | inl fits ↦
          found order pool (find-fits n order set pool present fits) (omega arith) (omega arith)
            present (ground arith)
      | inr small ↦
          let same = find-too_small n order set pool present small in
          too_small (omega arith) present (ground arith) (
            walk n (order + 1) set m x (omega arith) (λ e. none_found (same ∙ e))
              (λ o pool e le. found o pool (same ∙ e) (omega arith)))
    ]
  ]

  module _ (set : PoolSet) (order : ℕ) (pool : Mempool) (m : Mem) (lt : order < 64)
      (present : set.entries order ≡ some pool) (fits : init.init_len ≤ pool.item_len)
      (rest : PoolSet → Mem → Outcome (SetAllocation M)) where
    abbrev left : Allocation M → PoolSet
    left a = put_entry set order (some a.pool)

    -- The result, by the address and errno.
    abbrev answer : Allocation M → Option ℕ → Option Errno → Outcome (SetAllocation M)
    answer a addr errno =
        if out_of_memory addr errno
        then rest (left a) a.mem
        else done (record { addr = addr; errno = errno; set = left a; mem = a.mem })

    -- After the malloc, with the tries that follow a refusal.
    decide :
        ((a : Allocation M) → Tries (left a) (order + 1) a.mem (rest (left a) a.mem))
        → (x : Outcome (Allocation M)) → internal_percpu_malloc M K init pool m ≡ x
        → Answers M K init x
        → Tries set order m (x >>= λ a. answer a a.addr a.errno)
    decide more aborted e h = aborts lt present fits e
    decide more undefined e h = strays lt present fits e
    decide more (done a) e (inl (p, given, quiet)) =
        subst (Tries set order m) (sym (ap₂ (answer a) given quiet)) (gives lt present fits e given)
    decide more (done a) e (inr (null, no_memory)) =
        subst (Tries set order m) (sym (ap₂ (answer a) null no_memory))
          (refuses lt present fits e null (more a))

  -- With fuel for each order that is left.
  again-Tries :
      (n order : ℕ) (set : PoolSet) (m : Mem)
      → order ≤ 64
      → 64 - order < n
      → Tries set order m (again M K n init set order m)
  unfolding again
  again-Tries zero order set m le fuel = absurd (omega arith)
  again-Tries (suc n) order set m le fuel =
      walk (64 - order) order set m (again M K (suc n) init set order m) (omega arith)
        (λ e. rw (e, again) refl)
        (λ order' pool e from lt present fits.
          rw (e, again)
            (decide set order' pool m lt present fits (λ s m'. again M K n init s (order' + 1) m')
              (λ a.
                again-Tries n (order' + 1) (put_entry set order' (some a.pool)) a.mem (omega arith)
                  (omega arith))
              (internal_percpu_malloc M K init pool m) refl
              (internal_percpu_malloc-Answers M K init pool m fits)))

  -- `__rseq_mempool_set_malloc` of a length that is a word comes to what `Tries` says, from the order
  -- of the length on, or from the least order of a pool, if that is larger: the pools that fit are
  -- asked in ascending order, each once, those that return `NULL` are passed over, and the first
  -- other one decides; behind the last there is `NULL` with ENOMEM.
  pub set_malloc-Tries :
      (set : PoolSet) (m : Mem)
      → init.init_len < 2 ^ 64
      → Tries set (min_order init.init_len) m (set_malloc M K init set m)
  unfolding set_malloc
  set_malloc-Tries set m word =
      again-Tries 65 (min_order init.init_len) set m (min_order-le init.init_len word) (omega arith)
