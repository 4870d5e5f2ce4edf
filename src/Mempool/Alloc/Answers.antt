-- ===== src/Mempool/Alloc/Answers.antt =====
-- What malloc answers when the init value fits.
use librseq.Base.{
  ℕ, ◌+◌, ◌≤◌, ◌≡◌, refl, sym, subst, arith, Bool, true, false, Option, none, some, List, [], ◌∷◌,
  ◌⊎◌, inl, inr, ltb, ◌==◌, if_false, if◌then◌else◌,
}
use librseq.Mempool.Types.{◌>>=◌, Mempool, MempoolRange, enomem, Outcome, done, aborted, undefined}
use librseq.Mempool.Memory.{Memory}
use librseq.Mempool.Bitmap.{set_alloc_slot}
use librseq.Mempool.Items.{percpu_check_poison_item}
use librseq.Mempool.Range.{RangeCalls, range_create}
use librseq.Mempool.Alloc.{
  malloc_in, Allocation, Init, find_range, internal_percpu_malloc, malloc_unused, malloc_free_list,
  create_range, malloc_in, room_left, end,
}

module _ (M : Memory) (K : RangeCalls M) (init : Init) where
  open M use {Mem}

  -- If malloc returns, it returns an item and sets no errno, or it returns `NULL` with ENOMEM.
  abbrev pub Answers : Outcome (Allocation M) → Type 0
  Answers (done a) =
      ((p : ℕ) × (a.addr ≡ some p) × (a.errno ≡ none)) ⊎ ((a.addr ≡ none) × (a.errno ≡ some enomem))
  Answers aborted = Unit
  Answers undefined = Unit

  after :
      {A : Type 0} (x : Outcome A) (f : A → Outcome (Allocation M))
      → ((a : A) → Answers (f a))
      → Answers (x >>= f)
  after (done a) f h = h a
  after aborted f h = tt
  after undefined f h = tt

  either :
      (b : Bool) (x y : Outcome (Allocation M))
      → Answers x
      → Answers y
      → Answers (if b then x else y)
  either true x y hx hy = hx
  either false x y hx hy = hy

  end_answers :
      (pool : Mempool) (range : MempoolRange) (o addr : ℕ) (m : Mem)
      → Answers (end M K init pool range o addr m)
  unfolding end
  end_answers pool range o addr m =
      after (set_alloc_slot pool range o) _ (λ range'. inl (addr, refl, refl))

  room_answers :
      (pool : Mempool) (range : MempoolRange) (m : Mem) → Answers (room_left M K init pool range m)
  unfolding room_left
  room_answers pool range m = end_answers _ _ _ _ m

  in_answers : (r : Option MempoolRange × Mempool × Mem) → Answers (malloc_in M K init r)
  unfolding malloc_in
  in_answers (none, pool, m) = inr (refl, refl)
  in_answers (some range, pool, m) = room_answers _ range m

  create_answers : (pool : Mempool) (m : Mem) → Answers (create_range M K init pool m)
  unfolding create_range
  create_answers pool m = after (range_create M K pool m) _ in_answers

  unused_answers :
      (ranges : List MempoolRange) (pool : Mempool) (m : Mem)
      → Answers (malloc_unused M K ranges init pool m)
  unfolding malloc_unused
  unused_answers [] pool m = create_answers pool m
  unused_answers (range ∷ ranges) pool m =
      either (ltb pool.attr.stride (range.next_unused + pool.item_len)) _ _ (create_answers pool m)
        (room_answers pool range m)

  list_answers :
      (pool : Mempool) (node : ℕ) (m : Mem) → Answers (malloc_free_list M K init pool node m)
  unfolding malloc_free_list
  list_answers pool node m = after (find_range pool.range_list _) _ (λ range.
      after (percpu_check_poison_item M pool range _ m) _ (λ u. end_answers _ range _ _ m))

  pub internal_percpu_malloc-Answers :
      (pool : Mempool) (m : Mem)
      → init.init_len ≤ pool.item_len
      → Answers (internal_percpu_malloc M K init pool m)
  unfolding internal_percpu_malloc
  internal_percpu_malloc-Answers pool m fits =
      let no_error : ltb pool.item_len init.init_len ≡ false = ground arith in
      subst Answers (sym (if_false _ _ _ no_error)) (
        either (pool.free_list_head == 0) _ _ (unused_answers pool.range_list pool m)
          (list_answers pool pool.free_list_head m))
