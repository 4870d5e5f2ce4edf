-- ===== src/Mempool/Memory/Frame.antt =====
-- What a write may change, and words under such a write.
use librseq.Base.{
  subst, ℕ_discrete, dec_lt, ℕ, zero, suc, ◌+◌, ◌*◌, ◌^◌, ◌≤◌, ◌<◌, ◌≡◌, refl, ap, ap₂, ◌∙◌, List,
  arith, length, length-replicate,
}
use librseq.Mempool.Memory.Defs.{Memory, load_bytes, load_word, store_word, memcpy, bzero}
use librseq.Mempool.Memory.Words.{
  bytes_of, value_of, bytes_of-AllBytes, value_of-bytes_of, Clear, Apart, Plain, load-memcpy_ne,
  read-memcpy_self, store_bytes_as_memcpy, load_bytes_as_read, bzero_as_memcpy,
}

module _ (M : Memory) where
  open M use {Mem, load, store, load-store_self}

  -- `m'` differs from `m` at most in the `n` bytes from `p` on, and in what follows these.
  abbrev pub Changes : Mem → Mem → ℕ → ℕ → Type 0
  Changes m m' p n = (b : ℕ) → Clear M p n b → load m' b ≡ load m b

  pub memcpy-Changes : (m : Mem) (p : ℕ) (vs : List ℕ) → Changes m (memcpy M m p vs) p (length vs)
  memcpy-Changes m p vs b h = load-memcpy_ne M m p b vs h

  pub store_word-Changes : (m : Mem) (p v : ℕ) → Changes m (store_word M m p v) p 8
  store_word-Changes m p v b h =
      rw (store_bytes_as_memcpy M 8 m p v) (load-memcpy_ne M m p b (bytes_of 8 v) h)

  pub bzero-Changes : (m : Mem) (p n : ℕ) → Changes m (bzero M m p n) p n
  bzero-Changes m p n b h =
      rw (bzero_as_memcpy M m p n)
        (load-memcpy_ne M m p b _ (λ a lo hi. h a lo (rw (length-replicate {A = ℕ} n 0) at hi)))

  pub load_bytes-Changes :
      (n p k q : ℕ) {m m' : Mem}
      → Changes m m' p k
      → Apart M p k q n
      → load_bytes M n m' q ≡ load_bytes M n m q
  unfolding load_bytes
  load_bytes-Changes zero p k q c h = refl
  load_bytes-Changes (suc n) p k q c h =
      ap₂ (λ (x y : ℕ). x + 256 * y) (c q (h q (omega arith) (omega arith)))
        (load_bytes-Changes n p k (q + 1) c (λ b lo hi. h b (omega arith) (omega arith)))

  pub load-store_word :
      (m : Mem) (p v : ℕ) → v < 2 ^ 64 → Plain M p 8 → load_word M (store_word M m p v) p ≡ v
  load-store_word m p v fits h =
      rw (store_bytes_as_memcpy M 8 m p v, load_bytes_as_read M 8 (memcpy M m p (bytes_of 8 v)) p)
        (ap value_of (read-memcpy_self M m p (bytes_of 8 v) (bytes_of-AllBytes 8 v) h)
          ∙ value_of-bytes_of 8 v fits)

  -- `n` words from `p` on, all equal to `c`.
  abbrev pub WordsAt : ℕ → Mem → ℕ → ℕ → Type 0
  WordsAt zero m p c = Unit
  WordsAt (suc n) m p c = (load_word M m p ≡ c) × WordsAt n m (p + 8) c

  pub WordsAt-Changes :
      (n p k q c : ℕ) {m m' : Mem}
      → Changes m m' p k
      → Apart M p k q (8 * n)
      → WordsAt n m q c
      → WordsAt n m' q c
  WordsAt-Changes zero p k q c d h w = tt
  WordsAt-Changes (suc n) p k q c d h w = (
    load_bytes-Changes 8 p k q d (λ b lo hi. h b (omega arith) (omega arith)) ∙ w.0,
    WordsAt-Changes n p k (q + 8) c d (λ b lo hi. h b (omega arith) (omega arith)) w.1,
  )

  -- `n` bytes from `p` on, all zero.
  abbrev pub ZeroAt : Mem → ℕ → ℕ → Type 0
  ZeroAt m p n = (b : ℕ) → p ≤ b → b < p + n → load m b ≡ 0

  pub bzero-ZeroAt : (n : ℕ) (m : Mem) (p : ℕ) → Plain M p n → ZeroAt (bzero M m p n) p n
  unfolding bzero
  bzero-ZeroAt zero m p h b lo hi = absurd (omega arith)
  bzero-ZeroAt (suc n) m p h b lo hi = elim (ℕ_discrete p b) [
    | yes e ↦ subst (λ b. load (bzero M (store m p 0) (p + 1) n) b ≡ 0) e first
    | no ne ↦
        bzero-ZeroAt n (store m p 0) (p + 1)
          (λ a b la ha lb hb. h a b (omega arith) (omega arith) (omega arith) (omega arith)) b
          (omega arith) (omega arith)
  ]
    where
      first : load (bzero M (store m p 0) (p + 1) n) p ≡ 0
      first =
          bzero-Changes (store m p 0) (p + 1) n p (λ a lo hi. (
            λ e. absurd (omega arith),
            h a p (omega arith) (omega arith) (omega arith) (omega arith),
          ))
          ∙ load-store_self m p 0 (omega arith)

  pub ZeroAt-load_bytes : (n : ℕ) (m : Mem) (p : ℕ) → load_bytes M n m p ≡ 0 → ZeroAt m p n
  unfolding load_bytes
  ZeroAt-load_bytes zero m p e b lo hi = absurd (omega arith)
  ZeroAt-load_bytes (suc n) m p e b lo hi = elim (ℕ_discrete p b) [
    | yes same ↦ subst (λ b. load m b ≡ 0) same (omega arith)
    | no ne ↦ ZeroAt-load_bytes n m (p + 1) (omega arith) b (omega arith) (omega arith)
  ]

  pub ZeroAt-words : (n : ℕ) (m : Mem) (p : ℕ) → WordsAt n m p 0 → ZeroAt m p (8 * n)
  ZeroAt-words zero m p w b lo hi = absurd (omega arith)
  ZeroAt-words (suc n) m p w b lo hi = elim (dec_lt b (p + 8)) [
    | yes lt ↦ ZeroAt-load_bytes 8 m p w.0 b lo lt
    | no ge ↦ ZeroAt-words n m (p + 8) w.1 b (omega arith) (omega arith)
  ]
