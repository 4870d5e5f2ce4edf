-- ===== src/Mempool/Memory/Defs.antt =====
-- Bytes and words of a memory, `memcpy`, `bzero`, `memcmp`.
use librseq.Base.{
  ℕ, zero, suc, ◌+◌, ◌*◌, ◌/◌, ◌%◌, ◌<◌, Bool, true, ◌≡◌, ◌≢◌, List, [], ◌∷◌, ◌==◌, ◌&&◌,
}

-- `load m a` is the byte that the process reads at `a`. A private copy-on-write mapping shows the
-- bytes of the shared mapping behind it until its page is written: `Follows a b` holds where a
-- write to `a` may change what is read at another address `b`.
pub record Memory : Type 1 where
  pub Mem : Type 0
  pub load : Mem → ℕ → ℕ
  pub store : Mem → ℕ → ℕ → Mem
  pub Follows : ℕ → ℕ → Type 0
  -- The bytes of an `intptr_t` in the critical sections; the allocator is modelled with eight.
  pub word_bytes : ℕ
  pub load-lt : (m : Mem) (a : ℕ) → load m a < 256
  pub load-store_self : (m : Mem) (a v : ℕ) → v < 256 → load (store m a v) a ≡ v
  pub load-store_ne :
      (m : Mem) (a b v : ℕ) → a ≢ b → ¬ (Follows a b) → load (store m a v) b ≡ load m b

module _ (M : Memory) where
  open M use {Mem, load, store}

  -- A little-endian word of `n` bytes; `intptr_t` has eight.
  unfoldable pub load_bytes : ℕ → Mem → ℕ → ℕ
  load_bytes zero m a = 0
  load_bytes (suc n) m a = load m a + 256 * load_bytes n m (a + 1)

  unfoldable pub store_bytes : ℕ → Mem → ℕ → ℕ → Mem
  store_bytes zero m a v = m
  store_bytes (suc n) m a v = store_bytes n (store m a (v % 256)) (a + 1) (v / 256)

  abbrev pub load_word : Mem → ℕ → ℕ
  load_word m a = load_bytes 8 m a

  abbrev pub store_word : Mem → ℕ → ℕ → Mem
  store_word m a v = store_bytes 8 m a v

  -- `memcpy` from a buffer of the caller, and `bzero`.
  unfoldable pub memcpy : Mem → ℕ → List ℕ → Mem
  memcpy m p [] = m
  memcpy m p (v ∷ vs) = memcpy (store m p v) (p + 1) vs

  unfoldable pub bzero : Mem → ℕ → ℕ → Mem
  bzero m p zero = m
  bzero m p (suc n) = bzero (store m p 0) (p + 1) n

  -- `!memcmp(src, p, len)`.
  unfoldable pub same_bytes : Mem → ℕ → List ℕ → Bool
  same_bytes m p [] = true
  same_bytes m p (v ∷ vs) = (load m p == v) && same_bytes m (p + 1) vs
