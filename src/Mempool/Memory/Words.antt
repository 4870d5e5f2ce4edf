-- ===== src/Mempool/Memory/Words.antt =====
-- What a write of bytes changes, and what it leaves. Every write of the allocator is a `memcpy` of
-- some bytes.
use native.Mathlib.Nat.{pow-suc}
use librseq.Base.{
  ℕ, zero, suc, ◌+◌, ◌*◌, ◌/◌, ◌%◌, ◌^◌, ◌≤◌, ◌<◌, true, ◌≡◌, refl, ◌≢◌, List, [], ◌∷◌, arith,
  length, replicate, ap, ap₂, ◌∙◌,
}
use librseq.Mempool.Memory.Defs.{Memory, load_bytes, store_bytes, memcpy, bzero, same_bytes}

-- The bytes of a value, lowest first, and the value of some bytes.
abbrev pub bytes_of : ℕ → ℕ → List ℕ
bytes_of zero v = []
bytes_of (suc n) v = v % 256 ∷ bytes_of n (v / 256)

abbrev pub value_of : List ℕ → ℕ
value_of [] = 0
value_of (b ∷ bs) = b + 256 * value_of bs

abbrev pub AllBytes : List ℕ → Type 0
AllBytes [] = Unit
AllBytes (b ∷ bs) = (b < 256) × AllBytes bs

pub bytes_of-AllBytes : (n v : ℕ) → AllBytes (bytes_of n v)
bytes_of-AllBytes zero v = tt
bytes_of-AllBytes (suc n) v = (omega arith, bytes_of-AllBytes n (v / 256))

pub length-bytes_of : (n v : ℕ) → length (bytes_of n v) ≡ n
length-bytes_of zero v = refl
length-bytes_of (suc n) v = ap suc (length-bytes_of n (v / 256))

pub bytes_of-value_of : (bs : List ℕ) → AllBytes bs → bytes_of (length bs) (value_of bs) ≡ bs
bytes_of-value_of [] h = refl
bytes_of-value_of (b ∷ bs) h =
    let low : (b + 256 * value_of bs) % 256 ≡ b = omega arith in
    let high : (b + 256 * value_of bs) / 256 ≡ value_of bs = omega arith in
    rw (low, high, bytes_of-value_of bs h.1)

pub value_of-bytes_of : (n v : ℕ) → v < 256 ^ n → value_of (bytes_of n v) ≡ v
value_of-bytes_of zero v h = omega arith
value_of-bytes_of (suc n) v h =
    omega (arith, value_of-bytes_of n (v / 256) (omega (arith, pow-suc 256 n)))

module _ (M : Memory) where
  open M use {Mem, load, store, Follows, load-lt, load-store_self, load-store_ne}

  -- The bytes read from `a` on.
  abbrev pub read : ℕ → Mem → ℕ → List ℕ
  read zero m a = []
  read (suc n) m a = load m a ∷ read n m (a + 1)

  -- No write into the `n` bytes from `p` on changes what is read at `b`.
  abbrev pub Clear : ℕ → ℕ → ℕ → Type 0
  Clear p n b = (a : ℕ) → p ≤ a → a < p + n → (a ≢ b) × ¬ (Follows a b)

  -- Nor what is read in the `k` bytes from `q` on.
  abbrev pub Apart : ℕ → ℕ → ℕ → ℕ → Type 0
  Apart p n q k = (b : ℕ) → q ≤ b → b < q + k → Clear p n b

  -- The `n` bytes from `p` on do not follow one another.
  abbrev pub Plain : ℕ → ℕ → Type 0
  Plain p n = (a b : ℕ) → p ≤ a → a < p + n → p ≤ b → b < p + n → ¬ (Follows a b)

  pub load-memcpy_ne :
      (m : Mem) (p b : ℕ) (vs : List ℕ)
      → Clear p (length vs) b
      → load (memcpy M m p vs) b ≡ load m b
  unfolding memcpy
  load-memcpy_ne m p b [] h = refl
  load-memcpy_ne m p b (v ∷ vs) h =
      load-memcpy_ne (store m p v) (p + 1) b vs (λ a lo hi. h a (omega arith) (omega arith))
      ∙ load-store_ne m p b v (h p (omega arith) (omega arith)).0
          (h p (omega arith) (omega arith)).1

  pub read-memcpy-Apart :
      (m : Mem) (p q k : ℕ) (vs : List ℕ)
      → Apart p (length vs) q k
      → read k (memcpy M m p vs) q ≡ read k m q
  read-memcpy-Apart m p q zero vs h = refl
  read-memcpy-Apart m p q (suc k) vs h =
      ap₂ ◌∷◌ (load-memcpy_ne m p q vs (h q (omega arith) (omega arith)))
        (read-memcpy-Apart m p (q + 1) k vs (λ b lo hi. h b (omega arith) (omega arith)))

  pub read-memcpy_self :
      (m : Mem) (p : ℕ) (vs : List ℕ)
      → AllBytes vs
      → Plain p (length vs)
      → read (length vs) (memcpy M m p vs) p ≡ vs
  unfolding memcpy
  read-memcpy_self m p [] fits h = refl
  read-memcpy_self m p (v ∷ vs) fits h =
      ap₂ ◌∷◌
        (load-memcpy_ne (store m p v) (p + 1) p vs (λ a lo hi. (
          λ e. absurd (omega arith),
          h a p (omega arith) (omega arith) (omega arith) (omega arith),
        ))
          ∙ load-store_self m p v fits.0)
        (read-memcpy_self (store m p v) (p + 1) vs fits.1
          (λ a b la ha lb hb. h a b (omega arith) (omega arith) (omega arith) (omega arith)))

  pub bzero_as_memcpy : (m : Mem) (p n : ℕ) → bzero M m p n ≡ memcpy M m p (replicate n 0)
  unfolding bzero memcpy
  bzero_as_memcpy m p zero = refl
  bzero_as_memcpy m p (suc n) = bzero_as_memcpy (store m p 0) (p + 1) n

  pub store_bytes_as_memcpy :
      (n : ℕ) (m : Mem) (p v : ℕ) → store_bytes M n m p v ≡ memcpy M m p (bytes_of n v)
  unfolding store_bytes memcpy
  store_bytes_as_memcpy zero m p v = refl
  store_bytes_as_memcpy (suc n) m p v =
      store_bytes_as_memcpy n (store m p (v % 256)) (p + 1) (v / 256)

  pub load_bytes_as_read : (n : ℕ) (m : Mem) (p : ℕ) → load_bytes M n m p ≡ value_of (read n m p)
  unfolding load_bytes
  load_bytes_as_read zero m p = refl
  load_bytes_as_read (suc n) m p = rw (load_bytes_as_read n m (p + 1))

  pub read-AllBytes : (n : ℕ) (m : Mem) (p : ℕ) → AllBytes (read n m p)
  read-AllBytes zero m p = tt
  read-AllBytes (suc n) m p = (load-lt m p, read-AllBytes n m (p + 1))

  pub length-read : (n : ℕ) (m : Mem) (p : ℕ) → length (read n m p) ≡ n
  length-read zero m p = refl
  length-read (suc n) m p = ap suc (length-read n m (p + 1))

  -- A comparison that finds no difference.
  pub same_bytes-read :
      (m : Mem) (p : ℕ) (vs : List ℕ) → same_bytes M m p vs ≡ true → read (length vs) m p ≡ vs
  unfolding same_bytes
  same_bytes-read m p [] h = refl
  same_bytes-read m p (v ∷ vs) h =
      ap₂ ◌∷◌ (ground arith) (same_bytes-read m (p + 1) vs (ground arith))
