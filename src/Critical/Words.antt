-- ===== src/Critical/Words.antt =====
-- The words of the critical sections: eight bytes, or four on an architecture of 32 bits.
use librseq.Base.{ℕ, zero, suc, ◌*◌, ◌%◌}
use librseq.Mempool.Memory.{Memory, load_bytes, store_bytes}

-- The number of values of `n` bytes.
abbrev pub width : ℕ → ℕ
width zero = 1
width (suc n) = 256 * width n

module _ (M : Memory) where
  open M use {Mem, word_bytes}

  -- The number of words, and the wrap-around of a sum.
  abbrev pub modulus : ℕ
  modulus = width word_bytes

  abbrev pub wrap : ℕ → ℕ
  wrap n = n % modulus

  abbrev pub load_long : Mem → ℕ → ℕ
  load_long m a = load_bytes M word_bytes m a

  abbrev pub store_long : Mem → ℕ → ℕ → Mem
  store_long m a v = store_bytes M word_bytes m a v
