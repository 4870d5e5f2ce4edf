-- ===== src/Mempool/Memory/ByteMap.antt =====
-- A memory without mappings to share, for the examples.
use librseq.Base.{ℕ, ◌%◌, ◌==◌, if◌then◌else◌, arith}
use librseq.Mempool.Memory.Defs.{Memory}

abbrev pub plain : Memory
plain = record {
  Mem = ℕ → ℕ;
  load = λ m a. m a % 256;
  store = λ m a v b. if a == b then v else m b;
  Follows = λ _ _. ⊥;
  word_bytes = 8;
  load-lt = λ m a. omega arith;
  load-store_self = λ m a v h. ground arith;
  load-store_ne = λ m a b v ne _. ground arith;
}
