-- ===== src/Mempool/Items/Words.antt =====
-- `rseq_cmp_item` and `rseq_poison_item` on one item.
use librseq.Base.{refl, ℕ, zero, suc, ◌+◌, ◌*◌, ◌^◌, ◌<◌, ◌≡◌, none, ◌∙◌, arith}
use librseq.Mempool.Memory.{Memory, store_word}
use librseq.Mempool.Memory.{Plain}
use librseq.Mempool.Memory.{
  Changes, WordsAt, store_word-Changes, load_bytes-Changes, load-store_word,
}
use librseq.Mempool.Items.{cmp_words, poison_words}

module _ (M : Memory) where
  open M use {Mem, load}

  -- `rseq_cmp_item` is 0 exactly if all words of the item have the value.
  pub cmp_words-none : (n : ℕ) (m : Mem) (p c : ℕ) → cmp_words M n m p c ≡ none → WordsAt M n m p c
  unfolding cmp_words
  cmp_words-none zero m p c h = tt
  cmp_words-none (suc n) m p c h = (ground arith, cmp_words-none n m (p + 8) c (ground arith))

  pub cmp_words-WordsAt :
      (n : ℕ) (m : Mem) (p c : ℕ) → WordsAt M n m p c → cmp_words M n m p c ≡ none
  unfolding cmp_words
  cmp_words-WordsAt zero m p c w = refl
  cmp_words-WordsAt (suc n) m p c w = ground (arith, cmp_words-WordsAt n m (p + 8) c w.1)

  pub poison_words-Changes :
      (n : ℕ) (m : Mem) (p c : ℕ) → Changes M m (poison_words M n m p c) p (8 * n)
  unfolding poison_words
  poison_words-Changes zero m p c b h = refl
  poison_words-Changes (suc n) m p c b h =
      poison_words-Changes n (store_word M m p c) (p + 8) c b
        (λ a lo hi. h a (omega arith) (omega arith))
      ∙ store_word-Changes M m p c b (λ a lo hi. h a (omega arith) (omega arith))

  pub poison_words-WordsAt :
      (n : ℕ) (m : Mem) (p c : ℕ)
      → c < 2 ^ 64
      → Plain M p (8 * n)
      → WordsAt M n (poison_words M n m p c) p c
  unfolding poison_words
  poison_words-WordsAt zero m p c fits h = tt
  poison_words-WordsAt (suc n) m p c fits h = (
    load_bytes-Changes M 8 (p + 8) (8 * n) p (poison_words-Changes n (store_word M m p c) (p + 8) c)
          (λ b lb hb a la ha. (
            λ e. absurd (omega arith),
            h a b (omega arith) (omega arith) (omega arith) (omega arith),
          ))
        ∙ load-store_word M m p c fits
            (λ a b la ha lb hb. h a b (omega arith) (omega arith) (omega arith) (omega arith)),
    poison_words-WordsAt n (store_word M m p c) (p + 8) c fits
        (λ a b la ha lb hb. h a b (omega arith) (omega arith) (omega arith) (omega arith)),
  )
