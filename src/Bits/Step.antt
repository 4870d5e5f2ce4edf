-- ===== src/Bits/Step.antt =====
-- `&` and `|` on the lowest binary digit. The native operations are recursions on digits with
-- fuel; here the fuel is dropped.
use mathlib.Core.WellFounded
use Prim.Native.Nat.{digits, bitwise, bit_and-bitwise, bit_or-bitwise}
use librseq.Base.{
  lt_wf, ◌<◌, ℕ, zero, suc, ◌+◌, ◌*◌, ◌/◌, ◌%◌, ◌≤◌, min, max, bit_and, bit_or, ◌≡◌, refl, arith,
}

module _ (rest : ℕ → ℕ) (op : ℕ → ℕ → ℕ) where
  enough : (a b n m : ℕ) → a ≤ n → a ≤ m → digits rest op n a b ≡ digits rest op m a b
  enough (suc a) b (suc n) (suc m) large large' =
      rw (enough (suc a / 2) (b / 2) n m (omega arith) (omega arith))
  enough (suc a) b zero m large large' = absurd (omega arith)
  enough (suc a) b (suc n) zero large large' = absurd (omega arith)
  enough zero b zero zero large large' = refl
  enough zero b zero (suc m) large large' = refl
  enough zero b (suc n) zero large large' = refl
  enough zero b (suc n) (suc m) large large' = refl

  lowest_digit :
      (b a : ℕ)
      → bitwise rest op (suc a) b ≡ 2 * bitwise rest op (suc a / 2) (b / 2) + op (suc a % 2) (b % 2)
  lowest_digit b a =
      omega (arith, enough (suc a / 2) (b / 2) a (suc a / 2) (omega arith) (omega arith))

pub bit_and_step : (a b : ℕ) → bit_and a b ≡ 2 * bit_and (a / 2) (b / 2) + min (a % 2) (b % 2)
bit_and_step (suc a) b = simp bit_and-bitwise (lowest_digit (λ _. 0) min b a)
bit_and_step zero b = simp bit_and-bitwise (omega arith)

pub bit_or_step : (a b : ℕ) → bit_or a b ≡ 2 * bit_or (a / 2) (b / 2) + max (a % 2) (b % 2)
bit_or_step (suc a) b = simp bit_or-bitwise (lowest_digit (λ rest. rest) max b a)
bit_or_step zero b = simp bit_or-bitwise (omega arith)

-- Induction that drops the lowest digit.
pub by_halves : {P : ℕ → Type 0} → P 0 → ((n : ℕ) → 0 < n → P (n / 2) → P n) → (a : ℕ) → P a
by_halves {P = P} none more a = WellFounded.induction lt_wf {C = P} a (from none more)
  where
    from :
        {P : ℕ → Type 0}
        → P 0
        → ((n : ℕ) → 0 < n → P (n / 2) → P n)
        → (n : ℕ) → ((m : ℕ) → m < n → P m)
        → P n
    from none more zero below = none
    from none more (suc n) below = more (suc n) (omega arith) (below (suc n / 2) (omega arith))

pub bit_and-zero : (a : ℕ) → bit_and a 0 ≡ 0
bit_and-zero =
    by_halves {P = λ a. bit_and a 0 ≡ 0} refl (λ n _ half. omega (arith, bit_and_step n 0, half))
