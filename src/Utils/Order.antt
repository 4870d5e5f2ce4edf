-- ===== src/Utils/Order.antt =====
-- `rseq_get_count_order_ulong` and `is_pow2`.
use librseq.Base.{
  ℕ, zero, suc, ◌+◌, ◌-◌, ◌^◌, ◌≤◌, ◌<◌, bit_and, true, ◌≡◌, refl, Option, none, some, ◌↔◌, ◌⊎◌,
  inl, inr, arith, ==_iff,
}
use librseq.Bits.{IsPow2, power, IsPow2-of_bit_and, bit_and-pow_pred, lt_of_two-pow-lt, u64}
use librseq.Utils.Defs.{get_count_order_ulong, is_pow2, fls_u64}
use librseq.Utils.Fls.{IsHighest, fls-IsHighest}

-- `o` is the least order for which `x ≤ 1 << o`.
pub record IsCountOrder (x o : ℕ) : Type 0 where
  pub fits : x ≤ 2 ^ o
  pub least : (p : ℕ) → x ≤ 2 ^ p → o ≤ p

order_of_high : (x r : ℕ) → 0 < x → IsHighest (x - 1) r → IsCountOrder x r
order_of_high x r h high = record { fits = omega (arith, high.high); least = least }
  where
    open high use {place, low}

    least : (p : ℕ) → x ≤ 2 ^ p → r ≤ p
    least p q = let below : r - 1 < p = lt_of_two-pow-lt (r - 1) p (omega arith) in omega arith

high-le : {x r : ℕ} → IsHighest x r → x < 2 ^ 64 → r ≤ 64
high-le {x} {r} high h =
    let below : r - 1 < 64 = lt_of_two-pow-lt (r - 1) 64 (omega (arith, high.low)) in
    omega (arith, high.place)

order_of_one : IsCountOrder 1 0
order_of_one = record { fits = omega arith; least = λ p h. omega arith }

-- What `rseq_get_count_order_ulong` returns for `x`.
abbrev pub OrderOf : ℕ → Option ℕ → Type 0
OrderOf x none = x ≡ 0
OrderOf x (some o) = (0 < x) × (o ≤ 64) × IsCountOrder x o

count_of_pos : (x : ℕ) → 0 < x → get_count_order_ulong x ≡ some (fls_u64 (x - 1))
unfolding get_count_order_ulong
count_of_pos x h = ground arith

count_of_zero : get_count_order_ulong 0 ≡ none
unfolding get_count_order_ulong
count_of_zero = refl

fls_u64-zero : fls_u64 (1 - 1) ≡ 0
unfolding fls_u64
fls_u64-zero = refl

-- `rseq_get_count_order_ulong` returns -1 for zero and for zero alone, and for any other word the
-- least order, at most 64, with `x ≤ 1 << order`.
pub get_count_order_ulong-OrderOf : (x : ℕ) → x < 2 ^ 64 → OrderOf x (get_count_order_ulong x)
get_count_order_ulong-OrderOf zero h = rw count_of_zero refl
get_count_order_ulong-OrderOf (suc zero) h =
    rw (count_of_pos 1 (omega arith), fls_u64-zero) (omega arith, omega arith, order_of_one)
get_count_order_ulong-OrderOf (suc (suc n)) h =
    let high : IsHighest (suc (suc n) - 1) (fls_u64 (suc (suc n) - 1)) =
      (fls-IsHighest (suc (suc n) - 1) (omega arith)).0 (omega arith) in
    rw (count_of_pos (suc (suc n)) (omega arith))
      (omega arith, high-le high (omega arith), order_of_high (suc (suc n)) _ (omega arith) high)

-- `is_pow2` holds of zero and of the powers of two, and of no other word.
pub is_pow2_iff : (x : ℕ) → x < 2 ^ 64 → (is_pow2 x ≡ true) ↔ ((x ≡ 0) ⊎ IsPow2 x)
unfolding is_pow2
is_pow2_iff zero h = (λ e. inl refl, λ e. refl)
is_pow2_iff (suc n) h =
    let pred : u64 (suc n + 2 ^ 64 - 1) ≡ suc n - 1 = omega arith in
    (
      λ e. inr (
          IsPow2-of_bit_and (suc n) (omega arith)
            (rw pred at ((==_iff (bit_and (suc n) (u64 (suc n + 2 ^ 64 - 1))) 0).0 e))),
      λ p. (==_iff _ _).1 (rw pred (backward p)),
    )
  where
    backward : (suc n ≡ 0) ⊎ IsPow2 (suc n) → bit_and (suc n) (suc n - 1) ≡ 0
    backward (inl e) = absurd (omega arith)
    backward (inr (power k e)) = rw e (bit_and-pow_pred k)
