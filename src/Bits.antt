-- ===== src/Bits.antt =====
-- Masks as arithmetic, at every width: what `x & (2^k - 1)`, `x & ~(2^k - 1)` and a test of the
-- high bits mean.
mod Step
mod Single
pub use Single.*
pub use Step.{bit_and-zero}
use Step.{bit_and_step, by_halves}
use mathlib.Core.WellFounded
use native.Mathlib.Nat.{
  pow-le-pow_right, div-lt_iff_lt-mul, mod-eq_of_lt, mod_self, mul-mod_left, div-add-mod', div-one,
  add-zero, mul-one, pow-zero, add-suc, pow-suc, one-le-pow, mul_assoc, div-div-eq-div-mul,
  div-add-mod,
}
use librseq.Base.{
  ℕ, zero, suc, ◌+◌, ◌-◌, ◌*◌, ◌/◌, ◌%◌, ◌^◌, ◌≤◌, ◌<◌, bit_and, ◌≡◌, refl, ap, ◌∙◌, sym, ◌⊎◌, inl,
  inr, arith, lt_wf, ℕ_discrete, dec_lt,
}

-- Words of 64 bits, the `unsigned long`, `size_t` and `uintptr_t` of an LP64 target.
abbrev pub u64_mod : ℕ
u64_mod = 2 ^ 64

abbrev pub u64 : ℕ → ℕ
u64 n = n % 2 ^ 64

-- `~m` on 64 bits.
abbrev pub bit_not : ℕ → ℕ
bit_not m = 2 ^ 64 - 1 - m % 2 ^ 64

pow-suc' : (k : ℕ) → 2 ^ suc k ≡ 2 * 2 ^ k
pow-suc' k = omega (arith, pow-suc 2 k)

pub pow-add : (b n m : ℕ) → b ^ (n + m) ≡ b ^ n * b ^ m
pow-add b n zero = rw (add-zero n, pow-zero b) (sym (mul-one _))
pow-add b n (suc m) =
    rw (add-suc n m, pow-suc b (n + m), pow-suc b m, pow-add b n m) (mul_assoc _ _ _)

pub two-pow-pos : (k : ℕ) → 0 < 2 ^ k
two-pow-pos k = one-le-pow k 2 (omega arith)

pub two-pow-lt : (a b : ℕ) → a < b → 2 ^ a < 2 ^ b
two-pow-lt a b h =
    let up : 2 ^ suc a ≤ 2 ^ b = pow-le-pow_right {n = 2} (omega arith) h in
    omega (arith, pow-suc' a, two-pow-pos a)

pub lt_of_two-pow-lt : (a b : ℕ) → 2 ^ a < 2 ^ b → a < b
lt_of_two-pow-lt a b h = elim (dec_lt a b) [
  | yes lt ↦ lt
  | no ge ↦
      let up : 2 ^ b ≤ 2 ^ a =
        pow-le-pow_right {n = 2} (omega arith) {i = b} {j = a} (omega arith) in
      absurd (omega arith)
]

pub mod-sub_mod : (n m : ℕ) → (n - n % m) % m ≡ 0
mod-sub_mod n m =
    let e : n - n % m ≡ n / m * m = omega (arith, div-add-mod' n m) in
    ap (λ (t : ℕ). t % m) e ∙ mul-mod_left (n / m) m

-- Division and remainder by `2 * m`, a digit at a time.
pub div-double : (a m : ℕ) → a / 2 / m ≡ a / (2 * m)
div-double a m = div-div-eq-div-mul a 2 m

pub mod-double : (a m : ℕ) → a % (2 * m) ≡ a / 2 % m * 2 + a % 2
mod-double a m =
    omega
      (arith, ap (λ (t : ℕ). m * t) (div-double a m), div-add-mod a (2 * m), div-add-mod (a / 2) m)

-- A mask of the `k` low bits is the remainder by `2 ^ k`.
pub bit_and_mask : (k a : ℕ) → bit_and a (2 ^ k - 1) ≡ a % 2 ^ k
bit_and_mask zero a = omega (arith, bit_and-zero a)
bit_and_mask (suc k) a =
    rw
      (
        bit_and_step a (2 ^ suc k - 1),
        pow-suc' k,
        half_mask,
        bit_and_mask k (a / 2),
        mod-double a (2 ^ k),
      )
      (omega (arith, two-pow-pos k))
  where
    half_mask : (2 * 2 ^ k - 1) / 2 ≡ 2 ^ k - 1
    half_mask = omega (arith, two-pow-pos k)

-- A mask of `w` bits above the `k` low ones.
pub bit_and_high : (k w a : ℕ) → bit_and a ((2 ^ w - 1) * 2 ^ k) ≡ a / 2 ^ k % 2 ^ w * 2 ^ k
bit_and_high zero w a = rw (mul-one (2 ^ w - 1), bit_and_mask w a, div-one a) (sym (mul-one _))
bit_and_high (suc k) w a =
    rw
      (
        bit_and_step a ((2 ^ w - 1) * 2 ^ suc k),
        pow-suc' k,
        even,
        halved,
        bit_and_high k w (a / 2),
        div-double a (2 ^ k),
      )
      (omega arith)
  where
    halved : (2 ^ w - 1) * (2 * 2 ^ k) / 2 ≡ (2 ^ w - 1) * 2 ^ k
    halved = omega arith

    even : (2 ^ w - 1) * (2 * 2 ^ k) % 2 ≡ 0
    even = omega arith

-- `x & ~(2^k - 1)` clears the `k` low bits of a word.
pub bit_and_align :
    (k a : ℕ) → k ≤ 64 → a < 2 ^ 64 → bit_and a (bit_not (2 ^ k - 1)) ≡ a - a % 2 ^ k
bit_and_align k a h fits =
    rw (mask, bit_and_high k (64 - k) a, mod-eq_of_lt below) (omega (arith, div-add-mod' a (2 ^ k)))
  where
    split : 2 ^ (64 - k) * 2 ^ k ≡ 2 ^ 64
    split =
        let whole : 64 - k + k ≡ 64 = omega arith in
        sym (pow-add 2 (64 - k) k) ∙ ap (λ (t : ℕ). 2 ^ t) whole

    small : 2 ^ k ≤ 2 ^ 64
    small = pow-le-pow_right {n = 2} (omega arith) h

    mask : bit_not (2 ^ k - 1) ≡ (2 ^ (64 - k) - 1) * 2 ^ k
    mask =
        let upper : 2 ^ (64 - k) - 1 + 1 ≡ 2 ^ (64 - k) = omega (arith, two-pow-pos (64 - k)) in
        omega (arith, split, small, two-pow-pos k, ap (λ (t : ℕ). t * 2 ^ k) upper)

    below : a / 2 ^ k < 2 ^ (64 - k)
    below = (div-lt_iff_lt-mul (two-pow-pos k)).1 (rw split fits)

-- A power of two, as `is_pow2` finds it.
pub data IsPow2 (x : ℕ) : Type 0 where
  power : (k : ℕ) → x ≡ 2 ^ k → IsPow2 x

bit_and_self : (a : ℕ) → bit_and a a ≡ a
bit_and_self =
    by_halves {P = λ a. bit_and a a ≡ a} refl (λ n _ half. omega (arith, bit_and_step n n, half))

doubled : {y x : ℕ} → IsPow2 y → x ≡ 2 * y → IsPow2 x
doubled (power k e) d = power (suc k) (omega (arith, pow-suc' k))

module _ (x : ℕ) where
  halve_even : x % 2 ≡ 0 → 0 < x → bit_and x (x - 1) ≡ 0 → bit_and (x / 2) (x / 2 - 1) ≡ 0
  halve_even even h e =
      let half : (x - 1) / 2 ≡ x / 2 - 1 = omega arith in
      omega (arith, bit_and_step x (x - 1), ap (bit_and (x / 2)) half)

  one_of_odd : x % 2 ≡ 1 → bit_and x (x - 1) ≡ 0 → x ≡ 1
  one_of_odd odd e =
      let half : (x - 1) / 2 ≡ x / 2 = omega arith in
      omega (arith, bit_and_step x (x - 1), ap (bit_and (x / 2)) half, bit_and_self (x / 2))

-- `x & (x - 1)` is zero only for zero and the powers of two.
pub IsPow2-of_bit_and : (x : ℕ) → 0 < x → bit_and x (x - 1) ≡ 0 → IsPow2 x
IsPow2-of_bit_and =
    by_halves {P = λ n. 0 < n → bit_and n (n - 1) ≡ 0 → IsPow2 n} (λ h. absurd (omega arith))
      (λ n _ ih h e. elim (ℕ_discrete (n % 2) 0) [
        | yes even ↦ doubled (ih (omega arith) (halve_even n even h e)) (omega arith)
        | no odd ↦ power 0 (one_of_odd n (omega arith) e)
      ])

pub bit_and-pow_pred : (k : ℕ) → bit_and (2 ^ k) (2 ^ k - 1) ≡ 0
bit_and-pow_pred k = bit_and_mask k (2 ^ k) ∙ mod_self (2 ^ k)
