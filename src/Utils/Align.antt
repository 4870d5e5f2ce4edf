-- ===== src/Utils/Align.antt =====
-- `rseq_align` and `offset_align` at powers of two.
use native.Mathlib.Nat.{
  mod-mod_of_dvd, add-mod-mod, mod-lt, dvd-mul_left, add-mod_left, mod-eq-zero_of_dvd,
  pow-le-pow_right,
}
use librseq.Base.{ℕ, ◌+◌, ◌-◌, ◌%◌, ◌^◌, ◌≤◌, ◌<◌, ◌≡◌, sym, ap, ◌∙◌, subst, arith}
use librseq.Bits.{mod-sub_mod, bit_and_mask, bit_and_align, pow-add, two-pow-pos, u64}
use librseq.Utils.Defs.{align, offset_align}
use Prim.Native.Nat.{◌∣◌}

pub two-pow-dvd : (k n : ℕ) → k ≤ n → 2 ^ k ∣ 2 ^ n
two-pow-dvd k n h =
    let e : n - k + k ≡ n = omega arith in
    subst (λ t. 2 ^ k ∣ t) (sym (pow-add 2 (n - k) k) ∙ ap (λ (t : ℕ). 2 ^ t) e)
      (dvd-mul_left (2 ^ k) (2 ^ (n - k)))

pub two-pow-le : (k : ℕ) → k ≤ 63 → 2 ^ k ≤ 2 ^ 63
two-pow-le k h = pow-le-pow_right {n = 2} (omega arith) h

module _ (k : ℕ) (small : k ≤ 63) where
  -- `alignment - 1` in a word.
  pub mask_of_align : u64 (2 ^ k + 2 ^ 64 - 1) ≡ 2 ^ k - 1
  mask_of_align = omega (arith, two-pow-pos k, two-pow-le k small)

  offset_as_mod : (p : ℕ) → offset_align p (2 ^ k) ≡ (2 ^ k + 2 ^ 64 - p) % 2 ^ k
  unfolding offset_align
  offset_as_mod p =
      rw (mask_of_align, bit_and_mask k (u64 (2 ^ k + 2 ^ 64 - p)))
        (mod-mod_of_dvd (2 ^ k) (2 ^ k + 2 ^ 64 - p) (two-pow-dvd k 64 (omega arith)))

-- Adding `offset_align(p, 2^k)` moves `p` up to a multiple of `2^k`, by less than `2^k`.
pub offset_align_lem :
    (k p : ℕ)
    → k ≤ 63
    → p < 2 ^ 64
    → ((p + offset_align p (2 ^ k)) % 2 ^ k ≡ 0) × (offset_align p (2 ^ k) < 2 ^ k)
offset_align_lem k p small fits = rw (offset_as_mod k small p) (
  add-mod-mod p (2 ^ k + 2 ^ 64 - p) (2 ^ k)
      ∙ ap (λ (t : ℕ). t % 2 ^ k) total
      ∙ add-mod_left (2 ^ k) (2 ^ 64)
      ∙ mod-eq-zero_of_dvd (2 ^ k) (two-pow-dvd k 64 (omega arith)),
  mod-lt _ (two-pow-pos k),
)
  where
    total : p + (2 ^ k + 2 ^ 64 - p) ≡ 2 ^ k + 2 ^ 64
    total = omega arith

-- `rseq_align(v, 2^k)` is the least multiple of `2^k` from `v` on, where it fits a word.
pub align_lem :
    (k v : ℕ)
    → k ≤ 63
    → v + 2 ^ k ≤ 2 ^ 64
    → (align v (2 ^ k) % 2 ^ k ≡ 0) × (v ≤ align v (2 ^ k)) × (align v (2 ^ k) < v + 2 ^ k)
unfolding align
align_lem k v small fits =
    rw
      (
        mask_of_align k small,
        fit,
        bit_and_align k (v + (2 ^ k - 1)) (omega arith) (omega (arith, two-pow-pos k)),
      )
      (mult, omega (arith, mod-lt (v + (2 ^ k - 1)) (two-pow-pos k)), omega (arith, two-pow-pos k))
  where
    fit : u64 (v + (2 ^ k - 1)) ≡ v + (2 ^ k - 1)
    fit = omega (arith, two-pow-pos k)

    mult : (v + (2 ^ k - 1) - (v + (2 ^ k - 1)) % 2 ^ k) % 2 ^ k ≡ 0
    mult = mod-sub_mod (v + (2 ^ k - 1)) (2 ^ k)
