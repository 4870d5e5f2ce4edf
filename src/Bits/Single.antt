-- ===== src/Bits/Single.antt =====
-- One bit of a word: set by `|`, cleared by `& ~`, read by `&`.
use native.Mathlib.Nat.{pow-suc}
use librseq.Base.{
  ℕ, zero, suc, ◌-◌, ◌*◌, ◌/◌, ◌%◌, ◌^◌, ◌≤◌, ◌<◌, min, max, bit_and, bit_or, ◌≡◌, refl, ap, ◌∙◌,
  arith, ◌==◌, if◌then◌else◌,
}
use librseq.Bits.Step.{bit_and_step, bit_or_step, bit_and-zero}

-- Bit `c` of `w`.
abbrev pub bit : ℕ → ℕ → ℕ
bit w zero = w % 2
bit w (suc c) = bit (w / 2) c

pub bit-cases : (w c : ℕ) → bit w c ≤ 1
bit-cases w zero = omega arith
bit-cases w (suc c) = bit-cases (w / 2) c

pub bit-bit_or : (w v c : ℕ) → bit (bit_or w v) c ≡ max (bit w c) (bit v c)
bit-bit_or w v zero = omega (arith, bit_or_step w v)
bit-bit_or w v (suc c) =
    let half : bit_or w v / 2 ≡ bit_or (w / 2) (v / 2) = omega (arith, bit_or_step w v) in
    rw half (bit-bit_or (w / 2) (v / 2) c)

pub bit-bit_and : (w v c : ℕ) → bit (bit_and w v) c ≡ min (bit w c) (bit v c)
bit-bit_and w v zero = omega (arith, bit_and_step w v)
bit-bit_and w v (suc c) =
    let half : bit_and w v / 2 ≡ bit_and (w / 2) (v / 2) = omega (arith, bit_and_step w v) in
    rw half (bit-bit_and (w / 2) (v / 2) c)

pub bit-zero : (c : ℕ) → bit 0 c ≡ 0
bit-zero zero = refl
bit-zero (suc c) = bit-zero c

double : (b : ℕ) → 2 ^ suc b ≡ 2 * 2 ^ b
double b = omega (arith, pow-suc 2 b)

-- The single bit `1 << b`.
pub bit-two-pow : (b c : ℕ) → bit (2 ^ b) c ≡ (if b == c then 1 else 0)
bit-two-pow zero zero = refl
bit-two-pow zero (suc c) = bit-zero c ∙ ground arith
bit-two-pow (suc b) zero = ground (arith, double b)
bit-two-pow (suc b) (suc c) =
    let half : 2 ^ suc b / 2 ≡ 2 ^ b = omega (arith, double b) in
    rw half (bit-two-pow b c ∙ ground arith)

-- The complement of a word of `n` bits.
pub bit-not : (n w c : ℕ) → w < 2 ^ n → c < n → bit (2 ^ n - 1 - w) c ≡ 1 - bit w c
bit-not zero w c h lt = absurd (omega arith)
bit-not (suc n) w zero h lt = omega (arith, double n)
bit-not (suc n) w (suc c) h lt =
    let half : (2 ^ suc n - 1 - w) / 2 ≡ 2 ^ n - 1 - w / 2 = omega (arith, double n) in
    rw half (bit-not n (w / 2) c (omega (arith, double n)) (omega arith))

-- `w & (1 << b)` is the bit in its place.
pub bit_and-two-pow : (w b : ℕ) → bit_and w (2 ^ b) ≡ bit w b * 2 ^ b
bit_and-two-pow w zero = omega (arith, bit_and_step w 1, bit_and-zero (w / 2))
bit_and-two-pow w (suc b) =
    let half : 2 ^ suc b / 2 ≡ 2 ^ b = omega (arith, double b) in
    let even : 2 ^ suc b % 2 ≡ 0 = omega (arith, double b) in
    rw (bit_and_step w (2 ^ suc b), half, even, bit_and-two-pow (w / 2) b)
      (omega (arith, double b, ap (λ (t : ℕ). bit (w / 2) b * t) (double b)))
