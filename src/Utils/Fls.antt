-- ===== src/Utils/Fls.antt =====
-- `rseq_fls_u64` finds the highest set bit.
use native.Mathlib.Nat.{
  mul_assoc, zero-mul, le_of_mul-le-mul_right, lt_of_mul-lt-mul_right, div-add-mod', mod-lt,
  div-eq_of_lt, mul_comm, mod-eq_of_lt, div-lt_iff_lt-mul, mul-lt-mul_of_pos_right,
  mul-le-mul_right,
}
use librseq.Base.{
  ℕ, ◌+◌, ◌-◌, ◌*◌, ◌/◌, ◌%◌, ◌^◌, ◌≤◌, ◌<◌, bit_and, false, ◌≡◌, refl, sym, ap, ◌∙◌, inl, inr,
  arith, ◌==◌, Bool-cases, ◌≢◌, suc, ==_iff, dec_lt,
}
use librseq.Bits.{bit_and_high, pow-add, two-pow-pos}
use librseq.Utils.Defs.{Scan, fls_step, fls_u64, fls_u32}

-- After the steps so far `x` has been shifted left by `d`, at most `k`, and is at least `2 ^ k`;
-- `r` has gone down by `d`.
record Scanned (w x k : ℕ) (c : Scan) : Type 0 where
  d : ℕ
  shifted : c.x ≡ x * 2 ^ d
  counted : c.r + d ≡ w
  few : d ≤ k
  low : 2 ^ k ≤ c.x
  fits : c.x < 2 ^ w

module _ (w s k j : ℕ) {x : ℕ} {c : Scan} (width : s + k ≡ w) (next : j + s ≡ k)
    (inv : Scanned w x j c) where
  open inv use {d, shifted, counted, few, low, fits}

  whole : 2 ^ k * 2 ^ s ≡ 2 ^ w
  whole = let e : k + s ≡ w = omega arith in sym (pow-add 2 k s) ∙ ap (λ (t : ℕ). 2 ^ t) e

  raised : 2 ^ j * 2 ^ s ≡ 2 ^ k
  raised = sym (pow-add 2 j s) ∙ ap (λ (t : ℕ). 2 ^ t) next

  masked : bit_and c.x ((2 ^ s - 1) * 2 ^ k) ≡ c.x / 2 ^ k * 2 ^ k
  masked =
      bit_and_high k s c.x
      ∙ ap (λ (t : ℕ). t * 2 ^ k)
          (mod-eq_of_lt
            ((div-lt_iff_lt-mul (two-pow-pos k)).1 (rw (mul_comm (2 ^ s) (2 ^ k), whole) fits)))

  below : bit_and c.x ((2 ^ s - 1) * 2 ^ k) ≡ 0 → c.x < 2 ^ k
  below e = omega (arith, masked, div-add-mod' c.x (2 ^ k), mod-lt c.x (two-pow-pos k))

  above : bit_and c.x ((2 ^ s - 1) * 2 ^ k) ≢ 0 → 2 ^ k ≤ c.x
  above ne = elim (dec_lt c.x (2 ^ k)) [
    | yes lt ↦ absurd (ne (masked ∙ ap (λ (t : ℕ). t * 2 ^ k) (div-eq_of_lt lt) ∙ zero-mul _))
    | no ge ↦ omega arith
  ]

  Scanned-shift : c.x < 2 ^ k → Scanned w x k (record { x = c.x * 2 ^ s % 2 ^ w; r = c.r - s })
  Scanned-shift lt =
      let small : c.x * 2 ^ s < 2 ^ w = rw (← whole) (mul-lt-mul_of_pos_right lt (two-pow-pos s)) in
      let kept : c.x * 2 ^ s % 2 ^ w ≡ c.x * 2 ^ s = mod-eq_of_lt small in
      record {
        d = d + s;
        shifted =
            kept
            ∙ ap (λ (t : ℕ). t * 2 ^ s) shifted
            ∙ mul_assoc x (2 ^ d) (2 ^ s)
            ∙ ap (λ (t : ℕ). x * t) (sym (pow-add 2 d s));
        counted = omega arith;
        few = omega arith;
        low = rw (kept, ← raised) (mul-le-mul_right (2 ^ s) low);
        fits = rw kept small;
      }

  fls_step-Scanned : Scanned w x k (fls_step w ((2 ^ s - 1) * 2 ^ k) s c)
  unfolding fls_step
  fls_step-Scanned = elim (Bool-cases (bit_and c.x ((2 ^ s - 1) * 2 ^ k) == 0)) [
    | inl clear ↦ rw clear (Scanned-shift (below ((==_iff _ _).0 clear)))
    | inr found ↦ rw found (record {
      d = d;
      shifted = shifted;
      counted = counted;
      few = omega arith;
      low = above (ground arith);
      fits = fits;
    })
  ]

-- `r` is the place, from 1, of the highest set bit of `x`.
pub record IsHighest (x r : ℕ) : Type 0 where
  pub place : 1 ≤ r
  pub low : 2 ^ (r - 1) ≤ x
  pub high : x < 2 ^ r

Scanned-IsHighest : (w x k : ℕ) (c : Scan) → suc k ≡ w → Scanned w x k c → IsHighest x c.r
Scanned-IsHighest w x k c e inv = record {
  place = omega arith;
  low =
      le_of_mul-le-mul_right (rw (← pow-add 2 (c.r - 1) d, ap (λ (t : ℕ). 2 ^ t) e1, ← shifted) low)
        (two-pow-pos d);
  high = lt_of_mul-lt-mul_right (2 ^ d) (rw (← pow-add 2 c.r d, counted, ← shifted) fits);
}
  where
    open inv use {d, shifted, counted, few, low, fits}

    e1 : c.r - 1 + d ≡ k
    e1 = omega arith

module _ {x : ℕ} (h : 0 < x) where
  start : (w : ℕ) → x < 2 ^ w → Scanned w x 0 (record { x = x; r = w })
  start w fits = record {
    d = 0;
    shifted = omega arith;
    counted = omega arith;
    few = omega arith;
    low = h;
    fits = fits;
  }

  nonzero : (x == 0) ≡ false
  nonzero = ground arith

  fls_u64-high : x < 2 ^ 64 → IsHighest x (fls_u64 x)
  unfolding fls_u64
  fls_u64-high fits =
      let s0 = start 64 fits in
      let s1 = fls_step-Scanned 64 32 32 0 refl refl s0 in
      let s2 = fls_step-Scanned 64 16 48 32 refl refl s1 in
      let s3 = fls_step-Scanned 64 8 56 48 refl refl s2 in
      let s4 = fls_step-Scanned 64 4 60 56 refl refl s3 in
      let s5 = fls_step-Scanned 64 2 62 60 refl refl s4 in
      let s6 = fls_step-Scanned 64 1 63 62 refl refl s5 in
      rw nonzero (Scanned-IsHighest 64 x 63 _ refl s6)

  fls_u32-high : x < 2 ^ 32 → IsHighest x (fls_u32 x)
  unfolding fls_u32
  fls_u32-high fits =
      let s0 = start 32 fits in
      let s1 = fls_step-Scanned 32 16 16 0 refl refl s0 in
      let s2 = fls_step-Scanned 32 8 24 16 refl refl s1 in
      let s3 = fls_step-Scanned 32 4 28 24 refl refl s2 in
      let s4 = fls_step-Scanned 32 2 30 28 refl refl s3 in
      let s5 = fls_step-Scanned 32 1 31 30 refl refl s4 in
      rw nonzero (Scanned-IsHighest 32 x 31 _ refl s5)

-- `rseq_fls_u64` and `rseq_fls_u32` return the place of the highest set bit, counted from 1, of
-- every number that is not zero and fits the width.
pub fls-IsHighest :
    (x : ℕ)
    → 0 < x
    → (x < 2 ^ 64 → IsHighest x (fls_u64 x)) × (x < 2 ^ 32 → IsHighest x (fls_u32 x))
fls-IsHighest x h = (fls_u64-high h, fls_u32-high h)
