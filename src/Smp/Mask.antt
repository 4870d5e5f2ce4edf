-- ===== src/Smp/Mask.antt =====
-- The array has an element for the last CPU of the mask, and else for every CPU of the directory.
use librseq.Base.{
  if◌then◌else◌, ℕ, zero, suc, ◌+◌, ◌-◌, ◌^◌, ◌<◌, ◌≡◌, ◌∙◌, ap, refl, Bool, true, false, List, [],
  ◌∷◌, ◌++◌, length, drop, get_or, ltb, ◌==◌, some, arith, if_false, subst, length-append,
}
use librseq.Smp.{
  is_separator, scan, max_cpuid_from_mask, Answers, possible_cpus_array_len, update_cache,
  from_mask,
}

-- No character separates.
abbrev pub IsOneNumber : List ℕ → Type 0
IsOneNumber [] = Unit
IsOneNumber (c ∷ cs) = (is_separator c ≡ false) × IsOneNumber cs

IsOneNumber-get_or : (cs : List ℕ) (i : ℕ) → IsOneNumber cs → is_separator (get_or cs i 0) ≡ false
IsOneNumber-get_or [] i h = refl
IsOneNumber-get_or (c ∷ cs) zero h = h.0
IsOneNumber-get_or (c ∷ cs) (suc i) h = IsOneNumber-get_or cs i h.1

get_or-append : (pre cs : List ℕ) (j : ℕ) → get_or (pre ++ cs) (length pre + j) 0 ≡ get_or cs j 0
get_or-append [] cs j = let at : 0 + j ≡ j = omega arith in rw at refl
get_or-append (c ∷ pre) cs j =
    let at : suc (length pre) + j ≡ suc (length pre + j) = omega arith in
    rw at (get_or-append pre cs j)

drop-append : (pre cs : List ℕ) (c : ℕ) → drop (length pre + 1) (pre ++ (c ∷ cs)) ≡ cs
drop-append [] cs c = refl
drop-append (d ∷ pre) cs c =
    let at : suc (length pre) + 1 ≡ suc (length pre + 1) = omega arith in
    rw at (drop-append pre cs c)

scan-step :
    (pmask : List ℕ) (i : ℕ) (b : Bool)
    → is_separator (get_or pmask (suc i) 0) ≡ b
    → scan pmask (suc i) ≡ (if b then suc (suc i) else scan pmask i)
unfolding scan
scan-step pmask i b h = rw h refl

scan-last :
    (pre cs : List ℕ) (c j : ℕ)
    → 0 < length pre
    → is_separator c ≡ true
    → IsOneNumber cs
    → scan (pre ++ (c ∷ cs)) (length pre + j) ≡ length pre + 1
scan-last pre cs c zero nonempty sep one =
    let at : length pre + 0 ≡ suc (length pre - 1) = omega arith in
    let found : is_separator (get_or (pre ++ (c ∷ cs)) (suc (length pre - 1)) 0) ≡ true =
      subst (λ k. is_separator (get_or (pre ++ (c ∷ cs)) k 0) ≡ true) at
        (ap is_separator (get_or-append pre (c ∷ cs) 0) ∙ sep) in
    let total : suc (suc (length pre - 1)) ≡ length pre + 1 = omega arith in
    ap (scan (pre ++ (c ∷ cs))) at ∙ scan-step _ _ true found ∙ total
scan-last pre cs c (suc j) nonempty sep one =
    let at : length pre + suc j ≡ suc (length pre + j) = omega arith in
    let other : is_separator (get_or (pre ++ (c ∷ cs)) (suc (length pre + j)) 0) ≡ false =
      subst (λ k. is_separator (get_or (pre ++ (c ∷ cs)) k 0) ≡ false) at
        (ap is_separator (get_or-append pre (c ∷ cs) (suc j)) ∙ IsOneNumber-get_or cs j one) in
    ap (scan (pre ++ (c ∷ cs))) at
    ∙ scan-step _ _ false other
    ∙ scan-last pre cs c j nonempty sep one

-- Where the mask is read, and something stands before its last separator, the array has an element
-- for the CPU ids up to the number that `strtoul` reads behind that separator, if it reads one that
-- is less than INT_MAX, and no more.
pub possible_cpus_array_len-mask :
    (a : Answers) (pre cs : List ℕ) (c id used : ℕ)
    → a.mask ≡ some (pre ++ (c ∷ cs))
    → 0 < length pre
    → is_separator c ≡ true
    → IsOneNumber cs
    → a.strtoul cs ≡ (id, used)
    → 0 < used
    → id < 2 ^ 31 - 1
    → possible_cpus_array_len a 0 ≡ id + 1
unfolding possible_cpus_array_len update_cache from_mask max_cpuid_from_mask
possible_cpus_array_len-mask a pre cs c id used read nonempty sep one number some_digit fits =
    let len : length (pre ++ (c ∷ cs)) ≡ length pre + suc (length cs) =
      length-append pre (c ∷ cs) in
    let last : length pre + suc (length cs) - 1 ≡ length pre + length cs = omega arith in
    let more : ltb (length pre + suc (length cs)) 1 ≡ false = ground arith in
    let digits : (used == 0) ≡ false = ground arith in
    let small : ltb id (2 ^ 31 - 1) ≡ true = ground arith in
    let one_at_least : ltb (id + 1 + 0) 1 ≡ false = ground arith in
    rw read (
      rw len (
        rw more (
          rw last (
            rw (scan-last pre cs c (length cs) nonempty sep one) (
              rw (drop-append pre cs c)
                (rw number (rw digits (rw small (if_false _ _ _ one_at_least)))))))))
