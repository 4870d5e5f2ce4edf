-- ===== src/Smp/Directory.antt =====
-- Without a mask, the array has an element for every CPU of the directory.
use librseq.Base.{
  if◌then◌else◌, ℕ, zero, suc, ◌+◌, ◌-◌, ◌^◌, ◌≤◌, ◌%◌, ◌<◌, ◌≡◌, refl, true, false, List, [], ◌∷◌,
  ltb, Option, none, some, Bool-cases, inl, inr, arith, if_true, if_false, get_elem?,
}
use librseq.Base.Int.{ℤ, pos, negsuc, ltb_ℤ, pos_part}
use librseq.Smp.{
  Answers, possible_cpus_array_len, update_cache, from_mask, Entry, entry_id, larger, max_entry,
  max_cpuid_from_sysfs, num_possible_cpus_fallback, max_ℤ, to_int,
}

-- A CPU id less than INT_MAX, where there is one.
abbrev pub IdFits : ℤ → Type 0
IdFits (pos id) = id < 2 ^ 31 - 1
IdFits (negsuc n) = Unit

abbrev pub OptionFits : Option ℤ → Type 0
OptionFits none = Unit
OptionFits (some id) = IdFits id

abbrev pub AllFit : (List ℕ → ℤ × ℕ) → List Entry → Type 0
AllFit strtol [] = Unit
AllFit strtol (e ∷ es) = OptionFits (entry_id strtol e) × AllFit strtol es

-- `max_cpuid` is `id` at least, and fits.
abbrev Covers : ℕ → ℤ → Type 0
Covers id max_cpuid = (k : ℕ) × (max_cpuid ≡ pos k) × (id ≤ k) × (k < 2 ^ 31 - 1)

larger-Fits : (m : ℤ) (x : Option ℤ) → IdFits m → OptionFits x → IdFits (larger m x)
larger-Fits m none h f = h
larger-Fits m (some id) h f = elim (Bool-cases (ltb_ℤ m id)) [
  | inl less ↦ rw less f
  | inr not_less ↦ rw not_less h
]

larger-Covers :
    (m x : ℤ) (id : ℕ) → IdFits m → IdFits x → x ≡ pos id → Covers id (larger m (some x))
larger-Covers (negsuc n) (pos i) id h f eq =
    let same : i ≡ id = cc in
    let less : ltb (0 + 0) (i + suc n) ≡ true = ground arith in
    (i, if_true _ _ _ less, omega arith, f)
larger-Covers (pos m) (pos i) id h f eq =
    let same : i ≡ id = cc in
    elim (Bool-cases (ltb (m + 0) (i + 0))) [
      | inl less ↦ (i, if_true _ _ _ less, omega arith, f)
      | inr more ↦ (m, if_false _ _ _ more, ground arith, h)
    ]
larger-Covers m (negsuc n) id h f eq = absurd cc

Covers-larger :
    (m : ℤ) (x : Option ℤ) (id : ℕ) → OptionFits x → Covers id m → Covers id (larger m x)
Covers-larger m none id f c = c
Covers-larger m (some (negsuc n)) id f (k, eq, le, lt) =
    let less : ltb (k + suc n) (0 + 0) ≡ false = ground arith in
    (k, rw eq (if_false _ _ _ less), le, lt)
Covers-larger m (some (pos i)) id f (k, eq, le, lt) = elim (Bool-cases (ltb (k + 0) (i + 0))) [
  | inl less ↦ (i, rw eq (if_true _ _ _ less), ground arith, f)
  | inr more ↦ (k, rw eq (if_false _ _ _ more), le, lt)
]

max_entry-Covers :
    (strtol : List ℕ → ℤ × ℕ) (es : List Entry) (m : ℤ) (id : ℕ)
    → AllFit strtol es
    → Covers id m
    → Covers id (max_entry strtol es m)
unfolding max_entry
max_entry-Covers strtol [] m id fits c = c
max_entry-Covers strtol (e ∷ es) m id fits c =
    max_entry-Covers strtol es (larger m (entry_id strtol e)) id fits.1
      (Covers-larger m (entry_id strtol e) id fits.0 c)

max_entry-found :
    (strtol : List ℕ → ℤ × ℕ) (es : List Entry) (m : ℤ) (i id : ℕ) (e : Entry)
    → IdFits m
    → AllFit strtol es
    → get_elem? es i ≡ some e
    → entry_id strtol e ≡ some (pos id)
    → Covers id (max_entry strtol es m)
unfolding max_entry
max_entry-found strtol [] m i id e h fits at found = absurd cc
max_entry-found strtol (d ∷ es) m zero id e h fits at found =
    let same : d ≡ e = cc in
    let is_found : entry_id strtol d ≡ some (pos id) = rw same found in
    max_entry-Covers strtol es (larger m (entry_id strtol d)) id fits.1
      (rw is_found (larger-Covers m (pos id) id h (rw is_found at fits.0) refl))
max_entry-found strtol (d ∷ es) m (suc i) id e h fits at found =
    max_entry-found strtol es (larger m (entry_id strtol d)) i id e
      (larger-Fits m (entry_id strtol d) h fits.0) fits.1 at found

abbrev stored : ℤ → ℕ
stored ret = if ltb_ℤ ret (pos 1) then 0 else pos_part ret

stored-pos : (k id : ℕ) → id < k → id < stored (pos k)
stored-pos k id lt = let some_cpu : ltb (k + 0) (1 + 0) ≡ false = ground arith in rw some_cpu lt

-- A number up to INT_MAX is an `int`.
to_int-pos : (k : ℕ) → k < 2 ^ 31 → to_int (pos k) ≡ pos k
unfolding to_int
to_int-pos k lt =
    let whole : k % 2 ^ 32 ≡ k = omega arith in
    let small : ltb k (2 ^ 31) ≡ true = ground arith in rw (whole, small) refl

-- At most INT_MAX.
abbrev pub AtMostIntMax : ℤ → Type 0
AtMostIntMax (pos n) = n < 2 ^ 31
AtMostIntMax (negsuc n) = Unit

stored-max :
    (n : ℤ) (k id : ℕ)
    → AtMostIntMax n
    → k + 1 < 2 ^ 31
    → id ≤ k
    → id < stored (to_int (max_ℤ n (to_int (pos (k + 1)))))
stored-max (pos m) k id fits lt le = elim (Bool-cases (ltb (k + 1 + 0) (m + 0))) [
  | inl larger ↦
      rw (to_int-pos (k + 1) lt, larger, to_int-pos m fits) (stored-pos m id (ground arith))
  | inr not_larger ↦
      rw (to_int-pos (k + 1) lt, not_larger, to_int-pos (k + 1) lt)
        (stored-pos (k + 1) id (omega arith))
]
stored-max (negsuc m) k id fits lt le =
    let negative : ltb (k + 1 + suc m) (0 + 0) ≡ false = ground arith in
    rw (to_int-pos (k + 1) lt, negative, to_int-pos (k + 1) lt)
      (stored-pos (k + 1) id (omega arith))

-- Where the mask is not read, `sysconf` answers INT_MAX at most, and no entry of the directory has a
-- CPU id of INT_MAX or more, the array has an element for every CPU that an entry names.
pub possible_cpus_array_len-entries :
    (a : Answers) (es : List Entry) (i id : ℕ) (e : Entry)
    → a.mask ≡ none
    → a.entries ≡ some es
    → AtMostIntMax a.nprocessors_conf
    → AllFit a.strtol es
    → get_elem? es i ≡ some e
    → entry_id a.strtol e ≡ some (pos id)
    → id < possible_cpus_array_len a 0
unfolding possible_cpus_array_len update_cache from_mask num_possible_cpus_fallback
    max_cpuid_from_sysfs
possible_cpus_array_len-entries a es i id e unread opened conf fits at found =
    let (k, eq, le, lt) = max_entry-found a.strtol es (negsuc 0) i id e tt fits at found in
    let small : ltb (2 ^ 31 - 1) k ≡ false = ground arith in
    rw unread
      (rw opened (rw eq (rw small (stored-max a.nprocessors_conf k id conf (omega arith) le))))
