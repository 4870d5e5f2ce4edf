-- ===== src/Critical/Aarch64/Sections.antt =====
-- The AArch64 sections do what the pseudo-code says, on a CPU field of 32 bits and for operands that
-- are words: they compare by subtracting.
use native.Mathlib.Nat.{mod-eq_of_lt, mod-eq-sub-mod}
use librseq.Critical.Words.{modulus, width, load_long, store_long, wrap}
use librseq.Base.{
  dec_lt, zero, suc, ℕ, ◌≡◌, ◌==◌, ◌+◌, ◌-◌, ◌^◌, ◌%◌, ◌<◌, ◌*◌, some, if◌then◌else◌, refl, true,
  false, Bool-cases, inl, inr, arith,
}
use librseq.Mempool.Memory.{Memory, load_bytes}
use librseq.Critical.Machine.{success, ne, abort, set, State, exec, step, fetch, program, assemble}
use librseq.Critical.Pseudo.{Call, pseudo}
use librseq.Critical.Aarch64.Code.{
  x15, load_cbne_store_code, load_cbeq_store_add_load_store_code, load_add_store_code,
  load_cbne_load_cbne_store_code,
}
use librseq.Critical.Lands.{Lands, outcome, outcome-Lands, after_walk}
use librseq.Critical.Quiet.{walk}
use librseq.Critical.Implements.{attempt}

shift : (l x b : ℕ) → l < 256 → x < b → l + 256 * x < 256 * b
shift l x b lo hi = omega arith

load_bytes-lt : (M : Memory) (n : ℕ) (m : M.Mem) (p : ℕ) → load_bytes M n m p < width n
unfolding load_bytes
load_bytes-lt M zero m p = omega arith
load_bytes-lt M (suc n) m p =
    shift (M.load m p) (load_bytes M n m (p + 1)) (width n) (M.load-lt m p)
      (load_bytes-lt M n m (p + 1))

-- A difference of words is zero where they are equal.
word_difference : (w a x : ℕ) → a < w → x < w → ((a + (w - x)) % w == 0) ≡ (a == x)
word_difference w a x la lx = elim (dec_lt a x) [
  | yes lt ↦
      let below : (a + (w - x)) % w ≡ a + (w - x) = mod-eq_of_lt (omega arith) in ground arith
  | no ge ↦
      let whole : (a + (w - x)) % w ≡ (a + (w - x) - w) % w = mod-eq-sub-mod (omega arith) in
      let below : (a + (w - x) - w) % w ≡ a + (w - x) - w = mod-eq_of_lt (omega arith) in
      ground arith
]

cpu_difference : (a x : ℕ) → a < 2 ^ 32 → x < 2 ^ 32 → ((a + (2 ^ 32 - x)) % 2 ^ 32 == 0) ≡ (a == x)
cpu_difference a x la lx = ground arith

module _ (M : Memory) (cpu : ℕ) (s : State M) (cpu_fits : cpu < 2 ^ 32)
    (field_fits : s.cpu < 2 ^ 32) where
  open M use {Mem}

  pub cpu_test : ((s.cpu + (2 ^ 32 - cpu)) % 2 ^ 32 == 0) ≡ (s.cpu == cpu)
  cpu_test = cpu_difference s.cpu cpu field_fits cpu_fits

  pub word_test :
      (m : Mem) (p x : ℕ)
      → x < modulus M
      → (wrap M (load_long M m p + (modulus M - x)) == 0) ≡ (load_long M m p == x)
  word_test m p x fits =
      word_difference (modulus M) (load_long M m p) x (load_bytes-lt M M.word_bytes m p) fits

  pub load_cbne_store-Lands :
      (v expect newv : ℕ)
      → expect < modulus M
      → Lands M
          (load_cbne_store_code v expect newv cpu)
          (record s { pc = 3 })
          (attempt M (Call.load_cbne_store v expect newv) cpu s)
  unfolding outcome exec step fetch assemble program pseudo load_cbne_store_code
  load_cbne_store-Lands v expect newv fits =
      outcome-Lands M (load_cbne_store_code v expect newv cpu) 16
        (elim (Bool-cases (s.cpu == cpu)) [
          | inl on_cpu ↦ elim (Bool-cases (load_long M s.mem v == expect)) [
            | inl eq ↦ rw cpu_test (rw on_cpu (rw (word_test s.mem v expect fits) (rw eq refl)))
            | inr differs ↦
                rw cpu_test (rw on_cpu (rw (word_test s.mem v expect fits) (rw differs refl)))
          ]
          | inr away ↦ rw cpu_test (rw away refl)
        ])

  pub load_cbeq_store_add_load_store-Lands :
      (v expectnot voffp load : ℕ)
      → expectnot < modulus M
      → Lands M
          (load_cbeq_store_add_load_store_code v expectnot voffp load cpu)
          (record s { pc = 3 })
          (attempt M (Call.load_cbeq_store_add_load_store v expectnot voffp load) cpu s)
  unfolding outcome exec step fetch assemble program pseudo load_cbeq_store_add_load_store_code
  load_cbeq_store_add_load_store-Lands v expectnot voffp load fits =
      outcome-Lands M (load_cbeq_store_add_load_store_code v expectnot voffp load cpu) 16
        (elim (Bool-cases (s.cpu == cpu)) [
          | inl on_cpu ↦ elim (Bool-cases (load_long M s.mem v == expectnot)) [
            | inl eq ↦ rw cpu_test (rw on_cpu (rw (word_test s.mem v expectnot fits) (rw eq refl)))
            | inr differs ↦
                rw cpu_test (rw on_cpu (rw (word_test s.mem v expectnot fits) (rw differs refl)))
          ]
          | inr away ↦ rw cpu_test (rw away refl)
        ])

  pub load_add_store-Lands :
      (v count : ℕ)
      → Lands M
          (load_add_store_code v count cpu)
          (record s { pc = 3 })
          (attempt M (Call.load_add_store v count) cpu s)
  unfolding outcome exec step fetch assemble program pseudo load_add_store_code
  load_add_store-Lands v count =
      outcome-Lands M (load_add_store_code v count cpu) 16 (elim (Bool-cases (s.cpu == cpu)) [
        | inl on_cpu ↦ rw cpu_test (rw on_cpu refl)
        | inr away ↦ rw cpu_test (rw away refl)
      ])

  -- With two comparisons, the section is run up to the second and from there on.
  abbrev pub compared : (v expect : ℕ) → State M
  compared v expect = set M x15 (wrap M (load_long M s.mem v + (modulus M - expect))) (
      set M x15 (load_long M s.mem v)
        (set M x15 ((s.cpu + (2 ^ 32 - cpu)) % 2 ^ 32) (set M x15 s.cpu s)))

  compare :
      (v expect v2 expect2 newv : ℕ)
      → expect < modulus M
      → (s.cpu == cpu) ≡ true
      → (load_long M s.mem v == expect) ≡ true
      → walk M (load_cbne_load_cbne_store_code v expect v2 expect2 newv cpu) 6 (record s { pc = 3 })
        ≡ some (record (compared v expect) { pc = 9 })
  unfolding walk exec step fetch assemble program load_cbne_load_cbne_store_code
  compare v expect v2 expect2 newv fits on_cpu eq =
      rw cpu_test (rw on_cpu (rw (word_test s.mem v expect fits) (rw eq refl)))

  refuse :
      (v expect v2 expect2 newv : ℕ)
      → expect < modulus M
      → (s.cpu == cpu) ≡ true
      → (load_long M s.mem v == expect) ≡ false
      → outcome M
          (load_cbne_load_cbne_store_code v expect v2 expect2 newv cpu)
          8
          (record s { pc = 3 })
        ≡ some (ne, s.mem)
  unfolding outcome exec step fetch assemble program load_cbne_load_cbne_store_code
  refuse v expect v2 expect2 newv fits on_cpu differs =
      rw cpu_test (rw on_cpu (rw (word_test s.mem v expect fits) (rw differs refl)))

  leave :
      (v expect v2 expect2 newv : ℕ)
      → (s.cpu == cpu) ≡ false
      → outcome M
          (load_cbne_load_cbne_store_code v expect v2 expect2 newv cpu)
          8
          (record s { pc = 3 })
        ≡ some (abort, s.mem)
  unfolding outcome exec step fetch assemble program load_cbne_load_cbne_store_code
  leave v expect v2 expect2 newv away = rw cpu_test (rw away refl)

  second :
      (v expect v2 expect2 newv : ℕ) (t : State M)
      → expect2 < modulus M
      → outcome M
          (load_cbne_load_cbne_store_code v expect v2 expect2 newv cpu)
          8
          (record t { pc = 9 })
        ≡ some (
            if load_long M t.mem v2 == expect2
            then (success, store_long M t.mem v newv)
            else (ne, t.mem))
  unfolding outcome exec step fetch assemble program load_cbne_load_cbne_store_code
  second v expect v2 expect2 newv t fits = elim (Bool-cases (load_long M t.mem v2 == expect2)) [
    | inl eq ↦ rw (word_test t.mem v2 expect2 fits) (rw eq refl)
    | inr differs ↦ rw (word_test t.mem v2 expect2 fits) (rw differs refl)
  ]

  pub load_cbne_load_cbne_store-Lands :
      (v expect v2 expect2 newv : ℕ)
      → expect < modulus M
      → expect2 < modulus M
      → Lands M
          (load_cbne_load_cbne_store_code v expect v2 expect2 newv cpu)
          (record s { pc = 3 })
          (attempt M (Call.load_cbne_load_cbne_store v expect v2 expect2 newv) cpu s)
  unfolding pseudo
  load_cbne_load_cbne_store-Lands v expect v2 expect2 newv fits fits2 =
      let P = load_cbne_load_cbne_store_code v expect v2 expect2 newv cpu in
      elim (Bool-cases (s.cpu == cpu)) [
        | inl on_cpu ↦ rw on_cpu (elim (Bool-cases (load_long M s.mem v == expect)) [
          | inl eq ↦ rw eq (
              after_walk M P 6 (compare v expect v2 expect2 newv fits on_cpu eq)
                (outcome-Lands M P 8 (second v expect v2 expect2 newv (compared v expect) fits2)))
          | inr differs ↦
              rw differs (outcome-Lands M P 8 (refuse v expect v2 expect2 newv fits on_cpu differs))
        ])
        | inr away ↦ rw away (outcome-Lands M P 8 (leave v expect v2 expect2 newv away))
      ]
