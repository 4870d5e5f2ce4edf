-- ===== src/Critical/Aarch64/Stores.antt =====
-- The AArch64 section with two stores, run up to its comparison and from there on.
use librseq.Critical.Words.{modulus, load_long, store_long}
use librseq.Base.{ℕ, Bool, ◌≡◌, ◌==◌, ◌<◌, ◌^◌, refl, true, false, some, Bool-cases, inl, inr}
use librseq.Mempool.Memory.{Memory}
use librseq.Critical.Machine.{
  success, ne, abort, State, exec, step, fetch, program, assemble, Program,
}
use librseq.Critical.Pseudo.{Call, pseudo}
use librseq.Critical.Quiet.{walk}
use librseq.Critical.Aarch64.Code.{load_cbne_store_store_code}
use librseq.Critical.Lands.{Lands, outcome, outcome-Lands, after_walk}
use librseq.Critical.Implements.{attempt}
use librseq.Critical.Aarch64.Sections.{word_test, cpu_test, compared}

module _ (M : Memory) (v expect v2 newv2 newv cpu : ℕ) where
  abbrev P : Bool → Program
  P release = load_cbne_store_store_code release v expect v2 newv2 newv cpu

  rest :
      (release : Bool) (t : State M)
      → outcome M (P release) 8 (record t { pc = 9 })
        ≡ some (success, store_long M (store_long M t.mem v2 newv2) v newv)
  unfolding outcome exec step fetch assemble program load_cbne_store_store_code
  rest false t = refl
  rest true t = refl

  module _ (s : State M) (cpu_fits : cpu < 2 ^ 32) (field_fits : s.cpu < 2 ^ 32)
      (fits : expect < modulus M) where
    compare :
        (release : Bool)
        → (s.cpu == cpu) ≡ true
        → (load_long M s.mem v == expect) ≡ true
        → walk M (P release) 6 (record s { pc = 3 })
          ≡ some (record (compared M cpu s cpu_fits field_fits v expect) { pc = 9 })
    unfolding walk exec step fetch assemble program load_cbne_store_store_code
    compare false on_cpu eq =
        rw (cpu_test M cpu s cpu_fits field_fits)
          (rw on_cpu (rw (word_test M cpu s cpu_fits field_fits s.mem v expect fits) (rw eq refl)))
    compare true on_cpu eq =
        rw (cpu_test M cpu s cpu_fits field_fits)
          (rw on_cpu (rw (word_test M cpu s cpu_fits field_fits s.mem v expect fits) (rw eq refl)))

    refuse :
        (release : Bool)
        → (s.cpu == cpu) ≡ true
        → (load_long M s.mem v == expect) ≡ false
        → outcome M (P release) 8 (record s { pc = 3 }) ≡ some (ne, s.mem)
    unfolding outcome exec step fetch assemble program load_cbne_store_store_code
    refuse false on_cpu differs = rw (cpu_test M cpu s cpu_fits field_fits) (
        rw on_cpu
          (rw (word_test M cpu s cpu_fits field_fits s.mem v expect fits) (rw differs refl)))
    refuse true on_cpu differs = rw (cpu_test M cpu s cpu_fits field_fits) (
        rw on_cpu
          (rw (word_test M cpu s cpu_fits field_fits s.mem v expect fits) (rw differs refl)))

    leave :
        (release : Bool)
        → (s.cpu == cpu) ≡ false
        → outcome M (P release) 8 (record s { pc = 3 }) ≡ some (abort, s.mem)
    unfolding outcome exec step fetch assemble program load_cbne_store_store_code
    leave false away = rw (cpu_test M cpu s cpu_fits field_fits) (rw away refl)
    leave true away = rw (cpu_test M cpu s cpu_fits field_fits) (rw away refl)

    pub load_cbne_store_store-Lands :
        (release : Bool)
        → Lands M
            (P release)
            (record s { pc = 3 })
            (attempt M (Call.load_cbne_store_store v expect v2 newv2 newv) cpu s)
    unfolding pseudo
    load_cbne_store_store-Lands release = elim (Bool-cases (s.cpu == cpu)) [
      | inl on_cpu ↦ rw on_cpu (elim (Bool-cases (load_long M s.mem v == expect)) [
        | inl eq ↦ rw eq (
            after_walk M (P release) 6 (compare release on_cpu eq) (
              outcome-Lands M (P release) 8
                (rest release (compared M cpu s cpu_fits field_fits v expect))))
        | inr differs ↦ rw differs (outcome-Lands M (P release) 8 (refuse release on_cpu differs))
      ])
      | inr away ↦ rw away (outcome-Lands M (P release) 8 (leave release away))
    ]
