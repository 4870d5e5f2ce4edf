-- ===== src/Critical/Mips/Sections.antt =====
-- The MIPS sections do what the pseudo-code says.
use librseq.Critical.Words.{load_long}
use librseq.Base.{ℕ, Bool, ◌==◌, refl, true, false, Bool-cases, inl, inr}
use librseq.Mempool.Memory.{Memory}
use librseq.Critical.Machine.{State, exec, step, fetch, program, assemble}
use librseq.Critical.Pseudo.{Call, pseudo}
use librseq.Critical.Mips.Code.{
  load_cbne_store_code, load_cbeq_store_add_load_store_code, load_add_store_code,
  load_cbne_load_cbne_store_code, load_cbne_store_store_code,
}
use librseq.Critical.Lands.{Lands, outcome, outcome-Lands}
use librseq.Critical.Implements.{attempt}

module _ (M : Memory) (cpu : ℕ) (s : State M) where
  pub load_cbne_store-Lands :
      (v expect newv : ℕ)
      → Lands M
          (load_cbne_store_code v expect newv cpu)
          (record s { pc = 2 })
          (attempt M (Call.load_cbne_store v expect newv) cpu s)
  unfolding outcome exec step fetch assemble program pseudo load_cbne_store_code
  load_cbne_store-Lands v expect newv =
      outcome-Lands M (load_cbne_store_code v expect newv cpu) 16
        (elim (Bool-cases (s.cpu == cpu)) [
          | inl on_cpu ↦ elim (Bool-cases (load_long M s.mem v == expect)) [
            | inl eq ↦ rw on_cpu (rw eq refl)
            | inr differs ↦ rw on_cpu (rw differs refl)
          ]
          | inr away ↦ rw away refl
        ])

  pub load_cbeq_store_add_load_store-Lands :
      (v expectnot voffp load : ℕ)
      → Lands M
          (load_cbeq_store_add_load_store_code v expectnot voffp load cpu)
          (record s { pc = 2 })
          (attempt M (Call.load_cbeq_store_add_load_store v expectnot voffp load) cpu s)
  unfolding outcome exec step fetch assemble program pseudo load_cbeq_store_add_load_store_code
  load_cbeq_store_add_load_store-Lands v expectnot voffp load =
      outcome-Lands M (load_cbeq_store_add_load_store_code v expectnot voffp load cpu) 16
        (elim (Bool-cases (s.cpu == cpu)) [
          | inl on_cpu ↦ elim (Bool-cases (load_long M s.mem v == expectnot)) [
            | inl eq ↦ rw on_cpu (rw eq refl)
            | inr differs ↦ rw on_cpu (rw differs refl)
          ]
          | inr away ↦ rw away refl
        ])

  pub load_add_store-Lands :
      (v count : ℕ)
      → Lands M
          (load_add_store_code v count cpu)
          (record s { pc = 2 })
          (attempt M (Call.load_add_store v count) cpu s)
  unfolding outcome exec step fetch assemble program pseudo load_add_store_code
  load_add_store-Lands v count =
      outcome-Lands M (load_add_store_code v count cpu) 16
        (elim (Bool-cases (s.cpu == cpu)) [ inl on_cpu ↦ rw on_cpu refl | inr away ↦ rw away refl ])

  pub load_cbne_load_cbne_store-Lands :
      (v expect v2 expect2 newv : ℕ)
      → Lands M
          (load_cbne_load_cbne_store_code v expect v2 expect2 newv cpu)
          (record s { pc = 2 })
          (attempt M (Call.load_cbne_load_cbne_store v expect v2 expect2 newv) cpu s)
  unfolding outcome exec step fetch assemble program pseudo load_cbne_load_cbne_store_code
  load_cbne_load_cbne_store-Lands v expect v2 expect2 newv =
      outcome-Lands M (load_cbne_load_cbne_store_code v expect v2 expect2 newv cpu) 16
        (elim (Bool-cases (s.cpu == cpu)) [
          | inl on_cpu ↦ elim (Bool-cases (load_long M s.mem v == expect)) [
            | inl eq ↦ elim (Bool-cases (load_long M s.mem v2 == expect2)) [
              | inl eq2 ↦ rw on_cpu (rw eq (rw eq2 refl))
              | inr differs ↦ rw on_cpu (rw eq (rw differs refl))
            ]
            | inr differs ↦ rw on_cpu (rw differs refl)
          ]
          | inr away ↦ rw away refl
        ])

  pub load_cbne_store_store-Lands :
      (release : Bool) (v expect v2 newv2 newv : ℕ)
      → Lands M
          (load_cbne_store_store_code release v expect v2 newv2 newv cpu)
          (record s { pc = 2 })
          (attempt M (Call.load_cbne_store_store v expect v2 newv2 newv) cpu s)
  unfolding outcome exec step fetch assemble program pseudo load_cbne_store_store_code
  load_cbne_store_store-Lands false v expect v2 newv2 newv =
      outcome-Lands M (load_cbne_store_store_code false v expect v2 newv2 newv cpu) 16
        (elim (Bool-cases (s.cpu == cpu)) [
          | inl on_cpu ↦ elim (Bool-cases (load_long M s.mem v == expect)) [
            | inl eq ↦ rw on_cpu (rw eq refl)
            | inr differs ↦ rw on_cpu (rw differs refl)
          ]
          | inr away ↦ rw away refl
        ])
  load_cbne_store_store-Lands true v expect v2 newv2 newv =
      outcome-Lands M (load_cbne_store_store_code true v expect v2 newv2 newv cpu) 16
        (elim (Bool-cases (s.cpu == cpu)) [
          | inl on_cpu ↦ elim (Bool-cases (load_long M s.mem v == expect)) [
            | inl eq ↦ rw on_cpu (rw eq refl)
            | inr differs ↦ rw on_cpu (rw differs refl)
          ]
          | inr away ↦ rw away refl
        ])
