-- ===== src/Critical/Aarch64/Atomic.antt =====
-- The guarantee of the AArch64 sections.
use librseq.Critical.Words.{modulus}
use librseq.Base.{ℕ, Bool, ◌≡◌, ◌⊎◌, ◌<◌, ◌^◌, true, false, refl, some, [], ◌∷◌}
use librseq.Mempool.Memory.{Memory}
use librseq.Critical.Machine.{Exit, abort, Program, State, Run}
use librseq.Critical.Pseudo.{
  Call, load_cbne_store, load_cbeq_store_add_load_store, load_add_store, load_cbne_load_cbne_store,
  load_cbne_store_store, load_cbne_memcpy_store, load_add_load_load_add_store,
}
use librseq.Critical.Shape.{finds_cs}
use librseq.Critical.Lands.{Lands}
use librseq.Critical.Implements.{
  attempt, Implements, Atomic, Implements-Atomic, Implements-Lands, assemble-Implements,
  some-Implements,
}
use librseq.Critical.Aarch64.Code.{
  aarch64_code, load_cbne_store_code, load_cbne_store_body, load_cbeq_store_add_load_store_code,
  load_cbeq_store_add_load_store_body, load_add_store_code, load_add_store_body,
  load_cbne_load_cbne_store_code, load_cbne_load_cbne_store_body, load_cbne_store_store_code,
  load_cbne_store_store_body,
}
use librseq.Critical.Aarch64.Stores.{load_cbne_store_store-Lands}
use librseq.Critical.Aarch64.Sections.{
  load_cbne_store-Lands, load_cbeq_store_add_load_store-Lands, load_add_store-Lands,
  load_cbne_load_cbne_store-Lands,
}

module _ (M : Memory) where
  -- The values that a call compares with are words.
  abbrev pub Words : Call → Type 0
  Words (load_cbne_store v expect newv) = expect < modulus M
  Words (load_cbeq_store_add_load_store v expectnot voffp load) = expectnot < modulus M
  Words (load_add_store v count) = Unit
  Words (load_cbne_load_cbne_store v expect v2 expect2 newv) =
      (expect < modulus M) × (expect2 < modulus M)
  Words (load_cbne_store_store v expect v2 newv2 newv) = expect < modulus M
  Words (load_cbne_memcpy_store v expect dst src len newv) = Unit
  Words (load_add_load_load_add_store ptr off inc) = Unit

  -- The CPU field has 32 bits.
  abbrev pub FieldFits : State M → Type 0
  FieldFits s = s.cpu < 2 ^ 32

  aarch64_code-Implements :
      (release : Bool) (call : Call) (cpu : ℕ) (P : Program)
      → cpu < 2 ^ 32
      → Words call
      → aarch64_code release call cpu ≡ some P
      → Implements M FieldFits P call cpu
  unfolding aarch64_code load_cbne_store_code load_cbeq_store_add_load_store_code
      load_add_store_code load_cbne_load_cbne_store_code load_cbne_store_store_code
  aarch64_code-Implements false (load_cbne_store v expect newv) cpu P fits words h =
      some-Implements M h (
        assemble-Implements M (finds_cs ∷ finds_cs ∷ []) (load_cbne_store_body v expect newv cpu) []
          FieldFits (load_cbne_store v expect newv) cpu (λ a n. refl) (λ s t same h. same.fits h)
          (λ s field. load_cbne_store-Lands M cpu s fits field v expect newv words))
  aarch64_code-Implements true (load_cbne_store v expect newv) cpu P fits words h = absurd cc
  aarch64_code-Implements false (load_cbeq_store_add_load_store v expectnot voffp load) cpu P fits
        words h =
      some-Implements M h (
        assemble-Implements M (finds_cs ∷ finds_cs ∷ [])
          (load_cbeq_store_add_load_store_body v expectnot voffp load cpu) [] FieldFits
          (load_cbeq_store_add_load_store v expectnot voffp load) cpu (λ a n. refl)
          (λ s t same h. same.fits h)
          (λ s field.
            load_cbeq_store_add_load_store-Lands M cpu s fits field v expectnot voffp load words))
  aarch64_code-Implements true (load_cbeq_store_add_load_store v expectnot voffp load) cpu P fits
        words h =
      absurd cc
  aarch64_code-Implements false (load_add_store v count) cpu P fits words h = some-Implements M h (
      assemble-Implements M (finds_cs ∷ finds_cs ∷ []) (load_add_store_body v count cpu) []
        FieldFits (load_add_store v count) cpu (λ a n. refl) (λ s t same h. same.fits h)
        (λ s field. load_add_store-Lands M cpu s fits field v count))
  aarch64_code-Implements true (load_add_store v count) cpu P fits words h = absurd cc
  aarch64_code-Implements false (load_cbne_load_cbne_store v expect v2 expect2 newv) cpu P fits
        words h =
      some-Implements M h (
        assemble-Implements M (finds_cs ∷ finds_cs ∷ [])
          (load_cbne_load_cbne_store_body v expect v2 expect2 newv cpu) [] FieldFits
          (load_cbne_load_cbne_store v expect v2 expect2 newv) cpu (λ a n. refl)
          (λ s t same h. same.fits h)
          (λ s field.
            load_cbne_load_cbne_store-Lands M cpu s fits field v expect v2 expect2 newv words.0
              words.1))
  aarch64_code-Implements true (load_cbne_load_cbne_store v expect v2 expect2 newv) cpu P fits words
        h =
      absurd cc
  aarch64_code-Implements false (load_cbne_store_store v expect v2 newv2 newv) cpu P fits words h =
      some-Implements M h (
        assemble-Implements M (finds_cs ∷ finds_cs ∷ [])
          (load_cbne_store_store_body false v expect v2 newv2 newv cpu) [] FieldFits
          (load_cbne_store_store v expect v2 newv2 newv) cpu (λ a n. refl)
          (λ s t same h. same.fits h)
          (λ s field.
            load_cbne_store_store-Lands M v expect v2 newv2 newv cpu s fits field words false))
  aarch64_code-Implements true (load_cbne_store_store v expect v2 newv2 newv) cpu P fits words h =
      some-Implements M h (
        assemble-Implements M (finds_cs ∷ finds_cs ∷ [])
          (load_cbne_store_store_body true v expect v2 newv2 newv cpu) [] FieldFits
          (load_cbne_store_store v expect v2 newv2 newv) cpu (λ a n. refl)
          (λ s t same h. same.fits h)
          (λ s field.
            load_cbne_store_store-Lands M v expect v2 newv2 newv cpu s fits field words true))
  aarch64_code-Implements false (load_cbne_memcpy_store v expect dst src len newv) cpu P fits words
        h =
      absurd cc
  aarch64_code-Implements true (load_cbne_memcpy_store v expect dst src len newv) cpu P fits words
        h =
      absurd cc
  aarch64_code-Implements false (load_add_load_load_add_store ptr off inc) cpu P fits words h =
      absurd cc
  aarch64_code-Implements true (load_add_load_load_add_store ptr off inc) cpu P fits words h =
      absurd cc

  -- Left alone at its start, where the CPU field and the CPU asked for have 32 bits and the values to
  -- compare with 64, a section that aarch64_code gives for a call is left after finitely many steps: on the
  -- CPU of the call with the effect and the result of the pseudo-code, on another CPU with the memory
  -- unchanged and for the return of -1.
  pub aarch64_code-Lands :
      (release : Bool) (call : Call) (cpu : ℕ) (P : Program) (s : State M)
      → aarch64_code release call cpu ≡ some P
      → s.pc ≡ P.start_ip
      → cpu < 2 ^ 32
      → s.cpu < 2 ^ 32
      → Words call
      → Lands M P s (attempt M call cpu s)
  aarch64_code-Lands release call cpu P s h at fits field words =
      Implements-Lands M (aarch64_code-Implements release call cpu P fits words h) at field

  -- Whatever interrupts it, a run of a section that aarch64_code gives for a call, from its entry on, where
  -- the CPU field and the CPU asked for have 32 bits and the values to compare with 64, either returns
  -- -1 or has at one point gone through its whole section uninterrupted on the CPU of the call, with
  -- the effect on the memory and the result of the pseudo-code.
  pub aarch64_code-Atomic :
      (release : Bool) (call : Call) (cpu : ℕ) (P : Program) {s t : State M} {e : Exit}
      → aarch64_code release call cpu ≡ some P
      → s.pc ≡ 0
      → cpu < 2 ^ 32
      → s.cpu < 2 ^ 32
      → Words call
      → Run M P s e t
      → (e ≡ abort) ⊎ Atomic M P call cpu s e t
  aarch64_code-Atomic release call cpu P h at fits field words run =
      Implements-Atomic M (aarch64_code-Implements release call cpu P fits words h) at field run
