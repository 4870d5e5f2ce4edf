-- ===== src/Critical/Ppc/Atomic.antt =====
-- The guarantee of the PowerPC sections.
use librseq.Base.{ℕ, Bool, ◌≡◌, ◌⊎◌, true, false, refl, some, [], ◌∷◌}
use librseq.Mempool.Memory.{Memory}
use librseq.Critical.Machine.{Exit, abort, Program, State, Run}
use librseq.Critical.Pseudo.{
  Call, load_cbne_store, load_cbeq_store_add_load_store, load_add_store, load_cbne_load_cbne_store,
  load_cbne_store_store, load_cbne_memcpy_store, load_add_load_load_add_store,
}
use librseq.Critical.Lands.{Lands}
use librseq.Critical.Shape.{finds_cs}
use librseq.Critical.Implements.{
  attempt, Implements, Atomic, Implements-Atomic, Implements-Lands, Unready-Implements,
  some-Implements, Unready,
}
use librseq.Critical.Ppc.Code.{
  ppc_code, load_cbne_store_code, load_cbne_store_body, load_cbeq_store_add_load_store_code,
  load_cbeq_store_add_load_store_body, load_add_store_code, load_add_store_body,
  load_cbne_load_cbne_store_code, load_cbne_load_cbne_store_body, load_cbne_store_store_code,
  load_cbne_store_store_body,
}
use librseq.Critical.Ppc.Sections.{
  load_cbne_store-Lands, load_cbeq_store_add_load_store-Lands, load_add_store-Lands,
  load_cbne_load_cbne_store-Lands, load_cbne_store_store-Lands,
}

module _ (M : Memory) where
  ppc_code-Implements :
      (release : Bool) (call : Call) (cpu : ℕ) (P : Program)
      → ppc_code release call cpu ≡ some P
      → Implements M (Unready M) P call cpu
  unfolding ppc_code load_cbne_store_code load_cbeq_store_add_load_store_code load_add_store_code
      load_cbne_load_cbne_store_code load_cbne_store_store_code
  ppc_code-Implements false (load_cbne_store v expect newv) cpu P h = some-Implements M h (
      Unready-Implements M (finds_cs ∷ finds_cs ∷ finds_cs ∷ finds_cs ∷ finds_cs ∷ [])
        (load_cbne_store v expect newv) cpu (load_cbne_store_body v expect newv cpu) (λ a n. refl)
        (λ s. load_cbne_store-Lands M cpu s v expect newv))
  ppc_code-Implements true (load_cbne_store v expect newv) cpu P h = absurd cc
  ppc_code-Implements false (load_cbeq_store_add_load_store v expectnot voffp load) cpu P h =
      some-Implements M h (
        Unready-Implements M (finds_cs ∷ finds_cs ∷ finds_cs ∷ finds_cs ∷ finds_cs ∷ [])
          (load_cbeq_store_add_load_store v expectnot voffp load) cpu
          (load_cbeq_store_add_load_store_body v expectnot voffp load cpu) (λ a n. refl)
          (λ s. load_cbeq_store_add_load_store-Lands M cpu s v expectnot voffp load))
  ppc_code-Implements true (load_cbeq_store_add_load_store v expectnot voffp load) cpu P h =
      absurd cc
  ppc_code-Implements false (load_add_store v count) cpu P h = some-Implements M h (
      Unready-Implements M (finds_cs ∷ finds_cs ∷ finds_cs ∷ finds_cs ∷ finds_cs ∷ [])
        (load_add_store v count) cpu (load_add_store_body v count cpu) (λ a n. refl)
        (λ s. load_add_store-Lands M cpu s v count))
  ppc_code-Implements true (load_add_store v count) cpu P h = absurd cc
  ppc_code-Implements false (load_cbne_load_cbne_store v expect v2 expect2 newv) cpu P h =
      some-Implements M h (
        Unready-Implements M (finds_cs ∷ finds_cs ∷ finds_cs ∷ finds_cs ∷ finds_cs ∷ [])
          (load_cbne_load_cbne_store v expect v2 expect2 newv) cpu
          (load_cbne_load_cbne_store_body v expect v2 expect2 newv cpu) (λ a n. refl)
          (λ s. load_cbne_load_cbne_store-Lands M cpu s v expect v2 expect2 newv))
  ppc_code-Implements true (load_cbne_load_cbne_store v expect v2 expect2 newv) cpu P h = absurd cc
  ppc_code-Implements false (load_cbne_store_store v expect v2 newv2 newv) cpu P h =
      some-Implements M h (
        Unready-Implements M (finds_cs ∷ finds_cs ∷ finds_cs ∷ finds_cs ∷ finds_cs ∷ [])
          (load_cbne_store_store v expect v2 newv2 newv) cpu
          (load_cbne_store_store_body false v expect v2 newv2 newv cpu) (λ a n. refl)
          (λ s. load_cbne_store_store-Lands M cpu s false v expect v2 newv2 newv))
  ppc_code-Implements true (load_cbne_store_store v expect v2 newv2 newv) cpu P h =
      some-Implements M h (
        Unready-Implements M (finds_cs ∷ finds_cs ∷ finds_cs ∷ finds_cs ∷ finds_cs ∷ [])
          (load_cbne_store_store v expect v2 newv2 newv) cpu
          (load_cbne_store_store_body true v expect v2 newv2 newv cpu) (λ a n. refl)
          (λ s. load_cbne_store_store-Lands M cpu s true v expect v2 newv2 newv))
  ppc_code-Implements false (load_cbne_memcpy_store v expect dst src len newv) cpu P h = absurd cc
  ppc_code-Implements true (load_cbne_memcpy_store v expect dst src len newv) cpu P h = absurd cc
  ppc_code-Implements false (load_add_load_load_add_store ptr off inc) cpu P h = absurd cc
  ppc_code-Implements true (load_add_load_load_add_store ptr off inc) cpu P h = absurd cc

  -- Left alone at its start, a section that ppc_code gives for a call is left after finitely many steps:
  -- on the CPU of the call with the effect and the result of the pseudo-code, on another CPU with the
  -- memory unchanged and for the return of -1.
  pub ppc_code-Lands :
      (release : Bool) (call : Call) (cpu : ℕ) (P : Program) (s : State M)
      → ppc_code release call cpu ≡ some P
      → s.pc ≡ P.start_ip
      → Lands M P s (attempt M call cpu s)
  ppc_code-Lands release call cpu P s h at =
      Implements-Lands M (ppc_code-Implements release call cpu P h) at tt

  -- Whatever interrupts it, a run of a section that ppc_code gives for a call, from its entry on, either
  -- returns -1 or has at one point gone through its whole section uninterrupted on the CPU of the
  -- call, with the effect on the memory and the result of the pseudo-code.
  pub ppc_code-Atomic :
      (release : Bool) (call : Call) (cpu : ℕ) (P : Program) {s t : State M} {e : Exit}
      → ppc_code release call cpu ≡ some P
      → s.pc ≡ 0
      → Run M P s e t
      → (e ≡ abort) ⊎ Atomic M P call cpu s e t
  ppc_code-Atomic release call cpu P h at run =
      Implements-Atomic M (ppc_code-Implements release call cpu P h) at tt run
