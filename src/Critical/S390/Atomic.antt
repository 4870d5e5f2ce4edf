-- ===== src/Critical/S390/Atomic.antt =====
-- The guarantee of the s390x sections.
use librseq.Base.{ℕ, Bool, ◌≡◌, ◌⊎◌, true, false, refl, some, [], ◌∷◌}
use librseq.Mempool.Memory.{Memory}
use librseq.Critical.Machine.{Exit, abort, Program, State, Run}
use librseq.Critical.Pseudo.{
  Call, load_cbne_store, load_cbeq_store_add_load_store, load_add_store, load_cbne_load_cbne_store,
  load_cbne_store_store, load_cbne_memcpy_store, load_add_load_load_add_store,
}
use librseq.Critical.Shape.{
  finds_cs, saves_src, saves_dst, saves_len, restores_src, restores_dst, restores_len,
}
use librseq.Critical.Lands.{Lands}
use librseq.Critical.Implements.{
  attempt, Implements, Atomic, Implements-Atomic, Implements-Lands, Holds-Implements,
  some-Implements, Holds,
}
use librseq.Critical.S390.Code.{
  s390_code, load_cbne_store_code, load_cbne_store_body, load_cbeq_store_add_load_store_code,
  load_cbeq_store_add_load_store_body, load_add_store_code, load_add_store_body,
  load_cbne_load_cbne_store_code, load_cbne_load_cbne_store_body, load_cbne_store_store_code,
  load_cbne_store_store_body, load_cbne_memcpy_store_code, load_cbne_memcpy_store_body,
}
use librseq.Critical.S390.Sections.{
  load_cbne_store-Lands, load_cbeq_store_add_load_store-Lands, load_add_store-Lands,
  load_cbne_load_cbne_store-Lands, load_cbne_store_store-Lands,
}
use librseq.Critical.S390.Copy.{copy-Lands}

module _ (M : Memory) where
  s390_code-Implements :
      (release : Bool) (call : Call) (cpu : ℕ) (P : Program)
      → s390_code release call cpu ≡ some P
      → Implements M (Holds M call) P call cpu
  unfolding s390_code load_cbne_store_code load_cbeq_store_add_load_store_code load_add_store_code
      load_cbne_load_cbne_store_code load_cbne_store_store_code load_cbne_memcpy_store_code
  s390_code-Implements false (load_cbne_store v expect newv) cpu P h = some-Implements M h (
      Holds-Implements M (finds_cs ∷ []) (load_cbne_store_body v expect newv cpu) []
        (load_cbne_store v expect newv) cpu (λ a n. refl)
        (λ s held. load_cbne_store-Lands M cpu s v expect newv))
  s390_code-Implements true (load_cbne_store v expect newv) cpu P h = absurd cc
  s390_code-Implements false (load_cbeq_store_add_load_store v expectnot voffp load) cpu P h =
      some-Implements M h (
        Holds-Implements M (finds_cs ∷ [])
          (load_cbeq_store_add_load_store_body v expectnot voffp load cpu) []
          (load_cbeq_store_add_load_store v expectnot voffp load) cpu (λ a n. refl)
          (λ s held. load_cbeq_store_add_load_store-Lands M cpu s v expectnot voffp load))
  s390_code-Implements true (load_cbeq_store_add_load_store v expectnot voffp load) cpu P h =
      absurd cc
  s390_code-Implements false (load_add_store v count) cpu P h = some-Implements M h (
      Holds-Implements M (finds_cs ∷ []) (load_add_store_body v count cpu) []
        (load_add_store v count) cpu (λ a n. refl) (λ s held. load_add_store-Lands M cpu s v count))
  s390_code-Implements true (load_add_store v count) cpu P h = absurd cc
  s390_code-Implements false (load_cbne_load_cbne_store v expect v2 expect2 newv) cpu P h =
      some-Implements M h (
        Holds-Implements M (finds_cs ∷ [])
          (load_cbne_load_cbne_store_body v expect v2 expect2 newv cpu) []
          (load_cbne_load_cbne_store v expect v2 expect2 newv) cpu (λ a n. refl)
          (λ s held. load_cbne_load_cbne_store-Lands M cpu s v expect v2 expect2 newv))
  s390_code-Implements true (load_cbne_load_cbne_store v expect v2 expect2 newv) cpu P h = absurd cc
  s390_code-Implements false (load_cbne_store_store v expect v2 newv2 newv) cpu P h =
      some-Implements M h (
        Holds-Implements M (finds_cs ∷ []) (load_cbne_store_store_body v expect v2 newv2 newv cpu)
          [] (load_cbne_store_store v expect v2 newv2 newv) cpu (λ a n. refl)
          (λ s held. load_cbne_store_store-Lands M cpu s v expect v2 newv2 newv))
  s390_code-Implements true (load_cbne_store_store v expect v2 newv2 newv) cpu P h =
      some-Implements M h (
        Holds-Implements M (finds_cs ∷ []) (load_cbne_store_store_body v expect v2 newv2 newv cpu)
          [] (load_cbne_store_store v expect v2 newv2 newv) cpu (λ a n. refl)
          (λ s held. load_cbne_store_store-Lands M cpu s v expect v2 newv2 newv))
  s390_code-Implements false (load_cbne_memcpy_store v expect dst src len newv) cpu P h =
      some-Implements M h (
        Holds-Implements M (saves_src ∷ saves_dst ∷ saves_len ∷ finds_cs ∷ [])
          (load_cbne_memcpy_store_body v expect newv cpu)
          (restores_len ∷ restores_dst ∷ restores_src ∷ [])
          (load_cbne_memcpy_store v expect dst src len newv) cpu (λ a n. refl)
          (λ s held. copy-Lands M v expect newv cpu dst src len s held))
  s390_code-Implements true (load_cbne_memcpy_store v expect dst src len newv) cpu P h =
      some-Implements M h (
        Holds-Implements M (saves_src ∷ saves_dst ∷ saves_len ∷ finds_cs ∷ [])
          (load_cbne_memcpy_store_body v expect newv cpu)
          (restores_len ∷ restores_dst ∷ restores_src ∷ [])
          (load_cbne_memcpy_store v expect dst src len newv) cpu (λ a n. refl)
          (λ s held. copy-Lands M v expect newv cpu dst src len s held))
  s390_code-Implements false (load_add_load_load_add_store ptr off inc) cpu P h = absurd cc
  s390_code-Implements true (load_add_load_load_add_store ptr off inc) cpu P h = absurd cc

  -- Left alone at its start, with the operands of a copy in their registers, a section that
  -- s390_code gives for a call is left after finitely many steps: on the CPU of the call with the effect
  -- and the result of the pseudo-code, on another CPU with the memory unchanged and for the return
  -- of -1.
  pub s390_code-Lands :
      (release : Bool) (call : Call) (cpu : ℕ) (P : Program) (s : State M)
      → s390_code release call cpu ≡ some P
      → s.pc ≡ P.start_ip
      → Holds M call s
      → Lands M P s (attempt M call cpu s)
  s390_code-Lands release call cpu P s h at held =
      Implements-Lands M (s390_code-Implements release call cpu P h) at held

  -- Whatever interrupts it, a run of a section that s390_code gives for a call, from its entry on and with
  -- the operands of a copy in their registers, either returns -1 or has at one point gone through its
  -- whole section uninterrupted on the CPU of the call, with the effect on the memory and the result
  -- of the pseudo-code.
  pub s390_code-Atomic :
      (release : Bool) (call : Call) (cpu : ℕ) (P : Program) {s t : State M} {e : Exit}
      → s390_code release call cpu ≡ some P
      → s.pc ≡ 0
      → Holds M call s
      → Run M P s e t
      → (e ≡ abort) ⊎ Atomic M P call cpu s e t
  s390_code-Atomic release call cpu P h at held run =
      Implements-Atomic M (s390_code-Implements release call cpu P h) at held run
