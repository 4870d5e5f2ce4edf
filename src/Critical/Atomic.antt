-- ===== src/Critical/Atomic.antt =====
-- The guarantee of the x86-64 sections: all or nothing, on the CPU that was asked for.
use librseq.Base.{List, true, ℕ, ◌≡◌, ◌⊎◌, ◌∙◌, refl, [], ◌∷◌}
use librseq.Mempool.Memory.{Memory}
use librseq.Critical.Machine.{Instr, Exit, abort, State, Run, program}
use librseq.Critical.Pseudo.{
  Call, load_cbne_store, load_cbeq_store_add_load_store, load_add_store,
  load_add_load_load_add_store, load_cbne_load_cbne_store, load_cbne_store_store,
  load_cbne_memcpy_store,
}
use librseq.Critical.Entry.{SameOperands}
use librseq.Critical.Code.{
  code_of, store_rseq_cs, load_cbne_store_code, load_cbne_store_body,
  load_cbeq_store_add_load_store_code, load_cbeq_store_add_load_store_body, load_add_store_code,
  load_add_store_body, load_cbne_load_cbne_store_code, load_cbne_load_cbne_store_body,
  load_cbne_store_store_code, load_cbne_store_store_body, load_cbne_memcpy_store_code,
  load_cbne_memcpy_store_body, load_add_load_load_add_store_code, load_add_load_load_add_store_body,
}
use librseq.Critical.Instrs.{all_inner}
use librseq.Critical.Shape.{
  finds_cs, saves_src, saves_dst, saves_len, restores_src, restores_dst, restores_len,
}
use librseq.Critical.Lands.{Lands}
use librseq.Critical.Sections.{
  load_cbne_store-Lands, load_cbeq_store_add_load_store-Lands, load_add_store-Lands,
  load_cbne_load_cbne_store-Lands, load_cbne_store_store-Lands, load_add_load_load_add_store-Lands,
}
use librseq.Critical.Copy.{load_cbne_memcpy_store-Lands}
use librseq.Critical.Implements.{
  attempt, Implements, Implements-Lands, Implements-Atomic, Atomic, program-Implements, Holds,
}

module _ (M : Memory) where
  short :
      (call : Call) (cpu : ℕ) (body : List Instr)
      → all_inner body ≡ true
      → ((s : State M)
          → Lands M (program store_rseq_cs body []) (record s { pc = 2 }) (attempt M call cpu s))
      → ((s t : State M)
          → SameOperands M (program store_rseq_cs body []) s t
          → Holds M call s
          → Holds M call t)
      → Implements M (Holds M call) (program store_rseq_cs body []) call cpu
  short call cpu body inner lands keeps =
      program-Implements M (finds_cs ∷ []) body [] (Holds M call) call cpu inner keeps
        (λ s ready. lands s)

  code_of-Implements :
      (call : Call) (cpu : ℕ) → Implements M (Holds M call) (code_of call cpu) call cpu
  unfolding code_of load_cbne_store_code load_cbeq_store_add_load_store_code load_add_store_code
      load_cbne_load_cbne_store_code load_cbne_store_store_code load_cbne_memcpy_store_code
      load_add_load_load_add_store_code
  code_of-Implements (load_cbne_store v expect newv) cpu =
      short (load_cbne_store v expect newv) cpu (load_cbne_store_body v expect newv cpu) refl
        (λ s. load_cbne_store-Lands M cpu s v expect newv) (λ s t same h. tt)
  code_of-Implements (load_cbeq_store_add_load_store v expectnot voffp load) cpu =
      short (load_cbeq_store_add_load_store v expectnot voffp load) cpu
        (load_cbeq_store_add_load_store_body v expectnot voffp load cpu) refl
        (λ s. load_cbeq_store_add_load_store-Lands M cpu s v expectnot voffp load)
        (λ s t same h. tt)
  code_of-Implements (load_add_store v count) cpu =
      short (load_add_store v count) cpu (load_add_store_body v count cpu) refl
        (λ s. load_add_store-Lands M cpu s v count) (λ s t same h. tt)
  code_of-Implements (load_cbne_load_cbne_store v expect v2 expect2 newv) cpu =
      short (load_cbne_load_cbne_store v expect v2 expect2 newv) cpu
        (load_cbne_load_cbne_store_body v expect v2 expect2 newv cpu) refl
        (λ s. load_cbne_load_cbne_store-Lands M cpu s v expect v2 expect2 newv) (λ s t same h. tt)
  code_of-Implements (load_cbne_store_store v expect v2 newv2 newv) cpu =
      short (load_cbne_store_store v expect v2 newv2 newv) cpu
        (load_cbne_store_store_body v expect v2 newv2 newv cpu) refl
        (λ s. load_cbne_store_store-Lands M cpu s v expect v2 newv2 newv) (λ s t same h. tt)
  code_of-Implements (load_add_load_load_add_store ptr off inc) cpu =
      short (load_add_load_load_add_store ptr off inc) cpu
        (load_add_load_load_add_store_body ptr off inc cpu) refl
        (λ s. load_add_load_load_add_store-Lands M cpu s ptr off inc) (λ s t same h. tt)
  code_of-Implements (load_cbne_memcpy_store v expect dst src len newv) cpu =
      program-Implements M (saves_src ∷ saves_dst ∷ saves_len ∷ finds_cs ∷ [])
        (load_cbne_memcpy_store_body v expect newv cpu)
        (restores_len ∷ restores_dst ∷ restores_src ∷ [])
        (Holds M (load_cbne_memcpy_store v expect dst src len newv))
        (load_cbne_memcpy_store v expect dst src len newv) cpu refl
        (λ s t same h. (same.src ∙ h.0, same.dst ∙ h.1, same.len ∙ h.2))
        (λ s held. load_cbne_memcpy_store-Lands M v expect newv cpu dst src len s held)

  -- A section that is not interrupted is left after finitely many steps. On the CPU of the call it
  -- does what the pseudo-code says and goes on to the return of the same value; on another one it
  -- changes no memory and goes on to the return of -1.
  pub code_of-Lands :
      (call : Call) (cpu : ℕ) (s : State M)
      → s.pc ≡ (code_of call cpu).start_ip
      → Holds M call s
      → Lands M (code_of call cpu) s (attempt M call cpu s)
  code_of-Lands call cpu s at holds = Implements-Lands M (code_of-Implements call cpu) at holds

  -- Whatever interrupts it, a run of a helper from its entry that does not return -1 is atomic.
  pub Run-Atomic :
      (call : Call) (cpu : ℕ) {s t : State M} {e : Exit}
      → s.pc ≡ 0
      → Holds M call s
      → Run M (code_of call cpu) s e t
      → (e ≡ abort) ⊎ Atomic M (code_of call cpu) call cpu s e t
  Run-Atomic call cpu at holds run = Implements-Atomic M (code_of-Implements call cpu) at holds run
