-- ===== src/Critical/Implements.antt =====
-- The guarantee of the critical sections, whatever the architecture: all or nothing, on the CPU that
-- was asked for.
use librseq.Base.{
  some, subst, length, [], List, ℕ, Bool, ◌≡◌, ◌<◌, ◌∙◌, ◌==◌, ◌⊎◌, sym, refl, ap, true, false,
  if◌then◌else◌, inl, inr, arith,
}
use librseq.Mempool.Memory.{Memory}
use librseq.Critical.Machine.{assemble, program, Instr, Exit, abort, Program, State, Run, Quiet}
use librseq.Critical.Pseudo.{
  Call, pseudo, load_cbne_store, load_cbeq_store_add_load_store, load_add_store,
  load_add_load_load_add_store, load_cbne_load_cbne_store, load_cbne_store_store,
  load_cbne_memcpy_store,
}
use librseq.Critical.Quiet.{Leads-Run, Run-Quiet, Quiet-unique}
use librseq.Critical.Entry.{Reach, Run-Started, SameOperands}
use librseq.Critical.Instrs.{all_inner}
use librseq.Critical.Lands.{Lands, ip_of}
use librseq.Critical.Shape.{
  prologue_pos, program-Shape, teardown_of, prologue_of, Restore, Setup, Shape,
}

module _ (M : Memory) where
  open M use {Mem}

  -- The comparison of the CPU, then the pseudo-code.
  abbrev pub attempt : Call → ℕ → State M → Exit × Mem
  attempt call cpu s = if s.cpu == cpu then pseudo M call s.mem else (abort, s.mem)

  -- The registers hold the operands of a copy that goes through them.
  abbrev pub Holds : Call → State M → Type 0
  Holds (load_cbne_store v expect newv) s = Unit
  Holds (load_cbeq_store_add_load_store v expectnot voffp load) s = Unit
  Holds (load_add_store v count) s = Unit
  Holds (load_add_load_load_add_store ptr off inc) s = Unit
  Holds (load_cbne_load_cbne_store v expect v2 expect2 newv) s = Unit
  Holds (load_cbne_store_store v expect v2 newv2 newv) s = Unit
  Holds (load_cbne_memcpy_store v expect dst src len newv) s =
      (s.src ≡ src) × (s.dst ≡ dst) × (s.len ≡ len)

  -- What a section must be shown to do: left alone, at its start and with the operands ready, it
  -- comes to what the attempt says.
  pub record Implements (Ready : State M → Type 0) (P : Program) (call : Call) (cpu : ℕ)
      : Type 0 where
    pub shape : Shape M P
    pub start_pos : 0 < P.start_ip
    pub keeps : (s t : State M) → SameOperands M P s t → Ready s → Ready t
    pub lands : (s : State M) → s.pc ≡ P.start_ip → Ready s → Lands M P s (attempt call cpu s)

  -- The run from `s` that returns `e` in `t` has, at one point, gone through the whole section in one
  -- go on the call's CPU, to the effect and with the result of the pseudo-code.
  pub record Atomic (P : Program) (call : Call) (cpu : ℕ) (s : State M) (e : Exit) (t : State M)
      : Type 0 where
    pub first : State M
    pub last : State M
    pub reached : Reach M P s first
    pub on_cpu : first.cpu ≡ cpu
    pub section : Quiet M P first last
    pub does : pseudo M call first.mem ≡ (e, last.mem)
    pub rest : Run M P last e t

  settle :
      (P : Program) (call : Call) (cpu : ℕ) {s first last t : State M} {e : Exit}
      → Reach M P s first
      → Quiet M P first last
      → Run M P last e t
      → (b : Bool) → (first.cpu == cpu) ≡ b
      → e ≡ (if b then pseudo M call first.mem else (abort, first.mem)).0
      → last.mem ≡ (if b then pseudo M call first.mem else (abort, first.mem)).1
      → (e ≡ abort) ⊎ Atomic P call cpu s e t
  settle P call cpu reached quiet rest false h result mem = inl result
  settle P call cpu {first = first} {last = last} reached quiet rest true h result mem =
      inr (record {
        first = first;
        last = last;
        reached = reached;
        on_cpu = ground arith;
        section = quiet;
        does = rw (result, mem) refl;
        rest = rest;
      })

  -- Whatever interrupts it, a run from the entry of a code that implements a call, if it does not
  -- return -1, is atomic.
  pub Implements-Atomic :
      {Ready : State M → Type 0} {P : Program} {call : Call} {cpu : ℕ} {s t : State M} {e : Exit}
      → Implements Ready P call cpu
      → s.pc ≡ 0
      → Ready s
      → Run M P s e t
      → (e ≡ abort) ⊎ Atomic P call cpu s e t
  Implements-Atomic {P = P} {call = call} {cpu = cpu} {s = s} implements at ready run =
      let shape = implements.shape in
      let (first, started, section) =
        Run-Started M P shape.opens run (omega arith)
          (λ h. absurd (omega (arith, implements.start_pos))) in
      let kept = implements.keeps s first started.same ready in
      elim (Run-Quiet M P shape.body (shape.leads abort) section started.set) [
        | inl a ↦ inl a
        | inr (last, quiet, rest) ↦
            let lands = implements.lands first started.at_start kept in
            let same : lands.last ≡ last = Quiet-unique M P lands.quiet quiet in
            let goes : last.pc ≡ ip_of P (attempt call cpu first).0 =
              ap (λ (x : State M). x.pc) (sym same) ∙ lands.goes in
            let e = Leads-Run M P (shape.leads (attempt call cpu first).0) goes rest in
            settle P call cpu started.reached quiet rest (first.cpu == cpu) refl e
              (ap (λ (x : State M). x.mem) (sym same) ∙ lands.leaves_mem)
      ]

  -- A code that is its section with the prologue and the teardown.
  module _ (xs : List Setup) (body : List Instr) (ys : List Restore) where
    abbrev P : Program
    P = program (prologue_of xs) body (teardown_of ys)

    at_pc : (s : State M) (k : ℕ) → s.pc ≡ k → record s { pc = k } ≡ s
    at_pc s k h = rw (sym h) refl

    pub program-Implements :
        (Ready : State M → Type 0) (call : Call) (cpu : ℕ)
        → all_inner body ≡ true
        → ((s t : State M) → SameOperands M P s t → Ready s → Ready t)
        → ((s : State M)
            → Ready s
            → Lands M P (record s { pc = length (prologue_of xs) }) (attempt call cpu s))
        → Implements Ready P call cpu
    unfolding program
    program-Implements Ready call cpu inner keeps lands = record {
      shape = program-Shape M xs body ys inner;
      start_pos = prologue_pos xs;
      keeps = keeps;
      lands = λ s at ready.
          subst (λ t. Lands M P t (attempt call cpu s)) (at_pc s (length (prologue_of xs)) at)
            (lands s ready);
    }

  -- The same for a section whose ways out are labels.
  pub assemble-Implements :
      (xs : List Setup) (body : ℕ → ℕ → List Instr) (ys : List Restore) (Ready : State M → Type 0)
      (call : Call) (cpu : ℕ)
      → ((a n : ℕ) → all_inner (body a n) ≡ true)
      → ((s t : State M)
          → SameOperands M (assemble (prologue_of xs) body (teardown_of ys)) s t
          → Ready s
          → Ready t)
      → ((s : State M)
          → Ready s
          → Lands M
              (assemble (prologue_of xs) body (teardown_of ys))
              (record s { pc = length (prologue_of xs) })
              (attempt call cpu s))
      → Implements Ready (assemble (prologue_of xs) body (teardown_of ys)) call cpu
  unfolding assemble
  assemble-Implements xs body ys Ready call cpu inner keeps lands =
      program-Implements xs (body _ _) ys Ready call cpu (inner _ _) keeps lands

  -- Nothing has to be ready where the registers of the operands do not change.
  abbrev pub Unready : State M → Type 0
  Unready s = Unit

  pub Unready-Implements :
      (xs : List Setup) (call : Call) (cpu : ℕ) (body : ℕ → ℕ → List Instr)
      → ((a n : ℕ) → all_inner (body a n) ≡ true)
      → ((s : State M)
          → Lands M
              (assemble (prologue_of xs) body [])
              (record s { pc = length (prologue_of xs) })
              (attempt call cpu s))
      → Implements Unready (assemble (prologue_of xs) body []) call cpu
  Unready-Implements xs call cpu body inner lands =
      assemble-Implements xs body [] Unready call cpu inner (λ s t same ready. tt)
        (λ s ready. lands s)

  Holds-Same :
      (P : Program) (call : Call) {s t : State M}
      → SameOperands M P s t
      → Holds call s
      → Holds call t
  Holds-Same P (load_cbne_store v expect newv) same h = tt
  Holds-Same P (load_cbeq_store_add_load_store v expectnot voffp load) same h = tt
  Holds-Same P (load_add_store v count) same h = tt
  Holds-Same P (load_add_load_load_add_store ptr off inc) same h = tt
  Holds-Same P (load_cbne_load_cbne_store v expect v2 expect2 newv) same h = tt
  Holds-Same P (load_cbne_store_store v expect v2 newv2 newv) same h = tt
  Holds-Same P (load_cbne_memcpy_store v expect dst src len newv) same h =
      (same.src ∙ h.0, same.dst ∙ h.1, same.len ∙ h.2)

  pub Holds-Implements :
      (xs : List Setup) (body : ℕ → ℕ → List Instr) (ys : List Restore) (call : Call) (cpu : ℕ)
      → ((a n : ℕ) → all_inner (body a n) ≡ true)
      → ((s : State M)
          → Holds call s
          → Lands M
              (assemble (prologue_of xs) body (teardown_of ys))
              (record s { pc = length (prologue_of xs) })
              (attempt call cpu s))
      → Implements (Holds call) (assemble (prologue_of xs) body (teardown_of ys)) call cpu
  Holds-Implements xs body ys call cpu inner lands =
      assemble-Implements xs body ys (Holds call) call cpu inner
        (λ s t same h. Holds-Same (assemble (prologue_of xs) body (teardown_of ys)) call same h)
        lands

  pub Implements-Lands :
      {Ready : State M → Type 0} {P : Program} {call : Call} {cpu : ℕ} {s : State M}
      → Implements Ready P call cpu
      → s.pc ≡ P.start_ip
      → Ready s
      → Lands M P s (attempt call cpu s)
  Implements-Lands {s = s} implements at ready = implements.lands s at ready

  -- A lookup that finds a code that implements a call.
  pub some-Implements :
      {Ready : State M → Type 0} {P Q : Program} {call : Call} {cpu : ℕ}
      → some P ≡ some Q
      → Implements Ready P call cpu
      → Implements Ready Q call cpu
  some-Implements {P = P} {Q = Q} h implements = let same : P ≡ Q = cc in rw same at implements
