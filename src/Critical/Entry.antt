-- ===== src/Critical/Entry.antt =====
-- From the entry of the C function to the start of its section.
use librseq.Base.{
  ◌^◌, ℕ, ◌+◌, ◌≤◌, ◌<◌, ◌≡◌, ◌∙◌, sym, refl, ap, true, arith, some, get_elem?, dec_lt,
}
use librseq.Mempool.Memory.{Memory}
use librseq.Critical.Machine.{
  Exit, Instr, Program, State, running, step, exec, Interrupted, Run, returns, steps, interrupted,
}
use librseq.Critical.Quiet.{step_at, running_ne, same_state}

module _ (M : Memory) (P : Program) where
  -- The registers that hold the operands of the copy loop, and the width of the CPU field.
  pub record SameOperands (s t : State M) : Type 0 where
    pub src : t.src ≡ s.src
    pub dst : t.dst ≡ s.dst
    pub len : t.len ≡ s.len
    pub fits : s.cpu < 2 ^ 32 → t.cpu < 2 ^ 32

  -- Steps and interrupts.
  pub data Reach : State M → State M → Type 0 where
    here : {s : State M} → Reach s s
    stepped : {s t u : State M} → step M P s ≡ running t → Reach t u → Reach s u
    interrupted_by : {s t u : State M} → Interrupted M P s t → Reach t u → Reach s u

  -- An instruction at `k` before the section; the last one sets the descriptor.
  abbrev pub Opens : ℕ → Instr → Type 0
  Opens k i =
      (s : State M)
      → (t : State M) × (exec M i s ≡ running t)
        × (t.pc ≡ s.pc + 1)
        × SameOperands s t
        × (k + 1 ≡ P.start_ip → t.rseq_cs ≡ true)

  abbrev pub Prologue : Type 0
  Prologue = (k : ℕ) → k < P.start_ip → (i : Instr) × (get_elem? P.code k ≡ some i) × Opens k i

  -- The section is about to start in `t`, with the operands of `s`.
  pub record Started (s t : State M) : Type 0 where
    pub reached : Reach s t
    pub at_start : t.pc ≡ P.start_ip
    pub set : t.rseq_cs ≡ true
    pub same : SameOperands s t

  arrived : (s : State M) → s.pc ≡ P.start_ip → s.rseq_cs ≡ true → Started s s
  arrived s at set = record {
    reached = here;
    at_start = at;
    set = set;
    same = record { src = refl; dst = refl; len = refl; fits = λ h. h };
  }

  then_Started :
      {s t u : State M} → (Reach t u → Reach s u) → SameOperands s t → Started t u → Started s u
  then_Started extend same started = record {
    reached = extend started.reached;
    at_start = started.at_start;
    set = started.set;
    same = record {
      src = started.same.src ∙ same.src;
      dst = started.same.dst ∙ same.dst;
      len = started.same.len ∙ same.len;
      fits = λ h. started.same.fits (same.fits h);
    };
  }

  opened :
      Prologue
      → (s : State M) → s.pc < P.start_ip
      → (t : State M) × (step M P s ≡ running t)
        × (t.pc ≡ s.pc + 1)
        × SameOperands s t
        × (s.pc + 1 ≡ P.start_ip → t.rseq_cs ≡ true)
  opened opens s lt =
      let (i, at, leads) = opens s.pc lt in
      let (t, e, pc, same, set) = leads s in (t, step_at M P s s.pc i refl at ∙ e, pc, same, set)

  -- A run from the entry, whatever interrupts it, comes to the start of its section with the
  -- descriptor set, if every instruction before leads on and the last one sets it.
  pub Run-Started :
      {e : Exit} {s u : State M}
      → Prologue
      → Run M P s e u
      → s.pc ≤ P.start_ip
      → (s.pc ≡ P.start_ip → s.rseq_cs ≡ true)
      → (t : State M) × Started s t × Run M P t e u
  Run-Started {s = s} opens (returns r) le set = elim (dec_lt s.pc P.start_ip) [
    | yes lt ↦ absurd (running_ne M P (sym (opened opens s lt).1 ∙ r))
    | no ge ↦ (s, arrived s (omega arith) (set (omega arith)), returns r)
  ]
  Run-Started {s = s} opens (steps {s' = s'} r next) le set = elim (dec_lt s.pc P.start_ip) [
    | yes lt ↦
        let (t, e, pc, same, t_set) = opened opens s lt in
        let eq : s' ≡ t = same_state M P (sym e ∙ r) in
        let pc' : s'.pc ≡ s.pc + 1 = ap (λ (x : State M). x.pc) eq ∙ pc in
        let (w, started, rest) =
          Run-Started opens next (omega arith)
            (λ at. ap (λ (x : State M). x.rseq_cs) eq ∙ t_set (omega arith)) in
        (w, then_Started (stepped r) (rw eq same) started, rest)
    | no ge ↦ (s, arrived s (omega arith) (set (omega arith)), steps r next)
  ]
  Run-Started {s = s} opens (interrupted {s' = s'} i next) le set = elim (dec_lt s.pc P.start_ip) [
    | yes lt ↦
        let pc : s'.pc ≡ s.pc = i.continues (ground arith) in
        let (w, started, rest) =
          Run-Started opens next (omega arith) (λ at. absurd (omega arith)) in
        (
          w,
          then_Started (interrupted_by i)
              (record { src = i.src; dst = i.dst; len = i.len; fits = i.fits }) started,
          rest,
        )
    | no ge ↦ (s, arrived s (omega arith) (set (omega arith)), interrupted i next)
  ]
