-- ===== src/Critical/Quiet.antt =====
-- What the kernel's restart makes of a section: a run that does not return -1 went through it
-- without an interrupt.
use librseq.Base.{
  ℕ, zero, suc, ◌+◌, ◌≤◌, ◌<◌, ◌≡◌, ◌∙◌, sym, refl, ap, true, false, Bool-cases, inl, inr, arith,
  ◌⊎◌, Option, none, some, get_elem?, if◌then◌else◌,
}
use librseq.Mempool.Memory.{Memory}
use librseq.Critical.Machine.{
  Exit, abort, Instr, ret, Program, State, Machine, running, returned, stuck, step, exec, fetch,
  inside, Run, returns, steps, interrupted, Quiet, leaves, stays,
}

abbrev pub on_running {ℓ} : {M : Memory} {A : Type ℓ} → (State M → Option A) → Machine M → Option A
on_running f (running s) = f s
on_running f (returned e s) = none
on_running f stuck = none

pub on_running-eq_some {ℓ} :
    {M : Memory} {A : Type ℓ} {a : A} (f : State M → Option A) (x : Machine M)
    → on_running f x ≡ some a
    → (s : State M) × (x ≡ running s) × (f s ≡ some a)
on_running-eq_some f (running s) h = (s, refl, h)
on_running-eq_some f (returned e s) h = cc
on_running-eq_some f stuck h = cc

module _ (M : Memory) (P : Program) where
  -- An instruction that neither jumps nor returns.
  abbrev pub Passes : Instr → Type 0
  Passes i = (s : State M) → (t : State M) × (exec M i s ≡ running t) × (t.pc ≡ s.pc + 1)

  -- From `k` on, outside the section, the code passes through to a `return` of `e`.
  pub data Leads (e : Exit) : ℕ → Type 0 where
    here : {k : ℕ} → get_elem? P.code k ≡ some (ret e) → P.commit_ip ≤ k → Leads e k
    on :
        {k : ℕ} (i : Instr)
        → get_elem? P.code k ≡ some i
        → Passes i
        → P.commit_ip ≤ k
        → Leads e (k + 1)
        → Leads e k

  -- What a step does where the instruction is known.
  pub step_at :
      (s : State M) (k : ℕ) (i : Instr)
      → s.pc ≡ k
      → get_elem? P.code k ≡ some i
      → step M P s ≡ exec M i s
  unfolding step fetch
  step_at s k i pc h = rw (pc, h, fetch) refl

  same_exit :
      {e e' : Exit} {s t : State M} → ◌≡◌ {A = Machine M} (returned e s) (returned e' t) → e' ≡ e
  same_exit h = cc

  pub same_state : {s t : State M} → ◌≡◌ {A = Machine M} (running s) (running t) → t ≡ s
  same_state h = cc

  pub running_ne : {e : Exit} {s t : State M} → ◌≡◌ {A = Machine M} (running s) (returned e t) → ⊥
  running_ne h = cc

  outside : (s : State M) → P.commit_ip ≤ s.pc → inside M P s ≡ false
  outside s h = ground arith

  pub Leads-Run :
      {e e' : Exit} {k : ℕ} {s t : State M} → Leads e k → s.pc ≡ k → Run M P s e' t → e' ≡ e
  unfolding exec
  Leads-Run {s = s} (here h c) pc (returns r) = same_exit (sym (step_at s _ _ pc h) ∙ r)
  Leads-Run {s = s} (here h c) pc (steps r next) = absurd (running_ne (sym r ∙ step_at s _ _ pc h))
  Leads-Run {s = s} (here h c) pc (interrupted i run) =
      Leads-Run (here h c) (i.continues (outside s (omega arith)) ∙ pc) run
  Leads-Run {s = s} (on i h p c l) pc (returns r) =
      absurd (running_ne (sym (p s).1 ∙ sym (step_at s _ _ pc h) ∙ r))
  Leads-Run {s = s} (on i h p c l) pc (steps r next) =
      Leads-Run l
        (ap (λ (u : State M). u.pc) (same_state (sym (p s).1 ∙ sym (step_at s _ _ pc h) ∙ r))
          ∙ (p s).2
          ∙ ap (λ k. k + 1) pc)
        next
  Leads-Run {s = s} (on i h p c l) pc (interrupted j run) =
      Leads-Run (on i h p c l) (j.continues (outside s (omega arith)) ∙ pc) run

  -- An instruction of the section does not return, and leaves `rseq_cs` set.
  abbrev pub Stays : Instr → Type 0
  Stays i = (s : State M) → (t : State M) × (exec M i s ≡ running t) × (t.rseq_cs ≡ s.rseq_cs)

  -- Every instruction of the section is one of these.
  abbrev pub Body : Type 0
  Body =
      (k : ℕ)
      → P.start_ip ≤ k
      → k < P.commit_ip
      → (i : Instr) × (get_elem? P.code k ≡ some i) × Stays i

  stay :
      Body
      → (s : State M) → inside M P s ≡ true
      → (t : State M) × (step M P s ≡ running t) × (t.rseq_cs ≡ s.rseq_cs)
  stay body s h =
      let (i, at, keeps) = body s.pc (ground arith) (ground arith) in
      let (t, e, cs) = keeps s in (t, step_at s s.pc i refl at ∙ e, cs)

  -- A run that starts in the section, with the descriptor set, is aborted, or passes through to the
  -- first state outside.
  pub Run-Quiet :
      {e : Exit} {s t : State M}
      → Body
      → Leads abort P.abort_ip
      → Run M P s e t
      → s.rseq_cs ≡ true
      → (e ≡ abort) ⊎ ((u : State M) × Quiet M P s u × Run M P u e t)
  Run-Quiet {s = s} body handler (returns r) set = elim (Bool-cases (inside M P s)) [
    | inl within ↦ absurd (running_ne (sym (stay body s within).1 ∙ r))
    | inr without ↦ inr (s, leaves without, returns r)
  ]
  Run-Quiet {s = s} body handler (interrupted i next) set = elim (Bool-cases (inside M P s)) [
    | inl within ↦ inl (Leads-Run handler (i.restarts set within) next)
    | inr without ↦ inr (s, leaves without, interrupted i next)
  ]
  Run-Quiet {s = s} body handler (steps {s' = s'} r next) set = elim (Bool-cases (inside M P s)) [
    | inl within ↦
        let (t, e, cs) = stay body s within in
        let same : s' ≡ t = same_state (sym e ∙ r) in
        elim (Run-Quiet body handler next (rw same (cs ∙ set))) [
          | inl a ↦ inl a
          | inr (u, q, rest) ↦ inr (u, stays within r q, rest)
        ]
    | inr without ↦ inr (s, leaves without, steps r next)
  ]

  -- The first state outside is the only one.
  pub Quiet-unique : {s u w : State M} → Quiet M P s u → Quiet M P s w → u ≡ w
  Quiet-unique (leaves a) (leaves b) = refl
  Quiet-unique (leaves a) (stays b r q) = cc
  Quiet-unique (stays a r q) (leaves b) = cc
  Quiet-unique (stays a r q) (stays b r' q') = Quiet-unique q (rw (same_state (sym r ∙ r')) at q')

  -- `n` steps, all of them from states of the section.
  unfoldable pub walk : ℕ → State M → Option (State M)
  walk zero s = some s
  walk (suc n) s = if inside M P s then on_running (walk n) (step M P s) else none

  pub walk-Quiet : (n : ℕ) {s t u : State M} → walk n s ≡ some t → Quiet M P t u → Quiet M P s u
  unfolding walk
  walk-Quiet zero {s = s} {t = t} h q = let same : s ≡ t = cc in rw same q
  walk-Quiet (suc n) {s = s} h q = elim (Bool-cases (inside M P s)) [
    | inl within ↦
        let (s', e, rest) = on_running-eq_some (walk n) (step M P s) (rw within at h) in
        stays within e (walk-Quiet n rest q)
    | inr without ↦ cc
  ]
