-- ===== src/Critical/Lands.antt =====
-- What a section comes to without an interrupt, found by running it.
use librseq.Base.{
  ltb, ◌%◌, ◌<◌, arith, ℕ, zero, suc, ◌≡◌, ◌==◌, Option, some, none, if◌then◌else◌, ap, Bool-cases,
  inl, inr,
}
use librseq.Mempool.Memory.{Memory}
use librseq.Critical.Machine.{
  signed_byte, Exit, success, ne, abort, Program, State, step, inside, Quiet, leaves, stays,
}
use librseq.Critical.Quiet.{walk, walk-Quiet, on_running, on_running-eq_some}

-- Where a section that comes to `e` goes on.
abbrev pub ip_of : Program → Exit → ℕ
ip_of P success = P.commit_ip
ip_of P ne = P.exit_ip
ip_of P abort = P.abort_ip

-- The exit that is at an address.
abbrev pub exit_at : Program → ℕ → Option Exit
exit_at P k =
    if k == P.commit_ip
    then some success
    else (if k == P.exit_ip then some ne else (if k == P.abort_ip then some abort else none))

exit_at-ip_of : (P : Program) (k : ℕ) (e : Exit) → exit_at P k ≡ some e → k ≡ ip_of P e
exit_at-ip_of P k e h = elim (Bool-cases (k == P.commit_ip)) [
  | inl c ↦ let same : e ≡ success = cc in rw same (ground arith)
  | inr nc ↦ elim (Bool-cases (k == P.exit_ip)) [
    | inl x ↦ let same : e ≡ ne = cc in rw same (ground arith)
    | inr nx ↦ elim (Bool-cases (k == P.abort_ip)) [
      | inl a ↦ let same : e ≡ abort = cc in rw same (ground arith)
      | inr na ↦ absurd cc
    ]
  ]
]

-- The low byte of a byte that was loaded with its sign.
pub signed_low : (b : ℕ) → b < 256 → signed_byte b % 256 ≡ b
signed_low b lt = elim (Bool-cases (ltb b 128)) [
  | inl small ↦ rw small (omega arith)
  | inr large ↦ rw large (omega arith)
]

module _ (M : Memory) where
  open M use {Mem}

  abbrev pub left : Option Exit → Mem → Option (Exit × Mem)
  left none m = none
  left (some e) m = some (e, m)

  -- The section, left alone in `s`, is left after finitely many steps, for the handler of the exit,
  -- and with the memory.
  pub record Lands (P : Program) (s : State M) (r : Exit × Mem) : Type 0 where
    pub last : State M
    pub quiet : Quiet M P s last
    pub goes : last.pc ≡ ip_of P r.0
    pub leaves_mem : last.mem ≡ r.1

  -- Steps that stay in the section come before.
  pub after_walk :
      (P : Program) (n : ℕ) {s t : State M} {r : Exit × Mem}
      → walk M P n s ≡ some t
      → Lands P t r
      → Lands P s r
  after_walk P n h l = record {
    last = l.last;
    quiet = walk-Quiet M P n h l.quiet;
    goes = l.goes;
    leaves_mem = l.leaves_mem;
  }

  -- Where a section is left within `n` steps, and with which memory.
  unfoldable pub outcome : Program → ℕ → State M → Option (Exit × Mem)
  outcome P zero s = none
  outcome P (suc n) s =
      if inside M P s then on_running (outcome P n) (step M P s) else left (exit_at P s.pc) s.mem

  left-eq_some :
      (x : Option Exit) (m : Mem) (r : Exit × Mem) → left x m ≡ some r → (x ≡ some r.0) × (m ≡ r.1)
  left-eq_some none m r h = absurd cc
  left-eq_some (some e) m (e', m') h =
      let same : (e, m) ≡ (e', m') = cc in
      (ap (λ (x : Exit × Mem). some x.0) same, ap (λ (x : Exit × Mem). x.1) same)

  -- What running a section finds is what the section comes to.
  pub outcome-Lands :
      (P : Program) (n : ℕ) {s : State M} {r : Exit × Mem} → outcome P n s ≡ some r → Lands P s r
  unfolding outcome
  outcome-Lands P zero h = absurd cc
  outcome-Lands P (suc n) {s = s} {r = r} h = elim (Bool-cases (inside M P s)) [
    | inl within ↦
        let (t, e, rest) = on_running-eq_some (outcome P n) (step M P s) (rw within at h) in
        let l = outcome-Lands P n rest in
        record {
          last = l.last;
          quiet = stays within e l.quiet;
          goes = l.goes;
          leaves_mem = l.leaves_mem;
        }
    | inr without ↦
        let (at, same) = left-eq_some (exit_at P s.pc) s.mem r (rw without at h) in
        record {
          last = s;
          quiet = leaves without;
          goes = exit_at-ip_of P s.pc r.0 at;
          leaves_mem = same;
        }
  ]
