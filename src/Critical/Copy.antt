-- ===== src/Critical/Copy.antt =====
-- The x86-64 section with the copy loop.
use librseq.Critical.Words.{load_long, store_long}
use librseq.Base.{
  ℕ, zero, suc, ◌+◌, ◌-◌, ◌*◌, ◌/◌, ◌%◌, ◌≡◌, ◌==◌, refl, true, false, some, arith, Bool-cases, inl,
  inr, subst,
}
use librseq.Mempool.Memory.{Memory}
use librseq.Critical.Machine.{success, ne, abort, Program, State, exec, step, fetch, program, set}
use librseq.Critical.Pseudo.{Call, pseudo, copy}
use librseq.Critical.Quiet.{walk}
use librseq.Critical.Code.{load_cbne_memcpy_store_code, rax}
use librseq.Critical.Implements.{attempt, Holds}
use librseq.Critical.Lands.{Lands, outcome, outcome-Lands, after_walk}

module _ (M : Memory) (v expect newv cpu : ℕ) where
  open M use {Mem, load, store, load-lt}

  abbrev P : Program
  P = load_cbne_memcpy_store_code v expect newv cpu

  -- The byte goes through the low byte of %rax.
  through_al : (m : Mem) (a r : ℕ) → (r / 256 * 256 + load m a) % 256 ≡ load m a
  through_al m a r = omega (arith, load-lt m a)

  abbrev moved : State M → State M
  moved s = record (set M rax (s.regs rax / 256 * 256 + load s.mem s.src) s) {
    mem = store s.mem s.dst (load s.mem s.src);
  }

  abbrev counted : State M → State M
  counted s = record s { src = s.src + 1; dst = s.dst + 1; len = s.len - 1; zf = false }

  move : (s : State M) → walk M P 2 (record s { pc = 11 }) ≡ some (record (moved s) { pc = 13 })
  unfolding walk exec step fetch load_cbne_memcpy_store_code program
  move s = rw (through_al s.mem s.src (s.regs rax)) refl

  count :
      (s : State M)
      → (s.len - 1 == 0) ≡ false
      → walk M P 4 (record s { pc = 13 }) ≡ some (record (counted s) { pc = 11 })
  unfolding walk exec step fetch load_cbne_memcpy_store_code program
  count s more = rw more refl

  finish :
      (s : State M)
      → (s.len - 1 == 0) ≡ true
      → outcome M P 9 (record s { pc = 13 }) ≡ some (success, store_long M s.mem v newv)
  unfolding outcome exec step fetch load_cbne_memcpy_store_code program
  finish s last = rw last refl

  -- From label 222 on, with a byte left at least.
  loop-Lands :
      (n : ℕ) (s : State M)
      → s.len ≡ suc n
      → Lands M P
          (record s { pc = 11 })
          (success, store_long M (copy M (suc n) s.mem s.dst s.src) v newv)
  unfolding copy
  loop-Lands zero s left =
      after_walk M P 2 (move s) (outcome-Lands M P 9 (finish (moved s) (ground arith)))
  loop-Lands (suc n) s left = after_walk M P 2 (move s) (
      after_walk M P 4 (count (moved s) (ground arith))
        (loop-Lands n (counted (moved s)) (omega arith)))

  compare :
      (s : State M)
      → (s.cpu == cpu) ≡ true
      → (load_long M s.mem v == expect) ≡ true
      → walk M P 4 (record s { pc = 5 }) ≡ some (record s { pc = 9; zf = true })
  unfolding walk exec step fetch load_cbne_memcpy_store_code program
  compare s on_cpu eq = rw on_cpu (rw eq refl)

  enter :
      (s : State M)
      → (s.len == 0) ≡ false
      → walk M P 2 (record s { pc = 9 }) ≡ some (record s { pc = 11; zf = false })
  unfolding walk exec step fetch load_cbne_memcpy_store_code program
  enter s some_bytes = rw some_bytes refl

  empty :
      (s : State M)
      → (s.len == 0) ≡ true
      → outcome M P 9 (record s { pc = 9 }) ≡ some (success, store_long M s.mem v newv)
  unfolding outcome exec step fetch load_cbne_memcpy_store_code program
  empty s no_bytes = rw no_bytes refl

  refuse :
      (s : State M)
      → (s.cpu == cpu) ≡ true
      → (load_long M s.mem v == expect) ≡ false
      → outcome M P 9 (record s { pc = 5 }) ≡ some (ne, s.mem)
  unfolding outcome exec step fetch load_cbne_memcpy_store_code program
  refuse s on_cpu differs = rw on_cpu (rw differs refl)

  leave :
      (s : State M)
      → (s.cpu == cpu) ≡ false
      → outcome M P 9 (record s { pc = 5 }) ≡ some (abort, s.mem)
  unfolding outcome exec step fetch load_cbne_memcpy_store_code program
  leave s away = rw away refl

  copy-Lands :
      (s : State M) (n : ℕ)
      → s.len ≡ n
      → Lands M P (record s { pc = 9 }) (success, store_long M (copy M n s.mem s.dst s.src) v newv)
  unfolding copy
  copy-Lands s zero h = outcome-Lands M P 9 (empty s (ground arith))
  copy-Lands s (suc n) h =
      after_walk M P 2 (enter s (ground arith)) (loop-Lands n (record s { zf = false }) h)

  from_registers :
      (s : State M)
      → Lands M P
          (record s { pc = 5 })
          (attempt M (Call.load_cbne_memcpy_store v expect s.dst s.src s.len newv) cpu s)
  unfolding pseudo
  from_registers s = elim (Bool-cases (s.cpu == cpu)) [
    | inl on_cpu ↦ rw on_cpu (elim (Bool-cases (load_long M s.mem v == expect)) [
      | inl eq ↦
          rw eq (
            after_walk M P 4 (compare s on_cpu eq) (copy-Lands (record s { zf = true }) s.len refl))
      | inr differs ↦ rw differs (outcome-Lands M P 9 (refuse s on_cpu differs))
    ])
    | inr away ↦ rw away (outcome-Lands M P 9 (leave s away))
  ]

  pub load_cbne_memcpy_store-Lands :
      (dst src len : ℕ) (s : State M)
      → Holds M (Call.load_cbne_memcpy_store v expect dst src len newv) s
      → Lands M P
          (record s { pc = 5 })
          (attempt M (Call.load_cbne_memcpy_store v expect dst src len newv) cpu s)
  load_cbne_memcpy_store-Lands dst src len s held =
      subst (λ c. Lands M P (record s { pc = 5 }) (attempt M c cpu s))
        (rw (held.0, held.1, held.2) refl) (from_registers s)
