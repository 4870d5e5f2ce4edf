-- ===== src/Critical/Riscv/Copy.antt =====
-- The RISC-V section with the copy loop.
use librseq.Critical.Words.{load_long, store_long}
use librseq.Base.{
  ℕ, zero, suc, ◌+◌, ◌-◌, ◌≡◌, ◌==◌, sym, refl, Bool, true, false, some, arith, Bool-cases, inl,
  inr,
}
use librseq.Mempool.Memory.{Memory}
use librseq.Critical.Machine.{
  success, ne, abort, Program, State, exec, step, fetch, program, assemble, set, signed_byte,
}
use librseq.Critical.Pseudo.{Call, pseudo, copy}
use librseq.Critical.Quiet.{walk}
use librseq.Critical.Riscv.Code.{load_cbne_memcpy_store_code, t6, t5, t4, t3}
use librseq.Critical.Implements.{attempt}
use librseq.Critical.Lands.{Lands, outcome, outcome-Lands, after_walk, signed_low}

module _ (M : Memory) (v expect dst src len newv cpu : ℕ) where
  open M use {Mem, load, store, load-lt}

  abbrev P : Bool → Program
  P release = load_cbne_memcpy_store_code release v expect dst src len newv cpu

  -- A copy of one byte, and the count of it.
  abbrev moved : State M → State M
  moved s = record (set M t3 (signed_byte (load s.mem (s.regs t5))) s) {
    mem = store s.mem (s.regs t4) (load s.mem (s.regs t5));
  }

  abbrev counted : State M → State M
  counted s = set M t4 (s.regs t4 + 1) (set M t5 (s.regs t5 + 1) (set M t6 (s.regs t6 - 1) s))

  move :
      (release : Bool) (s : State M)
      → walk M (P release) 2 (record s { pc = 10 }) ≡ some (record (moved s) { pc = 12 })
  unfolding walk exec step fetch load_cbne_memcpy_store_code program assemble
  move false s = rw (signed_low (load s.mem (s.regs t5)) (load-lt s.mem (s.regs t5))) refl
  move true s = rw (signed_low (load s.mem (s.regs t5)) (load-lt s.mem (s.regs t5))) refl

  count :
      (release : Bool) (s : State M)
      → (s.regs t6 - 1 == 0) ≡ false
      → walk M (P release) 4 (record s { pc = 12 }) ≡ some (record (counted s) { pc = 10 })
  unfolding walk exec step fetch load_cbne_memcpy_store_code program assemble
  count false s more = rw more refl
  count true s more = rw more refl

  finish :
      (release : Bool) (s : State M)
      → (s.regs t6 - 1 == 0) ≡ true
      → outcome M (P release) 9 (record s { pc = 12 }) ≡ some (success, store_long M s.mem v newv)
  unfolding outcome exec step fetch load_cbne_memcpy_store_code program assemble
  finish false s last = rw last refl
  finish true s last = rw last refl

  -- From label 222 on, with a byte left at least.
  loop-Lands :
      (release : Bool) (n : ℕ) (s : State M) (a b : ℕ)
      → s.regs t6 ≡ suc n
      → s.regs t5 ≡ b
      → s.regs t4 ≡ a
      → Lands M
          (P release)
          (record s { pc = 10 })
          (success, store_long M (copy M (suc n) s.mem a b) v newv)
  unfolding copy
  loop-Lands release zero s a b left from to =
      rw (sym from, sym to)
        (after_walk M (P release) 2 (move release s)
          (outcome-Lands M (P release) 9 (finish release (moved s) (ground arith))))
  loop-Lands release (suc n) s a b left from to =
      rw (sym from, sym to)
        (after_walk M (P release) 2 (move release s) (
          after_walk M (P release) 4 (count release (moved s) (ground arith)) (
            loop-Lands release n (counted (moved s)) (s.regs t4 + 1) (s.regs t5 + 1) (omega arith)
              refl refl)))

  -- The comparisons, and the operands into registers.
  abbrev compared : State M → State M
  compared s = set M t6 (load_long M s.mem v) (set M t6 s.cpu s)

  abbrev entered : State M → State M
  entered s = set M t4 dst (set M t5 src (set M t6 len s))

  compare :
      (release : Bool) (s : State M)
      → (s.cpu == cpu) ≡ true
      → (load_long M s.mem v == expect) ≡ true
      → walk M (P release) 4 (record s { pc = 2 }) ≡ some (record (compared s) { pc = 6 })
  unfolding walk exec step fetch load_cbne_memcpy_store_code program assemble
  compare false s on_cpu eq = rw on_cpu (rw eq refl)
  compare true s on_cpu eq = rw on_cpu (rw eq refl)

  enter :
      (release : Bool) (s : State M)
      → (len == 0) ≡ false
      → walk M (P release) 4 (record s { pc = 6 }) ≡ some (record (entered s) { pc = 10 })
  unfolding walk exec step fetch load_cbne_memcpy_store_code program assemble
  enter false s some_bytes = rw some_bytes refl
  enter true s some_bytes = rw some_bytes refl

  empty :
      (release : Bool) (s : State M)
      → (len == 0) ≡ true
      → outcome M (P release) 9 (record s { pc = 6 }) ≡ some (success, store_long M s.mem v newv)
  unfolding outcome exec step fetch load_cbne_memcpy_store_code program assemble
  empty false s no_bytes = rw no_bytes refl
  empty true s no_bytes = rw no_bytes refl

  refuse :
      (release : Bool) (s : State M)
      → (s.cpu == cpu) ≡ true
      → (load_long M s.mem v == expect) ≡ false
      → outcome M (P release) 9 (record s { pc = 2 }) ≡ some (ne, s.mem)
  unfolding outcome exec step fetch load_cbne_memcpy_store_code program assemble
  refuse false s on_cpu differs = rw on_cpu (rw differs refl)
  refuse true s on_cpu differs = rw on_cpu (rw differs refl)

  leave :
      (release : Bool) (s : State M)
      → (s.cpu == cpu) ≡ false
      → outcome M (P release) 9 (record s { pc = 2 }) ≡ some (abort, s.mem)
  unfolding outcome exec step fetch load_cbne_memcpy_store_code program assemble
  leave false s away = rw away refl
  leave true s away = rw away refl

  copy-Lands :
      (release : Bool) (s : State M) (n : ℕ)
      → len ≡ n
      → Lands M
          (P release)
          (record s { pc = 6 })
          (success, store_long M (copy M n s.mem dst src) v newv)
  unfolding copy
  copy-Lands release s zero h = outcome-Lands M (P release) 9 (empty release s (ground arith))
  copy-Lands release s (suc n) h =
      after_walk M (P release) 4 (enter release s (ground arith))
        (loop-Lands release n (entered s) dst src h refl refl)

  pub load_cbne_memcpy_store-Lands :
      (release : Bool) (s : State M)
      → Lands M
          (P release)
          (record s { pc = 2 })
          (attempt M (Call.load_cbne_memcpy_store v expect dst src len newv) cpu s)
  unfolding pseudo
  load_cbne_memcpy_store-Lands release s = elim (Bool-cases (s.cpu == cpu)) [
    | inl on_cpu ↦ rw on_cpu (elim (Bool-cases (load_long M s.mem v == expect)) [
      | inl eq ↦ rw eq (
          after_walk M (P release) 4 (compare release s on_cpu eq)
            (copy-Lands release (compared s) len refl))
      | inr differs ↦ rw differs (outcome-Lands M (P release) 9 (refuse release s on_cpu differs))
    ])
    | inr away ↦ rw away (outcome-Lands M (P release) 9 (leave release s away))
  ]
