-- ===== src/Critical/Instrs.antt =====
-- The instructions of a section, one by one.
use librseq.Base.{
  ◌==◌, ℕ, zero, suc, ◌+◌, ◌≤◌, ◌<◌, ◌≡◌, refl, Bool, true, false, not, ◌&&◌, List, [], ◌∷◌, ◌++◌,
  length, get_elem?, some, arith,
}
use librseq.Mempool.Memory.{Memory}
use librseq.Critical.Machine.{
  Instr, compare_regs, compare_mem_reg, count_down, load_byte, inc_reg, dec_reg, address_cs,
  store_cs, compare_cpu, load_cpu, compare_mem, compare_reg, jump_ne, jump_eq, branch_ne, branch_eq,
  branch_zero, load_reg, store_reg, store_mem, load_at, load_sum, move_reg, add_reg, sub_reg,
  sub_reg32, add_at, add_mem, load_byte_signed, load_byte_low, store_byte, fence, test_len, dec_len,
  byte_from_src, byte_to_dst, signed_from_src, inc_src, inc_dst, branch_len_zero,
  branch_len_nonzero, save_src, save_dst, save_len, restore_src, restore_dst, restore_len, ret,
  State, running, exec, jump, program, handlers,
}
use librseq.Critical.Quiet.{Stays, Body}

-- The instructions that a section may hold.
abbrev pub is_inner : Instr → Bool
is_inner store_cs = false
is_inner (ret e) = false
is_inner i = true

abbrev pub all_inner : List Instr → Bool
all_inner [] = true
all_inner (i ∷ is) = is_inner i && all_inner is

module _ (M : Memory) where
  jump_stays :
      (b : Bool) (target : ℕ) (s : State M)
      → (t : State M) × (jump M b target s ≡ running t) × (t.rseq_cs ≡ s.rseq_cs)
  jump_stays true target s = (_, refl, refl)
  jump_stays false target s = (_, refl, refl)

  is_inner-Stays : (P : _) (i : Instr) → is_inner i ≡ true → Stays M P i
  unfolding exec
  is_inner-Stays P store_cs h s = cc
  is_inner-Stays P (ret e) h s = cc
  is_inner-Stays P (jump_ne target) h s = jump_stays (not s.zf) target s
  is_inner-Stays P (jump_eq target) h s = jump_stays s.zf target s
  is_inner-Stays P (branch_ne r x target) h s = jump_stays (not (s.regs r == x)) target s
  is_inner-Stays P (branch_eq r x target) h s = jump_stays (s.regs r == x) target s
  is_inner-Stays P (branch_zero x target) h s = jump_stays (x == 0) target s
  is_inner-Stays P (branch_len_zero target) h s = jump_stays (s.len == 0) target s
  is_inner-Stays P (branch_len_nonzero target) h s = jump_stays (not (s.len == 0)) target s
  is_inner-Stays P address_cs h s = (_, refl, refl)
  is_inner-Stays P fence h s = (_, refl, refl)
  is_inner-Stays P test_len h s = (_, refl, refl)
  is_inner-Stays P dec_len h s = (_, refl, refl)
  is_inner-Stays P inc_src h s = (_, refl, refl)
  is_inner-Stays P inc_dst h s = (_, refl, refl)
  is_inner-Stays P save_src h s = (_, refl, refl)
  is_inner-Stays P save_dst h s = (_, refl, refl)
  is_inner-Stays P save_len h s = (_, refl, refl)
  is_inner-Stays P restore_src h s = (_, refl, refl)
  is_inner-Stays P restore_dst h s = (_, refl, refl)
  is_inner-Stays P restore_len h s = (_, refl, refl)
  is_inner-Stays P (compare_cpu _) h s = (_, refl, refl)
  is_inner-Stays P (load_cpu _) h s = (_, refl, refl)
  is_inner-Stays P (byte_from_src _) h s = (_, refl, refl)
  is_inner-Stays P (byte_to_dst _) h s = (_, refl, refl)
  is_inner-Stays P (signed_from_src _) h s = (_, refl, refl)
  is_inner-Stays P (compare_mem _ _) h s = (_, refl, refl)
  is_inner-Stays P (compare_reg _ _) h s = (_, refl, refl)
  is_inner-Stays P (compare_regs _ _) h s = (_, refl, refl)
  is_inner-Stays P (compare_mem_reg _ _) h s = (_, refl, refl)
  is_inner-Stays P (count_down _) h s = (_, refl, refl)
  is_inner-Stays P (load_byte _ _) h s = (_, refl, refl)
  is_inner-Stays P (load_reg _ _) h s = (_, refl, refl)
  is_inner-Stays P (store_reg _ _) h s = (_, refl, refl)
  is_inner-Stays P (store_mem _ _) h s = (_, refl, refl)
  is_inner-Stays P (load_at _ _) h s = (_, refl, refl)
  is_inner-Stays P (load_sum _ _) h s = (_, refl, refl)
  is_inner-Stays P (move_reg _ _) h s = (_, refl, refl)
  is_inner-Stays P (add_reg _ _) h s = (_, refl, refl)
  is_inner-Stays P (sub_reg _ _) h s = (_, refl, refl)
  is_inner-Stays P (add_at _ _) h s = (_, refl, refl)
  is_inner-Stays P (inc_reg _) h s = (_, refl, refl)
  is_inner-Stays P (dec_reg _) h s = (_, refl, refl)
  is_inner-Stays P (sub_reg32 _ _) h s = (_, refl, refl)
  is_inner-Stays P (add_mem _ _) h s = (_, refl, refl)
  is_inner-Stays P (load_byte_signed _ _) h s = (_, refl, refl)
  is_inner-Stays P (load_byte_low _ _) h s = (_, refl, refl)
  is_inner-Stays P (store_byte _ _) h s = (_, refl, refl)

  inner_at :
      (is rest : List Instr) (k : ℕ)
      → all_inner is ≡ true
      → k < length is
      → (i : Instr) × (get_elem? (is ++ rest) k ≡ some i) × (is_inner i ≡ true)
  inner_at [] rest k h lt = absurd (omega arith)
  inner_at (i ∷ is) rest zero h lt = (i, refl, ground arith)
  inner_at (i ∷ is) rest (suc k) h lt = inner_at is rest k (ground arith) (omega arith)

  inner_after :
      (pro is rest : List Instr) (k : ℕ)
      → all_inner is ≡ true
      → length pro ≤ k
      → k < length pro + length is
      → (i : Instr) × (get_elem? (pro ++ is ++ rest) k ≡ some i) × (is_inner i ≡ true)
  inner_after [] is rest k h le lt = inner_at is rest k h (omega arith)
  inner_after (j ∷ pro) is rest zero h le lt = absurd (omega arith)
  inner_after (j ∷ pro) is rest (suc k) h le lt =
      inner_after pro is rest k h (omega arith) (omega arith)

  pub program-Body :
      (prologue body teardown : List Instr)
      → all_inner body ≡ true
      → Body M (program prologue body teardown)
  unfolding program
  program-Body prologue body teardown h k le lt =
      let (i, at, inner) = inner_after prologue body (handlers teardown) k h le lt in
      (i, at, is_inner-Stays (program prologue body teardown) i inner)
