-- ===== src/Critical/Machine.antt =====
-- The machine of a critical section: a thread's registers, the fields of its `struct rseq` that the
-- section uses, and the memory of its CPU. The memory stands for what the threads of this CPU alone
-- write, so it changes under a thread only where that thread is interrupted.
use librseq.Critical.Words.{modulus, load_long, store_long, wrap}
use librseq.Base.{
  ◌<◌, ◌^◌, false, ℕ, ◌+◌, ◌-◌, ◌*◌, ◌/◌, ◌%◌, ◌≡◌, Bool, true, not, ◌&&◌, Option, none, some, List,
  ◌++◌, ◌∷◌, [], ◌==◌, ltb, leb, if◌then◌else◌, length, get_elem?,
}
use librseq.Mempool.Memory.{Memory}

-- What the C function returns: 0, 1 or -1.
pub data Exit : Type 0 where
  success ne abort : Exit

-- An instruction of one of the architectures; operands that do not change are part of it, `r` and
-- `q` are register numbers, and a jump holds its target.
pub data Instr : Type 0 where
  -- RSEQ_ASM_STORE_RSEQ_CS: what computes the descriptor's address, and its store to `rseq_cs`.
  address_cs store_cs : Instr
  -- The comparison of an operand with the CPU field, and the load of the field: `cmpl %[cpu_id], …`.
  compare_cpu : ℕ → Instr
  load_cpu : (r : ℕ) → Instr
  -- Comparisons that set the flag, with `x`: `cmpq (p), x`, `cmpq r, x`.
  compare_mem : (p x : ℕ) → Instr
  compare_reg : (r x : ℕ) → Instr
  -- The same with two registers, `cmp r, q`, and with a register for `x`, `cmpl r, (p)`.
  compare_regs : (r q : ℕ) → Instr
  compare_mem_reg : (p r : ℕ) → Instr
  -- Jumps on the flag, on a register that is not `x` or is `x`, and on an operand that is 0.
  jump_ne jump_eq : ℕ → Instr
  branch_ne branch_eq : (r x target : ℕ) → Instr
  branch_zero : (x target : ℕ) → Instr
  -- Words: `r := *p`, `*p := r`, `*p := x`, `r := *q`, `r := *(r + x)`.
  load_reg store_reg : (r p : ℕ) → Instr
  store_mem : (p x : ℕ) → Instr
  load_at : (r q : ℕ) → Instr
  load_sum : (r x : ℕ) → Instr
  -- `r := x`, `r += x`, `r -= x` in a word and in 32 bits, `*r += x`,
  -- `*p += x`, and `r += 1` and `r -= 1` for addresses and counts, which do not wrap.
  move_reg add_reg sub_reg sub_reg32 add_at : (r x : ℕ) → Instr
  add_mem : (p x : ℕ) → Instr
  inc_reg dec_reg : (r : ℕ) → Instr
  -- `r -= 1`, which sets the flag if nothing is left.
  count_down : (r : ℕ) → Instr
  -- Bytes: `r := *q`, with the sign, with zeros or, above the low byte, as it was; `*q := r`.
  load_byte_signed load_byte load_byte_low store_byte : (r q : ℕ) → Instr
  -- A barrier, which the order of the stores already gives here.
  fence : Instr
  -- The copy loop where it changes its operands: their registers, and the copies in `rseq_scratch`.
  test_len dec_len : Instr
  byte_from_src byte_to_dst signed_from_src : (r : ℕ) → Instr
  inc_src inc_dst : Instr
  branch_len_zero branch_len_nonzero : (target : ℕ) → Instr
  save_src save_dst save_len restore_src restore_dst restore_len : Instr
  -- The C label and its `return`.
  ret : Exit → Instr

-- A section with the entries of its RSEQ_ASM_DEFINE_TABLE, and where its exit point leads.
pub record Program : Type 0 where
  pub code : List Instr
  pub start_ip : ℕ
  pub commit_ip : ℕ
  pub abort_ip : ℕ
  pub exit_ip : ℕ

-- What follows the section: on each way out, the operands are restored before the C label.
abbrev pub handlers : List Instr → List Instr
handlers teardown = teardown ++ ret success ∷ teardown ++ ret abort ∷ teardown ++ ret ne ∷ []

-- Code before the section, the section, and the handlers.
unfoldable pub program : List Instr → List Instr → List Instr → Program
program prologue body teardown = record {
  code = prologue ++ body ++ handlers teardown;
  start_ip = length prologue;
  commit_ip = length prologue + length body;
  abort_ip = length prologue + length body + length teardown + 1;
  exit_ip = length prologue + length body + 2 * length teardown + 2;
}

-- The same, for a section that is given where its two ways out, to the abort handler and to the C
-- label `ne` or `eq`, lead.
unfoldable pub assemble : List Instr → (ℕ → ℕ → List Instr) → List Instr → Program
assemble prologue body teardown =
    let abort_ip = length prologue + length (body 0 0) + length teardown + 1 in
    program prologue (body abort_ip (abort_ip + length teardown + 1)) teardown

-- A byte as a signed number, in a register of 64 bits.
abbrev pub signed_byte : ℕ → ℕ
signed_byte b = if ltb b 128 then b else b + (2 ^ 64 - 256)

module _ (M : Memory) where
  open M use {Mem, load, store}

  -- A thread; `rseq_cs` tells whether that field points to the section's descriptor, and `cpu` is
  -- the field that the section compares, `cpu_id` or `mm_cid`.
  pub record State : Type 0 where
    pub pc : ℕ
    pub regs : ℕ → ℕ
    pub src : ℕ
    pub dst : ℕ
    pub len : ℕ
    pub scratch0 : ℕ
    pub scratch1 : ℕ
    pub scratch2 : ℕ
    pub zf : Bool
    pub rseq_cs : Bool
    pub cpu : ℕ
    pub mem : Mem

  pub data Machine : Type 0 where
    running : State → Machine
    returned : Exit → State → Machine
    stuck : Machine

  abbrev pub next : State → Machine
  next s = running (record s { pc = s.pc + 1 })

  abbrev pub jump : Bool → ℕ → State → Machine
  jump taken target s = if taken then running (record s { pc = target }) else next s

  abbrev pub set : ℕ → ℕ → State → State
  set r x s = record s { regs = λ q. if q == r then x else s.regs q }

  unfoldable pub exec : Instr → State → Machine
  exec address_cs s = next s
  exec store_cs s = next (record s { rseq_cs = true })
  exec (compare_cpu id) s = next (record s { zf = s.cpu == id })
  exec (load_cpu r) s = next (set r s.cpu s)
  exec (compare_mem p x) s = next (record s { zf = load_long M s.mem p == x })
  exec (compare_reg r x) s = next (record s { zf = s.regs r == x })
  exec (compare_regs r q) s = next (record s { zf = s.regs q == s.regs r })
  exec (compare_mem_reg p r) s = next (record s { zf = load_long M s.mem p == s.regs r })
  exec (jump_ne target) s = jump (not s.zf) target s
  exec (jump_eq target) s = jump s.zf target s
  exec (branch_ne r x target) s = jump (not (s.regs r == x)) target s
  exec (branch_eq r x target) s = jump (s.regs r == x) target s
  exec (branch_zero x target) s = jump (x == 0) target s
  exec (load_reg r p) s = next (set r (load_long M s.mem p) s)
  exec (store_reg r p) s = next (record s { mem = store_long M s.mem p (s.regs r) })
  exec (store_mem p x) s = next (record s { mem = store_long M s.mem p x })
  exec (load_at r q) s = next (set r (load_long M s.mem (s.regs q)) s)
  exec (load_sum r x) s = next (set r (load_long M s.mem (wrap M (s.regs r + x))) s)
  exec (move_reg r x) s = next (set r x s)
  exec (add_reg r x) s = next (set r (wrap M (s.regs r + x)) s)
  exec (sub_reg r x) s = next (set r (wrap M (s.regs r + (modulus M - x))) s)
  exec (sub_reg32 r x) s = next (set r ((s.regs r + (2 ^ 32 - x)) % 2 ^ 32) s)
  exec (add_at r x) s =
      next (record s {
        mem = store_long M s.mem (s.regs r) (wrap M (load_long M s.mem (s.regs r) + x));
      })
  exec (add_mem p x) s =
      next (record s { mem = store_long M s.mem p (wrap M (load_long M s.mem p + x)) })
  exec (inc_reg r) s = next (set r (s.regs r + 1) s)
  exec (dec_reg r) s = next (set r (s.regs r - 1) s)
  exec (count_down r) s = next (set r (s.regs r - 1) (record s { zf = s.regs r - 1 == 0 }))
  exec (load_byte r q) s = next (set r (load s.mem (s.regs q)) s)
  exec (load_byte_signed r q) s = next (set r (signed_byte (load s.mem (s.regs q))) s)
  exec (load_byte_low r q) s = next (set r (s.regs r / 256 * 256 + load s.mem (s.regs q)) s)
  exec (store_byte r q) s = next (record s { mem = store s.mem (s.regs q) (s.regs r % 256) })
  exec fence s = next s
  exec test_len s = next (record s { zf = s.len == 0 })
  exec dec_len s = next (record s { len = s.len - 1; zf = s.len - 1 == 0 })
  exec (byte_from_src r) s = next (set r (s.regs r / 256 * 256 + load s.mem s.src) s)
  exec (signed_from_src r) s = next (set r (signed_byte (load s.mem s.src)) s)
  exec (byte_to_dst r) s = next (record s { mem = store s.mem s.dst (s.regs r % 256) })
  exec inc_src s = next (record s { src = s.src + 1 })
  exec inc_dst s = next (record s { dst = s.dst + 1 })
  exec (branch_len_zero target) s = jump (s.len == 0) target s
  exec (branch_len_nonzero target) s = jump (not (s.len == 0)) target s
  exec save_src s = next (record s { scratch0 = s.src })
  exec save_dst s = next (record s { scratch1 = s.dst })
  exec save_len s = next (record s { scratch2 = s.len })
  exec restore_src s = next (record s { src = s.scratch0 })
  exec restore_dst s = next (record s { dst = s.scratch1 })
  exec restore_len s = next (record s { len = s.scratch2 })
  exec (ret e) s = returned e s

  unfoldable pub fetch : Option Instr → State → Machine
  fetch none s = stuck
  fetch (some i) s = exec i s

  unfoldable pub step : Program → State → Machine
  step P s = fetch (get_elem? P.code s.pc) s

  -- The instruction pointer lies in the range of the descriptor.
  abbrev pub inside : Program → State → Bool
  inside P s = leb P.start_ip s.pc && ltb s.pc P.commit_ip

  -- What include/rseq/abi.h says of the kernel where it preempts, migrates or signals a thread: with
  -- the descriptor set and the thread in its range, the thread goes on at the abort address, and
  -- elsewhere where it was. The memory, the CPU (a 32-bit field) and
  -- `rseq_cs` become what they may.
  pub record Interrupted (P : Program) (s s' : State) : Type 0 where
    pub restarts : s.rseq_cs ≡ true → inside P s ≡ true → s'.pc ≡ P.abort_ip
    pub continues : inside P s ≡ false → s'.pc ≡ s.pc
    pub src : s'.src ≡ s.src
    pub dst : s'.dst ≡ s.dst
    pub len : s'.len ≡ s.len
    pub fits : s.cpu < 2 ^ 32 → s'.cpu < 2 ^ 32

  -- A run of the C function from a state to its return, interrupted anywhere.
  pub data Run (P : Program) : State → Exit → State → Type 0 where
    returns : {s t : State} {e : Exit} → step P s ≡ returned e t → Run P s e t
    steps : {s s' t : State} {e : Exit} → step P s ≡ running s' → Run P s' e t → Run P s e t
    interrupted : {s s' t : State} {e : Exit} → Interrupted P s s' → Run P s' e t → Run P s e t

  -- Steps without an interrupt, from a state to the first one outside the section.
  pub data Quiet (P : Program) : State → State → Type 0 where
    leaves : {s : State} → inside P s ≡ false → Quiet P s s
    stays :
        {s s' u : State} → inside P s ≡ true → step P s ≡ running s' → Quiet P s' u → Quiet P s u
