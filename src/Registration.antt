-- ===== src/Registration.antt =====
-- src/rseq.c: the registration of the rseq areas with the kernel, and who owns it. What `dlsym`,
-- `getauxval`, the system calls and `sched_getcpu` answer is an argument. Each function is one step.
use librseq.Base.{
  ◌≡◌, ℕ, ◌-◌, ◌^◌, ◌+◌, Bool, true, false, not, ◌&&◌, ◌||◌, ◌==◌, ltb, leb, if◌then◌else◌, Option,
  none, some,
}
use librseq.Base.Int.{ℤ, pos, negsuc}
use librseq.Mempool.Types.{Outcome, done, aborted, ◌>>=◌, ◌>>◌}
mod Coherent
mod Sizes
mod Examples

-- The public symbols of the C library, where it has them, the auxiliary vector, and the offset of
-- `__rseq_abi` from the thread pointer.
pub record Env : Type 0 where
  pub libc_offset : Option ℕ
  pub libc_size : Option ℕ
  pub libc_flags : Option ℕ
  pub auxv_align : ℕ
  pub auxv_feature_size : ℕ
  pub area_offset : ℕ

-- The variables of the file.
pub record Globals : Type 0 where
  pub init_done : Bool
  pub rseq_offset : ℕ
  pub rseq_size : ℕ
  pub rseq_flags : ℕ
  pub rseq_ownership : Bool

-- `-1U`.
abbrev pub no_size : ℕ
no_size = 2 ^ 32 - 1

abbrev pub initial : Globals
initial = record {
  init_done = false;
  rseq_offset = 0;
  rseq_size = no_size;
  rseq_flags = 0;
  rseq_ownership = false;
}

abbrev pub assert : Bool → Outcome (Unit {0})
assert true = done tt
assert false = aborted

-- The size that is registered.
unfoldable pub min_alloc_size : Globals → ℕ
min_alloc_size g = if ltb g.rseq_size 32 then 32 else g.rseq_size

unfoldable pub kernel_feature_size : Env → Outcome ℕ
kernel_feature_size env =
    assert (env.auxv_align == 0 || leb env.auxv_align 1024)
    >> (assert (env.auxv_feature_size == 0 || leb env.auxv_feature_size 1024)
        >> done (if env.auxv_feature_size == 0 then 20 else env.auxv_feature_size))

-- What `rseq_init` makes of the size that the C library shows.
unfoldable pub active_size : Env → ℕ → Outcome ℕ
active_size env libc_size =
    if libc_size == 20 || libc_size == 32
    then (kernel_feature_size env >>= λ kernel. done (if ltb kernel 32 then kernel else 32))
    else done libc_size

-- The three symbols, if they are there and the size is not zero.
unfoldable pub libc_symbols : Option ℕ → Option ℕ → Option ℕ → Option (ℕ × ℕ × ℕ)
libc_symbols (some offset) (some size) (some flags) =
    if size == 0 then none else some (offset, size, flags)
libc_symbols offset size flags = none

unfoldable pub adopt : Env → Globals → Option (ℕ × ℕ × ℕ) → Outcome Globals
adopt env g (some (offset, size, flags)) = active_size env size >>= λ active.
    done (record g { rseq_offset = offset; rseq_flags = flags; rseq_size = active })
adopt env g none = done (record g {
  rseq_ownership = true;
  rseq_offset = env.area_offset;
  rseq_flags = 0;
  rseq_size = 0;
})

unfoldable pub init : Env → Globals → Outcome Globals
init env g =
    if g.init_done
    then done g
    else adopt env (record g { init_done = true })
        (libc_symbols env.libc_offset env.libc_size env.libc_flags)

unfoldable pub set_size : Env → Globals → Outcome (Bool × Globals)
set_size env g =
    if g.rseq_size == 0
    then (kernel_feature_size env >>= λ size. done (true, record g { rseq_size = size }))
    else done (true, g)

unfoldable pub register_owned : Env → (success on_cpu : Bool) → Globals → Outcome (Bool × Globals)
register_owned env success on_cpu g =
    if not g.rseq_ownership
    then done (true, g)
    else (if success
        then assert on_cpu >> set_size env g
        else (if ltb 0 g.rseq_size then aborted else done (false, g)))

-- `rseq_register_current_thread`, where `sys_rseq` succeeds or not and the CPU number that the kernel
-- then writes is a number or not; it returns whether it registered.
unfoldable pub register_current_thread :
    Env → (success on_cpu : Bool) → Globals → Outcome (Bool × Globals)
register_current_thread env success on_cpu g =
    init env g >>= λ g'. register_owned env success on_cpu g'

unfoldable pub unregister_current_thread : (success : Bool) → Globals → Bool
unregister_current_thread success g = not g.rseq_ownership || success

-- The destructor.
unfoldable pub rseq_exit : Globals → Globals
rseq_exit g =
    if not g.rseq_ownership
    then g
    else record g { rseq_offset = 0; rseq_size = no_size; rseq_ownership = false }

-- What the process has called, one call after the other.
pub data Reach (env : Env) : Globals → Type 0 where
  starts : Reach env initial
  inits : {g g' : Globals} → Reach env g → init env g ≡ done g' → Reach env g'
  registers :
      {g g' : Globals} {b : Bool} (success on_cpu : Bool)
      → Reach env g
      → register_current_thread env success on_cpu g ≡ done (b, g')
      → Reach env g'
  exits : {g : Globals} → Reach env g → Reach env (rseq_exit g)
