-- ===== src/Registration/Sizes.antt =====
-- The sizes that are registered and shown.
use librseq.Base.{
  not, ap, ◌∙◌, if_true, if_false, ◌≤◌, ◌<◌, ◌≡◌, Bool, true, false, ltb, refl, Bool-cases, inl,
  inr, arith,
}
use librseq.Mempool.Types.{◌>>=◌, done, aborted}
use librseq.Registration.Coherent.{Reach-IsCoherent, register-IsCoherent}
use librseq.Registration.{
  register_current_thread, min_alloc_size, Reach, Env, Globals, init, register_owned,
}

-- In every state that the calls of a process reach, if librseq owns the registration, the size that
-- it passes to the kernel is at least 32, and at most the 1024 bytes of the area.
pub min_alloc_size-bounds :
    {env : Env} (g : Globals)
    → Reach env g
    → g.rseq_ownership ≡ true
    → (32 ≤ min_alloc_size g) × (min_alloc_size g ≤ 1024)
unfolding min_alloc_size
min_alloc_size-bounds g r owned =
    let fits = (Reach-IsCoherent r).area owned in
    elim (Bool-cases (ltb g.rseq_size 32)) [
      | inl small ↦ rw small (omega arith, omega arith)
      | inr large ↦ let at_least : 32 ≤ g.rseq_size = ground arith in rw large (at_least, fits)
    ]

-- Where the calls of a process before reached a state, a registration that returns 0 leaves the
-- public size of the feature set not zero, whoever owns the registration.
pub register_current_thread-pos :
    {env : Env} (success on_cpu : Bool) (g g' : Globals)
    → Reach env g
    → register_current_thread env success on_cpu g ≡ done (true, g')
    → 0 < g'.rseq_size
register_current_thread-pos success on_cpu g g' r h =
    (register-IsCoherent _ success on_cpu g g' true (Reach-IsCoherent r) h).1 refl

-- Where the calls of a process before reached a state, and librseq owns the registration after one
-- that returned 0, the next registration aborts if the kernel refuses it.
pub register_current_thread-aborted :
    {env : Env} (success on_cpu on_cpu' : Bool) (g g' : Globals)
    → Reach env g
    → register_current_thread env success on_cpu g ≡ done (true, g')
    → g'.rseq_ownership ≡ true
    → register_current_thread env false on_cpu' g' ≡ aborted
unfolding register_current_thread register_owned init
register_current_thread-aborted {env = env} success on_cpu on_cpu' g g' r h owned =
    let (c, positive) = register-IsCoherent env success on_cpu g g' true (Reach-IsCoherent r) h in
    let shown : ltb 0 g'.rseq_size ≡ true = ground (arith, positive refl) in
    let ours : not g'.rseq_ownership ≡ false = ground arith in
    ap (λ o. o >>= λ x. register_owned env false on_cpu' x) (if_true _ _ _ (c.owned owned))
    ∙ if_false _ _ _ ours
    ∙ if_true _ _ _ shown
