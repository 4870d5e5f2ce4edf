-- ===== src/Registration/Coherent.antt =====
-- What holds between the calls of a process.
use librseq.Base.{
  not, ap, sym, ◌∙◌, subst, if_true, if_false, if◌then◌else◌, leb, ◌||◌, ℕ, ◌≤◌, ◌<◌, ◌≡◌, Bool,
  true, false, ◌==◌, ltb, refl, Option, none, some, Bool-cases, inl, inr, arith,
}
use librseq.Mempool.Types.{Outcome, done, aborted, ◌>>◌, >>=-eq-done}
use librseq.Registration.{
  exits, registers, inits, rseq_exit, register_current_thread, Reach, libc_symbols, starts, Env,
  Globals, assert, kernel_feature_size, active_size, adopt, init, set_size, register_owned,
}

-- What holds between the calls: librseq owns the registration only after the initialisation, then
-- the size fits the area, and where another owns it the size is not zero.
pub record IsCoherent (g : Globals) : Type 0 where
  pub owned : g.rseq_ownership ≡ true → g.init_done ≡ true
  pub area : g.rseq_ownership ≡ true → g.rseq_size ≤ 1024
  pub shown : g.init_done ≡ true → g.rseq_ownership ≡ false → 0 < g.rseq_size

assert-true {ℓ} :
    {A : Type ℓ} (b : Bool) (k : Outcome A) {a : A}
    → (assert b >> k) ≡ done a
    → (b ≡ true) × (k ≡ done a)
assert-true true k h = (refl, h)
assert-true false k h = absurd cc

done_inj {ℓ} : {A : Type ℓ} {a b : A} → ◌≡◌ {A = Outcome A} (done a) (done b) → b ≡ a
done_inj h = cc

some_inj {ℓ} : {A : Type ℓ} {a b : A} → ◌≡◌ {A = Option A} (some a) (some b) → a ≡ b
some_inj h = cc

kernel_feature_size-bounds :
    (env : Env) (n : ℕ) → kernel_feature_size env ≡ done n → (0 < n) × (n ≤ 1024)
unfolding kernel_feature_size
kernel_feature_size-bounds env n h =
    let (aligned, h1) = assert-true _ _ h in
    let (fits, h2) =
      assert-true (env.auxv_feature_size == 0 || leb env.auxv_feature_size 1024)
        (done (if env.auxv_feature_size == 0 then 20 else env.auxv_feature_size)) h1 in
    elim (Bool-cases (env.auxv_feature_size == 0)) [
      | inl zero ↦ let n20 : n ≡ 20 = done_inj (rw zero at h2) in (omega arith, omega arith)
      | inr positive ↦
          let same : n ≡ env.auxv_feature_size = done_inj (rw positive at h2) in
          (ground arith, ground arith)
    ]

active_size-pos : (env : Env) (size n : ℕ) → active_size env size ≡ done n → 0 < size → 0 < n
unfolding active_size
active_size-pos env size n h pos = elim (Bool-cases (size == 20 || size == 32)) [
  | inl special ↦
      let (k, kernel, result) = >>=-eq-done (kernel_feature_size env) _ (rw special at h) in
      let bounds = kernel_feature_size-bounds env k kernel in
      elim (Bool-cases (ltb k 32)) [
        | inl small ↦ let nk : n ≡ k = done_inj (rw small at result) in omega (arith, bounds.0)
        | inr large ↦ let n32 : n ≡ 32 = done_inj (rw large at result) in omega arith
      ]
  | inr other ↦ let same : n ≡ size = done_inj (rw other at h) in omega arith
]

libc_symbols-pos :
    (a b c : Option ℕ) (offset size flags : ℕ)
    → libc_symbols a b c ≡ some (offset, size, flags)
    → 0 < size
unfolding libc_symbols
libc_symbols-pos (some a) (some b) (some c) offset size flags h = elim (Bool-cases (b == 0)) [
  | inl zero ↦
      let contra : ◌≡◌ {A = Option (ℕ × ℕ × ℕ)} none (some (offset, size, flags)) = rw zero at h in
      absurd cc
  | inr positive ↦
      let same : (a, b, c) ≡ (offset, size, flags) = some_inj (rw positive at h) in
      let eq : b ≡ size = ap (λ (x : ℕ × ℕ × ℕ). x.1) same in ground arith
]
libc_symbols-pos none b c offset size flags h = absurd cc
libc_symbols-pos (some a) none c offset size flags h = absurd cc
libc_symbols-pos (some a) (some b) none offset size flags h = absurd cc

adopt-IsCoherent :
    (env : Env) (g g' : Globals) (symbols : Option (ℕ × ℕ × ℕ))
    → ((offset size flags : ℕ) → symbols ≡ some (offset, size, flags) → 0 < size)
    → g.init_done ≡ true
    → g.rseq_ownership ≡ false
    → adopt env g symbols ≡ done g'
    → IsCoherent g' × (g'.init_done ≡ true)
unfolding adopt
adopt-IsCoherent env g g' (some (offset, size, flags)) pos is_done free h =
    let (n, active, result) = >>=-eq-done (active_size env size) _ h in
    let positive = active_size-pos env size n active (pos offset size flags refl) in
    let same = done_inj result in
    rw same (
      record { owned = λ owned. is_done; area = λ owned. absurd cc; shown = λ _ _. positive },
      is_done,
    )
adopt-IsCoherent env g g' none pos is_done free h =
    let same = done_inj h in
    rw same (
      record { owned = λ owned. is_done; area = λ owned. omega arith; shown = λ _ free. absurd cc },
      is_done,
    )

init-IsCoherent :
    (env : Env) (g g' : Globals)
    → IsCoherent g
    → init env g ≡ done g'
    → IsCoherent g' × (g'.init_done ≡ true)
unfolding init
init-IsCoherent env g g' c h = elim (Bool-cases g.init_done) [
  | inl is_done ↦
      let same : g' ≡ g = done_inj (sym (if_true _ _ _ is_done) ∙ h) in
      (subst IsCoherent (sym same) c, ap (λ (x : Globals). x.init_done) same ∙ is_done)
  | inr fresh ↦
      adopt-IsCoherent env (record g { init_done = true }) g'
        (libc_symbols env.libc_offset env.libc_size env.libc_flags)
        (libc_symbols-pos env.libc_offset env.libc_size env.libc_flags) refl (free fresh)
        (sym (if_false _ _ _ fresh) ∙ h)
]
  where
    free : g.init_done ≡ false → g.rseq_ownership ≡ false
    free fresh = elim (Bool-cases g.rseq_ownership) [
      | inl owned ↦ let is_done = c.owned owned in absurd cc
      | inr other ↦ other
    ]

set_size-IsCoherent :
    (env : Env) (g g' : Globals) (b : Bool)
    → IsCoherent g
    → g.rseq_ownership ≡ true
    → set_size env g ≡ done (b, g')
    → IsCoherent g' × (0 < g'.rseq_size)
unfolding set_size
set_size-IsCoherent env g g' b c owned h = elim (Bool-cases (g.rseq_size == 0)) [
  | inl zero ↦
      let (n, kernel, result) = >>=-eq-done (kernel_feature_size env) _ (rw zero at h) in
      let bounds = kernel_feature_size-bounds env n kernel in
      let same : g' ≡ record g { rseq_size = n } =
        ap (λ (x : Bool × Globals). x.1) (done_inj result) in
      rw same (record { owned = c.owned; area = λ _. bounds.1; shown = λ _ _. bounds.0 }, bounds.0)
  | inr positive ↦
      let same : g' ≡ g =
        ap (λ (x : Bool × Globals). x.1) (done_inj (sym (if_false _ _ _ positive) ∙ h)) in
      (
        subst IsCoherent (sym same) c,
        subst (λ (x : Globals). 0 < x.rseq_size) (sym same) (ground arith),
      )
]

-- A call of the registration keeps what holds, and if it registers, the size is not zero.
register_owned-IsCoherent :
    (env : Env) (success on_cpu : Bool) (g g' : Globals) (b : Bool)
    → IsCoherent g
    → g.init_done ≡ true
    → register_owned env success on_cpu g ≡ done (b, g')
    → IsCoherent g' × (b ≡ true → 0 < g'.rseq_size)
unfolding register_owned
register_owned-IsCoherent env true on_cpu g g' b c is_done h = elim (Bool-cases g.rseq_ownership) [
  | inl owned ↦
      let ours : not g.rseq_ownership ≡ false = ground arith in
      let (on, h2) = assert-true on_cpu (set_size env g) (sym (if_false _ _ _ ours) ∙ h) in
      let (c', positive) = set_size-IsCoherent env g g' b c owned h2 in (c', λ _. positive)
  | inr free ↦
      let theirs : not g.rseq_ownership ≡ true = ground arith in
      let same : (b, g') ≡ (true, g) = done_inj (sym (if_true _ _ _ theirs) ∙ h) in
      let eq = ap (λ (x : Bool × Globals). x.1) same in
      (
        subst IsCoherent (sym eq) c,
        λ _. subst (λ (x : Globals). 0 < x.rseq_size) (sym eq) (c.shown is_done free),
      )
]
register_owned-IsCoherent env false on_cpu g g' b c is_done h = elim (Bool-cases g.rseq_ownership) [
  | inl owned ↦
      let ours : not g.rseq_ownership ≡ false = ground arith in
      let h1 : ◌≡◌ {A = Outcome (Bool × Globals)}
          (if ltb 0 g.rseq_size then aborted else done (false, g)) (done (b, g')) =
        sym (if_false _ _ _ ours) ∙ h in
      elim (Bool-cases (ltb 0 g.rseq_size)) [
        | inl positive ↦
            let contra : ◌≡◌ {A = Outcome (Bool × Globals)} aborted (done (b, g')) =
              sym (if_true _ _ _ positive) ∙ h1 in
            absurd cc
        | inr zero ↦
            let same : (b, g') ≡ (false, g) = done_inj (sym (if_false _ _ _ zero) ∙ h1) in
            let eq = ap (λ (x : Bool × Globals). x.1) same in
            let failed : b ≡ false = ap (λ (x : Bool × Globals). x.0) same in
            (subst IsCoherent (sym eq) c, λ registered. absurd cc)
      ]
  | inr free ↦
      let theirs : not g.rseq_ownership ≡ true = ground arith in
      let same : (b, g') ≡ (true, g) = done_inj (sym (if_true _ _ _ theirs) ∙ h) in
      let eq = ap (λ (x : Bool × Globals). x.1) same in
      (
        subst IsCoherent (sym eq) c,
        λ _. subst (λ (x : Globals). 0 < x.rseq_size) (sym eq) (c.shown is_done free),
      )
]

pub register-IsCoherent :
    (env : Env) (success on_cpu : Bool) (g g' : Globals) (b : Bool)
    → IsCoherent g
    → register_current_thread env success on_cpu g ≡ done (b, g')
    → IsCoherent g' × (b ≡ true → 0 < g'.rseq_size)
unfolding register_current_thread
register-IsCoherent env success on_cpu g g' b c h =
    let (g1, first, second) = >>=-eq-done (init env g) _ h in
    let (c1, is_done) = init-IsCoherent env g g1 c first in
    register_owned-IsCoherent env success on_cpu g1 g' b c1 is_done second

exit-IsCoherent : (g : Globals) → IsCoherent g → IsCoherent (rseq_exit g)
unfolding rseq_exit
exit-IsCoherent g c = elim (Bool-cases g.rseq_ownership) [
  | inl owned ↦
      let ours : not g.rseq_ownership ≡ false = ground arith in
      subst IsCoherent (sym (if_false _ _ _ ours))
        (record { owned = λ h. absurd cc; area = λ h. absurd cc; shown = λ _ _. omega arith })
  | inr free ↦
      let theirs : not g.rseq_ownership ≡ true = ground arith in
      subst IsCoherent (sym (if_true _ _ _ theirs)) c
]

pub Reach-IsCoherent : {env : Env} {g : Globals} → Reach env g → IsCoherent g
Reach-IsCoherent starts = record {
  owned = λ h. absurd cc;
  area = λ h. absurd cc;
  shown = λ h _. absurd cc;
}
Reach-IsCoherent (inits r h) = (init-IsCoherent _ _ _ (Reach-IsCoherent r) h).0
Reach-IsCoherent (registers success on_cpu r h) =
    (register-IsCoherent _ success on_cpu _ _ _ (Reach-IsCoherent r) h).0
Reach-IsCoherent (exits r) = exit-IsCoherent _ (Reach-IsCoherent r)
