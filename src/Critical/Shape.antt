-- ===== src/Critical/Shape.antt =====
-- The code around the sections: what stands before them, and what their exits lead to.
use librseq.Base.{
  subst, length-append, ℕ, zero, suc, ◌+◌, ◌≤◌, ◌<◌, ◌≡◌, ◌∙◌, ◌⊎◌, refl, true, List, [], ◌∷◌, ◌++◌,
  length, get_elem?, some, inl, inr, arith,
}
use mathlib.Core.List.{append_assoc}
use librseq.Mempool.Memory.{Memory}
use librseq.Critical.Machine.{
  Exit, success, ne, abort, Instr, address_cs, store_cs, save_src, save_dst, save_len, restore_src,
  restore_dst, restore_len, ret, Program, program, State, exec, handlers,
}
use librseq.Critical.Quiet.{Leads, here, on, Body, Passes}
use librseq.Critical.Entry.{Prologue, SameOperands, Opens}
use librseq.Critical.Instrs.{all_inner, program-Body}
use librseq.Critical.Lands.{ip_of}

-- An instruction before the one that sets the descriptor, and one that restores an operand.
pub data Setup : Type 0 where
  finds_cs saves_src saves_dst saves_len : Setup

pub data Restore : Type 0 where
  restores_src restores_dst restores_len : Restore

abbrev pub setup_instr : Setup → Instr
setup_instr finds_cs = address_cs
setup_instr saves_src = save_src
setup_instr saves_dst = save_dst
setup_instr saves_len = save_len

abbrev pub restore_instr : Restore → Instr
restore_instr restores_src = restore_src
restore_instr restores_dst = restore_dst
restore_instr restores_len = restore_len

abbrev pub prologue_of : List Setup → List Instr
prologue_of [] = store_cs ∷ []
prologue_of (x ∷ xs) = setup_instr x ∷ prologue_of xs

abbrev pub teardown_of : List Restore → List Instr
teardown_of [] = []
teardown_of (x ∷ xs) = restore_instr x ∷ teardown_of xs

-- From address `k` on, the code is `is`.
abbrev Suffix : List Instr → ℕ → List Instr → Type 0
Suffix code k is = (j : ℕ) → get_elem? code (k + j) ≡ get_elem? is j

Suffix-tail : (code : _) (k : ℕ) (i : _) (is : _) → Suffix code k (i ∷ is) → Suffix code (k + 1) is
Suffix-tail code k i is h j = let at : k + 1 + j ≡ k + suc j = omega arith in rw at (h (suc j))

Suffix-drop :
    (code : _) (k : ℕ) (is js : List Instr)
    → Suffix code k (is ++ js)
    → Suffix code (k + length is) js
Suffix-drop code k [] js h = let at : k + 0 ≡ k = omega arith in rw at h
Suffix-drop code k (i ∷ is) js h =
    let at : k + suc (length is) ≡ k + 1 + length is = omega arith in
    rw at (Suffix-drop code (k + 1) is js (Suffix-tail code k i (is ++ js) h))

first : (code : _) (k : ℕ) (i : _) (is : _) → Suffix code k (i ∷ is) → get_elem? code k ≡ some i
first code k i is h = let at : k + 0 ≡ k = omega arith in rw at at (h 0)

pub prologue_pos : (xs : List Setup) → 0 < length (prologue_of xs)
prologue_pos [] = omega arith
prologue_pos (x ∷ xs) = omega arith

-- What is at an address before the section.
whole : (code : List Instr) → Suffix code 0 code
whole code j = let at : 0 + j ≡ j = omega arith in rw at refl

-- The same handlers, one after the other.
abbrev in_turn : List Instr → List Instr
in_turn td = td ++ (ret success ∷ (td ++ (ret abort ∷ (td ++ (ret ne ∷ [])))))

in_turn-handlers : (td : List Instr) → handlers td ≡ in_turn td
in_turn-handlers td =
    append_assoc (td ++ ret success ∷ td) (ret abort ∷ td) (ret ne ∷ [])
    ∙ append_assoc td (ret success ∷ td) (ret abort ∷ td ++ ret ne ∷ [])

prologue_at :
    (xs : List Setup) (rest : List Instr) (k : ℕ)
    → k < length (prologue_of xs)
    → ((x : Setup) × (get_elem? (prologue_of xs ++ rest) k ≡ some (setup_instr x))
        × (k + 1 < length (prologue_of xs)))
      ⊎ (get_elem? (prologue_of xs ++ rest) k ≡ some store_cs)
prologue_at [] rest zero lt = inr refl
prologue_at [] rest (suc k) lt = absurd (omega arith)
prologue_at (x ∷ xs) rest zero lt = inl (x, refl, omega (arith, prologue_pos xs))
prologue_at (x ∷ xs) rest (suc k) lt = elim (prologue_at xs rest k (omega arith)) [
  | inl (y, at, more) ↦ inl (y, at, omega arith)
  | inr at ↦ inr at
]

module _ (M : Memory) where
  -- What every section has: code before it that sets the descriptor, no other instruction that
  -- does or that returns, and exits that lead to the returns.
  pub record Shape (P : Program) : Type 0 where
    pub opens : Prologue M P
    pub body : Body M P
    pub leads : (e : Exit) → Leads M P e (ip_of P e)

  untouched :
      (P : Program) (s : State M) {t : State M}
      → t.src ≡ s.src
      → t.dst ≡ s.dst
      → t.len ≡ s.len
      → t.cpu ≡ s.cpu
      → SameOperands M P s t
  untouched P s a b c d = record { src = a; dst = b; len = c; fits = λ h. rw d h }

  setup-Opens : (P : Program) (x : Setup) (k : ℕ) → k + 1 < P.start_ip → Opens M P k (setup_instr x)
  unfolding exec
  setup-Opens P finds_cs k lt s =
      (_, refl, refl, untouched P s refl refl refl refl, λ h. absurd (omega arith))
  setup-Opens P saves_src k lt s =
      (_, refl, refl, untouched P s refl refl refl refl, λ h. absurd (omega arith))
  setup-Opens P saves_dst k lt s =
      (_, refl, refl, untouched P s refl refl refl refl, λ h. absurd (omega arith))
  setup-Opens P saves_len k lt s =
      (_, refl, refl, untouched P s refl refl refl refl, λ h. absurd (omega arith))

  program-Prologue :
      (xs : List Setup) (body td : List Instr) → Prologue M (program (prologue_of xs) body td)
  unfolding program exec
  program-Prologue xs body td k lt = elim (prologue_at xs (body ++ handlers td) k lt) [
    | inl (x, at, more) ↦ (
      setup_instr x,
      rw (append_assoc (prologue_of xs) body (handlers td)) at,
      setup-Opens (program (prologue_of xs) body td) x k more,
    )
    | inr at ↦ (
      store_cs,
      rw (append_assoc (prologue_of xs) body (handlers td)) at,
      λ s. (
        _,
        refl,
        refl,
        untouched (program (prologue_of xs) body td) s refl refl refl refl,
        λ h. refl,
      ),
    )
  ]

  restore-Passes : (P : Program) (x : Restore) → Passes M P (restore_instr x)
  unfolding exec
  restore-Passes P restores_src s = (_, refl, refl)
  restore-Passes P restores_dst s = (_, refl, refl)
  restore-Passes P restores_len s = (_, refl, refl)

  teardown-Leads :
      (P : Program) (xs : List Restore) (e : Exit) (post : List Instr) (k : ℕ)
      → P.commit_ip ≤ k
      → Suffix P.code k (teardown_of xs ++ ret e ∷ post)
      → Leads M P e k
  teardown-Leads P [] e post k le at = here (first P.code k _ _ at) le
  teardown-Leads P (x ∷ xs) e post k le at =
      on (restore_instr x) (first P.code k _ _ at) (restore-Passes P x) le
        (teardown-Leads P xs e post (k + 1) (omega arith) (Suffix-tail P.code k _ _ at))

  -- The handlers stand where the entries of the table say.
  program-Leads :
      (pro body : List Instr) (xs : List Restore) (e : Exit)
      → Leads M (program pro body (teardown_of xs)) e (ip_of (program pro body (teardown_of xs)) e)
  unfolding program
  program-Leads pro body xs e =
      let P = program pro body (teardown_of xs) in
      let td = teardown_of xs in
      let at_success : Suffix P.code P.commit_ip (in_turn td) =
        subst (λ is. Suffix P.code P.commit_ip is) (in_turn-handlers td)
          (subst (λ k. Suffix P.code k (handlers td)) (omega (arith, length-append pro body))
            (Suffix-drop P.code 0 (pro ++ body) (handlers td) (whole P.code))) in
      let at_abort = Suffix-drop P.code P.commit_ip td _ at_success in
      let at_ne = Suffix-drop P.code _ td _ (Suffix-tail P.code _ _ _ at_abort) in
      elim e as (λ e. Leads M P e (ip_of P e)) [
        | success ↦ teardown-Leads P xs success _ P.commit_ip (omega arith) at_success
        | abort ↦
            teardown-Leads P xs abort _ P.abort_ip (omega arith) (Suffix-tail P.code _ _ _ at_abort)
        | ne ↦
            let at : P.commit_ip + length td + 1 + length td + 1 ≡ P.exit_ip = omega arith in
            teardown-Leads P xs ne [] P.exit_ip (omega arith)
              (subst (λ k. Suffix P.code k (td ++ ret ne ∷ [])) at (Suffix-tail P.code _ _ _ at_ne))
      ]

  -- A section with such code around it has the shape, if its own instructions do.
  pub program-Shape :
      (xs : List Setup) (body : List Instr) (ys : List Restore)
      → all_inner body ≡ true
      → Shape (program (prologue_of xs) body (teardown_of ys))
  program-Shape xs body ys inner = record {
    opens = program-Prologue xs body (teardown_of ys);
    body = program-Body M (prologue_of xs) body (teardown_of ys) inner;
    leads = program-Leads (prologue_of xs) body ys;
  }
