-- ===== src/Critical/Dispatch/Served.antt =====
-- What a call of a helper of include/rseq/rseq.h does, whatever its memory order and its mode.
use librseq.Base.{ℕ, Bool, some, ◌≡◌, ◌⊎◌, refl, inl, inr, ap, subst, ◌∙◌}
use librseq.Mempool.Memory.{Memory}
use librseq.Critical.Machine.{Exit, abort, Program, State, Run}
use librseq.Critical.Pseudo.{Call}
use librseq.Critical.Implements.{Atomic}
use librseq.Critical.Dispatch.{
  Mo, PercpuMode, percpu_cpu_id, percpu_mm_cid, Ids, ArchSections, Selected, rseq_ptr, reading,
  Calls, returns_error, runs,
}
use librseq.Critical.Dispatch.Chosen.{
  Offers, IsNamed, named_cpu_id, named_mm_cid, Unserved, Chosen, refuses, lacks, takes,
  rseq_ptr-Chosen,
}

-- The field that a mode names.
pub data Names : PercpuMode → Ids → ℕ → Type 0 where
  names_cpu_id : {ids : Ids} → Names percpu_cpu_id ids ids.cpu_id
  names_mm_cid : {ids : Ids} → Names percpu_mm_cid ids ids.mm_cid

module _ {M : Memory} (S : ArchSections M) where
  -- A call that enters a section: one that `code` gives for it, built for the field of the mode,
  -- which returns -1 or takes effect at once.
  pub record Serves (mo : Mo) (mode : PercpuMode) (call : Call) (cpu : ℕ) (ids : Ids) (s : State M)
      (e : Exit) (t : State M) : Type 0 where
    pub release : Bool
    pub id : ℕ
    pub P : Program
    pub offers : Offers mo release call
    pub names : Names mode ids id
    pub is_code : S.code release call cpu ≡ some P
    pub result : (e ≡ abort) ⊎ Atomic M P call cpu (record s { cpu = id }) e t

  reads :
      {mode : PercpuMode} (ids : Ids) (s : State M)
      → IsNamed mode
      → (id : ℕ) × Names mode ids id × (reading M mode ids s ≡ record s { cpu = id })
  unfolding reading
  reads ids s named_cpu_id = (ids.cpu_id, names_cpu_id, refl)
  reads ids s named_mm_cid = (ids.mm_cid, names_mm_cid, refl)

  module _ (mo : Mo) (mode : PercpuMode) (call : Call) (cpu : ℕ) (ids : Ids) (s : State M) where
    Chosen-Serves :
        (chosen : Selected) (e : Exit) (t : State M)
        → s.pc ≡ 0
        → ((id : ℕ) → Names mode ids id → S.Ready call cpu (record s { cpu = id }))
        → Chosen S mo mode call cpu chosen
        → Calls M chosen ids s e t
        → Unserved mo mode call × (e ≡ abort) × (t ≡ s) ⊎ Serves mo mode call cpu ids s e t
    Chosen-Serves chosen e t at ready (refuses unserved) (returns_error h) =
        inl (unserved, refl, refl)
    Chosen-Serves chosen e t at ready (refuses unserved) (runs h run) = absurd cc
    Chosen-Serves chosen e t at ready (lacks offers named h) (returns_error g) = absurd cc
    Chosen-Serves chosen e t at ready (lacks offers named h) (runs g run) = absurd cc
    Chosen-Serves chosen e t at ready (takes offers named h) (returns_error g) = absurd cc
    Chosen-Serves chosen e t at ready (takes {release = release} {P = P} offers named h)
          (runs {mode = m} {P = Q} g run) =
        let same : m ≡ mode = cc in
        let code : Q ≡ P = cc in
        let (id, names, is_id) = reads ids s named in
        let from = ap (λ (x : PercpuMode). reading M x ids s) same ∙ is_id in
        let section =
          subst (λ x. Run M x (record s { cpu = id }) e t) code
            (subst (λ x. Run M Q x e t) from run) in
        inr (record {
          release = release;
          id = id;
          P = P;
          offers = offers;
          names = names;
          is_code = h;
          result =
              S.code-Atomic release call cpu P (record s { cpu = id }) t e h at (ready id names)
                section;
        })

    -- A call of a helper either has an order or a mode that the helper does not have, and returns
    -- -1 with nothing changed, or it enters the section of the architecture for its order, on the
    -- field that its mode names, and either returns -1 or has at one point gone through the whole
    -- section uninterrupted where that field held the number asked for, with the effect and the
    -- result of the pseudo-code; where the section is ready at its entry on the field.
    pub rseq_ptr-Serves :
        (e : Exit) (t : State M)
        → s.pc ≡ 0
        → ((id : ℕ) → Names mode ids id → S.Ready call cpu (record s { cpu = id }))
        → Calls M (rseq_ptr S mo mode call cpu) ids s e t
        → Unserved mo mode call × (e ≡ abort) × (t ≡ s) ⊎ Serves mo mode call cpu ids s e t
    rseq_ptr-Serves e t at ready call' =
        Chosen-Serves (rseq_ptr S mo mode call cpu) e t at ready
          (rseq_ptr-Chosen S mo mode call cpu) call'
