-- ===== src/Critical/Dispatch/Chosen.antt =====
-- Which section the helpers of include/rseq/rseq.h choose.
use librseq.Base.{ℕ, Bool, true, false, Option, some, none, ◌≡◌, ◌⊎◌, refl, inl, inr}
use librseq.Mempool.Memory.{Memory}
use librseq.Critical.Machine.{Program}
use librseq.Critical.Pseudo.{
  Call, load_cbne_store, load_cbeq_store_add_load_store, load_add_store,
  load_add_load_load_add_store, load_cbne_load_cbne_store, load_cbne_store_store,
  load_cbne_memcpy_store,
}
use librseq.Critical.Dispatch.{
  Mo, mo_relaxed, mo_consume, mo_acquire, mo_release, mo_acq_rel, mo_seq_cst, mo_unnamed,
  PercpuMode, percpu_cpu_id, percpu_mm_cid, percpu_unnamed, ArchSections, Selected, refused, absent,
  enters, by_mode, relaxed_only, by_mo, rseq_ptr, load_cbne_store_ptr,
  load_cbeq_store_add_load_store_ptr, load_add_store_ptr, load_add_load_load_add_store_ptr,
  load_cbne_store_store_ptr, load_cbne_load_cbne_store_ptr, load_cbne_memcpy_store_ptr,
}

-- The memory orders that a call has, and whether the section is the release variant.
pub data Offers : Mo → Bool → Call → Type 0 where
  relaxed : {call : Call} → Offers mo_relaxed false call
  release_store :
      {v expect v2 newv2 newv : ℕ}
      → Offers mo_release true (load_cbne_store_store v expect v2 newv2 newv)
  release_memcpy :
      {v expect dst src len newv : ℕ}
      → Offers mo_release true (load_cbne_memcpy_store v expect dst src len newv)

-- The modes that name a field.
pub data IsNamed : PercpuMode → Type 0 where
  named_cpu_id : IsNamed percpu_cpu_id
  named_mm_cid : IsNamed percpu_mm_cid

-- The order or the mode is none that the call has.
abbrev pub Unserved : Mo → PercpuMode → Call → Type 0
Unserved mo mode call = ¬ ((release : Bool) × Offers mo release call) ⊎ ¬ (IsNamed mode)

-- The helpers with a release variant.
abbrev two_stores : Call → Bool
two_stores (load_cbne_store v expect newv) = false
two_stores (load_add_store v count) = false
two_stores (load_cbeq_store_add_load_store v expectnot voffp load) = false
two_stores (load_add_load_load_add_store ptr off inc) = false
two_stores (load_cbne_load_cbne_store v expect v2 expect2 newv) = false
two_stores (load_cbne_store_store v expect v2 newv2 newv) = true
two_stores (load_cbne_memcpy_store v expect dst src len newv) = true

Offers-cases :
    {mo : Mo} {release : Bool} {call : Call}
    → Offers mo release call
    → (mo ≡ mo_relaxed) ⊎ (mo ≡ mo_release) × (two_stores call ≡ true)
Offers-cases relaxed = inl refl
Offers-cases release_store = inr (refl, refl)
Offers-cases release_memcpy = inr (refl, refl)

unserved :
    {mo : Mo} (mode : PercpuMode) {call : Call}
    → ¬ (mo ≡ mo_relaxed)
    → ¬ ((mo ≡ mo_release) × (two_stores call ≡ true))
    → Unserved mo mode call
unserved mode not_relaxed not_release =
    inl
      (λ (r, offers). elim (Offers-cases offers) [ inl a ↦ not_relaxed a | inr b ↦ not_release b ])

unnamed : {n : ℕ} → ¬ (IsNamed (percpu_unnamed n))
unnamed named = elim named [ ]

module _ {M : Memory} (S : ArchSections M) where
  -- The choice for a call: to refuse it, for its order or its mode alone, or the section of the
  -- architecture for its order, for the field of its mode, if there is that section.
  pub data Chosen (mo : Mo) (mode : PercpuMode) (call : Call) (cpu : ℕ) : Selected → Type 0 where
    refuses : Unserved mo mode call → Chosen mo mode call cpu refused
    lacks :
        {release : Bool}
        → Offers mo release call
        → IsNamed mode
        → S.code release call cpu ≡ none
        → Chosen mo mode call cpu absent
    takes :
        {release : Bool} {P : Program}
        → Offers mo release call
        → IsNamed mode
        → S.code release call cpu ≡ some P
        → Chosen mo mode call cpu (enters mode P)

  by_mode-Chosen :
      {mo : Mo} {release : Bool} {call : Call} (mode : PercpuMode) (cpu : ℕ)
      → Offers mo release call
      → (code : Option Program) → S.code release call cpu ≡ code
      → Chosen mo mode call cpu (by_mode mode code)
  unfolding by_mode
  by_mode-Chosen percpu_cpu_id cpu offers (some P) h = takes offers named_cpu_id h
  by_mode-Chosen percpu_cpu_id cpu offers none h = lacks offers named_cpu_id h
  by_mode-Chosen percpu_mm_cid cpu offers (some P) h = takes offers named_mm_cid h
  by_mode-Chosen percpu_mm_cid cpu offers none h = lacks offers named_mm_cid h
  by_mode-Chosen (percpu_unnamed n) cpu offers code h = refuses (inr unnamed)

  relaxed_only-Chosen :
      (mo : Mo) (mode : PercpuMode) (call : Call) (cpu : ℕ)
      → two_stores call ≡ false
      → Chosen mo mode call cpu (relaxed_only mo (by_mode mode (S.code false call cpu)))
  unfolding relaxed_only
  relaxed_only-Chosen mo_relaxed mode call cpu one = by_mode-Chosen mode cpu relaxed _ refl
  relaxed_only-Chosen mo_consume mode call cpu one = refuses (unserved mode (λ e. cc) (λ e. cc))
  relaxed_only-Chosen mo_acquire mode call cpu one = refuses (unserved mode (λ e. cc) (λ e. cc))
  relaxed_only-Chosen mo_release mode call cpu one = refuses (unserved mode (λ e. cc) (λ e. cc))
  relaxed_only-Chosen mo_acq_rel mode call cpu one = refuses (unserved mode (λ e. cc) (λ e. cc))
  relaxed_only-Chosen mo_seq_cst mode call cpu one = refuses (unserved mode (λ e. cc) (λ e. cc))
  relaxed_only-Chosen (mo_unnamed n) mode call cpu one = refuses (unserved mode (λ e. cc) (λ e. cc))

  by_mo-Chosen :
      (mo : Mo) (mode : PercpuMode) (call : Call) (cpu : ℕ)
      → Offers mo_release true call
      → Chosen mo mode call cpu
          (by_mo mo (by_mode mode (S.code false call cpu)) (by_mode mode (S.code true call cpu)))
  unfolding by_mo
  by_mo-Chosen mo_relaxed mode call cpu offers = by_mode-Chosen mode cpu relaxed _ refl
  by_mo-Chosen mo_release mode call cpu offers = by_mode-Chosen mode cpu offers _ refl
  by_mo-Chosen mo_consume mode call cpu offers = refuses (unserved mode (λ e. cc) (λ e. cc))
  by_mo-Chosen mo_acquire mode call cpu offers = refuses (unserved mode (λ e. cc) (λ e. cc))
  by_mo-Chosen mo_acq_rel mode call cpu offers = refuses (unserved mode (λ e. cc) (λ e. cc))
  by_mo-Chosen mo_seq_cst mode call cpu offers = refuses (unserved mode (λ e. cc) (λ e. cc))
  by_mo-Chosen (mo_unnamed n) mode call cpu offers = refuses (unserved mode (λ e. cc) (λ e. cc))

  -- The helper of a call refuses it if and only if it has no such memory order or no such mode, and
  -- else enters the section of the architecture for this order, the release variant for a release,
  -- on the field that the mode names, where the architecture has that section.
  pub rseq_ptr-Chosen :
      (mo : Mo) (mode : PercpuMode) (call : Call) (cpu : ℕ)
      → Chosen mo mode call cpu (rseq_ptr S mo mode call cpu)
  unfolding rseq_ptr load_cbne_store_ptr load_add_store_ptr load_cbeq_store_add_load_store_ptr
      load_add_load_load_add_store_ptr load_cbne_load_cbne_store_ptr load_cbne_store_store_ptr
      load_cbne_memcpy_store_ptr
  rseq_ptr-Chosen mo mode (load_cbne_store a b c) cpu =
      relaxed_only-Chosen mo mode (load_cbne_store a b c) cpu refl
  rseq_ptr-Chosen mo mode (load_add_store a b) cpu =
      relaxed_only-Chosen mo mode (load_add_store a b) cpu refl
  rseq_ptr-Chosen mo mode (load_cbeq_store_add_load_store a b c d) cpu =
      relaxed_only-Chosen mo mode (load_cbeq_store_add_load_store a b c d) cpu refl
  rseq_ptr-Chosen mo mode (load_add_load_load_add_store a b c) cpu =
      relaxed_only-Chosen mo mode (load_add_load_load_add_store a b c) cpu refl
  rseq_ptr-Chosen mo mode (load_cbne_load_cbne_store a b c d f) cpu =
      relaxed_only-Chosen mo mode (load_cbne_load_cbne_store a b c d f) cpu refl
  rseq_ptr-Chosen mo mode (load_cbne_store_store a b c d f) cpu =
      by_mo-Chosen mo mode (load_cbne_store_store a b c d f) cpu release_store
  rseq_ptr-Chosen mo mode (load_cbne_memcpy_store a b c d f g) cpu =
      by_mo-Chosen mo mode (load_cbne_memcpy_store a b c d f g) cpu release_memcpy
