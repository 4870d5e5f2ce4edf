-- ===== src/Mempool/Items/Cpus.antt =====
-- The loop over the CPUs: what each round makes true of its own CPU stays true.
use librseq.Base.{ℕ, zero, suc, ◌+◌, ◌≤◌, ◌<◌, ◌≢◌, arith, ℕ_discrete, subst}
use librseq.Mempool.Items.{each_cpu}

module _ {ℓ κ} {S : Type ℓ} (P : ℕ → S → Type κ) (k : ℕ) (body : ℕ → S → S)
    (make : (i : ℕ) (s : S) → i < k → P i (body i s))
    (keep : (i j : ℕ) (s : S) → i < k → j < k → i ≢ j → P j s → P j (body i s)) where
  each_cpu_kept : (n i j : ℕ) (s : S) → i + n ≤ k → j < i → P j s → P j (each_cpu n i body s)
  unfolding each_cpu
  each_cpu_kept zero i j s h lt p = p
  each_cpu_kept (suc n) i j s h lt p =
      each_cpu_kept n (i + 1) j (body i s) (omega arith) (omega arith)
        (keep i j s (omega arith) (omega arith) (λ e. absurd (omega arith)) p)

  pub each_cpu_all : (n i j : ℕ) (s : S) → i + n ≤ k → i ≤ j → j < i + n → P j (each_cpu n i body s)
  unfolding each_cpu
  each_cpu_all zero i j s h lo hi = absurd (omega arith)
  each_cpu_all (suc n) i j s h lo hi = elim (ℕ_discrete i j) [
    | yes e ↦
        subst (λ j. P j (each_cpu n (i + 1) body (body i s))) e
          (each_cpu_kept n (i + 1) i (body i s) (omega arith) (omega arith)
            (make i s (omega arith)))
    | no ne ↦ each_cpu_all n (i + 1) j (body i s) (omega arith) (omega arith) (omega arith)
  ]

-- What no round touches stays.
pub each_cpu_inv {ℓ κ} :
    {S : Type ℓ} (Q : S → Type κ) (k : ℕ) (body : ℕ → S → S)
    → ((i : ℕ) (s : S) → i < k → Q s → Q (body i s))
    → (n i : ℕ) (s : S) → i + n ≤ k
    → Q s
    → Q (each_cpu n i body s)
unfolding each_cpu
each_cpu_inv Q k body keep zero i s h q = q
each_cpu_inv Q k body keep (suc n) i s h q =
    each_cpu_inv Q k body keep n (i + 1) (body i s) (omega arith) (keep i s (omega arith) q)
