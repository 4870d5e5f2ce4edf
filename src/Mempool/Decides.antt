-- ===== src/Mempool/Decides.antt =====
-- Checks that return or abort.
use librseq.Base.{inr, inl, ◌⊎◌, false, true, if◌then◌else◌, Bool, ◌≡◌, ◌≢◌, ◌↔◌, refl}
use librseq.Mempool.Types.{Outcome, done, aborted, undefined, ◌>>◌}

-- A check that returns exactly if `P` holds, and else aborts.
pub data Decides (P : Type 0) : Outcome (Unit {0}) → Type 0 where
  passes : P → Decides P (done tt)
  stops : ¬ P → Decides P aborted

pub Decides-map : {P Q : Type 0} {x : Outcome (Unit {0})} → P ↔ Q → Decides P x → Decides Q x
Decides-map e (passes p) = passes (e.0 p)
Decides-map e (stops n) = stops (λ q. n (e.1 q))

pub Decides-done : {P : Type 0} {x : Outcome (Unit {0})} → Decides P x → (x ≡ done tt) ↔ P
Decides-done (passes p) = (λ h. p, λ h. refl)
Decides-done (stops n) = (λ h. cc, λ h. absurd (n h))

pub Decides-aborted : {P : Type 0} {x : Outcome (Unit {0})} → Decides P x → ¬ P → x ≡ aborted
Decides-aborted (passes p) n = absurd (n p)
Decides-aborted (stops n) m = refl

pub Decides-cases :
    {P : Type 0} {x : Outcome (Unit {0})}
    → Decides P x
    → (P × (x ≡ done tt)) ⊎ (¬ P × (x ≡ aborted))
Decides-cases (passes p) = inl (p, refl)
Decides-cases (stops n) = inr (n, refl)

-- From what it takes to return.
pub Decides-of_iff :
    {P : Type 0} (x : Outcome (Unit {0})) → x ≢ undefined → (x ≡ done tt) ↔ P → Decides P x
Decides-of_iff (done tt) h e = passes (e.0 refl)
Decides-of_iff aborted h e = stops (λ p. let contra = e.1 p in absurd (cc))
Decides-of_iff undefined h e = absurd (h refl)

-- One check after the other.
pub Decides-then :
    {P Q : Type 0} {x y : Outcome (Unit {0})} → Decides P x → Decides Q y → Decides (P × Q) (x >> y)
Decides-then (passes p) (passes q) = passes (p, q)
Decides-then (passes p) (stops n) = stops (λ h. n h.1)
Decides-then (stops n) d = stops (λ h. n h.0)

pub >>-≢-undefined :
    (x y : Outcome (Unit {0})) → x ≢ undefined → y ≢ undefined → (x >> y) ≢ undefined
>>-≢-undefined (done tt) y hx hy = hy
>>-≢-undefined aborted y hx hy = λ h. cc
>>-≢-undefined undefined y hx hy = absurd (hx refl)

-- A check that is made only where it is wanted.
pub Decides-if :
    {P : Type 0} {x y : Outcome (Unit {0})} (b : Bool)
    → (b ≡ true → Decides P x)
    → (b ≡ false → Decides P y)
    → Decides P (if b then x else y)
Decides-if true dx dy = dx refl
Decides-if false dx dy = dy refl

pub if-≢-undefined :
    (b : Bool) (x y : Outcome (Unit {0}))
    → x ≢ undefined
    → y ≢ undefined
    → (if b then x else y) ≢ undefined
if-≢-undefined true x y hx hy = hx
if-≢-undefined false x y hx hy = hy
