-- ===== src/Mempool/Memory/CowMap.antt =====
-- A memory with the mappings of one range: the areas of its CPUs show the init values behind them,
-- until they are written. Here a byte is unshared alone, where the kernel unshares its page.
use librseq.Base.{
  ℕ, ◌+◌, ◌-◌, ◌*◌, ◌%◌, ◌<◌, ◌≡◌, ◌≢◌, refl, arith, Bool, true, false, not, ◌&&◌, ◌==◌, leb, ltb,
  if◌then◌else◌, Bool-cases, inl, inr,
}
use librseq.Mempool.Memory.Defs.{Memory}

-- The bytes, and which addresses were written.
pub record Cow : Type 0 where
  pub written : ℕ → Bool
  pub bytes : ℕ → ℕ

module _ (base stride cpus : ℕ) where
  -- In the areas of the CPUs, and the byte of the init values there.
  abbrev in_areas : ℕ → Bool
  in_areas a = leb base a && ltb a (base + stride * cpus)

  abbrev behind : ℕ → ℕ
  behind a = base + stride * cpus + (a - base) % stride

  -- Where the byte at an address comes from.
  abbrev source : Bool → ℕ → ℕ
  source written a = if in_areas a && not written then behind a else a

  abbrev store_cow : Cow → ℕ → ℕ → Cow
  store_cow m a v = record {
    written = λ b. if a == b then true else m.written b;
    bytes = λ b. if a == b then v else m.bytes b;
  }

  own_byte : (a : ℕ) → source true a ≡ a
  own_byte a = elim (Bool-cases (in_areas a)) [
    | inl inside ↦ rw inside refl
    | inr outside ↦ rw outside refl
  ]

  pub load-store_cow_self :
      (m : Cow) (a v : ℕ)
      → v < 256
      → (store_cow m a v).bytes (source ((store_cow m a v).written a) a) % 256 ≡ v
  load-store_cow_self m a v h =
      let same : (a == a) ≡ true = ground arith in rw (same, own_byte a, same) (omega arith)

  pub load-store_cow_ne :
      (m : Cow) (a b v : ℕ)
      → a ≢ b
      → ¬ ((in_areas b ≡ true) × (a ≡ behind b))
      → (store_cow m a v).bytes (source ((store_cow m a v).written b) b) % 256
        ≡ m.bytes (source (m.written b) b) % 256
  load-store_cow_ne m a b v ne apart =
      let other : (a == b) ≡ false = ground arith in
      elim (Bool-cases (in_areas b && not (m.written b))) [
        | inl shared ↦
            let inside : in_areas b ≡ true = ground arith in
            let elsewhere : ¬ (a ≡ behind b) = λ e. apart (inside, e) in
            let other' : (a == behind b) ≡ false = ground arith in rw (other, shared, other') refl
        | inr own ↦ rw (other, own, other) refl
      ]

  abbrev pub copy_on_write : Memory
  copy_on_write = record {
    Mem = Cow;
    load = λ m a. m.bytes (source (m.written a) a) % 256;
    store = store_cow;
    Follows = λ a b. (in_areas b ≡ true) × (a ≡ behind b);
    word_bytes = 8;
    load-lt = λ m a. omega arith;
    load-store_self = λ m a v h. load-store_cow_self m a v h;
    load-store_ne = λ m a b v ne apart. load-store_cow_ne m a b v ne apart;
  }
