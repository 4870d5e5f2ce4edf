-- ===== src/Utils/Defs.antt =====
-- The helpers of src/rseq-utils.h. An `unsigned long` has 64 bits.
use librseq.Base.{
  ℕ, ◌+◌, ◌-◌, ◌*◌, ◌%◌, ◌^◌, bit_and, Bool, ◌≡◌, refl, Option, none, some, ◌==◌, if◌then◌else◌,
}
use librseq.Bits.{u64, bit_not}

-- `rseq_align(v, align)`: `(v + (align - 1)) & ~(align - 1)`.
unfoldable pub align : ℕ → ℕ → ℕ
align v a = let mask = u64 (a + 2 ^ 64 - 1) in bit_and (u64 (v + mask)) (bit_not mask)

-- The variables of `rseq_fls_u64` and `rseq_fls_u32`.
pub record Scan : Type 0 where
  pub x : ℕ
  pub r : ℕ

-- `if (!(x & mask)) { x <<= s; r -= s; }` on a word of `w` bits.
unfoldable pub fls_step : ℕ → ℕ → ℕ → Scan → Scan
fls_step w mask s c =
    if bit_and c.x mask == 0 then record { x = c.x * 2 ^ s % 2 ^ w; r = c.r - s } else c

unfoldable pub fls_u64 : ℕ → ℕ
unfolding fls_step
fls_u64 x =
    let c = fls_step 64 0xFFFF_FFFF_0000_0000 32 (record { x = x; r = 64 }) in
    let c = fls_step 64 0xFFFF_0000_0000_0000 16 c in
    let c = fls_step 64 0xFF00_0000_0000_0000 8 c in
    let c = fls_step 64 0xF000_0000_0000_0000 4 c in
    let c = fls_step 64 0xC000_0000_0000_0000 2 c in
    let c = fls_step 64 0x8000_0000_0000_0000 1 c in if x == 0 then 0 else c.r

unfoldable pub fls_u32 : ℕ → ℕ
unfolding fls_step
fls_u32 x =
    let c = fls_step 32 0xFFFF_0000 16 (record { x = x; r = 32 }) in
    let c = fls_step 32 0xFF00_0000 8 c in
    let c = fls_step 32 0xF000_0000 4 c in
    let c = fls_step 32 0xC000_0000 2 c in
    let c = fls_step 32 0x8000_0000 1 c in if x == 0 then 0 else c.r

-- `rseq_get_count_order_ulong`; `none` is its -1.
unfoldable pub get_count_order_ulong : ℕ → Option ℕ
get_count_order_ulong x = if x == 0 then none else some (fls_u64 (x - 1))

-- `!(x & (x - 1))`; in C, `0 - 1` is all ones.
unfoldable pub is_pow2 : ℕ → Bool
is_pow2 x = bit_and x (u64 (x + 2 ^ 64 - 1)) == 0

-- `(alignment - p) & (alignment - 1)`.
unfoldable pub offset_align : ℕ → ℕ → ℕ
offset_align p alignment = bit_and (u64 (alignment + 2 ^ 64 - p)) (u64 (alignment + 2 ^ 64 - 1))

fls_tests : (fls_u64 0 ≡ 0) × (fls_u64 1 ≡ 1) × (fls_u64 0x1234 ≡ 13) × (fls_u32 0x8000_0000 ≡ 32)
unfolding fls_u64 fls_u32
fls_tests = (refl, refl, refl, refl)

order_tests :
    (get_count_order_ulong 0 ≡ none)
    × (get_count_order_ulong 1 ≡ some 0)
    × (get_count_order_ulong 4096 ≡ some 12)
    × (get_count_order_ulong 4097 ≡ some 13)
unfolding get_count_order_ulong fls_u64
order_tests = (refl, refl, refl, refl)
