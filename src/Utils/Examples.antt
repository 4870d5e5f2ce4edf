-- ===== src/Utils/Examples.antt =====
-- The theorems on bit scans and alignment at small numbers.
use librseq.Base.{ℕ, ◌+◌, ◌%◌, ◌^◌, ◌≤◌, ◌<◌, ◌≡◌, true, ◌↔◌, ◌⊎◌, arith}
use librseq.Bits.{IsPow2}
use librseq.Utils.Defs.{fls_u64, fls_u32, get_count_order_ulong, is_pow2, offset_align, align}
use librseq.Utils.Fls.{IsHighest, fls-IsHighest}
use librseq.Utils.Order.{OrderOf, get_count_order_ulong-OrderOf, is_pow2_iff}
use librseq.Utils.Align.{offset_align_lem, align_lem}

fls-IsHighest_example :
    (77 < 2 ^ 64 → IsHighest 77 (fls_u64 77)) × (77 < 2 ^ 32 → IsHighest 77 (fls_u32 77))
fls-IsHighest_example = fls-IsHighest 77 (omega arith)

get_count_order_ulong-OrderOf_example : OrderOf 100 (get_count_order_ulong 100)
get_count_order_ulong-OrderOf_example = get_count_order_ulong-OrderOf 100 (omega arith)

is_pow2_iff_example : (is_pow2 96 ≡ true) ↔ ((◌≡◌ {A = ℕ} 96 0) ⊎ IsPow2 96)
is_pow2_iff_example = is_pow2_iff 96 (omega arith)

offset_align_lem_example :
    ((100 + offset_align 100 (2 ^ 4)) % 2 ^ 4 ≡ 0) × (offset_align 100 (2 ^ 4) < 2 ^ 4)
offset_align_lem_example = offset_align_lem 4 100 (omega arith) (omega arith)

align_lem_example :
    (align 100 (2 ^ 4) % 2 ^ 4 ≡ 0) × (100 ≤ align 100 (2 ^ 4)) × (align 100 (2 ^ 4) < 100 + 2 ^ 4)
align_lem_example = align_lem 4 100 (omega arith) (omega arith)
