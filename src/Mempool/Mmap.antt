-- ===== src/Mempool/Mmap.antt =====
-- `aligned_mmap_anonymous` of src/rseq-mempool.c.
use librseq.Base.{
  ℕ, ◌+◌, ◌-◌, ◌*◌, ◌/◌, ◌^◌, bit_and, Bool, not, ◌||◌, Option, none, some, ◌==◌, ltb, leb,
  if◌then◌else◌,
}
use librseq.Bits.{u64}
use librseq.Utils.{is_pow2, offset_align, get_count_order_ulong}
use librseq.Mempool.Types.{Outcome, done, aborted, ◌>>=◌, ◌>>◌}

-- What the kernel answers: `mmap` of a length gives an address or `MAP_FAILED`, `munmap` succeeds
-- or fails.
pub record MapCalls : Type 0 where
  pub mmap : ℕ → Option ℕ
  pub munmap : (addr len : ℕ) → Bool

-- `assert(b)`.
abbrev pub assert : Bool → Outcome (Unit {0})
assert b = if b then done tt else aborted

-- A mapping: its pre-header, the pointer that is returned, and the number of bytes still mapped from
-- the pre-header on.
pub record Mapping : Type 0 where
  pub pre_header : ℕ
  pub ptr : ℕ
  pub total : ℕ

-- The result, or `NULL`: with `EINVAL`, or with the errno of `mmap`.
pub data MapResult : Type 0 where
  mapped : Mapping → MapResult
  map_failed : MapResult
  invalid : MapResult

-- The local variables after `mmap`.
pub record Trim : Type 0 where
  pub ptr : ℕ
  pub page_count : ℕ
  pub total_allocate : ℕ

module _ (K : MapCalls) (page_size len alignment pre_header_len : ℕ) where
  -- The alignment test, and "Unmap extra before".
  unfoldable pub trim_before : ℕ → Trim → Outcome Trim
  trim_before page_order t =
      if bit_and (u64 (t.ptr + pre_header_len)) (u64 (alignment + 2 ^ 64 - 1)) == 0
      then done t
      else (let extra = offset_align (u64 (t.ptr + pre_header_len)) alignment in
          do
            assert (bit_and extra (u64 (page_size + 2 ^ 64 - 1)) == 0)
            assert (K.munmap t.ptr extra)
            done (record {
              ptr = t.ptr + extra;
              page_count = t.page_count - extra / 2 ^ page_order;
              total_allocate = t.total_allocate - extra;
            }))

  -- "Unmap extra after", and the closing assertions.
  unfoldable pub trim_after : ℕ → ℕ → Trim → Outcome MapResult
  trim_after page_order minimum_page_count t =
      let extra = (t.page_count - minimum_page_count) * 2 ^ page_order in
      let total =
        if ltb minimum_page_count t.page_count
        then t.total_allocate - extra
        else t.total_allocate in
      do
        assert (leb minimum_page_count t.page_count)
        assert (
            not (ltb minimum_page_count t.page_count)
            || K.munmap (t.ptr + minimum_page_count * 2 ^ page_order) extra)
        assert (bit_and (u64 (t.ptr + pre_header_len)) (u64 (alignment + 2 ^ 64 - 1)) == 0)
        assert (total == u64 (len + pre_header_len))
        done (mapped (record { pre_header = t.ptr; ptr = t.ptr + pre_header_len; total = total }))

  unfoldable pub map_and_trim : ℕ → Outcome MapResult
  map_and_trim page_order =
      let minimum_page_count = u64 (pre_header_len + len) / 2 ^ page_order in
      let page_count =
        u64 (pre_header_len + len + alignment + 2 ^ 64 - page_size) / 2 ^ page_order in
      do
        assert (leb minimum_page_count page_count)
        elim (K.mmap (page_count * 2 ^ page_order)) [
          | none ↦ done map_failed
          | some ptr ↦
              trim_before page_order (record {
                ptr = ptr;
                page_count = page_count;
                total_allocate = page_count * 2 ^ page_order;
              })
              >>= trim_after page_order minimum_page_count
        ]

  -- The checks of the arguments.
  unfoldable pub args_ok : Bool
  args_ok = not (
      ltb len page_size
      || ltb alignment page_size
      || not (is_pow2 alignment)
      || not (bit_and len (u64 (alignment + 2 ^ 64 - 1)) == 0))

  unfoldable pub pre_header_ok : Bool
  pre_header_ok =
      (pre_header_len == 0) || (bit_and pre_header_len (u64 (page_size + 2 ^ 64 - 1)) == 0)

  unfoldable pub aligned_mmap_anonymous : Outcome MapResult
  aligned_mmap_anonymous =
      if args_ok
      then (elim (get_count_order_ulong page_size) [
        | none ↦ done invalid
        | some page_order ↦ if pre_header_ok then map_and_trim page_order else done invalid
      ])
      else done invalid
