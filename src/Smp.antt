-- ===== src/Smp.antt =====
-- src/smp.c: how many elements an array indexed by CPU ids needs. The bytes that are read from
-- sysfs, and what `strtoul`, `strtol` and `sysconf` answer, are arguments; a character is its code.
-- `int` has 32 bits, and a `long` that does not fit is reduced modulo 2 ^ 32.
use librseq.Base.{
  ◌+◌, ℕ, zero, suc, ◌-◌, ◌%◌, ◌^◌, Bool, true, false, not, ◌&&◌, ◌||◌, ◌==◌, ltb, if◌then◌else◌,
  List, [], ◌∷◌, length, drop, get_or, Option, none, some,
}
use librseq.Base.Int.{pos_part, ltb_ℤ, is_neg, ℤ, pos, negsuc}
mod Mask
mod Directory
mod Examples

-- A comma or a minus.
abbrev pub is_separator : ℕ → Bool
is_separator c = (c == 44) || (c == 45)

-- The loop over `i`, from the end: where the last CPU index starts.
unfoldable pub scan : List ℕ → ℕ → ℕ
scan pmask zero = 0
scan pmask (suc i) = if is_separator (get_or pmask (suc i) 0) then suc (suc i) else scan pmask i

-- `strtoul` answers with a number and with how many characters it has read.
unfoldable pub max_cpuid_from_mask : (List ℕ → ℕ × ℕ) → List ℕ → ℕ → ℤ
max_cpuid_from_mask strtoul pmask len =
    if ltb len 1 then negsuc 0 else from_index (strtoul (drop (scan pmask (len - 1)) pmask))
  where
    from_index : ℕ × ℕ → ℤ
    from_index (cpu_index, used) =
        if not (used == 0) && ltb cpu_index (2 ^ 31 - 1) then pos cpu_index else negsuc 0

-- An entry of "/sys/devices/system/cpu".
pub record Entry : Type 0 where
  pub is_dir : Bool
  pub name : List ℕ

-- `strncmp(name, "cpu", 3) == 0`.
abbrev pub begins_cpu : List ℕ → Bool
begins_cpu name = (get_or name 0 0 == 99) && (get_or name 1 0 == 112) && (get_or name 2 0 == 117)

-- The CPU id that an entry names.
unfoldable pub entry_id : (List ℕ → ℤ × ℕ) → Entry → Option ℤ
entry_id strtol e =
    if e.is_dir && begins_cpu e.name then whole_number (strtol (drop 3 e.name)) else none
  where
    whole_number : ℤ × ℕ → Option ℤ
    whole_number (cpu_id, used) =
        if ltb_ℤ cpu_id (pos (2 ^ 63 - 1)) && not (used == 0) && (used == length e.name - 3)
        then some cpu_id
        else none

abbrev pub larger : ℤ → Option ℤ → ℤ
larger max_cpuid none = max_cpuid
larger max_cpuid (some cpu_id) = if ltb_ℤ max_cpuid cpu_id then cpu_id else max_cpuid

unfoldable pub max_entry : (List ℕ → ℤ × ℕ) → List Entry → ℤ → ℤ
max_entry strtol [] max_cpuid = max_cpuid
max_entry strtol (e ∷ es) max_cpuid = max_entry strtol es (larger max_cpuid (entry_id strtol e))

-- The highest id among the entries, if the directory opens.
unfoldable pub max_cpuid_from_sysfs : (List ℕ → ℤ × ℕ) → Option (List Entry) → ℤ
max_cpuid_from_sysfs strtol none = negsuc 0
max_cpuid_from_sysfs strtol (some es) =
    let max_cpuid = max_entry strtol es (negsuc 0) in
    if is_neg max_cpuid || ltb (2 ^ 31 - 1) (pos_part max_cpuid) then negsuc 0 else max_cpuid

abbrev pub increment : ℤ → ℤ
increment (pos n) = pos (n + 1)
increment (negsuc zero) = pos 0
increment (negsuc (suc n)) = negsuc n

abbrev pub max_ℤ : ℤ → ℤ → ℤ
max_ℤ a b = if ltb_ℤ b a then a else b

-- The `int` of 32 bits, and the conversion of a `long` to it.
abbrev pub signed : ℕ → ℤ
signed n = if ltb n (2 ^ 31) then pos n else negsuc (2 ^ 32 - 1 - n)

unfoldable pub to_int : ℤ → ℤ
to_int (pos n) = signed (n % 2 ^ 32)
to_int (negsuc n) = signed (2 ^ 32 - 1 - n % 2 ^ 32)

-- The sum with 1 is an `int`, the value of `sysconf` a `long`; the larger one is returned as an `int`.
-- At INT_MAX the sum overflows, which C leaves undefined; here it wraps.
unfoldable pub num_possible_cpus_fallback :
    (List ℕ → ℤ × ℕ) → (nprocessors_conf : ℤ) → Option (List Entry) → ℤ
num_possible_cpus_fallback strtol nprocessors_conf entries =
    to_int (max_ℤ nprocessors_conf (to_int (increment (max_cpuid_from_sysfs strtol entries))))

-- What one detection is answered: the bytes of the mask, if it is read, the directory, and `sysconf`.
pub record Answers : Type 0 where
  pub strtoul : List ℕ → ℕ × ℕ
  pub strtol : List ℕ → ℤ × ℕ
  pub mask : Option (List ℕ)
  pub entries : Option (List Entry)
  pub nprocessors_conf : ℤ

unfoldable pub from_mask : Answers → Option (List ℕ) → ℤ
from_mask a none = num_possible_cpus_fallback a.strtol a.nprocessors_conf a.entries
from_mask a (some pmask) =
    let max_cpuid = max_cpuid_from_mask a.strtoul pmask (length pmask) in
    if is_neg max_cpuid
    then num_possible_cpus_fallback a.strtol a.nprocessors_conf a.entries
    else increment max_cpuid

-- `update_possible_cpus_array_len_cache`: the new content of the cache.
unfoldable pub update_cache : Answers → ℕ → ℕ
update_cache a cache =
    let ret = from_mask a a.mask in if ltb_ℤ ret (pos 1) then cache else pos_part ret

-- What `get_possible_cpus_array_len` returns, which is also the new content of the cache.
unfoldable pub possible_cpus_array_len : Answers → ℕ → ℕ
possible_cpus_array_len a cache = if cache == 0 then update_cache a cache else cache
