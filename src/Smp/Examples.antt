-- ===== src/Smp/Examples.antt =====
-- CPU counts at concrete answers: the mask "0-7" with its newline, and the directory of "cpu3".
use librseq.Base.{◌<◌, ◌≡◌, ◌+◌, [], ◌∷◌, none, some, true, refl, arith}
use librseq.Base.Int.{pos}
use librseq.Smp.{Answers, Entry, possible_cpus_array_len, entry_id}
use librseq.Smp.Mask.{possible_cpus_array_len-mask}
use librseq.Smp.Directory.{possible_cpus_array_len-entries}

abbrev masked : Answers
masked = record {
  strtoul = λ _. (7, 1);
  strtol = λ _. (pos 0, 0);
  mask = some (48 ∷ 45 ∷ 55 ∷ 10 ∷ []);
  entries = none;
  nprocessors_conf = pos 1;
}

possible_cpus_array_len-mask_example : possible_cpus_array_len masked 0 ≡ 7 + 1
possible_cpus_array_len-mask_example =
    possible_cpus_array_len-mask masked (48 ∷ []) (55 ∷ 10 ∷ []) 45 7 1 refl (omega arith) refl
      (refl, (refl, tt)) refl (omega arith) (omega arith)

abbrev cpu3 : Entry
cpu3 = record { is_dir = true; name = 99 ∷ 112 ∷ 117 ∷ 51 ∷ [] }

abbrev listed : Answers
listed = record {
  strtoul = λ _. (0, 0);
  strtol = λ _. (pos 3, 1);
  mask = none;
  entries = some (cpu3 ∷ []);
  nprocessors_conf = pos 1;
}

possible_cpus_array_len-entries_example : 3 < possible_cpus_array_len listed 0
unfolding entry_id
possible_cpus_array_len-entries_example =
    possible_cpus_array_len-entries listed (cpu3 ∷ []) 0 3 cpu3 refl refl (omega arith)
      (omega arith, tt) refl refl
