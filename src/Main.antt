-- ===== src/Main.antt =====
-- fleetbench/benchmark_main.cc: the filter that a run of the benchmarks gets, the processors it is kept
-- on, and the memory group whose limit is looked up.
pub mod Filter
use fleetbench.Prelude.{
  ℕ, Bool, true, false, ◌&&◌, ◌||◌, Option, none, some, List, [], ◌∷◌, ltb, if◌then◌else◌, length,
  Bytes, same_text, contains,
}
use fleetbench.Registrar.{
  ThreadingMode, single_threaded, multi_threaded, DynamicRegistrar, get_default_filter, run,
}

-- "default".
abbrev pub default_word : Bytes
default_word = 100 ∷ 101 ∷ 102 ∷ 97 ∷ 117 ∷ 108 ∷ 116 ∷ []

-- "single".
abbrev pub single_word : Bytes
single_word = 115 ∷ 105 ∷ 110 ∷ 103 ∷ 108 ∷ 101 ∷ []

-- "multi".
abbrev pub multi_word : Bytes
multi_word = 109 ∷ 117 ∷ 108 ∷ 116 ∷ 105 ∷ []

-- The benchmark library's filter, after `main` has looked at the flag.
unfoldable pub choose_filter :
    {S : Type 0} → DynamicRegistrar S → (benchmark_filter : Bytes) → Bytes
unfolding get_default_filter
choose_filter r benchmark_filter =
    if same_text benchmark_filter []
      || same_text benchmark_filter default_word
      || same_text benchmark_filter single_word
    then get_default_filter r single_threaded
    else if same_text benchmark_filter multi_word
    then get_default_filter r multi_threaded
    else benchmark_filter

-- The filter is chosen before the callbacks register the benchmarks.
unfoldable pub prepare_run :
    {S : Type 0}
    → DynamicRegistrar S
    → (benchmark_filter : Bytes) → S
    → Bytes × DynamicRegistrar S × S
unfolding choose_filter run
prepare_run r benchmark_filter s =
    let (ran, s') = run r s in (choose_filter r benchmark_filter, ran, s')

-- The processors of the current node among those of the process; a bit that the masks do not have is
-- not set.
unfoldable pub new_affinity : (size : List Bool) → (current node : List Bool) → List Bool
new_affinity [] current node = []
new_affinity (b ∷ size) [] node = false ∷ new_affinity size [] node
new_affinity (b ∷ size) (c ∷ current) [] = false ∷ new_affinity size current []
new_affinity (b ∷ size) (c ∷ current) (n ∷ node) = (c && n) ∷ new_affinity size current node

-- "memory".
abbrev memory_word : Bytes
memory_word = 109 ∷ 101 ∷ 109 ∷ 111 ∷ 114 ∷ 121 ∷ []

abbrev last_of : Bytes → List Bytes → Bytes
last_of field [] = field
last_of field (f ∷ fields) = last_of f fields

-- The loop of `CheckMemoryLimit`, over the lines of the file; `split` is `StrSplit` at the colons.
unfoldable pub memory_cgroup :
    (split : Bytes → List Bytes) → (found : Bytes) → (lines : List Bytes) → Bytes
memory_cgroup split found [] = found
memory_cgroup split found (line ∷ lines) =
    memory_cgroup split
      (if contains line memory_word && ltb 1 (length (split line))
        then last_of [] (split line)
        else found)
      lines

-- Whether `CheckMemoryLimit` warns, by the limit that the group's file holds.
unfoldable pub warns_of_limit :
    (split : Bytes → List Bytes) → (limit_of : Bytes → Option ℕ) → (lines : List Bytes) → Bool
unfolding memory_cgroup
warns_of_limit split limit_of lines =
    let group = memory_cgroup split [] lines in
    if same_text group []
    then false
    else elim (limit_of group) [ none ↦ false | some limit ↦ ltb limit 2000000000 ]
