-- ===== src/Common.antt =====
-- fleetbench/common/common.h and common.cc: the random engine, the distribution files, the cache
-- sizes and the command line.
pub mod Lookup
use fleetbench.Prelude.{
  ℕ, zero, suc, ◌+◌, ◌-◌, ◌*◌, ◌/◌, ◌%◌, ◌^◌, Bool, true, false, not, ◌&&◌, ◌||◌, Option, none,
  some, List, [], ◌∷◌, ◌++◌, ltb, ◌==◌, if◌then◌else◌, Run, done, fatal, stuck, ◌>>=◌, Bytes,
  length, get_or, same_text, starts_with, ℤ, pos, int_eq, int_lt,
}

module _ {Rng : Type 0} (seeded : ℤ → Rng) where
  -- `Random`.
  pub record Random : Type 0 where
    pub fixed_seed : Bool
    pub seed : ℤ
    pub rng : Rng

  -- `device` is what the random device gives.
  unfoldable pub make_random : (fixed_seed : Bool) → (seed : ℤ) → (device : ℤ) → Random
  make_random fixed seed device = record {
    fixed_seed = fixed;
    seed = seed;
    rng = if fixed then seeded seed else seeded device;
  }

  unfoldable pub reset_random : Random → Random
  reset_random r = if r.fixed_seed then record r { rng = seeded r.seed } else r

  -- `Random::instance` from the flags.
  unfoldable pub instance_random :
      (fixed_seed : Bool) → (seed : Option ℤ) → (device : ℤ) → Run (Random)
  unfolding make_random
  instance_random fixed none device = done (make_random fixed (pos 0) device)
  instance_random fixed (some seed) device =
      if fixed then done (make_random fixed seed device) else fatal

-- A `btree_map` with `int` keys: pairs in the order of the keys.
abbrev pub Table : Type 0 → Type 0
Table V = List (ℤ × V)

-- `map[key] = value`.
unfoldable pub put : {V : Type 0} → Table V → ℤ → V → Table V
put [] key value = (key, value) ∷ []
put ((k, v) ∷ rest) key value =
    let later = put rest key value in
    if int_lt key k
    then (key, value) ∷ (k, v) ∷ rest
    else if int_lt k key
    then (k, v) ∷ later
    else (key, value) ∷ rest

unfoldable pub find : {V : Type 0} → Table V → ℤ → Option V
find [] key = none
find ((k, v) ∷ rest) key = if int_eq k key then some v else find rest key

-- What the library makes of text: `StrSplit` of a column at its colon, `SimpleAtoi` and `SimpleAtod`.
pub record Reader : Type 1 where
  pub Value : Type 0
  pub zero_value : Value
  pub split_pair : Bytes → Bytes × Bytes
  pub to_int : Bytes → Option ℤ
  pub to_value : Bytes → Option Value

module _ (r : Reader) where
  -- A column as a key and a value; a `CHECK` fails on what is not a number.
  unfoldable pub read_column : Bytes → Run (ℤ × r.Value)
  read_column column =
      let (first, second) = r.split_pair column in
      elim (r.to_int first) [
        | none ↦ fatal
        | some key ↦ elim (r.to_value second) [ none ↦ fatal | some value ↦ done (key, value) ]
      ]

  -- The loop of `ConvertLine`.
  unfoldable pub convert_onto : Table r.Value → List Bytes → Run (Table r.Value)
  unfolding put read_column
  convert_onto result [] = done result
  convert_onto result (column ∷ line) =
      read_column column >>= λ kv. convert_onto (put result kv.0 kv.1) line

  unfoldable pub convert_line : List Bytes → Run (Table r.Value)
  unfolding convert_onto
  convert_line line = convert_onto [] line

  pub record MemDistributionData : Type 0 where
    pub size_distribution : Table r.Value
    pub overlap_probability : r.Value
    pub alignment_distribution : Table r.Value

  abbrev or_zero : Option r.Value → r.Value
  or_zero none = r.zero_value
  or_zero (some v) = v

  -- `ReadDistributionFile` and `ReadMemDistributionFile`, from the lines that `ReadCsv` has read. The
  -- first indexes a line that may not be there: undefined behaviour, and `fatal` here.
  unfoldable pub read_distribution : (lines : List (List Bytes)) → Run (Table r.Value)
  unfolding convert_line
  read_distribution [] = fatal
  read_distribution (line ∷ lines) = convert_line line

  unfoldable pub read_mem_distribution : (lines : List (List Bytes)) → Run (MemDistributionData)
  unfolding convert_line find
  read_mem_distribution (sizes ∷ overlap ∷ alignment ∷ lines) = convert_line overlap >>= λ o.
      convert_line sizes >>= λ s. convert_line alignment >>= λ a. done (record {
        size_distribution = s;
        overlap_probability = or_zero (find o (pos 1));
        alignment_distribution = a;
      })
  read_mem_distribution _ = fatal

-- `benchmark::CPUInfo`.
pub record CacheInfo : Type 0 where
  pub type : Bytes
  pub level : ℕ
  pub size : ℕ
  pub num_sharing : ℕ

pub record CpuInfo : Type 0 where
  pub caches : List CacheInfo
  pub num_cpus : ℕ

-- The platform that the code is compiled for.
pub data Platform : Type 0 where
  x86_64 aarch64 other_platform : Platform

-- The flags `L1_data_size`, `L2_size` and `L3_size`.
pub record CacheFlags : Type 0 where
  pub l1_data_size : Option ℤ
  pub l2_size : Option ℤ
  pub l3_size : Option ℤ

-- "Data".
abbrev pub data_type : Bytes
data_type = 68 ∷ 97 ∷ 116 ∷ 97 ∷ []

abbrev orelse : Option ℤ → Run ℤ → Run ℤ
orelse none rest = rest
orelse (some size) rest = done size

-- The level-3 size: on x86 times the number of sharded caches, which a division by zero would end.
unfoldable pub l3_size_of : Platform → (num_cpus : ℕ) → CacheInfo → Run ℤ
l3_size_of x86_64 cpus ci =
    let quotient = cpus / ci.num_sharing / 2 in
    if ci.num_sharing == 0
    then fatal
    else done (pos (ci.size * (if ltb quotient 1 then 1 else quotient)))
l3_size_of _ cpus ci = done (pos ci.size)

-- What is taken where no cache of the level is listed.
unfoldable pub fallback_size : Platform → (cache_level : ℕ) → Run ℤ
fallback_size aarch64 level =
    if level == 1
    then done (pos (64 * 1024))
    else if level == 2
    then done (pos (256 * 1024))
    else if level == 3
    then done (pos (32 * 1024 * 1024))
    else fatal
fallback_size _ level = fatal

-- The loop over the caches.
unfoldable pub listed_size :
    Platform → CpuInfo → List CacheInfo → (cache_level : ℕ) → (cache_type : Bytes) → Run ℤ
unfolding l3_size_of fallback_size
listed_size p cpu [] level type = fallback_size p level
listed_size p cpu (ci ∷ rest) level type =
    let later = listed_size p cpu rest level type in
    if not (ci.level == level)
    then later
    else if (level == 1 && same_text ci.type type) || level == 2
    then done (pos ci.size)
    else if level == 3
    then l3_size_of p cpu.num_cpus ci
    else fatal

unfoldable pub get_cache_size :
    Platform → CacheFlags → CpuInfo → (cache_level : ℕ) → (cache_type : Bytes) → Run ℤ
unfolding listed_size
get_cache_size p flags cpu level type =
    let listed = listed_size p cpu cpu.caches level type in
    let l3 = if level == 3 then orelse flags.l3_size listed else listed in
    let l2 = if level == 2 then orelse flags.l2_size l3 else l3 in
    if level == 1 && same_text type data_type then orelse flags.l1_data_size l2 else l2

-- `FindInCommandLine` over the arguments that the command line is split into.
unfoldable pub find_in_command_line :
    (argv : List Bytes) → (s : Bytes) → (exact_match : Bool) → Bool
find_in_command_line [] s exact = false
find_in_command_line (arg ∷ argv) s exact =
    (starts_with arg s && (not exact || same_text arg s)) || find_in_command_line argv s exact

-- The options that the code looks for, in character codes. "--benchmark_":
abbrev pub benchmark_option : Bytes → Bytes
benchmark_option rest = 45 ∷ 45 ∷ 98 ∷ 101 ∷ 110 ∷ 99 ∷ 104 ∷ 109 ∷ 97 ∷ 114 ∷ 107 ∷ 95 ∷ rest

-- "--benchmark_min_time".
abbrev pub min_time : Bytes
min_time = benchmark_option (109 ∷ 105 ∷ 110 ∷ 95 ∷ 116 ∷ 105 ∷ 109 ∷ 101 ∷ [])

-- "--benchmark_list_tests".
abbrev pub list_tests : Bytes
list_tests = benchmark_option (108 ∷ 105 ∷ 115 ∷ 116 ∷ 95 ∷ 116 ∷ 101 ∷ 115 ∷ 116 ∷ 115 ∷ [])

-- "--benchmark_out_format=console".
abbrev pub format_console : Bytes
format_console = benchmark_option (
    111 ∷ 117 ∷ 116 ∷ 95 ∷ 102 ∷ 111 ∷ 114 ∷ 109 ∷ 97 ∷ 116 ∷ 61 ∷ 99 ∷ 111 ∷ 110 ∷ 115 ∷ 111 ∷ 108
    ∷ 101 ∷ [])

-- "--benchmark_out_format=csv".
abbrev pub format_csv : Bytes
format_csv =
    benchmark_option
      (111 ∷ 117 ∷ 116 ∷ 95 ∷ 102 ∷ 111 ∷ 114 ∷ 109 ∷ 97 ∷ 116 ∷ 61 ∷ 99 ∷ 115 ∷ 118 ∷ [])

-- "--benchmark_counters_tabular".
abbrev pub tabular : Bytes
tabular =
    benchmark_option (
      99 ∷ 111 ∷ 117 ∷ 110 ∷ 116 ∷ 101 ∷ 114 ∷ 115 ∷ 95 ∷ 116 ∷ 97 ∷ 98 ∷ 117 ∷ 108 ∷ 97 ∷ 114 ∷ [])

abbrev pub tabular_1 : Bytes
tabular_1 = tabular ++ 61 ∷ 49 ∷ []

abbrev pub tabular_true : Bytes
tabular_true = tabular ++ 61 ∷ 116 ∷ 114 ∷ 117 ∷ 101 ∷ []

pub data Reporter : Type 0 where
  console_reporter : (tabular : Bool) → Reporter
  csv_reporter json_reporter : Reporter

module _ (argv : List Bytes) where
  unfoldable pub use_explicit_iteration_counts : Bool
  unfolding find_in_command_line
  use_explicit_iteration_counts =
      not (find_in_command_line argv min_time false)
      && not (find_in_command_line argv list_tests false)

  unfoldable pub create_default_file_reporter : Reporter
  unfolding find_in_command_line
  create_default_file_reporter =
      if find_in_command_line argv format_console false
      then console_reporter (
          find_in_command_line argv tabular true
          || find_in_command_line argv tabular_1 false
          || find_in_command_line argv tabular_true false)
      else if find_in_command_line argv format_csv false
      then csv_reporter
      else json_reporter
