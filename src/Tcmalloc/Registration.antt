-- ===== src/Tcmalloc/Registration.antt =====
-- fleetbench/tcmalloc/empirical_driver.cc: the benchmarks of each distribution, and the threads that
-- each run of one gets.
pub mod Threads
use fleetbench.Prelude.{
  ℕ, zero, suc, ◌*◌, ◌/◌, ◌^◌, Bool, true, false, not, ◌&&◌, ◌||◌, Option, none, some, List, [],
  ◌∷◌, ◌++◌, ltb, leb, ◌==◌, if◌then◌else◌, Run, done, fatal, ◌>>=◌, drop, Bytes, same_text,
  starts_with, contains,
}
use fleetbench.Tcmalloc.Simulator.{World, Entry}
use fleetbench.Tcmalloc.Driver.{Extension, SimThread, make_sim_thread}

-- "BM_".
abbrev pub bm : Bytes
bm = 66 ∷ 77 ∷ 95 ∷ []

-- "TCMALLOC_".
abbrev pub tcmalloc : Bytes
tcmalloc = 84 ∷ 67 ∷ 77 ∷ 65 ∷ 76 ∷ 76 ∷ 79 ∷ 67 ∷ 95 ∷ []

-- "TCMALLOC_5".
abbrev pub default_distribution : Bytes
default_distribution = tcmalloc ++ 53 ∷ []

-- ".csv".
abbrev csv : Bytes
csv = 46 ∷ 99 ∷ 115 ∷ 118 ∷ []

-- `name.erase(name.find(".csv"))`, which throws where there is none.
unfoldable pub erase_csv : Bytes → Run Bytes
erase_csv [] = fatal
erase_csv (c ∷ name) =
    let rest = erase_csv name >>= λ kept. done (c ∷ kept) in
    if starts_with (c ∷ name) csv then done [] else rest

-- A registered benchmark, with its `ThreadRange` and its iterations where these are set.
pub record Family : Type 0 where
  pub name : Bytes
  pub min_threads : ℕ
  pub max_threads : ℕ
  pub iterations : Option ℕ

-- A turn of the loop of `RegisterBenchmarks`.
unfoldable pub register_distribution :
    (explicit_iterations : Bool) → (max_threads : ℕ) → (distribution_name : Bytes) → List Family
register_distribution explicit_iterations max_threads distribution_name =
    let is_default = same_text distribution_name default_distribution in
    let alone = explicit_iterations && is_default in
    let min_threads = if alone then 2 else 1 in
    (if alone
      then record {
        name = bm ++ distribution_name;
        min_threads = 1;
        max_threads = 1;
        iterations = some 10000000;
      }
        ∷ []
      else [])
    ++ (if not is_default || leb min_threads max_threads
        then record {
          name = bm ++ distribution_name;
          min_threads = min_threads;
          max_threads = max_threads;
          iterations = none;
        }
          ∷ []
        else [])

unfoldable pub register_benchmarks :
    (explicit_iterations : Bool) → (max_threads : ℕ) → (files : List Bytes) → Run (List Family)
unfolding erase_csv register_distribution
register_benchmarks explicit_iterations max_threads [] = done []
register_benchmarks explicit_iterations max_threads (file ∷ files) = erase_csv file >>= λ name.
    register_benchmarks explicit_iterations max_threads files >>= λ rest.
    done (register_distribution explicit_iterations max_threads name ++ rest)

-- `sizes[name]`, which is 0 where there is none.
abbrev size_of : List (Bytes × ℕ) → Bytes → ℕ
size_of [] name = 0
size_of ((n, size) ∷ sizes) name = if same_text n name then size else size_of sizes name

-- The distribution's name, from the benchmark's.
unfoldable pub distribution_of : Bytes → Run Bytes
distribution_of name = if not (contains name (bm ++ tcmalloc)) then fatal else done (drop 12 name)

module _ (e : World) (x : Extension e) where
  -- The loop that makes the threads `i` and up; each seed is the next that the global generator
  -- gives, and each thread finds the heap as the one before has left it.
  unfoldable pub make_sim_threads :
      (left i nthreads bytes transient : ℕ)
      → List (Entry e.weights.Weight)
      → (seed : ℕ → ℕ) → e.Heap
      → Run (List (SimThread e x))
  unfolding make_sim_thread
  make_sim_threads zero i nthreads bytes transient profile seed heap = done []
  make_sim_threads (suc left) i nthreads bytes transient profile seed heap =
      make_sim_thread e x i nthreads bytes transient profile (seed i) heap >>= λ t.
      make_sim_threads left (suc i) nthreads bytes transient profile seed t.load.heap >>= λ rest.
      done (t ∷ rest)

  -- `BM_TCMalloc_Empirical_Driver_Setup`, with the profile and the heap sizes that its files hold, and
  -- the numbers that the global generator gives after its reset.
  unfoldable pub driver_setup :
      (name : Bytes)
      → (nthreads : ℕ) → (profile_of : Bytes → List (Entry e.weights.Weight))
      → (heap_sizes : List (Bytes × ℕ)) → (seed : ℕ → ℕ) → e.Heap
      → Run (List (SimThread e x))
  unfolding distribution_of make_sim_threads
  driver_setup name nthreads profile_of heap_sizes seed heap =
      distribution_of name >>= λ distribution.
      let base_heap_size = size_of heap_sizes distribution * 2 ^ 20 in
      let transient = x.ten_thousandth base_heap_size / nthreads in
      make_sim_threads nthreads 0 nthreads (base_heap_size / nthreads)
        (if ltb transient 1 then 1 else transient) (profile_of (tcmalloc ++ distribution)) seed heap
