-- ===== src/Tcmalloc/Driver.antt =====
-- fleetbench/tcmalloc/empirical_driver.cc: the benchmark that records a trace of allocations in each
-- thread, replays it and counts what it has allocated, and how it is set up and registered.
pub mod Measured
use fleetbench.Prelude.{
  ℕ, zero, suc, ◌*◌, ◌/◌, ◌^◌, Bool, true, false, not, ◌&&◌, ◌||◌, Option, none, some, List, [],
  ◌∷◌, ◌++◌, ltb, leb, ◌==◌, if◌then◌else◌, Run, done, fatal, ◌>>=◌, length, drop, Bytes, same_text,
  starts_with, add64, sub64,
}
use fleetbench.Tcmalloc.Simulator.{
  World, Entry, Empirical, record_next, record_repair_to_snapshot_state, restore_snapshot,
}
use fleetbench.Tcmalloc.Replay.{
  construct_simulator, destruct_simulator, build_update_vectors, replay_trace, prepare_next_replay,
}

-- What the driver calls on the timer of its `benchmark::State`.
pub data TimerCall : Type 0 where
  pause_timing resume_timing : TimerCall

-- The properties of the allocator that `GetProp` is asked for.
pub data Property : Type 0 where
  current_allocated_bytes local_bytes pageheap_free_bytes pageheap_unmapped_bytes : Property
  external_fragmentation_bytes : Property

abbrev pub simulated_bytes_per_sec : ℕ
simulated_bytes_per_sec = 0

abbrev pub record_and_replay_buffer_size_target : ℕ
record_and_replay_buffer_size_target = 1000000

abbrev pub num_warm_up_replays : ℕ
num_warm_up_replays = 50

-- The counters of a run, each a `double`.
pub record Counters (Double : Type 0) : Type 0 where
  pub rate_bytes : Double
  pub rate_allocations : Double
  pub bytes_per_allocation : Double
  pub allocated_bytes : Double
  pub waste_total : Double
  pub waste_local : Double
  pub waste_central : Double
  pub waste_pageheap : Double
  pub space_released : Double

-- The parts of the allocator's extension, of the generator and of `double` that only the driver uses.
pub record Extension (e : World) : Type 1 where
  -- `ReleaseMemoryToSystem(kEmpiricalMallocReleaseBytesPerSec)`.
  pub release : e.Heap → e.Heap
  pub numeric_property : Property → e.Heap → Option ℕ
  pub seeded : ℕ → e.Rng
  -- `x * 0.0001` on `double`, as a `uint64_t`.
  pub ten_thousandth : ℕ → ℕ
  pub Double : Type 0
  -- A `size_t` as a `double`, rounded where it has more than 53 bits.
  pub to_double : ℕ → Double

module _ (e : World) (x : Extension e) where
  -- `SimThread`; its load carries the heap as the thread sees it.
  pub record SimThread : Type 0 where
    pub n : ℕ
    pub transient : ℕ
    pub profile : List (Entry e.weights.Weight)
    pub load_bytes_allocated : ℕ
    pub load_allocations : ℕ
    pub run_release_each_bytes : ℕ
    pub next_release_boundary : ℕ
    pub load : Empirical e
    pub done_recording : Bool

  -- The constructor, with the seed that `GetRNG()()` gives.
  unfoldable pub make_sim_thread :
      (n nthreads bytes transient : ℕ)
      → List (Entry e.weights.Weight)
      → (seed : ℕ) → e.Heap
      → Run (SimThread)
  unfolding construct_simulator
  make_sim_thread n nthreads bytes transient profile seed heap =
      construct_simulator e (x.seeded seed) heap profile bytes >>= λ load. done (record {
        n = n;
        transient = transient;
        profile = profile;
        load_bytes_allocated = 0;
        load_allocations = 0;
        run_release_each_bytes =
            (if n == 0 then sub64 (add64 simulated_bytes_per_sec nthreads) 1 / nthreads else 0);
        next_release_boundary = 0;
        load = load;
        done_recording = false;
      })

  unfoldable pub record_many : (count : ℕ) → Empirical e → Run (Empirical e)
  unfolding record_next
  record_many zero d = done d
  record_many (suc count) d = record_next e d >>= record_many count

  unfoldable pub record_births_and_deaths : Empirical e → Run (Empirical e)
  unfolding record_many record_repair_to_snapshot_state restore_snapshot build_update_vectors
  record_births_and_deaths d = record_many record_and_replay_buffer_size_target d >>= λ d'.
      record_repair_to_snapshot_state e d' >>= λ d''.
      done (build_update_vectors e (restore_snapshot e d''))

  unfoldable pub record_trace_if_needed : SimThread → Run (SimThread)
  unfolding construct_simulator destruct_simulator record_births_and_deaths
  record_trace_if_needed t =
      if t.done_recording
      then done t
      else if t.transient == 0
      then fatal
      else (construct_simulator e (x.seeded t.n) t.load.heap t.profile t.transient >>= λ transient.
          record_births_and_deaths
            (record t.load { heap = destruct_simulator e transient.state transient.heap })
          >>= λ load. done (record t { load = load; done_recording = true }))

  -- The end of a replay: the totals, and the memory that is given back.
  unfoldable pub publish_totals : SimThread → SimThread
  publish_totals t =
      let allocated = t.load.total_bytes_allocated in
      let published = record t {
        load_bytes_allocated = allocated;
        load_allocations = t.load.total_num_allocated;
      } in
      if not (t.run_release_each_bytes == 0) && leb t.next_release_boundary allocated
      then record published {
        next_release_boundary = add64 t.next_release_boundary t.run_release_each_bytes;
        load = record t.load { heap = x.release t.load.heap };
      }
      else published

  -- `SimThread::ReplayTrace`; its DCHECK is one of debug builds only.
  unfoldable pub replay :
      (warmup : Bool) → List TimerCall × SimThread → Run (List TimerCall × SimThread)
  unfolding replay_trace publish_totals prepare_next_replay
  replay warmup (timer, t) = replay_trace e t.load >>= λ load.
      let t' = publish_totals (record t { load = load }) in
      done (
        timer ++ (if warmup then [] else pause_timing ∷ resume_timing ∷ []),
        record t' { load = prepare_next_replay e t'.load },
      )

  unfoldable pub replay_many :
      (warmup : Bool) → (count : ℕ) → List TimerCall × SimThread → Run (List TimerCall × SimThread)
  unfolding replay
  replay_many warmup zero t = done t
  replay_many warmup (suc count) t = replay warmup t >>= replay_many warmup count

  -- Without sanitizers, a property that is not there stops the process.
  unfoldable pub get_prop : Property → e.Heap → Run ℕ
  get_prop p heap = elim (x.numeric_property p heap) [ none ↦ fatal | some v ↦ done v ]

  -- A division by 0 stops the process.
  abbrev pub divide : (a b : ℕ) → Run ℕ
  divide a b = if b == 0 then fatal else done (a / b)

  unfoldable pub count_run : (bytes allocations : ℕ) → e.Heap → Run (Counters x.Double)
  unfolding get_prop
  count_run bytes allocations heap = divide bytes allocations >>= λ bytes_per_allocation.
      get_prop current_allocated_bytes heap >>= λ in_use. get_prop local_bytes heap >>= λ local.
      get_prop pageheap_free_bytes heap >>= λ pageheap.
      get_prop pageheap_unmapped_bytes heap >>= λ released.
      get_prop external_fragmentation_bytes heap >>= λ waste. done (record {
        rate_bytes = x.to_double bytes;
        rate_allocations = x.to_double allocations;
        bytes_per_allocation = x.to_double bytes_per_allocation;
        allocated_bytes = x.to_double in_use;
        waste_total = x.to_double waste;
        waste_local = x.to_double local;
        waste_central = x.to_double (sub64 (sub64 waste local) pageheap);
        waste_pageheap = x.to_double pageheap;
        space_released = x.to_double released;
      })

  -- The replays and the counters; `KeepRunningBatch` is true `batches` times.
  unfoldable pub measure_replays :
      (batches : ℕ) → SimThread → Run (Counters x.Double × List TimerCall × SimThread)
  unfolding replay_many count_run
  measure_replays batches t = replay_many true num_warm_up_replays ([], t) >>= λ (timer, warm).
      replay_many false batches (timer, warm) >>= λ (timer', t').
      count_run (sub64 t'.load_bytes_allocated warm.load_bytes_allocated)
        (sub64 t'.load_allocations warm.load_allocations) t'.load.heap
      >>= λ counters. done (counters, timer', t')

  -- `BM_TCMalloc_Empirical_Driver` in one thread.
  unfoldable pub empirical_driver :
      (batches : ℕ) → SimThread → Run (Counters x.Double × List TimerCall × SimThread)
  unfolding record_trace_if_needed measure_replays
  empirical_driver batches t = record_trace_if_needed t >>= measure_replays batches
