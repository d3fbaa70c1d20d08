-- ===== src/Tcmalloc/Simulator.antt =====
-- fleetbench/tcmalloc/empirical.h and empirical.cc: the state of `EmpiricalData` and its recording
-- phase.
pub mod Repair
pub mod Trace
use fleetbench.Prelude.{
  ℕ, zero, suc, ◌+◌, ◌-◌, ◌*◌, ◌%◌, ◌^◌, ◌≡◌, ◌≤◌, Bool, true, false, List, [], ◌∷◌, ◌++◌, map, ltb,
  ◌==◌, if◌then◌else◌, Run, done, fatal, stuck, ◌>>=◌, length, get_or, set, take, add64, ℤ, pos,
  negsuc, narrow,
}
use fleetbench.Tcmalloc.Sampler.{
  Weights, Sampler, empty_sampler, adjust_weight, total_weight, sample_weight,
}

-- The rest of the arithmetic on `double`, the random number generator with its distributions, and the
-- allocator, which are the language's and the libraries'.
pub record World : Type 1 where
  pub weights : Weights
  pub times : weights.Weight → weights.Weight → weights.Weight
  pub over : weights.Weight → weights.Weight → weights.Weight
  pub one : weights.Weight
  pub minus_of : weights.Weight → weights.Weight
  pub of_size : ℕ → weights.Weight
  pub below : weights.Weight → weights.Weight → Bool
  pub Rng : Type 0
  -- `uniform_int_distribution<int>(0, bound)`.
  pub uniform_int : (bound : ℤ) → Rng → ℕ × Rng
  -- `uniform_real_distribution(0, bound)`.
  pub uniform_real : (bound : weights.Weight) → Rng → weights.Weight × Rng
  pub discrete : List weights.Weight → Rng → ℕ × Rng
  pub Heap : Type 0
  pub alloc : (size : ℕ) → Heap → ℕ × Heap
  pub dealloc : (pointer size : ℕ) → Heap → Heap

pub record ObjectIndex : Type 0 where
  pub born : Bool
  pub index : ℕ

pub record UpdatePair : Type 0 where
  pub from : ℕ
  pub to : ℕ

-- A `void**`: an entry of `death_objects_`, one of `birth_objects_`, or null.
pub data Slot : Type 0 where
  in_death in_birth : ℕ → Slot
  nowhere : Slot

pub record SizeState (W : Type 0) : Type 0 where
  pub size : ℕ
  pub death_rate : W
  pub objs : List ℕ
  pub objs_indices_after_recording : List ObjectIndex
  pub obj_update : List UpdatePair
  pub birth_update : List UpdatePair
  pub death_update : List UpdatePair

pub record Entry (W : Type 0) : Type 0 where
  pub size : ℕ
  pub alloc_rate : W
  pub num_live : W

abbrev pub modify {ℓ} : {A : Type ℓ} → List A → ℕ → (A → A) → List A
modify [] i f = []
modify (x ∷ xs) zero f = f x ∷ xs
modify (x ∷ xs) (suc i) f = x ∷ modify xs i f

-- `max(0, static_cast<int>(count) - 1)`.
abbrev last_index : (count : ℕ) → ℤ
last_index count = elim (narrow count) [ pos n ↦ pos (n - 1) | negsuc n ↦ pos 0 ]

-- `v[to] = v.back(); v.pop_back();`.
abbrev pub swap_out {ℓ} : {A : Type ℓ} → List A → ℕ → A → List A
swap_out xs to d = take (length xs - 1) (set xs to (get_or xs (length xs - 1) d))

module _ (e : World) where
  -- `EmpiricalData`, with the heap that its callbacks work on.
  pub record Empirical : Type 0 where
    pub rng : e.Rng
    pub heap : e.Heap
    pub total_num_allocated : ℕ
    pub total_bytes_allocated : ℕ
    pub state : List (SizeState e.weights.Weight)
    pub birth_rates : List e.weights.Weight
    pub total_birth_rate : e.weights.Weight
    pub death_sampler : Sampler e.weights
    pub snapshot_state : List (SizeState e.weights.Weight)
    pub birth_or_death : List Bool
    pub birth_or_death_sizes : List ℕ
    pub birth_or_death_actual_sizes : List ℕ
    pub death_objects : List ℕ
    pub birth_objects : List ℕ
    pub death_object_index : ℕ
    pub birth_object_index : ℕ
    pub num_allocated_recorded : ℕ
    pub bytes_allocated_recorded : ℕ
    pub birth_pointers : List Slot
    pub death_obj_indices : List ObjectIndex

  abbrev pub no_size : SizeState e.weights.Weight
  no_size = record {
    size = 0;
    death_rate = e.weights.zero_weight;
    objs = [];
    objs_indices_after_recording = [];
    obj_update = [];
    birth_update = [];
    death_update = [];
  }

  abbrev pub no_index : ObjectIndex
  no_index = record { born = false; index = 0 }

  abbrev pub size_at : List (SizeState e.weights.Weight) → ℕ → SizeState e.weights.Weight
  size_at state i = get_or state i no_size

  unfoldable pub do_birth : Empirical → ℕ → Empirical
  unfolding adjust_weight
  do_birth d i =
      let s = size_at d.state i in
      let (p, heap) = e.alloc s.size d.heap in
      record d {
        heap = heap;
        total_num_allocated = add64 d.total_num_allocated 1;
        total_bytes_allocated = add64 d.total_bytes_allocated s.size;
        state = modify d.state i (λ s. record s { objs = s.objs ++ p ∷ [] });
        death_sampler = adjust_weight e.weights d.death_sampler i s.death_rate;
      }

  unfoldable pub do_death : Empirical → ℕ → Run (Empirical)
  unfolding adjust_weight
  do_death d i =
      let s = size_at d.state i in
      let (obj, rng) = e.uniform_int (narrow (length s.objs - 1)) d.rng in
      if length s.objs == 0
      then fatal
      else done (record d {
        rng = rng;
        heap = e.dealloc (get_or s.objs obj 0) s.size d.heap;
        state = modify d.state i (λ s. record s { objs = swap_out s.objs obj 0 });
        death_sampler = adjust_weight e.weights d.death_sampler i (e.minus_of s.death_rate);
      })

  -- The size class is stored in 16 bits; a null pointer stands for the new object.
  unfoldable pub record_birth : Empirical → ℕ → Empirical
  unfolding adjust_weight
  record_birth d i =
      let s = size_at d.state i in
      let born : ObjectIndex = record { born = true; index = d.birth_object_index } in
      record d {
        birth_or_death = d.birth_or_death ++ true ∷ [];
        birth_or_death_sizes = d.birth_or_death_sizes ++ i % 2 ^ 16 ∷ [];
        birth_or_death_actual_sizes = d.birth_or_death_actual_sizes ++ s.size ∷ [];
        death_sampler = adjust_weight e.weights d.death_sampler i s.death_rate;
        num_allocated_recorded = add64 d.num_allocated_recorded 1;
        bytes_allocated_recorded = add64 d.bytes_allocated_recorded s.size;
        state = modify d.state i (λ s. record s {
          objs = s.objs ++ 0 ∷ [];
          objs_indices_after_recording = s.objs_indices_after_recording ++ born ∷ [];
        });
        birth_object_index = (d.birth_object_index + 1) % 2 ^ 32;
      }

  unfoldable pub record_death : Empirical → ℕ → Run (Empirical)
  unfolding adjust_weight
  record_death d i =
      let s = size_at d.state i in
      let (to_free, rng) = e.uniform_int (last_index (length s.objs)) d.rng in
      if length s.objs == 0
      then fatal
      else done (record d {
        rng = rng;
        birth_or_death = d.birth_or_death ++ false ∷ [];
        birth_or_death_sizes = d.birth_or_death_sizes ++ i % 2 ^ 16 ∷ [];
        birth_or_death_actual_sizes = d.birth_or_death_actual_sizes ++ s.size ∷ [];
        death_sampler = adjust_weight e.weights d.death_sampler i (e.minus_of s.death_rate);
        death_obj_indices =
            d.death_obj_indices ++ get_or s.objs_indices_after_recording to_free no_index ∷ [];
        state = modify d.state i (λ s. record s {
          objs = swap_out s.objs to_free 0;
          objs_indices_after_recording = swap_out s.objs_indices_after_recording to_free no_index;
        });
      })

  unfoldable pub record_next : Empirical → Run (Empirical)
  unfolding total_weight sample_weight record_birth record_death
  record_next d =
      let both = e.weights.plus d.total_birth_rate (total_weight e.weights d.death_sampler) in
      let (which, rng) = e.uniform_real both d.rng in
      let (birth, rng') = e.discrete d.birth_rates rng in
      let (x, rng'') = e.uniform_real (total_weight e.weights d.death_sampler) rng in
      let death =
        sample_weight e.weights d.death_sampler x >>= record_death (record d { rng = rng'' }) in
      if e.below which d.total_birth_rate
      then done (record_birth (record d { rng = rng' }) birth)
      else death

  unfoldable pub snapshot_live_objects : Empirical → Empirical
  snapshot_live_objects d =
      let copy = λ (s : SizeState e.weights.Weight). record s {
        obj_update = [];
        birth_update = [];
        death_update = [];
      } in
      record d { snapshot_state = d.snapshot_state ++ map copy d.state }

  -- The loop of `RestoreSnapshot`.
  unfoldable pub restore_objs :
      List (SizeState e.weights.Weight)
      → List (SizeState e.weights.Weight)
      → List (SizeState e.weights.Weight)
  restore_objs [] state = state
  restore_objs (t ∷ snapshot) [] = []
  restore_objs (t ∷ snapshot) (s ∷ state) = record s { objs = t.objs } ∷ restore_objs snapshot state

  unfoldable pub restore_snapshot : Empirical → Empirical
  unfolding restore_objs
  restore_snapshot d = record d { state = restore_objs d.snapshot_state d.state }

  -- The number of live objects of size class `i`, now and in the snapshot.
  abbrev pub live_count : Empirical → ℕ → ℕ
  live_count d i = length (size_at d.state i).objs

  abbrev pub snapshot_count : Empirical → ℕ → ℕ
  snapshot_count d i = length (size_at d.snapshot_state i).objs

  -- The two loops for one size class.
  unfoldable pub repair_births : (fuel : ℕ) → Empirical → ℕ → Run (Empirical)
  unfolding record_birth
  repair_births zero d i = if ltb (live_count d i) (snapshot_count d i) then stuck else done d
  repair_births (suc fuel) d i =
      let rest = repair_births fuel (record_birth d i) i in
      if ltb (live_count d i) (snapshot_count d i) then rest else done d

  unfoldable pub repair_deaths : (fuel : ℕ) → Empirical → ℕ → Run (Empirical)
  unfolding record_death
  repair_deaths zero d i = if ltb (snapshot_count d i) (live_count d i) then stuck else done d
  repair_deaths (suc fuel) d i =
      let rest = record_death d i >>= λ d'. repair_deaths fuel d' i in
      if ltb (snapshot_count d i) (live_count d i) then rest else done d

  unfoldable pub repair_size : Empirical → ℕ → Run (Empirical)
  unfolding repair_births repair_deaths
  repair_size d i =
      repair_births (snapshot_count d i) d i >>= λ d'. repair_deaths (live_count d' i) d' i

  -- `i` is the size class that the loop has come to, `count` the number that are left.
  unfoldable pub repair_from : (count i : ℕ) → Empirical → Run (Empirical)
  unfolding repair_size
  repair_from zero i d = done d
  repair_from (suc count) i d = repair_size d i >>= repair_from count (suc i)

  unfoldable pub record_repair_to_snapshot_state : Empirical → Run (Empirical)
  unfolding repair_from
  record_repair_to_snapshot_state d = repair_from (length d.state) 0 d
