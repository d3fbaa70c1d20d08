-- ===== src/Tcmalloc/Replay.antt =====
-- fleetbench/tcmalloc/empirical.cc: how the simulator is set up and torn down, and how a recorded trace
-- is replayed.
pub mod Advance
pub mod Pass
pub mod Rounds
pub mod Order
use fleetbench.Prelude.{
  ℕ, zero, suc, ◌+◌, ◌-◌, ◌%◌, ◌^◌, Bool, true, false, not, List, [], ◌∷◌, ◌++◌, map, ltb, ◌==◌,
  if◌then◌else◌, Run, done, fatal, stuck, ◌>>=◌, length, get_or, set, take, replicate, add64,
}
use fleetbench.Tcmalloc.Sampler.{empty_sampler}
use fleetbench.Tcmalloc.Simulator.{
  World, ObjectIndex, UpdatePair, Slot, in_death, in_birth, nowhere, SizeState, Entry, modify,
  Empirical, no_size, no_index, size_at, do_birth, snapshot_live_objects,
}

-- `resize`, with what a new element holds.
abbrev resize {ℓ} : {A : Type ℓ} → List A → ℕ → A → List A
resize xs n d = take n xs ++ replicate (n - length xs) d

-- `for (update : v) to[update.to] = from[update.from];`.
abbrev pub copy_all : List UpdatePair → (from to : List ℕ) → List ℕ
copy_all [] from to = to
copy_all (u ∷ us) from to = copy_all us from (set to u.to (get_or from u.from 0))

-- The same within one vector.
abbrev pub move_all : List UpdatePair → List ℕ → List ℕ
move_all [] xs = xs
move_all (u ∷ us) xs = move_all us (set xs u.to (get_or xs u.from 0))

module _ (e : World) where
  abbrev W : Type 0
  W = e.weights.Weight

  -- `*birth_pointers_[birth_object_index_] = p`. A null pointer, undefined behaviour, is `fatal`.
  unfoldable pub replay_birth : Empirical e → (size : ℕ) → Run (Empirical e)
  replay_birth d size =
      let (p, heap) = e.alloc size d.heap in
      elim (get_or d.birth_pointers d.birth_object_index nowhere) [
        | in_death i ↦ done (record d { heap = heap; death_objects = set d.death_objects i p })
        | in_birth i ↦ done (record d { heap = heap; birth_objects = set d.birth_objects i p })
        | nowhere ↦ fatal
      ]

  -- An index out of range, undefined behaviour, is `fatal`.
  unfoldable pub replay_death : Empirical e → (size : ℕ) → Run (Empirical e)
  replay_death d size =
      if ltb d.death_object_index (length d.death_objects)
      then done (record d {
        heap = e.dealloc (get_or d.death_objects d.death_object_index 0) size d.heap;
      })
      else fatal

  -- One turn of the loop of `ReplayTrace`.
  unfoldable pub replay_step : Empirical e → (size : ℕ) → (birth : Bool) → Run (Empirical e)
  unfolding replay_birth replay_death
  replay_step d size true = replay_birth d size >>= λ d'.
      done (record d' { birth_object_index = (d'.birth_object_index + 1) % 2 ^ 32 })
  replay_step d size false = replay_death d size >>= λ d'.
      done (record d' { death_object_index = (d'.death_object_index + 1) % 2 ^ 32 })

  -- The place in the trace; the sum of the indices is 32 bits wide.
  abbrev pub place : Empirical e → ℕ
  place d = (d.birth_object_index + d.death_object_index) % 2 ^ 32

  unfoldable pub replay_loop : (fuel : ℕ) → Empirical e → Run (Empirical e)
  unfolding replay_step
  replay_loop zero d = if ltb (place d) (length d.birth_or_death) then stuck else done d
  replay_loop (suc fuel) d =
      let size = get_or d.birth_or_death_actual_sizes (place d) 0 in
      let rest =
        replay_step d size (get_or d.birth_or_death (place d) false) >>= replay_loop fuel in
      if ltb (place d) (length d.birth_or_death) then rest else done d

  unfoldable pub replay_trace : Empirical e → Run (Empirical e)
  unfolding replay_loop
  replay_trace d =
      replay_loop (length d.birth_or_death)
        (record d { birth_object_index = 0; death_object_index = 0 })
      >>= λ d'. done (record d' {
        total_num_allocated = add64 d'.total_num_allocated d'.num_allocated_recorded;
        total_bytes_allocated = add64 d'.total_bytes_allocated d'.bytes_allocated_recorded;
      })

  -- `PrepareNextReplay` for the size classes that are left.
  unfoldable pub prepare_sizes :
      List (SizeState W) → (birth_objects death_objects : List ℕ) → List (SizeState W) × List ℕ
  prepare_sizes [] births deaths = ([], deaths)
  prepare_sizes (s ∷ ss) births deaths =
      let objs = copy_all s.birth_update births (move_all s.obj_update s.objs) in
      let (rest, deaths') = prepare_sizes ss births (copy_all s.death_update objs deaths) in
      (record s { objs = objs } ∷ rest, deaths')

  unfoldable pub prepare_next_replay : Empirical e → Empirical e
  unfolding prepare_sizes
  prepare_next_replay d =
      let (state, deaths) = prepare_sizes d.state d.birth_objects d.death_objects in
      record d { state = state; death_objects = deaths }

  -- The first loop of `BuildUpdateVectors`, over the recorded operations with their size classes.
  unfoldable pub link_deaths :
      (ops : List Bool) (sizes : List ℕ) → (death_index : ℕ) → Empirical e → Empirical e
  link_deaths [] sizes death d = d
  link_deaths (true ∷ ops) [] death d = link_deaths ops [] death d
  link_deaths (true ∷ ops) (i ∷ sizes) death d = link_deaths ops sizes death d
  link_deaths (false ∷ ops) [] death d = d
  link_deaths (false ∷ ops) (i ∷ sizes) death d =
      let at = get_or d.death_obj_indices death (no_index e) in
      let pair : UpdatePair = record { from = at.index; to = death } in
      link_deaths ops sizes (suc death) (
        if not at.born
        then record d {
          state = modify d.state i (λ s. record s { death_update = s.death_update ++ pair ∷ [] });
          death_objects = set d.death_objects death (get_or (size_at e d.state i).objs at.index 0);
        }
        else record d { birth_pointers = set d.birth_pointers at.index (in_death death) })

  -- The second loop, for one size class from object `i` on.
  unfoldable pub link_objects :
      List ObjectIndex → (i : ℕ) → SizeState W → List Slot → SizeState W × List Slot
  link_objects [] i s slots = (s, slots)
  link_objects (at ∷ rest) i s slots =
      let moved : UpdatePair = record { from = at.index; to = i } in
      if not at.born
      then link_objects rest (suc i)
          (if at.index == i then s else record s { obj_update = s.obj_update ++ moved ∷ [] }) slots
      else link_objects rest (suc i) (record s { birth_update = s.birth_update ++ moved ∷ [] })
          (set slots at.index (in_birth at.index))

  unfoldable pub link_sizes : List (SizeState W) → List Slot → List (SizeState W) × List Slot
  unfolding link_objects
  link_sizes [] slots = ([], slots)
  link_sizes (s ∷ ss) slots =
      let (s', slots') = link_objects s.objs_indices_after_recording 0 s slots in
      let (ss', slots'') = link_sizes ss slots' in (s' ∷ ss', slots'')

  unfoldable pub build_update_vectors : Empirical e → Empirical e
  unfolding link_deaths link_sizes
  build_update_vectors d =
      let sized = record d {
        birth_pointers = resize d.birth_pointers d.birth_object_index nowhere;
        birth_objects = resize d.birth_objects d.birth_object_index 0;
        death_objects = resize d.death_objects (length d.death_obj_indices) 0;
      } in
      let linked = link_deaths d.birth_or_death d.birth_or_death_sizes 0 sized in
      let (state, slots) = link_sizes linked.state linked.birth_pointers in
      record linked { state = state; birth_pointers = slots }

  -- `total += w.num_live * w.size`, on top of `total`.
  abbrev total_of : List (Entry W) → W → W
  total_of [] total = total
  total_of (w ∷ ws) total =
      total_of ws (e.weights.plus total (e.times w.num_live (e.of_size w.size)))

  abbrev birth_rate_of : List (Entry W) → W → W
  birth_rate_of [] total = total
  birth_rate_of (w ∷ ws) total = birth_rate_of ws (e.weights.plus total w.alloc_rate)

  abbrev initial_size : (scale : W) → Entry W → SizeState W
  initial_size scale w = record (no_size e) {
    size = w.size;
    death_rate = e.over e.one (e.over (e.times w.num_live scale) w.alloc_rate);
  }

  -- `while (usage < total_mem)`.
  unfoldable pub warm_up :
      (fuel : ℕ) → (avg_counts : List W) → (total_mem usage : ℕ) → Empirical e → Run (Empirical e)
  unfolding do_birth
  warm_up zero counts total_mem usage d = if ltb usage total_mem then stuck else done d
  warm_up (suc fuel) counts total_mem usage d =
      let (i, rng) = e.discrete counts d.rng in
      let d' = do_birth e (record d { rng = rng }) i in
      let rest = warm_up fuel counts total_mem (add64 usage (size_at e d'.state i).size) d' in
      if ltb usage total_mem then rest else done d

  abbrev index_from : (i : ℕ) → List ℕ → List ObjectIndex
  index_from i [] = []
  index_from i (p ∷ ps) = record { born = false; index = i } ∷ index_from (suc i) ps

  abbrev index_objects : SizeState W → SizeState W
  index_objects s = record s {
    objs_indices_after_recording = s.objs_indices_after_recording ++ index_from 0 s.objs;
  }

  -- The constructor. Unless a size is 0, every turn of its loop allocates a byte at least.
  unfoldable pub construct_simulator :
      e.Rng → e.Heap → List (Entry W) → (total_mem : ℕ) → Run (Empirical e)
  unfolding empty_sampler warm_up snapshot_live_objects
  construct_simulator rng heap weights total_mem =
      let scale = e.over (e.of_size total_mem) (total_of weights e.weights.zero_weight) in
      empty_sampler e.weights (length weights) >>= λ sampler.
      warm_up total_mem (map (λ w. e.times w.num_live scale) weights) total_mem 0 (record {
        rng = rng;
        heap = heap;
        total_num_allocated = 0;
        total_bytes_allocated = 0;
        state = map (initial_size scale) weights;
        birth_rates = map (λ w. w.alloc_rate) weights;
        total_birth_rate = birth_rate_of weights e.weights.zero_weight;
        death_sampler = sampler;
        snapshot_state = [];
        birth_or_death = [];
        birth_or_death_sizes = [];
        birth_or_death_actual_sizes = [];
        death_objects = [];
        birth_objects = [];
        death_object_index = 0;
        birth_object_index = 0;
        num_allocated_recorded = 0;
        bytes_allocated_recorded = 0;
        birth_pointers = [];
        death_obj_indices = [];
      })
      >>= λ d.
          let d' = snapshot_live_objects e d in
          done (record d' { state = map index_objects d'.state })

  -- The destructor.
  unfoldable pub free_objects : List ℕ → (size : ℕ) → e.Heap → e.Heap
  free_objects [] size heap = heap
  free_objects (p ∷ ps) size heap = free_objects ps size (e.dealloc p size heap)

  unfoldable pub destruct_simulator : List (SizeState W) → e.Heap → e.Heap
  unfolding free_objects
  destruct_simulator [] heap = heap
  destruct_simulator (s ∷ ss) heap = destruct_simulator ss (free_objects s.objs s.size heap)
