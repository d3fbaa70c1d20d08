-- ===== src/Tests/Sampling.antt =====
-- The sampler and the simulator on a small profile.
use fleetbench.Prelude.{
  false, length, get_or, ℕ, zero, suc, ◌+◌, ◌-◌, leb, ◌*◌, ◌^◌, ◌≡◌, ◌≤◌, ◌<◌, ◌⊎◌, refl, List, [],
  ◌∷◌, done, ltb, pos, negsuc, ◌==◌, if◌then◌else◌, arith,
}
use fleetbench.Tcmalloc.Sampler.{
  Weights, Sampler, next_power_of_two, from_weights, set_weight, weight, sample_weight,
}
use fleetbench.Tcmalloc.Sampler.Sums.{
  IsSum, IsSummed, next_power_of_two-least, set_weight-IsSummed, from_weights-IsSummed,
}
use fleetbench.Tcmalloc.Simulator.{
  size_at, World, SizeState, Empirical, live_count, snapshot_count, record_birth, record_death,
  record_repair_to_snapshot_state,
}
use fleetbench.Tcmalloc.Simulator.Trace.{InStep, record_birth-InStep, record_death-InStep}
use fleetbench.Tcmalloc.Simulator.Repair.{record_repair_to_snapshot_state-levels}

-- Weights that are natural numbers, in some unit.
abbrev pub exact : Weights
exact = record {
  Weight = ℕ;
  zero_weight = 0;
  plus = λ a b. a + b;
  minus = λ a b. a - b;
  at_most = leb;
}

abbrev two_sizes : Sampler exact
two_sizes = record { n = 2; tree = 8 ∷ 3 ∷ 5 ∷ [] }

two_sizes-sums : (j : ℕ) → j < 1 → IsSum exact (8 ∷ 3 ∷ 5 ∷ []) j
two_sizes-sums zero h = refl
two_sizes-sums (suc j) h = absurd (omega arith)

two_sizes-IsSummed : IsSummed exact two_sizes
two_sizes-IsSummed = record { leaves = omega arith; size = refl; sums = two_sizes-sums }

next_power_of_two-least_example :
    (n : ℕ) × (next_power_of_two 5 ≡ done n)
    × ((k : ℕ) × (n ≡ 2 ^ k))
    × (5 ≤ n)
    × ((n ≡ 1) ⊎ (n < 10))
next_power_of_two-least_example = next_power_of_two-least 5 (omega arith)

set_weight-IsSummed_example :
    IsSummed exact (set_weight exact two_sizes 1 4)
    × ((j : ℕ)
        → weight exact (set_weight exact two_sizes 1 4) j
          ≡ (if 1 == j then 4 else weight exact two_sizes j))
set_weight-IsSummed_example =
    set_weight-IsSummed exact two_sizes 1 4 two_sizes-IsSummed (omega arith)

from_weights-IsSummed_example :
    (s : Sampler exact) × (from_weights exact (2 ∷ 0 ∷ 7 ∷ []) ≡ done s)
    × IsSummed exact s
    × (3 ≤ s.n)
    × ((i : ℕ) → weight exact s i ≡ get_or (2 ∷ 0 ∷ 7 ∷ []) i 0)
from_weights-IsSummed_example =
    from_weights-IsSummed exact (2 ∷ 0 ∷ 7 ∷ []) (omega arith) (omega arith)

-- A draw of 0 goes to the first leaf, also where that one weighs nothing.
zero_draw : sample_weight exact (record { n = 2; tree = 5 ∷ 0 ∷ 5 ∷ [] }) 0 ≡ done 0
unfolding sample_weight
zero_draw = refl

-- A generator that counts, and an allocator that hands out increasing addresses.
abbrev pub counting : World
counting = record {
  weights = exact;
  times = λ a b. a * b;
  over = λ a b. a;
  one = 1;
  minus_of = λ a. 0;
  of_size = λ n. n;
  below = ltb;
  Rng = ℕ;
  uniform_int = λ bound rng. (elim bound [ pos n ↦ n | negsuc n ↦ 0 ], suc rng);
  uniform_real = λ bound rng. (bound, suc rng);
  discrete = λ rates rng. (0, suc rng);
  Heap = ℕ;
  alloc = λ size heap. (suc heap, suc heap);
  dealloc = λ pointer size heap. heap;
}

abbrev pub class_of : (size : ℕ) → List ℕ → SizeState ℕ
class_of size objs = record {
  size = size;
  death_rate = 1;
  objs = objs;
  objs_indices_after_recording = [];
  obj_update = [];
  birth_update = [];
  death_update = [];
}

-- One size class has gained two objects since the snapshot, the other has lost one.
abbrev pub drifted : Empirical counting
drifted = record {
  rng = 0;
  heap = 9;
  total_num_allocated = 4;
  total_bytes_allocated = 80;
  state = class_of 16 (1 ∷ 2 ∷ 0 ∷ []) ∷ class_of 32 (3 ∷ []) ∷ [];
  birth_rates = 1 ∷ 1 ∷ [];
  total_birth_rate = 2;
  death_sampler = two_sizes;
  snapshot_state = class_of 16 (1 ∷ []) ∷ class_of 32 (3 ∷ 4 ∷ []) ∷ [];
  birth_or_death = [];
  birth_or_death_sizes = [];
  birth_or_death_actual_sizes = [];
  death_objects = [];
  birth_objects = [];
  death_object_index = 0;
  birth_object_index = 0;
  num_allocated_recorded = 0;
  bytes_allocated_recorded = 0;
  birth_pointers = [];
  death_obj_indices = [];
}

record_repair_to_snapshot_state-levels_example :
    (d : Empirical counting) × (record_repair_to_snapshot_state counting drifted ≡ done d)
    × ((i : ℕ) → i < 2 → live_count counting d i ≡ snapshot_count counting drifted i)
record_repair_to_snapshot_state-levels_example =
    record_repair_to_snapshot_state-levels counting drifted

-- One size class with one object, and nothing recorded.
abbrev warmed_up : Empirical counting
warmed_up = record drifted {
  state =
      record (class_of 16 (7 ∷ [])) {
        objs_indices_after_recording = record { born = false; index = 0 } ∷ [];
      }
      ∷ [];
}

warmed_up-Matched :
    (i : ℕ)
    → length (size_at counting warmed_up.state i).objs_indices_after_recording
      ≡ length (size_at counting warmed_up.state i).objs
warmed_up-Matched zero = refl
warmed_up-Matched (suc i) = refl

warmed_up-InStep : InStep counting warmed_up
warmed_up-InStep = record {
  classes = refl;
  sizes = refl;
  born = refl;
  died = refl;
  objects = warmed_up-Matched;
}

record_birth-InStep_example : InStep counting (record_birth counting warmed_up 0)
record_birth-InStep_example = record_birth-InStep counting warmed_up 0 warmed_up-InStep

record_death-InStep_example :
    (d : Empirical counting) × (record_death counting warmed_up 0 ≡ done d) × InStep counting d
record_death-InStep_example =
    record_death-InStep counting warmed_up 0 warmed_up-InStep (omega arith)
