-- ===== src/Tests/Drives.antt =====
-- The driver on a short trace, and the thread ranges of a distribution.
use fleetbench.Prelude.{
  false, true, ℕ, zero, suc, ◌≡◌, ◌≢◌, ◌<◌, ◌^◌, refl, [], ◌∷◌, some, Returns, get_or, arith,
}
use fleetbench.Tcmalloc.Simulator.{Empirical, in_death, nowhere}
use fleetbench.Tcmalloc.Replay.{replay_trace}
use fleetbench.Tcmalloc.Replay.Pass.{IsReplayable, IsReplayed, replay_trace-IsReplayed}
use fleetbench.Tcmalloc.Driver.{
  Property, external_fragmentation_bytes, current_allocated_bytes, local_bytes, pageheap_free_bytes,
  pageheap_unmapped_bytes, Extension, SimThread, empirical_driver,
}
use fleetbench.Tcmalloc.Driver.Measured.{IsMeasured, empirical_driver-IsMeasured}
use fleetbench.Tcmalloc.Registration.{default_distribution, register_distribution}
use fleetbench.Tcmalloc.Registration.Threads.{covering, register_distribution-covering}
use fleetbench.Tests.Sampling.{counting, drifted}

register_distribution-covering_example :
    covering 3 (register_distribution true 4 default_distribution) ≡ 1
register_distribution-covering_example =
    register_distribution-covering true 4 default_distribution 3 (omega arith)

-- An object is born and dies.
abbrev born_and_dead : Empirical counting
born_and_dead = record drifted {
  birth_or_death = true ∷ false ∷ [];
  birth_or_death_sizes = 0 ∷ 0 ∷ [];
  birth_or_death_actual_sizes = 24 ∷ 24 ∷ [];
  num_allocated_recorded = 1;
  bytes_allocated_recorded = 24;
  birth_pointers = in_death 0 ∷ [];
  death_objects = 0 ∷ [];
}

born_and_dead-linked : (i : ℕ) → i < 1 → get_or (in_death 0 ∷ []) i nowhere ≢ nowhere
born_and_dead-linked zero h = λ null. cc
born_and_dead-linked (suc i) h = absurd (omega arith)

born_and_dead-IsReplayable : IsReplayable counting born_and_dead
born_and_dead-IsReplayable = record {
  short = omega arith;
  sized = refl;
  linked = born_and_dead-linked;
  room = omega arith;
}

replay_trace-IsReplayed_example :
    Returns (IsReplayed counting born_and_dead) (replay_trace counting born_and_dead)
replay_trace-IsReplayed_example =
    replay_trace-IsReplayed counting born_and_dead born_and_dead-IsReplayable

-- An allocator whose waste is 21 bytes, and each of whose other properties is 7.
abbrev offer : Property → ℕ
offer external_fragmentation_bytes = 21
offer _ = 7

offer-small : (p : Property) → offer p < 2 ^ 64
offer-small external_fragmentation_bytes = omega arith
offer-small current_allocated_bytes = omega arith
offer-small local_bytes = omega arith
offer-small pageheap_free_bytes = omega arith
offer-small pageheap_unmapped_bytes = omega arith

abbrev sevens : Extension counting
sevens = record {
  release = λ h. h;
  numeric_property = λ p h. some (offer p);
  seeded = λ n. n;
  ten_thousandth = λ n. n;
  Double = ℕ;
  to_double = λ n. n;
}

abbrev recorded_thread : SimThread counting sevens
recorded_thread = record {
  n = 0;
  transient = 1;
  profile = [];
  load_bytes_allocated = 0;
  load_allocations = 0;
  run_release_each_bytes = 0;
  next_release_boundary = 0;
  load = born_and_dead;
  done_recording = true;
}

empirical_driver-IsMeasured_example :
    Returns
      (λ r. IsMeasured counting sevens 3 recorded_thread r.0)
      (empirical_driver counting sevens 3 recorded_thread)
empirical_driver-IsMeasured_example =
    empirical_driver-IsMeasured counting sevens (λ p h. (offer p, refl, offer-small p)) 3
      recorded_thread refl born_and_dead-IsReplayable (omega arith)
