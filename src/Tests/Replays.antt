-- ===== src/Tests/Replays.antt =====
-- A recorded trace and its replays, for two size classes.
use fleetbench.Prelude.{
  true, false, ℕ, zero, suc, ◌≡◌, refl, List, [], ◌∷◌, map, Run, done, fatal, stuck,
}
use fleetbench.Tcmalloc.Simulator.{ObjectIndex, SizeState, Empirical, record_next}
use fleetbench.Tcmalloc.Replay.{link_sizes}
use fleetbench.Tcmalloc.Replay.Rounds.{AllRecorded, prepare_all, prepare_all-advance}
use fleetbench.Tcmalloc.Replay.Order.{AllInOrder, record_next-AllInOrder}
use fleetbench.Tests.Sampling.{counting, class_of, drifted}

abbrev old : ℕ → ObjectIndex
old n = record { born = false; index = n }

abbrev new : ℕ → ObjectIndex
new n = record { born = true; index = n }

-- The first class has lost its first object, which the last has replaced, and got a new one.
abbrev recorded : List (SizeState ℕ)
recorded =
    record (class_of 16 (11 ∷ 12 ∷ 13 ∷ [])) {
      objs_indices_after_recording = old 2 ∷ old 1 ∷ new 1 ∷ [];
    }
    ∷ record (class_of 32 (21 ∷ [])) { objs_indices_after_recording = new 0 ∷ [] }
    ∷ []

recorded-AllRecorded : AllRecorded counting recorded
recorded-AllRecorded = (
  record { no_moves = refl; no_copies = refl; in_order = refl; repaired = refl },
  (record { no_moves = refl; no_copies = refl; in_order = refl; repaired = refl }, tt),
)

-- Two replays, with the objects that each has born.
prepare_all-advance_example :
    map
      (λ s. s.objs)
      (prepare_all counting
        ((31 ∷ 32 ∷ []) ∷ (41 ∷ 42 ∷ []) ∷ [])
        (link_sizes counting recorded []).0
        [])
    ≡ (32 ∷ 12 ∷ 42 ∷ []) ∷ (41 ∷ []) ∷ []
prepare_all-advance_example =
    prepare_all-advance counting ((31 ∷ 32 ∷ []) ∷ (41 ∷ 42 ∷ []) ∷ []) recorded [] []
      recorded-AllRecorded

abbrev in_recording : Empirical counting
in_recording = record drifted {
  state =
      record (class_of 16 (11 ∷ 12 ∷ 13 ∷ [])) {
        objs_indices_after_recording = old 2 ∷ old 1 ∷ new 0 ∷ [];
      }
      ∷ record (class_of 32 (21 ∷ 22 ∷ [])) { objs_indices_after_recording = old 0 ∷ old 1 ∷ [] }
      ∷ [];
}

in_recording-AllInOrder : AllInOrder counting in_recording
in_recording-AllInOrder zero = (refl, refl)
in_recording-AllInOrder (suc zero) = (refl, refl)
in_recording-AllInOrder (suc (suc i)) = (refl, refl)

abbrev outcome : Run (Empirical counting) → Empirical counting
outcome (done d) = d
outcome fatal = drifted
outcome stuck = drifted

next_recorded :
    record_next counting in_recording ≡ done (outcome (record_next counting in_recording))
unfolding record_next
next_recorded = refl

record_next-AllInOrder_example : AllInOrder counting (outcome (record_next counting in_recording))
record_next-AllInOrder_example =
    record_next-AllInOrder counting in_recording (outcome (record_next counting in_recording))
      in_recording-AllInOrder next_recorded
