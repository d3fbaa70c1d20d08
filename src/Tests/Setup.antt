-- ===== src/Tests/Setup.antt =====
-- The registrar, the choice of the filter and the compression levels on small inputs.
use fleetbench.Prelude.{ℕ, ◌-◌, ◌≡◌, refl, [], ◌∷◌, Option, none, some, Bytes, ℤ, pos, done, ◌>>=◌}
use fleetbench.Registrar.{single_threaded, multi_threaded, both, empty_registrar}
use fleetbench.Registrar.Filters.{Adds, add_all}
use fleetbench.Main.{default_word, single_word, multi_word, prepare_run}
use fleetbench.Main.Filter.{prepare_run-disjunction}
use fleetbench.Compression.{find_levels, get_compression_levels_map}

-- The filters "AB" for both modes, "C" for many threads, and "D" for one.
abbrev three_adds : Adds
three_adds = (65 ∷ 66 ∷ [], both) ∷ (67 ∷ [], multi_threaded) ∷ (68 ∷ [], single_threaded) ∷ []

prepare_run-disjunction_example :
    let registrar = add_all (empty_registrar {S = ℕ}) three_adds in
    ((prepare_run registrar multi_word 0).0 ≡ 65 ∷ 66 ∷ 124 ∷ 67 ∷ [])
    × ((prepare_run registrar [] 0).0 ≡ 65 ∷ 66 ∷ 124 ∷ 68 ∷ [])
    × ((prepare_run registrar default_word 0).0 ≡ 65 ∷ 66 ∷ 124 ∷ 68 ∷ [])
    × ((prepare_run registrar single_word 0).0 ≡ 65 ∷ 66 ∷ 124 ∷ 68 ∷ [])
prepare_run-disjunction_example = prepare_run-disjunction ℕ three_adds 0 refl

abbrev digit : Bytes → Option ℤ
digit [] = none
digit (c ∷ rest) = some (pos (c - 48))

-- The second line for a pair replaces the first.
last_levels :
    get_compression_levels_map digit
        (((1 ∷ []) ∷ (2 ∷ []) ∷ (51 ∷ []) ∷ []) ∷ ((1 ∷ []) ∷ (2 ∷ []) ∷ (57 ∷ []) ∷ []) ∷ [])
      >>= (λ map. done (find_levels map (1 ∷ []) (2 ∷ [])))
    ≡ done (some (pos 9 ∷ []))
unfolding get_compression_levels_map find_levels
last_levels = refl
