-- ===== src/Tests/Sets.antt =====
-- The layout of the keys of three sets, and their numbers.
use fleetbench.Prelude.{ℕ, ◌+◌, ◌*◌, ◌≡◌, refl, List, [], ◌∷◌, length, get_or, arith}
use fleetbench.Swissmap.{transpose, get_num_sets_of_size}
use fleetbench.Swissmap.Layout.{count_at_least, transpose-element, get_num_sets_of_size-count}

abbrev three_rows : List (List ℕ)
three_rows = (11 ∷ 12 ∷ 13 ∷ []) ∷ (21 ∷ 22 ∷ []) ∷ (31 ∷ []) ∷ []

transpose-element_example :
    (length (transpose 7 three_rows) ≡ 9)
    × (get_or (transpose 7 three_rows) (1 * 3 + 2) 7 ≡ get_or (get_or three_rows 2 []) 1 7)
transpose-element_example = transpose-element 7 three_rows 2 1 refl (omega arith) (omega arith)

get_num_sets_of_size-count_example :
    get_or (get_num_sets_of_size (3 ∷ 2 ∷ 1 ∷ [])) 2 0 ≡ count_at_least 2 (3 ∷ 2 ∷ 1 ∷ [])
get_num_sets_of_size-count_example =
    get_num_sets_of_size-count (3 ∷ 2 ∷ 1 ∷ []) 2 refl (omega arith)
