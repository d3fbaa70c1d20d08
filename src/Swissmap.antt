-- ===== src/Swissmap.antt =====
-- fleetbench/swissmap/swissmap_benchmark.h: how the keys of many sets are laid out for the loops that
-- are timed, and how many sets have some size. A set is known by its size.
pub mod Layout
use fleetbench.Prelude.{
  ℕ, zero, suc, ◌+◌, ◌*◌, ◌≡◌, refl, Bool, true, false, ◌&&◌, List, [], ◌∷◌, leb, if◌then◌else◌,
  length, set, replicate,
}

module _ {ℓ} {A : Type ℓ} where
  -- The inner loop of `Transpose`, from element `j` on; `n` is `input.size()`.
  unfoldable pub store_row : (n i j : ℕ) → List A → List A → List A
  store_row n i j [] v = v
  store_row n i j (x ∷ row) v = store_row n i (suc j) row (set v (j * n + i) x)

  -- The outer loop, from row `i` on.
  unfoldable pub store_rows : (n i : ℕ) → List (List A) → List A → List A
  unfolding store_row
  store_rows n i [] v = v
  store_rows n i (row ∷ rows) v = store_rows n (suc i) rows (store_row n i 0 row v)

  -- `input.front()`, of an input that is not empty.
  abbrev pub front_row : List (List A) → List A
  front_row [] = []
  front_row (row ∷ rows) = row

  -- `default_value` is a `T` that is default constructed.
  unfoldable pub transpose : (default_value : A) → List (List A) → List A
  unfolding store_rows
  transpose default_value input =
      store_rows (length input) 0 input
        (replicate (length input * length (front_row input)) default_value)

-- The inner loop of `GetNumSetsOfSize`, over the sets that are left.
unfoldable pub sets_of_size : (i : ℕ) → (sizes : List ℕ) → (j : ℕ) → ℕ
sets_of_size i [] j = j
sets_of_size i (size ∷ sizes) j =
    let more = sets_of_size i sizes (suc j) in if leb i size then more else j

-- The outer loop, for `left` sizes from `i` on.
unfoldable pub fill_num_sets : (left i : ℕ) → (sizes : List ℕ) → List ℕ
unfolding sets_of_size
fill_num_sets zero i sizes = []
fill_num_sets (suc left) i sizes = sets_of_size i sizes 0 ∷ fill_num_sets left (suc i) sizes

-- `GetLargestSetSize`: the size of the first set, the largest one.
abbrev pub get_largest_set_size : List ℕ → ℕ
get_largest_set_size [] = 0
get_largest_set_size (size ∷ sizes) = size

unfoldable pub get_num_sets_of_size : (sizes : List ℕ) → List ℕ
unfolding fill_num_sets
get_num_sets_of_size sizes = fill_num_sets (suc (get_largest_set_size sizes)) 0 sizes
