-- ===== src/Compression.antt =====
-- fleetbench/compression/compression_parameter.cc: the compression levels of each algorithm and binary.
use fleetbench.Prelude.{
  ◌&&◌, Option, none, some, List, [], ◌∷◌, if◌then◌else◌, Run, done, fatal, ◌>>=◌, Bytes, same_text,
  ℤ,
}

-- `compression_levels_map`: the levels of a pair of keys, the last assignment first.
abbrev pub LevelsMap : Type 0
LevelsMap = List ((Bytes × Bytes) × List ℤ)

-- The value that the map holds for an algorithm and a binary.
unfoldable pub find_levels : LevelsMap → (algorithm binary : Bytes) → Option (List ℤ)
find_levels [] algorithm binary = none
find_levels (((a, b), levels) ∷ rest) algorithm binary =
    if same_text a algorithm && same_text b binary
    then some levels
    else find_levels rest algorithm binary

-- `SimpleAtoi` of each column, under its QCHECK; `to_int` is `SimpleAtoi`.
unfoldable pub read_levels : (to_int : Bytes → Option ℤ) → List Bytes → Run (List ℤ)
read_levels to_int [] = done []
read_levels to_int (column ∷ columns) =
    let rest = read_levels to_int columns in
    elim (to_int column) [ none ↦ fatal | some level ↦ rest >>= λ levels. done (level ∷ levels) ]

-- The loop over the lines, whose columns are given. With fewer than two, the size of the levels wraps
-- around and the vector throws.
unfoldable pub add_levels :
    (to_int : Bytes → Option ℤ) → LevelsMap → (lines : List (List Bytes)) → Run LevelsMap
unfolding read_levels
add_levels to_int map [] = done map
add_levels to_int map ((algorithm ∷ binary ∷ columns) ∷ lines) =
    read_levels to_int columns >>= λ levels.
    add_levels to_int (((algorithm, binary), levels) ∷ map) lines
add_levels to_int map (line ∷ lines) = fatal

unfoldable pub get_compression_levels_map :
    (to_int : Bytes → Option ℤ) → (lines : List (List Bytes)) → Run LevelsMap
unfolding add_levels
get_compression_levels_map to_int lines = add_levels to_int [] lines
