-- ===== src/Tests/Memory.antt =====
-- The libc benchmarks' buffers, sizes and offsets, with a small source of random numbers.
use mathlib.Core.List.Perm
use fleetbench.Prelude.{
  Perm, ℕ, suc, ◌+◌, ◌-◌, ◌*◌, ◌/◌, ◌^◌, ◌≡◌, ◌≤◌, ◌<◌, ◌⊎◌, refl, true, false, List, [], ◌∷◌, ltb,
  ◌==◌, if◌then◌else◌, length, replicate, map, done, pos, negsuc, arith,
}
use fleetbench.Libc.Buffers.{
  fresh_buffer, mark_at, mark, stored_position, Comparison, compare_once, compare_all,
}
use fleetbench.Libc.Buffers.Marks.{
  first_difference, seen_at, compare_all-fresh, mark-first_difference, mark_at-stored,
}
use fleetbench.Libc.Offsets.{
  Engine, fits, Next, get_next_offset, Pair, get_next_src_dst_offset_with_overlap,
}
use fleetbench.Libc.Offsets.Fits.{IsFirst, IsShuffle, get_next_offset-fits}
use fleetbench.Libc.Offsets.Operands.{
  IsBetween, IsPlaced, get_next_src_dst_offset_with_overlap-IsPlaced,
}
use fleetbench.Libc.Sizes.{Doubles, total_bytes, sample_size_bytes, fill_sizes, fill_size}
use fleetbench.Libc.Sizes.Adjusted.{all_at_most}
use fleetbench.Libc.Sizes.Sampled.{percentage_sum, sample_size_bytes-adds_up}
use fleetbench.Libc.Parameters.{memcmp, Parameters, all_blocks, build_parameters}
use fleetbench.Libc.Parameters.Ready.{IsReady, all_blocks-HasBlocks}
use fleetbench.Libc.Parameters.Pushes.{IsFair}
use fleetbench.Libc.Parameters.Inside.{build_parameters-IsReady}

-- Shuffles that keep the order, heads at every even draw, and the least distances and numbers.
abbrev plain : Engine
plain = record {
  Gen = ℕ;
  Probability = ℕ;
  shuffle = λ xs g. (xs, suc g);
  bernoulli = λ p g. (g == p, suc g);
  uniform_between = λ size g. (if ltb 1 size then negsuc 0 else pos 0, suc g);
  uniform_below = λ bound g. (bound - 1, suc g);
}

plain-IsShuffle : IsShuffle plain
plain-IsShuffle xs g = Perm.refl xs

plain-IsBetween : IsBetween plain
plain-IsBetween size g = (ground arith, ground arith)

plain-IsFair : IsFair plain
plain-IsFair = record {
  shuffles = plain-IsShuffle;
  between = plain-IsBetween;
  below = λ bound g more. omega arith;
}

get_next_offset-fits_example :
    (n : Next plain) × (get_next_offset plain 7 (192 ∷ 64 ∷ 0 ∷ 128 ∷ []) 100 5 256 30 20 4
      ≡ done n)
    × ((block : ℕ) × (n.offset ≡ block + 5)
        × IsFirst (fits 100 5 256 30 20) (192 ∷ 64 ∷ 0 ∷ 128 ∷ []) block)
    × (35 ≤ n.offset)
    × (n.offset + 100 + 20 ≤ 256)
    × Perm n.blocks_lru (192 ∷ 64 ∷ 0 ∷ 128 ∷ [])
get_next_offset-fits_example =
    get_next_offset-fits plain plain-IsShuffle 7 (192 ∷ 64 ∷ 0 ∷ 128 ∷ []) 100 5 256 30 20 4 refl

get_next_src_dst_offset_with_overlap-IsPlaced_example :
    (p : Pair plain) × (get_next_src_dst_offset_with_overlap plain 7 16 9 1024 200 3 60
        (all_blocks 1024)
        (all_blocks 1024)
        4
      ≡ done p)
    × IsPlaced plain 1024 200 false (all_blocks 1024) (all_blocks 1024) p
get_next_src_dst_offset_with_overlap-IsPlaced_example =
    get_next_src_dst_offset_with_overlap-IsPlaced plain plain-IsShuffle 7 1024 200 3 60 16
      (all_blocks 1024) (all_blocks 1024) 9 4 plain-IsBetween (omega arith) (omega arith)
      (omega arith) (all_blocks-HasBlocks 1024) (all_blocks-HasBlocks 1024) (ground arith)

build_parameters-IsReady_example :
    (q : Parameters) × (build_parameters plain
        (λ g. (2, suc g))
        7
        16
        5
        memcmp
        1024
        (0 ∷ 3 ∷ [])
        (200 ∷ 0 ∷ [])
        4
      ≡ done q)
    × IsReady memcmp 1024 q
build_parameters-IsReady_example =
    build_parameters-IsReady plain memcmp 1024 7 16 (λ g. (2, suc g)) 5 (200 ∷ 0 ∷ []) (0 ∷ 3 ∷ [])
      4 plain-IsFair (omega arith) refl (ground arith)

-- Two comparisons of four bytes each, the second of which starts two bytes before its source.
abbrev two_comparisons : List Comparison
two_comparisons =
    record { size_bytes = 4; src_offset = 0; dst_offset = 4; mismatch_pos = 2 }
    ∷ record { size_bytes = 4; src_offset = 4; dst_offset = 2; mismatch_pos = 3 }
    ∷ []

compare_all-fresh_example : compare_all first_difference two_comparisons (fresh_buffer 8) ≡ (
  map (λ c. (compare_once first_difference c (fresh_buffer 8)).0) two_comparisons,
  fresh_buffer 8,
)
compare_all-fresh_example = compare_all-fresh first_difference 8 two_comparisons

-- The mark at the third byte is seen at the first.
mark-first_difference_example : first_difference (mark (fresh_buffer 8) 2 3) 2 4 4 ≡ seen_at 2 4 3
mark-first_difference_example =
    mark-first_difference 8 2 4 4 3 (omega arith) (omega arith) (omega arith) (omega arith)
      (omega arith)

mark_at-stored_example :
    ((40000 < 2 ^ 15)
      × (1000 ≤ mark_at 1000 (stored_position 40000))
      × (mark_at 1000 (stored_position 40000) < 1000 + 50000))
    ⊎ ((2 ^ 15 ≤ 40000)
        × ((mark_at 1000 (stored_position 40000) < 1000)
            ⊎ (2 ^ 63 ≤ mark_at 1000 (stored_position 40000))))
mark_at-stored_example =
    mark_at-stored 1000 50000 40000 (omega arith) (omega arith) (omega arith) (omega arith)

-- Fractions that are not negative.
abbrev fractions : Doubles
fractions = record {
  Real = ℕ × ℕ;
  none_yet = (0, 1);
  of_size = λ n. (n, 1);
  plus = λ (a, b) (c, d). (a * d + c * b, b * d);
  minus = λ (a, b) (c, d). (a * d - c * b, b * d);
  times = λ (a, b) (c, d). (a * c, b * d);
  over = λ (a, b) (c, d). (a * d, b * c);
  exceeds = λ (a, b) (c, d). ltb (c * b) (a * d);
  nearly_one = (999, 1000);
  to_int64 = λ (a, b). a / b;
}

-- Half of the operations have 2 bytes, half 10, where 9 are the most: the third from the end gets more.
abbrev halves_of : List (ℕ × (ℕ × ℕ))
halves_of = (2, (1, 2)) ∷ (10, (1, 2)) ∷ []

halves_filled :
    fill_sizes fractions 9 4 halves_of
      (0, 1)
      (percentage_sum fractions 4 halves_of)
      0
      (replicate 4 0)
    ≡ done (4, 2 ∷ 2 ∷ 9 ∷ 9 ∷ [])
unfolding fill_sizes fill_size
halves_filled = refl

sample_size_bytes-adds_up_example :
    (sizes : List ℕ) × (g' : ℕ) × (sample_size_bytes fractions plain halves_of 9 4 1
      ≡ done (sizes, g'))
    × (length sizes ≡ 4)
    × (total_bytes sizes ≡ 24)
    × (all_at_most 9 sizes ≡ true)
sample_size_bytes-adds_up_example =
    sample_size_bytes-adds_up fractions plain 9 4 halves_of (2 ∷ 2 ∷ 9 ∷ 9 ∷ []) 1 plain-IsShuffle
      halves_filled (omega arith) (omega arith) (omega arith) (omega arith) (omega arith)
