-- ===== src/Libc/Sizes.antt =====
-- fleetbench/libc/mem_benchmark.cc: the sizes of the memory operations, sampled from a distribution and
-- adjusted to its average.
pub mod Adjusted
pub mod Sampled
use fleetbench.Prelude.{
  ℕ, zero, suc, ◌+◌, ◌-◌, ◌*◌, ◌%◌, ◌^◌, ◌≡◌, Bool, true, false, not, List, [], ◌∷◌, min, ltb, ◌==◌,
  if◌then◌else◌, length, set, replicate, low32, sign_extend, add64, sub64, Run, done, fatal, stuck,
  ◌>>=◌,
}
use fleetbench.Libc.Offsets.{Engine}

-- Arithmetic on `double`.
pub record Doubles : Type 1 where
  pub Real : Type 0
  pub none_yet : Real
  pub of_size : ℕ → Real
  pub plus : Real → Real → Real
  pub minus : Real → Real → Real
  pub times : Real → Real → Real
  pub over : Real → Real → Real
  pub exceeds : Real → Real → Bool
  pub nearly_one : Real
  pub to_int64 : Real → ℕ

-- `ComputeTotalNumBytes`, and the sum of the sizes that `SampleSizeBytes` takes.
abbrev pub total_bytes : List ℕ → ℕ
total_bytes [] = 0
total_bytes (b ∷ bs) = b + total_bytes bs

-- Comparisons of `int32_t` and `int64_t` values by their bit patterns.
abbrev pub signed_min : ℕ → ℕ → ℕ
signed_min a b = if ltb ((b + 2 ^ 31) % 2 ^ 32) ((a + 2 ^ 31) % 2 ^ 32) then b else a

abbrev pub signed_lt : ℕ → ℕ → Bool
signed_lt a b = ltb ((a + 2 ^ 63) % 2 ^ 64) ((b + 2 ^ 63) % 2 ^ 64)

-- The new value of a size, where there are too many bytes, or too few.
abbrev pub fewer_bytes : (old actual expected : ℕ) → ℕ
fewer_bytes old actual expected =
    let b = low32 (sub64 (sign_extend old) (sub64 actual expected)) in
    if ltb b (2 ^ 31) then b else 0

abbrev pub more_bytes : (max_size old actual expected : ℕ) → ℕ
more_bytes max_size old actual expected =
    signed_min (low32 max_size) (low32 (add64 (sign_extend old) (sub64 expected actual)))

-- One turn of the loop over the samples. Once `actual_bytes` is the expected number, it stays, and so
-- do the samples.
unfoldable pub settle_one : (max_size expected old : ℕ) → List ℕ × ℕ → List ℕ × ℕ
settle_one max_size expected old (news, actual) =
    let swapped : ℕ → List ℕ × ℕ =
      λ b. (b ∷ news, add64 (sub64 actual (sign_extend old)) (sign_extend b)) in
    if signed_lt expected actual
    then swapped (fewer_bytes old actual expected)
    else if signed_lt actual expected
    then swapped (more_bytes max_size old actual expected)
    else (old ∷ news, actual)

-- The loop, from the last sample on, with what `actual_bytes` then is.
unfoldable pub settle_all : (max_size expected : ℕ) → List ℕ → (actual : ℕ) → List ℕ × ℕ
unfolding settle_one
settle_all max_size expected [] actual = ([], actual)
settle_all max_size expected (old ∷ olds) actual =
    settle_one max_size expected old (settle_all max_size expected olds actual)

module _ (e : Engine) where
  -- The second half of `SampleSizeBytes`.
  unfoldable pub adjust_sizes : (max_size expected : ℕ) → List ℕ → e.Gen → Run (List ℕ × e.Gen)
  unfolding settle_all
  adjust_sizes max_size expected size_bytes g =
      let (settled, actual) = settle_all max_size expected size_bytes (total_bytes size_bytes) in
      if not (actual == expected) then fatal else done (e.shuffle settled g)

module _ (r : Doubles) where
  open r use {Real, none_yet, of_size, plus, minus, times, over, exceeds, nearly_one, to_int64}

  -- `expected_bytes_tmp` and `percentage_sum`.
  abbrev pub sum_up : (n_samples : ℕ) → List (ℕ × Real) → (expected percentage : Real) → Real × Real
  sum_up n_samples [] expected percentage = (expected, percentage)
  sum_up n_samples ((size, p) ∷ rest) expected percentage =
      sum_up n_samples rest (plus expected (times (of_size (n_samples * size)) p))
        (plus percentage p)

  -- The while loop for one size, for at most `fuel` turns; a write past the end, which is undefined,
  -- changes nothing here.
  unfoldable pub fill_size :
      (fuel bytes : ℕ) → (share : Real) → (n_parameters : ℕ) → List ℕ → Run (ℕ × List ℕ)
  fill_size zero bytes share n_parameters size_bytes = stuck
  fill_size (suc fuel) bytes share n_parameters size_bytes =
      let more =
        fill_size fuel bytes share (suc n_parameters) (set size_bytes n_parameters bytes) in
      if exceeds (minus share (of_size n_parameters)) nearly_one
      then more
      else done (n_parameters, size_bytes)

  unfoldable pub fill_sizes :
      (max_size n_samples : ℕ)
      → List (ℕ × Real)
      → (cur_percentage_sum percentage_sum : Real) → (n_parameters : ℕ) → List ℕ
      → Run (ℕ × List ℕ)
  unfolding fill_size
  fill_sizes max_size n_samples [] cur total n_parameters size_bytes =
      done (n_parameters, size_bytes)
  fill_sizes max_size n_samples ((size, p) ∷ rest) cur total n_parameters size_bytes =
      fill_size (suc n_samples) (min size max_size)
        (over (times (of_size n_samples) (plus cur p)) total) n_parameters size_bytes
      >>= λ (k, filled). fill_sizes max_size n_samples rest (plus cur p) total k filled

  module _ (e : Engine) where
    unfoldable pub sample_size_bytes :
        List (ℕ × Real) → (max_size n_samples : ℕ) → e.Gen → Run (List ℕ × e.Gen)
    unfolding fill_sizes adjust_sizes
    sample_size_bytes distribution max_size n_samples g =
        let (expected, total) = sum_up n_samples distribution none_yet none_yet in
        fill_sizes max_size n_samples distribution none_yet total 0 (replicate n_samples 0)
        >>= λ (n_parameters, size_bytes).
            if not (n_parameters == length size_bytes)
            then fatal
            else adjust_sizes e max_size (to_int64 expected) size_bytes g
