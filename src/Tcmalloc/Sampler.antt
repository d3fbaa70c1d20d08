-- ===== src/Tcmalloc/Sampler.antt =====
-- fleetbench/tcmalloc/empirical.h: `AdjustableSampler`, a tree of weights whose root is their sum.
pub mod Sums
use fleetbench.Prelude.{
  ℕ, zero, suc, ◌+◌, ◌-◌, ◌*◌, ◌/◌, ◌%◌, ◌^◌, Bool, true, false, List, [], ◌∷◌, ltb, ◌==◌,
  if◌then◌else◌, Run, done, fatal, stuck, ◌>>=◌, length, get_or, set, drop, take, replicate, ◌++◌,
}

-- The arithmetic of `double`: nothing is assumed of it, so rounding is allowed for.
pub record Weights : Type 1 where
  pub Weight : Type 0
  pub zero_weight : Weight
  pub plus : Weight → Weight → Weight
  pub minus : Weight → Weight → Weight
  pub at_most : Weight → Weight → Bool

-- `NextPowerOfTwo` with its `size_t`; 64 doublings leave 0, from which the loop does not come back.
abbrev pub double_until : (fuel n x : ℕ) → Run ℕ
double_until zero n x = if ltb n x then stuck else done n
double_until (suc fuel) n x =
    let rest = double_until fuel (n * 2 % 2 ^ 64) x in if ltb n x then rest else done n

unfoldable pub next_power_of_two : ℕ → Run ℕ
next_power_of_two x = double_until 64 1 x

module _ (w : Weights) where
  open w use {Weight, zero_weight, plus, minus, at_most}

  -- `n_` and `tree_`.
  pub record Sampler : Type 0 where
    pub n : ℕ
    pub tree : List Weight

  abbrev pub node : List Weight → ℕ → Weight
  node tree i = get_or tree i zero_weight

  -- `tree_[i] = tree_[2 * i + 1] + tree_[2 * i + 2]`.
  abbrev pub resum : List Weight → ℕ → List Weight
  resum tree i = set tree i (plus (node tree (2 * i + 1)) (node tree (2 * i + 2)))

  -- The constructor with all weights zero.
  unfoldable pub empty_sampler : ℕ → Run (Sampler)
  unfolding next_power_of_two
  empty_sampler count = next_power_of_two count >>= λ n.
      if ltb count 1
      then fatal
      else done (record { n = n; tree = replicate (2 * n - 1) zero_weight })

  -- `while (i-- > 0)`, from `i` on.
  unfoldable pub sum_below : ℕ → List Weight → List Weight
  sum_below zero tree = tree
  sum_below (suc i) tree = sum_below i (resum tree i)

  -- The constructor from weights, with `n_` known: they are the first leaves.
  unfoldable pub build_tree : List Weight → (n : ℕ) → Run (Sampler)
  unfolding sum_below
  build_tree weights n =
      let leaves =
        replicate (n - 1) zero_weight ++ weights ++ replicate (n - length weights) zero_weight in
      if length weights == 0
      then fatal
      else done (record { n = n; tree = sum_below (n - 1) leaves })

  unfoldable pub from_weights : List Weight → Run (Sampler)
  unfolding next_power_of_two build_tree
  from_weights weights = next_power_of_two (length weights) >>= build_tree weights

  -- `while (i != 0)`: each turn halves `i`, which the fuel bounds.
  unfoldable pub climb : (fuel i : ℕ) → List Weight → List Weight
  climb zero i tree = tree
  climb (suc fuel) zero tree = tree
  climb (suc fuel) (suc i) tree = climb fuel (i / 2) (resum tree (i / 2))

  unfoldable pub set_weight : Sampler → (i : ℕ) → Weight → Sampler
  unfolding climb
  set_weight s i x =
      let leaf = i + (s.n - 1) in record s { tree = climb leaf leaf (set s.tree leaf x) }

  unfoldable pub weight : Sampler → ℕ → Weight
  weight s i = node s.tree (i + (s.n - 1))

  unfoldable pub adjust_weight : Sampler → (i : ℕ) → Weight → Sampler
  unfolding set_weight weight
  adjust_weight s i delta = set_weight s i (plus (weight s i) delta)

  unfoldable pub total_weight : Sampler → Weight
  total_weight s = node s.tree 0

  -- The walk of `SampleWeight` from node `i`.
  unfoldable pub descend : (fuel n : ℕ) → List Weight → (i : ℕ) → Weight → Run ℕ
  descend zero n tree i x = if ltb i (n - 1) then stuck else done (i - (n - 1))
  descend (suc fuel) n tree i x =
      let left = node tree (2 * i + 1) in
      let go_left = at_most x left in
      let rest =
        descend fuel n tree (if go_left then 2 * i + 1 else 2 * i + 2)
          (if go_left then x else minus x left) in
      if ltb i (n - 1) then rest else done (i - (n - 1))

  unfoldable pub sample_weight : Sampler → Weight → Run ℕ
  unfolding descend
  sample_weight s x = descend s.n s.n s.tree 0 x
