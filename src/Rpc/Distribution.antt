-- ===== src/Rpc/Distribution.antt =====
-- fleetbench/rpc/generator_process.h and generator_process.cc: the distributions that delays are drawn
-- from, and how grpc_client.cc and grpc_server.cc choose and use one.
pub mod Range
use fleetbench.Prelude.{
  ℕ, zero, suc, Bool, true, false, not, List, [], ◌∷◌, if◌then◌else◌, Run, done, fatal, ◌>>=◌,
  Bytes, get_or, length, same_text, ℤ, pos, negsuc, int_lt, int_eq,
}

-- `DistributionArgs` (distributionargs.proto). `Real` is `double`.
pub record DistributionArgs (Real : Type 0) : Type 0 where
  pub distribution : Bytes
  pub constant_value : ℤ
  pub uniform_min : ℤ
  pub uniform_max : ℤ
  pub exponential_lambda : Real
  pub exponential_max : ℤ
  pub gaussian_mean : Real
  pub gaussian_stdev : Real
  pub gaussian_max : ℤ
  pub poisson_mean : ℤ
  pub poisson_max : ℤ
  pub empirical : List ℤ

-- The subclasses of `RandomDistribution`; the values of an empirical one are its first and the others.
pub data RandomDistribution (Real : Type 0) : Type 0 where
  constant : (value : ℤ) → RandomDistribution Real
  uniform : (lo hi : ℤ) → RandomDistribution Real
  empirical : (first : ℤ) → (others : List ℤ) → RandomDistribution Real
  exponential : (lambda : Real) → (max : ℤ) → RandomDistribution Real
  gaussian : (mean stdev : Real) → (max : ℤ) → RandomDistribution Real
  poisson : (mean max : ℤ) → RandomDistribution Real

-- The values of `kName`, in character codes: "constant", "uniform", "empirical", "poisson",
-- "exponential" and "gaussian".
abbrev pub constant_name : Bytes
constant_name = 99 ∷ 111 ∷ 110 ∷ 115 ∷ 116 ∷ 97 ∷ 110 ∷ 116 ∷ []

abbrev pub uniform_name : Bytes
uniform_name = 117 ∷ 110 ∷ 105 ∷ 102 ∷ 111 ∷ 114 ∷ 109 ∷ []

abbrev pub empirical_name : Bytes
empirical_name = 101 ∷ 109 ∷ 112 ∷ 105 ∷ 114 ∷ 105 ∷ 99 ∷ 97 ∷ 108 ∷ []

abbrev pub poisson_name : Bytes
poisson_name = 112 ∷ 111 ∷ 105 ∷ 115 ∷ 115 ∷ 111 ∷ 110 ∷ []

abbrev pub exponential_name : Bytes
exponential_name = 101 ∷ 120 ∷ 112 ∷ 111 ∷ 110 ∷ 101 ∷ 110 ∷ 116 ∷ 105 ∷ 97 ∷ 108 ∷ []

abbrev pub gaussian_name : Bytes
gaussian_name = 103 ∷ 97 ∷ 117 ∷ 115 ∷ 115 ∷ 105 ∷ 97 ∷ 110 ∷ []

-- `EntropySource`: what the library draws, from a state of its generator.
pub record Entropy : Type 1 where
  pub Real : Type 0
  pub Gen : Type 0
  pub draw_uniform : (lo hi : ℤ) → Gen → ℤ × Gen
  pub draw_index : (size : ℕ) → Gen → ℕ × Gen
  pub draw_exponential : (lambda : Real) → Gen → ℤ × Gen
  pub draw_gaussian : (mean stdev : Real) → Gen → ℤ × Gen
  pub draw_poisson : (mean : ℤ) → Gen → ℤ × Gen

abbrev pub int_min : ℤ → ℤ → ℤ
int_min a b = if int_lt b a then b else a

-- `*max_element`.
abbrev pub largest : ℤ → List ℤ → ℤ
largest m [] = m
largest m (v ∷ vs) = largest (if int_lt m v then v else m) vs

module _ {Real : Type 0} where
  -- `Empirical::Get`: an empty list of values is the value 0.
  abbrev pub of_values : List ℤ → RandomDistribution Real
  of_values [] = empirical (pos 0) []
  of_values (v ∷ vs) = empirical v vs

  -- `DoGetDistribution`.
  unfoldable pub do_get_distribution : DistributionArgs Real → Run (RandomDistribution Real)
  do_get_distribution a =
      if same_text a.distribution constant_name
      then done (constant a.constant_value)
      else if same_text a.distribution uniform_name
      then done (uniform a.uniform_min a.uniform_max)
      else if same_text a.distribution empirical_name
      then done (of_values a.empirical)
      else if same_text a.distribution poisson_name
      then done (poisson a.poisson_mean a.poisson_max)
      else if same_text a.distribution exponential_name
      then done (exponential a.exponential_lambda a.exponential_max)
      else if same_text a.distribution gaussian_name
      then done (gaussian a.gaussian_mean a.gaussian_stdev a.gaussian_max)
      else fatal

  unfoldable pub clamp_value : RandomDistribution Real → ℤ
  clamp_value (constant value) = value
  clamp_value (uniform lo hi) = hi
  clamp_value (empirical first others) = largest first others
  clamp_value (exponential lambda max) = max
  clamp_value (gaussian mean stdev max) = max
  clamp_value (poisson mean max) = max

module _ (e : Entropy) where
  open e use {Real, Gen, draw_uniform, draw_index, draw_exponential, draw_gaussian, draw_poisson}

  unfoldable pub sample : RandomDistribution Real → Gen → ℤ × Gen
  sample (constant value) g = (value, g)
  sample (uniform lo hi) g = draw_uniform lo hi g
  sample (empirical first others) g =
      let (i, g') = draw_index (suc (length others)) g in (get_or (first ∷ others) i (pos 0), g')
  sample (exponential lambda max) g = draw_exponential lambda g
  sample (gaussian mean stdev max) g = draw_gaussian mean stdev g
  sample (poisson mean max) g = draw_poisson mean g

  -- `sample_clamped`, and what the subclasses override it by.
  unfoldable pub sample_clamped : RandomDistribution Real → Gen → ℤ × Gen
  unfolding sample
  sample_clamped (exponential lambda max) g =
      let (v, g') = sample (exponential lambda max) g in (int_min max v, g')
  sample_clamped (gaussian mean stdev max) g =
      let (v, g') = sample (gaussian mean stdev max) g in (int_min max v, g')
  sample_clamped (poisson mean max) g =
      let (v, g') = sample (poisson mean max) g in (int_min max v, g')
  sample_clamped (constant value) g = sample (constant value) g
  sample_clamped (uniform lo hi) g = sample (uniform lo hi) g
  sample_clamped (empirical first others) g = sample (empirical first others) g

  -- The hundred samples that `GetDistribution` averages for its log.
  unfoldable pub warm_samples : (count : ℕ) → RandomDistribution Real → Gen → Gen
  unfolding sample
  warm_samples zero d g = g
  warm_samples (suc count) d g = warm_samples count d (sample d g).1

  unfoldable pub get_distribution :
      DistributionArgs Real → Gen → Run (RandomDistribution Real × Gen)
  unfolding do_get_distribution warm_samples
  get_distribution a g = do_get_distribution a >>= λ d. done (d, warm_samples 100 d g)

  -- The delay type that `StartGRPCClient` and `StartGRPCServer` choose.
  unfoldable pub has_delay : RandomDistribution Real → Bool
  unfolding clamp_value
  has_delay d = not (int_eq (clamp_value d) (pos 0))

  -- The microseconds that `Delay` sleeps.
  unfoldable pub delay : RandomDistribution Real → Gen → ℕ × Gen
  unfolding has_delay sample
  delay d g =
      let (usec, g') = sample d g in
      if has_delay d then (elim usec [ pos n ↦ n | negsuc n ↦ 0 ], g') else (0, g)
