-- ===== src/Rpc/Distribution/Range.antt =====
-- generator_process.h: which names have a distribution, and the range of its samples.
use fleetbench.Prelude.{
  ℕ, zero, suc, ◌≡◌, ◌<◌, ◌⊎◌, inl, inr, refl, ap, Bool, true, false, ◌||◌, List, [], ◌∷◌,
  if◌then◌else◌, if_cases, Bool-cases, Run, done, fatal, ◌>>=◌, Bytes, get_or, length, same_text, ℤ,
  pos, negsuc, int_lt, arith,
}
use fleetbench.Rpc.Distribution.{
  DistributionArgs, RandomDistribution, constant, uniform, empirical, exponential, gaussian,
  poisson, constant_name, uniform_name, empirical_name, poisson_name, exponential_name,
  gaussian_name, Entropy, int_min, largest, do_get_distribution, clamp_value, sample,
  sample_clamped, get_distribution, warm_samples, of_values,
}

abbrev pub is_one_of : Bytes → List Bytes → Bool
is_one_of name [] = false
is_one_of name (n ∷ ns) = same_text name n || is_one_of name ns

abbrev pub known_names : List Bytes
known_names =
    constant_name ∷ uniform_name ∷ empirical_name ∷ poisson_name ∷ exponential_name ∷ gaussian_name
    ∷ []

infix 50 ◌≤ℤ◌
abbrev pub ◌≤ℤ◌ : ℤ → ℤ → Type 0
a ≤ℤ b = int_lt b a ≡ false

≤ℤ-refl : (a : ℤ) → a ≤ℤ a
≤ℤ-refl (pos a) = ground arith
≤ℤ-refl (negsuc a) = ground arith

≤ℤ-trans : (a b c : ℤ) → a ≤ℤ b → b ≤ℤ c → a ≤ℤ c
≤ℤ-trans (pos a) (pos b) (pos c) h k = ground arith
≤ℤ-trans (pos a) (pos b) (negsuc c) h k = cc
≤ℤ-trans (pos a) (negsuc b) c h k = cc
≤ℤ-trans (negsuc a) b (pos c) h k = refl
≤ℤ-trans (negsuc a) (pos b) (negsuc c) h k = cc
≤ℤ-trans (negsuc a) (negsuc b) (negsuc c) h k = ground arith

int_lt-le : (a b : ℤ) → int_lt a b ≡ true → a ≤ℤ b
int_lt-le (pos a) (pos b) h = ground arith
int_lt-le (negsuc a) (negsuc b) h = ground arith
int_lt-le (negsuc a) (pos b) h = refl
int_lt-le (pos a) (negsuc b) h = cc

int_min-le : (a b : ℤ) → int_min a b ≤ℤ a
int_min-le a b = if_cases (λ m. m ≤ℤ a) (int_lt b a) _ _ (λ h. int_lt-le b a h) (λ h. ≤ℤ-refl a)

le-largest : (m : ℤ) (vs : List ℤ) → m ≤ℤ largest m vs
le-largest m [] = ≤ℤ-refl m
le-largest m (v ∷ vs) =
    if_cases (λ k. m ≤ℤ largest k vs) (int_lt m v) _ _
      (λ h. ≤ℤ-trans m v _ (int_lt-le m v h) (le-largest v vs)) (λ h. le-largest m vs)

value-le-largest :
    (m : ℤ) (vs : List ℤ) (i : ℕ) → i < length vs → get_or vs i (pos 0) ≤ℤ largest m vs
value-le-largest m [] i h = absurd (omega arith)
value-le-largest m (v ∷ vs) zero h =
    if_cases (λ k. v ≤ℤ largest k vs) (int_lt m v) _ _ (λ e. le-largest v vs)
      (λ e. ≤ℤ-trans v m _ e (le-largest m vs))
value-le-largest m (v ∷ vs) (suc i) h =
    value-le-largest (if int_lt m v then v else m) vs i (omega arith)

same_text-eq : (a b : Bytes) → same_text a b ≡ true → a ≡ b
same_text-eq [] [] h = refl
same_text-eq [] (y ∷ ys) h = cc
same_text-eq (x ∷ xs) [] h = cc
same_text-eq (x ∷ xs) (y ∷ ys) h =
    let head : x ≡ y = ground arith in
    let tail : same_text xs ys ≡ true = ground arith in
    rw (head) (ap (◌∷◌ y) (same_text-eq xs ys tail))

-- The arguments name a distribution and hold its parameters; without values, an empirical one has the
-- value 0.
abbrev pub Describes : {Real : Type 0} → DistributionArgs Real → RandomDistribution Real → Type 0
Describes a (constant value) = (a.distribution ≡ constant_name) × (a.constant_value ≡ value)
Describes a (uniform lo hi) =
    (a.distribution ≡ uniform_name) × (a.uniform_min ≡ lo) × (a.uniform_max ≡ hi)
Describes a (empirical first others) =
    (a.distribution ≡ empirical_name)
    × ((a.empirical ≡ first ∷ others) ⊎ ((a.empirical ≡ []) × (first ≡ pos 0) × (others ≡ [])))
Describes a (exponential lambda max) =
    (a.distribution ≡ exponential_name)
    × (a.exponential_lambda ≡ lambda)
    × (a.exponential_max ≡ max)
Describes a (gaussian mean stdev max) =
    (a.distribution ≡ gaussian_name)
    × (a.gaussian_mean ≡ mean)
    × (a.gaussian_stdev ≡ stdev)
    × (a.gaussian_max ≡ max)
Describes a (poisson mean max) =
    (a.distribution ≡ poisson_name) × (a.poisson_mean ≡ mean) × (a.poisson_max ≡ max)

of_values-Describes :
    {Real : Type 0} (a : DistributionArgs Real) (values : List ℤ)
    → a.distribution ≡ empirical_name
    → a.empirical ≡ values
    → Describes a (of_values values)
of_values-Describes a [] h k = (h, inr (k, refl, refl))
of_values-Describes a (v ∷ vs) h k = (h, inl k)

-- A name that is in a list, or not in it.
is_name :
    {A : Type 0} (P : A → Type 0) (name text : Bytes) {b : Bool} {y : Run A} (x : A)
    → ((b ≡ true) × ((r : A) × (y ≡ done r) × P r)) ⊎ ((b ≡ false) × (y ≡ fatal))
    → (name ≡ text → P x)
    → (((same_text name text || b) ≡ true)
        × ((r : A) × ((if same_text name text then done x else y) ≡ done r) × P r))
      ⊎ (((same_text name text || b) ≡ false)
          × ((if same_text name text then done x else y) ≡ fatal))
is_name P name text x h k = elim (Bool-cases (same_text name text)) [
  | inl same ↦ rw (same) (inl (refl, (x, refl, k (same_text-eq name text same))))
  | inr other ↦ rw (other) h
]

do_get_distribution-known :
    {Real : Type 0} (a : DistributionArgs Real)
    → ((is_one_of a.distribution known_names ≡ true)
        × ((d : RandomDistribution Real) × (do_get_distribution a ≡ done d) × Describes a d))
      ⊎ ((is_one_of a.distribution known_names ≡ false) × (do_get_distribution a ≡ fatal))
unfolding do_get_distribution
do_get_distribution-known a =
    let name = a.distribution in
    is_name (Describes a) name constant_name _
      (is_name (Describes a) name uniform_name _
        (is_name (Describes a) name empirical_name _
          (is_name (Describes a) name poisson_name _
            (is_name (Describes a) name exponential_name _
              (is_name (Describes a) name gaussian_name _ (inr (refl, refl))
                (λ h. (h, refl, refl, refl)))
              (λ h. (h, refl, refl)))
            (λ h. (h, refl, refl)))
          (λ h. of_values-Describes a a.empirical h refl))
        (λ h. (h, refl, refl)))
      (λ h. (h, refl))

module _ (e : Entropy) (a : DistributionArgs e.Real) (g : e.Gen) where
  -- For the six names that it knows, `GetDistribution` returns the distribution of that name with the
  -- parameters that the arguments hold for it; an empirical one without values has the value 0. On
  -- any other name it stops the process.
  pub get_distribution-known :
      ((is_one_of a.distribution known_names ≡ true)
        × ((r : RandomDistribution e.Real × e.Gen) × (get_distribution e a g ≡ done r)
            × Describes a r.0))
      ⊎ ((is_one_of a.distribution known_names ≡ false) × (get_distribution e a g ≡ fatal))
  unfolding get_distribution
  get_distribution-known =
      let draw : Run (RandomDistribution e.Real) → Run (RandomDistribution e.Real × e.Gen) =
        λ m. m >>= λ d. done (d, warm_samples e 100 d g) in
      elim (do_get_distribution-known a) [
        | inl (h, (d, k, is)) ↦ inl (h, ((d, warm_samples e 100 d g), ap draw k, is))
        | inr (h, k) ↦ inr (h, ap draw k)
      ]

module _ (e : Entropy) where
  -- What is documented of the draws that `EntropySource` forwards: a uniform draw from a range that is
  -- not empty lies below its end, an index below the size.
  pub record IsUniform : Type 0 where
    pub below_end :
        (lo hi : ℤ) (g : e.Gen) → int_lt lo hi ≡ true → int_lt (e.draw_uniform lo hi g).0 hi ≡ true
    pub index_below : (size : ℕ) (g : e.Gen) → 0 < size → (e.draw_index size g).0 < size

  abbrev pub HasRange : RandomDistribution e.Real → Type 0
  HasRange (uniform lo hi) = int_lt lo hi ≡ true
  HasRange _ = Unit

  -- A clamped sample is at most `clamp_value`, for every distribution, where a uniform one has a range
  -- that is not empty.
  pub sample_clamped-le :
      (d : RandomDistribution e.Real) (g : e.Gen)
      → IsUniform
      → HasRange d
      → (sample_clamped e d g).0 ≤ℤ clamp_value d
  unfolding sample_clamped sample clamp_value
  sample_clamped-le (constant value) g u h = ≤ℤ-refl value
  sample_clamped-le (uniform lo hi) g u h = int_lt-le _ hi (u.below_end lo hi g h)
  sample_clamped-le (empirical first others) g u h =
      let i = (e.draw_index (suc (length others)) g).0 in
      value_of i (u.index_below (suc (length others)) g (omega arith))
    where
      value_of :
          (i : ℕ)
          → i < suc (length others)
          → get_or (first ∷ others) i (pos 0) ≤ℤ largest first others
      value_of zero k = le-largest first others
      value_of (suc i) k = value-le-largest first others i (omega arith)
  sample_clamped-le (exponential lambda max) g u h = int_min-le max _
  sample_clamped-le (gaussian mean stdev max) g u h = int_min-le max _
  sample_clamped-le (poisson mean max) g u h = int_min-le max _
