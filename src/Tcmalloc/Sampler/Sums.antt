-- ===== src/Tcmalloc/Sampler/Sums.antt =====
-- empirical.h: every inner node of an `AdjustableSampler` is the sum of its children.
use fleetbench.Prelude.{
  ℕ, zero, suc, ◌+◌, ◌-◌, ◌*◌, ◌/◌, ◌%◌, ◌^◌, ◌≡◌, ◌≢◌, ◌≤◌, ◌<◌, ◌⊎◌, inl, inr, refl, sym, ap,
  subst, Bool-cases, ltb→lt, ltb→ge, ◌∙◌, List, [], ◌∷◌, ltb, ◌==◌, if◌then◌else◌, if_cases, Run,
  done, ◌>>=◌, length, get_or, set, replicate, ◌++◌, arith, length-set, length-append,
  length-replicate,
}
use fleetbench.Tcmalloc.Sampler.{
  Weights, double_until, next_power_of_two, Sampler, node, resum, sum_below, build_tree,
  from_weights, climb, set_weight, weight, descend, sample_weight,
}

get_or-set_same {ℓ} :
    {A : Type ℓ} (xs : List A) (i : ℕ) (v d : A) → i < length xs → get_or (set xs i v) i d ≡ v
get_or-set_same [] i v d h = absurd (omega arith)
get_or-set_same (x ∷ xs) zero v d h = refl
get_or-set_same (x ∷ xs) (suc i) v d h = get_or-set_same xs i v d (omega arith)

get_or-set_other {ℓ} :
    {A : Type ℓ} (xs : List A) (i j : ℕ) (v d : A) → i ≢ j → get_or (set xs i v) j d ≡ get_or xs j d
get_or-set_other [] i j v d h = refl
get_or-set_other (x ∷ xs) zero zero v d h = absurd (h refl)
get_or-set_other (x ∷ xs) zero (suc j) v d h = refl
get_or-set_other (x ∷ xs) (suc i) zero v d h = refl
get_or-set_other (x ∷ xs) (suc i) (suc j) v d h = get_or-set_other xs i j v d (λ e. h (ap suc e))

double_until-least :
    (fuel k x : ℕ)
    → k + fuel ≡ 64
    → x ≤ 2 ^ 63
    → (2 ^ k ≡ 1) ⊎ (2 ^ k < 2 * x)
    → (n : ℕ) × (double_until fuel (2 ^ k) x ≡ done n)
      × ((j : ℕ) × (n ≡ 2 ^ j))
      × (x ≤ n)
      × ((n ≡ 1) ⊎ (n < 2 * x))
double_until-least zero k x f h low =
    let P : Run ℕ → Type 0 =
      λ o. (n : ℕ) × (o ≡ done n) × ((j : ℕ) × (n ≡ 2 ^ j)) × (x ≤ n) × ((n ≡ 1) ⊎ (n < 2 * x)) in
    if_cases P (ltb (2 ^ k) x) _ _
      (λ e.
        let full : k ≡ 64 = omega arith in
        let big : 2 ^ 64 < x = subst (λ m. 2 ^ m < x) full (ltb→lt (2 ^ k) x e) in
        absurd (omega arith))
      (λ e. (2 ^ k, refl, (k, refl), ltb→ge _ _ e, low))
double_until-least (suc fuel) k x f h low =
    let P : Run ℕ → Type 0 =
      λ o. (n : ℕ) × (o ≡ done n) × ((j : ℕ) × (n ≡ 2 ^ j)) × (x ≤ n) × ((n ≡ 1) ⊎ (n < 2 * x)) in
    if_cases P (ltb (2 ^ k) x) _ _
      (λ e.
        let lt = ltb→lt (2 ^ k) x e in
        let next : 2 ^ suc k ≡ 2 ^ k * 2 % 2 ^ 64 = omega arith in
        subst (λ m. P (double_until fuel m x)) next
          (double_until-least fuel (suc k) x (omega arith) h (inr (omega arith))))
      (λ e. (2 ^ k, refl, (k, refl), ltb→ge _ _ e, low))

-- `NextPowerOfTwo` ends, for sizes up to 2^63, with the least power of two that is not below the
-- size.
pub next_power_of_two-least :
    (x : ℕ)
    → x ≤ 2 ^ 63
    → (n : ℕ) × (next_power_of_two x ≡ done n)
      × ((k : ℕ) × (n ≡ 2 ^ k))
      × (x ≤ n)
      × ((n ≡ 1) ⊎ (n < 2 * x))
unfolding next_power_of_two
next_power_of_two-least x h = double_until-least 64 0 x refl h (inl refl)

module _ (w : Weights) where
  open w use {Weight, zero_weight, plus}

  abbrev pub IsSum : List Weight → ℕ → Type 0
  IsSum tree j = node w tree j ≡ plus (node w tree (2 * j + 1)) (node w tree (2 * j + 2))

  -- A sampler of `n` leaves with its tree in step.
  pub record IsSummed (s : Sampler w) : Type 0 where
    pub leaves : 1 ≤ s.n
    pub size : length s.tree ≡ 2 * s.n - 1
    pub sums : (j : ℕ) → j < s.n - 1 → IsSum s.tree j

  resum-IsSum : (tree : List Weight) (i : ℕ) → i < length tree → IsSum (resum w tree i) i
  resum-IsSum tree i h =
      let v = plus (node w tree (2 * i + 1)) (node w tree (2 * i + 2)) in
      rw
        (
          get_or-set_same tree i v zero_weight h,
          get_or-set_other tree i (2 * i + 1) v zero_weight (omega arith),
          get_or-set_other tree i (2 * i + 2) v zero_weight (omega arith),
        )
        refl

  set-IsSum :
      (tree : List Weight) (i j : ℕ) (v : Weight)
      → i ≢ j
      → i ≢ 2 * j + 1
      → i ≢ 2 * j + 2
      → IsSum tree j
      → IsSum (set tree i v) j
  set-IsSum tree i j v a b c h =
      rw
        (
          get_or-set_other tree i j v zero_weight a,
          get_or-set_other tree i (2 * j + 1) v zero_weight b,
          get_or-set_other tree i (2 * j + 2) v zero_weight c,
        )
        h

  climb-length : (fuel i : ℕ) (tree : List Weight) → length (climb w fuel i tree) ≡ length tree
  unfolding climb
  climb-length zero i tree = refl
  climb-length (suc fuel) zero tree = refl
  climb-length (suc fuel) (suc i) tree =
      climb-length fuel (i / 2) (resum w tree (i / 2)) ∙ length-set tree (i / 2) _

  -- Going up from `i`, where only the nodes above `i` can be out of step.
  climb-IsSum :
      (fuel i : ℕ) (tree : List Weight) (n : ℕ)
      → i ≤ fuel
      → i < length tree
      → ((j : ℕ) → j < n → (i ≡ 0) ⊎ (j ≢ (i - 1) / 2) → IsSum tree j)
      → (j : ℕ) → j < n
      → IsSum (climb w fuel i tree) j
  unfolding climb
  climb-IsSum zero i tree n f r h j k = h j k (inl (omega arith))
  climb-IsSum (suc fuel) zero tree n f r h j k = h j k (inl refl)
  climb-IsSum (suc fuel) (suc i) tree n f r h j k =
      climb-IsSum fuel (i / 2) (resum w tree (i / 2)) n (omega arith)
        (omega (arith, length-set tree (i / 2) _)) stepped j k
    where
      stepped :
          (j : ℕ) → j < n → (i / 2 ≡ 0) ⊎ (j ≢ (i / 2 - 1) / 2) → IsSum (resum w tree (i / 2)) j
      stepped j k out =
          let p = i / 2 in
          let v = plus (node w tree (2 * p + 1)) (node w tree (2 * p + 2)) in
          elim (Bool-cases (j == p)) [
            | inl here ↦
                let e : j ≡ p = ground arith in
                subst (IsSum (resum w tree p)) (sym e) (resum-IsSum tree p (omega arith))
            | inr away ↦
                let off : p ≢ j = ground arith in
                set-IsSum tree p j v off (omega arith) (omega arith) (h j k (inr (omega arith)))
          ]

  climb-leaf :
      (fuel i : ℕ) (tree : List Weight) (n j : ℕ)
      → i ≤ 2 * n - 2
      → n - 1 ≤ j
      → node w (climb w fuel i tree) j ≡ node w tree j
  unfolding climb
  climb-leaf zero i tree n j r h = refl
  climb-leaf (suc fuel) zero tree n j r h = refl
  climb-leaf (suc fuel) (suc i) tree n j r h =
      climb-leaf fuel (i / 2) (resum w tree (i / 2)) n j (omega arith) h
      ∙ get_or-set_other tree (i / 2) j _ zero_weight (omega arith)

  leaf_written :
      (s : Sampler w) (i j : ℕ) (x : Weight)
      → i + (s.n - 1) < length s.tree
      → node w (set s.tree (i + (s.n - 1)) x) (j + (s.n - 1)) ≡ (if i == j then x else weight w s j)
  unfolding weight
  leaf_written s i j x h =
      let leaf = i + (s.n - 1) in
      if_cases (λ r. node w (set s.tree leaf x) (j + (s.n - 1)) ≡ r) (i == j) _ _
        (λ e.
          let same : i ≡ j = ground arith in
          subst (λ m. node w (set s.tree leaf x) (m + (s.n - 1)) ≡ x) same
            (get_or-set_same s.tree leaf x zero_weight h))
        (λ e.
          let off : i ≢ j = ground arith in
          get_or-set_other s.tree leaf (j + (s.n - 1)) x zero_weight (omega arith))

  -- Setting a weight in range keeps every inner node the sum of its children, and changes the weight of
  -- that index only.
  pub set_weight-IsSummed :
      (s : Sampler w) (i : ℕ) (x : Weight)
      → IsSummed s
      → i < s.n
      → IsSummed (set_weight w s i x)
        × ((j : ℕ) → weight w (set_weight w s i x) j ≡ (if i == j then x else weight w s j))
  unfolding set_weight weight
  set_weight-IsSummed s i x v h =
      let leaf = i + (s.n - 1) in
      let changed = set s.tree leaf x in
      (
        record {
          leaves = v.leaves;
          size = climb-length leaf leaf changed ∙ length-set s.tree leaf x ∙ v.size;
          sums =
              climb-IsSum leaf leaf changed (s.n - 1) (omega arith)
                (omega (arith, v.size, v.leaves, length-set s.tree leaf x))
                (λ j k out.
                  set-IsSum s.tree leaf j x (omega arith) (omega arith) (omega arith) (v.sums j k));
        },
        λ j.
            climb-leaf leaf leaf changed s.n (j + (s.n - 1)) (omega arith) (omega arith)
            ∙ leaf_written s i j x (omega (arith, v.size, v.leaves)),
      )

  sum_below-IsSum :
      (i : ℕ) (tree : List Weight) (n : ℕ)
      → n ≤ length tree
      → i ≤ n
      → ((j : ℕ) → i ≤ j → j < n → IsSum tree j)
      → (length (sum_below w i tree) ≡ length tree)
        × ((j : ℕ) → j < n → IsSum (sum_below w i tree) j)
  unfolding sum_below
  sum_below-IsSum zero tree n f r h = (refl, λ j k. h j (omega arith) k)
  sum_below-IsSum (suc i) tree n f r h =
      let v = plus (node w tree (2 * i + 1)) (node w tree (2 * i + 2)) in
      let same = length-set tree i v in
      let next : (j : ℕ) → i ≤ j → j < n → IsSum (resum w tree i) j = λ j a b.
        elim (Bool-cases (j == i)) [
          | inl here ↦
              let e : j ≡ i = ground arith in
              subst (IsSum (resum w tree i)) (sym e) (resum-IsSum tree i (omega arith))
          | inr away ↦
              let off : i ≢ j = ground arith in
              set-IsSum tree i j v off (omega arith) (omega arith) (h j (omega arith) b)
        ] in
      let (l, g) = sum_below-IsSum i (resum w tree i) n (omega (arith, same)) (omega arith) next in
      (l ∙ same, g)

  -- The sums leave what is not below them as it was.
  sum_below-other :
      (i : ℕ) (tree : List Weight) (j : ℕ) → i ≤ j → node w (sum_below w i tree) j ≡ node w tree j
  unfolding sum_below
  sum_below-other zero tree j h = refl
  sum_below-other (suc i) tree j h =
      sum_below-other i (resum w tree i) j (omega (arith, h))
      ∙ get_or-set_other tree i j _ zero_weight (omega (arith, h))

  -- The leaves before the sums are made are the weights, and then zeros.
  get_or-padded :
      (weights : List Weight) (back i : ℕ)
      → get_or (weights ++ replicate back zero_weight) i zero_weight ≡ get_or weights i zero_weight
  get_or-padded [] zero i = refl
  get_or-padded [] (suc back) zero = refl
  get_or-padded [] (suc back) (suc i) = get_or-padded [] back i
  get_or-padded (x ∷ weights) back zero = refl
  get_or-padded (x ∷ weights) back (suc i) = get_or-padded weights back i

  get_or-leaves :
      (front : ℕ) (weights : List Weight) (back i k : ℕ)
      → k ≡ i + front
      → get_or (replicate front zero_weight ++ weights ++ replicate back zero_weight) k zero_weight
        ≡ get_or weights i zero_weight
  get_or-leaves zero weights back i k h =
      let same : k ≡ i = omega (arith, h) in rw (same) (get_or-padded weights back i)
  get_or-leaves (suc front) weights back i zero h = absurd (omega (arith, h))
  get_or-leaves (suc front) weights back i (suc k) h =
      get_or-leaves front weights back i k (omega (arith, h))

  made-IsSummed :
      (n : ℕ) (weights : List Weight)
      → 1 ≤ n
      → length weights ≤ n
      → let leaves =
          replicate (n - 1) zero_weight ++ weights ++ replicate (n - length weights) zero_weight in
        IsSummed (record { n = n; tree = sum_below w (n - 1) leaves })
  made-IsSummed n weights a b =
      let front = replicate (n - 1) zero_weight in
      let back = replicate (n - length weights) zero_weight in
      let l : length (front ++ weights ++ back) ≡ 2 * n - 1 = omega (
        arith,
        length-append (front ++ weights) back,
        length-append front weights,
        length-replicate (n - 1) zero_weight,
        length-replicate (n - length weights) zero_weight,
      ) in
      let leaves = front ++ weights ++ back in
      let (m, g) =
        sum_below-IsSum (n - 1) (front ++ weights ++ back) (n - 1) (omega arith) (omega arith)
          (λ j p q. absurd (omega arith)) in
      record { leaves = a; size = m ∙ l; sums = g }

  -- A vector of weights that is not empty nor longer than 2^63 makes a sampler in which every inner
  -- node is the sum of its children, the weight of each index is the one in the vector, and the
  -- other leaves are zero.
  pub from_weights-IsSummed :
      (weights : List Weight)
      → 1 ≤ length weights
      → length weights ≤ 2 ^ 63
      → (s : Sampler w) × (from_weights w weights ≡ done s)
        × IsSummed s
        × (length weights ≤ s.n)
        × ((i : ℕ) → weight w s i ≡ get_or weights i zero_weight)
  unfolding from_weights build_tree weight
  from_weights-IsSummed weights a b =
      let (n, e, p, up, low) = next_power_of_two-least (length weights) b in
      let tree =
        sum_below w (n - 1) (
          replicate (n - 1) zero_weight ++ weights ++ replicate (n - length weights) zero_weight) in
      (
        record { n = n; tree = tree },
        ap (λ o. o >>= build_tree w weights) e
            ∙ if_cases (λ o. o ≡ done (record { n = n; tree = tree })) (length weights == 0) _ _
                (λ z. absurd (ground arith)) (λ _. refl),
        made-IsSummed n weights (omega (arith, up, a)) up,
        up,
        λ i.
            sum_below-other (n - 1) _ (i + (n - 1)) (omega arith)
            ∙ get_or-leaves (n - 1) weights (n - length weights) i _ refl,
      )

  -- The draw from a point reaches a leaf.
  descend-done :
      (fuel n : ℕ) (tree : List Weight) (i : ℕ) (x : Weight)
      → 1 ≤ n
      → i ≤ 2 * n - 2
      → n ≤ fuel + i + 1
      → (r : ℕ) × (descend w fuel n tree i x ≡ done r) × (r < n)
  unfolding descend
  descend-done zero n tree i x a b c =
      if_cases (λ o. (r : ℕ) × (o ≡ done r) × (r < n)) (ltb i (n - 1)) _ _
        (λ e. absurd (ground arith)) (λ e. (i - (n - 1), refl, omega arith))
  descend-done (suc fuel) n tree i x a b c =
      if_cases (λ o. (r : ℕ) × (o ≡ done r) × (r < n)) (ltb i (n - 1)) _ _
        (λ e.
          let lt = ltb→lt i (n - 1) e in
          descend-done fuel n tree _ _ a (ground arith) (ground arith))
        (λ e. (i - (n - 1), refl, omega arith))

  -- `SampleWeight` ends at one of the leaves.
  sample_weight-done :
      (s : Sampler w) (x : Weight)
      → IsSummed s
      → (r : ℕ) × (sample_weight w s x ≡ done r) × (r < s.n)
  unfolding sample_weight
  sample_weight-done s x v =
      descend-done s.n s.n s.tree 0 x v.leaves (omega (arith, v.leaves)) (omega arith)
