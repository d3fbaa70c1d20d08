-- ===== src/Swissmap/Layout.antt =====
-- swissmap_benchmark.h: where `Transpose` puts each key, and what `GetNumSetsOfSize` counts.
use native.Mathlib.Nat.{mul-le-mul_right, mul_comm}
use fleetbench.Prelude.{
  ℕ, zero, suc, ◌+◌, ◌*◌, ◌≤◌, ◌<◌, ◌≡◌, ◌≢◌, refl, sym, ap, ◌∙◌, Bool, true, ◌&&◌, List, [], ◌∷◌,
  leb, ltb, if◌then◌else◌, Bool-cases, inl, inr, length, length-set, length-replicate, get_or, set,
  replicate, arith,
}
use fleetbench.Swissmap.{
  store_row, store_rows, front_row, transpose, sets_of_size, fill_num_sets, get_largest_set_size,
  get_num_sets_of_size,
}

-- The place of an element has its column and its row.
same_row : (n j k i m : ℕ) → i < n → m < n → j * n + i ≡ k * n + m → i ≡ m
same_row n zero zero i m h l e = omega arith
same_row n zero (suc k) i m h l e = absurd (omega arith)
same_row n (suc j) zero i m h l e = absurd (omega arith)
same_row n (suc j) (suc k) i m h l e = same_row n j k i m h l (omega arith)

same_column : (n j k i : ℕ) → 0 < n → j * n + i ≡ k * n + i → j ≡ k
same_column n zero zero i h e = refl
same_column n zero (suc k) i h e = absurd (omega arith)
same_column n (suc j) zero i h e = absurd (omega arith)
same_column n (suc j) (suc k) i h e = ap suc (same_column n j k i h (omega arith))

module _ {ℓ} {A : Type ℓ} (d : A) where
  get_or-set_same : (xs : List A) (i : ℕ) (v : A) → i < length xs → get_or (set xs i v) i d ≡ v
  get_or-set_same [] i v h = absurd (omega arith)
  get_or-set_same (x ∷ xs) zero v h = refl
  get_or-set_same (x ∷ xs) (suc i) v h = get_or-set_same xs i v (omega arith)

  get_or-set_other :
      (xs : List A) (i j : ℕ) (v : A) → i ≢ j → get_or (set xs i v) j d ≡ get_or xs j d
  get_or-set_other [] i j v h = refl
  get_or-set_other (x ∷ xs) zero zero v h = absurd (h refl)
  get_or-set_other (x ∷ xs) zero (suc j) v h = refl
  get_or-set_other (x ∷ xs) (suc i) zero v h = refl
  get_or-set_other (x ∷ xs) (suc i) (suc j) v h = get_or-set_other xs i j v (λ e. h (ap suc e))

  get_or-replicate : (n i : ℕ) → get_or (replicate n d) i d ≡ d
  get_or-replicate zero i = refl
  get_or-replicate (suc n) zero = refl
  get_or-replicate (suc n) (suc i) = get_or-replicate n i

  get_or-beyond : (xs : List A) (i : ℕ) → length xs ≤ i → get_or xs i d ≡ d
  get_or-beyond [] i h = refl
  get_or-beyond (x ∷ xs) zero h = absurd (omega arith)
  get_or-beyond (x ∷ xs) (suc i) h = get_or-beyond xs i (omega arith)

  -- A place that no element of a row from `j` on has.
  store_row-other :
      (n i j p : ℕ) (row v : List A)
      → ((k : ℕ) → j ≤ k → k * n + i ≢ p)
      → get_or (store_row n i j row v) p d ≡ get_or v p d
  unfolding store_row
  store_row-other n i j p [] v h = refl
  store_row-other n i j p (x ∷ row) v h =
      store_row-other n i (suc j) p row (set v (j * n + i) x) (λ k l. h k (omega arith))
      ∙ get_or-set_other v (j * n + i) p x (h j (omega arith))

  length-store_row : (n i j : ℕ) (row v : List A) → length (store_row n i j row v) ≡ length v
  unfolding store_row
  length-store_row n i j [] v = refl
  length-store_row n i j (x ∷ row) v =
      length-store_row n i (suc j) row (set v (j * n + i) x) ∙ length-set v (j * n + i) x

  -- A place of the row.
  store_row-nth :
      (n i j m k : ℕ) (row v : List A)
      → i < n
      → k ≡ j + m
      → m < length row
      → (j + length row) * n ≤ length v
      → get_or (store_row n i j row v) (k * n + i) d ≡ get_or row m d
  unfolding store_row
  store_row-nth n i j m k [] v h e l room = absurd (omega arith)
  store_row-nth n i j zero k (x ∷ row) v h e l room =
      let here : k ≡ j = omega arith in
      store_row-other n i (suc j) (k * n + i) row (set v (j * n + i) x)
        (λ c b q. absurd (omega (arith, same_column n c k i (omega arith) q)))
      ∙ ap (λ c. get_or (set v (j * n + i) x) (c * n + i) d) here
      ∙ get_or-set_same v (j * n + i) x (omega arith)
  store_row-nth n i j (suc m) k (x ∷ row) v h e l room =
      store_row-nth n i (suc j) m k row (set v (j * n + i) x) h (omega arith) (omega arith)
        (omega (arith, length-set v (j * n + i) x))

  -- The rows from `i` on leave the places of those before.
  store_rows-before :
      (n i m k : ℕ) (rows : List (List A)) (v : List A)
      → m < i
      → i + length rows ≤ n
      → get_or (store_rows n i rows v) (k * n + m) d ≡ get_or v (k * n + m) d
  unfolding store_rows
  store_rows-before n i m k [] v h room = refl
  store_rows-before n i m k (row ∷ rows) v h room =
      store_rows-before n (suc i) m k rows (store_row n i 0 row v) (omega arith) (omega arith)
      ∙ store_row-other n i 0 (k * n + m) row v
          (λ c b q. absurd (omega (arith, same_row n c k i m (omega arith) (omega arith) q)))

  -- No row is longer than `most`.
  abbrev pub rows_at_most : (most : ℕ) → List (List A) → Bool
  rows_at_most most [] = true
  rows_at_most most (row ∷ rows) = leb (length row) most && rows_at_most most rows

  -- A row that is too short leaves a place.
  store_row-short :
      (n i j k : ℕ) (row v : List A)
      → 0 < n
      → j + length row ≤ k
      → get_or (store_row n i j row v) (k * n + i) d ≡ get_or v (k * n + i) d
  unfolding store_row
  store_row-short n i j k [] v h l = refl
  store_row-short n i j k (x ∷ row) v h l =
      store_row-short n i (suc j) k row (set v (j * n + i) x) h (omega arith)
      ∙ get_or-set_other v (j * n + i) (k * n + i) x
          (λ q. absurd (omega (arith, same_column n j k i h q)))

  store_rows-nth :
      (n i m q k most : ℕ) (rows : List (List A)) (v : List A)
      → q ≡ i + m
      → i + length rows ≤ n
      → m < length rows
      → k < most
      → rows_at_most most rows ≡ true
      → most * n ≤ length v
      → get_or v (k * n + q) d ≡ d
      → get_or (store_rows n i rows v) (k * n + q) d ≡ get_or (get_or rows m []) k d
  unfolding store_rows
  store_rows-nth n i m q k most [] v p room h c r w o = absurd (omega arith)
  store_rows-nth n i zero q k most (row ∷ rows) v p room h c r w o =
      let here : q ≡ i = omega arith in
      let fit : length row * n ≤ most * n = mul-le-mul_right n (ground arith) in
      store_rows-before n (suc i) q k rows (store_row n i 0 row v) (omega arith) (omega arith)
      ∙ ap (λ j. get_or (store_row n i 0 row v) (k * n + j) d) here
      ∙ elim (Bool-cases (ltb k (length row))) [
        | inl inside ↦
            store_row-nth n i 0 k k row v (omega arith) (omega arith) (ground arith)
              (omega (arith, fit))
        | inr beyond ↦
            store_row-short n i 0 k row v (omega arith) (ground arith)
            ∙ ap (λ j. get_or v (k * n + j) d) (sym here)
            ∙ o
            ∙ sym (get_or-beyond row k (ground arith))
      ]
  store_rows-nth n i (suc m) q k most (row ∷ rows) v p room h c r w o =
      store_rows-nth n (suc i) m q k most rows (store_row n i 0 row v) (omega arith) (omega arith)
        (omega arith) c (ground arith) (omega (arith, length-store_row n i 0 row v))
        (store_row-other n i 0 (k * n + q) row v
            (λ j b t. absurd (omega (arith, same_row n j k i q (omega arith) (omega arith) t)))
          ∙ o)

  length-store_rows :
      (n i : ℕ) (rows : List (List A)) (v : List A) → length (store_rows n i rows v) ≡ length v
  unfolding store_rows
  length-store_rows n i [] v = refl
  length-store_rows n i (row ∷ rows) v =
      length-store_rows n (suc i) rows (store_row n i 0 row v) ∙ length-store_row n i 0 row v

  -- Where the first row is the longest, the transposed list has, for each column, an element of every
  -- row: the one in this column or, where the row is too short, the default.
  pub transpose-element :
      (input : List (List A)) (row column : ℕ)
      → rows_at_most (length (front_row input)) input ≡ true
      → row < length input
      → column < length (front_row input)
      → (length (transpose d input) ≡ length input * length (front_row input))
        × (get_or (transpose d input) (column * length input + row) d
            ≡ get_or (get_or input row []) column d)
  unfolding transpose
  transpose-element input row column r h c =
      let n = length input in
      let most = length (front_row input) in
      let v = replicate (n * most) d in
      let size : length v ≡ n * most = length-replicate (n * most) d in
      (
        length-store_rows n 0 input v ∙ size,
        store_rows-nth n 0 row row column most input v (omega arith) (omega arith) h c r
            (omega (arith, size, mul_comm n most)) (get_or-replicate (n * most) (column * n + row)),
      )

-- The number of sizes that are at least `i`.
abbrev pub count_at_least : ℕ → List ℕ → ℕ
count_at_least i [] = 0
count_at_least i (size ∷ sizes) =
    let later = count_at_least i sizes in if leb i size then suc later else later

abbrev pub none_above : ℕ → List ℕ → Bool
none_above m [] = true
none_above m (size ∷ sizes) = leb size m && none_above m sizes

abbrev pub descending : List ℕ → Bool
descending [] = true
descending (size ∷ sizes) = none_above size sizes && descending sizes

count_at_least-none :
    (i m : ℕ) (sizes : List ℕ) → none_above m sizes ≡ true → m < i → count_at_least i sizes ≡ 0
count_at_least-none i m [] h l = refl
count_at_least-none i m (size ∷ sizes) h l =
    ground (arith, count_at_least-none i m sizes (ground arith) l)

sets_of_size-count :
    (i j : ℕ) (sizes : List ℕ)
    → descending sizes ≡ true
    → sets_of_size i sizes j ≡ j + count_at_least i sizes
unfolding sets_of_size
sets_of_size-count i j [] h = omega arith
sets_of_size-count i j (size ∷ sizes) h = elim (Bool-cases (leb i size)) [
  | inl large ↦ ground (arith, sets_of_size-count i (suc j) sizes (ground arith))
  | inr small ↦ ground (arith, count_at_least-none i size sizes (ground arith) (ground arith))
]

fill_num_sets-nth :
    (left i m k : ℕ) (sizes : List ℕ)
    → k ≡ i + m
    → m < left
    → descending sizes ≡ true
    → get_or (fill_num_sets left i sizes) m 0 ≡ count_at_least k sizes
unfolding fill_num_sets
fill_num_sets-nth zero i m k sizes e l h = absurd (omega arith)
fill_num_sets-nth (suc left) i zero k sizes e l h =
    let here : i ≡ k = omega arith in
    sets_of_size-count i 0 sizes h ∙ ap (λ n. 0 + count_at_least n sizes) here ∙ omega arith
fill_num_sets-nth (suc left) i (suc m) k sizes e l h =
    fill_num_sets-nth left (suc i) m k sizes (omega arith) (omega arith) h

-- For sets that are sorted by size, the largest first, the number that is kept for a size, up to the
-- largest one, is that of the sets with at least so many elements.
pub get_num_sets_of_size-count :
    (sizes : List ℕ) (i : ℕ)
    → descending sizes ≡ true
    → i ≤ get_largest_set_size sizes
    → get_or (get_num_sets_of_size sizes) i 0 ≡ count_at_least i sizes
unfolding get_num_sets_of_size
get_num_sets_of_size-count sizes i h l =
    fill_num_sets-nth (suc (get_largest_set_size sizes)) 0 i i sizes (omega arith) (omega arith) h
