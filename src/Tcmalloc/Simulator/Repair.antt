-- ===== src/Tcmalloc/Simulator/Repair.antt =====
-- empirical.cc: `RecordRepairToSnapshotState` brings every size class back to its number of objects.
use fleetbench.Prelude.{
  ℕ, zero, suc, ◌+◌, ◌-◌, ◌≡◌, ◌≢◌, ◌≤◌, ◌<◌, refl, ap, ◌∙◌, subst, List, [], ◌∷◌, ltb, ◌==◌,
  ltb→lt, ltb→ge, inl, inr, Bool-cases, if_cases, Run, done, ◌>>=◌, length, get_or, set,
  length-append, length-take, length-set, arith,
}
use fleetbench.Tcmalloc.Simulator.{
  World, SizeState, modify, swap_out, Empirical, no_size, size_at, live_count, snapshot_count,
  record_birth, record_death, repair_births, repair_deaths, repair_size, repair_from,
  record_repair_to_snapshot_state,
}

module _ {ℓ} {A : Type ℓ} where
  length-modify : (xs : List A) (i : ℕ) (f : A → A) → length (modify xs i f) ≡ length xs
  length-modify [] i f = refl
  length-modify (x ∷ xs) zero f = refl
  length-modify (x ∷ xs) (suc i) f = ap suc (length-modify xs i f)

  get_or-modify_same :
      (xs : List A) (i : ℕ) (f : A → A) (d : A)
      → i < length xs
      → get_or (modify xs i f) i d ≡ f (get_or xs i d)
  get_or-modify_same [] i f d h = absurd (omega arith)
  get_or-modify_same (x ∷ xs) zero f d h = refl
  get_or-modify_same (x ∷ xs) (suc i) f d h = get_or-modify_same xs i f d (omega arith)

  get_or-modify_other :
      (xs : List A) (i j : ℕ) (f : A → A) (d : A)
      → i ≢ j
      → get_or (modify xs i f) j d ≡ get_or xs j d
  get_or-modify_other [] i j f d h = refl
  get_or-modify_other (x ∷ xs) zero zero f d h = absurd (h refl)
  get_or-modify_other (x ∷ xs) zero (suc j) f d h = refl
  get_or-modify_other (x ∷ xs) (suc i) zero f d h = refl
  get_or-modify_other (x ∷ xs) (suc i) (suc j) f d h =
      get_or-modify_other xs i j f d (λ p. h (ap suc p))

  pub length-swap_out : (xs : List A) (to : ℕ) (d : A) → length (swap_out xs to d) ≡ length xs - 1
  length-swap_out xs to d =
      let back = get_or xs (length xs - 1) d in
      omega (arith, length-take (length xs - 1) (set xs to back), length-set xs to back)

module _ (e : World) where
  -- From `d` to `d'` only the live objects of size class `i` have changed.
  record Touches (i : ℕ) (d d' : Empirical e) : Type 0 where
    same_snapshot : d'.snapshot_state ≡ d.snapshot_state
    same_sizes : length d'.state ≡ length d.state
    same_others : (j : ℕ) → i ≢ j → live_count e d' j ≡ live_count e d j

  Touches-refl : (i : ℕ) (d : Empirical e) → Touches i d d
  Touches-refl i d = record { same_snapshot = refl; same_sizes = refl; same_others = λ j h. refl }

  Touches-trans : (i : ℕ) (a b c : Empirical e) → Touches i a b → Touches i b c → Touches i a c
  Touches-trans i a b c p q = record {
    same_snapshot = q.same_snapshot ∙ p.same_snapshot;
    same_sizes = q.same_sizes ∙ p.same_sizes;
    same_others = λ j h. q.same_others j h ∙ p.same_others j h;
  }

  modified :
      (i : ℕ) (d d' : Empirical e) (f : SizeState e.weights.Weight → SizeState e.weights.Weight)
      → d'.snapshot_state ≡ d.snapshot_state
      → d'.state ≡ modify d.state i f
      → i < length d.state
      → Touches i d d' × (live_count e d' i ≡ length (f (size_at e d.state i)).objs)
  modified i d d' f s h k = (
    record {
      same_snapshot = s;
      same_sizes = ap length h ∙ length-modify d.state i f;
      same_others = λ j off.
          ap (λ (state : List (SizeState e.weights.Weight)). length (size_at e state j).objs) h
          ∙ ap (λ (t : SizeState e.weights.Weight). length t.objs)
              (get_or-modify_other d.state i j f (no_size e) off);
    },
    ap (λ (state : List (SizeState e.weights.Weight)). length (size_at e state i).objs) h
        ∙ ap (λ (t : SizeState e.weights.Weight). length t.objs)
            (get_or-modify_same d.state i f (no_size e) k),
  )

  record_birth-grows :
      (d : Empirical e) (i : ℕ)
      → i < length d.state
      → Touches i d (record_birth e d i)
        × (live_count e (record_birth e d i) i ≡ live_count e d i + 1)
  unfolding record_birth
  record_birth-grows d i h =
      let (t, c) = modified i d (record_birth e d i) _ refl refl h in
      (t, c ∙ length-append (size_at e d.state i).objs (0 ∷ []))

  record_death-shrinks :
      (d : Empirical e) (i : ℕ)
      → i < length d.state
      → 0 < live_count e d i
      → (d' : Empirical e) × (record_death e d i ≡ done d')
        × Touches i d d'
        × (live_count e d' i + 1 ≡ live_count e d i)
  unfolding record_death
  record_death-shrinks d i h pos =
      if_cases
        (λ o.
          (d' : Empirical e) × (o ≡ done d')
          × Touches i d d'
          × (live_count e d' i + 1 ≡ live_count e d i))
        (live_count e d i == 0) _ _ (λ z. absurd (ground arith))
        (λ _.
          let (t, c) = modified i d _ _ refl refl h in
          (_, refl, t, omega (arith, c, length-swap_out (size_at e d.state i).objs _ 0)))

  repair_births-reaches :
      (fuel : ℕ) (d : Empirical e) (i : ℕ)
      → i < length d.state
      → snapshot_count e d i ≤ fuel + live_count e d i
      → (d' : Empirical e) × (repair_births e fuel d i ≡ done d')
        × Touches i d d'
        × (snapshot_count e d i ≤ live_count e d' i)
  unfolding repair_births
  repair_births-reaches zero d i h f =
      if_cases
        (λ o.
          (d' : Empirical e) × (o ≡ done d')
          × Touches i d d'
          × (snapshot_count e d i ≤ live_count e d' i))
        (ltb (live_count e d i) (snapshot_count e d i)) _ _ (λ z. absurd (ground arith))
        (λ z. (d, refl, Touches-refl i d, ltb→ge _ _ z))
  repair_births-reaches (suc fuel) d i h f =
      if_cases
        (λ o.
          (d' : Empirical e) × (o ≡ done d')
          × Touches i d d'
          × (snapshot_count e d i ≤ live_count e d' i))
        (ltb (live_count e d i) (snapshot_count e d i)) _ _
        (λ z.
          let (t, c) = record_birth-grows d i h in
          let same : snapshot_count e (record_birth e d i) i ≡ snapshot_count e d i =
            ap (λ (x : List (SizeState e.weights.Weight)). length (size_at e x i).objs)
              t.same_snapshot in
          let (d', r, t', g) =
            repair_births-reaches fuel (record_birth e d i) i (omega (arith, t.same_sizes))
              (omega (arith, same, c)) in
          (d', r, Touches-trans i d _ d' t t', omega (arith, same, g)))
        (λ z. (d, refl, Touches-refl i d, ltb→ge _ _ z))

  abbrev Levels : (d : Empirical e) (i : ℕ) → Run (Empirical e) → Type 0
  Levels d i o =
      (d' : Empirical e) × (o ≡ done d')
      × Touches i d d'
      × (live_count e d' i ≡ snapshot_count e d i)

  snapshot-same :
      (i j : ℕ) (d d' : Empirical e) → Touches i d d' → snapshot_count e d' j ≡ snapshot_count e d j
  snapshot-same i j d d' t =
      ap (λ (x : List (SizeState e.weights.Weight)). length (size_at e x j).objs) t.same_snapshot

  repair_deaths-Levels :
      (fuel : ℕ) (d : Empirical e) (i : ℕ)
      → i < length d.state
      → snapshot_count e d i ≤ live_count e d i
      → live_count e d i ≤ fuel + snapshot_count e d i
      → Levels d i (repair_deaths e fuel d i)
  unfolding repair_deaths
  repair_deaths-Levels zero d i h up f =
      if_cases (Levels d i) (ltb (snapshot_count e d i) (live_count e d i)) _ _
        (λ z. absurd (ground arith)) (λ z. (d, refl, Touches-refl i d, omega arith))
  repair_deaths-Levels (suc fuel) d i h up f =
      if_cases (Levels d i) (ltb (snapshot_count e d i) (live_count e d i)) _ _
        (λ z.
          let more = ltb→lt (snapshot_count e d i) (live_count e d i) z in
          let (d1, r1, t1, c1) = record_death-shrinks d i h (omega arith) in
          let same = snapshot-same i i d d1 t1 in
          let (d2, r2, t2, c2) =
            repair_deaths-Levels fuel d1 i (omega (arith, t1.same_sizes)) (omega (arith, same, c1))
              (omega (arith, same, c1)) in
          (
            d2,
            ap (λ o. o >>= λ d'. repair_deaths e fuel d' i) r1 ∙ r2,
            Touches-trans i d d1 d2 t1 t2,
            c2 ∙ same,
          ))
        (λ z. (d, refl, Touches-refl i d, ground arith))

  repair_size-Levels :
      (d : Empirical e) (i : ℕ) → i < length d.state → Levels d i (repair_size e d i)
  unfolding repair_size
  repair_size-Levels d i h =
      let (d1, r1, t1, c1) = repair_births-reaches (snapshot_count e d i) d i h (omega arith) in
      let same = snapshot-same i i d d1 t1 in
      let (d2, r2, t2, c2) =
        repair_deaths-Levels (live_count e d1 i) d1 i (omega (arith, t1.same_sizes))
          (omega (arith, same, c1)) (omega arith) in
      (
        d2,
        ap (λ o. o >>= λ d'. repair_deaths e (live_count e d' i) d' i) r1 ∙ r2,
        Touches-trans i d d1 d2 t1 t2,
        c2 ∙ same,
      )

  repair_from-levels :
      (count i : ℕ) (d : Empirical e)
      → i + count ≡ length d.state
      → (d' : Empirical e) × (repair_from e count i d ≡ done d')
        × ((j : ℕ) → j < i → live_count e d' j ≡ live_count e d j)
        × ((j : ℕ) → i ≤ j → j < length d.state → live_count e d' j ≡ snapshot_count e d j)
  unfolding repair_from
  repair_from-levels zero i d h = (d, refl, λ j k. refl, λ j k l. absurd (omega arith))
  repair_from-levels (suc count) i d h =
      let (d1, r1, t1, c1) = repair_size-Levels d i (omega arith) in
      let (d2, r2, low, high) =
        repair_from-levels count (suc i) d1 (omega (arith, t1.same_sizes)) in
      let at : (j : ℕ) → i ≤ j → j < length d.state → live_count e d2 j ≡ snapshot_count e d j =
        λ j k l. elim (Bool-cases (i == j)) [
          | inl here ↦
              let same : i ≡ j = ground arith in
              subst (λ m. live_count e d2 m ≡ snapshot_count e d m) same (low i (omega arith) ∙ c1)
          | inr away ↦
              high j (ground arith) (omega (arith, t1.same_sizes)) ∙ snapshot-same i j d d1 t1
        ] in
      (
        d2,
        ap (λ o. o >>= repair_from e count (suc i)) r1 ∙ r2,
        λ j k. low j (omega arith) ∙ t1.same_others j (omega arith),
        at,
      )

  -- The repair ends, whatever is drawn, and leaves every size class with as many live objects as the
  -- snapshot has of it.
  pub record_repair_to_snapshot_state-levels :
      (d : Empirical e)
      → (d' : Empirical e) × (record_repair_to_snapshot_state e d ≡ done d')
        × ((i : ℕ) → i < length d.state → live_count e d' i ≡ snapshot_count e d i)
  unfolding record_repair_to_snapshot_state
  record_repair_to_snapshot_state-levels d =
      let (d', r, low, high) = repair_from-levels (length d.state) 0 d (omega arith) in
      (d', r, λ i h. high i (omega arith) h)
