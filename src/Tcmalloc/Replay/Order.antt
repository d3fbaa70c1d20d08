-- ===== src/Tcmalloc/Replay/Order.antt =====
-- empirical.cc: while a trace is recorded, an object that was there before never moves to the right, so
-- that the updates after a replay can be made in place.
use fleetbench.Prelude.{
  ℕ, zero, suc, ◌+◌, ◌-◌, ◌≤◌, ◌<◌, ◌≡◌, ◌≢◌, refl, sym, ap, ◌∙◌, subst, true, ◌||◌, List, [], ◌∷◌,
  ◌++◌, ltb, leb, ◌==◌, if_cases, Bool-cases, inl, inr, Run, done, fatal, >>=-eq-done, length,
  length-append, get_or, set, take, arith,
}
use fleetbench.Tcmalloc.Sampler.{total_weight, sample_weight}
use fleetbench.Tcmalloc.Simulator.{
  World, ObjectIndex, SizeState, swap_out, Empirical, no_size, no_index, size_at, record_birth,
  record_death, record_next,
}
use fleetbench.Tcmalloc.Simulator.Repair.{length-swap_out}
use fleetbench.Tcmalloc.Simulator.Trace.{get_or-modify, Matched}
use fleetbench.Tcmalloc.Replay.Advance.{leftward}

leftward-push :
    (i : ℕ) (xs : List ObjectIndex) (at : ObjectIndex)
    → leftward i xs ≡ true
    → at.born ≡ true
    → leftward i (xs ++ at ∷ []) ≡ true
leftward-push i [] at h b = ground arith
leftward-push i (x ∷ xs) at h b = ground (arith, leftward-push (suc i) xs at (ground arith) b)

leftward-take :
    (i n : ℕ) (xs : List ObjectIndex) → leftward i xs ≡ true → leftward i (take n xs) ≡ true
leftward-take i zero xs h = refl
leftward-take i (suc n) [] h = refl
leftward-take i (suc n) (x ∷ xs) h = ground (arith, leftward-take (suc i) n xs (ground arith))

leftward-set :
    (i k : ℕ) (xs : List ObjectIndex) (at : ObjectIndex)
    → leftward i xs ≡ true
    → (at.born || leb (i + k) at.index) ≡ true
    → leftward i (set xs k at) ≡ true
leftward-set i k [] at h b = refl
leftward-set i zero (x ∷ xs) at h b = ground arith
leftward-set i (suc k) (x ∷ xs) at h b =
    ground (arith, leftward-set (suc i) k xs at (ground arith) (ground arith))

leftward-get :
    (i k : ℕ) (xs : List ObjectIndex) (d : ObjectIndex)
    → leftward i xs ≡ true
    → k < length xs
    → ((get_or xs k d).born || leb (i + k) (get_or xs k d).index) ≡ true
leftward-get i k [] d h l = absurd (omega arith)
leftward-get i zero (x ∷ xs) d h l = ground arith
leftward-get i (suc k) (x ∷ xs) d h l =
    ground (arith, leftward-get (suc i) k xs d (ground arith) (omega arith))

set-beyond : (xs : List ObjectIndex) (k : ℕ) (at : ObjectIndex) → length xs ≤ k → set xs k at ≡ xs
set-beyond [] k at h = refl
set-beyond (x ∷ xs) zero at h = absurd (omega arith)
set-beyond (x ∷ xs) (suc k) at h = ap (◌∷◌ x) (set-beyond xs k at (omega arith))

done-injective : {A : Type 0} {x y : A} → done x ≡ done y → x ≡ y
done-injective e = cc

fatal-ne-done : {A : Type 0} {x : A} → fatal ≢ done x
fatal-ne-done e = cc

-- The last object goes to the left.
leftward-swap_out :
    (xs : List ObjectIndex) (to : ℕ) (d : ObjectIndex)
    → leftward 0 xs ≡ true
    → leftward 0 (swap_out xs to d) ≡ true
leftward-swap_out xs to d h =
    let back = get_or xs (length xs - 1) d in
    leftward-take 0 (length xs - 1) (set xs to back) (elim (Bool-cases (ltb to (length xs))) [
      | inl inside ↦
          leftward-set 0 to xs back h
            (ground (arith, leftward-get 0 (length xs - 1) xs d h (ground arith)))
      | inr beyond ↦ ap (leftward 0) (set-beyond xs to back (ground arith)) ∙ h
    ])

module _ (e : World) where
  -- An index for each live object of a size class, with the objects that were there before the
  -- recording not before their old places.
  abbrev pub InOrder : SizeState e.weights.Weight → Type 0
  InOrder s = (leftward 0 s.objs_indices_after_recording ≡ true) × Matched e s

  abbrev pub AllInOrder : Empirical e → Type 0
  AllInOrder d = (i : ℕ) → InOrder (size_at e d.state i)

  record_birth-AllInOrder :
      (d : Empirical e) (i : ℕ) → AllInOrder d → AllInOrder (record_birth e d i)
  unfolding record_birth
  record_birth-AllInOrder d i v =
      get_or-modify InOrder _ (no_size e)
        (λ s (o, m). (
          leftward-push 0 s.objs_indices_after_recording _ o refl,
          length-append s.objs_indices_after_recording _
              ∙ ap (λ n. n + 1) m
              ∙ sym (length-append s.objs (0 ∷ [])),
        ))
        d.state i v

  record_death-AllInOrder :
      (d d' : Empirical e) (i : ℕ) → AllInOrder d → record_death e d i ≡ done d' → AllInOrder d'
  unfolding record_death
  record_death-AllInOrder d d' i v r =
      if_cases (λ (o : Run (Empirical e)). o ≡ done d' → AllInOrder d')
        (length (size_at e d.state i).objs == 0) _ _ (λ _ f. absurd (fatal-ne-done f))
        (λ _ f. subst AllInOrder (done-injective f) (
          get_or-modify InOrder _ (no_size e)
            (λ s (o, m). (
              leftward-swap_out s.objs_indices_after_recording _ (no_index e) o,
              length-swap_out s.objs_indices_after_recording _ (no_index e)
                  ∙ ap (λ n. n - 1) m
                  ∙ sym (length-swap_out s.objs _ 0),
            ))
            d.state i v))
        r

  -- Recording the next operation, whichever it is, keeps the objects of every size class in order.
  pub record_next-AllInOrder :
      (d d' : Empirical e) → AllInOrder d → record_next e d ≡ done d' → AllInOrder d'
  unfolding record_next
  record_next-AllInOrder d d' v r =
      let total = total_weight e.weights d.death_sampler in
      let which = e.uniform_real (e.weights.plus d.total_birth_rate total) d.rng in
      let birth = e.discrete d.birth_rates which.1 in
      let x = e.uniform_real total which.1 in
      if_cases (λ (o : Run (Empirical e)). o ≡ done d' → AllInOrder d')
        (e.below which.0 d.total_birth_rate) _ _
        (λ _ f.
          subst AllInOrder (done-injective f)
            (record_birth-AllInOrder (record d { rng = birth.1 }) birth.0 v))
        (λ _ f.
          let (i, _, later) =
            >>=-eq-done (sample_weight e.weights d.death_sampler x.0)
              (record_death e (record d { rng = x.1 })) f in
          record_death-AllInOrder (record d { rng = x.1 }) d' i v later)
        r
