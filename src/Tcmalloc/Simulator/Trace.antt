-- ===== src/Tcmalloc/Simulator/Trace.antt =====
-- empirical.cc: the vectors of the recorded trace stay in step with each other and with the lists of
-- live objects.
use fleetbench.Prelude.{
  ℕ, zero, suc, ◌+◌, ◌-◌, ◌%◌, ◌^◌, ◌≡◌, ◌<◌, refl, sym, ap, ◌∙◌, Bool, true, false, List, [], ◌∷◌,
  ◌++◌, ◌==◌, if_cases, Run, done, length, get_or, length-append, arith,
}
use fleetbench.Tcmalloc.Simulator.{
  World, SizeState, modify, Empirical, no_size, no_index, size_at, live_count, record_birth,
  record_death,
}
use fleetbench.Tcmalloc.Simulator.Repair.{length-swap_out}

-- How many of the operations are births, and how many are deaths.
abbrev pub births : List Bool → ℕ
births [] = 0
births (true ∷ ops) = suc (births ops)
births (false ∷ ops) = births ops

abbrev pub deaths : List Bool → ℕ
deaths [] = 0
deaths (true ∷ ops) = deaths ops
deaths (false ∷ ops) = suc (deaths ops)

births_birth : (ops : List Bool) → births (ops ++ true ∷ []) ≡ births ops + 1
births_birth [] = refl
births_birth (true ∷ ops) = omega (arith, births_birth ops)
births_birth (false ∷ ops) = births_birth ops

births_death : (ops : List Bool) → births (ops ++ false ∷ []) ≡ births ops
births_death [] = refl
births_death (true ∷ ops) = ap suc (births_death ops)
births_death (false ∷ ops) = births_death ops

deaths_birth : (ops : List Bool) → deaths (ops ++ true ∷ []) ≡ deaths ops
deaths_birth [] = refl
deaths_birth (true ∷ ops) = deaths_birth ops
deaths_birth (false ∷ ops) = ap suc (deaths_birth ops)

deaths_death : (ops : List Bool) → deaths (ops ++ false ∷ []) ≡ deaths ops + 1
deaths_death [] = refl
deaths_death (true ∷ ops) = deaths_death ops
deaths_death (false ∷ ops) = omega (arith, deaths_death ops)

-- What holds of every element, and of what it is changed to, holds after the change.
pub get_or-modify {ℓ κ} :
    {A : Type ℓ} (P : A → Type κ) (f : A → A) (d : A)
    → ((a : A) → P a → P (f a))
    → (xs : List A) (i : ℕ) → ((j : ℕ) → P (get_or xs j d))
    → (j : ℕ) → P (get_or (modify xs i f) j d)
get_or-modify P f d g [] i h j = h j
get_or-modify P f d g (x ∷ xs) zero h zero = g x (h 0)
get_or-modify P f d g (x ∷ xs) zero h (suc j) = h (suc j)
get_or-modify P f d g (x ∷ xs) (suc i) h zero = h 0
get_or-modify P f d g (x ∷ xs) (suc i) h (suc j) = get_or-modify P f d g xs i (λ k. h (suc k)) j

module _ (e : World) where
  abbrev pub Matched : SizeState e.weights.Weight → Type 0
  Matched s = length s.objs_indices_after_recording ≡ length s.objs

  pub record InStep (d : Empirical e) : Type 0 where
    pub classes : length d.birth_or_death_sizes ≡ length d.birth_or_death
    pub sizes : length d.birth_or_death_actual_sizes ≡ length d.birth_or_death
    pub born : d.birth_object_index ≡ births d.birth_or_death % 2 ^ 32
    pub died : length d.death_obj_indices ≡ deaths d.birth_or_death
    pub objects : (i : ℕ) → Matched (size_at e d.state i)

  -- Recording a birth keeps the trace in step: the three vectors of operations equally long, the birth
  -- index the number of births modulo 2^32, one object index for each death, and one for each live
  -- object.
  pub record_birth-InStep : (d : Empirical e) (i : ℕ) → InStep d → InStep (record_birth e d i)
  unfolding record_birth
  record_birth-InStep d i v = record {
    classes = omega (
      arith,
      v.classes,
      length-append d.birth_or_death_sizes (i % 2 ^ 16 ∷ []),
      length-append d.birth_or_death (true ∷ []),
    );
    sizes = omega (
      arith,
      v.sizes,
      length-append d.birth_or_death_actual_sizes ((size_at e d.state i).size ∷ []),
      length-append d.birth_or_death (true ∷ []),
    );
    born = omega (arith, v.born, births_birth d.birth_or_death);
    died = v.died ∙ sym (deaths_birth d.birth_or_death);
    objects =
        get_or-modify Matched _ (no_size e)
          (λ s m.
            length-append s.objs_indices_after_recording _
            ∙ ap (λ n. n + 1) m
            ∙ sym (length-append s.objs (0 ∷ [])))
          d.state i v.objects;
  }

  abbrev Recorded : Run (Empirical e) → Type 0
  Recorded o = (d' : Empirical e) × (o ≡ done d') × InStep d'

  -- Recording a death in a size class that has a live object returns, whatever is drawn, and keeps the
  -- trace in step as a birth does.
  pub record_death-InStep :
      (d : Empirical e) (i : ℕ)
      → InStep d
      → 0 < live_count e d i
      → (d' : Empirical e) × (record_death e d i ≡ done d') × InStep d'
  unfolding record_death
  record_death-InStep d i v pos =
      if_cases Recorded (live_count e d i == 0) _ _ (λ none. absurd (ground arith))
        (λ _. (
          _,
          refl,
          record {
            classes = omega (
              arith,
              v.classes,
              length-append d.birth_or_death_sizes (i % 2 ^ 16 ∷ []),
              length-append d.birth_or_death (false ∷ []),
            );
            sizes = omega (
              arith,
              v.sizes,
              length-append d.birth_or_death_actual_sizes ((size_at e d.state i).size ∷ []),
              length-append d.birth_or_death (false ∷ []),
            );
            born = v.born ∙ ap (λ n. n % 2 ^ 32) (sym (births_death d.birth_or_death));
            died =
                length-append d.death_obj_indices _
                ∙ ap (λ n. n + 1) v.died
                ∙ sym (deaths_death d.birth_or_death);
            objects =
                get_or-modify Matched _ (no_size e)
                  (λ s m.
                    length-swap_out s.objs_indices_after_recording _ (no_index e)
                    ∙ ap (λ n. n - 1) m
                    ∙ sym (length-swap_out s.objs _ 0))
                  d.state i v.objects;
          },
        ))
