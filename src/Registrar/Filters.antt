-- ===== src/Registrar/Filters.antt =====
-- dynamic_registrar.cc: the default filter is the disjunction of the filters that were added.
use fleetbench.Prelude.{
  ℕ, ◌≡◌, refl, sym, ap, ◌∙◌, Bool, true, false, List, [], ◌∷◌, ◌++◌, append_assoc, append-nil,
  Bytes, if◌then◌else◌, if_cases,
}
use fleetbench.Registrar.{
  ThreadingMode, single_threaded, multi_threaded, both, bar, DynamicRegistrar, append_filter,
  for_single, for_multi, empty_registrar, add_callback, call_all, run, add_default_filter,
  get_default_filter,
}

-- The calls of `AddDefaultFilter`, in order.
abbrev pub Adds : Type 0
Adds = List (Bytes × ThreadingMode)

abbrev pub add_all : {S : Type 0} → DynamicRegistrar S → Adds → DynamicRegistrar S
add_all r [] = r
add_all r ((filter, mode) ∷ adds) = add_all (add_default_filter r filter mode) adds

-- The filters of the calls whose mode passes the test.
abbrev pub selected : (ThreadingMode → Bool) → Adds → List Bytes
selected test [] = []
selected test ((filter, mode) ∷ adds) =
    if test mode then filter ∷ selected test adds else selected test adds

abbrev pub none_empty : Adds → Bool
none_empty [] = true
none_empty (([], mode) ∷ adds) = false
none_empty ((c ∷ filter, mode) ∷ adds) = none_empty adds

abbrev pub barred : List Bytes → Bytes
barred [] = []
barred (f ∷ fs) = bar ++ f ++ barred fs

-- The filters with a bar between each two.
abbrev pub disjunction : List Bytes → Bytes
disjunction [] = []
disjunction (f ∷ fs) = f ++ barred fs

-- What a filter that is `old` becomes.
abbrev grown : (old : Bytes) → List Bytes → Bytes
grown old [] = old
grown old (f ∷ fs) = grown (append_filter old f) fs

grown-full : (c : ℕ) (old : Bytes) (fs : List Bytes) → grown (c ∷ old) fs ≡ (c ∷ old) ++ barred fs
grown-full c old [] = sym (append-nil (c ∷ old))
grown-full c old (f ∷ fs) = grown-full c (old ++ bar ++ f) fs ∙ simp append_assoc refl

grown-disjunction :
    (test : ThreadingMode → Bool) (adds : Adds)
    → none_empty adds ≡ true
    → grown [] (selected test adds) ≡ disjunction (selected test adds)
grown-disjunction test [] h = refl
grown-disjunction test (([], mode) ∷ adds) h = cc
grown-disjunction test ((c ∷ filter, mode) ∷ adds) h =
    if_cases (λ fs. grown [] fs ≡ disjunction fs) (test mode) _ _
      (λ _. grown-full c filter (selected test adds)) (λ _. grown-disjunction test adds h)

module _ (S : Type 0) where
  add_all-grown :
      (r : DynamicRegistrar S) (adds : Adds)
      → ((add_all r adds).default_single_threaded_filter
          ≡ grown r.default_single_threaded_filter (selected for_single adds))
        × ((add_all r adds).default_multi_threaded_filter
            ≡ grown r.default_multi_threaded_filter (selected for_multi adds))
  unfolding add_default_filter
  add_all-grown r [] = (refl, refl)
  add_all-grown r ((filter, single_threaded) ∷ adds) =
      add_all-grown (add_default_filter r filter single_threaded) adds
  add_all-grown r ((filter, multi_threaded) ∷ adds) =
      add_all-grown (add_default_filter r filter multi_threaded) adds
  add_all-grown r ((filter, both) ∷ adds) = add_all-grown (add_default_filter r filter both) adds

  -- The default filter of either mode is the disjunction of the filters that were added for it, if
  -- none of them is empty.
  pub get_default_filter-disjunction :
      (adds : Adds)
      → none_empty adds ≡ true
      → (get_default_filter (add_all (empty_registrar {S = S}) adds) single_threaded
          ≡ disjunction (selected for_single adds))
        × (get_default_filter (add_all (empty_registrar {S = S}) adds) multi_threaded
            ≡ disjunction (selected for_multi adds))
  unfolding get_default_filter
  get_default_filter-disjunction adds h =
      let (s, m) = add_all-grown empty_registrar adds in
      (s ∙ grown-disjunction for_single adds h, m ∙ grown-disjunction for_multi adds h)

  abbrev add_callbacks : DynamicRegistrar S → List (S → S) → DynamicRegistrar S
  add_callbacks r [] = r
  add_callbacks r (f ∷ fs) = add_callbacks (add_callback r f) fs

  add_callbacks-append :
      (r : DynamicRegistrar S) (fs : List (S → S))
      → (add_callbacks r fs).callbacks ≡ r.callbacks ++ fs
  unfolding add_callback
  add_callbacks-append r [] = sym (append-nil r.callbacks)
  add_callbacks-append r (f ∷ fs) =
      add_callbacks-append (add_callback r f) fs ∙ append_assoc r.callbacks (f ∷ []) fs

  -- A run calls the callbacks that were added, each once, in the order of their addition, and a second
  -- run calls none.
  run-once :
      (fs : List (S → S)) (s : S)
      → ((run (add_callbacks empty_registrar fs) s).1 ≡ call_all fs s)
        × ((t : S) → (run (run (add_callbacks empty_registrar fs) s).0 t).1 ≡ t)
  unfolding run
  run-once fs s =
      (ap (λ (l : List (S → S)). call_all l s) (add_callbacks-append empty_registrar fs), λ t. refl)
