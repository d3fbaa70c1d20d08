-- ===== src/Tcmalloc/Replay/Rounds.antt =====
-- empirical.cc: `BuildUpdateVectors` and, after each replay, `PrepareNextReplay`, against the meaning of
-- the recorded object indices.
use fleetbench.Prelude.{
  ℕ, suc, ◌≡◌, refl, sym, ap, ◌∙◌, true, false, ◌||◌, List, [], ◌∷◌, ◌++◌, append-nil, map, ◌==◌,
  if_cases, if_not_cases, length, set, arith,
}
use fleetbench.Tcmalloc.Simulator.{World, ObjectIndex, UpdatePair, Slot, in_birth, SizeState}
use fleetbench.Tcmalloc.Replay.{copy_all, move_all, link_objects, link_sizes, prepare_sizes}
use fleetbench.Tcmalloc.Replay.Advance.{object_at, advance, leftward, moves, copies, update-advance}

push_then {ℓ} :
    {A : Type ℓ} (xs : List A) (x : A) (ys : List A) → (xs ++ x ∷ []) ++ ys ≡ xs ++ (x ∷ ys)
push_then [] x ys = refl
push_then (z ∷ xs) x ys = ap (◌∷◌ z) (push_then xs x ys)

length-map : (f : ObjectIndex → ℕ) (xs : List ObjectIndex) → length (map f xs) ≡ length xs
length-map f [] = refl
length-map f (x ∷ xs) = ap suc (length-map f xs)

module _ (at : ObjectIndex) (rest : List ObjectIndex) (i : ℕ) where
  moves-skip : (at.born || at.index == i) ≡ true → moves i (at ∷ rest) ≡ moves (suc i) rest
  moves-skip h = rw (h) refl

  moves-take :
      (at.born || at.index == i) ≡ false
      → moves i (at ∷ rest) ≡ record { from = at.index; to = i } ∷ moves (suc i) rest
  moves-take h = rw (h) refl

  copies-skip : at.born ≡ false → copies i (at ∷ rest) ≡ copies (suc i) rest
  copies-skip h = rw (h) refl

  copies-take :
      at.born ≡ true
      → copies i (at ∷ rest) ≡ record { from = at.index; to = i } ∷ copies (suc i) rest
  copies-take h = rw (h) refl

module _ (e : World) where
  abbrev Class : Type 0
  Class = SizeState e.weights.Weight

  -- What the second loop of `BuildUpdateVectors` adds to a size class.
  record Links (i : ℕ) (indices : List ObjectIndex) (s s' : Class) : Type 0 where
    moves_made : s'.obj_update ≡ s.obj_update ++ moves i indices
    copies_made : s'.birth_update ≡ s.birth_update ++ copies i indices
    same_objs : s'.objs ≡ s.objs
    same_indices : s'.objs_indices_after_recording ≡ s.objs_indices_after_recording

  link_objects-Links :
      (indices : List ObjectIndex) (i : ℕ) (s : Class) (slots : List Slot)
      → Links i indices s (link_objects e indices i s slots).0
  unfolding link_objects
  link_objects-Links [] i s slots = record {
    moves_made = sym (append-nil _);
    copies_made = sym (append-nil _);
    same_objs = refl;
    same_indices = refl;
  }
  link_objects-Links (at ∷ rest) i s slots =
      let pair : UpdatePair = record { from = at.index; to = i } in
      if_not_cases (λ (r : Class × List Slot). Links i (at ∷ rest) s r.0) at.born _ _
        (λ b.
          if_cases (λ (t : Class). Links i (at ∷ rest) s (link_objects e rest (suc i) t slots).0)
            (at.index == i) _ _
            (λ stays.
              let v = link_objects-Links rest (suc i) s slots in
              record {
                moves_made =
                    v.moves_made
                    ∙ ap (◌++◌ s.obj_update) (sym (moves-skip at rest i (ground arith)));
                copies_made =
                    v.copies_made ∙ ap (◌++◌ s.birth_update) (sym (copies-skip at rest i b));
                same_objs = v.same_objs;
                same_indices = v.same_indices;
              })
            (λ goes.
              let v =
                link_objects-Links rest (suc i)
                  (record s { obj_update = s.obj_update ++ pair ∷ [] }) slots in
              record {
                moves_made =
                    v.moves_made
                    ∙ push_then s.obj_update pair (moves (suc i) rest)
                    ∙ ap (◌++◌ s.obj_update) (sym (moves-take at rest i (ground arith)));
                copies_made =
                    v.copies_made ∙ ap (◌++◌ s.birth_update) (sym (copies-skip at rest i b));
                same_objs = v.same_objs;
                same_indices = v.same_indices;
              }))
        (λ b.
          let v =
            link_objects-Links rest (suc i)
              (record s { birth_update = s.birth_update ++ pair ∷ [] })
              (set slots at.index (in_birth at.index)) in
          record {
            moves_made =
                v.moves_made ∙ ap (◌++◌ s.obj_update) (sym (moves-skip at rest i (ground arith)));
            copies_made =
                v.copies_made
                ∙ push_then s.birth_update pair (copies (suc i) rest)
                ∙ ap (◌++◌ s.birth_update) (sym (copies-take at rest i b));
            same_objs = v.same_objs;
            same_indices = v.same_indices;
          })

  -- A size class as the recording leaves it: no updates, as many live objects as before, and no object
  -- that was there before further left than it was.
  pub record IsRecorded (s : Class) : Type 0 where
    pub no_moves : s.obj_update ≡ []
    pub no_copies : s.birth_update ≡ []
    pub in_order : leftward 0 s.objs_indices_after_recording ≡ true
    pub repaired : length s.objs ≡ length s.objs_indices_after_recording

  abbrev pub AllRecorded : List Class → Type 0
  AllRecorded [] = Unit
  AllRecorded (s ∷ ss) = IsRecorded s × AllRecorded ss

  -- The live objects of a size class after some replays, by their births.
  abbrev pub advance_all : (rounds : List (List ℕ)) → List ObjectIndex → (objs : List ℕ) → List ℕ
  advance_all [] indices objs = objs
  advance_all (births ∷ rounds) indices objs =
      advance_all rounds indices (advance births objs indices)

  abbrev pub advance_classes : (rounds : List (List ℕ)) → List Class → List (List ℕ)
  advance_classes rounds [] = []
  advance_classes rounds (s ∷ ss) =
      advance_all rounds s.objs_indices_after_recording s.objs ∷ advance_classes rounds ss

  -- `PrepareNextReplay` after each of some replays, whose births are given.
  abbrev pub prepare_all : (rounds : List (List ℕ)) → List Class → (deaths : List ℕ) → List Class
  prepare_all [] ss deaths = ss
  prepare_all (births ∷ rounds) ss deaths =
      let (ss', deaths') = prepare_sizes e ss births deaths in prepare_all rounds ss' deaths'

  -- A class with its update vectors made.
  record IsLinked (s : Class) : Type 0 where
    moves_made : s.obj_update ≡ moves 0 s.objs_indices_after_recording
    copies_made : s.birth_update ≡ copies 0 s.objs_indices_after_recording
    in_order : leftward 0 s.objs_indices_after_recording ≡ true
    repaired : length s.objs ≡ length s.objs_indices_after_recording

  abbrev AllLinked : List Class → Type 0
  AllLinked [] = Unit
  AllLinked (s ∷ ss) = IsLinked s × AllLinked ss

  link_sizes-AllLinked :
      (ss : List Class) (slots : List Slot) → AllRecorded ss → AllLinked (link_sizes e ss slots).0
  unfolding link_sizes
  link_sizes-AllLinked [] slots v = tt
  link_sizes-AllLinked (s ∷ ss) slots (v, vs) =
      let w = link_objects-Links s.objs_indices_after_recording 0 s slots in
      (
        record {
          moves_made =
              w.moves_made
              ∙ ap (λ us. us ++ moves 0 s.objs_indices_after_recording) v.no_moves
              ∙ sym (ap (moves 0) w.same_indices);
          copies_made =
              w.copies_made
              ∙ ap (λ us. us ++ copies 0 s.objs_indices_after_recording) v.no_copies
              ∙ sym (ap (copies 0) w.same_indices);
          in_order = ap (leftward 0) w.same_indices ∙ v.in_order;
          repaired = ap length w.same_objs ∙ v.repaired ∙ sym (ap length w.same_indices);
        },
        link_sizes-AllLinked ss _ vs,
      )

  updated :
      (s : Class) (births : List ℕ)
      → IsLinked s
      → copy_all s.birth_update births (move_all s.obj_update s.objs)
        ≡ advance births s.objs s.objs_indices_after_recording
  updated s births v =
      rw (v.moves_made, v.copies_made)
        (update-advance births s.objs s.objs_indices_after_recording v.in_order v.repaired)

  prepare_sizes-AllLinked :
      (ss : List Class) (births deaths : List ℕ)
      → AllLinked ss
      → AllLinked (prepare_sizes e ss births deaths).0
  unfolding prepare_sizes
  prepare_sizes-AllLinked [] births deaths v = tt
  prepare_sizes-AllLinked (s ∷ ss) births deaths (v, vs) = (
    record {
      moves_made = v.moves_made;
      copies_made = v.copies_made;
      in_order = v.in_order;
      repaired =
          ap length (updated s births v)
          ∙ length-map (object_at births s.objs) s.objs_indices_after_recording;
    },
    prepare_sizes-AllLinked ss births _ vs,
  )

  prepare_sizes-advance :
      (ss : List Class) (births deaths : List ℕ) (rounds : List (List ℕ))
      → AllLinked ss
      → advance_classes rounds (prepare_sizes e ss births deaths).0
        ≡ advance_classes (births ∷ rounds) ss
  unfolding prepare_sizes
  prepare_sizes-advance [] births deaths rounds v = refl
  prepare_sizes-advance (s ∷ ss) births deaths rounds (v, vs) =
      let objs = copy_all s.birth_update births (move_all s.obj_update s.objs) in
      let deaths' = copy_all s.death_update objs deaths in
      ap
        (λ objs.
          advance_all rounds s.objs_indices_after_recording objs
          ∷ advance_classes rounds (prepare_sizes e ss births deaths').0)
        (updated s births v)
      ∙ ap
          (λ later.
            advance_all rounds s.objs_indices_after_recording
              (advance births s.objs s.objs_indices_after_recording)
            ∷ later)
          (prepare_sizes-advance ss births deaths' rounds vs)

  link_sizes-same :
      (rounds : List (List ℕ)) (ss : List Class) (slots : List Slot)
      → advance_classes rounds (link_sizes e ss slots).0 ≡ advance_classes rounds ss
  unfolding link_sizes
  link_sizes-same rounds [] slots = refl
  link_sizes-same rounds (s ∷ ss) slots =
      let linked = link_objects e s.objs_indices_after_recording 0 s slots in
      let w = link_objects-Links s.objs_indices_after_recording 0 s slots in
      ap
        (λ (later : List (List ℕ)).
          advance_all rounds linked.0.objs_indices_after_recording linked.0.objs ∷ later)
        (link_sizes-same rounds ss linked.1)
      ∙ ap (λ indices. advance_all rounds indices linked.0.objs ∷ advance_classes rounds ss)
          w.same_indices
      ∙ ap
          (λ objs.
            advance_all rounds s.objs_indices_after_recording objs ∷ advance_classes rounds ss)
          w.same_objs

  no_rounds : (ss : List Class) → map (λ s. s.objs) ss ≡ advance_classes [] ss
  no_rounds [] = refl
  no_rounds (s ∷ ss) = ap (◌∷◌ s.objs) (no_rounds ss)

  prepare_all-linked :
      (rounds : List (List ℕ)) (ss : List Class) (deaths : List ℕ)
      → AllLinked ss
      → map (λ s. s.objs) (prepare_all rounds ss deaths) ≡ advance_classes rounds ss
  prepare_all-linked [] ss deaths v = no_rounds ss
  prepare_all-linked (births ∷ rounds) ss deaths v =
      prepare_all-linked rounds _ _ (prepare_sizes-AllLinked ss births deaths v)
      ∙ prepare_sizes-advance ss births deaths rounds v

  -- With the vectors that the second loop of `BuildUpdateVectors` makes of recorded size classes, the
  -- updates in place after any number of replays leave the live objects where the recorded
  -- indices say: each is the one that stood at its index before the replay, or the one that was
  -- born with its number in it.
  pub prepare_all-advance :
      (rounds : List (List ℕ)) (ss : List Class) (slots : List Slot) (deaths : List ℕ)
      → AllRecorded ss
      → map (λ s. s.objs) (prepare_all rounds (link_sizes e ss slots).0 deaths)
        ≡ advance_classes rounds ss
  prepare_all-advance rounds ss slots deaths v =
      prepare_all-linked rounds _ deaths (link_sizes-AllLinked ss slots v)
      ∙ link_sizes-same rounds ss slots
