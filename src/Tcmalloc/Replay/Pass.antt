-- ===== src/Tcmalloc/Replay/Pass.antt =====
-- empirical.cc: `ReplayTrace` makes one pass over the recorded trace.
use fleetbench.Prelude.{
  ℕ, zero, suc, ◌+◌, ◌%◌, ◌^◌, ◌≡◌, ◌≢◌, ◌≤◌, ◌<◌, refl, sym, ap, subst, ◌∙◌, Bool, true, false,
  List, [], ◌∷◌, ltb, if_cases, Bool-cases, inl, inr, done, fatal, Returns, Returns-bind, length,
  get_or, set, drop, drop_all, length-set, lt→ltb, add64, arith,
}
use fleetbench.Tcmalloc.Simulator.{World, Slot, in_death, in_birth, nowhere, Empirical}
use fleetbench.Tcmalloc.Simulator.Trace.{births, deaths}
use fleetbench.Tcmalloc.Replay.{
  replay_birth, replay_death, replay_step, replay_loop, replay_trace, place,
}

-- The births among the operations from the `k`-th on.
abbrev births_from : (k : ℕ) → List Bool → ℕ
births_from zero ops = births ops
births_from (suc k) [] = 0
births_from (suc k) (op ∷ ops) = births_from k ops

births_from-birth :
    (k : ℕ) (ops : List Bool)
    → get_or ops k false ≡ true
    → births_from k ops ≡ suc (births_from (suc k) ops)
births_from-birth k [] h = cc
births_from-birth zero (true ∷ ops) h = refl
births_from-birth zero (false ∷ ops) h = cc
births_from-birth (suc k) (op ∷ ops) h = births_from-birth k ops h

births_from-death :
    (k : ℕ) (ops : List Bool)
    → get_or ops k false ≡ false
    → births_from k ops ≡ births_from (suc k) ops
births_from-death zero [] h = refl
births_from-death (suc k) [] h = refl
births_from-death zero (true ∷ ops) h = cc
births_from-death zero (false ∷ ops) h = refl
births_from-death (suc k) (op ∷ ops) h = births_from-death k ops h

births_from-end : (ops : List Bool) → births_from (length ops) ops ≡ 0
births_from-end [] = refl
births_from-end (op ∷ ops) = births_from-end ops

births-deaths : (ops : List Bool) → births ops + deaths ops ≡ length ops
births-deaths [] = refl
births-deaths (true ∷ ops) = omega (arith, births-deaths ops)
births-deaths (false ∷ ops) = omega (arith, births-deaths ops)

births_from-le : (k : ℕ) (ops : List Bool) → k ≤ length ops → births_from k ops + k ≤ length ops
births_from-le zero ops h = omega (arith, births-deaths ops)
births_from-le (suc k) [] h = absurd (omega (arith, h))
births_from-le (suc k) (op ∷ ops) h = omega (arith, births_from-le k ops (omega (arith, h)))

drop-cons {ℓ} :
    {A : Type ℓ} (k : ℕ) (xs : List A) (d : A)
    → k < length xs
    → drop k xs ≡ get_or xs k d ∷ drop (suc k) xs
drop-cons k [] d h = absurd (omega (arith, h))
drop-cons zero (x ∷ xs) d h = refl
drop-cons (suc k) (x ∷ xs) d h = drop-cons k xs d (omega (arith, h))

drop-slot :
    (k : ℕ) (slots : List Slot)
    → get_or slots k nowhere ≢ nowhere
    → drop k slots ≡ get_or slots k nowhere ∷ drop (suc k) slots
drop-slot k [] live = absurd (live refl)
drop-slot zero (s ∷ slots) live = refl
drop-slot (suc k) (s ∷ slots) live = drop-slot k slots live

module _ (e : World) where
  -- What a replay works on.
  pub record Objects : Type 0 where
    pub heap : e.Heap
    pub births : List ℕ
    pub deaths : List ℕ

  abbrev pub objects_of : Empirical e → Objects
  objects_of d = record { heap = d.heap; births = d.birth_objects; deaths = d.death_objects }

  -- A new object goes where its pointer says.
  abbrev pub put_object : Slot → (object : ℕ) → Objects → Objects
  put_object (in_death i) p o = record o { deaths = set o.deaths i p }
  put_object (in_birth i) p o = record o { births = set o.births i p }
  put_object nowhere p o = o

  abbrev pub bear : Slot → (size : ℕ) → Objects → Objects
  bear s size o = let (p, heap) = e.alloc size o.heap in put_object s p (record o { heap = heap })

  -- The reference: a trace played operation by operation. A birth allocates its size and takes the
  -- next pointer; the `n`-th death frees what then stands in the `n`-th place for deaths.
  abbrev pub play : List Slot → (ops : List Bool) → (sizes : List ℕ) → (n : ℕ) → Objects → Objects
  play slots [] sizes n o = o
  play slots (op ∷ ops) [] n o = o
  play [] (true ∷ ops) (size ∷ sizes) n o = o
  play (s ∷ slots) (true ∷ ops) (size ∷ sizes) n o = play slots ops sizes n (bear s size o)
  play slots (false ∷ ops) (size ∷ sizes) n o =
      play slots ops sizes (suc n) (record o { heap = e.dealloc (get_or o.deaths n 0) size o.heap })

  -- A trace that fits the 32-bit indices, with a size for each operation, a place for the object of
  -- each birth, and an object for each death.
  pub record IsReplayable (d : Empirical e) : Type 0 where
    pub short : length d.birth_or_death < 2 ^ 32
    pub sized : length d.birth_or_death_actual_sizes ≡ length d.birth_or_death
    pub linked : (i : ℕ) → i < births d.birth_or_death → get_or d.birth_pointers i nowhere ≢ nowhere
    pub room : deaths d.birth_or_death ≤ length d.death_objects

  -- What a replay leaves alone.
  pub record SameTrace (d d' : Empirical e) : Type 0 where
    pub same_ops : d'.birth_or_death ≡ d.birth_or_death
    pub same_sizes : d'.birth_or_death_actual_sizes ≡ d.birth_or_death_actual_sizes
    pub same_slots : d'.birth_pointers ≡ d.birth_pointers
    pub same_count : d'.num_allocated_recorded ≡ d.num_allocated_recorded
    pub same_bytes : d'.bytes_allocated_recorded ≡ d.bytes_allocated_recorded
    pub same_total : d'.total_num_allocated ≡ d.total_num_allocated
    pub same_total_bytes : d'.total_bytes_allocated ≡ d.total_bytes_allocated
    pub same_room : length d'.death_objects ≡ length d.death_objects

  -- The whole trace, and what is left of it.
  abbrev pub play_all : Empirical e → Objects
  play_all d = play d.birth_pointers d.birth_or_death d.birth_or_death_actual_sizes 0 (objects_of d)

  abbrev play_rest : Empirical e → (k : ℕ) → Empirical e → Objects
  play_rest start k d =
      play (drop d.birth_object_index start.birth_pointers) (drop k start.birth_or_death)
        (drop k start.birth_or_death_actual_sizes) d.death_object_index (objects_of d)

  -- A replay that has come to the `k`-th operation.
  record IsAt (start : Empirical e) (k : ℕ) (d : Empirical e) : Type 0 where
    inside : k ≤ length start.birth_or_death
    sum : d.birth_object_index + d.death_object_index ≡ k
    still : d.birth_object_index + births_from k start.birth_or_death ≡ births start.birth_or_death
    same : SameTrace start d
    played : play_rest start k d ≡ play_all start

  SameTrace-then :
      (start d : Empirical e) (heap : e.Heap) (births deaths : List ℕ) (b n : ℕ)
      → SameTrace start d
      → length deaths ≡ length d.death_objects
      → SameTrace start (record d {
        heap = heap;
        birth_objects = births;
        death_objects = deaths;
        birth_object_index = b;
        death_object_index = n;
      })
  SameTrace-then start d heap births deaths b n s l = record {
    same_ops = s.same_ops;
    same_sizes = s.same_sizes;
    same_slots = s.same_slots;
    same_count = s.same_count;
    same_bytes = s.same_bytes;
    same_total = s.same_total;
    same_total_bytes = s.same_total_bytes;
    same_room = l ∙ s.same_room;
  }

  module _ (start : Empirical e) (v : IsReplayable start) where
    -- A birth stores the new object where its pointer says.
    record IsBorn (d : Empirical e) (size : ℕ) (s : Slot) (d' : Empirical e) : Type 0 where
      same :
          SameTrace start (record d' { birth_object_index = (d'.birth_object_index + 1) % 2 ^ 32 })
      births_same : d'.birth_object_index ≡ d.birth_object_index
      deaths_same : d'.death_object_index ≡ d.death_object_index
      stored : objects_of d' ≡ bear s size (objects_of d)

    slot-IsBorn :
        (d : Empirical e) (size : ℕ) (s : Slot)
        → SameTrace start d
        → s ≢ nowhere
        → let (p, heap) = e.alloc size d.heap in
          Returns (IsBorn d size s) (elim s [
            | in_death i ↦ done (record d { heap = heap; death_objects = set d.death_objects i p })
            | in_birth i ↦ done (record d { heap = heap; birth_objects = set d.birth_objects i p })
            | nowhere ↦ fatal
          ])
    slot-IsBorn d size (in_death i) same live = record {
      same = SameTrace-then start d _ _ _ _ _ same (length-set d.death_objects i _);
      births_same = refl;
      deaths_same = refl;
      stored = refl;
    }
    slot-IsBorn d size (in_birth i) same live = record {
      same = SameTrace-then start d _ _ _ _ _ same refl;
      births_same = refl;
      deaths_same = refl;
      stored = refl;
    }
    slot-IsBorn d size nowhere same live = absurd (live refl)

    replay_birth-IsBorn :
        (d : Empirical e) (size : ℕ)
        → SameTrace start d
        → get_or d.birth_pointers d.birth_object_index nowhere ≢ nowhere
        → Returns
            (IsBorn d size (get_or d.birth_pointers d.birth_object_index nowhere))
            (replay_birth e d size)
    unfolding replay_birth
    replay_birth-IsBorn d size same live =
        slot-IsBorn d size (get_or d.birth_pointers d.birth_object_index nowhere) same live

    -- The reference takes the same step.
    play-birth :
        (k : ℕ) (d : Empirical e)
        → k < length start.birth_or_death
        → IsAt start k d
        → get_or start.birth_or_death k false ≡ true
        → get_or start.birth_pointers d.birth_object_index nowhere ≢ nowhere
        → play
            (drop (suc d.birth_object_index) start.birth_pointers)
            (drop (suc k) start.birth_or_death)
            (drop (suc k) start.birth_or_death_actual_sizes)
            d.death_object_index
            (bear
              (get_or start.birth_pointers d.birth_object_index nowhere)
              (get_or start.birth_or_death_actual_sizes k 0)
              (objects_of d))
          ≡ play_all start
    play-birth k d h at birth live =
        let slots = start.birth_pointers in
        let ops = start.birth_or_death in
        let sizes = start.birth_or_death_actual_sizes in
        let n = d.death_object_index in
        let o = objects_of d in
        let slot = get_or slots d.birth_object_index nowhere in
        let more = drop (suc d.birth_object_index) slots in
        sym (
          ap (λ xs. play xs (drop k ops) (drop k sizes) n o)
            (drop-slot d.birth_object_index slots live)
          ∙ ap (λ xs. play (slot ∷ more) xs (drop k sizes) n o)
              (drop-cons k ops false h ∙ ap (λ b. b ∷ drop (suc k) ops) birth)
          ∙ ap (λ xs. play (slot ∷ more) (true ∷ drop (suc k) ops) xs n o)
              (drop-cons k sizes 0 (omega (arith, v.sized, h))))
        ∙ at.played

    play-death :
        (k : ℕ) (d : Empirical e)
        → k < length start.birth_or_death
        → IsAt start k d
        → get_or start.birth_or_death k false ≡ false
        → play
            (drop d.birth_object_index start.birth_pointers)
            (drop (suc k) start.birth_or_death)
            (drop (suc k) start.birth_or_death_actual_sizes)
            (suc d.death_object_index)
            (record (objects_of d) {
              heap =
                  e.dealloc
                    (get_or d.death_objects d.death_object_index 0)
                    (get_or start.birth_or_death_actual_sizes k 0)
                    d.heap;
            })
          ≡ play_all start
    play-death k d h at death =
        let ops = start.birth_or_death in
        let sizes = start.birth_or_death_actual_sizes in
        let n = d.death_object_index in
        let o = objects_of d in
        let slots = drop d.birth_object_index start.birth_pointers in
        sym (
          ap (λ xs. play slots xs (drop k sizes) n o)
            (drop-cons k ops false h ∙ ap (λ b. b ∷ drop (suc k) ops) death)
          ∙ ap (λ xs. play slots (false ∷ drop (suc k) ops) xs n o)
              (drop-cons k sizes 0 (omega (arith, v.sized, h))))
        ∙ at.played

    birth-IsAt :
        (k : ℕ) (d : Empirical e)
        → k < length start.birth_or_death
        → IsAt start k d
        → get_or start.birth_or_death k false ≡ true
        → Returns
            (IsAt start (suc k))
            (replay_step e d (get_or start.birth_or_death_actual_sizes k 0) true)
    unfolding replay_step
    birth-IsAt k d h at birth =
        let more = births_from-birth k start.birth_or_death birth in
        let small = v.short in
        let size = get_or start.birth_or_death_actual_sizes k 0 in
        let slot = get_or d.birth_pointers d.birth_object_index nowhere in
        let pointer : slot ≡ get_or start.birth_pointers d.birth_object_index nowhere =
          ap (λ (slots : List Slot). get_or slots d.birth_object_index nowhere)
            at.same.same_slots in
        let live : get_or start.birth_pointers d.birth_object_index nowhere ≢ nowhere =
          v.linked d.birth_object_index (omega (arith, more, at.still)) in
        let slots = start.birth_pointers in
        let ops = drop (suc k) start.birth_or_death in
        let sizes = drop (suc k) start.birth_or_death_actual_sizes in
        let next : (d' : Empirical e)
            → d'.birth_object_index ≡ d.birth_object_index
            → (d'.birth_object_index + 1) % 2 ^ 32 ≡ suc d.birth_object_index =
          λ d' b. omega (arith, b, at.sum, small, h) in
        Returns-bind (IsBorn d size slot) (IsAt start (suc k)) (replay_birth e d size) _
          (replay_birth-IsBorn d size at.same (λ null. live (sym pointer ∙ null)))
          (λ d' b. record {
            inside = h;
            sum = omega (arith, b.births_same, b.deaths_same, at.sum, small, h);
            still = omega (arith, b.births_same, at.still, at.sum, more, small, h);
            same = b.same;
            played =
                ap (λ i. play (drop i slots) ops sizes d'.death_object_index (objects_of d'))
                  (next d' b.births_same)
                ∙ ap (λ n. play (drop (suc d.birth_object_index) slots) ops sizes n (objects_of d'))
                    b.deaths_same
                ∙ ap
                    (λ o.
                      play (drop (suc d.birth_object_index) slots) ops sizes d.death_object_index o)
                    (b.stored ∙ ap (λ s. bear s size (objects_of d)) pointer)
                ∙ play-birth k d h at birth live;
          })

    death-IsAt :
        (k : ℕ) (d : Empirical e)
        → k < length start.birth_or_death
        → IsAt start k d
        → get_or start.birth_or_death k false ≡ false
        → Returns
            (IsAt start (suc k))
            (replay_step e d (get_or start.birth_or_death_actual_sizes k 0) false)
    unfolding replay_step replay_death
    death-IsAt k d h at death =
        let more = births_from-death k start.birth_or_death death in
        let left = births_from-le (suc k) start.birth_or_death h in
        let both = births-deaths start.birth_or_death in
        let small = v.short in
        let slots = start.birth_pointers in
        let ops = drop (suc k) start.birth_or_death in
        let sizes = drop (suc k) start.birth_or_death_actual_sizes in
        let some_object : d.death_object_index < length d.death_objects =
          omega (arith, at.still, more, left, both, at.sum, v.room, at.same.same_room) in
        let next : (d.death_object_index + 1) % 2 ^ 32 ≡ suc d.death_object_index =
          omega (arith, at.sum, small, h) in
        let freed : Objects = record (objects_of d) {
          heap =
              e.dealloc (get_or d.death_objects d.death_object_index 0)
                (get_or start.birth_or_death_actual_sizes k 0) d.heap;
        } in
        rw (replay_death, lt→ltb d.death_object_index (length d.death_objects) some_object)
          (record {
            inside = h;
            sum = omega (arith, at.sum, small, h);
            still = omega (arith, at.still, more);
            same = SameTrace-then start d _ _ _ _ _ at.same refl;
            played =
                ap (λ n. play (drop d.birth_object_index slots) ops sizes n freed) next
                ∙ play-death k d h at death;
          })

    replay_step-IsAt :
        (k : ℕ) (d : Empirical e)
        → k < length start.birth_or_death
        → IsAt start k d
        → Returns (IsAt start (suc k)) (
            replay_step e d
              (get_or start.birth_or_death_actual_sizes k 0)
              (get_or start.birth_or_death k false))
    replay_step-IsAt k d h at = elim (Bool-cases (get_or start.birth_or_death k false)) [
      | inl birth ↦ rw (birth) (birth-IsAt k d h at birth)
      | inr death ↦ rw (death) (death-IsAt k d h at death)
    ]

    replay_loop-IsAt :
        (fuel k : ℕ) (d : Empirical e)
        → k + fuel ≡ length start.birth_or_death
        → IsAt start k d
        → Returns (IsAt start (length start.birth_or_death)) (replay_loop e fuel d)
    unfolding replay_loop
    replay_loop-IsAt zero k d h at =
        let Q = Returns (IsAt start (length start.birth_or_death)) in
        let len = ap length at.same.same_ops in
        let small = v.short in
        if_cases Q (ltb (place e d) (length d.birth_or_death)) _ _
          (λ b. absurd (ground (arith, b, len, small, at.sum, h)))
          (λ b. subst (λ (n : ℕ). IsAt start n d) (omega (arith, h)) at)
    replay_loop-IsAt (suc fuel) k d h at =
        let Q = Returns (IsAt start (length start.birth_or_death)) in
        let len = ap length at.same.same_ops in
        let small = v.short in
        let here : place e d ≡ k = omega (arith, at.sum, at.inside, small) in
        if_cases Q (ltb (place e d) (length d.birth_or_death)) _ _
          (λ b.
            Returns-bind (IsAt start (suc k)) (IsAt start (length start.birth_or_death)) _ _
              (rw (here) (
                subst
                  (λ (ops : List Bool). Returns (IsAt start (suc k)) (
                    replay_step e d (get_or d.birth_or_death_actual_sizes k 0)
                      (get_or ops k false)))
                  (sym at.same.same_ops)
                  (subst
                    (λ (sizes : List ℕ).
                      Returns (IsAt start (suc k))
                        (replay_step e d (get_or sizes k 0) (get_or start.birth_or_death k false)))
                    (sym at.same.same_sizes) (replay_step-IsAt k d (omega (arith, h)) at))))
              (λ d' at'. replay_loop-IsAt fuel (suc k) d' (omega (arith, h)) at'))
          (λ b. absurd (ground (arith, b, len, here, h)))

  -- A replay has run once through the trace.
  pub record IsReplayed (d d' : Empirical e) : Type 0 where
    pub same_ops : d'.birth_or_death ≡ d.birth_or_death
    pub same_sizes : d'.birth_or_death_actual_sizes ≡ d.birth_or_death_actual_sizes
    pub same_slots : d'.birth_pointers ≡ d.birth_pointers
    pub same_room : length d'.death_objects ≡ length d.death_objects
    pub same_count : d'.num_allocated_recorded ≡ d.num_allocated_recorded
    pub same_bytes : d'.bytes_allocated_recorded ≡ d.bytes_allocated_recorded
    pub played : objects_of d' ≡ play_all d
    pub all_births : d'.birth_object_index ≡ births d.birth_or_death
    pub all_deaths : d'.death_object_index ≡ deaths d.birth_or_death
    pub counted : d'.total_num_allocated ≡ add64 d.total_num_allocated d.num_allocated_recorded
    pub counted_bytes :
        d'.total_bytes_allocated ≡ add64 d.total_bytes_allocated d.bytes_allocated_recorded

  -- Nothing is left at the end.
  play-end :
      (slots : List Slot) (ops : List Bool) (sizes : List ℕ) (n : ℕ) (o : Objects)
      → ops ≡ []
      → play slots ops sizes n o ≡ o
  play-end slots ops sizes n o h = ap (λ ops. play slots ops sizes n o) h

  -- On a trace that fits the 32-bit indices, with a size for each operation, a place for the object of
  -- each birth and an object for each death, ReplayTrace returns. The heap, the objects born and
  -- the objects to die are then those of the reference, which allocates the recorded size for each
  -- birth and frees the next object for each death, one operation after the other. The trace is as
  -- it was, and the recorded numbers of objects and of bytes are added to the totals, modulo 2^64.
  pub replay_trace-IsReplayed :
      (d : Empirical e) → IsReplayable d → Returns (IsReplayed d) (replay_trace e d)
  unfolding replay_trace
  replay_trace-IsReplayed d v =
      let start = record d { birth_object_index = 0; death_object_index = 0 } in
      Returns-bind (IsAt start (length d.birth_or_death)) (IsReplayed d)
        (replay_loop e (length d.birth_or_death) start) _
        (replay_loop-IsAt start
          (record { short = v.short; sized = v.sized; linked = v.linked; room = v.room })
          (length d.birth_or_death) 0 start (omega arith)
          (record {
            inside = omega arith;
            sum = refl;
            still = omega arith;
            same = record {
              same_ops = refl;
              same_sizes = refl;
              same_slots = refl;
              same_count = refl;
              same_bytes = refl;
              same_total = refl;
              same_total_bytes = refl;
              same_room = refl;
            };
            played = refl;
          }))
        (λ d' at.
          let none_left = births_from-end d.birth_or_death in
          let both = births-deaths d.birth_or_death in
          record {
            same_ops = at.same.same_ops;
            same_sizes = at.same.same_sizes;
            same_slots = at.same.same_slots;
            same_room = at.same.same_room;
            same_count = at.same.same_count;
            same_bytes = at.same.same_bytes;
            played =
                sym (
                  play-end _ _ _ _ _
                    (drop_all (length d.birth_or_death) d.birth_or_death (omega arith)))
                ∙ at.played;
            all_births = omega (arith, at.still, none_left);
            all_deaths = omega (arith, at.still, none_left, at.sum, both);
            counted = omega (arith, at.same.same_total, at.same.same_count);
            counted_bytes = omega (arith, at.same.same_total_bytes, at.same.same_bytes);
          })
