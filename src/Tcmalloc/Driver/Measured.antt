-- ===== src/Tcmalloc/Driver/Measured.antt =====
-- empirical_driver.cc: what the counters of a run say about the trace that was replayed.
use fleetbench.Prelude.{
  ℕ, zero, suc, ◌+◌, ◌*◌, ◌/◌, ◌%◌, ◌^◌, ◌≡◌, ◌≢◌, ◌<◌, refl, sym, ap, subst, ◌∙◌, Bool, true,
  false, not, ◌&&◌, some, List, [], leb, ◌==◌, if_cases, Run, done, ◌>>=◌, Returns, Returns-bind,
  Returns-mono, length, set, length-set, ◌∷◌, get_or, sub64, arith,
}
use fleetbench.Tcmalloc.Simulator.{World, nowhere, Empirical, SizeState, UpdatePair}
use fleetbench.Tcmalloc.Simulator.Trace.{births, deaths}
use fleetbench.Tcmalloc.Replay.{replay_trace, prepare_next_replay, prepare_sizes, copy_all}
use fleetbench.Tcmalloc.Replay.Pass.{IsReplayable, IsReplayed, replay_trace-IsReplayed}
use fleetbench.Tcmalloc.Driver.{
  TimerCall, Property, Counters, Extension, SimThread, publish_totals, replay, replay_many,
  get_prop, divide, count_run, record_trace_if_needed, num_warm_up_replays, measure_replays,
  empirical_driver,
}

module _ (e : World) (x : Extension e) where
  -- `t'` is `t` after `k` replays.
  record IsCounted (t : SimThread e x) (k : ℕ) (t' : SimThread e x) : Type 0 where
    ready : IsReplayable e t'.load
    published : t'.load_bytes_allocated ≡ t'.load.total_bytes_allocated
    published_count : t'.load_allocations ≡ t'.load.total_num_allocated
    same_bytes : t'.load.bytes_allocated_recorded ≡ t.load.bytes_allocated_recorded
    same_count : t'.load.num_allocated_recorded ≡ t.load.num_allocated_recorded
    bytes :
        t'.load.total_bytes_allocated
        ≡ (t.load.total_bytes_allocated + k * t.load.bytes_allocated_recorded) % 2 ^ 64
    count :
        t'.load.total_num_allocated
        ≡ (t.load.total_num_allocated + k * t.load.num_allocated_recorded) % 2 ^ 64

  -- The trace can be replayed again after a replay.
  IsReplayable-again :
      (d d' : Empirical e) → IsReplayable e d → IsReplayed e d d' → IsReplayable e d'
  IsReplayable-again d d' v r = record {
    short = rw (r.same_ops) v.short;
    linked = λ i h null.
        v.linked i (subst (λ ops. i < births ops) r.same_ops h)
          (ap (λ slots. get_or slots i nowhere) (sym r.same_slots) ∙ null);
    sized = ap length r.same_sizes ∙ v.sized ∙ ap length (sym r.same_ops);
    room = omega (arith, ap deaths r.same_ops, r.same_room, v.room);
  }

  length-copy_all :
      (us : List UpdatePair) (from to : List ℕ) → length (copy_all us from to) ≡ length to
  length-copy_all [] from to = refl
  length-copy_all (u ∷ us) from to =
      length-copy_all us from (set to u.to (get_or from u.from 0)) ∙ length-set to u.to _

  -- Preparing the next replay keeps the number of places for deaths.
  length-prepare_sizes :
      (ss : List (SizeState e.weights.Weight)) (births deaths : List ℕ)
      → length (prepare_sizes e ss births deaths).1 ≡ length deaths
  unfolding prepare_sizes
  length-prepare_sizes [] births deaths = refl
  length-prepare_sizes (s ∷ ss) births deaths =
      length-prepare_sizes ss births _ ∙ length-copy_all s.death_update _ deaths

  -- Publishing the totals and preparing the next replay keep the trace and the totals.
  finish-IsCounted :
      (t : SimThread e x) (load : Empirical e)
      → IsReplayable e t.load
      → IsReplayed e t.load load
      → let t' = publish_totals e x (record t { load = load }) in
        IsCounted t 1 (record t' { load = prepare_next_replay e t'.load })
  unfolding publish_totals prepare_next_replay
  finish-IsCounted t load v r =
      let again = IsReplayable-again t.load load v r in
      if_cases
        (λ (t' : SimThread e x). IsCounted t 1 (record t' { load = prepare_next_replay e t'.load }))
        (not (t.run_release_each_bytes == 0)
          && leb t.next_release_boundary load.total_bytes_allocated)
        _ _
        (λ b. record {
          ready = record {
            short = again.short;
            sized = again.sized;
            linked = again.linked;
            room = omega (
              arith,
              again.room,
              length-prepare_sizes load.state load.birth_objects load.death_objects,
            );
          };
          published = refl;
          published_count = refl;
          same_bytes = r.same_bytes;
          same_count = r.same_count;
          bytes = omega (arith, r.counted_bytes);
          count = omega (arith, r.counted);
        })
        (λ b. record {
          ready = record {
            short = again.short;
            sized = again.sized;
            linked = again.linked;
            room = omega (
              arith,
              again.room,
              length-prepare_sizes load.state load.birth_objects load.death_objects,
            );
          };
          published = refl;
          published_count = refl;
          same_bytes = r.same_bytes;
          same_count = r.same_count;
          bytes = omega (arith, r.counted_bytes);
          count = omega (arith, r.counted);
        })

  replay-IsCounted :
      (warmup : Bool) (timer : List TimerCall) (t : SimThread e x)
      → IsReplayable e t.load
      → Returns (λ r. IsCounted t 1 r.1) (replay e x warmup (timer, t))
  unfolding replay
  replay-IsCounted warmup timer t v =
      Returns-bind (IsReplayed e t.load) (λ r. IsCounted t 1 r.1) (replay_trace e t.load) _
        (replay_trace-IsReplayed e t.load v) (λ load r. finish-IsCounted t load v r)

  one_more :
      (total k rec : ℕ)
      → ((total + k * rec) % 2 ^ 64 + 1 * rec) % 2 ^ 64 ≡ (total + suc k * rec) % 2 ^ 64
  one_more total k rec = omega arith

  IsCounted-then :
      (t s u : SimThread e x) (k : ℕ) → IsCounted t k s → IsCounted s 1 u → IsCounted t (suc k) u
  IsCounted-then t s u k v w = record {
    ready = w.ready;
    published = w.published;
    published_count = w.published_count;
    same_bytes = w.same_bytes ∙ v.same_bytes;
    same_count = w.same_count ∙ v.same_count;
    bytes = w.bytes ∙ rw (v.bytes, v.same_bytes) (one_more _ k _);
    count = w.count ∙ rw (v.count, v.same_count) (one_more _ k _);
  }

  replay_many-IsCounted :
      (warmup : Bool) (count k : ℕ) (t : SimThread e x) (timer : List TimerCall) (s : SimThread e x)
      → IsCounted t k s
      → Returns (λ r. IsCounted t (count + k) r.1) (replay_many e x warmup count (timer, s))
  unfolding replay_many
  replay_many-IsCounted warmup zero k t timer s v = subst (λ n. IsCounted t n s) (omega arith) v
  replay_many-IsCounted warmup (suc count) k t timer s v =
      Returns-bind (λ r. IsCounted s 1 r.1) (λ r. IsCounted t (suc count + k) r.1) _ _
        (replay-IsCounted warmup timer s v.ready)
        (λ (timer', u) w.
          Returns-mono (λ r. IsCounted t (count + suc k) r.1) (λ r. IsCounted t (suc count + k) r.1)
            (replay_many e x warmup count (timer', u))
            (λ r z. subst (λ n. IsCounted t n r.1) (omega arith) z)
            (replay_many-IsCounted warmup count (suc k) t timer' u (IsCounted-then t s u k v w)))

  -- One replay at least.
  replay_some-IsCounted :
      (warmup : Bool) (count : ℕ) (timer : List TimerCall) (t : SimThread e x)
      → IsReplayable e t.load
      → Returns (λ r. IsCounted t (suc count) r.1) (replay_many e x warmup (suc count) (timer, t))
  unfolding replay_many
  replay_some-IsCounted warmup count timer t v =
      Returns-bind (λ r. IsCounted t 1 r.1) (λ r. IsCounted t (suc count) r.1) _ _
        (replay-IsCounted warmup timer t v)
        (λ (timer', u) w.
          Returns-mono (λ r. IsCounted t (count + 1) r.1) (λ r. IsCounted t (suc count) r.1)
            (replay_many e x warmup count (timer', u))
            (λ r z. subst (λ n. IsCounted t n r.1) (omega arith) z)
            (replay_many-IsCounted warmup count 1 t timer' u w))

  -- What the trace holds, per replay.
  abbrev pub replayed_bytes : ℕ → SimThread e x → ℕ
  replayed_bytes batches t = (batches * t.load.bytes_allocated_recorded) % 2 ^ 64

  abbrev pub replayed_objects : ℕ → SimThread e x → ℕ
  replayed_objects batches t = (batches * t.load.num_allocated_recorded) % 2 ^ 64

  pub record IsMeasured (batches : ℕ) (t : SimThread e x) (c : Counters x.Double) : Type 0 where
    pub bytes : c.rate_bytes ≡ x.to_double (replayed_bytes batches t)
    pub objects : c.rate_allocations ≡ x.to_double (replayed_objects batches t)
    pub quotient :
        c.bytes_per_allocation ≡ x.to_double (replayed_bytes batches t / replayed_objects batches t)
    -- The sizes that the counters of the waste are made of.
    pub parts :
        (h : e.Heap) × (local : ℕ) × (central : ℕ) × (pageheap : ℕ) × (waste : ℕ)
        × (x.numeric_property Property.local_bytes h ≡ some local)
        × (x.numeric_property Property.pageheap_free_bytes h ≡ some pageheap)
        × (x.numeric_property Property.external_fragmentation_bytes h ≡ some waste)
        × (c.waste_local ≡ x.to_double local)
        × (c.waste_central ≡ x.to_double central)
        × (c.waste_pageheap ≡ x.to_double pageheap)
        × (c.waste_total ≡ x.to_double waste)
        × ((local + central + pageheap) % 2 ^ 64 ≡ waste)

  -- A difference of totals is what was added between them, modulo 2^64.
  difference :
      (total before after made : ℕ)
      → before ≡ total % 2 ^ 64
      → after ≡ (before + made) % 2 ^ 64
      → sub64 after before ≡ made % 2 ^ 64
  difference total before after made h k = omega (arith, h, k)

  module _
      (offered : (p : Property) (h : e.Heap)
        → (v : ℕ) × (x.numeric_property p h ≡ some v) × (v < 2 ^ 64)) where
    get_prop-done :
        (p : Property) (h : e.Heap)
        → (v : ℕ) × (get_prop e x p h ≡ done v) × (v < 2 ^ 64) × (x.numeric_property p h ≡ some v)
    unfolding get_prop
    get_prop-done p h = let (v, is, small) = offered p h in (v, rw (get_prop, is) refl, small, is)

    count_run-IsMeasured :
        (batches : ℕ) (t : SimThread e x) (bytes objects : ℕ) (h : e.Heap)
        → bytes ≡ replayed_bytes batches t
        → objects ≡ replayed_objects batches t
        → objects ≢ 0
        → Returns (IsMeasured batches t) (count_run e x bytes objects h)
    unfolding count_run
    count_run-IsMeasured batches t bytes objects h same_bytes same_objects some_objects =
        let (in_use, is_in_use, small_in_use, has_in_use) =
          get_prop-done Property.current_allocated_bytes h in
        let (local, is_local, small_local, has_local) = get_prop-done Property.local_bytes h in
        let (pageheap, is_pageheap, small_pageheap, has_pageheap) =
          get_prop-done Property.pageheap_free_bytes h in
        let (released, is_released, small_released, has_released) =
          get_prop-done Property.pageheap_unmapped_bytes h in
        let (waste, is_waste, small_waste, has_waste) =
          get_prop-done Property.external_fragmentation_bytes h in
        Returns-bind (λ q. q ≡ bytes / objects) (IsMeasured batches t) (divide e x bytes objects) _
          (if_cases (Returns (λ q. q ≡ bytes / objects)) (objects == 0) _ _
            (λ none. absurd (ground (arith, none, some_objects))) (λ b. refl))
          (λ q is_q.
            rw (is_in_use, is_local, is_pageheap, is_released, is_waste)
              (record {
                bytes = ap x.to_double same_bytes;
                objects = ap x.to_double same_objects;
                quotient = ap x.to_double (is_q ∙ rw (same_bytes, same_objects) refl);
                parts = (
                  h,
                  local,
                  sub64 (sub64 waste local) pageheap,
                  pageheap,
                  waste,
                  has_local,
                  has_pageheap,
                  has_waste,
                  refl,
                  refl,
                  refl,
                  refl,
                  omega (arith, small_local, small_pageheap, small_waste),
                );
              }))

    measure_replays-IsMeasured :
        (batches : ℕ) (t : SimThread e x)
        → IsReplayable e t.load
        → replayed_objects batches t ≢ 0
        → Returns (λ r. IsMeasured batches t r.0) (measure_replays e x batches t)
    unfolding measure_replays
    measure_replays-IsMeasured zero t v objects = absurd (objects (omega arith))
    measure_replays-IsMeasured (suc batches) t v objects =
        Returns-bind (λ r. IsCounted t num_warm_up_replays r.1)
          (λ r. IsMeasured (suc batches) t r.0) _ _ (replay_some-IsCounted true 49 [] t v)
          (λ (timer, warm) w.
            Returns-bind (λ r. IsCounted warm (suc batches) r.1)
              (λ r. IsMeasured (suc batches) t r.0) _ _
              (replay_some-IsCounted false batches timer warm w.ready)
              (λ (timer', t') z.
                let made_bytes =
                  difference _ _ _ (suc batches * t.load.bytes_allocated_recorded)
                    (w.published ∙ w.bytes)
                    (z.published ∙ z.bytes ∙ rw (w.same_bytes, w.published) refl) in
                let made_objects =
                  difference _ _ _ (suc batches * t.load.num_allocated_recorded)
                    (w.published_count ∙ w.count)
                    (z.published_count ∙ z.count ∙ rw (w.same_count, w.published_count) refl) in
                Returns-bind (IsMeasured (suc batches) t) (λ r. IsMeasured (suc batches) t r.0) _ _
                  (count_run-IsMeasured (suc batches) t _ _ t'.load.heap made_bytes made_objects
                    (λ none. objects (sym made_objects ∙ none)))
                  (λ c m. m)))

  already_recorded :
      (t : SimThread e x) → t.done_recording ≡ true → record_trace_if_needed e x t ≡ done t
  unfolding record_trace_if_needed
  already_recorded t recorded =
      if_cases (λ (m : Run (SimThread e x)). m ≡ done t) t.done_recording _ _ (λ b. refl)
        (λ b. absurd (ground (arith, recorded, b)))

  -- In a thread that has recorded a trace which can be replayed, where the allocator offers the
  -- properties that are asked for and the batches allocate at least one object modulo 2^64, the
  -- driver returns. Its counters of bytes and of objects are what the trace holds times the number
  -- of batches, modulo 2^64, without what the warm-up has allocated; bytes per allocation is their
  -- quotient rounded down. The counters of the waste are made of sizes that the allocator offers,
  -- where the local, the central and the page heap's part add up to the whole modulo 2^64. Each of
  -- these counters is the `double` of its size. (The trace fits the 32-bit indices and has a size for
  -- each operation, a place for the object of each birth and an object for each death.)
  pub empirical_driver-IsMeasured :
      ((p : Property) (h : e.Heap) → (v : ℕ) × (x.numeric_property p h ≡ some v) × (v < 2 ^ 64))
      → (batches : ℕ) (t : SimThread e x) → t.done_recording ≡ true
      → IsReplayable e t.load
      → replayed_objects batches t ≢ 0
      → Returns (λ r. IsMeasured batches t r.0) (empirical_driver e x batches t)
  unfolding empirical_driver
  empirical_driver-IsMeasured offered batches t recorded v objects =
      subst (λ m. Returns (λ r. IsMeasured batches t r.0) (m >>= measure_replays e x batches))
        (sym (already_recorded t recorded)) (measure_replays-IsMeasured offered batches t v objects)
