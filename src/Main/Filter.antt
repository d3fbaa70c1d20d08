-- ===== src/Main/Filter.antt =====
-- benchmark_main.cc: the filter of a run is made of the default filters of the benchmarks, unless the
-- flag names another one.
use fleetbench.Prelude.{◌≡◌, true, []}
use fleetbench.Registrar.{for_single, for_multi, empty_registrar}
use fleetbench.Registrar.Filters.{
  Adds, add_all, none_empty, selected, disjunction, get_default_filter-disjunction,
}
use fleetbench.Main.{default_word, single_word, multi_word, choose_filter, prepare_run}

module _ (S : Type 0) where
  -- After the benchmarks have added their default filters, none of them empty, a run with the flag
  -- "multi" selects the disjunction of those that were added for several threads, and one with no
  -- flag, "default" or "single" the disjunction of those for one thread.
  pub prepare_run-disjunction :
      (adds : Adds) (s : S)
      → none_empty adds ≡ true
      → let registrar = add_all (empty_registrar {S = S}) adds in
        ((prepare_run registrar multi_word s).0 ≡ disjunction (selected for_multi adds))
        × ((prepare_run registrar [] s).0 ≡ disjunction (selected for_single adds))
        × ((prepare_run registrar default_word s).0 ≡ disjunction (selected for_single adds))
        × ((prepare_run registrar single_word s).0 ≡ disjunction (selected for_single adds))
  unfolding prepare_run choose_filter
  prepare_run-disjunction adds s h =
      let (one, many) = get_default_filter-disjunction S adds h in (many, one, one, one)
