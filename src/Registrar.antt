-- ===== src/Registrar.antt =====
-- fleetbench/dynamic_registrar.h and dynamic_registrar.cc: the callbacks that register benchmarks, and
-- the default filters.
pub mod Filters
use fleetbench.Prelude.{Bool, true, false, List, [], ◌∷◌, ◌++◌, Bytes, if◌then◌else◌}

pub data ThreadingMode : Type 0 where
  single_threaded multi_threaded both : ThreadingMode

-- The code of '|'.
abbrev pub bar : Bytes
bar = 124 ∷ []

-- `S` is what the callbacks act on.
pub record DynamicRegistrar (S : Type 0) : Type 0 where
  pub callbacks : List (S → S)
  pub default_single_threaded_filter : Bytes
  pub default_multi_threaded_filter : Bytes

-- `if (!old.empty()) old.push_back('|'); old.append(filter);`.
abbrev pub append_filter : (old filter : Bytes) → Bytes
append_filter [] filter = filter
append_filter (c ∷ old) filter = (c ∷ old) ++ bar ++ filter

abbrev pub for_single : ThreadingMode → Bool
for_single multi_threaded = false
for_single _ = true

abbrev pub for_multi : ThreadingMode → Bool
for_multi single_threaded = false
for_multi _ = true

module _ {S : Type 0} where
  abbrev pub empty_registrar : DynamicRegistrar S
  empty_registrar = record {
    callbacks = [];
    default_single_threaded_filter = [];
    default_multi_threaded_filter = [];
  }

  unfoldable pub add_callback : DynamicRegistrar S → (S → S) → DynamicRegistrar S
  add_callback r callback = record r { callbacks = r.callbacks ++ callback ∷ [] }

  abbrev pub call_all : List (S → S) → S → S
  call_all [] s = s
  call_all (callback ∷ rest) s = call_all rest (callback s)

  unfoldable pub run : DynamicRegistrar S → S → DynamicRegistrar S × S
  run r s = (record r { callbacks = [] }, call_all r.callbacks s)

  unfoldable pub add_default_filter :
      DynamicRegistrar S → (filter : Bytes) → ThreadingMode → DynamicRegistrar S
  add_default_filter r filter mode = record r {
    default_single_threaded_filter =
        if for_single mode
        then append_filter r.default_single_threaded_filter filter
        else r.default_single_threaded_filter;
    default_multi_threaded_filter =
        if for_multi mode
        then append_filter r.default_multi_threaded_filter filter
        else r.default_multi_threaded_filter;
  }

  unfoldable pub get_default_filter : DynamicRegistrar S → ThreadingMode → Bytes
  get_default_filter r single_threaded = r.default_single_threaded_filter
  get_default_filter r _ = r.default_multi_threaded_filter
