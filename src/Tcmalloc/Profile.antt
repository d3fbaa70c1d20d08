-- ===== src/Tcmalloc/Profile.antt =====
-- fleetbench/tcmalloc/empirical.cc: the profile and the heap sizes, from the lines that `ReadCsv` has
-- read. A failed QCHECK is `fatal`.
use fleetbench.Prelude.{
  ℕ, ◌-◌, ◌^◌, Bool, false, ◌||◌, Option, none, some, List, [], ◌∷◌, if◌then◌else◌, Run, done,
  fatal, ◌>>=◌, Bytes, same_text, ℤ, pos, negsuc, low32,
}
use fleetbench.Tcmalloc.Simulator.{Entry}

-- `SimpleAtoi` into a `size_t` and into an `int`, and `SimpleAtod`.
pub record Numerals : Type 1 where
  pub Value : Type 0
  pub to_size : Bytes → Option ℕ
  pub to_int : Bytes → Option ℤ
  pub to_value : Bytes → Option Value

-- An `int` as a `uint32_t`.
abbrev bits32 : ℤ → ℕ
bits32 (pos n) = low32 n
bits32 (negsuc n) = 2 ^ 32 - 1 - low32 n

abbrev has_key : List (Bytes × ℕ) → Bytes → Bool
has_key [] key = false
has_key ((k, v) ∷ rest) key = same_text k key || has_key rest key

abbrev expected {ℓ} : {A : Type ℓ} → Option A → Run A
expected none = fatal
expected (some a) = done a

module _ (n : Numerals) where
  unfoldable pub read_entry : List Bytes → Run (Entry n.Value)
  read_entry (size ∷ alloc_rate ∷ num_live ∷ []) = expected (n.to_size size) >>= λ s.
      expected (n.to_value alloc_rate) >>= λ a. expected (n.to_value num_live) >>= λ l.
      done (record { size = s; alloc_rate = a; num_live = l })
  read_entry _ = fatal

  unfoldable pub get_empirical_data_entries : List (List Bytes) → Run (List (Entry n.Value))
  unfolding read_entry
  get_empirical_data_entries [] = done []
  get_empirical_data_entries (line ∷ lines) =
      read_entry line >>= λ entry. get_empirical_data_entries lines >>= λ rest. done (entry ∷ rest)

  -- The loop of `GetHeapSizes`; the hash map is a list of its pairs, the last one first.
  unfoldable pub add_heap_sizes : List (Bytes × ℕ) → List (List Bytes) → Run (List (Bytes × ℕ))
  add_heap_sizes sizes [] = done sizes
  add_heap_sizes sizes ((name ∷ size ∷ []) ∷ lines) = expected (n.to_int size) >>= λ s.
      let rest = add_heap_sizes ((name, bits32 s) ∷ sizes) lines in
      if has_key sizes name then fatal else rest
  add_heap_sizes sizes (line ∷ lines) = fatal

  abbrev not_empty : List (Bytes × ℕ) → Run (List (Bytes × ℕ))
  not_empty [] = fatal
  not_empty (pair ∷ sizes) = done (pair ∷ sizes)

  unfoldable pub get_heap_sizes : List (List Bytes) → Run (List (Bytes × ℕ))
  unfolding add_heap_sizes
  get_heap_sizes lines = add_heap_sizes [] lines >>= not_empty
