-- ===== src/Common/Lookup.antt =====
-- common.cc: `ConvertLine` maps every key to the value of its last column.
use fleetbench.Prelude.{
  ◌≡◌, refl, ap, subst, ◌∙◌, true, false, Option, none, some, List, [], ◌∷◌, map, if◌then◌else◌,
  if_cases, done, ◌>>=◌, Bytes, ℤ, pos, negsuc, int_eq, int_lt, arith,
}
use fleetbench.Common.{Table, put, find, Reader, read_column, convert_onto, convert_line}

int_eq_sound : (a b : ℤ) → int_eq a b ≡ true → a ≡ b
int_eq_sound (pos a) (pos b) h = ap pos (ground arith)
int_eq_sound (negsuc a) (negsuc b) h = ap negsuc (ground arith)
int_eq_sound (pos a) (negsuc b) h = cc
int_eq_sound (negsuc a) (pos b) h = cc

int_eq_refl : (a : ℤ) → int_eq a a ≡ true
int_eq_refl (pos a) = ground arith
int_eq_refl (negsuc a) = ground arith

int_lt-apart : (a b : ℤ) → int_lt a b ≡ true → int_eq a b ≡ false
int_lt-apart (pos a) (pos b) h = ground arith
int_lt-apart (negsuc a) (negsuc b) h = ground arith
int_lt-apart (pos a) (negsuc b) h = refl
int_lt-apart (negsuc a) (pos b) h = refl

int_lt-total : (a b : ℤ) → int_lt a b ≡ false → int_lt b a ≡ false → a ≡ b
int_lt-total (pos a) (pos b) h k = ap pos (ground arith)
int_lt-total (negsuc a) (negsuc b) h k = ap negsuc (ground arith)
int_lt-total (pos a) (negsuc b) h k = cc
int_lt-total (negsuc a) (pos b) h k = cc

-- A table holds what was put last under a key.
find-put :
    {V : Type 0} (t : Table V) (key : ℤ) (value : V) (other : ℤ)
    → find (put t key value) other ≡ (if int_eq key other then some value else find t other)
unfolding find put
find-put [] key value other = refl
find-put ((k, v) ∷ rest) key value other =
    if_cases
      (λ t. find t other ≡ (if int_eq key other then some value else find ((k, v) ∷ rest) other))
      (int_lt key k) _ _ (λ _. refl)
      (λ not_before.
        if_cases
          (λ t.
            find t other ≡ (if int_eq key other then some value else find ((k, v) ∷ rest) other))
          (int_lt k key) _ _
          (λ after.
            let apart : int_eq key other ≡ true → int_eq k other ≡ false = λ e.
              subst (λ m. int_eq k m ≡ false) (int_eq_sound key other e)
                (int_lt-apart k key after) in
            ground (arith, find-put rest key value other, apart))
          (λ not_after.
            let same : int_eq k other ≡ int_eq key other =
              ap (λ m. int_eq m other) (int_lt-total k key not_after not_before) in
            ground (arith, same)))

-- The value of the last pair with the key.
abbrev last_value : {V : Type 0} → List (ℤ × V) → ℤ → Option V → Option V
last_value [] key old = old
last_value ((k, v) ∷ pairs) key old = last_value pairs key (if int_eq k key then some v else old)

module _ (r : Reader) where
  convert_onto-last :
      (line : List Bytes) (pairs : List (ℤ × r.Value)) (t : Table r.Value)
      → map (read_column r) line ≡ map done pairs
      → (t' : Table r.Value) × (convert_onto r t line ≡ done t')
        × ((key : ℤ) → find t' key ≡ last_value pairs key (find t key))
  unfolding convert_onto
  convert_onto-last [] [] t h = (t, refl, λ key. refl)
  convert_onto-last [] (p ∷ pairs) t h = cc
  convert_onto-last (column ∷ line) [] t h = cc
  convert_onto-last (column ∷ line) ((k, v) ∷ pairs) t h =
      let head : read_column r column ≡ done (k, v) = cc in
      let tail : map (read_column r) line ≡ map done pairs = cc in
      let (t', e, f) = convert_onto-last line pairs (put t k v) tail in
      (
        t',
        ap (λ o. o >>= λ kv. convert_onto r (put t kv.0 kv.1) line) head ∙ e,
        λ key. f key ∙ ap (last_value pairs key) (find-put t k v key),
      )

  -- A line whose columns are all pairs of numbers is read, and a key is mapped to the value of the last
  -- column that has it, and to nothing where no column has it.
  convert_line-last :
      (line : List Bytes) (pairs : List (ℤ × r.Value))
      → map (read_column r) line ≡ map done pairs
      → (t : Table r.Value) × (convert_line r line ≡ done t)
        × ((key : ℤ) → find t key ≡ last_value pairs key none)
  unfolding convert_line find
  convert_line-last line pairs h = convert_onto-last line pairs [] h
