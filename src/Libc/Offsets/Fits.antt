-- ===== src/Libc/Offsets/Fits.antt =====
-- mem_benchmark.cc: `GetNextOffset` finds a block that fits, where there is one, and loses no block.
use mathlib.Core.List.{Perm, perm_middle}
use mathlib.Core.List.Perm
use fleetbench.Prelude.{
  any, ℕ, ◌+◌, ◌≤◌, ◌≡◌, refl, sym, subst, Bool, true, false, ap, not, List, [], ◌∷◌, ◌++◌,
  append-nil, leb, ◌==◌, if_cases, done, Bool-cases, inl, inr, arith,
}
use fleetbench.Libc.Offsets.{
  Engine, keep_if, fits, first_fit, is_accessed, move_used, Next, get_next_offset,
}

pub first_fit-fits :
    (p : ℕ → Bool) (xs : List ℕ) (unset : ℕ) → any p xs ≡ true → p (first_fit p xs unset) ≡ true
first_fit-fits p [] unset h = cc
first_fit-fits p (x ∷ xs) unset h =
    if_cases (λ b. p b ≡ true) (p x) _ _ (λ e. e) (λ e. first_fit-fits p xs unset (ground arith))

-- The first of a list that passes a test.
abbrev pub IsFirst : (ℕ → Bool) → List ℕ → ℕ → Type 0
IsFirst p xs x =
    (before : List ℕ) × (after : List ℕ) × (xs ≡ before ++ x ∷ after)
    × (any p before ≡ false)
    × (p x ≡ true)

first_fit-IsFirst :
    (p : ℕ → Bool) (xs : List ℕ) (unset : ℕ) → any p xs ≡ true → IsFirst p xs (first_fit p xs unset)
first_fit-IsFirst p [] unset h = cc
first_fit-IsFirst p (x ∷ xs) unset h = elim (Bool-cases (p x)) [
  | inl e ↦ rw (e) ([], xs, refl, refl, e)
  | inr e ↦
      let (before, after, split, none_before, fit) = first_fit-IsFirst p xs unset (ground arith) in
      rw (e) (x ∷ before, after, ap (◌∷◌ x) split, ground arith, fit)
]

keep_if-Perm : (p : ℕ → Bool) (xs : List ℕ) → Perm (keep_if (λ x. not (p x)) xs ++ keep_if p xs) xs
keep_if-Perm p [] = Perm.nil
keep_if-Perm p (x ∷ xs) = elim (Bool-cases (p x)) [
  | inl e ↦ rw (e) (
      Perm.trans (perm_middle (keep_if (λ x. not (p x)) xs) (keep_if p xs))
        (Perm.cons x (keep_if-Perm p xs)))
  | inr e ↦ rw (e) (Perm.cons x (keep_if-Perm p xs))
]

-- `std::shuffle` permutes.
abbrev pub IsShuffle : Engine → Type 0
IsShuffle e = (xs : List ℕ) (g : e.Gen) → Perm (e.shuffle xs g).0 xs

module _ (e : Engine) (s : IsShuffle e) where
  pub move_used-Perm :
      (block span : ℕ) (xs : List ℕ) (g : e.Gen) → Perm (move_used e block span xs g).0 xs
  unfolding move_used
  move_used-Perm block span [] g = Perm.nil
  move_used-Perm block span (front ∷ rest) g =
      if_cases (λ (m : List ℕ × e.Gen). Perm m.0 (front ∷ rest)) (block == front) _ _
        (λ h.
          subst (λ b. Perm (rest ++ (b ∷ [])) (front ∷ rest)) (sym (ground arith))
            (subst (λ r. Perm (rest ++ (front ∷ [])) (front ∷ r)) (append-nil rest)
              (perm_middle rest [])))
        (λ h.
          Perm.trans
            (Perm.append_left (keep_if (λ b. not (is_accessed block span b)) (front ∷ rest))
              (s (keep_if (is_accessed block span) (front ∷ rest)) g))
            (keep_if-Perm (is_accessed block span) (front ∷ rest)))

  -- The block it is, and the blocks then.
  pub get_next_offset-eq-done :
      (unset : ℕ) (lru : List ℕ) (size_bytes block_offset buffer_size left_margin right_margin : ℕ)
      (g : e.Gen)
      → any (fits size_bytes block_offset buffer_size left_margin right_margin) lru ≡ true
      → let block =
          first_fit (fits size_bytes block_offset buffer_size left_margin right_margin) lru unset in
        let moved = move_used e block (block_offset + size_bytes) lru g in
        get_next_offset e unset lru size_bytes block_offset buffer_size left_margin right_margin g
        ≡ done (record { offset = block + block_offset; blocks_lru = moved.0; gen = moved.1 })
  unfolding get_next_offset
  get_next_offset-eq-done unset lru size_bytes block_offset buffer_size left_margin right_margin g
        h =
      let ok = fits size_bytes block_offset buffer_size left_margin right_margin in
      let block = first_fit ok lru unset in
      let fit : ok block ≡ true = first_fit-fits ok lru unset h in
      let inside : leb (block + block_offset + size_bytes) buffer_size ≡ true =
        ground (arith, fit) in
      rw (inside) refl

  -- The offset is within the margins.
  pub get_next_offset-inside :
      (unset : ℕ) (lru : List ℕ) (size_bytes block_offset buffer_size left_margin right_margin : ℕ)
      (g : e.Gen)
      → any (fits size_bytes block_offset buffer_size left_margin right_margin) lru ≡ true
      → (n : Next e) × (get_next_offset e unset lru size_bytes block_offset buffer_size left_margin
            right_margin g
          ≡ done n)
        × (left_margin + block_offset ≤ n.offset)
        × (n.offset + size_bytes + right_margin ≤ buffer_size)
        × Perm n.blocks_lru lru
  get_next_offset-inside unset lru size_bytes block_offset buffer_size left_margin right_margin g
        h =
      let ok = fits size_bytes block_offset buffer_size left_margin right_margin in
      let block = first_fit ok lru unset in
      let moved = move_used e block (block_offset + size_bytes) lru g in
      let fit : ok block ≡ true = first_fit-fits ok lru unset h in
      (
        record { offset = block + block_offset; blocks_lru = moved.0; gen = moved.1 },
        get_next_offset-eq-done unset lru size_bytes block_offset buffer_size left_margin
            right_margin g h,
        ground (arith, fit),
        ground (arith, fit),
        move_used-Perm block (block_offset + size_bytes) lru g,
      )

  -- Where a block fits, `GetNextOffset` returns. Its offset is the block offset in the least recently
  -- used of the blocks that fit: all before that one in the list do not. The operand lies in the
  -- buffer within its margins, and the blocks stay the same, for every way to shuffle.
  pub get_next_offset-fits :
      (unset : ℕ) (lru : List ℕ) (size_bytes block_offset buffer_size left_margin right_margin : ℕ)
      (g : e.Gen)
      → any (fits size_bytes block_offset buffer_size left_margin right_margin) lru ≡ true
      → (n : Next e) × (get_next_offset e unset lru size_bytes block_offset buffer_size left_margin
            right_margin g
          ≡ done n)
        × ((block : ℕ) × (n.offset ≡ block + block_offset)
            × IsFirst (fits size_bytes block_offset buffer_size left_margin right_margin) lru block)
        × (left_margin + block_offset ≤ n.offset)
        × (n.offset + size_bytes + right_margin ≤ buffer_size)
        × Perm n.blocks_lru lru
  get_next_offset-fits unset lru size_bytes block_offset buffer_size left_margin right_margin g h =
      let ok = fits size_bytes block_offset buffer_size left_margin right_margin in
      let block = first_fit ok lru unset in
      let moved = move_used e block (block_offset + size_bytes) lru g in
      let fit : ok block ≡ true = first_fit-fits ok lru unset h in
      (
        record { offset = block + block_offset; blocks_lru = moved.0; gen = moved.1 },
        get_next_offset-eq-done unset lru size_bytes block_offset buffer_size left_margin
            right_margin g h,
        (block, refl, first_fit-IsFirst ok lru unset h),
        ground (arith, fit),
        ground (arith, fit),
        move_used-Perm block (block_offset + size_bytes) lru g,
      )
