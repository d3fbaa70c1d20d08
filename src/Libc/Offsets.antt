-- ===== src/Libc/Offsets.antt =====
-- fleetbench/libc/mem_benchmark.cc: where in a buffer each memory operation starts. The blocks of a
-- buffer, its cache lines, are kept with the least recently used first. Offsets and sizes are not
-- negative and stay below 2^31, which `RegisterBenchmarks` checks of the cache sizes.
pub mod Fits
pub mod Position
pub mod Apart
pub mod Operands
use fleetbench.Prelude.{
  ℕ, zero, suc, ◌+◌, ◌-◌, Bool, true, false, not, ◌&&◌, List, [], ◌∷◌, ◌++◌, ltb, leb, ◌==◌,
  if◌then◌else◌, ℤ, pos, negsuc, Run, done, fatal, stuck, ◌>>=◌,
}

-- The random draws: `std::shuffle`, `absl::Bernoulli`, `absl::Uniform` between -size and size, both
-- excluded, and `absl::Uniform` below a bound, from a state of the random engine.
pub record Engine : Type 1 where
  pub Gen : Type 0
  pub Probability : Type 0
  pub shuffle : List ℕ → Gen → List ℕ × Gen
  pub bernoulli : Probability → Gen → Bool × Gen
  pub uniform_between : (size : ℕ) → Gen → ℤ × Gen
  pub uniform_below : (bound : ℕ) → Gen → ℕ × Gen

abbrev pub keep_if : (ℕ → Bool) → List ℕ → List ℕ
keep_if p [] = []
keep_if p (x ∷ xs) = let rest = keep_if p xs in if p x then x ∷ rest else rest

-- A block far enough from the ends of the buffer.
abbrev pub fits : (size_bytes block_offset buffer_size left_margin right_margin block : ℕ) → Bool
fits size_bytes block_offset buffer_size left_margin right_margin block =
    leb left_margin block && leb (block + block_offset + size_bytes + right_margin) buffer_size

-- `unset` is what an uninitialized variable holds, where no block fits.
abbrev pub first_fit : (ℕ → Bool) → List ℕ → (unset : ℕ) → ℕ
first_fit p [] unset = unset
first_fit p (b ∷ bs) unset = if p b then b else first_fit p bs unset

abbrev pub is_accessed : (block span b : ℕ) → Bool
is_accessed block span b = leb block b && ltb b (block + span)

abbrev pub check_overlap : (src_offset dst_offset size_bytes : ℕ) → Bool
check_overlap src_offset dst_offset size_bytes =
    ltb dst_offset (src_offset + size_bytes) && ltb src_offset (dst_offset + size_bytes)

-- `-min(offset, 0)` and `max(offset, 0)`.
abbrev pub below_zero : ℤ → ℕ
below_zero (pos n) = 0
below_zero (negsuc n) = suc n

abbrev pub above_zero : ℤ → ℕ
above_zero (pos n) = n
above_zero (negsuc n) = 0

module _ (e : Engine) where
  open e use {Gen, Probability, shuffle, bernoulli, uniform_between}

  -- The blocks after an operation on the `span` bytes from a block on; there is a block.
  unfoldable pub move_used : (block span : ℕ) → List ℕ → Gen → List ℕ × Gen
  move_used block span [] g = ([], g)
  move_used block span (front ∷ rest) g =
      let (accessed, g') = shuffle (keep_if (is_accessed block span) (front ∷ rest)) g in
      if block == front
      then (rest ++ (block ∷ []), g)
      else (keep_if (λ b. not (is_accessed block span b)) (front ∷ rest) ++ accessed, g')

  -- An offset, the blocks in their new order, and the random engine.
  pub record Next : Type 0 where
    pub offset : ℕ
    pub blocks_lru : List ℕ
    pub gen : Gen

  pub record Pair : Type 0 where
    pub src_offset : ℕ
    pub dst_offset : ℕ
    pub src_blocks_lru : List ℕ
    pub dst_blocks_lru : List ℕ
    pub gen : Gen

  -- The checks of dst = src + offset.
  unfoldable pub place_by : ℤ → (buffer_size cur_size : ℕ) → List ℕ → Next → Run Pair
  place_by offset buffer_size cur_size dst_lru n =
      let dst = n.offset + above_zero offset - below_zero offset in
      if not (leb (below_zero offset) (n.offset + above_zero offset))
      then fatal
      else if not (leb (dst + cur_size) buffer_size)
      then fatal
      else done (record {
        src_offset = n.offset;
        dst_offset = dst;
        src_blocks_lru = n.blocks_lru;
        dst_blocks_lru = dst_lru;
        gen = n.gen;
      })

  module _ (unset : ℕ) where
    unfoldable pub get_next_offset :
        List ℕ → (size_bytes block_offset buffer_size left_margin right_margin : ℕ) → Gen → Run Next
    get_next_offset blocks_lru size_bytes block_offset buffer_size left_margin right_margin g =
        let ok = fits size_bytes block_offset buffer_size left_margin right_margin in
        let block = first_fit ok blocks_lru unset in
        let (moved, g') = move_used block (block_offset + size_bytes) blocks_lru g in
        if leb (block + block_offset + size_bytes) buffer_size
        then done (record { offset = block + block_offset; blocks_lru = moved; gen = g' })
        else fatal

    -- The do-while loop, for at most `fuel` turns.
    unfoldable pub pick_apart :
        (fuel src_offset size_bytes block_offset buffer_size : ℕ) → List ℕ → Gen → Run Next
    unfolding get_next_offset
    pick_apart zero src_offset size_bytes block_offset buffer_size blocks_lru g = stuck
    pick_apart (suc fuel) src_offset size_bytes block_offset buffer_size blocks_lru g =
        get_next_offset blocks_lru size_bytes block_offset buffer_size 0 0 g >>= λ n.
        elim (check_overlap src_offset n.offset size_bytes) [
          | true ↦ pick_apart fuel src_offset size_bytes block_offset buffer_size n.blocks_lru n.gen
          | false ↦ done n
        ]

    -- The first case: dst = src + offset, which the margins leave in the buffer.
    unfoldable pub overlap_by :
        ℤ
        → (buffer_size cur_size src_block_offset : ℕ) → (src_lru dst_lru : List ℕ) → Gen
        → Run Pair
    unfolding get_next_offset place_by
    overlap_by offset buffer_size cur_size src_block_offset src_lru dst_lru g =
        get_next_offset src_lru cur_size src_block_offset buffer_size (below_zero offset)
          (above_zero offset) g
        >>= place_by offset buffer_size cur_size dst_lru

    -- The second case.
    unfoldable pub keep_apart :
        (fuel buffer_size cur_size src_block_offset dst_block_offset : ℕ)
        → (src_lru dst_lru : List ℕ) → Gen
        → Run Pair
    unfolding get_next_offset pick_apart
    keep_apart fuel buffer_size cur_size src_block_offset dst_block_offset src_lru dst_lru g =
        get_next_offset src_lru cur_size src_block_offset buffer_size 0 0 g >>= λ n.
        pick_apart fuel n.offset cur_size dst_block_offset buffer_size dst_lru n.gen >>= λ m.
        done (record {
          src_offset = n.offset;
          dst_offset = m.offset;
          src_blocks_lru = n.blocks_lru;
          dst_blocks_lru = m.blocks_lru;
          gen = m.gen;
        })

    unfoldable pub get_next_src_dst_offset_with_overlap :
        (fuel : ℕ)
        → Probability
        → (buffer_size cur_size src_block_offset dst_block_offset : ℕ) → (src_lru dst_lru : List ℕ)
        → Gen
        → Run Pair
    unfolding overlap_by keep_apart
    get_next_src_dst_offset_with_overlap fuel p buffer_size cur_size src_block_offset
          dst_block_offset src_lru dst_lru g =
        let (does_overlap, g') = bernoulli p g in
        let (offset, g'') = uniform_between cur_size g' in
        if does_overlap
        then overlap_by offset buffer_size cur_size src_block_offset src_lru dst_lru g''
        else keep_apart fuel buffer_size cur_size src_block_offset dst_block_offset src_lru dst_lru
            g'
