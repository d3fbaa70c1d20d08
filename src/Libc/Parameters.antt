-- ===== src/Libc/Parameters.antt =====
-- fleetbench/libc/mem_benchmark.cc: `BM_Memory`, up to the call of the memory function that it times.
pub mod Ready
pub mod Pushes
pub mod Inside
use fleetbench.Prelude.{
  ℕ, zero, suc, ◌+◌, ◌-◌, ◌*◌, ◌/◌, ◌%◌, ◌^◌, ◌≤◌, Bool, true, false, not, ◌&&◌, ◌||◌, List, [],
  ◌∷◌, ◌++◌, min, ltb, ◌==◌, if◌then◌else◌, length, get_or, sub64, Run, done, fatal, ◌>>=◌,
}
use fleetbench.Libc.Offsets.{
  Engine, Next, Pair, get_next_offset, get_next_src_dst_offset_with_overlap,
}

-- The function to time: `MemcpyFunction`, `MemmoveFunction`, `CmpFunction<memcmp>`,
-- `CmpFunction<bcmp>` or `MemsetFunction`.
pub data MemoryCall : Type 0 where
  memcpy : MemoryCall
  memmove : MemoryCall
  memcmp : MemoryCall
  bcmp : MemoryCall
  memset : MemoryCall

abbrev pub compares : MemoryCall → Bool
compares memcmp = true
compares bcmp = true
compares _ = false

-- Whether both operands are in one buffer.
abbrev pub may_overlap : MemoryCall → Bool
may_overlap memmove = true
may_overlap memcmp = true
may_overlap bcmp = true
may_overlap _ = false

-- `BM_Mem_Parameters`.
pub record Parameters : Type 0 where
  pub size_bytes : List ℕ
  pub src_offset : List ℕ
  pub dst_offset : List ℕ
  pub mismatch_pos : List ℕ
  pub memset_value : List ℕ

abbrev pub no_parameters : Parameters
no_parameters = record {
  size_bytes = [];
  src_offset = [];
  dst_offset = [];
  mismatch_pos = [];
  memset_value = [];
}

abbrev pub push_back : List ℕ → ℕ → List ℕ
push_back xs x = xs ++ (x ∷ [])

-- The largest size that is sampled.
abbrev pub max_size : MemoryCall → (distribution_max buffer_size : ℕ) → ℕ
max_size call distribution_max buffer_size =
    if may_overlap call
    then min distribution_max (sub64 (buffer_size / 3) 64)
    else min distribution_max (buffer_size / 2)

-- `(draw >> alignment) << alignment`.
abbrev pub aligned : (draw alignment : ℕ) → ℕ
aligned draw alignment = draw / 2 ^ alignment * 2 ^ alignment

-- The cache lines of a buffer.
abbrev pub blocks_from : (left start : ℕ) → List ℕ
blocks_from zero start = []
blocks_from (suc left) start = start ∷ blocks_from left (start + 64)

abbrev pub all_blocks : (buffer_size : ℕ) → List ℕ
all_blocks buffer_size = blocks_from ((buffer_size + 63) / 64) 0

-- `size_bytes` and `mismatch_pos` have the predictable pattern forty times at the end, as many as
-- kPredictableCount / kPredictablePeriod.
abbrev pub repeated : (times : ℕ) → List ℕ → List ℕ
repeated zero xs = []
repeated (suc times) xs = xs ++ repeated times xs

abbrev pub with_pattern : (non_predictable predictable : List ℕ) → List ℕ
with_pattern non_predictable predictable = non_predictable ++ repeated 40 predictable

abbrev pub same_number : List ℕ → List ℕ → Bool
same_number xs ys = length xs == length ys

module _ (e : Engine) where
  open e use {Gen, Probability, shuffle, bernoulli, uniform_below}

  unfoldable pub sample_mismatch_position :
      (comparison_equal : Probability) → List ℕ → Gen → List ℕ × Gen
  sample_mismatch_position comparison_equal [] g = ([], g)
  sample_mismatch_position comparison_equal (cur_size ∷ sizes) g =
      let (is_identical, g1) = bernoulli comparison_equal g in
      let (drawn, g2) = uniform_below cur_size g1 in
      let sampled : ℕ × Gen = if is_identical then (0, g1) else (drawn + 1, g2) in
      let (positions, g3) = sample_mismatch_position comparison_equal sizes sampled.1 in
      (sampled.0 ∷ positions, g3)

  -- The parameters up to some turn of the loop, and the blocks.
  pub record Built : Type 0 where
    pub parameters : Parameters
    pub src_blocks_lru : List ℕ
    pub dst_blocks_lru : List ℕ
    pub gen : Gen

  abbrev pub copied : (cur_size : ℕ) → Built → (src dst : Next e) → Built
  copied cur_size b src dst = record {
    parameters = record b.parameters {
      size_bytes = push_back b.parameters.size_bytes cur_size;
      src_offset = push_back b.parameters.src_offset src.offset;
      dst_offset = push_back b.parameters.dst_offset dst.offset;
    };
    src_blocks_lru = src.blocks_lru;
    dst_blocks_lru = dst.blocks_lru;
    gen = dst.gen;
  }

  abbrev pub filled : (cur_size : ℕ) → Built → (dst : Next e) → Built
  filled cur_size b dst =
      let (value, g) = uniform_below 255 dst.gen in
      record b {
        parameters = record b.parameters {
          size_bytes = push_back b.parameters.size_bytes cur_size;
          dst_offset = push_back b.parameters.dst_offset dst.offset;
          memset_value = push_back b.parameters.memset_value value;
        };
        dst_blocks_lru = dst.blocks_lru;
        gen = g;
      }

  abbrev pub moved : (comparison : Bool) → (mismatch_pos cur_size : ℕ) → Built → Pair e → Built
  moved comparison mismatch_pos cur_size b p = record {
    parameters = record b.parameters {
      size_bytes = push_back b.parameters.size_bytes cur_size;
      src_offset = push_back b.parameters.src_offset p.src_offset;
      dst_offset = push_back b.parameters.dst_offset p.dst_offset;
      mismatch_pos =
          if comparison
          then push_back b.parameters.mismatch_pos mismatch_pos
          else b.parameters.mismatch_pos;
    };
    src_blocks_lru = p.src_blocks_lru;
    dst_blocks_lru = p.dst_blocks_lru;
    gen = p.gen;
  }

  -- `alignment_sampler` is a `std::discrete_distribution`, `unset` what an uninitialized variable
  -- holds, and `fuel` limits the search for operands that lie apart.
  module _ (alignment_sampler : Gen → ℕ × Gen) (unset fuel : ℕ) (overlap_probability : Probability)
      (call : MemoryCall) (buffer_size : ℕ) (mismatch_positions : List ℕ) where
    -- What is pushed for the function whose operands are in two buffers.
    unfoldable pub push_copy : (cur_size src_block_offset dst_block_offset : ℕ) → Built → Run Built
    push_copy cur_size src_block_offset dst_block_offset b =
        get_next_offset e unset b.src_blocks_lru cur_size src_block_offset buffer_size 0 0 b.gen
        >>= λ n.
            get_next_offset e unset b.dst_blocks_lru cur_size dst_block_offset buffer_size 0 0 n.gen
            >>= λ m. done (copied cur_size b n m)

    -- For the one that has no source.
    unfoldable pub push_set : (cur_size dst_block_offset : ℕ) → Built → Run Built
    push_set cur_size dst_block_offset b =
        get_next_offset e unset b.dst_blocks_lru cur_size dst_block_offset buffer_size 0 0 b.gen
        >>= λ n. done (filled cur_size b n)

    -- For those whose operands may overlap.
    unfoldable pub push_move :
        (i cur_size src_block_offset dst_block_offset : ℕ) → Built → Run Built
    push_move i cur_size src_block_offset dst_block_offset b =
        get_next_src_dst_offset_with_overlap e unset fuel overlap_probability buffer_size cur_size
          src_block_offset dst_block_offset b.src_blocks_lru b.dst_blocks_lru b.gen
        >>= λ p.
            let mismatch_pos = get_or mismatch_positions (i % length mismatch_positions) 0 in
            done (moved (compares call) mismatch_pos cur_size b p)

    unfoldable pub push_for : (i cur_size src_block_offset dst_block_offset : ℕ) → Built → Run Built
    unfolding push_copy push_set push_move
    push_for i cur_size src_block_offset dst_block_offset b = elim call [
      | memcpy ↦ push_copy cur_size src_block_offset dst_block_offset b
      | memset ↦ push_set cur_size dst_block_offset b
      | _ ↦ push_move i cur_size src_block_offset dst_block_offset b
    ]

    -- One turn of the loop.
    unfoldable pub push_next : (i cur_size : ℕ) → Built → Run Built
    unfolding push_for
    push_next i cur_size b =
        let (src_alignment, g1) = alignment_sampler b.gen in
        let (dst_alignment, g2) = alignment_sampler g1 in
        let (src_draw, g3) = uniform_below 63 g2 in
        let (dst_draw, g4) = uniform_below 63 g3 in
        push_for i cur_size (aligned src_draw src_alignment) (aligned dst_draw dst_alignment)
          (record b { gen = g4 })

    unfoldable pub push_from : (left i : ℕ) → (sizes : List ℕ) → Built → Run Built
    unfolding push_next
    push_from zero i sizes b = done b
    push_from (suc left) i sizes b =
        push_next i (get_or sizes (i % length sizes) 0) b >>= λ b'. push_from left (suc i) sizes b'

    -- The checks after the loop.
    unfoldable pub check_parameters : Parameters → Run Parameters
    check_parameters p =
        if not (same_number p.size_bytes p.dst_offset)
        then fatal
        else if not
            (same_number p.size_bytes (elim call [ memset ↦ p.memset_value | _ ↦ p.src_offset ]))
        then fatal
        else if compares call && not (same_number p.size_bytes p.mismatch_pos)
        then fatal
        else done p

    -- From the sampled sizes to the call of the function that is timed.
    unfoldable pub build_parameters : (sizes : List ℕ) → Gen → Run Parameters
    unfolding push_from check_parameters
    build_parameters sizes g =
        let blocks = all_blocks buffer_size in
        let (src_blocks, g1) = shuffle blocks g in
        let (dst_blocks, g2) = shuffle blocks g1 in
        let turns = if ltb (length blocks) (length sizes) then length sizes else length blocks in
        push_from turns 0 sizes (record {
          parameters = no_parameters;
          src_blocks_lru = src_blocks;
          dst_blocks_lru = dst_blocks;
          gen = g2;
        })
        >>= λ b. check_parameters b.parameters
