-- ===== src/Libc/Parameters/Pushes.antt =====
-- mem_benchmark.cc: what one turn of the loop adds to the parameters.
use mathlib.Core.List.Perm
use fleetbench.Prelude.{
  length-Perm, Perm, ℕ, ◌+◌, ◌*◌, ◌%◌, ◌≤◌, ◌<◌, ◌≡◌, inl, ap, ◌∙◌, true, false, List, length,
  get_or, done, ◌>>=◌, arith,
}
use fleetbench.Libc.Offsets.{Engine, Next, Pair, get_next_offset}
use fleetbench.Libc.Offsets.Fits.{IsShuffle, get_next_offset-inside}
use fleetbench.Libc.Offsets.Operands.{
  IsBetween, some_block, get_next_src_dst_offset_with_overlap-IsPlaced,
}
use fleetbench.Libc.Parameters.{
  MemoryCall, compares, copied, filled, moved, all_blocks, Built, push_copy, push_set, push_move,
}
use fleetbench.Libc.Parameters.Ready.{
  all_inside-push_back, inside-push_back, number-push_back, mismatch-push_back, HasBlocks-Perm,
  has_source, IsReady,
}

-- What is documented of the random draws.
pub record IsFair (e : Engine) : Type 0 where
  pub shuffles : IsShuffle e
  pub between : IsBetween e
  pub below : (bound : ℕ) (g : e.Gen) → 0 < bound → (e.uniform_below bound g).0 < bound

module _ (e : Engine) (fair : IsFair e) (call : MemoryCall) (buf : ℕ) where
  -- The state of the loop: parameters in step, and no block lost.
  pub record IsBuilt (b : Built e) : Type 0 where
    pub ready : IsReady call buf b.parameters
    pub src_blocks : Perm b.src_blocks_lru (all_blocks buf)
    pub dst_blocks : Perm b.dst_blocks_lru (all_blocks buf)

  module _ (sampler : e.Gen → ℕ × e.Gen) (unset fuel : ℕ) (p : e.Probability)
      (mismatches : List ℕ) where
    pub push_copy-IsBuilt :
        (size soff doff : ℕ) (b : Built e)
        → compares call ≡ false
        → has_source call ≡ true
        → soff < 64
        → doff < 64
        → size + 126 ≤ buf
        → IsBuilt b
        → (b' : Built e) × (push_copy e sampler unset fuel p call buf mismatches size soff doff b
            ≡ done b')
          × IsBuilt b'
    unfolding push_copy
    push_copy-IsBuilt size soff doff b c h o d small v =
        let (n, got, low, high, same) =
          get_next_offset-inside e fair.shuffles unset b.src_blocks_lru size soff buf 0 0 b.gen (
            some_block b.src_blocks_lru size soff buf 0 0
              (HasBlocks-Perm buf b.src_blocks_lru v.src_blocks) o (omega arith)) in
        let (m, on, left, right, again) =
          get_next_offset-inside e fair.shuffles unset b.dst_blocks_lru size doff buf 0 0 n.gen (
            some_block b.dst_blocks_lru size doff buf 0 0
              (HasBlocks-Perm buf b.dst_blocks_lru v.dst_blocks) d (omega arith)) in
        (
          copied e size b n m,
          ap
                (λ r. r >>= λ (n : Next e).
                  get_next_offset e unset b.dst_blocks_lru size doff buf 0 0 n.gen
                  >>= λ (m : Next e). done (copied e size b n m))
                got
              ∙ ap (λ r. r >>= λ (m : Next e). done (copied e size b n m)) on,
          record {
            ready = record {
              dst_inside =
                  all_inside-push_back buf b.parameters.size_bytes b.parameters.dst_offset size
                    m.offset v.ready.dst_inside (omega arith);
              src_inside =
                  inside-push_back buf b.parameters.size_bytes b.parameters.src_offset size n.offset
                    (omega arith) v.ready.src_inside;
              values = inl h;
              positions = inl c;
            };
            src_blocks = Perm.trans same v.src_blocks;
            dst_blocks = Perm.trans again v.dst_blocks;
          },
        )

    pub push_set-IsBuilt :
        (size doff : ℕ) (b : Built e)
        → compares call ≡ false
        → has_source call ≡ false
        → doff < 64
        → size + 126 ≤ buf
        → IsBuilt b
        → (b' : Built e) × (push_set e sampler unset fuel p call buf mismatches size doff b
            ≡ done b')
          × IsBuilt b'
    unfolding push_set
    push_set-IsBuilt size doff b c h d small v =
        let (n, got, low, high, same) =
          get_next_offset-inside e fair.shuffles unset b.dst_blocks_lru size doff buf 0 0 b.gen (
            some_block b.dst_blocks_lru size doff buf 0 0
              (HasBlocks-Perm buf b.dst_blocks_lru v.dst_blocks) d (omega arith)) in
        (
          filled e size b n,
          ap (λ r. r >>= λ (n : Next e). done (filled e size b n)) got,
          record {
            ready = record {
              dst_inside =
                  all_inside-push_back buf b.parameters.size_bytes b.parameters.dst_offset size
                    n.offset v.ready.dst_inside (omega arith);
              src_inside = inl h;
              values =
                  number-push_back b.parameters.memset_value b.parameters.size_bytes _ size
                    v.ready.values;
              positions = inl c;
            };
            src_blocks = v.src_blocks;
            dst_blocks = Perm.trans same v.dst_blocks;
          },
        )

    pub push_move-IsBuilt :
        (i size soff doff : ℕ) (b : Built e)
        → has_source call ≡ true
        → soff < 64
        → doff < 64
        → 4 * size + 192 ≤ buf
        → length (all_blocks buf) ≤ fuel
        → IsBuilt b
        → (b' : Built e) × (push_move e sampler unset fuel p call buf mismatches i size soff doff b
            ≡ done b')
          × IsBuilt b'
    unfolding push_move
    push_move-IsBuilt i size soff doff b h o d small enough v =
        let m = get_or mismatches (i % length mismatches) 0 in
        let (q, got, placed) =
          get_next_src_dst_offset_with_overlap-IsPlaced e fair.shuffles unset buf size soff doff
            fuel b.src_blocks_lru b.dst_blocks_lru p b.gen fair.between o d small
            (HasBlocks-Perm buf b.src_blocks_lru v.src_blocks)
            (HasBlocks-Perm buf b.dst_blocks_lru v.dst_blocks)
            (omega (arith, enough, length-Perm b.dst_blocks_lru (all_blocks buf) v.dst_blocks)) in
        (
          moved e (compares call) m size b q,
          ap (λ r. r >>= λ (q : Pair e). done (moved e (compares call) m size b q)) got,
          record {
            ready = record {
              dst_inside =
                  all_inside-push_back buf b.parameters.size_bytes b.parameters.dst_offset size
                    q.dst_offset v.ready.dst_inside placed.dst_inside;
              src_inside =
                  inside-push_back buf b.parameters.size_bytes b.parameters.src_offset size
                    q.src_offset placed.src_inside v.ready.src_inside;
              values = inl h;
              positions =
                  mismatch-push_back (compares call) b.parameters.mismatch_pos
                    b.parameters.size_bytes m size v.ready.positions;
            };
            src_blocks = Perm.trans placed.src_blocks v.src_blocks;
            dst_blocks = Perm.trans placed.dst_blocks v.dst_blocks;
          },
        )
