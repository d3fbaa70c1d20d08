-- ===== src/Libc/Parameters/Inside.antt =====
-- mem_benchmark.cc: the parameters with which a memory function is timed keep it in its buffers.
use native.Mathlib.Nat.{mod-lt}
use fleetbench.Prelude.{
  ℕ, zero, suc, ◌%◌, ◌≤◌, ◌<◌, ◌≡◌, inr, refl, ap, ◌∙◌, true, List, ltb, if◌then◌else◌, length,
  get_or, done, ◌>>=◌, arith,
}
use fleetbench.Libc.Offsets.{Engine}
use fleetbench.Libc.Parameters.{
  MemoryCall, memcpy, memmove, memcmp, bcmp, memset, Parameters, no_parameters, aligned, all_blocks,
  Built, push_for, push_next, push_from, check_parameters, build_parameters,
}
use fleetbench.Libc.Parameters.Ready.{
  all_inside-length, inside-length, aligned-below, IsReady, is_small, all_small, get_or-small,
}
use fleetbench.Libc.Parameters.Pushes.{
  IsFair, IsBuilt, push_copy-IsBuilt, push_set-IsBuilt, push_move-IsBuilt,
}

module _ (e : Engine) (fair : IsFair e) (buf : ℕ) (sampler : e.Gen → ℕ × e.Gen) (unset fuel : ℕ)
    (p : e.Probability) (mismatches : List ℕ) (enough : length (all_blocks buf) ≤ fuel) where
  push_for-IsBuilt :
      (call : MemoryCall) (i size soff doff : ℕ) (b : Built e)
      → soff < 64
      → doff < 64
      → is_small call buf size ≡ true
      → IsBuilt e fair call buf b
      → (b' : Built e) × (push_for e sampler unset fuel p call buf mismatches i size soff doff b
          ≡ done b')
        × IsBuilt e fair call buf b'
  unfolding push_for
  push_for-IsBuilt memcpy i size soff doff b o d small v =
      push_copy-IsBuilt e fair memcpy buf sampler unset fuel p mismatches size soff doff b refl refl
        o d (ground arith) v
  push_for-IsBuilt memset i size soff doff b o d small v =
      push_set-IsBuilt e fair memset buf sampler unset fuel p mismatches size doff b refl refl d
        (ground arith) v
  push_for-IsBuilt memmove i size soff doff b o d small v =
      push_move-IsBuilt e fair memmove buf sampler unset fuel p mismatches i size soff doff b refl o
        d (ground arith) enough v
  push_for-IsBuilt memcmp i size soff doff b o d small v =
      push_move-IsBuilt e fair memcmp buf sampler unset fuel p mismatches i size soff doff b refl o
        d (ground arith) enough v
  push_for-IsBuilt bcmp i size soff doff b o d small v =
      push_move-IsBuilt e fair bcmp buf sampler unset fuel p mismatches i size soff doff b refl o d
        (ground arith) enough v

  module _ (call : MemoryCall) where
    push_next-IsBuilt :
        (i size : ℕ) (b : Built e)
        → is_small call buf size ≡ true
        → IsBuilt e fair call buf b
        → (b' : Built e) × (push_next e sampler unset fuel p call buf mismatches i size b ≡ done b')
          × IsBuilt e fair call buf b'
    unfolding push_next
    push_next-IsBuilt i size b small v =
        let draw : e.Gen → ℕ × e.Gen = e.uniform_below 63 in
        let src = sampler b.gen in
        let dst = sampler src.1 in
        let src_draw = draw dst.1 in
        let dst_draw = draw src_draw.1 in
        push_for-IsBuilt call i size (aligned src_draw.0 src.0) (aligned dst_draw.0 dst.0)
          (record b { gen = dst_draw.1 })
          (aligned-below src_draw.0 src.0 64 (omega (arith, fair.below 63 dst.1 (omega arith))))
          (aligned-below dst_draw.0 dst.0 64
            (omega (arith, fair.below 63 src_draw.1 (omega arith))))
          small (record { ready = v.ready; src_blocks = v.src_blocks; dst_blocks = v.dst_blocks })

    push_from-IsBuilt :
        (left i : ℕ) (sizes : List ℕ) (b : Built e)
        → 0 < length sizes
        → all_small call buf sizes ≡ true
        → IsBuilt e fair call buf b
        → (b' : Built e) × (push_from e sampler unset fuel p call buf mismatches left i sizes b
            ≡ done b')
          × IsBuilt e fair call buf b'
    unfolding push_from
    push_from-IsBuilt zero i sizes b more small v = (b, refl, v)
    push_from-IsBuilt (suc left) i sizes b more small v =
        let (d, on, w) =
          push_next-IsBuilt i (get_or sizes (i % length sizes) 0) b
            (get_or-small call buf sizes (i % length sizes) small (mod-lt i more)) v in
        let (d', rest, w') = push_from-IsBuilt left (suc i) sizes d more small w in
        (
          d',
          ap
                (λ r. r >>= λ (c : Built e).
                  push_from e sampler unset fuel p call buf mismatches left (suc i) sizes c)
                on
              ∙ rest,
          w',
        )

  check_parameters-ready :
      (call : MemoryCall) (q : Parameters)
      → IsReady call buf q
      → check_parameters e sampler unset fuel p call buf mismatches q ≡ done q
  unfolding check_parameters
  check_parameters-ready memcpy q v = ground (
    arith,
    all_inside-length buf q.size_bytes q.dst_offset v.dst_inside,
    inside-length buf q.size_bytes q.src_offset v.src_inside,
  )
  check_parameters-ready memmove q v = ground (
    arith,
    all_inside-length buf q.size_bytes q.dst_offset v.dst_inside,
    inside-length buf q.size_bytes q.src_offset v.src_inside,
  )
  check_parameters-ready memcmp q v = ground (
    arith,
    all_inside-length buf q.size_bytes q.dst_offset v.dst_inside,
    inside-length buf q.size_bytes q.src_offset v.src_inside,
    v.positions,
  )
  check_parameters-ready bcmp q v = ground (
    arith,
    all_inside-length buf q.size_bytes q.dst_offset v.dst_inside,
    inside-length buf q.size_bytes q.src_offset v.src_inside,
    v.positions,
  )
  check_parameters-ready memset q v =
      ground (arith, all_inside-length buf q.size_bytes q.dst_offset v.dst_inside, v.values)

-- The parameters of a benchmark are built, and keep every operand in its buffer, where each sampled size
-- leaves room: a size and 126 bytes fit in the buffer or, where the operands may overlap, four times the
-- size and 192 bytes fit. Each vector that the function reads then has
-- an element for each size. (The draws are in their ranges; as many turns as there are blocks are given
-- to each search for operands that lie apart.)
pub build_parameters-IsReady :
    (e : Engine) (call : MemoryCall) (buf unset fuel : ℕ) (sampler : e.Gen → ℕ × e.Gen)
    (p : e.Probability) (sizes mismatches : List ℕ) (g : e.Gen)
    → IsFair e
    → 0 < length sizes
    → all_small call buf sizes ≡ true
    → length (all_blocks buf) ≤ fuel
    → (q : Parameters) × (build_parameters e sampler unset fuel p call buf mismatches sizes g
        ≡ done q)
      × IsReady call buf q
unfolding build_parameters
build_parameters-IsReady e call buf unset fuel sampler p sizes mismatches g fair more small enough =
    let blocks = all_blocks buf in
    let src = e.shuffle blocks g in
    let dst = e.shuffle blocks src.1 in
    let turns = if ltb (length blocks) (length sizes) then length sizes else length blocks in
    let start : Built e = record {
      parameters = no_parameters;
      src_blocks_lru = src.0;
      dst_blocks_lru = dst.0;
      gen = dst.1;
    } in
    let ready : IsReady call buf no_parameters = record {
      dst_inside = refl;
      src_inside = inr refl;
      values = inr refl;
      positions = inr refl;
    } in
    let (b, on, v) =
      push_from-IsBuilt e fair buf sampler unset fuel p mismatches enough call turns 0 sizes start
        more small
        (record {
          ready = ready;
          src_blocks = fair.shuffles blocks g;
          dst_blocks = fair.shuffles blocks src.1;
        }) in
    (
      b.parameters,
      ap
            (λ r. r >>= λ (c : Built e).
              check_parameters e sampler unset fuel p call buf mismatches c.parameters)
            on
          ∙ check_parameters-ready e fair buf sampler unset fuel p mismatches enough call
              b.parameters v.ready,
      v.ready,
    )
