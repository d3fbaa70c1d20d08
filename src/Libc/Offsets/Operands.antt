-- ===== src/Libc/Offsets/Operands.antt =====
-- mem_benchmark.cc: `GetNextSrcDstOffsetWithOverlap` leaves both operands in the buffer, and they
-- overlap as drawn.
use mathlib.Core.List.{Perm}
use mathlib.Core.List.Perm
use fleetbench.Prelude.{
  any, ℕ, zero, suc, ◌+◌, ◌-◌, ◌*◌, ◌/◌, ◌≤◌, ◌<◌, ◌≡◌, inl, inr, refl, ap, ◌∙◌, Bool, true, false,
  ◌&&◌, List, length, ltb, leb, ◌==◌, if◌then◌else◌, Run, done, ◌>>=◌, Bool-cases, ℤ, pos, negsuc,
  arith,
}
use fleetbench.Libc.Offsets.{
  Engine, fits, check_overlap, below_zero, above_zero, Next, pick_apart, Pair, place_by, overlap_by,
  keep_apart, get_next_src_dst_offset_with_overlap,
}
use fleetbench.Libc.Offsets.Fits.{IsShuffle, get_next_offset-inside}
use fleetbench.Libc.Offsets.Position.{position-length}
use fleetbench.Libc.Offsets.Apart.{IsSafe, any-fits, pick_apart-done}

-- The list has the start of every cache line of the buffer.
abbrev pub HasBlocks : (buffer_size : ℕ) → List ℕ → Type 0
HasBlocks buffer_size lru = (i : ℕ) → 64 * i < buffer_size → any (◌==◌ (64 * i)) lru ≡ true

-- The last block on which an operation of this size ends in the buffer.
abbrev last_block : (size off buf : ℕ) → ℕ
last_block size off buf = (buf - off - size) / 64

-- For operations of at most a third of the buffer less a cache line, whatever block and offsets the
-- source has, there is a block for the destination that does not overlap it.
pub block_apart :
    (src size off buf : ℕ)
    → off < 64
    → size ≤ buf / 3 - 64
    → 192 < buf
    → src + size ≤ buf
    → (i : ℕ) × (64 * i < buf)
      × (fits size off buf 0 0 (64 * i) ≡ true)
      × (check_overlap src (64 * i + off) size ≡ false)
block_apart src size off buf o small big inside = elim (Bool-cases (leb (off + size) src)) [
  | inl far ↦ (0, omega arith, ground arith, ground arith)
  | inr near ↦ (last_block size off buf, ground arith, ground arith, ground arith)
]

-- One of them is safe, where an operation takes less than a quarter of the buffer.
IsSafe-block :
    (src size off buf : ℕ)
    → off < 64
    → 4 * size + 192 ≤ buf
    → src + size ≤ buf
    → (i : ℕ) × (64 * i < buf) × IsSafe src size off buf (64 * i)
IsSafe-block src size off buf o small inside = elim (Bool-cases (leb (off + size) src)) [
  | inl far ↦ (
    0,
    omega arith,
    record { fit = ground arith; apart = ground arith; unreached = λ b h. ground arith },
  )
  | inr near ↦ (
    last_block size off buf,
    ground arith,
    record { fit = ground arith; apart = ground arith; unreached = λ b h. ground arith },
  )
]

-- The first block behind the left margin.
abbrev block_behind : ℕ → ℕ
block_behind left = (left + 63) / 64

pub some_block :
    (lru : List ℕ) (size off buf left right : ℕ)
    → HasBlocks buf lru
    → off < 64
    → left + right + size + 126 ≤ buf
    → any (fits size off buf left right) lru ≡ true
some_block lru size off buf left right blocks o small =
    let t = 64 * block_behind left in
    any-fits (fits size off buf left right) t lru (ground arith)
      (blocks (block_behind left) (ground arith))

one_sided :
    (offset : ℤ) (size buf : ℕ)
    → below_zero offset ≤ size - 1
    → above_zero offset ≤ size - 1
    → 4 * size + 192 ≤ buf
    → below_zero offset + above_zero offset + size + 126 ≤ buf
one_sided (pos n) size buf below above small = omega arith
one_sided (negsuc n) size buf below above small = omega arith

-- Operands that are less than their size apart overlap, unless the size is 0.
overlaps :
    (src left right size : ℕ)
    → left ≤ size - 1
    → right ≤ size - 1
    → check_overlap src (src + right - left) size ≡ ltb 0 size
overlaps src left right zero h k = ground (arith, h, k)
overlaps src left right (suc size) h k = ground (arith, h, k)

starts : (at left right off : ℕ) → left + off ≤ at → leb left (at + right) ≡ true
starts at left right off h = ground arith

ends :
    (at left right size buf : ℕ)
    → at + size + right ≤ buf
    → leb (at + right - left + size) buf ≡ true
ends at left right size buf h = ground arith

-- What is known of a draw strictly between -size and size; from the empty interval of size 0, it is the
-- interval's bound, 0.
abbrev pub IsBetween : Engine → Type 0
IsBetween e =
    (size : ℕ) (g : e.Gen)
    → (below_zero (e.uniform_between size g).0 ≤ size - 1)
      × (above_zero (e.uniform_between size g).0 ≤ size - 1)

module _ (e : Engine) where
  -- What a call returns: both operands lie in the buffer, they overlap or not, and no block is lost.
  pub record IsPlaced (buffer_size size : ℕ) (overlap : Bool) (src_lru dst_lru : List ℕ)
      (p : Pair e) : Type 0 where
    pub src_inside : p.src_offset + size ≤ buffer_size
    pub dst_inside : p.dst_offset + size ≤ buffer_size
    pub overlap_as_drawn : check_overlap p.src_offset p.dst_offset size ≡ overlap
    pub src_blocks : Perm p.src_blocks_lru src_lru
    pub dst_blocks : Perm p.dst_blocks_lru dst_lru

module _ (e : Engine) (s : IsShuffle e) where
  as_drawn :
      (buf size : ℕ) (src_lru dst_lru : List ℕ) (overlap : Bool) {x y : Run (Pair e)}
      → (p : Pair e) × (x ≡ done p) × IsPlaced e buf size (ltb 0 size) src_lru dst_lru p
      → (p : Pair e) × (y ≡ done p) × IsPlaced e buf size false src_lru dst_lru p
      → (p : Pair e) × ((if overlap then x else y) ≡ done p)
        × IsPlaced e buf size (overlap && ltb 0 size) src_lru dst_lru p
  as_drawn buf size src_lru dst_lru true h k = h
  as_drawn buf size src_lru dst_lru false h k = k

  module _ (unset buf size soff doff : ℕ) (src_lru dst_lru : List ℕ) (o : soff < 64) (d : doff < 64)
      (small : 4 * size + 192 ≤ buf) (src_has : HasBlocks buf src_lru)
      (dst_has : HasBlocks buf dst_lru) where
    place_by-IsPlaced :
        (offset : ℤ) (n : Next e)
        → below_zero offset ≤ size - 1
        → above_zero offset ≤ size - 1
        → below_zero offset + soff ≤ n.offset
        → n.offset + size + above_zero offset ≤ buf
        → Perm n.blocks_lru src_lru
        → (p : Pair e) × (place_by e offset buf size dst_lru n ≡ done p)
          × IsPlaced e buf size (ltb 0 size) src_lru dst_lru p
    unfolding place_by
    place_by-IsPlaced offset n below above low high same =
        let dst = n.offset + above_zero offset - below_zero offset in
        let start : leb (below_zero offset) (n.offset + above_zero offset) ≡ true =
          starts n.offset (below_zero offset) (above_zero offset) soff low in
        let end : leb (dst + size) buf ≡ true =
          ends n.offset (below_zero offset) (above_zero offset) size buf high in
        (
          record {
            src_offset = n.offset;
            dst_offset = dst;
            src_blocks_lru = n.blocks_lru;
            dst_blocks_lru = dst_lru;
            gen = n.gen;
          },
          rw (start, end) refl,
          record {
            src_inside = omega arith;
            dst_inside = omega arith;
            overlap_as_drawn =
                overlaps n.offset (below_zero offset) (above_zero offset) size below above;
            src_blocks = same;
            dst_blocks = Perm.refl dst_lru;
          },
        )

    overlap_by-IsPlaced :
        (offset : ℤ) (g : e.Gen)
        → below_zero offset ≤ size - 1
        → above_zero offset ≤ size - 1
        → (p : Pair e) × (overlap_by e unset offset buf size soff src_lru dst_lru g ≡ done p)
          × IsPlaced e buf size (ltb 0 size) src_lru dst_lru p
    unfolding overlap_by
    overlap_by-IsPlaced offset g below above =
        let left = below_zero offset in
        let right = above_zero offset in
        let (n, got, low, high, same) =
          get_next_offset-inside e s unset src_lru size soff buf left right g (
            some_block src_lru size soff buf left right src_has o
              (one_sided offset size buf below above small)) in
        let (p, on, placed) = place_by-IsPlaced offset n below above low high same in
        (p, ap (λ r. r >>= place_by e offset buf size dst_lru) got ∙ on, placed)

    keep_apart-IsPlaced :
        (fuel : ℕ) (g : e.Gen)
        → length dst_lru ≤ fuel
        → (p : Pair e) × (keep_apart e unset fuel buf size soff doff src_lru dst_lru g ≡ done p)
          × IsPlaced e buf size false src_lru dst_lru p
    unfolding keep_apart
    keep_apart-IsPlaced fuel g enough =
        let (n, got, low, high, same) =
          get_next_offset-inside e s unset src_lru size soff buf 0 0 g
            (some_block src_lru size soff buf 0 0 src_has o (omega arith)) in
        let (i, in_range, safe) = IsSafe-block n.offset size doff buf d small (omega arith) in
        let (m, on, apart, inside, again) =
          pick_apart-done e s unset fuel n.offset size doff buf (64 * i) dst_lru n.gen safe
            (dst_has i in_range)
            (omega (arith, position-length (64 * i) dst_lru (dst_has i in_range))) in
        let pair : Next e → Next e → Pair e = λ n m. record {
          src_offset = n.offset;
          dst_offset = m.offset;
          src_blocks_lru = n.blocks_lru;
          dst_blocks_lru = m.blocks_lru;
          gen = m.gen;
        } in
        (
          pair n m,
          ap
                (λ r. r >>= λ (n : Next e).
                  pick_apart e unset fuel n.offset size doff buf dst_lru n.gen >>= λ (m : Next e).
                  done (pair n m))
                got
              ∙ ap (λ r. r >>= λ (m : Next e). done (pair n m)) on,
          record {
            src_inside = omega arith;
            dst_inside = inside;
            overlap_as_drawn = apart;
            src_blocks = same;
            dst_blocks = again;
          },
        )

  -- Where four times the size and 192 bytes fit in the buffer, the call returns: both operands lie in
  -- the buffer, they overlap exactly where the draw said so and the size is above 0, and the lists
  -- keep their blocks. As many turns of the loop as there are blocks are enough, for every way to
  -- shuffle.
  pub get_next_src_dst_offset_with_overlap-IsPlaced :
      (unset buf size soff doff fuel : ℕ) (src_lru dst_lru : List ℕ) (probability : e.Probability)
      (g : e.Gen)
      → IsBetween e
      → soff < 64
      → doff < 64
      → 4 * size + 192 ≤ buf
      → HasBlocks buf src_lru
      → HasBlocks buf dst_lru
      → length dst_lru ≤ fuel
      → (p : Pair e) × (get_next_src_dst_offset_with_overlap e unset fuel probability buf size soff
            doff src_lru dst_lru g
          ≡ done p)
        × IsPlaced e buf size ((e.bernoulli probability g).0 && ltb 0 size) src_lru dst_lru p
  unfolding get_next_src_dst_offset_with_overlap
  get_next_src_dst_offset_with_overlap-IsPlaced unset buf size soff doff fuel src_lru dst_lru
        probability g between o d small src_has dst_has enough =
      let g' = (e.bernoulli probability g).1 in
      let (below, above) = between size g' in
      as_drawn buf size src_lru dst_lru (e.bernoulli probability g).0
        (overlap_by-IsPlaced unset buf size soff doff src_lru dst_lru o d small src_has dst_has
          (e.uniform_between size g').0 (e.uniform_between size g').1 below above)
        (keep_apart-IsPlaced unset buf size soff doff src_lru dst_lru o d small src_has dst_has fuel
          g' enough)
