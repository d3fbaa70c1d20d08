-- ===== src/Libc/Buffers/Marks.antt =====
-- mem_benchmark.cc: the buffers are equal between two comparisons, and in one they differ where the
-- mark makes them.
use fleetbench.Prelude.{
  ℕ, zero, suc, ◌+◌, ◌-◌, ◌^◌, ◌≡◌, ◌≢◌, ◌≤◌, ◌<◌, ◌&&◌, refl, ap, ◌∙◌, true, List, [], ◌∷◌, map,
  ltb, ◌==◌, if◌then◌else◌, if_cases, Bool-cases, inl, inr, ◌⊎◌, Bytes, get_or, set, replicate,
  Option, none, some, arith,
}
use fleetbench.Libc.Buffers.{
  fresh_buffer, mark_at, mark, reset_mark, stored_position, Comparison, compare_once, compare_all,
}

set_same : (buf : Bytes) (i v w : ℕ) → set (set buf i v) i w ≡ set buf i w
set_same [] i v w = refl
set_same (x ∷ xs) zero v w = refl
set_same (x ∷ xs) (suc i) v w = ap (◌∷◌ x) (set_same xs i v w)

set-replicate : (n i v : ℕ) → set (replicate n v) i v ≡ replicate n v
set-replicate zero i v = refl
set-replicate (suc n) zero v = refl
set-replicate (suc n) (suc i) v = ap (◌∷◌ v) (set-replicate n i v)

reset_mark-mark :
    (n offset pos : ℕ) → reset_mark (mark (fresh_buffer n) offset pos) offset pos ≡ fresh_buffer n
unfolding reset_mark mark
reset_mark-mark n offset pos =
    if_cases (λ b. (if ltb 0 pos then set b (mark_at offset pos) 255 else b) ≡ fresh_buffer n)
      (ltb 0 pos) _ _
      (λ h. rw (h) (
        set_same (fresh_buffer n) (mark_at offset pos) 0 255
        ∙ set-replicate n (mark_at offset pos) 255))
      (λ h. rw (h) refl)

module _ {Res : Type 0} (cmp : Bytes → (dst src size : ℕ) → Res) (n : ℕ) where
  -- The loop leaves the buffer as it was made, and every comparison of it is one of a new buffer that
  -- has its own mark.
  pub compare_all-fresh :
      (cs : List Comparison)
      → compare_all cmp cs (fresh_buffer n)
        ≡ (map (λ c. (compare_once cmp c (fresh_buffer n)).0) cs, fresh_buffer n)
  unfolding compare_all compare_once
  compare_all-fresh [] = refl
  compare_all-fresh (c ∷ cs) =
      rw (reset_mark-mark n c.dst_offset (stored_position c.mismatch_pos), compare_all-fresh cs)
        refl

-- The first byte at which two ranges of a buffer differ.
abbrev pub differ_from : Bytes → (dst src i left : ℕ) → Option ℕ
differ_from buf dst src i zero = none
differ_from buf dst src i (suc left) =
    let later = differ_from buf dst src (suc i) left in
    if get_or buf (dst + i) 0 == get_or buf (src + i) 0 then later else some i

abbrev pub first_difference : Bytes → (dst src size : ℕ) → Option ℕ
first_difference buf dst src size = differ_from buf dst src 0 size

-- A byte of a marked buffer.
abbrev pub marked_byte : (m j : ℕ) → ℕ
marked_byte m j = if j == m then 0 else 255

get_or-replicate : (n j v : ℕ) → j < n → get_or (replicate n v) j 0 ≡ v
get_or-replicate zero j v h = absurd (omega arith)
get_or-replicate (suc n) zero v h = refl
get_or-replicate (suc n) (suc j) v h = get_or-replicate n j v (omega arith)

get_or-mark : (n m j : ℕ) → j < n → get_or (set (replicate n 255) m 0) j 0 ≡ marked_byte m j
get_or-mark zero m j h = absurd (omega arith)
get_or-mark (suc n) zero zero h = refl
get_or-mark (suc n) zero (suc j) h = ground (arith, get_or-replicate n j 255 (omega arith))
get_or-mark (suc n) (suc m) zero h = ground arith
get_or-mark (suc n) (suc m) (suc j) h = ground (arith, get_or-mark n m j (omega arith))

-- Where two ranges agree up to a byte and differ there, it is the first.
differ_from-some :
    (buf : Bytes) (dst src k left i : ℕ)
    → i ≤ k
    → k < i + left
    → ((j : ℕ) → j < k → get_or buf (dst + j) 0 ≡ get_or buf (src + j) 0)
    → get_or buf (dst + k) 0 ≢ get_or buf (src + k) 0
    → differ_from buf dst src i left ≡ some k
differ_from-some buf dst src k zero i h f same differ = absurd (omega arith)
differ_from-some buf dst src k (suc left) i h f same differ = elim (Bool-cases (i == k)) [
  | inl here ↦ ground arith
  | inr later ↦
      let next =
        differ_from-some buf dst src k left (suc i) (ground arith) (omega arith) same differ in
      ground (arith, next, same i (ground arith))
]

differ_from-none :
    (buf : Bytes) (dst src left i : ℕ)
    → ((j : ℕ) → j < i + left → get_or buf (dst + j) 0 ≡ get_or buf (src + j) 0)
    → differ_from buf dst src i left ≡ none
differ_from-none buf dst src zero i same = refl
differ_from-none buf dst src (suc left) i same =
    let next = differ_from-none buf dst src left (suc i) (λ j h. same j (omega arith)) in
    ground (arith, next, same i (omega arith))

-- The byte at which a comparison sees the mark: none where the operands are the same, one of the
-- source where it holds the marked byte earlier than the destination, else the one that was meant.
abbrev pub seen_at : (dst src mismatch_pos : ℕ) → Option ℕ
seen_at dst src mismatch_pos =
    if dst == src
    then none
    else if ltb dst src && ltb (src - dst) mismatch_pos
    then some (mismatch_pos - 1 - (src - dst))
    else some (mismatch_pos - 1)

module _ (buf : Bytes) (n dst src size pos : ℕ) (d : dst + size ≤ n) (s : src + size ≤ n)
    (more : 0 < pos) (inside : pos ≤ size)
    (byte : (j : ℕ) → j < n → get_or buf j 0 ≡ marked_byte (dst + pos - 1) j) where
  differ-seen_at : first_difference buf dst src size ≡ seen_at dst src pos
  differ-seen_at = elim (Bool-cases (dst == src)) [
    | inl one ↦
        let equal : dst ≡ src = ground arith in
        differ_from-none buf dst src size 0 (λ j h. ap (λ o. get_or buf (o + j) 0) equal)
        ∙ ground arith
    | inr two ↦ elim (Bool-cases (ltb dst src && ltb (src - dst) pos)) [
      | inl early ↦
          differ_from-some buf dst src (pos - 1 - (src - dst)) size 0 (omega arith) (ground arith)
            (λ j h. ground (arith, byte (dst + j) (ground arith), byte (src + j) (ground arith)))
            (ground (
              arith,
              byte (dst + (pos - 1 - (src - dst))) (ground arith),
              byte (src + (pos - 1 - (src - dst))) (ground arith),
            ))
          ∙ ground arith
      | inr late ↦
          differ_from-some buf dst src (pos - 1) size 0 (omega arith) (omega arith)
            (λ j h. ground (arith, byte (dst + j) (omega arith), byte (src + j) (omega arith)))
            (ground
              (arith, byte (dst + (pos - 1)) (omega arith), byte (src + (pos - 1)) (omega arith)))
          ∙ ground arith
    ]
  ]

-- In a buffer of equal bytes that is marked for a comparison, the two operands, which may
-- overlap, first differ at the mark: as the destination has it or, where the destination lies first and
-- the source reaches the mark, as the source does. Where they are one, they do not differ.
pub mark-first_difference :
    (n dst src size mismatch_pos : ℕ)
    → n < 2 ^ 63
    → dst + size ≤ n
    → src + size ≤ n
    → 0 < mismatch_pos
    → mismatch_pos ≤ size
    → first_difference (mark (fresh_buffer n) dst mismatch_pos) dst src size
      ≡ seen_at dst src mismatch_pos
unfolding mark
mark-first_difference n dst src size mismatch_pos small d s more inside =
    let at : mark_at dst mismatch_pos ≡ dst + mismatch_pos - 1 = omega arith in
    let is_marked : ltb 0 mismatch_pos ≡ true = ground arith in
    rw (is_marked, at)
      (differ-seen_at (set (fresh_buffer n) (dst + mismatch_pos - 1) 0) n dst src size mismatch_pos
        d s more inside (λ j h. get_or-mark n (dst + mismatch_pos - 1) j h))

-- A mark lies in the destination where its position is less than 2^15. Another position, below
-- 2^16, is stored as a negative number, and the mark lies before the destination, or before the buffer.
pub mark_at-stored :
    (dst size mismatch_pos : ℕ)
    → dst + size < 2 ^ 63
    → 0 < mismatch_pos
    → mismatch_pos ≤ size
    → mismatch_pos < 2 ^ 16
    → ((mismatch_pos < 2 ^ 15)
        × (dst ≤ mark_at dst (stored_position mismatch_pos))
        × (mark_at dst (stored_position mismatch_pos) < dst + size))
      ⊎ ((2 ^ 15 ≤ mismatch_pos)
          × ((mark_at dst (stored_position mismatch_pos) < dst)
              ⊎ (2 ^ 63 ≤ mark_at dst (stored_position mismatch_pos))))
mark_at-stored dst size mismatch_pos small more inside half = ground arith
