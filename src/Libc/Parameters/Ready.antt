-- ===== src/Libc/Parameters/Ready.antt =====
-- mem_benchmark.cc: when the parameters of a memory function keep it in its buffers, and when its
-- operands find room.
use native.Mathlib.Nat.{div-mul-le_self}
use fleetbench.Prelude.{
  any, any-Perm, Perm, ℕ, zero, suc, ◌+◌, ◌*◌, ◌/◌, ◌^◌, ◌≤◌, ◌<◌, ◌≡◌, ◌⊎◌, inl, inr, refl, sym,
  ap, ◌∙◌, Bool, true, false, ◌&&◌, List, [], ◌∷◌, leb, ◌==◌, if◌then◌else◌, Bool-cases, length,
  get_or, arith,
}
use fleetbench.Libc.Offsets.Operands.{HasBlocks}
use fleetbench.Libc.Parameters.{
  MemoryCall, memset, compares, may_overlap, Parameters, push_back, aligned, blocks_from,
  all_blocks,
}

-- Each operand ends in the buffer, and there are as many sizes as offsets.
abbrev pub all_inside : (buffer_size : ℕ) → (sizes offsets : List ℕ) → Bool
all_inside buf [] [] = true
all_inside buf (s ∷ ss) (o ∷ os) = leb (o + s) buf && all_inside buf ss os
all_inside buf _ _ = false

pub all_inside-push_back :
    (buf : ℕ) (ss os : List ℕ) (s o : ℕ)
    → all_inside buf ss os ≡ true
    → o + s ≤ buf
    → all_inside buf (push_back ss s) (push_back os o) ≡ true
all_inside-push_back buf [] [] s o h k = ground arith
all_inside-push_back buf [] (o' ∷ os) s o h k = cc
all_inside-push_back buf (s' ∷ ss) [] s o h k = cc
all_inside-push_back buf (s' ∷ ss) (o' ∷ os) s o h k =
    ground (arith, all_inside-push_back buf ss os s o (ground arith) k)

pub all_inside-length :
    (buf : ℕ) (ss os : List ℕ) → all_inside buf ss os ≡ true → length ss ≡ length os
all_inside-length buf [] [] h = refl
all_inside-length buf [] (o ∷ os) h = cc
all_inside-length buf (s ∷ ss) [] h = cc
all_inside-length buf (s ∷ ss) (o ∷ os) h = ap suc (all_inside-length buf ss os (ground arith))

pub length-push_back : (xs : List ℕ) (x : ℕ) → length (push_back xs x) ≡ suc (length xs)
length-push_back [] x = refl
length-push_back (y ∷ xs) x = ap suc (length-push_back xs x)

-- The cache lines are the blocks of a buffer.
blocks_from-has :
    (left start i j : ℕ)
    → start ≡ 64 * j
    → j ≤ i
    → i < j + left
    → any (◌==◌ (64 * i)) (blocks_from left start) ≡ true
blocks_from-has zero start i j e h k = absurd (omega arith)
blocks_from-has (suc left) start i j e h k = elim (Bool-cases (i == j)) [
  | inl here ↦ ground arith
  | inr later ↦ ground (
    arith,
    blocks_from-has left (start + 64) i (suc j) (omega arith) (ground arith) (omega arith),
  )
]

pub all_blocks-HasBlocks : (buf : ℕ) → HasBlocks buf (all_blocks buf)
all_blocks-HasBlocks buf i h =
    blocks_from-has ((buf + 63) / 64) 0 i 0 refl (omega arith) (ground arith)

pub HasBlocks-Perm : (buf : ℕ) (xs : List ℕ) → Perm xs (all_blocks buf) → HasBlocks buf xs
HasBlocks-Perm buf xs p i h =
    any-Perm (◌==◌ (64 * i)) xs (all_blocks buf) p ∙ all_blocks-HasBlocks buf i h

pub aligned-below : (draw a bound : ℕ) → draw < bound → aligned draw a < bound
aligned-below draw a bound h = omega (arith, div-mul-le_self draw (2 ^ a))

-- Which functions have a source, and which one a value.
abbrev pub has_source : MemoryCall → Bool
has_source memset = false
has_source _ = true

-- Parameters in step.
pub record IsReady (call : MemoryCall) (buf : ℕ) (p : Parameters) : Type 0 where
  pub dst_inside : all_inside buf p.size_bytes p.dst_offset ≡ true
  pub src_inside : (has_source call ≡ false) ⊎ (all_inside buf p.size_bytes p.src_offset ≡ true)
  pub values : (has_source call ≡ true) ⊎ (length p.memset_value ≡ length p.size_bytes)
  pub positions : (compares call ≡ false) ⊎ (length p.mismatch_pos ≡ length p.size_bytes)

-- A size with which the operands of a function find room.
abbrev pub is_small : MemoryCall → (buffer_size size : ℕ) → Bool
is_small call buf size = if may_overlap call then leb (4 * size + 192) buf else leb (size + 126) buf

abbrev pub all_small : MemoryCall → (buffer_size : ℕ) → List ℕ → Bool
all_small call buf [] = true
all_small call buf (size ∷ sizes) = is_small call buf size && all_small call buf sizes

pub get_or-small :
    (call : MemoryCall) (buf : ℕ) (sizes : List ℕ) (i : ℕ)
    → all_small call buf sizes ≡ true
    → i < length sizes
    → is_small call buf (get_or sizes i 0) ≡ true
get_or-small call buf [] i h k = absurd (omega arith)
get_or-small call buf (s ∷ ss) zero h k = ground arith
get_or-small call buf (s ∷ ss) (suc i) h k = get_or-small call buf ss i (ground arith) (omega arith)

-- What holds of the vectors that a function does not need, or has in step.
pub inside-push_back :
    {P : Type 0} (buf : ℕ) (ss os : List ℕ) (s o : ℕ)
    → o + s ≤ buf
    → P ⊎ (all_inside buf ss os ≡ true)
    → P ⊎ (all_inside buf (push_back ss s) (push_back os o) ≡ true)
inside-push_back buf ss os s o k (inl p) = inl p
inside-push_back buf ss os s o k (inr h) = inr (all_inside-push_back buf ss os s o h k)

pub number-push_back :
    {P : Type 0} (xs ss : List ℕ) (x s : ℕ)
    → P ⊎ (length xs ≡ length ss)
    → P ⊎ (length (push_back xs x) ≡ length (push_back ss s))
number-push_back xs ss x s (inl p) = inl p
number-push_back xs ss x s (inr h) =
    inr (length-push_back xs x ∙ ap suc h ∙ sym (length-push_back ss s))

pub mismatch-push_back :
    (comparison : Bool) (xs ss : List ℕ) (x s : ℕ)
    → (comparison ≡ false) ⊎ (length xs ≡ length ss)
    → (comparison ≡ false)
      ⊎ (length (if comparison then push_back xs x else xs) ≡ length (push_back ss s))
mismatch-push_back true xs ss x s h = number-push_back xs ss x s h
mismatch-push_back false xs ss x s h = inl refl

pub inside-length :
    {P : Type 0} (buf : ℕ) (ss os : List ℕ)
    → P ⊎ (all_inside buf ss os ≡ true)
    → P ⊎ (length ss ≡ length os)
inside-length buf ss os (inl p) = inl p
inside-length buf ss os (inr h) = inr (all_inside-length buf ss os h)
