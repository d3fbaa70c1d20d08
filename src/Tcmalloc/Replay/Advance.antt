-- ===== src/Tcmalloc/Replay/Advance.antt =====
-- empirical.cc: the update vectors that `BuildUpdateVectors` makes move the live objects of a size class
-- in place, as empirical.h says that they do.
use fleetbench.Prelude.{
  ℕ, zero, suc, ◌+◌, ◌≤◌, ◌<◌, ◌≡◌, refl, ap, ◌∙◌, Bool, true, false, ◌&&◌, ◌||◌, List, [], ◌∷◌,
  map, leb, ◌==◌, if◌then◌else◌, if_cases, length, length-set, get_or, set, arith,
}
use fleetbench.Tcmalloc.Simulator.{ObjectIndex, UpdatePair}
use fleetbench.Tcmalloc.Replay.{copy_all, move_all}

-- The objects after a replay, by the meaning that empirical.h gives to `objs_indices_after_recording`.
abbrev pub object_at : (births objs : List ℕ) → ObjectIndex → ℕ
object_at births objs at = if at.born then get_or births at.index 0 else get_or objs at.index 0

abbrev pub advance : (births objs : List ℕ) → List ObjectIndex → List ℕ
advance births objs indices = map (object_at births objs) indices

-- An object that was there before the recording is not before its old place.
abbrev pub leftward : (i : ℕ) → List ObjectIndex → Bool
leftward i [] = true
leftward i (at ∷ rest) = (at.born || leb i at.index) && leftward (suc i) rest

-- The pairs that are made for the objects from number `i` on.
abbrev pub moves : (i : ℕ) → List ObjectIndex → List UpdatePair
moves i [] = []
moves i (at ∷ rest) =
    let later = moves (suc i) rest in
    if at.born || at.index == i then later else record { from = at.index; to = i } ∷ later

abbrev pub copies : (i : ℕ) → List ObjectIndex → List UpdatePair
copies i [] = []
copies i (at ∷ rest) =
    let later = copies (suc i) rest in
    if at.born then record { from = at.index; to = i } ∷ later else later

get_or-set_same : (xs : List ℕ) (i v : ℕ) → i < length xs → get_or (set xs i v) i 0 ≡ v
get_or-set_same [] i v h = absurd (omega arith)
get_or-set_same (x ∷ xs) zero v h = refl
get_or-set_same (x ∷ xs) (suc i) v h = get_or-set_same xs i v (omega arith)

get_or-set_other :
    (xs : List ℕ) (i j v : ℕ) → (i == j) ≡ false → get_or (set xs i v) j 0 ≡ get_or xs j 0
get_or-set_other [] i j v h = refl
get_or-set_other (x ∷ xs) zero zero v h = cc
get_or-set_other (x ∷ xs) zero (suc j) v h = refl
get_or-set_other (x ∷ xs) (suc i) zero v h = refl
get_or-set_other (x ∷ xs) (suc i) (suc j) v h = get_or-set_other xs i j v (ground arith)

-- Moves from number `i` on leave what stands before.
move_all-before :
    (indices : List ObjectIndex) (i k : ℕ) (xs : List ℕ)
    → k < i
    → get_or (move_all (moves i indices) xs) k 0 ≡ get_or xs k 0
move_all-before [] i k xs h = refl
move_all-before (at ∷ rest) i k xs h =
    if_cases (λ ups. get_or (move_all ups xs) k 0 ≡ get_or xs k 0) (at.born || at.index == i) _ _
      (λ e. move_all-before rest (suc i) k xs (omega arith))
      (λ e.
        move_all-before rest (suc i) k (set xs i (get_or xs at.index 0)) (omega arith)
        ∙ get_or-set_other xs i k (get_or xs at.index 0) (ground arith))

copy_all-before :
    (births : List ℕ) (indices : List ObjectIndex) (i k : ℕ) (xs : List ℕ)
    → k < i
    → get_or (copy_all (copies i indices) births xs) k 0 ≡ get_or xs k 0
copy_all-before births [] i k xs h = refl
copy_all-before births (at ∷ rest) i k xs h =
    if_cases (λ ups. get_or (copy_all ups births xs) k 0 ≡ get_or xs k 0) at.born _ _
      (λ e.
        copy_all-before births rest (suc i) k (set xs i (get_or births at.index 0)) (omega arith)
        ∙ get_or-set_other xs i k (get_or births at.index 0) (ground arith))
      (λ e. copy_all-before births rest (suc i) k xs (omega arith))

length-move_all : (ups : List UpdatePair) (xs : List ℕ) → length (move_all ups xs) ≡ length xs
length-move_all [] xs = refl
length-move_all (u ∷ us) xs =
    length-move_all us (set xs u.to (get_or xs u.from 0)) ∙ length-set xs u.to (get_or xs u.from 0)

length-copy_all :
    (ups : List UpdatePair) (births xs : List ℕ) → length (copy_all ups births xs) ≡ length xs
length-copy_all [] births xs = refl
length-copy_all (u ∷ us) births xs =
    length-copy_all us births (set xs u.to (get_or births u.from 0))
    ∙ length-set xs u.to (get_or births u.from 0)

-- The index of an object.
abbrev pub nth : List ObjectIndex → ℕ → ObjectIndex
nth indices n = get_or indices n (record { born = false; index = 0 })

nth-leftward :
    (indices : List ObjectIndex) (i n : ℕ)
    → leftward i indices ≡ true
    → n < length indices
    → (nth indices n).born ≡ false
    → i + n ≤ (nth indices n).index
nth-leftward [] i n l h old = absurd (omega arith)
nth-leftward (at ∷ rest) i zero l h old = ground arith
nth-leftward (at ∷ rest) i (suc n) l h old =
    omega (arith, nth-leftward rest (suc i) n (ground arith) (omega arith) old)

-- An object after the moves: it is read where no earlier move has written.
move_all-nth :
    (indices : List ObjectIndex) (i n k : ℕ) (xs : List ℕ)
    → k ≡ i + n
    → leftward i indices ≡ true
    → n < length indices
    → (nth indices n).born ≡ false
    → i + length indices ≤ length xs
    → get_or (move_all (moves i indices) xs) k 0 ≡ get_or xs (nth indices n).index 0
move_all-nth [] i n k xs p l h old room = absurd (omega arith)
move_all-nth (at ∷ rest) i zero k xs p l h old room =
    let here : k ≡ i = omega arith in
    if_cases (λ ups. get_or (move_all ups xs) k 0 ≡ get_or xs at.index 0) (at.born || at.index == i)
      _ _
      (λ e.
        move_all-before rest (suc i) k xs (omega arith) ∙ ap (λ j. get_or xs j 0) (ground arith))
      (λ e.
        move_all-before rest (suc i) k (set xs i (get_or xs at.index 0)) (omega arith)
        ∙ ap (λ j. get_or (set xs i (get_or xs at.index 0)) j 0) here
        ∙ get_or-set_same xs i (get_or xs at.index 0) (omega arith))
move_all-nth (at ∷ rest) i (suc n) k xs p l h old room =
    let after = nth-leftward rest (suc i) n (ground arith) (omega arith) old in
    let v = get_or xs at.index 0 in
    if_cases (λ ups. get_or (move_all ups xs) k 0 ≡ get_or xs (nth rest n).index 0)
      (at.born || at.index == i) _ _
      (λ e.
        move_all-nth rest (suc i) n k xs (omega arith) (ground arith) (omega arith) old
          (omega arith))
      (λ e.
        move_all-nth rest (suc i) n k (set xs i v) (omega arith) (ground arith) (omega arith) old
          (omega (arith, length-set xs i v))
        ∙ get_or-set_other xs i (nth rest n).index v (ground (arith, after)))

-- An object after the copies of the new ones.
copy_all-nth :
    (births : List ℕ) (indices : List ObjectIndex) (i n k : ℕ) (xs : List ℕ)
    → k ≡ i + n
    → n < length indices
    → i + length indices ≤ length xs
    → get_or (copy_all (copies i indices) births xs) k 0
      ≡ (if (nth indices n).born then get_or births (nth indices n).index 0 else get_or xs k 0)
copy_all-nth births [] i n k xs p h room = absurd (omega arith)
copy_all-nth births (at ∷ rest) i zero k xs p h room =
    let v = get_or births at.index 0 in
    if_cases (λ ups. get_or (copy_all ups births xs) k 0 ≡ (if at.born then v else get_or xs k 0))
      at.born _ _
      (λ e. rw (e) (
        copy_all-before births rest (suc i) k (set xs i v) (omega arith)
        ∙ ap (λ j. get_or (set xs i v) j 0) (omega arith)
        ∙ get_or-set_same xs i v (omega arith)))
      (λ e. rw (e) (copy_all-before births rest (suc i) k xs (omega arith)))
copy_all-nth births (at ∷ rest) i (suc n) k xs p h room =
    let v = get_or births at.index 0 in
    if_cases
      (λ ups.
        get_or (copy_all ups births xs) k 0
        ≡ (if (nth rest n).born then get_or births (nth rest n).index 0 else get_or xs k 0))
      at.born _ _
      (λ e.
        copy_all-nth births rest (suc i) n k (set xs i v) (omega arith) (omega arith)
          (omega (arith, length-set xs i v))
        ∙ ap (λ w. if (nth rest n).born then get_or births (nth rest n).index 0 else w)
            (get_or-set_other xs i k v (ground arith)))
      (λ e. copy_all-nth births rest (suc i) n k xs (omega arith) (omega arith) (omega arith))

by_objects :
    (f : ObjectIndex → ℕ) (indices : List ObjectIndex) (xs : List ℕ)
    → length xs ≡ length indices
    → ((n : ℕ) → n < length indices → get_or xs n 0 ≡ f (nth indices n))
    → xs ≡ map f indices
by_objects f [] [] l h = refl
by_objects f [] (x ∷ xs) l h = absurd (omega arith)
by_objects f (at ∷ rest) [] l h = absurd (omega arith)
by_objects f (at ∷ rest) (x ∷ xs) l h =
    rw (h 0 (omega arith), by_objects f rest xs (omega arith) (λ n k. h (suc n) (omega arith))) refl

-- The update in place of one size class is the one at once.
pub update-advance :
    (births objs : List ℕ) (indices : List ObjectIndex)
    → leftward 0 indices ≡ true
    → length objs ≡ length indices
    → copy_all (copies 0 indices) births (move_all (moves 0 indices) objs)
      ≡ advance births objs indices
update-advance births objs indices l e =
    let moved = move_all (moves 0 indices) objs in
    let same : length moved ≡ length indices = length-move_all (moves 0 indices) objs ∙ e in
    by_objects (object_at births objs) indices (copy_all (copies 0 indices) births moved)
      (length-copy_all (copies 0 indices) births moved ∙ same)
      (λ n h.
        copy_all-nth births indices 0 n n moved (omega arith) h (omega arith)
        ∙ if_cases (λ v. v ≡ object_at births objs (nth indices n)) (nth indices n).born _ _
            (λ b. rw (b) refl)
            (λ b. rw (b) (move_all-nth indices 0 n n objs (omega arith) l h b (omega arith))))
