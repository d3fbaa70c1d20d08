-- ===== src/Libc/Offsets/Position.antt =====
-- How far back a block stands in the list of blocks, and when it comes nearer to the front.
use fleetbench.Prelude.{
  any, ℕ, suc, ◌≤◌, ◌<◌, ◌≡◌, inl, inr, Bool, true, false, List, [], ◌∷◌, ◌++◌, length, ◌==◌,
  if◌then◌else◌, if_cases, Bool-cases, arith,
}
use fleetbench.Libc.Offsets.{keep_if, first_fit}

abbrev pub position : ℕ → List ℕ → ℕ
position t [] = 0
position t (x ∷ xs) = let later = position t xs in if t == x then 0 else suc later

pub position-length : (t : ℕ) (xs : List ℕ) → any (◌==◌ t) xs ≡ true → position t xs < length xs
position-length t [] h = cc
position-length t (x ∷ xs) h = ground (arith, position-length t xs)

pub position-append :
    (t : ℕ) (xs ys : List ℕ) → any (◌==◌ t) xs ≡ true → position t (xs ++ ys) ≡ position t xs
position-append t [] ys h = cc
position-append t (x ∷ xs) ys h = ground (arith, position-append t xs ys)

pub any-keep_if :
    (p : ℕ → Bool) (t : ℕ) (xs : List ℕ)
    → p t ≡ true
    → any (◌==◌ t) xs ≡ true
    → any (◌==◌ t) (keep_if p xs) ≡ true
any-keep_if p t [] k h = cc
any-keep_if p t (x ∷ xs) k h =
    if_cases (λ ys. any (◌==◌ t) ys ≡ true) (p x) _ _ (λ e. ground (arith, any-keep_if p t xs k))
      (λ e. any-keep_if p t xs k (ground arith))

position-keep_if :
    (p : ℕ → Bool) (t : ℕ) (xs : List ℕ) → p t ≡ true → position t (keep_if p xs) ≤ position t xs
position-keep_if p t [] k = omega arith
position-keep_if p t (x ∷ xs) k =
    if_cases (λ ys. position t ys ≤ position t (x ∷ xs)) (p x) _ _
      (λ e. ground (arith, position-keep_if p t xs k))
      (λ e. ground (arith, position-keep_if p t xs k))

-- Without the first block that fits, one that fits later comes nearer.
pub position-without_first :
    (p ok : ℕ → Bool) (t unset : ℕ) (xs : List ℕ)
    → p t ≡ true
    → ok t ≡ true
    → any (◌==◌ t) xs ≡ true
    → p (first_fit ok xs unset) ≡ false
    → position t (keep_if p xs) < position t xs
position-without_first p ok t unset [] k o h f = cc
position-without_first p ok t unset (x ∷ xs) k o h f = elim (Bool-cases (ok x)) [
  | inl fit ↦
      let gone : p x ≡ false = ground arith in rw (gone) (ground (arith, position-keep_if p t xs k))
  | inr unfit ↦
      let later : position t (keep_if p xs) < position t xs =
        position-without_first p ok t unset xs k o (ground arith) (ground arith) in
      if_cases (λ ys. position t ys < position t (x ∷ xs)) (p x) _ _ (λ e. ground arith)
        (λ e. ground arith)
]
