-- ===== src/Prelude/Orders.antt =====
-- What does not depend on the order of a list.
use mathlib.Core.List.{Perm, Permᴰ}
use mathlib.Core.Logic.{∥∥₁_elim}
use mathlib.Core.Bool.{Bool, false, ◌||◌, Bool-set}
use mathlib.Core.Path.{◌≡◌, refl, sym, ◌∙◌}
use mathlib.Core.List.{List, [], ◌∷◌}
use Prim.Native.Nat.{ℕ, ◌+◌}
use native.Mathlib.Nat.{ℕ_set}
use native.Mathlib.Omega.{arith}
use fleetbench.Prelude.Lists.{length}

abbrev pub any : (ℕ → Bool) → List ℕ → Bool
any p [] = false
any p (x ∷ xs) = p x || any p xs

or_swap : (a b c : Bool) → (b || (a || c)) ≡ (a || (b || c))
or_swap a b c = ground arith

any-Permᴰ : (p : ℕ → Bool) (xs ys : List ℕ) → Permᴰ xs ys → any p xs ≡ any p ys
any-Permᴰ p xs ys Permᴰ.nil = refl
any-Permᴰ p (a ∷ l) (b ∷ m) (Permᴰ.cons e d) = rw (e, any-Permᴰ p l m d) refl
any-Permᴰ p (a ∷ b ∷ l) (c ∷ d ∷ m) (Permᴰ.swap e f) = rw (e, f) (or_swap (p c) (p d) (any p l))
any-Permᴰ p xs zs (Permᴰ.trans {l₂ = ys} d k) = any-Permᴰ p xs ys d ∙ any-Permᴰ p ys zs k

pub any-Perm : (p : ℕ → Bool) (xs ys : List ℕ) → Perm xs ys → any p xs ≡ any p ys
any-Perm p xs ys d = ∥∥₁_elim d (Bool-set _ _) (any-Permᴰ p xs ys)

-- A sum over a list, which does not depend on the order.
abbrev pub weigh : (ℕ → ℕ) → List ℕ → ℕ
weigh w [] = 0
weigh w (x ∷ xs) = w x + weigh w xs

weigh-Permᴰ : (w : ℕ → ℕ) (xs ys : List ℕ) → Permᴰ xs ys → weigh w xs ≡ weigh w ys
weigh-Permᴰ w xs ys Permᴰ.nil = refl
weigh-Permᴰ w (a ∷ l) (b ∷ m) (Permᴰ.cons e d) = rw (e, weigh-Permᴰ w l m d) refl
weigh-Permᴰ w (a ∷ b ∷ l) (c ∷ d ∷ m) (Permᴰ.swap e f) = rw (e, f) (omega arith)
weigh-Permᴰ w xs zs (Permᴰ.trans {l₂ = ys} d k) = weigh-Permᴰ w xs ys d ∙ weigh-Permᴰ w ys zs k

pub weigh-Perm : (w : ℕ → ℕ) (xs ys : List ℕ) → Perm xs ys → weigh w xs ≡ weigh w ys
weigh-Perm w xs ys d = ∥∥₁_elim d (ℕ_set _ _) (weigh-Permᴰ w xs ys)

length-weigh : (xs : List ℕ) → length xs ≡ weigh (λ x. 1) xs
length-weigh [] = refl
length-weigh (x ∷ xs) = omega (arith, length-weigh xs)

pub length-Perm : (xs ys : List ℕ) → Perm xs ys → length xs ≡ length ys
length-Perm xs ys d = length-weigh xs ∙ weigh-Perm (λ x. 1) xs ys d ∙ sym (length-weigh ys)
