-- ===== src/RenderPlan/Kahn/Sums.antt =====
-- Sums over the passes below a bound, and counts in lists of passes.
use haxeon.Prelude.{
  ℕ, zero, suc, ◌+◌, ◌≤◌, ◌<◌, ◌≡◌, ◌≢◌, refl, ap, false, ◌||◌, List, [], ◌∷◌, ◌++◌, arith, ◌==◌,
  if◌then◌else◌, length, get_or, set,
}
use native.Mathlib.Decide.{ℕ_discrete}
use haxeon.RenderPlan.Kahn.{mem, count, push}

unfoldable pub sum_below : ℕ → (ℕ → ℕ) → ℕ
sum_below zero f = 0
sum_below (suc n) f = f n + sum_below n f

pub sum_below-ext :
    (n : ℕ) (f g : ℕ → ℕ) → ((u : ℕ) → u < n → f u ≡ g u) → sum_below n f ≡ sum_below n g
unfolding sum_below
sum_below-ext zero f g h = refl
sum_below-ext (suc n) f g h =
    omega (arith, h n (omega arith), sum_below-ext n f g (λ u p. h u (omega arith)))

-- Where one term falls by `d` and the others stay, the sum falls by `d`.
pub sum_below-drop :
    (n u d : ℕ) (f g : ℕ → ℕ)
    → u < n
    → g u + d ≡ f u
    → ((w : ℕ) → w ≢ u → f w ≡ g w)
    → sum_below n g + d ≡ sum_below n f
unfolding sum_below
sum_below-drop zero u d f g h e k = absurd (omega arith)
sum_below-drop (suc n) u d f g h e k = elim (ℕ_discrete n u) [
  | yes same ↦ omega (arith, ap f same, ap g same, sum_below-ext n f g (λ w p. k w (omega arith)))
  | no other ↦ omega (arith, k n other, sum_below-drop n u d f g (omega arith) e k)
]

pub term-le-sum_below : (n u : ℕ) (f : ℕ → ℕ) → u < n → f u ≤ sum_below n f
unfolding sum_below
term-le-sum_below zero u f h = absurd (omega arith)
term-le-sum_below (suc n) u f h = elim (ℕ_discrete n u) [
  | yes same ↦ omega (arith, ap f same)
  | no other ↦ omega (arith, term-le-sum_below n u f (omega arith))
]

pub sum_below-zero : (n : ℕ) (f : ℕ → ℕ) → ((u : ℕ) → u < n → f u ≡ 0) → sum_below n f ≡ 0
unfolding sum_below
sum_below-zero zero f h = refl
sum_below-zero (suc n) f h =
    omega (arith, h n (omega arith), sum_below-zero n f (λ u p. h u (omega arith)))

pub sum_below-pos : (n : ℕ) (f : ℕ → ℕ) → 0 < sum_below n f → (u : ℕ) × (u < n) × (0 < f u)
unfolding sum_below
sum_below-pos zero f h = absurd (omega arith)
sum_below-pos (suc n) f h = elim (ℕ_discrete (f n) 0) [
  | no here ↦ (n, omega arith, omega arith)
  | yes none_here ↦ let (u, low, p) = sum_below-pos n f (omega arith) in (u, omega arith, p)
]

pub mem-append : (x : ℕ) (xs ys : List ℕ) → mem x (xs ++ ys) ≡ (mem x xs || mem x ys)
mem-append x [] ys = refl
mem-append x (y ∷ xs) ys = ground (arith, mem-append x xs ys)

pub mem-push : (x y : ℕ) (ys : List ℕ) → mem x (push y ys) ≡ (x == y || mem x ys)
unfolding push
mem-push x y [] = refl
mem-push x y (z ∷ ys) = ground (arith, mem-push x y ys)

pub count-push :
    (x y : ℕ) (ys : List ℕ) → count x (push y ys) ≡ (if x == y then 1 else 0) + count x ys
unfolding push
count-push x y [] = refl
count-push x y (z ∷ ys) = ground (arith, count-push x y ys)

pub count-eq-zero : (x : ℕ) (ys : List ℕ) → mem x ys ≡ false → count x ys ≡ 0
count-eq-zero x [] h = refl
count-eq-zero x (y ∷ ys) h = ground (arith, count-eq-zero x ys)

pub mem-of-count : (x : ℕ) (ys : List ℕ) → count x ys ≡ 0 → mem x ys ≡ false
mem-of-count x [] h = refl
mem-of-count x (y ∷ ys) h = ground (arith, mem-of-count x ys)

pub get_or-set :
    {A : Type 0} (xs : List A) (i j : ℕ) (v d : A)
    → i < length xs
    → get_or (set xs i v) j d ≡ (if i == j then v else get_or xs j d)
get_or-set [] i j v d h = absurd (omega arith)
get_or-set (x ∷ xs) zero zero v d h = refl
get_or-set (x ∷ xs) zero (suc j) v d h = ground arith
get_or-set (x ∷ xs) (suc i) zero v d h = ground arith
get_or-set (x ∷ xs) (suc i) (suc j) v d h = ground (arith, get_or-set xs i j v d)
