-- ===== src/Base/Lists.antt =====
-- Lists measured and indexed by native numbers, sums, and lists made from a function.
use Prim.Native.Nat.{ℕ, zero, suc, ◌+◌, min}
use mathlib.Core.Path.{◌≡◌, refl, ap}
use mathlib.Core.List.{List, [], ◌∷◌, ◌++◌, map, Perm, Permᴰ}
use mathlib.Core.Logic.{∥∥₁_elim}
use native.Mathlib.Nat.{ℕ_set}
use native.Mathlib.Omega.{arith}

module _ {ℓ} {A : Type ℓ} where
  abbrev pub length : List A → ℕ
  length [] = 0
  length (x ∷ xs) = suc (length xs)

  abbrev pub take : ℕ → List A → List A
  take zero xs = []
  take (suc n) [] = []
  take (suc n) (x ∷ xs) = x ∷ take n xs

  abbrev pub replicate : ℕ → A → List A
  replicate zero a = []
  replicate (suc n) a = a ∷ replicate n a

  -- The values of a function on the `n` numbers from `i` on.
  abbrev pub tabulate_from : ℕ → ℕ → (ℕ → A) → List A
  tabulate_from i zero f = []
  tabulate_from i (suc n) f = f i ∷ tabulate_from (i + 1) n f

  abbrev pub tabulate : ℕ → (ℕ → A) → List A
  tabulate n f = tabulate_from 0 n f

  pub length-append : (xs ys : List A) → length (xs ++ ys) ≡ length xs + length ys
  length-append [] ys = omega arith
  length-append (x ∷ xs) ys = omega (arith, length-append xs ys)

  pub length-take : (n : ℕ) (xs : List A) → length (take n xs) ≡ min n (length xs)
  length-take zero xs = omega arith
  length-take (suc n) [] = omega arith
  length-take (suc n) (x ∷ xs) = omega (arith, length-take n xs)

  pub length-tabulate_from : (i n : ℕ) (f : ℕ → A) → length (tabulate_from i n f) ≡ n
  length-tabulate_from i zero f = refl
  length-tabulate_from i (suc n) f = ap suc (length-tabulate_from (i + 1) n f)

module _ {ℓ} {A : Type ℓ} where
  pub length-map {κ} : {B : Type κ} (xs : List A) (f : A → B) → length (map f xs) ≡ length xs
  length-map [] f = refl
  length-map (x ∷ xs) f = ap suc (length-map xs f)

abbrev pub sum : List ℕ → ℕ
sum [] = 0
sum (x ∷ xs) = x + sum xs

pub sum-append : (xs ys : List ℕ) → sum (xs ++ ys) ≡ sum xs + sum ys
sum-append [] ys = omega arith
sum-append (x ∷ xs) ys = omega (arith, sum-append xs ys)

abbrev pub flatten {ℓ} : {A : Type ℓ} → List (List A) → List A
flatten [] = []
flatten (xs ∷ xss) = xs ++ flatten xss

sum-Permᴰ : {xs ys : List ℕ} → Permᴰ xs ys → sum xs ≡ sum ys
sum-Permᴰ Permᴰ.nil = refl
sum-Permᴰ (Permᴰ.cons e p) = omega (arith, e, sum-Permᴰ p)
sum-Permᴰ (Permᴰ.swap e f) = omega (arith, e, f)
sum-Permᴰ (Permᴰ.trans p q) = omega (arith, sum-Permᴰ p, sum-Permᴰ q)

pub sum-Perm : {xs ys : List ℕ} → Perm xs ys → sum xs ≡ sum ys
sum-Perm p = ∥∥₁_elim p (ℕ_set _ _) sum-Permᴰ

length-Permᴰ {ℓ} : {A : Type ℓ} {xs ys : List A} → Permᴰ xs ys → length xs ≡ length ys
length-Permᴰ Permᴰ.nil = refl
length-Permᴰ (Permᴰ.cons e p) = ap suc (length-Permᴰ p)
length-Permᴰ (Permᴰ.swap e f) = refl
length-Permᴰ (Permᴰ.trans p q) = omega (arith, length-Permᴰ p, length-Permᴰ q)

pub length-Perm {ℓ} : {A : Type ℓ} {xs ys : List A} → Perm xs ys → length xs ≡ length ys
length-Perm p = ∥∥₁_elim p (ℕ_set _ _) length-Permᴰ

-- The elements of a list, weighed: with a weight for each kind of element, two lists weigh the same
-- under all weights if they have the same elements, each as often.
abbrev pub total {ℓ} : {A : Type ℓ} → (A → ℕ) → List A → ℕ
total g xs = sum (map g xs)

pub total-append :
    {A : Type 0} (g : A → ℕ) (xs ys : List A) → total g (xs ++ ys) ≡ total g xs + total g ys
total-append g [] ys = omega arith
total-append g (x ∷ xs) ys = omega (arith, total-append g xs ys)

pub total-at :
    {A : Type 0} (g : A → ℕ) (before : List A) (x : A) (after : List A)
    → total g (before ++ x ∷ after) ≡ total g before + g x + total g after
total-at g [] x after = omega arith
total-at g (y ∷ before) x after = omega (arith, total-at g before x after)

pub total-replicate_none :
    {A : Type 0} (g : A → ℕ) (n : ℕ) (a : A) → g a ≡ 0 → total g (replicate n a) ≡ 0
total-replicate_none g zero a h = refl
total-replicate_none g (suc n) a h = omega (arith, h, total-replicate_none g n a h)

pub total-replicate_one :
    {A : Type 0} (g : A → ℕ) (n : ℕ) (a : A) → g a ≡ 1 → total g (replicate n a) ≡ n
total-replicate_one g zero a h = refl
total-replicate_one g (suc n) a h = omega (arith, h, total-replicate_one g n a h)
