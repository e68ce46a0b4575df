-- ===== src/Base/Search.antt =====
-- The search for an element of a list by a weight.
use Prim.Native.Nat.{ℕ, ◌<◌}
use mathlib.Core.Path.{◌≡◌, refl, ap}
use mathlib.Core.List.{List, [], ◌∷◌, ◌++◌}
use mathlib.Core.Logic.{◌⊎◌, inl, inr}
use native.Mathlib.Decide.{dec_lt}
use native.Mathlib.Omega.{arith}
use tmc_examples.Base.Lists.{total}

-- An element that counts for `w`, where it stands in a list.
pub record At {A : Type 0} (w : A → ℕ) (ws : List A) : Type 0 where
  pub front : List A
  pub back : List A
  pub one : A
  pub counts : 0 < w one
  pub split : ws ≡ front ++ one ∷ back

pub one_of : {A : Type 0} (w : A → ℕ) (ws : List A) → (total w ws ≡ 0) ⊎ At w ws
one_of w [] = inl refl
one_of w (x ∷ ws) = elim (dec_lt 0 (w x)) [
  | yes h ↦ inr (record { front = []; back = ws; one = x; counts = h; split = refl })
  | no h ↦ elim (one_of w ws) [
    | inl z ↦ inl (omega (arith, h, z))
    | inr p ↦ inr (record {
      front = x ∷ p.front;
      back = p.back;
      one = p.one;
      counts = p.counts;
      split = ap (λ xs. x ∷ xs) p.split;
    })
  ]
]
