-- ===== src/Braid/Exclusive.antt =====
-- Which tasks of `Braid` are on the braid, where one increments.
use tmc_examples.Base.{
  ℕ, ◌+◌, ◌≡◌, refl, ap, subst, Bool, true, false, Option, none, some, List, [], ◌∷◌, ◌++◌, total,
  total-at, arith,
}
use tmc_examples.Braid.{Braid, Action, increment, Task, System, Reach, Form}
use tmc_examples.Braid.Invariant.{flag, flag_le, Fresh, on_braid, Guarded, Ok, All, All-split}
use tmc_examples.Braid.Count.{Reach-Inv, form_lem}

module _ (braid : Braid) (m : ℕ) where
  -- Off the braid, with no value loaded, and not at an increment.
  abbrev pub Away : Task → Type 0
  Away u = (u.held ≡ false) × (u.loaded ≡ none) × ((r : List Action) → u.todo ≡ increment ∷ r → ⊥)

  held_at_increment : (h : Bool) (r : List Action) → Guarded h (increment ∷ r) → h ≡ true
  held_at_increment true r g = refl
  held_at_increment false r g = absurd g

  loaded_now : (value : ℕ) (h : Bool) (w : ℕ) → Fresh value h (some w) → w ≡ value
  loaded_now value h w f = f.1

  off_loaded : (value : ℕ) (l : Option ℕ) → Fresh value false l → l ≡ none
  off_loaded value none f = refl
  off_loaded value (some w) f = cc

  off_Away_at :
      (value : ℕ) (u : Task) (h : Bool)
      → u.held ≡ h
      → flag h ≡ 0
      → Guarded h u.todo
      → Fresh value h u.loaded
      → Away u
  off_Away_at value u true e z g f = absurd (omega (arith, z))
  off_Away_at value u false e z g f =
      (e, off_loaded value u.loaded f, λ r i. subst (Guarded false) i g)

  off_Away : (value : ℕ) (ts : List Task) → total on_braid ts ≡ 0 → All (Ok value) ts → All Away ts
  off_Away value [] z a = tt
  off_Away value (t ∷ ts) z a = (
    off_Away_at value t t.held refl (omega (arith, z)) a.0.0 a.0.1,
    off_Away value ts (omega (arith, z)) a.1,
  )

  All-append : (p : Task → Type 0) (xs ys : List Task) → All p xs → All p ys → All p (xs ++ ys)
  All-append p [] ys a b = b
  All-append p (x ∷ xs) ys a b = (a.0, All-append p xs ys a.1 b)

  module _ {body : List Action} {n : ℕ} {s : System braid m} where
    -- In each of the forms, and in every interleaving: a task whose next action is the increment, or
    -- its second half, is on the braid, and every other task is off the braid, has loaded no value,
    -- and is not at an increment; and what the task may have loaded is the value as it is.
    pub exclusive :
        Form body
        → Reach braid m body n s
        → (before after : List Task) (t : Task) (r : List Action) → s.tasks ≡ before ++ t ∷ after
        → t.todo ≡ increment ∷ r
        → (t.held ≡ true) × All Away (before ++ after) × ((v : ℕ) → t.loaded ≡ some v → v ≡ s.value)
    exclusive f x before after t r e at =
        let v = Reach-Inv braid m (form_lem braid m f).0 (form_lem braid m f).1 x in
        let oks = All-split (Ok s.value) before t after (subst (All (Ok s.value)) e v.tasks_ok) in
        let on = held_at_increment t.held r (subst (Guarded t.held) at oks.1.0) in
        let none_else : total on_braid before + total on_braid after ≡ 0 = omega (
          arith,
          ap (total on_braid) e,
          total-at on_braid before t after,
          ap flag on,
          v.level,
          flag_le (braid.busy s.br),
        ) in
        (
          on,
          All-append Away before after (off_Away s.value before (omega (arith, none_else)) oks.0)
              (off_Away s.value after (omega (arith, none_else)) oks.2),
          λ w g. loaded_now s.value t.held w (subst (Fresh s.value t.held) g oks.1.1),
        )
