-- ===== src/Bench/Shares.antt =====
-- About the producers' shares and what they push together.
use native.Mathlib.Nat.{div-add-mod, mod-lt, mod-eq_of_lt}
use tmc_examples.Base.{
  map, flatten, ℕ, zero, suc, ◌+◌, ◌-◌, ◌*◌, ◌/◌, ◌%◌, ◌≤◌, ◌<◌, ◌≡◌, refl, ap, ◌∙◌, inl, inr,
  arith, List, [], ◌∷◌, ◌++◌, ltb, Bool-cases, if◌then◌else◌, tabulate_from, ltb→lt, ltb-false,
}
use tmc_examples.Bench.{Share, shares_from, shares, producer}

-- All that the producers push, one producer after the other.
unfoldable pub pushed : ℕ → List Share → List ℕ
pushed m [] = []
pushed m (s ∷ ss) = producer m s ++ pushed m ss

pub flatten-pushed : (m : ℕ) (ss : List Share) → flatten (map (producer m) ss) ≡ pushed m ss
unfolding pushed
flatten-pushed m [] = refl
flatten-pushed m (s ∷ ss) = ap (λ t. producer m s ++ t) (flatten-pushed m ss)

-- i, i + 1, …, i + n - 1
abbrev pub iota : ℕ → ℕ → List ℕ
iota i n = tabulate_from i n (λ x. x)

iota_append : (i n k : ℕ) → iota i n ++ iota (i + n) k ≡ iota i (n + k)
iota_append i zero k =
    let e : i + 0 ≡ i = omega arith in let f : 0 + k ≡ k = omega arith in rw (e, f)
iota_append i (suc n) k =
    let e : i + suc n ≡ i + 1 + n = omega arith in
    let f : suc n + k ≡ suc (n + k) = omega arith in
    rw (e, f) (ap (λ t. i ∷ t) (iota_append (i + 1) n k))

-- A producer whose share lies within the word pushes consecutive numbers.
words_iota : (m b i n : ℕ) → b + i + n ≤ m → tabulate_from i n (λ k. (b + k) % m) ≡ iota (b + i) n
words_iota m b i zero h = refl
words_iota m b i (suc n) h =
    let e : b + i + 1 ≡ b + (i + 1) = omega arith in
    rw (mod-eq_of_lt {n = b + i} {m = m} (omega arith), e)
      (ap (λ t. (b + i) ∷ t) (words_iota m b (i + 1) n (omega arith)))

-- How many elements the producers from `i` on are due, of whom the first `rem` take one more.
unfoldable pub due : (per_task rem i left : ℕ) → ℕ
due per_task rem i zero = 0
due per_task rem i (suc left) =
    (if ltb i rem then per_task + 1 else per_task) + due per_task rem (i + 1) left

pub due_lem :
    (per_task rem i left : ℕ)
    → rem - i ≤ left
    → due per_task rem i left ≡ left * per_task + (rem - i)
unfolding due
due_lem per_task rem i zero h = omega arith
due_lem per_task rem i (suc left) h = elim (Bool-cases (ltb i rem)) [
  | inl more ↦ rw more (
      omega (
        arith,
        ltb→lt i rem more,
        due_lem per_task rem (i + 1) left (omega (arith, ltb→lt i rem more)),
      ))
  | inr none_left ↦ rw none_left (
      omega (
        arith,
        ltb-false i rem none_left,
        due_lem per_task rem (i + 1) left (omega (arith, ltb-false i rem none_left)),
      ))
]

-- One producer's pushes, before those of the others.
share_step :
    (m base c d : ℕ) (rest : List ℕ)
    → base + (c + d) < m
    → rest ≡ iota (base + c) d
    → producer m (record { count = c; base = base }) ++ rest ≡ iota base (c + d)
unfolding producer
share_step m base c d rest h e =
    let start : base + 0 ≡ base = omega arith in
    rw (words_iota m base 0 c (omega arith), start, e) (iota_append base c d)

pushed-shares_from :
    (m per_task rem i left base : ℕ)
    → base + due per_task rem i left < m
    → pushed m (shares_from m per_task rem i left base) ≡ iota base (due per_task rem i left)
unfolding pushed shares_from producer due
pushed-shares_from m per_task rem i zero base h = refl
pushed-shares_from m per_task rem i (suc left) base h = elim (Bool-cases (ltb i rem)) [
  | inl more ↦
      let h' : base + (per_task + 1 + due per_task rem (i + 1) left) < m = rw more at h in
      rw (more, mod-eq_of_lt {n = per_task + 1} {m = m} (omega arith))
        (share_step m base (per_task + 1) (due per_task rem (i + 1) left) _ h'
          (rest (pushed-shares_from m per_task rem (i + 1) left) (per_task + 1) h'))
  | inr none_left ↦
      let h' : base + (per_task + due per_task rem (i + 1) left) < m = rw none_left at h in
      rw none_left (
        share_step m base per_task (due per_task rem (i + 1) left) _ h'
          (rest (pushed-shares_from m per_task rem (i + 1) left) per_task h'))
]
  where
    rest :
        ((b : ℕ)
          → b + due per_task rem (i + 1) left < m
          → pushed m (shares_from m per_task rem (i + 1) left b)
            ≡ iota b (due per_task rem (i + 1) left))
        → (c : ℕ) → base + (c + due per_task rem (i + 1) left) < m
        → pushed m (shares_from m per_task rem (i + 1) left ((base + c) % m))
          ≡ iota (base + c) (due per_task rem (i + 1) left)
    rest ih c k =
        rw (mod-eq_of_lt {n = base + c} {m = m} (omega arith)) (ih (base + c) (omega arith))

-- With a word that holds the number of elements, the producers' pushes, taken one producer after
-- the other, are the numbers below `elems`, each once and in order.
pub pushed-shares :
    (m elems producers : ℕ)
    → 0 < producers
    → elems < m
    → pushed m (shares m elems producers) ≡ iota 0 elems
unfolding shares
pushed-shares m elems producers h fits =
    pushed-shares_from m (elems / producers) (elems % producers) 0 producers 0
      (omega (arith, total))
    ∙ ap (iota 0) total
  where
    total : due (elems / producers) (elems % producers) 0 producers ≡ elems
    total =
        due_lem (elems / producers) (elems % producers) 0 producers
          (omega (arith, mod-lt elems {m = producers} h))
        ∙ omega (arith, div-add-mod elems producers)
