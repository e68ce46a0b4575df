-- ===== src/SpawnIterator/Asserts.antt =====
-- About the assertions of `SpawnIterator`, for N from 4 to 29.
use tmc_examples.Base.{
  ℕ, zero, suc, ◌+◌, ◌-◌, ◌^◌, ◌≤◌, ◌<◌, subst, ◌≡◌, refl, sym, ap, ◌∙◌, Bool, true, ◌&&◌, List, [],
  ◌∷◌, ◌++◌, ◌==◌, length, take, sum, length-take, arith, ==_iff,
}
use Prim.Native.Nat.{min}
use native.Mathlib.Nat.{pow-succ'}
use tmc_examples.Runtime.{Tasks}
use tmc_examples.SpawnIterator.{
  Spawner, main, iter_of_static_size, filtered, std_array, iter_of_dynamic_unknown_size,
  iter_of_dynamic_known_size, static_sized_iterator, static_bounded_iterator,
  dynamic_known_sized_iterator, dynamic_unknown_sized_iterator, dynamic_bounded_iterator, count_up,
  detach, detach_max_count_less, detach_max_count_greater, detach_max_count_template_less,
  detach_max_count_template_greater, detach_max_count_less_uncountable_iter,
  detach_max_count_greater_uncountable_iter, detach_max_count_template_less_uncountable_iter,
  detach_max_count_template_greater_uncountable_iter,
}
use tmc_examples.SpawnIterator.Iterators.{
  powers, sum-powers, unknown_size_lem, take-powers, take_all-powers, sum_static, length-powers,
}

==_of : (a b : ℕ) → a ≡ b → (a == b) ≡ true
==_of a b h = (==_iff a b).1 h

take-length_append : (xs ys : List ℕ) → take (length xs) (xs ++ ys) ≡ xs
take-length_append [] ys = refl
take-length_append (x ∷ xs) ys = ap (λ zs. x ∷ zs) (take-length_append xs ys)

take-length : (xs : List ℕ) → take (length xs) xs ≡ xs
take-length [] = refl
take-length (x ∷ xs) = ap (λ zs. x ∷ zs) (take-length xs)

abbrev four : ℕ → ℕ
four k = suc (suc (suc (suc k)))

-- The iterator with N = 4 + k: its length, its sum, and its first N where it goes on for longer.
fewer_length : (k : ℕ) → length (iter_of_dynamic_unknown_size (four k)) ≡ four k - 1
fewer_length k = rw (unknown_size_lem k) (omega (arith, length-powers 4 k))

power_sum : (k : ℕ) → sum (powers 4 k) + 16 ≡ 2 ^ four k
power_sum k = sum-powers 4 k ∙ ap (λ (j : ℕ). 2 ^ j) (four_add k)
  where
    four_add : (k : ℕ) → 4 + k ≡ four k
    four_add k = omega arith

fewer_sum : (k : ℕ) → sum (iter_of_dynamic_unknown_size (four k)) ≡ 2 ^ four k - 1 - 8
fewer_sum k = rw (unknown_size_lem k) (omega (arith, power_sum k))

more_taken :
    (k : ℕ)
    → take (four k) (iter_of_dynamic_unknown_size (four k + 20)) ≡ 1 ∷ 2 ∷ 4 ∷ powers 4 (suc k)
more_taken k =
    ap (λ n. take (four k) (iter_of_dynamic_unknown_size n)) (add_twenty k)
    ∙ ap (take (four k)) (unknown_size_lem (k + 20))
    ∙ ap (λ xs. 1 ∷ 2 ∷ 4 ∷ xs) (take-powers 4 (suc k) (k + 20) (omega arith))
  where
    add_twenty : (k : ℕ) → four k + 20 ≡ four (k + 20)
    add_twenty k = omega arith

more_sum : (k : ℕ) → sum (1 ∷ 2 ∷ 4 ∷ powers 4 (suc k)) ≡ 2 ^ four k - 1 - 8 + 2 ^ four k
more_sum k = omega (arith, power_sum (suc k), power_sum k, pow-succ' 2 (four k))

fewer_taken :
    (k : ℕ)
    → take (four k) (iter_of_dynamic_unknown_size (four k)) ≡ iter_of_dynamic_unknown_size (four k)
fewer_taken k =
    rw (unknown_size_lem k) (ap (λ xs. 1 ∷ 2 ∷ 4 ∷ xs) (take_all-powers 4 (suc k) k (omega arith)))

pow_le : (n j : ℕ) → 2 ^ n ≤ 2 ^ (n + j)
pow_le n zero = omega (arith, ap (λ (i : ℕ). 2 ^ i) (none_more n))
  where
    none_more : (n : ℕ) → n + 0 ≡ n
    none_more n = omega arith
pow_le n (suc j) =
    omega (arith, pow_le n j, pow-succ' 2 (n + j), ap (λ (i : ℕ). 2 ^ i) (add_one n j))
  where
    add_one : (n j : ℕ) → n + suc j ≡ suc (n + j)
    add_one n j = omega arith

up_to : (k : ℕ) → 4 + k < 30 → four k + (25 - k) ≡ 29
up_to k h = omega arith

both : {a b : Bool} → a ≡ true → b ≡ true → (a && b) ≡ true
both h k = rw (h, k) refl

module _ (spawner : Spawner) where
  right_sized : (results : List ℕ) → (length results == spawner.capacity results) ≡ true
  right_sized results = ==_of _ _ (sym (spawner.capacity_lem results))

  static_bounded : (k : ℕ) → static_bounded_iterator spawner (four k) ≡ true
  unfolding static_bounded_iterator std_array
  static_bounded k =
      rw
        (
          spawner.taken_lem (four k) (iter_of_dynamic_unknown_size (four k)),
          spawner.taken_lem (four k) (iter_of_dynamic_unknown_size (four k + 20)),
          fewer_taken k,
          more_taken k,
          take-length_append,
        )
        (both
          (both (both (==_of _ _ (fewer_length k)) (==_of _ _ (fewer_sum k)))
            (==_of _ _ (omega (arith, length-powers 4 (suc k)))))
          (==_of _ _ (
            ap (λ xs. 1 + (2 + (4 + sum xs))) (take-length_append (powers 4 (suc k)) _)
            ∙ more_sum k)))

  dynamic_bounded : (k : ℕ) → dynamic_bounded_iterator spawner (four k) ≡ true
  unfolding dynamic_bounded_iterator
  dynamic_bounded k =
      rw
        (
          spawner.taken_lem (four k) (iter_of_dynamic_unknown_size (four k)),
          spawner.taken_lem (four k) (iter_of_dynamic_unknown_size (four k + 20)),
          fewer_taken k,
          more_taken k,
          take-length,
        )
        (both
          (both
            (both
              (both (both (==_of _ _ (fewer_length k)) (==_of _ _ (fewer_sum k))) (right_sized _))
              (==_of _ _ (omega (arith, length-powers 4 (suc k)))))
            (==_of _ _
              (ap (λ xs. 1 + (2 + (4 + sum xs))) (take-length (powers 4 (suc k))) ∙ more_sum k)))
          (right_sized (1 ∷ 2 ∷ 4 ∷ powers 4 (suc k))))

  dynamic_unknown : (k : ℕ) → dynamic_unknown_sized_iterator spawner (four k) ≡ true
  unfolding dynamic_unknown_sized_iterator
  dynamic_unknown k =
      rw (spawner.taken_all_lem (iter_of_dynamic_unknown_size (four k)))
        (both (==_of _ _ (fewer_sum k)) (right_sized _))

  same_iter : (n : ℕ) → iter_of_dynamic_known_size n ≡ iter_of_dynamic_unknown_size n
  unfolding iter_of_dynamic_known_size iter_of_dynamic_unknown_size
  same_iter n = refl

  dynamic_known : (k : ℕ) → dynamic_known_sized_iterator spawner (four k) ≡ true
  unfolding dynamic_known_sized_iterator
  dynamic_known k =
      rw
        (
          same_iter (four k),
          spawner.taken_all_lem (iter_of_dynamic_unknown_size (four k)),
          ==_of _ _ (fewer_sum k),
        )
        (both (==_of _ _ refl) (right_sized _))

  static_sized : (tasks : Tasks) (n : ℕ) → static_sized_iterator tasks n ≡ true
  unfolding static_sized_iterator
  static_sized tasks n =
      rw (tasks.spawn_many_lem n (iter_of_static_size n)) (==_of _ _ (sum_static n))

  -- With any N from 4 on (the program's is 5), and whatever spawn_many takes the tasks, all
  -- assertions of the five functions that await their tasks hold.
  pub iterator_asserts :
      (tasks : Tasks) (n : ℕ)
      → 4 ≤ n
      → (static_sized_iterator tasks n ≡ true)
        × (static_bounded_iterator spawner n ≡ true)
        × (dynamic_known_sized_iterator spawner n ≡ true)
        × (dynamic_unknown_sized_iterator spawner n ≡ true)
        × (dynamic_bounded_iterator spawner n ≡ true)
  iterator_asserts tasks (suc (suc (suc (suc k)))) h = (
    static_sized tasks (four k),
    static_bounded k,
    dynamic_known k,
    dynamic_unknown k,
    dynamic_bounded k,
  )
  iterator_asserts tasks zero h = absurd (omega arith)
  iterator_asserts tasks (suc zero) h = absurd (omega arith)
  iterator_asserts tasks (suc (suc zero)) h = absurd (omega arith)
  iterator_asserts tasks (suc (suc (suc zero))) h = absurd (omega arith)

  count_up_lem : (c : ℕ) (ts : List ℕ) → count_up c ts ≡ c + length ts
  unfolding count_up
  count_up_lem c [] = omega arith
  count_up_lem c (t ∷ ts) = omega (arith, count_up_lem (c + 1) ts)

  -- Where all of them have run, of detached tasks as many do as the iterator has, and at most the maximum count.
  detach-eq-min :
      ((ts : List ℕ) → spawner.ran_by_then ts ≡ ts)
      → (max_count : ℕ) (tasks : List ℕ)
      → detach spawner max_count tasks ≡ min max_count (length tasks)
  unfolding detach
  detach-eq-min slept max_count tasks =
      ap (count_up 0) (slept (spawner.taken max_count tasks))
      ∙ count_up_lem 0 (spawner.taken max_count tasks)
      ∙ omega (arith, ap length (spawner.taken_lem max_count tasks), length-take max_count tasks)

  -- The assertions of the eight functions that detach their tasks hold.
  pub detach_asserts :
      ((ts : List ℕ) → spawner.ran_by_then ts ≡ ts)
      → (detach_max_count_less spawner ≡ true)
        × (detach_max_count_greater spawner ≡ true)
        × (detach_max_count_template_less spawner ≡ true)
        × (detach_max_count_template_greater spawner ≡ true)
        × (detach_max_count_less_uncountable_iter spawner ≡ true)
        × (detach_max_count_greater_uncountable_iter spawner ≡ true)
        × (detach_max_count_template_less_uncountable_iter spawner ≡ true)
        × (detach_max_count_template_greater_uncountable_iter spawner ≡ true)
  unfolding detach_max_count_less detach_max_count_greater detach_max_count_template_less
      detach_max_count_template_greater detach_max_count_less_uncountable_iter
      detach_max_count_greater_uncountable_iter detach_max_count_template_less_uncountable_iter
      detach_max_count_template_greater_uncountable_iter filtered
  detach_asserts slept = (
    ==_of _ _ (detach-eq-min slept 5 _),
    ==_of _ _ (detach-eq-min slept 15 _),
    ==_of _ _ (detach-eq-min slept 5 _),
    ==_of _ _ (detach-eq-min slept 15 _),
    ==_of _ _ (detach-eq-min slept 5 _),
    ==_of _ _ (detach-eq-min slept 15 _),
    ==_of _ _ (detach-eq-min slept 5 _),
    ==_of _ _ (detach-eq-min slept 15 _),
  )

  -- The results of a function add up within an `int`, whose bound is 2 ^ 31, so that no smaller sum
  -- and no single result leaves it either.
  abbrev pub FitInt : Tasks → ℕ → Type 0
  FitInt tasks n =
      (sum (tasks.spawn_many n (iter_of_static_size n)) < 2 ^ 31)
      × (sum (spawner.taken n (iter_of_dynamic_unknown_size n)) < 2 ^ 31)
      × (sum (spawner.taken n (iter_of_dynamic_unknown_size (n + 20))) < 2 ^ 31)
      × (sum (spawner.taken_all (iter_of_dynamic_known_size n)) < 2 ^ 31)
      × (sum (spawner.taken_all (iter_of_dynamic_unknown_size n)) < 2 ^ 31)

  fit_lem : (tasks : Tasks) (k : ℕ) → 4 + k < 30 → FitInt tasks (four k)
  fit_lem tasks k h =
      let small : 2 ^ four k ≤ 2 ^ 29 =
        subst (λ (j : ℕ). 2 ^ four k ≤ 2 ^ j) (up_to k h) (pow_le (four k) (25 - k)) in
      (
        omega (
          arith,
          small,
          ap sum (tasks.spawn_many_lem (four k) (iter_of_static_size (four k))),
          sum_static (four k),
        ),
        omega (
          arith,
          small,
          ap sum (spawner.taken_lem (four k) (iter_of_dynamic_unknown_size (four k))),
          ap sum (fewer_taken k),
          fewer_sum k,
        ),
        omega (
          arith,
          small,
          ap sum (spawner.taken_lem (four k) (iter_of_dynamic_unknown_size (four k + 20))),
          ap sum (more_taken k),
          more_sum k,
        ),
        omega (
          arith,
          small,
          ap sum (spawner.taken_all_lem (iter_of_dynamic_known_size (four k))),
          ap sum (same_iter (four k)),
          fewer_sum k,
        ),
        omega (
          arith,
          small,
          ap sum (spawner.taken_all_lem (iter_of_dynamic_unknown_size (four k))),
          fewer_sum k,
        ),
      )

  fits : (tasks : Tasks) (n : ℕ) → 4 ≤ n → n < 30 → FitInt tasks n
  fits tasks (suc (suc (suc (suc k)))) g h = fit_lem tasks k (omega arith)
  fits tasks zero g h = absurd (omega arith)
  fits tasks (suc zero) g h = absurd (omega arith)
  fits tasks (suc (suc zero)) g h = absurd (omega arith)
  fits tasks (suc (suc (suc zero))) g h = absurd (omega arith)

  -- Whatever spawn_many takes the tasks, and with any N from 4 to 29 (the program's is 5), no `int`
  -- overflows in the results and their sums, and no assertion of the program fails, in any of its
  -- thirteen functions: if, as the program expects, the detached tasks have run when the sleep behind
  -- them is over.
  pub no_assert_fails :
      (tasks : Tasks) (n : ℕ)
      → 4 ≤ n
      → n < 30
      → ((ts : List ℕ) → spawner.ran_by_then ts ≡ ts)
      → (main tasks spawner n ≡ true) × FitInt tasks n
  unfolding main
  no_assert_fails tasks n le lt slept =
      let (a, b, c, d, e) = iterator_asserts tasks n le in
      let (f, g, h, i, j, k, l, m) = detach_asserts slept in
      (rw (a, b, c, d, e, f, g, h, i, j, k, l, m) refl, fits tasks n le lt)
