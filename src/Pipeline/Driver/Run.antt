-- ===== src/Pipeline/Driver/Run.antt =====
-- The runs of `Pipeline.Driver`: what `main` has posted and has left to do, and the end of the stages.
use tmc_examples.Base.{
  total, ℕ, zero, suc, ◌+◌, ◌-◌, ◌<◌, ◌≡◌, inl, inr, refl, ap, Bool, true, false, List, [], ◌∷◌,
  arith,
}
use tmc_examples.Pipeline.Channels.{Channel, Semaphore}
use tmc_examples.Pipeline.{Pc, pulling, releasing, gating, computing, finished, still_running}
use tmc_examples.Pipeline.EndStage as End
use tmc_examples.Pipeline.Driver.{
  Link, Config, Stages, Joined, Main, acquiring, posting, draining, joining, returned,
}
use tmc_examples.Pipeline.Driver.Invariant.{Drained, Inv}
use tmc_examples.Pipeline.Driver.Flow.{effort, end_effort, to_close, cost, toil}

-- The elements that `main` has posted, the newest first.
abbrev pub before : {A : Type 0} → (ℕ → A) → ℕ → List A
before value zero = []
before value (suc i) = value i ∷ before value i

-- The steps of `main` for the elements to come, where each takes `c` steps in the stages.
abbrev pub rounds : ℕ → ℕ → ℕ
rounds c zero = 0
rounds c (suc left) = c + 2 + rounds c left

abbrev pub permits : Main → ℕ
permits (posting i) = 1
permits pc = 0

abbrev pub input_closed : Main → Bool
input_closed (acquiring i) = false
input_closed (posting i) = false
input_closed pc = true

module _ (elems : ℕ) where
  abbrev pub posted : Main → ℕ
  posted (acquiring i) = i
  posted (posting i) = i
  posted pc = elems

  abbrev pub ahead : Main → ℕ
  ahead (acquiring i) = i
  ahead (posting i) = suc i
  ahead pc = 0

  abbrev pub main_left : ℕ → Main → ℕ
  main_left c (acquiring i) = rounds c (elems - i) + 3
  main_left c (posting i) = rounds c (elems - suc i) + c + 4
  main_left c draining = 2
  main_left c joining = 1
  main_left c returned = 0

module _ (chan : Channel) (sems : Semaphore) {A : Type 0} where
  no_effort : (c : ℕ) (ws : List (Pc A)) → total still_running ws ≡ 0 → total (effort c) ws ≡ 0
  no_effort c [] z = refl
  no_effort c (pulling ∷ ws) z = absurd (omega (arith, z))
  no_effort c (releasing a ∷ ws) z = absurd (omega (arith, z))
  no_effort c (gating a ∷ ws) z = absurd (omega (arith, z))
  no_effort c (computing a ∷ ws) z = absurd (omega (arith, z))
  no_effort c (finished ∷ ws) z = omega (arith, no_effort c ws (omega (arith, z)))

  no_end_effort : (ws : List (End.Pc A)) → total End.still_running ws ≡ 0 → total end_effort ws ≡ 0
  no_end_effort [] z = refl
  no_end_effort (End.pulling ∷ ws) z = absurd (omega (arith, z))
  no_end_effort (End.releasing a ∷ ws) z = absurd (omega (arith, z))
  no_end_effort (End.calling a ∷ ws) z = absurd (omega (arith, z))
  no_end_effort (End.finished ∷ ws) z = omega (arith, no_end_effort ws (omega (arith, z)))

  -- Stages that are joined have no steps left.
  pub toil-Joined :
      (cs : List (Config chan sems A)) (st : Stages chan sems A cs)
      → Joined chan sems A cs st
      → toil chan sems A cs st ≡ 0
  toil-Joined [] e z = no_end_effort e.consumers z
  toil-Joined (c ∷ more) (node, rest) (z, (o, i), j) = omega (
    arith,
    no_effort (cost chan sems A more) node.workers z,
    ap (total (λ (a : A). cost chan sems A more)) i,
    ap to_close o,
    toil-Joined more rest j,
  )

  -- The workers of every stage are some.
  abbrev pub Manned : ℕ → List (Config chan sems A) → Type 0
  Manned end_count [] = 0 < end_count
  Manned end_count ((f, n) ∷ more) = (0 < n) × Manned end_count more

  -- Stages that are joined have drained their input.
  pub Drained-Joined :
      (end_count : ℕ) (cs : List (Config chan sems A)) (taken : ℕ) (q : Link chan sems A)
      (st : Stages chan sems A cs)
      → Manned end_count cs
      → Inv chan sems A end_count cs taken q st
      → Joined chan sems A cs st
      → Drained chan sems A q
  Drained-Joined end_count [] taken q e pos v z = elim v.running [
    | inl r ↦ absurd (omega (arith, r, z, pos))
    | inr d ↦ d
  ]
  Drained-Joined end_count ((f, n) ∷ more) taken q st pos v j = elim v.0.running [
    | inl r ↦ absurd (omega (arith, r, j.0, pos.0))
    | inr d ↦ d
  ]
