-- ===== src/Pipeline/Driver/Result.antt =====
-- How the runs of `Pipeline.Driver` go on and end, and what the end stage has consumed then.
use tmc_examples.Base.{
  total, ℕ, zero, suc, ◌+◌, ◌<◌, ◌≡◌, ◌⊎◌, inl, inr, refl, sym, ap, ◌∙◌, subst, Bool, true, false,
  Option, none, some, List, [], ◌∷◌, arith, dec_lt,
}
use tmc_examples.Pipeline.Channels.{Channel, Semaphore}
use tmc_examples.Pipeline.Conservation as Stage
use tmc_examples.Pipeline.EndStage.Consumption as Consumption
use tmc_examples.Pipeline.Driver.{
  Link, Config, Stages, Joined, Main, acquiring, posting, draining, joining, returned, State, Step,
  acquire, post, drain, drained, join, move, Reach, next, here,
}
use tmc_examples.Pipeline.Driver.Flow.{through, cost, inside}
use tmc_examples.Pipeline.Driver.Run.{
  before, Manned, Drained-Joined, toil-Joined, posted, main_left,
}
use tmc_examples.Pipeline.Driver.Steps.{RunInv, left, Step-left}
use tmc_examples.Pipeline.Driver.Start.{all_steps, Reach-RunInv}
use tmc_examples.Pipeline.Driver.Enabled.{Outlook, goes, waits, ends}
use tmc_examples.Pipeline.Driver.Progress.{sem_of, places_left, outlook}

module _ (chan : Channel) (sems : Semaphore) {A : Type 0} where
  -- What the end stage has consumed, the newest first.
  abbrev pub consumed : (cs : List (Config chan sems A)) → Stages chan sems A cs → List A
  consumed [] e = e.consumed
  consumed (c ∷ more) (node, rest) = consumed more rest

  inside-Joined :
      (g : A → ℕ) (cs : List (Config chan sems A)) (st : Stages chan sems A cs)
      → Joined chan sems A cs st
      → inside chan sems A g cs st ≡ total g (consumed cs st)
  inside-Joined g [] e z = omega (arith, Consumption.none_held chan sems A g e.consumers z)
  inside-Joined g ((f, n) ∷ more) (node, rest) (z, (o, i), j) = omega (
    arith,
    Stage.none_held chan sems f (λ a. g (through chan sems A more a)) node.workers z,
    ap (total (λ a. g (through chan sems A more a))) i,
    inside-Joined g more rest j,
  )

module _ (chan : Channel) (sems : Semaphore) {A : Type 0} (value : ℕ → A) (elems : ℕ)
    (cs : List (Config chan sems A)) (end_count : ℕ) where
  abbrev Goes : State chan sems value elems cs → Type 0
  Goes s = (t : State chan sems value elems cs) × Step chan sems value elems cs s t

  apart : ¬ (◌≡◌ {A = Bool} false true)
  apart e = cc

  acquire_with :
      (i : ℕ) (queue : chan.Queue A) (st : Stages chan sems A cs) (m : sems.State)
      → i < elems
      → 0 < sems.count m
      → (r : Option sems.State) → sems.acquire m ≡ r
      → Goes (record {
        main = acquiring i;
        input = record { queue = queue; sem = some m };
        stages = st;
      })
  acquire_with i queue st m h places none e = absurd (omega (arith, places, sems.acquire_none m e))
  acquire_with i queue st m h places (some m') e = (_, acquire h e)

  -- `main` has returned, or some step is possible.
  can_go :
      (pc : Main) (q : Link chan sems A) (st : Stages chan sems A cs)
      → Manned chan sems end_count cs
      → RunInv chan sems value elems cs end_count (record { main = pc; input = q; stages = st })
      → Outlook chan sems A cs q st
      → (pc ≡ returned) ⊎ Goes (record { main = pc; input = q; stages = st })
  can_go pc q st pos v (goes q' st' m) = inr (_, move m)
  can_go (posting i) q st pos v o = inr (_, post)
  can_go returned q st pos v o = inl refl
  can_go (acquiring i) q st pos v (ends d j) = absurd (apart (sym v.shut ∙ d.1))
  can_go (acquiring i) q st pos v (waits e o z) = elim (dec_lt i elems) [
    | no h ↦ inr (_, drain (omega (arith, h)))
    | yes h ↦
        let (m, g) = sem_of chan sems A end_count cs 0 q st pos v.stages_inv in
        let places = places_left chan sems A end_count cs 0 q st g pos v.stages_inv e z refl in
        subst
          (λ k.
            (acquiring i ≡ returned)
            ⊎ Goes (record {
              main = acquiring i;
              input = record { queue = q.queue; sem = k };
              stages = st;
            }))
          (sym g) (inr (acquire_with i q.queue st m h places (sems.acquire m) refl))
  ]
  can_go draining q st pos v (waits e o z) = absurd (apart (sym o ∙ v.shut))
  can_go draining q st pos v (ends d j) = inr (_, drained d.0)
  can_go joining q st pos v (waits e o z) = absurd (apart (sym o ∙ v.shut))
  can_go joining q st pos v (ends d j) = inr (_, join j)

  none_left :
      (s : State chan sems value elems cs)
      → Manned chan sems end_count cs
      → RunInv chan sems value elems cs end_count s
      → s.main ≡ returned
      → left chan sems value elems cs end_count s ≡ 0
  none_left s pos v e =
      let j = v.joined e in
      let d = Drained-Joined chan sems end_count cs _ s.input s.stages pos v.stages_inv j in
      omega (
        arith,
        toil-Joined chan sems cs s.stages j,
        ap (total (λ (a : A). cost chan sems A cs)) d.0,
        ap (main_left elems (cost chan sems A cs)) e,
      )

  -- No order of the steps blocks the program, nor keeps it going: with workers in each stage, after
  -- some number of steps `main` has returned, and the number is that of a whole run, or it is less
  -- and some step is possible.
  pub returned_or_goes :
      {k : ℕ} {s : State chan sems value elems cs}
      → Manned chan sems end_count cs
      → Reach chan sems value elems cs end_count k s
      → ((s.main ≡ returned) × (k ≡ all_steps chan sems value elems cs end_count))
        ⊎ ((k < all_steps chan sems value elems cs end_count)
            × ((t : State chan sems value elems cs) × Step chan sems value elems cs s t))
  returned_or_goes {k} {s} pos r =
      let (v, e) = Reach-RunInv chan sems value elems cs end_count pos r in
      elim (can_go s.main s.input s.stages pos v
        (outlook chan sems A end_count cs _ s.input s.stages pos v.stages_inv)) [
          | inl h ↦ inl (h, omega (arith, e, none_left s pos v h))
          | inr (t, st) ↦
              inr (omega (arith, e, Step-left chan sems value elems cs end_count st v), (t, st))
        ]

  -- In every run, once `main` has returned, the end stage has consumed the results of all elements,
  -- each as often: they weigh as much under any weight.
  pub consumed-returned :
      {k : ℕ} {s : State chan sems value elems cs}
      → Manned chan sems end_count cs
      → Reach chan sems value elems cs end_count k s
      → s.main ≡ returned
      → (g : A → ℕ)
      → total g (consumed chan sems cs s.stages)
        ≡ total (λ a. g (through chan sems A cs a)) (before value elems)
  consumed-returned {k} {s} pos r e g =
      let (v, w) = Reach-RunInv chan sems value elems cs end_count pos r in
      let j = v.joined e in
      let d = Drained-Joined chan sems end_count cs _ s.input s.stages pos v.stages_inv j in
      omega (
        arith,
        v.amount g,
        inside-Joined chan sems g cs s.stages j,
        ap (total (λ a. g (through chan sems A cs a))) d.0,
        ap (λ pc. total (λ a. g (through chan sems A cs a)) (before value (posted elems pc))) e,
      )

  -- The program can be run to its end.
  pub ends_lem :
      Manned chan sems end_count cs
      → (s : State chan sems value elems cs) × Reach chan sems value elems cs end_count
          (all_steps chan sems value elems cs end_count)
          s
        × (s.main ≡ returned)
  ends_lem pos = on (all_steps chan sems value elems cs end_count) here (omega arith)
    where
      on :
          (fuel : ℕ) {k : ℕ} {s : State chan sems value elems cs}
          → Reach chan sems value elems cs end_count k s
          → k + fuel ≡ all_steps chan sems value elems cs end_count
          → (t : State chan sems value elems cs) × Reach chan sems value elems cs end_count
              (all_steps chan sems value elems cs end_count)
              t
            × (t.main ≡ returned)
      on zero {k} {s} r e = elim (returned_or_goes pos r) [
        | inl (h, f) ↦ (s, subst (λ j. Reach chan sems value elems cs end_count j s) f r, h)
        | inr (h, (t, st)) ↦ absurd (omega (arith, h, e))
      ]
      on (suc fuel) {k} {s} r e = elim (returned_or_goes pos r) [
        | inl (h, f) ↦ absurd (omega (arith, f, e))
        | inr (h, (t, st)) ↦ on fuel (next r st) (omega (arith, e))
      ]
