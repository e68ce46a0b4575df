-- ===== src/ExternalCoro/PingPong.antt =====
-- About the results of the coroutines of `ExternalCoro`.
use tmc_examples.Base.{
  ℕ, zero, suc, ◌+◌, ◌≤◌, ◌<◌, ◌≡◌, refl, ap, ◌∙◌, true, false, not, some, ◌==◌, ==_iff, Bool-cases,
  inl, inr, arith,
}
use mathlib.Core.Option
use tmc_examples.ExternalCoro.{
  destroyed, Frame, co_await, get_return_object, internal, external, run_internal_first,
  external_result_by_promise, run_external_first_by_promise,
}

-- Awaiting a coroutine whose body returns comes back to the awaiting coroutine with that result, and
-- with the frame destroyed.
pub co_await_lem :
    {Result : Type 0} (outer : ℕ) (v : Result)
    → co_await outer (some v)
      ≡ some (
        v,
        record { stage = destroyed; continuation = some outer; result_ptr = true; result = some v },
      )
unfolding co_await get_return_object Option.bind
co_await_lem outer v = rw ((==_iff outer outer).1 refl) refl

next_below : (count max : ℕ) → count < max → (count + 1 == max) ≡ false → count + 1 < max
next_below count max h f = ground arith

ping_pong :
    (fuel count max : ℕ)
    → count < max
    → max ≤ count + fuel
    → (internal fuel count max ≡ some max) × (external fuel count max ≡ some max)
unfolding internal external
ping_pong zero count max h e = absurd (omega (arith, h, e))
ping_pong (suc fuel) count max h e = elim (Bool-cases (count + 1 == max)) [
  | inl t ↦ rw t (ap some ((==_iff (count + 1) max).0 t), ap some ((==_iff (count + 1) max).0 t))
  | inr f ↦
      let ih = ping_pong fuel (count + 1) max (next_below count max h f) (omega (arith, e)) in
      rw f (
        ap (λ o. Option.map (λ (r : ℕ × Frame ℕ). r.0) (co_await count o)) ih.1
            ∙ ap (Option.map (λ (r : ℕ × Frame ℕ). r.0)) (co_await_lem count max),
        ih.0,
      )
]

by_promise :
    (fuel count max : ℕ)
    → count < max
    → max ≤ count + 1 + fuel
    → external_result_by_promise fuel count max ≡ some max
unfolding external_result_by_promise
by_promise fuel count max h e = elim (Bool-cases (count + 1 == max)) [
  | inl t ↦ rw t (ap some ((==_iff (count + 1) max).0 t))
  | inr f ↦ rw f (ping_pong fuel (count + 1) max (next_below count max h f) e).0
]

-- With a unit of fuel for each call, the programs that start with the TMC coroutine and with the
-- foreign one both end, whatever the depth, and print no error.
pub run_silent :
    (max : ℕ)
    → 0 < max
    → (run_internal_first max max ≡ some false)
      × (run_external_first_by_promise max max ≡ some false)
unfolding run_internal_first run_external_first_by_promise
run_silent max pos = (
  ap (Option.map (λ r. not (r == max))) (ping_pong max 0 max pos (omega arith)).0 ∙ right,
  ap (Option.map (λ r. not (r == max))) (by_promise max 0 max pos (omega arith)) ∙ right,
)
  where
    right : Option.map (λ r. not (r == max)) (some max) ≡ some false
    right = rw ((==_iff max max).1 refl) refl
