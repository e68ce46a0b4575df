-- ===== src/BatchProcessor/Invariant.antt =====
-- What each step of `BatchProcessor` keeps.
use mathlib.Core.Path.{ap₂}
use tmc_examples.Base.{
  ◌≡◌, refl, sym, ap, ◌∙◌, Bool, true, false, not, List, [], ◌∷◌, ◌++◌, flatten, append_assoc,
  append-nil, Bool-cases, inl, inr,
}
use tmc_examples.BatchProcessor.{
  Active, Mux, start_timer, on_pulled, on_timer, make_processor, System, Step, pulled, pulled_end,
  fired, finish, start, Reach, here, next,
}

abbrev pub nonempty {ℓ} : {A : Type ℓ} → List A → Bool
nonempty [] = false
nonempty (x ∷ xs) = true

abbrev pub NoneEmpty {ℓ} : {A : Type ℓ} → List (List A) → Type 0
NoneEmpty [] = Unit
NoneEmpty (xs ∷ xss) = (nonempty xs ≡ true) × NoneEmpty xss

nonempty-append : {A : Type 0} (xs : List A) (a : A) → nonempty (xs ++ a ∷ []) ≡ true
nonempty-append [] a = refl
nonempty-append (x ∷ xs) a = refl

NoneEmpty-append :
    {A : Type 0} (xss : List (List A)) (xs : List A)
    → NoneEmpty xss
    → nonempty xs ≡ true
    → NoneEmpty (xss ++ xs ∷ [])
NoneEmpty-append [] xs h e = (e, tt)
NoneEmpty-append (ys ∷ xss) xs h e = (h.0, NoneEmpty-append xss xs h.1 e)

flatten-append :
    {A : Type 0} (xss : List (List A)) (xs : List A) → flatten (xss ++ xs ∷ []) ≡ flatten xss ++ xs
flatten-append [] xs = append-nil xs
flatten-append (ys ∷ xss) xs =
    ap (λ zs. ys ++ zs) (flatten-append xss xs) ∙ sym (append_assoc ys (flatten xss) xs)

differ : ◌≡◌ {A = Bool} false true → ⊥
differ e = cc

pull_off : (a : Active) → a ≡ record { pull = false; timer = false } → a.pull ≡ true → ⊥
pull_off a e p = differ (sym (ap (λ x. x.pull) e) ∙ p)

timer_off : (a : Active) → a ≡ record { pull = false; timer = false } → a.timer ≡ true → ⊥
timer_off a e p = differ (sym (ap (λ x. x.timer) e) ∙ p)

-- With the pull restarted, the timer is active in any case.
started :
    (lib : Mux) (m : lib.State)
    → (lib.active m).pull ≡ true
    → lib.active (start_timer lib m) ≡ record { pull = true; timer = true }
unfolding start_timer
started lib m p = elim (Bool-cases (lib.active m).timer) [
  | inl t ↦ rw t (both (lib.active m) p t)
  | inr t ↦ rw t (lib.active-fork_timer m ∙ ap (λ b. record { pull = b; timer = true }) p)
]
  where
    both : (a : Active) → a.pull ≡ true → a.timer ≡ true → a ≡ record { pull = true; timer = true }
    both a e f = ap₂ (λ p t. record { pull = p; timer = t }) e f

module _ (lib : Mux) (Data : Type 0) where
  pub record Inv (s : System lib Data) : Type 0 where
    pub order : flatten s.processed ++ s.batch ≡ s.received
    pub timed : (lib.active s.mux).timer ≡ nonempty s.batch
    pub batches : NoneEmpty s.processed
    pub pulls : (lib.active s.mux).pull ≡ not s.ended
    pub over : s.returned ≡ true → lib.active s.mux ≡ record { pull = false; timer = false }

  Step-Inv : {s t : System lib Data} → Step lib Data s t → Inv s → Inv t
  unfolding on_pulled on_timer
  Step-Inv {s} (pulled a {m} e) v =
      let (was, is) = lib.deliver_pull_some s.mux e in
      let on = started lib (lib.fork_pull m) (ap (λ x. x.pull) (lib.active-fork_pull m)) in
      record {
        order =
            sym (append_assoc (flatten s.processed) s.batch (a ∷ []))
            ∙ ap (λ xs. xs ++ a ∷ []) v.order;
        timed = ap (λ x. x.timer) on ∙ sym (nonempty-append s.batch a);
        batches = v.batches;
        pulls = ap (λ x. x.pull) on ∙ sym was ∙ v.pulls;
        over = λ r. absurd (pull_off (lib.active s.mux) (v.over r) was);
      }
  Step-Inv {s} (pulled_end {m} e) v =
      let (was, is) = lib.deliver_pull_some s.mux e in
      record {
        order = v.order;
        timed = ap (λ x. x.timer) is ∙ v.timed;
        batches = v.batches;
        pulls = ap (λ x. x.pull) is;
        over = λ r. absurd (pull_off (lib.active s.mux) (v.over r) was);
      }
  Step-Inv {s} (fired {m} e) v =
      let (was, is) = lib.deliver_timer_some s.mux e in
      record {
        order =
            append-nil (flatten (s.processed ++ s.batch ∷ []))
            ∙ flatten-append s.processed s.batch
            ∙ v.order;
        timed = ap (λ x. x.timer) is;
        batches = NoneEmpty-append s.processed s.batch v.batches (sym v.timed ∙ was);
        pulls = ap (λ x. x.pull) is ∙ v.pulls;
        over = λ r. absurd (timer_off (lib.active s.mux) (v.over r) was);
      }
  Step-Inv {s} (finish e) v = record {
    order = v.order;
    timed = v.timed;
    batches = v.batches;
    pulls = v.pulls;
    over = λ r. e;
  }

  pub Reach-Inv : {s : System lib Data} → Reach lib Data s → Inv s
  unfolding start make_processor
  Reach-Inv here =
      let on =
        lib.active-fork_pull lib.make
        ∙ ap (λ x. record { pull = true; timer = x.timer }) lib.active-make in
      record {
        order = refl;
        timed = ap (λ x. x.timer) on;
        batches = tt;
        pulls = ap (λ x. x.pull) on;
        over = λ r. absurd (differ r);
      }
  Reach-Inv (next r st) = Step-Inv st (Reach-Inv r)
