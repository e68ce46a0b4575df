-- ===== src/PipelineFifo/Queue.antt =====
-- `tmc::qu_spsc_bounded`, the queue between two stages, as a parameter. `View` is what its
-- documentation speaks of: the elements that are in it, oldest first, whether it is closed, and how
-- many it holds at most.
use tmc_examples.Base.{
  ℕ, ◌≤◌, ◌<◌, ◌≡◌, refl, sym, ap, ◌∙◌, inl, inr, arith, Option-cases, Bool, true, false, Option,
  none, some, List, [], ◌∷◌, ◌++◌, ltb, if◌then◌else◌, length,
}
use mathlib.Core.Option

pub record View (A : Type 0) : Type 0 where
  pub items : List A
  pub closed : Bool
  pub capacity : ℕ

-- `co_await queue->pull()`: a scope over the oldest element, or the empty scope of a queue that is
-- closed and drained; otherwise the consumer stays suspended.
pub data Pulled (A : Type 0) : Type 0 where
  item : A → Pulled A
  empty waiting : Pulled A

abbrev pub pull_view : {A : Type 0} → List A → Bool → Pulled A
pull_view [] true = empty
pull_view [] false = waiting
pull_view (a ∷ as') c = item a

-- A producer stays suspended (`none`) while the queue is full.
abbrev pub push_view : {A : Type 0} → View A → A → Option (View A)
push_view v a =
    if ltb (length v.items) v.capacity then some (record v { items = v.items ++ a ∷ [] }) else none

abbrev pub rest : {A : Type 0} → List A → List A
rest [] = []
rest (a ∷ as') = as'

-- A scope keeps its element in the queue until `finish_read`, when the scope is destroyed. Nobody
-- pushes to a closed queue.
pub record BoundedQueue : Type 1 where
  pub Queue : Type 0 → Type 0
  pub make : {A : Type 0} → ℕ → Queue A
  pub push : {A : Type 0} → Queue A → A → Option (Queue A)
  pub pull : {A : Type 0} → Queue A → Pulled A
  pub finish_read : {A : Type 0} → Queue A → Queue A
  pub close : {A : Type 0} → Queue A → Queue A
  pub view : {A : Type 0} → Queue A → View A
  pub view-make :
      {A : Type 0} (n : ℕ)
      → view (make {A = A} n) ≡ record { items = []; closed = false; capacity = n }
  pub view-push :
      {A : Type 0} (q : Queue A) (a : A)
      → (view q).closed ≡ false
      → Option.map view (push q a) ≡ push_view (view q) a
  pub pull_lem : {A : Type 0} (q : Queue A) → pull q ≡ pull_view (view q).items (view q).closed
  pub view-finish_read :
      {A : Type 0} (q : Queue A)
      → view (finish_read q) ≡ record {
        items = rest (view q).items;
        closed = (view q).closed;
        capacity = (view q).capacity;
      }
  pub view-close :
      {A : Type 0} (q : Queue A)
      → view (close q)
        ≡ record { items = (view q).items; closed = true; capacity = (view q).capacity }

pub push_list :
    {A : Type 0} (q : View A) (a : A)
    → q.closed ≡ false
    → Option.map (λ (v : View A). v) (if q.closed then none else push_view q a) ≡ push_view q a
push_list q a h = ground arith

-- A queue that is its own view.
abbrev pub list_queue : BoundedQueue
list_queue = record {
  Queue = View;
  make = λ n. record { items = []; closed = false; capacity = n };
  push = λ q a. if q.closed then none else push_view q a;
  pull = λ q. pull_view q.items q.closed;
  finish_read = λ q. record q { items = rest q.items };
  close = λ q. record q { closed = true };
  view = λ q. q;
  view-make = λ n. refl;
  view-push = push_list;
  pull_lem = λ q. refl;
  view-finish_read = λ q. refl;
  view-close = λ q. refl;
}

-- What the outcome of an operation says of the queue.
module _ (lib : BoundedQueue) {A : Type 0} (q : lib.Queue A) where
  abbrev items : List A
  items = (lib.view q).items

  pub pull_item : {a : A} → lib.pull q ≡ item a → items ≡ a ∷ rest items
  pull_item h = from_view items (lib.view q).closed (sym (lib.pull_lem q) ∙ h)
    where
      from_view : {a : A} (xs : List A) (c : Bool) → pull_view xs c ≡ item a → xs ≡ a ∷ rest xs
      from_view [] true e = cc
      from_view [] false e = cc
      from_view (x ∷ xs) c e = cc

  pub pull_empty : lib.pull q ≡ empty → (items ≡ []) × ((lib.view q).closed ≡ true)
  pull_empty h = from_view items (lib.view q).closed (sym (lib.pull_lem q) ∙ h)
    where
      from_view : (xs : List A) (c : Bool) → pull_view xs c ≡ empty → (xs ≡ []) × (c ≡ true)
      from_view [] true e = (refl, refl)
      from_view [] false e = cc
      from_view (x ∷ xs) c e = cc

  pub pull_waiting : lib.pull q ≡ waiting → (items ≡ []) × ((lib.view q).closed ≡ false)
  pull_waiting h = from_view items (lib.view q).closed (sym (lib.pull_lem q) ∙ h)
    where
      from_view : (xs : List A) (c : Bool) → pull_view xs c ≡ waiting → (xs ≡ []) × (c ≡ false)
      from_view [] true e = cc
      from_view [] false e = (refl, refl)
      from_view (x ∷ xs) c e = cc

  pub pull_cons : {a : A} {r : List A} → items ≡ a ∷ r → lib.pull q ≡ item a
  pull_cons h = lib.pull_lem q ∙ ap (λ xs. pull_view xs (lib.view q).closed) h

  module _ (a : A) (opened : (lib.view q).closed ≡ false) where
    pub push_some :
        {q' : lib.Queue A}
        → lib.push q a ≡ some q'
        → (length items < (lib.view q).capacity)
          × (lib.view q' ≡ record {
            items = items ++ a ∷ [];
            closed = false;
            capacity = (lib.view q).capacity;
          })
    push_some {q'} h = ground (arith, lib.view-push q a opened)

    pub push_none : lib.push q a ≡ none → (lib.view q).capacity ≤ length items
    push_none h = ground (arith, lib.view-push q a opened)

    pub push_room :
        length items < (lib.view q).capacity → (q' : lib.Queue A) × (lib.push q a ≡ some q')
    push_room h = elim (Option-cases (lib.push q a)) [
      | inl e ↦ absurd (omega (arith, push_none e))
      | inr s ↦ s
    ]
