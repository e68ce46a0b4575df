-- ===== src/Pipeline/Channels.antt =====
-- `tmc::channel` and `tmc::semaphore`, as parameters. Several consumers pull from a channel, so its
-- laws speak of what is in it and not of the order.
use mathlib.Core.List.{Perm}
use mathlib.Core.List.Perm as Perms
use tmc_examples.Base.{
  subst, arith, ℕ, ◌+◌, ◌≡◌, refl, Bool, true, false, Option, none, some, List, [], ◌∷◌, suc, zero,
}

-- `co_await chan.pull()`: an element and the channel without it, or the end of a channel that is
-- closed and drained, or nothing yet.
pub data Taken (Q A : Type 0) : Type 0 where
  item : A → Q → Taken Q A
  empty waiting : Taken Q A

pub record Channel : Type 1 where
  pub Queue : Type 0 → Type 0
  pub make : {A : Type 0} → Queue A
  pub post : {A : Type 0} → Queue A → A → Queue A
  pub pull : {A : Type 0} → Queue A → Taken (Queue A) A
  pub close : {A : Type 0} → Queue A → Queue A
  pub items : {A : Type 0} → Queue A → List A
  pub closed : {A : Type 0} → Queue A → Bool
  pub items-make : {A : Type 0} → items (make {A = A}) ≡ []
  pub closed-make : {A : Type 0} → closed (make {A = A}) ≡ false
  pub items-post :
      {A : Type 0} (q : Queue A) (a : A) → closed q ≡ false → Perm (items (post q a)) (a ∷ items q)
  pub closed-post : {A : Type 0} (q : Queue A) (a : A) → closed (post q a) ≡ closed q
  pub items-close : {A : Type 0} (q : Queue A) → items (close q) ≡ items q
  pub closed-close : {A : Type 0} (q : Queue A) → closed (close q) ≡ true
  pub items-pull :
      {A : Type 0} (q : Queue A) {a : A} {r : Queue A}
      → pull q ≡ item a r
      → Perm (items q) (a ∷ items r)
  pub closed-pull :
      {A : Type 0} (q : Queue A) {a : A} {r : Queue A} → pull q ≡ item a r → closed r ≡ closed q
  pub pull_empty : {A : Type 0} (q : Queue A) → pull q ≡ empty → (items q ≡ []) × (closed q ≡ true)
  pub pull_waiting :
      {A : Type 0} (q : Queue A) → pull q ≡ waiting → (items q ≡ []) × (closed q ≡ false)

-- A semaphore by its count; who acquires stays suspended (`none`) at 0.
pub record Semaphore : Type 1 where
  pub State : Type 0
  pub make : ℕ → State
  pub release : State → ℕ → State
  pub acquire : State → Option State
  pub count : State → ℕ
  pub count-make : (n : ℕ) → count (make n) ≡ n
  pub count-release : (m : State) (n : ℕ) → count (release m n) ≡ count m + n
  pub count-acquire : (m : State) {m' : State} → acquire m ≡ some m' → count m' + 1 ≡ count m
  pub acquire_none : (m : State) → acquire m ≡ none → count m ≡ 0

-- A channel that hands out the newest element first.
pub record Stack (A : Type 0) : Type 0 where
  pub elements : List A
  pub shut : Bool

abbrev pub pull_stack : {A : Type 0} → List A → Bool → Taken (Stack A) A
pull_stack (a ∷ as') c = item a (record { elements = as'; shut = c })
pull_stack [] true = empty
pull_stack [] false = waiting

pub stack_item :
    {A : Type 0} (xs : List A) (c : Bool) {a : A} {r : Stack A}
    → pull_stack xs c ≡ item a r
    → (xs ≡ a ∷ r.elements) × (r.shut ≡ c)
stack_item (x ∷ xs) c h = (cc, cc)
stack_item [] true h = cc
stack_item [] false h = cc

pub Perm_of : {A : Type 0} {xs ys : List A} → xs ≡ ys → Perm xs ys
Perm_of {xs = xs} h = subst (λ zs. Perm xs zs) h (Perms.refl xs)

pub stack_empty :
    {A : Type 0} (xs : List A) (c : Bool) → pull_stack xs c ≡ empty → (xs ≡ []) × (c ≡ true)
stack_empty (x ∷ xs) c h = cc
stack_empty [] true h = (refl, refl)
stack_empty [] false h = cc

pub stack_waiting :
    {A : Type 0} (xs : List A) (c : Bool) → pull_stack xs c ≡ waiting → (xs ≡ []) × (c ≡ false)
stack_waiting (x ∷ xs) c h = cc
stack_waiting [] true h = cc
stack_waiting [] false h = (refl, refl)

abbrev pub stack_channel : Channel
stack_channel = record {
  Queue = Stack;
  make = record { elements = []; shut = false };
  post = λ q a. record q { elements = a ∷ q.elements };
  pull = λ q. pull_stack q.elements q.shut;
  close = λ q. record q { shut = true };
  items = λ q. q.elements;
  closed = λ q. q.shut;
  items-make = refl;
  closed-make = refl;
  items-post = λ q a h. Perms.refl (a ∷ q.elements);
  closed-post = λ q a. refl;
  items-close = λ q. refl;
  closed-close = λ q. refl;
  items-pull = λ q h. Perm_of (stack_item q.elements q.shut h).0;
  closed-pull = λ q h. (stack_item q.elements q.shut h).1;
  pull_empty = λ q h. stack_empty q.elements q.shut h;
  pull_waiting = λ q h. stack_waiting q.elements q.shut h;
}

abbrev pub acquire_count : ℕ → Option ℕ
acquire_count zero = none
acquire_count (suc n) = some n

pub acquire_lem : (m : ℕ) {m' : ℕ} → acquire_count m ≡ some m' → m' + 1 ≡ m
acquire_lem zero h = cc
acquire_lem (suc n) h = ground arith

pub acquire_none_lem : (m : ℕ) → acquire_count m ≡ none → m ≡ 0
acquire_none_lem zero h = refl
acquire_none_lem (suc n) h = cc

abbrev pub counter : Semaphore
counter = record {
  State = ℕ;
  make = λ n. n;
  release = λ m n. m + n;
  acquire = acquire_count;
  count = λ n. n;
  count-make = λ n. refl;
  count-release = λ m n. refl;
  count-acquire = λ m h. acquire_lem m h;
  acquire_none = λ m h. acquire_none_lem m h;
}
