-- ===== src/PipelineFifo/Elements.antt =====
-- An element on its way through a stage: the equations on lists behind the order of delivery. A list
-- of results received, then the results that wait as tasks, then the inputs not handed over.
use tmc_examples.Base.{◌≡◌, refl, List, [], ◌∷◌, ◌++◌, map, map-append, append_assoc}
use tmc_examples.PipelineFifo.Queue.{rest}

-- One element leaves the input for the output.
pub order_push :
    {S H O : Type 0} (join : H → O) (f : S → O) (recv : List O) (outs : List H) (h : H) (a : S)
    (ins : List S)
    → join h ≡ f a
    → recv ++ (map join (outs ++ h ∷ []) ++ map f ins) ≡ recv ++ (map join outs ++ map f (a ∷ ins))
order_push join f recv outs h a ins e = simp (map-append, append_assoc, e)

-- One element leaves the output for the consumer.
pub order_take :
    {S H O : Type 0} (join : H → O) (f : S → O) (recv : List O) (h : H) (outs : List H)
    (ins : List S)
    → (recv ++ join h ∷ []) ++ (map join outs ++ map f ins)
      ≡ recv ++ (map join (h ∷ outs) ++ map f ins)
order_take join f recv h outs ins = simp append_assoc

-- One element enters the input.
pub order_send :
    {S H O : Type 0} (join : H → O) (f : S → O) (recv : List O) (outs : List H) (ins : List S)
    (a : S) (sent : List S)
    → recv ++ (map join outs ++ map f ins) ≡ map f sent
    → recv ++ (map join outs ++ map f (ins ++ a ∷ [])) ≡ map f (sent ++ a ∷ [])
order_send join f recv outs ins a sent e =
    rw (map-append f sent (a ∷ []), ← e) (simp (map-append, append_assoc))

pub rest_append :
    {A : Type 0} {b : A} (xs ys : List A) → xs ≡ b ∷ rest xs → xs ++ ys ≡ b ∷ rest (xs ++ ys)
rest_append [] ys e = cc
rest_append (x ∷ xs) ys e = cc

pub rest_of_append :
    {A : Type 0} {b : A} (xs ys : List A) → xs ≡ b ∷ rest xs → rest (xs ++ ys) ≡ rest xs ++ ys
rest_of_append [] ys e = cc
rest_of_append (x ∷ xs) ys e = refl
