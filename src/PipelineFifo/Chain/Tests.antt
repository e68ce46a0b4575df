-- ===== src/PipelineFifo/Chain/Tests.antt =====
-- The program's chain with one element from its driver to its last queue.
use tmc_examples.Base.{◌-◌, ◌^◌, ◌≡◌, refl, Bool, true, false, List, [], ◌∷◌, ◌++◌, map, arith}
use tmc_examples.Runtime.{run_inline}
use tmc_examples.PipelineFifo.Queue.{View, list_queue, empty}
use tmc_examples.PipelineFifo.Stage.{worker, make_stage, Pc, pulling, finished}
use tmc_examples.PipelineFifo.Chain.{
  Node, Chain, here, there, last, beyond, work, move, send, close_input, take, pipeline_transform,
  make_nodes, start, Reach, next, last_queue,
}
use tmc_examples.PipelineFifo.Chain.Invariant.{through}
use tmc_examples.PipelineFifo.Chain.Result.{refines_through}
use tmc_examples.PipelineFifo.Chain.Delivery.{delivers_through}
use tmc_examples.PipelineFifo.Chain.Program.Ending.{end_totals-delivers}
use tmc_examples.PipelineFifo.Chain.Program.{
  whole_halves, Value, int_value, bool_value, plus_half, times_two, minus_one, as_bool, transforms,
  end_totals,
}

abbrev C : Type 0
C = Chain list_queue run_inline {A = Value whole_halves} int_value (plus_half whole_halves)

abbrev R : C → Type 0
R = Reach list_queue run_inline int_value (plus_half whole_halves) 10 (transforms whole_halves)

abbrev queue : List (Value whole_halves) → Bool → View (Value whole_halves)
queue xs c = record { items = xs; closed = c; capacity = 10 }

abbrev node :
    (Value whole_halves → Value whole_halves)
    → View (Value whole_halves)
    → Pc (Value whole_halves)
    → Node list_queue run_inline (Value whole_halves)
node f q pc = record { func = f; out_queue = q; pc = pc }

abbrev over : C
over = record {
  first = record {
    in_queue = record { items = []; closed = true; capacity = 10 };
    out_queue = queue [] true;
    pc = finished;
  };
  nodes =
      node (times_two whole_halves) (queue [] true) finished
      ∷ node (minus_one whole_halves) (queue [] true) finished
      ∷ node (as_bool whole_halves) (queue [] true) finished
      ∷ [];
  sent = 0 ∷ [];
  received = bool_value false ∷ [];
}

run : R over
unfolding worker start make_nodes make_stage pipeline_transform transforms plus_half times_two
    minus_one as_bool
run =
    next
      (next
        (next
          (next
            (next
              (next
                (next
                  (next
                    (next
                      (next
                        (next
                          (next (next (next (next here (send 0 refl refl)) close_input) (work refl))
                            (work refl))
                          (move (here refl)))
                        (move (here refl)))
                      (move (there (here refl))))
                    (move (there (here refl))))
                  (move (there (there (here refl)))))
                (move (there (there (here refl)))))
              (work refl))
            (move (here refl)))
          (move (there (here refl))))
        (move (there (there (here refl)))))
      (take (beyond (beyond (beyond (last refl)))))

refines_through_example :
    ((to_come : List (Value whole_halves)) × (over.received ++ to_come
        ≡ map
            (λ a. through (transforms whole_halves) (plus_half whole_halves (int_value a)))
            over.sent))
    × (list_queue.pull
            (last_queue list_queue run_inline (Value whole_halves) over.first.out_queue over.nodes)
          ≡ empty
        → (over.received
            ≡ map
                (λ a. through (transforms whole_halves) (plus_half whole_halves (int_value a)))
                over.sent)
          × ((list_queue.view over.first.in_queue).closed ≡ true))
refines_through_example =
    refines_through list_queue run_inline int_value (plus_half whole_halves) run

-- The program after the driver has pushed the number 0 and closed the input.
abbrev pushed : C
pushed = record {
  first = record {
    in_queue = record { items = 0 ∷ []; closed = true; capacity = 10 };
    out_queue = queue [] false;
    pc = pulling;
  };
  nodes =
      node (times_two whole_halves) (queue [] false) pulling
      ∷ node (minus_one whole_halves) (queue [] false) pulling
      ∷ node (as_bool whole_halves) (queue [] false) pulling
      ∷ [];
  sent = 0 ∷ [];
  received = [];
}

push_run : R pushed
unfolding start make_nodes make_stage pipeline_transform transforms times_two minus_one as_bool
push_run = next (next here (send 0 refl refl)) close_input

delivers_through_example :
    (t : C) × R t
    × (t.sent ≡ pushed.sent)
    × (list_queue.pull
          (last_queue list_queue run_inline (Value whole_halves) t.first.out_queue t.nodes)
        ≡ empty)
    × (t.received
        ≡ map
            (λ a. through (transforms whole_halves) (plus_half whole_halves (int_value a)))
            pushed.sent)
unfolding transforms
delivers_through_example =
    delivers_through list_queue run_inline int_value (plus_half whole_halves) push_run (omega arith)
      (omega arith, (omega arith, (omega arith, tt))) refl

end_totals-delivers_example :
    (t : C) × R t
    × (list_queue.pull
          (last_queue list_queue run_inline (Value whole_halves) t.first.out_queue t.nodes)
        ≡ empty)
    × ((end_totals whole_halves (2 ^ 64) t.received).sum ≡ 1 - 2)
    × ((end_totals whole_halves (2 ^ 64) t.received).count ≡ 1)
end_totals-delivers_example =
    end_totals-delivers whole_halves list_queue run_inline push_run refl refl (omega arith)
      (omega arith)
