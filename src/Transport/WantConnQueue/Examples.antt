-- ===== src/Transport/WantConnQueue/Examples.antt =====
-- transport.go: calls on a wantConnQueue of numbers.
use req.Base.{ℕ, ◌≡◌, ltb, List, [], ◌∷◌}
use req.Transport.WantConnQueue.{new_queue}
use req.Transport.WantConnQueue.Refine.{
  Op, push_op, pop_op, peek_op, len_op, all_op, clean_op, outcomes, list_outcomes,
  outcomes-list_outcomes,
}

abbrev calls : List (Op ℕ)
calls =
    push_op 1
    ∷ push_op 2
    ∷ pop_op
    ∷ push_op 3
    ∷ push_op 9
    ∷ all_op
    ∷ clean_op (ltb 5)
    ∷ peek_op
    ∷ len_op
    ∷ pop_op
    ∷ pop_op
    ∷ []

outcomes-list_outcomes_example : outcomes calls new_queue ≡ list_outcomes calls []
outcomes-list_outcomes_example = outcomes-list_outcomes calls
