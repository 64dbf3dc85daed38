-- ===== src/Http2/Flow/Examples.antt =====
-- Runs of the flow control windows, and the theorems about them at concrete inputs.
use req.Base.{◌≡◌, refl, true, false, some, List, [], ◌∷◌, arith}
use req.Base.Int.{pos, negsuc, signed, unsigned, ◌+ℤ◌, ◌-ℤ◌}
use req.Http2.Flow.{Outflow, add_inflow, take_inflow, take_inflows, add_outflow, take_outflow}
use req.Http2.Flow.Inbound.{
  window, add_inflow-add_window, take_inflows-window, Event, credit, receive, Ledger, happen, run,
  Balances, run-Balances,
}
use req.Http2.Flow.Outbound.{add_outflow_exact, take_outflow_exact}

-- A small credit waits until it doubles the window or reaches 4096 bytes.
add_inflow-add_window_example :
    add_inflow (pos 100) (window 65535 0) ≡ some (pos 0, window 65535 100)
add_inflow-add_window_example = add_inflow-add_window 100 65535 0 (omega arith) (omega arith)

take_inflows-window_example :
    take_inflows (window 50 0) (window 20 5) 30 ≡ (false, window 50 0, window 20 5)
take_inflows-window_example =
    take_inflows-window 30 50 0 20 5 (omega arith) (omega arith) (omega arith)

abbrev start : Ledger
start = record { flow = window 1000 0; accepted = 0; credited = 0 }

abbrev history : List Event
history = receive 800 ∷ receive 300 ∷ credit 150 ∷ credit 100 ∷ []

abbrev finish : Ledger
finish = record { flow = window 450 0; accepted = 800; credited = 250 }

history_runs : run history start ≡ some finish
unfolding run happen add_inflow take_inflow signed unsigned ◌+ℤ◌ ◌-ℤ◌
history_runs = refl

run-Balances_example : Balances 1000 finish
run-Balances_example =
    run-Balances 1000 history start finish (omega arith) (omega arith) history_runs

abbrev stream_window : Outflow
stream_window = record { n = pos 100; conn = some (pos 60) }

-- The settings of a peer may make a window negative.
add_outflow_exact_example :
    add_outflow (negsuc 200) stream_window ≡ (true, record { n = negsuc 100; conn = some (pos 60) })
unfolding ◌+ℤ◌
add_outflow_exact_example = add_outflow_exact stream_window (negsuc 200) (omega arith) (omega arith)

take_outflow_exact_example :
    take_outflow (pos 60) stream_window ≡ some (record { n = pos 40; conn = some (pos 0) })
unfolding ◌-ℤ◌
take_outflow_exact_example =
    take_outflow_exact stream_window 60 (omega arith) (omega arith) (omega arith)
