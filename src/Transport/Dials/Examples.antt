-- ===== src/Transport/Dials/Examples.antt =====
-- transport.go: runs of the limit on concrete calls.
use req.Base.{ℕ, ◌≡◌, ◌≤◌, refl, some, List, [], ◌∷◌, All, arith}
use req.Transport.WantConnQueue.{clean_front, push_back}
use req.Transport.Dials.{
  queue_for_dial, try_deliver, cancel, dec_conns_per_host, receive, end_dial, WantConn, failure,
}
use req.Transport.Dials.Accounts.{
  Event, want, deliver, give_up, received, dial_ended, give_back, State, start, taken, run,
}
use req.Transport.Dials.Limit.{run-taken, IsServed, run-IsServed}

abbrev w0 : WantConn
w0 = record { id = 0; key = 7 }

abbrev w1 : WantConn
w1 = record { id = 1; key = 7 }

abbrev w2 : WantConn
w2 = record { id = 2; key = 7 }

-- One place: the first request dials, the second gives up, and the failed dial's place goes to the
-- third.
abbrev three_requests : List (Event ℕ ℕ)
three_requests =
    want w0
    ∷ want w1
    ∷ want w2
    ∷ give_up w1
    ∷ deliver w0 (failure 5)
    ∷ give_back 7
    ∷ dial_ended w0
    ∷ received w0
    ∷ []

third_dials :
    (s : State ℕ ℕ) × (run three_requests (start 1) ≡ some s) × (s.t.dialing ≡ w0 ∷ w2 ∷ [])
unfolding queue_for_dial clean_front push_back try_deliver cancel dec_conns_per_host receive
    end_dial
third_dials = (_, refl, refl)

run-taken_example :
    (s : State ℕ ℕ) × (run three_requests (start 1) ≡ some s)
    × ((k : ℕ) → (s.t.conns_per_host k ≡ taken k s) × (taken k s ≤ 1))
run-taken_example = run-taken 1 three_requests (omega arith)

run-IsServed_example :
    (s : State ℕ ℕ) × (run three_requests (start 1) ≡ some s) × All (IsServed 1 s) s.wanted
run-IsServed_example = run-IsServed 1 three_requests
