-- ===== src/Transport/Dials/Handed.antt =====
-- transport.go: a place that is given back is handed on, or is free.
use req.Base.{
  ℕ, ◌-◌, ◌==◌, ==_iff, ◌≤◌, ◌<◌, ◌≡◌, ap, subst, true, Bool-cases, some, inl, inr, [], ◌∷◌, ◌++◌,
  All-map, arith, if◌then◌else◌,
}
use req.Transport.WantConnQueue.{WantConnQueue}
use req.Transport.WantConnQueue.Shows.{Shows}
use req.Transport.Dials.{WantConn, Transport, waiting, put, lower, start_dial_conn_for_locked}
use req.Transport.Dials.Start.{
  first_waiting, behind_waiting, All-behind_waiting, All-first_waiting, IsAmong-behind_waiting,
  start_dial_lem,
}
use req.Transport.Dials.Accounts.{State, IsAmong, Queue, Stands, Accounts}
use req.Transport.Dials.Keeps.{
  started-append, IsAmong-left, IsAmong-last, not-false, put_all, put_two, moved,
}

module _ {C E : Type 0} where
  -- What `decConnsPerHost` leaves.
  abbrev pub returned : ℕ → State C E → Transport C E → State C E
  returned k s t = record s { t = t; given_back = k ∷ s.given_back }

  module _ (k : ℕ) (s : State C E) {size : ℕ} (a : Accounts size s) where
    -- With no request left that waits, the count goes down.
    pub lower-Accounts :
        (waits : ℕ → WantConnQueue WantConn)
        → 0 < s.t.conns_per_host k
        → ((j : ℕ) → Shows (waits j) (put k [] a.items j))
        → ((v : WantConn) → IsAmong v (a.items k) → (s.t.wants v.id).done ≡ true)
        → Accounts size (returned k s (lower k (record s.t { conns_per_host_wait = waits })))
    unfolding lower put
    lower-Accounts waits some_taken shows all_done =
        let n = s.t.conns_per_host k in
        record {
          fixed = a.fixed;
          items = put k [] a.items;
          dials = a.dials;
          queues = λ j.
              put_two
                (λ i m y.
                  Shows (waits i) y → Queue s.t.wants s.t.max_conns_per_host i m (waits i) y)
                k (n - 1) [] s.t.conns_per_host a.items
                (λ sh. record { shows = sh; of_host = tt; none_waits = λ h. tt })
                (λ i sh.
                  let q = a.queues i in
                  record { shows = sh; of_host = q.of_host; none_waits = q.none_waits })
                j (shows j);
          dials_shown = a.dials_shown;
          limited =
              put_all (λ j m. m ≤ s.t.max_conns_per_host) k (n - 1) s.t.conns_per_host
                (omega (arith, a.limited k)) a.limited;
          counted = λ h j. elim (Bool-cases (k == j)) [
            | inl e ↦
                let key : k ≡ j = (==_iff k j).0 e in
                rw e (omega (arith, a.counted h j, ap s.t.conns_per_host key))
            | inr e ↦ rw e (omega (arith, a.counted h j))
          ];
          standing =
              All-map (Stands s.t.wants s.t.dialing a.items)
                (Stands s.t.wants s.t.dialing (put k [] a.items))
                (moved s.t.wants s.t.dialing s.t.dialing a.items k [] (λ v m. inl (all_done v m))
                  (λ v m. m))
                s.wanted a.standing;
        }

    pub start_next :
        (v : WantConn) (q : WantConnQueue WantConn)
        → Shows q (behind_waiting (waiting s.t) (a.items k))
        → first_waiting (waiting s.t) (a.items k) ≡ some v
        → (t : Transport C E) × (start_dial_conn_for_locked v
              (record s.t { conns_per_host_wait = put k q s.t.conns_per_host_wait })
            ≡ some t)
          × Accounts size (returned k s t)
    start_next v q shows first =
        let vs = behind_waiting (waiting s.t) (a.items k) in
        let old = a.queues k in
        let waits = put k q s.t.conns_per_host_wait in
        let of_host : v.key ≡ k =
          (All-first_waiting (λ w. w.key ≡ k) (waiting s.t) (a.items k) v old.of_host first).0 in
        let t1 : Transport C E = record s.t { conns_per_host_wait = waits } in
        let (ds, us, runs, dials_shown) = start_dial_lem v t1 a.dials a.dials_shown in
        (
          record t1 { dials_in_progress = ds; dialing = s.t.dialing ++ v ∷ [] },
          runs,
          record {
            fixed = a.fixed;
            items = put k vs a.items;
            dials = us;
            queues =
                put_two
                  (λ j x y. Queue s.t.wants s.t.max_conns_per_host j (s.t.conns_per_host j) x y) k q
                  vs s.t.conns_per_host_wait a.items
                  (record {
                    shows = shows;
                    of_host =
                        All-behind_waiting (λ w. w.key ≡ k) (waiting s.t) (a.items k) old.of_host;
                    none_waits = λ h.
                        All-behind_waiting (λ w. (s.t.wants w.id).done ≡ true) (waiting s.t)
                          (a.items k) (old.none_waits h);
                  })
                  a.queues;
            dials_shown = dials_shown;
            limited = a.limited;
            counted = λ h j.
                let here : ℕ → ℕ = λ x. if x == j then 1 else 0 in
                let same : here v.key ≡ here k = ap here of_host in
                omega (arith, a.counted h j, started-append j s.t.dialing v, same);
            standing =
                All-map (Stands s.t.wants s.t.dialing a.items)
                  (Stands s.t.wants (s.t.dialing ++ v ∷ []) (put k vs a.items))
                  (moved s.t.wants s.t.dialing (s.t.dialing ++ v ∷ []) a.items k vs
                    (λ w m. elim (IsAmong-behind_waiting (waiting s.t) w (a.items k) m) [
                      | inl e ↦ inl (not-false (s.t.wants w.id).done e)
                      | inr (inl e) ↦ inr (
                          inl (
                            subst (λ x. IsAmong x (s.t.dialing ++ v ∷ [])) (cc (first, e))
                              (IsAmong-last v s.t.dialing)))
                      | inr (inr there) ↦ inr (inr there)
                    ])
                    (λ w m. IsAmong-left w s.t.dialing (v ∷ []) m))
                  s.wanted a.standing;
          },
        )
