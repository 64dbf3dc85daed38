-- ===== src/Transport/Dials/GivenBack.antt =====
-- transport.go: decConnsPerHost keeps the accounts, and does not panic.
use req.Base.{
  ℕ, suc, ◌+◌, ◌==◌, ==_iff, ◌<◌, ◌≡◌, refl, subst, true, false, Bool-cases, some, Option-cases,
  inl, inr, List, [], ◌∷◌, length, arith, if◌then◌else◌,
}
use req.Transport.WantConnQueue.{WantConnQueue, new_queue, len}
use req.Transport.WantConnQueue.Shows.{Shows, new_queue-Shows, len-Shows}
use req.Transport.Dials.{WantConn, Transport, waiting, put, lower, hand_over, dec_conns_per_host}
use req.Transport.Dials.Start.{
  first_waiting, behind_waiting, pop_waiting-Shows, IsAmong-behind_waiting, none_waiting,
}
use req.Transport.Dials.Accounts.{State, IsAmong, taken, Accounts}
use req.Transport.Dials.Keeps.{not-false, put_all, put_two}
use req.Transport.Dials.Handed.{returned, lower-Accounts, start_next}

module _ {C E : Type 0} where
  module _ (k : ℕ) (s : State C E) {size : ℕ} (a : Accounts size s) where
    no_limit :
        (s.t.max_conns_per_host == 0) ≡ true
        → (t : Transport C E) × (dec_conns_per_host k s.t ≡ some t) × Accounts size (returned k s t)
    unfolding dec_conns_per_host
    no_limit e = (
      s.t,
      rw e refl,
      record {
        fixed = a.fixed;
        items = a.items;
        dials = a.dials;
        queues = a.queues;
        dials_shown = a.dials_shown;
        limited = a.limited;
        counted = λ h. absurd (omega (arith, h, (==_iff s.t.max_conns_per_host 0).0 e));
        standing = a.standing;
      },
    )

    stored : WantConnQueue WantConn → WantConnQueue WantConn
    stored q = if len q == 0 then new_queue else q

    stored-Shows :
        (q : WantConnQueue WantConn) (vs : List WantConn) → Shows q vs → Shows (stored q) vs
    unfolding stored
    stored-Shows q [] h = rw (len-Shows q [] h) new_queue-Shows
    stored-Shows q (v ∷ vs) h =
        let some_left : (suc (length vs) == 0) ≡ false = ground arith in
        rw (len-Shows q (v ∷ vs) h, some_left) h

    none_queued : (vs : List WantConn) → length vs ≡ 0 → vs ≡ []
    none_queued [] e = refl
    none_queued (v ∷ vs) e = absurd (omega arith)

    hand-Accounts :
        (q : WantConnQueue WantConn)
        → 0 < s.t.conns_per_host k
        → Shows q (behind_waiting (waiting s.t) (a.items k))
        → (t : Transport C E) × (hand_over k (first_waiting (waiting s.t) (a.items k), q) s.t
            ≡ some t)
          × Accounts size (returned k s t)
    unfolding hand_over stored
    hand-Accounts q some_taken shows =
        elim (Option-cases (first_waiting (waiting s.t) (a.items k))) [
          | inl e ↦
              let waits = put k (stored q) s.t.conns_per_host_wait in
              let left : Shows q [] =
                subst (Shows q) (none_waiting (waiting s.t) (a.items k) e) shows in
              (
                lower k (record s.t { conns_per_host_wait = waits }),
                rw e refl,
                lower-Accounts k s a waits some_taken
                    (put_two (λ j x y. Shows x y) k (stored q) [] s.t.conns_per_host_wait a.items
                      (stored-Shows q [] left) (λ j. (a.queues j).shows))
                    (λ v m. elim (IsAmong-behind_waiting (waiting s.t) v (a.items k) m) [
                      | inl waits ↦ not-false (s.t.wants v.id).done waits
                      | inr (inl first) ↦ absurd (ground (arith, e, first))
                      | inr (inr there) ↦
                          absurd
                            (subst (IsAmong v) (none_waiting (waiting s.t) (a.items k) e) there)
                    ]),
              )
          | inr (v, e) ↦
              let (t, runs, accounts) =
                start_next k s a v (stored q)
                  (stored-Shows q (behind_waiting (waiting s.t) (a.items k)) shows) e in
              (t, rw e runs, accounts)
        ]

    pub dec_conns_per_host-Accounts :
        0 < taken k s
        → (t : Transport C E) × (dec_conns_per_host k s.t ≡ some t) × Accounts size (returned k s t)
    unfolding dec_conns_per_host
    dec_conns_per_host-Accounts some_taken = elim (Bool-cases (s.t.max_conns_per_host == 0)) [
      | inl e ↦ no_limit e
      | inr e ↦
          let pos : 0 < s.t.max_conns_per_host = ground (arith, e) in
          let n : 0 < s.t.conns_per_host k = omega (arith, some_taken, a.counted pos k) in
          let not_none : (s.t.conns_per_host k == 0) ≡ false = ground (arith, n) in
          let q = s.t.conns_per_host_wait k in
          let shows = (a.queues k).shows in
          elim (Bool-cases (len q == 0)) [
            | inl none_left ↦
                let empty : a.items k ≡ [] =
                  none_queued (a.items k) (
                    omega (arith, len-Shows q (a.items k) shows, (==_iff (len q) 0).0 none_left)) in
                (
                  lower k s.t,
                  rw (e, not_none, none_left) refl,
                  lower-Accounts k s a s.t.conns_per_host_wait n
                      (put_all (λ j y. Shows (s.t.conns_per_host_wait j) y) k [] a.items
                        (subst (Shows q) empty shows) (λ j. (a.queues j).shows))
                      (λ v m. absurd (subst (IsAmong v) empty m)),
                )
            | inr some_left ↦
                let (q', runs, left) =
                  pop_waiting-Shows (waiting s.t) (len q + 1) q (a.items k) shows
                    (omega (arith, len-Shows q (a.items k) shows)) in
                let (t, hands, accounts) = hand-Accounts q' n left in
                (t, rw (e, not_none, some_left, runs) hands, accounts)
          ]
    ]
