-- ===== src/Transport/Dials/Queued.antt =====
-- transport.go: queueForDial keeps the accounts, and does not panic.
use req.Base.{
  ℕ, ◌+◌, ◌==◌, ==_iff, ltb, ◌≤◌, ◌<◌, ◌≡◌, refl, ap, sym, subst, true, false, Bool-cases, some,
  inl, inr, [], ◌∷◌, ◌++◌, All-map, All-append, arith, lt→ltb, le→ltb, ltb→lt,
}
use req.Transport.WantConnQueue.Shows.{from_kept}
use req.Transport.Dials.{WantConn, Transport, waiting, put, queue_for_dial}
use req.Transport.Dials.Start.{All-from_kept, IsAmong-from_kept, start_dial_lem, wait_to_dial_lem}
use req.Transport.Dials.Accounts.{State, IsAmong, Queue, Stands, Accounts}
use req.Transport.Dials.Keeps.{
  started-append, IsAmong-left, IsAmong-last, not-false, put_all, put_two, moved, grown, put_same,
}

module _ {C E : Type 0} where
  -- What `queueForDial` leaves.
  abbrev pub queued : WantConn → State C E → Transport C E → State C E
  queued w s t = record s { t = t; wanted = w ∷ s.wanted }

  module _ (w : WantConn) (s : State C E) {size : ℕ} (a : Accounts size s) where
    want_unlimited :
        (s.t.max_conns_per_host == 0) ≡ true
        → (t : Transport C E) × (queue_for_dial w s.t ≡ some t) × Accounts size (queued w s t)
    unfolding queue_for_dial
    want_unlimited e =
        let (q, us, runs, shows) = start_dial_lem w s.t a.dials a.dials_shown in
        (
          record s.t { dials_in_progress = q; dialing = s.t.dialing ++ w ∷ [] },
          rw e runs,
          record {
            fixed = a.fixed;
            items = a.items;
            dials = us;
            queues = a.queues;
            dials_shown = shows;
            limited = a.limited;
            counted = λ h. absurd (omega (arith, h, (==_iff s.t.max_conns_per_host 0).0 e));
            standing = (
              inr (inl (IsAmong-last w s.t.dialing)),
              All-map (Stands s.t.wants s.t.dialing a.items)
                  (Stands s.t.wants (s.t.dialing ++ w ∷ []) a.items)
                  (grown s.t.wants s.t.dialing w a.items) s.wanted a.standing,
            );
          },
        )

    want_place :
        (s.t.max_conns_per_host == 0) ≡ false
        → s.t.conns_per_host w.key < s.t.max_conns_per_host
        → (t : Transport C E) × (queue_for_dial w s.t ≡ some t) × Accounts size (queued w s t)
    unfolding queue_for_dial put
    want_place e free =
        let n = s.t.conns_per_host w.key in
        let t1 : Transport C E = record s.t {
          conns_per_host = put w.key (n + 1) s.t.conns_per_host;
        } in
        let (q, us, runs, shows) = start_dial_lem w t1 a.dials a.dials_shown in
        (
          record t1 { dials_in_progress = q; dialing = s.t.dialing ++ w ∷ [] },
          rw (e, lt→ltb n s.t.max_conns_per_host free) runs,
          record {
            fixed = a.fixed;
            items = a.items;
            dials = us;
            queues =
                put_all
                  (λ j m.
                    Queue s.t.wants s.t.max_conns_per_host j m (s.t.conns_per_host_wait j)
                      (a.items j))
                  w.key (n + 1) s.t.conns_per_host
                  (let q = a.queues w.key in
                    record {
                      shows = q.shows;
                      of_host = q.of_host;
                      none_waits = λ h. q.none_waits (inl free);
                    })
                  a.queues;
            dials_shown = shows;
            limited =
                put_all (λ j m. m ≤ s.t.max_conns_per_host) w.key (n + 1) s.t.conns_per_host
                  (omega arith) a.limited;
            counted = λ h k. elim (Bool-cases (w.key == k)) [
              | inl same ↦
                  let key : w.key ≡ k = (==_iff w.key k).0 same in
                  rw same (
                    let more = started-append k s.t.dialing w in
                    omega (arith, a.counted h k, rw same at more, ap s.t.conns_per_host key))
              | inr other ↦
                  let more = started-append k s.t.dialing w in
                  rw other (omega (arith, a.counted h k, rw other at more))
            ];
            standing = (
              inr (inl (IsAmong-last w s.t.dialing)),
              All-map (Stands s.t.wants s.t.dialing a.items)
                  (Stands s.t.wants (s.t.dialing ++ w ∷ []) a.items)
                  (grown s.t.wants s.t.dialing w a.items) s.wanted a.standing,
            );
          },
        )

    want_full :
        (s.t.max_conns_per_host == 0) ≡ false
        → s.t.max_conns_per_host ≤ s.t.conns_per_host w.key
        → (t : Transport C E) × (queue_for_dial w s.t ≡ some t) × Accounts size (queued w s t)
    unfolding queue_for_dial
    want_full e full =
        let old = a.queues w.key in
        let kept = from_kept (waiting s.t) (a.items w.key) in
        let vs = kept ++ w ∷ [] in
        let (q, runs, shows) = wait_to_dial_lem w s.t (a.items w.key) old.shows in
        (
          record s.t { conns_per_host_wait = put w.key q s.t.conns_per_host_wait },
          rw (e, le→ltb (s.t.conns_per_host w.key) s.t.max_conns_per_host full) runs,
          record {
            fixed = a.fixed;
            items = put w.key vs a.items;
            dials = a.dials;
            queues =
                put_two
                  (λ j x y. Queue s.t.wants s.t.max_conns_per_host j (s.t.conns_per_host j) x y)
                  w.key q vs s.t.conns_per_host_wait a.items
                  (record {
                    shows = shows;
                    of_host =
                        All-append (λ v. v.key ≡ w.key) (from_kept (waiting s.t) (a.items w.key))
                          (w ∷ [])
                          (All-from_kept (λ v. v.key ≡ w.key) (waiting s.t) (a.items w.key)
                            old.of_host)
                          (refl, tt);
                    none_waits = λ h. elim h [
                      | inl free ↦ absurd (omega (arith, free))
                      | inr unlimited ↦ absurd (ground (arith, e, unlimited))
                    ];
                  })
                  a.queues;
            dials_shown = a.dials_shown;
            limited = a.limited;
            counted = a.counted;
            standing = (
              inr (inr (subst (IsAmong w) (sym (put_same w.key vs a.items)) (IsAmong-last w kept))),
              All-map (Stands s.t.wants s.t.dialing a.items)
                  (Stands s.t.wants s.t.dialing (put w.key vs a.items))
                  (moved s.t.wants s.t.dialing s.t.dialing a.items w.key vs
                    (λ v m. elim (IsAmong-from_kept (waiting s.t) v (a.items w.key) m) [
                      | inl e ↦ inl (not-false (s.t.wants v.id).done e)
                      | inr there ↦ inr (inr (IsAmong-left v kept (w ∷ []) there))
                    ])
                    (λ v m. m))
                  s.wanted a.standing,
            );
          },
        )

    pub queue_for_dial-Accounts :
        (t : Transport C E) × (queue_for_dial w s.t ≡ some t) × Accounts size (queued w s t)
    queue_for_dial-Accounts = elim (Bool-cases (s.t.max_conns_per_host == 0)) [
      | inl e ↦ want_unlimited e
      | inr e ↦ elim (Bool-cases (ltb (s.t.conns_per_host w.key) s.t.max_conns_per_host)) [
        | inl free ↦ want_place e (ltb→lt (s.t.conns_per_host w.key) s.t.max_conns_per_host free)
        | inr full ↦ want_full e (ground (arith, full))
      ]
    ]
