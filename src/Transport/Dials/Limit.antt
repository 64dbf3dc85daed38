-- ===== src/Transport/Dials/Limit.antt =====
-- transport.go: the limit on the connections of a host over any run of calls.
use req.Base.{
  ◌==◌, ==_iff, ℕ, ◌≤◌, ◌<◌, ◌≡◌, refl, true, Bool-cases, ltb, ltb→lt, some, ◌⊎◌, inl, inr, List,
  [], ◌∷◌, All, All-map, arith,
}
use req.Transport.WantConnQueue.Shows.{new_queue-Shows, Shows}
use req.Transport.Dials.{WantConn}
use req.Transport.Dials.Start.{IsAmong-All}
use req.Transport.Dials.Accounts.{
  Event, want, deliver, give_up, received, dial_ended, give_back, State, IsAmong, start, taken,
  step, run, Stands, Accounts,
}
use req.Transport.Dials.Keeps.{
  deliver-Accounts, cancel-Accounts, receive-Accounts, end_dial-Accounts,
}
use req.Transport.Dials.Queued.{queue_for_dial-Accounts}
use req.Transport.Dials.GivenBack.{dec_conns_per_host-Accounts}

module _ {C E : Type 0} where
  start-Accounts : (size : ℕ) → Accounts size (start {C = C} {E = E} size)
  start-Accounts size = record {
    fixed = refl;
    items = λ k. [];
    dials = [];
    queues = λ k. record { shows = new_queue-Shows; of_host = tt; none_waits = λ h. tt };
    dials_shown = new_queue-Shows;
    limited = λ k. omega arith;
    counted = λ h k. refl;
    standing = tt;
  }

  step-Accounts :
      {size : ℕ} (e : Event C E) (s : State C E)
      → Accounts size s
      → (s' : State C E) × (step e s ≡ some s') × Accounts size s'
  step-Accounts (want w) s a =
      let (t, e, h) = queue_for_dial-Accounts w s a in
      (record s { t = t; wanted = w ∷ s.wanted }, rw e refl, h)
  step-Accounts (deliver w r) s a = (_, refl, deliver-Accounts w r s a)
  step-Accounts (give_up w) s a = (_, refl, cancel-Accounts w s a)
  step-Accounts (received w) s a = (_, refl, receive-Accounts w s a)
  step-Accounts (dial_ended w) s a = (_, refl, end_dial-Accounts w s a)
  step-Accounts (give_back k) s a = elim (Bool-cases (ltb 0 (taken k s))) [
    | inl e ↦
        let (t, runs, h) = dec_conns_per_host-Accounts k s a (ltb→lt 0 (taken k s) e) in
        (record s { t = t; given_back = k ∷ s.given_back }, rw (e, runs) refl, h)
    | inr e ↦ (s, rw e refl, a)
  ]

  run-Accounts :
      {size : ℕ} (es : List (Event C E)) (s : State C E)
      → Accounts size s
      → (s' : State C E) × (run es s ≡ some s') × Accounts size s'
  run-Accounts [] s a = (s, refl, a)
  run-Accounts (e ∷ es) s a =
      let (t, runs, h) = step-Accounts e s a in
      let (s', rest, h') = run-Accounts es t h in (s', rw runs rest, h')

  -- With a limit above 0, for any sequence of calls in which requests ask to dial, results are
  -- delivered, requests are cancelled or receive theirs, dials end, and each taken place of a host
  -- is given back at most once: no call panics or runs on, and connsPerHost counts, for each host,
  -- the dials started whose place has not been given back, which are at most as many as the limit.
  pub run-taken :
      (size : ℕ) (es : List (Event C E))
      → 0 < size
      → (s : State C E) × (run es (start size) ≡ some s)
        × ((k : ℕ) → (s.t.conns_per_host k ≡ taken k s) × (taken k s ≤ size))
  run-taken size es limit =
      let (s, runs, a) = run-Accounts es (start size) (start-Accounts size) in
      (
        s,
        runs,
        λ k. (
          omega (arith, a.counted (omega (arith, a.fixed)) k),
          omega (arith, a.counted (omega (arith, a.fixed)) k, a.limited k, a.fixed),
        ),
      )

  -- Where a wantConn stands that was queued.
  abbrev pub IsServed : ℕ → State C E → WantConn → Type 0
  IsServed size s w =
      ((s.t.wants w.id).done ≡ true)
      ⊎ (IsAmong w s.t.dialing
          ⊎ ((items : List WantConn) × IsAmong w items
              × Shows (s.t.conns_per_host_wait w.key) items
              × (taken w.key s ≡ size)))

  served :
      (size : ℕ) (s : State C E) (a : Accounts size s) (w : WantConn)
      → Stands s.t.wants s.t.dialing a.items w
      → IsServed size s w
  served size s a w (inl d) = inl d
  served size s a w (inr (inl m)) = inr (inl m)
  served size s a w (inr (inr m)) =
      let q = a.queues w.key in
      let all_done : (s.t.conns_per_host w.key < s.t.max_conns_per_host)
            ⊎ (s.t.max_conns_per_host ≡ 0)
          → (s.t.wants w.id).done ≡ true =
        λ free.
          IsAmong-All (λ v. (s.t.wants v.id).done ≡ true) w (a.items w.key) m (q.none_waits free) in
      elim (Bool-cases (s.t.max_conns_per_host == 0)) [
        | inl e ↦ inl (all_done (inr ((==_iff s.t.max_conns_per_host 0).0 e)))
        | inr e ↦ elim (Bool-cases (ltb (s.t.conns_per_host w.key) s.t.max_conns_per_host)) [
          | inl free ↦
              inl (all_done (inl (ltb→lt (s.t.conns_per_host w.key) s.t.max_conns_per_host free)))
          | inr full ↦
              let limit : 0 < s.t.max_conns_per_host = ground (arith, e) in
              let no_more : s.t.max_conns_per_host ≤ s.t.conns_per_host w.key =
                ground (arith, full) in
              inr (
                inr (
                  a.items w.key,
                  m,
                  q.shows,
                  omega (arith, a.counted limit w.key, a.limited w.key, a.fixed, no_more),
                ))
        ]
      ]

  -- With any limit, none included, for any sequence of calls in which requests ask to dial, results
  -- are delivered, requests are cancelled or receive theirs, dials end, and each taken place of a
  -- host is given back at most once: no call panics or runs on, and afterwards each request that
  -- has asked to dial has been answered or cancelled, or its dial has been started, or it is in the
  -- queue of its host while all places of the host are taken.
  pub run-IsServed :
      (size : ℕ) (es : List (Event C E))
      → (s : State C E) × (run es (start size) ≡ some s) × All (IsServed size s) s.wanted
  run-IsServed size es =
      let (s, runs, a) = run-Accounts es (start size) (start-Accounts size) in
      (
        s,
        runs,
        All-map (Stands s.t.wants s.t.dialing a.items) (IsServed size s) (served size s a) s.wanted
            a.standing,
      )
