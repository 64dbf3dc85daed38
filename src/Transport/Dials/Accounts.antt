-- ===== src/Transport/Dials/Accounts.antt =====
-- transport.go: runs of the calls that share the places of a host, and what holds between them.
use req.Base.{
  ℕ, ◌+◌, ◌-◌, ◌≤◌, ◌<◌, ◌≡◌, ◌⊎◌, true, ◌==◌, ltb, Option, some, ◌>>=?◌, if◌then◌else◌, List, [],
  ◌∷◌, All,
}
use req.Transport.WantConnQueue.Shows.{Shows}
use req.Transport.Dials.{
  ConnOrError, WantConn, Transport, new_transport, try_deliver, cancel, receive, end_dial,
  queue_for_dial, dec_conns_per_host, Want, WantConnQueue,
}

-- A call by some goroutine. A dial that failed, or a connection that is closed, gives its place back.
pub data Event (C E : Type 0) : Type 0 where
  want : WantConn → Event C E
  deliver : WantConn → ConnOrError C E → Event C E
  give_up received dial_ended : WantConn → Event C E
  give_back : ℕ → Event C E

-- The transport, the hosts whose places were given back, and the wantConns that were queued.
pub record State (C E : Type 0) : Type 0 where
  pub t : Transport C E
  pub given_back : List ℕ
  pub wanted : List WantConn

abbrev pub count : ℕ → List ℕ → ℕ
count k [] = 0
count k (j ∷ js) = (if j == k then 1 else 0) + count k js

-- The dials started for a host.
abbrev pub started : ℕ → List WantConn → ℕ
started k [] = 0
started k (w ∷ ws) = (if w.key == k then 1 else 0) + started k ws

abbrev pub IsAmong : WantConn → List WantConn → Type 0
IsAmong w [] = ⊥
IsAmong w (v ∷ vs) = (w ≡ v) ⊎ IsAmong w vs

module _ {C E : Type 0} where
  abbrev pub start : ℕ → State C E
  start size = record { t = new_transport size; given_back = []; wanted = [] }

  -- The places of a host that are taken: dials started whose place was not given back.
  abbrev pub taken : ℕ → State C E → ℕ
  taken k s = started k s.t.dialing - count k s.given_back

  -- A place is given back by who has it: with no place taken there is no such call.
  abbrev pub step : Event C E → State C E → Option (State C E)
  step (want w) s = queue_for_dial w s.t >>=? λ t. some (record s { t = t; wanted = w ∷ s.wanted })
  step (deliver w r) s = some (record s { t = (try_deliver w r s.t).1 })
  step (give_up w) s = some (record s { t = (cancel w s.t).1 })
  step (received w) s = some (record s { t = (receive w s.t).1 })
  step (dial_ended w) s = some (record s { t = end_dial w s.t })
  step (give_back k) s =
      let next = dec_conns_per_host k s.t >>=? λ t.
      some (record s { t = t; given_back = k ∷ s.given_back }) in
      if ltb 0 (taken k s) then next else some s

  abbrev pub run : List (Event C E) → State C E → Option (State C E)
  run [] s = some s
  run (e ∷ es) s = step e s >>=? λ s'. run es s'

  -- The items of the queue of a host with `n` places taken of `size`.
  pub record Queue (wants : ℕ → Want C E) (size k n : ℕ) (q : WantConnQueue WantConn)
      (items : List WantConn) : Type 0 where
    pub shows : Shows q items
    pub of_host : All (λ w. w.key ≡ k) items
    pub none_waits : (n < size) ⊎ (size ≡ 0) → All (λ w. (wants w.id).done ≡ true) items

  -- Where a wantConn stands: answered, dialed for, or in the queue.
  abbrev pub Stands : (ℕ → Want C E) → List WantConn → (ℕ → List WantConn) → WantConn → Type 0
  Stands wants dialing items w =
      ((wants w.id).done ≡ true) ⊎ (IsAmong w dialing ⊎ IsAmong w (items w.key))

  pub record Accounts (size : ℕ) (s : State C E) : Type 0 where
    pub fixed : s.t.max_conns_per_host ≡ size
    pub items : ℕ → List WantConn
    pub dials : List WantConn
    pub queues :
        (k : ℕ)
        → Queue s.t.wants s.t.max_conns_per_host k
            (s.t.conns_per_host k)
            (s.t.conns_per_host_wait k)
            (items k)
    pub dials_shown : Shows s.t.dials_in_progress dials
    pub limited : (k : ℕ) → s.t.conns_per_host k ≤ s.t.max_conns_per_host
    pub counted :
        0 < s.t.max_conns_per_host
        → (k : ℕ) → s.t.conns_per_host k + count k s.given_back ≡ started k s.t.dialing
    pub standing : All (Stands s.t.wants s.t.dialing items) s.wanted
