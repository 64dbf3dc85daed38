-- ===== src/Http2/ClientConn/WindowUpdates.antt =====
-- internal/http2/transport.go: lemmas on a WINDOW_UPDATE frame, with what it grants.
use req.Base.{
  ℕ, suc, ◌^◌, ◌<◌, ◌≡◌, refl, sym, subst, true, false, Bool-cases, ◌==◌, Option, none, some, inl,
  inr, if-either, List, [], ◌∷◌, map, All, All-map, if-cases, ◌⊎◌,
}
use req.Base.Int.{ℤ, pos, ◌+ℤ◌, ◌≤ℤ◌, int32, int_laws}
use req.Http2.Errors.{Error, err_code_flow_control, connection}
use req.Http2.Flow.{add_outflow}
use req.Http2.ClientConn.{ClientStream, ClientConn, change_at, change_stream, stream_at}
use req.Http2.ClientConn.Control.{
  stream_by_id, live, grow_stream, grow_conn, update_window, process_window_update, Processed,
  processed, deadlock,
}
use req.Http2.ClientConn.Windows.{WithinStream, grow-WithinStream, grow_conn_window, refused_window}
use req.Http2.ClientConn.Runs.{Peer, more_for, Overflows, window_update}
use req.Http2.ClientConn.Within.{win, Falls, Within, Holds, not_found, stream_at-All}

-- The increment that a window does not take up is beyond that of the peer.
over_peer :
    (n : ℕ) (initial offset flow : ℤ)
    → n < 2 ^ 31
    → WithinStream initial offset flow
    → (add_outflow (int32 (pos n)) (record { n = flow; conn = none })).0 ≡ false
    → pos (2 ^ 31) ≤ℤ initial +ℤ offset +ℤ pos n
over_peer n initial offset flow small w refused =
    omega (int_laws, w.below, refused_window n flow small w.int refused)

module _ {B : Type 0} where
  -- A peer that grants more.
  more-Within :
      (conn : ClientConn B) (p : Peer) (id n : ℕ)
      → n < 2 ^ 31
      → Within conn p
      → Within conn (record p { offset = more_for id (pos n) p.offset })
  more-Within conn p id n small w = record {
    frame_size = w.frame_size;
    conn_int = w.conn_int;
    conn_below = w.conn_below;
    initial_int = w.initial_int;
    initial_same = w.initial_same;
    of_streams =
        All-map (λ x. WithinStream p.initial (p.offset x.0) x.1)
          (λ x. WithinStream p.initial (more_for id (pos n) p.offset x.0) x.1)
          (λ x h.
            if-either (λ o. WithinStream p.initial o x.1) (x.0 == id) (p.offset x.0 +ℤ pos n)
              (p.offset x.0) ((grow-WithinStream n p.initial (p.offset x.0) x.1 small h).1) h)
          (map win conn.streams) w.of_streams;
    of_others = λ j le.
        if-either (λ o. pos 0 ≤ℤ o) (j == id) (p.offset j +ℤ pos n) (p.offset j)
          (omega (int_laws, w.of_others j le)) (w.of_others j le);
  }

  -- The window of a stream behind an increment for it.
  grow_found :
      (id n : ℕ) (p : Peer) (cs : ClientStream B)
      → n < 2 ^ 31
      → (cs.id == id) ≡ true
      → WithinStream p.initial (p.offset cs.id) cs.flow
      → WithinStream p.initial (more_for id (pos n) p.offset cs.id) (grow_stream n cs).flow
  unfolding grow_stream
  grow_found id n p cs small e w =
      rw e (grow-WithinStream n p.initial (p.offset cs.id) cs.flow small w).0

  grow_other :
      (id n : ℕ) (p : Peer) (cs : ClientStream B)
      → (cs.id == id) ≡ false
      → WithinStream p.initial (p.offset cs.id) cs.flow
      → WithinStream p.initial (more_for id (pos n) p.offset cs.id) cs.flow
  grow_other id n p cs e w = rw e w

  grow_stream-id : (n : ℕ) (cs : ClientStream B) → (grow_stream n cs).id ≡ cs.id
  unfolding grow_stream
  grow_stream-id n cs = refl

  grow_streams :
      (id n : ℕ) (p : Peer) (ss : List (ClientStream B))
      → n < 2 ^ 31
      → All (λ x. WithinStream p.initial (p.offset x.0) x.1) (map win ss)
      → All
          (λ x. WithinStream p.initial (more_for id (pos n) p.offset x.0) x.1)
          (map win (change_at id (grow_stream n) ss))
  unfolding change_at grow_stream
  grow_streams id n p [] small h = tt
  grow_streams id n p (cs ∷ ss) small h = elim (Bool-cases (cs.id == id)) [
    | inl e ↦ rw e (grow_found id n p cs small e h.0, grow_streams id n p ss small h.1)
    | inr e ↦ rw e (grow_other id n p cs e h.0, grow_streams id n p ss small h.1)
  ]

  grow-Within :
      (conn : ClientConn B) (p : Peer) (id n : ℕ)
      → n < 2 ^ 31
      → Within conn p
      → Within
          (record conn { streams = change_at id (grow_stream n) conn.streams })
          (record p { offset = more_for id (pos n) p.offset })
  grow-Within conn p id n small w =
      let m = more-Within conn p id n small w in
      record {
        frame_size = w.frame_size;
        conn_int = w.conn_int;
        conn_below = w.conn_below;
        initial_int = w.initial_int;
        initial_same = w.initial_same;
        of_streams = grow_streams id n p conn.streams small w.of_streams;
        of_others = m.of_others;
      }

  -- The identifiers stay as they are.
  pub change_at-Falls :
      (f : ClientStream B → ClientStream B) (m id : ℕ) (ss : List (ClientStream B))
      → ((cs : ClientStream B) → (f cs).id ≡ cs.id)
      → Falls m (map win ss)
      → Falls m (map win (change_at id f ss))
  unfolding change_at
  change_at-Falls f m id [] same h = tt
  change_at-Falls f m id (cs ∷ ss) same h = elim (Bool-cases (cs.id == id)) [
    | inl e ↦ rw (e, same cs) (h.0, h.1, change_at-Falls f cs.id id ss same h.2)
    | inr e ↦ rw e (h.0, h.1, change_at-Falls f cs.id id ss same h.2)
  ]

  pub map-Falls :
      (f : ClientStream B → ClientStream B) (m : ℕ) (ss : List (ClientStream B))
      → ((cs : ClientStream B) → (f cs).id ≡ cs.id)
      → Falls m (map win ss)
      → Falls m (map win (map f ss))
  map-Falls f m [] same h = tt
  map-Falls f m (cs ∷ ss) same h = rw (same cs) (h.0, h.1, map-Falls f cs.id ss same h.2)

  -- What is left of `Holds` behind an error, which closes the connection.
  abbrev pub Ids : ClientConn B → Type 0
  Ids conn = Falls conn.next_stream_id (map win conn.streams) × (0 < conn.next_stream_id)

  -- What follows a frame, with what the peer grants by then.
  abbrev pub Framed : Peer → Option Error × ClientConn B → Type 0
  Framed p (none, conn) = Holds conn p
  Framed p (some e, conn) = Ids conn

  grow_conn-Framed :
      (n : ℕ) (conn : ClientConn B) (p : Peer)
      → n < 2 ^ 31
      → Holds conn p
      → Framed (record p { window = p.window +ℤ pos n }) (grow_conn n conn)
  unfolding grow_conn
  grow_conn-Framed n conn p small h =
      let r = add_outflow (int32 (pos n)) (record { n = conn.flow; conn = none }) in
      if-either (Framed (record p { window = p.window +ℤ pos n })) r.0
        (none, record conn { flow = r.1.n }) (some (connection err_code_flow_control), conn)
        (record {
          falls = h.falls;
          next_pos = h.next_pos;
          within = elim h.within [
            | inl c ↦ inl c
            | inr w ↦
                let (int, below) =
                  grow_conn_window n conn.flow p.window small w.conn_int w.conn_below in
                inr (record {
                  frame_size = w.frame_size;
                  conn_int = int;
                  conn_below = below;
                  initial_int = w.initial_int;
                  initial_same = w.initial_same;
                  of_streams = w.of_streams;
                  of_others = w.of_others;
                })
          ];
        })
        (h.falls, h.next_pos)

  more-Holds :
      (conn : ClientConn B) (p : Peer) (id n : ℕ)
      → n < 2 ^ 31
      → Holds conn p
      → Holds conn (record p { offset = more_for id (pos n) p.offset })
  more-Holds conn p id n small h = record {
    falls = h.falls;
    next_pos = h.next_pos;
    within = elim h.within [ inl c ↦ inl c | inr w ↦ inr (more-Within conn p id n small w) ];
  }

  grow-Holds :
      (conn : ClientConn B) (p : Peer) (id n : ℕ)
      → n < 2 ^ 31
      → Holds conn p
      → Holds
          (record conn { streams = change_at id (grow_stream n) conn.streams })
          (record p { offset = more_for id (pos n) p.offset })
  grow-Holds conn p id n small h = record {
    falls =
        change_at-Falls (grow_stream n) conn.next_stream_id id conn.streams (grow_stream-id n)
          h.falls;
    next_pos = h.next_pos;
    within = elim h.within [ inl c ↦ inl c | inr w ↦ inr (grow-Within conn p id n small w) ];
  }

  -- A stream that is found has an identifier above 0.
  no_stream_0 : (conn : ClientConn B) (p : Peer) → Holds conn p → stream_by_id 0 conn ≡ none
  unfolding stream_by_id live
  no_stream_0 conn p h = rw (not_found conn.next_stream_id conn.streams h.falls) refl

  -- What follows a WINDOW_UPDATE frame: an overflow of the stream's window may block.
  abbrev pub WindowFramed : Peer → (ClientConn B → Type 0) → Processed B → Type 0
  WindowFramed p over (processed r) = Framed p r
  WindowFramed p over (deadlock c) = over c

  pub window_update_conn-Framed :
      (n : ℕ) (conn : ClientConn B) (p : Peer)
      → n < 2 ^ 31
      → Holds conn p
      → WindowFramed
          (record p { window = p.window +ℤ pos n })
          (λ c. ⊥)
          (process_window_update 0 n conn)
  unfolding process_window_update update_window
  window_update_conn-Framed n conn p small h =
      subst
        (λ o.
          WindowFramed (record p { window = p.window +ℤ pos n }) (λ c. ⊥)
            (update_window o 0 n conn))
        (sym (no_stream_0 conn p h)) (grow_conn-Framed n conn p small h)

  live_is : (o : Option (ClientStream B)) (cs : ClientStream B) → live o ≡ some cs → o ≡ some cs
  unfolding live
  live_is none cs e = e
  live_is (some s) cs e =
      if-cases (λ (o : Option (ClientStream B)). o ≡ some cs → some s ≡ some cs) s.read_aborted none
        (some s) (λ dead x. cc x) (λ dead x. x) e

  found-Framed :
      (o : Option (ClientStream B)) (id n : ℕ) (conn : ClientConn B) (p : Peer)
      → n < 2 ^ 31
      → Holds conn p
      → stream_by_id (suc id) conn ≡ o
      → WindowFramed
          (record p { offset = more_for (suc id) (pos n) p.offset })
          (λ c. (conn.closed ≡ true) ⊎ Overflows {B = B} (window_update (suc id) n) p)
          (update_window o (suc id) n conn)
  unfolding update_window stream_by_id
  found-Framed none id n conn p small h e = more-Holds conn p (suc id) n small h
  found-Framed (some cs) id n conn p small h e =
      if-cases
        (WindowFramed (record p { offset = more_for (suc id) (pos n) p.offset })
          (λ c. (conn.closed ≡ true) ⊎ Overflows {B = B} (window_update (suc id) n) p))
        (add_outflow (int32 (pos n)) (record { n = cs.flow; conn = none })).0
        (processed (none, change_stream (suc id) (grow_stream n) conn))
        (deadlock (change_stream (suc id) (λ s. record s { read_aborted = true }) conn))
        (λ ok. grow-Holds conn p (suc id) n small h)
        (λ refused. elim h.within [
          | inl c ↦ inl c
          | inr w ↦
              let (same, of_stream) =
                stream_at-All (λ x. WithinStream p.initial (p.offset x.0) x.1) (suc id) conn.streams
                  cs w.of_streams (live_is (stream_at (suc id) conn.streams) cs e) in
              inr (
                subst (λ j. pos (2 ^ 31) ≤ℤ p.initial +ℤ p.offset j +ℤ pos n) same
                  (over_peer n p.initial (p.offset cs.id) cs.flow small of_stream refused))
        ])

  pub window_update_stream-Framed :
      (id n : ℕ) (conn : ClientConn B) (p : Peer)
      → n < 2 ^ 31
      → Holds conn p
      → WindowFramed
          (record p { offset = more_for (suc id) (pos n) p.offset })
          (λ c. (conn.closed ≡ true) ⊎ Overflows {B = B} (window_update (suc id) n) p)
          (process_window_update (suc id) n conn)
  unfolding process_window_update
  window_update_stream-Framed id n conn p small h =
      found-Framed (stream_by_id (suc id) conn) id n conn p small h refl
