-- ===== src/Http2/ClientConn/Taking.antt =====
-- internal/http2/transport.go: lemmas on what `awaitFlowControl` takes.
use req.Base.{
  ℕ, ◌≡◌, refl, Option, none, some, List, arith, true, false, ◌^◌, ◌<◌, All, map, [], ◌∷◌, ◌==◌,
  ==_iff, Bool-cases, inl, inr, sym, subst,
}
use req.Base.Int.{ℤ, pos, ◌+ℤ◌, ◌-ℤ◌, ◌≤ℤ◌, int_laws, one_part, IsInt32, ltb_ℤ}
use req.Http2.ClientConn.{Cause, ClientStream, ClientConn, change_at, change_stream, stream_at}
use req.Http2.ClientConn.Control.{
  Taken, conn_closed, stop_body_write, aborted, take_both, take_window, await_flow_control,
  limit_take,
}
use req.Http2.ClientConn.Windows.{WithinStream, Takes, take-Takes}
use req.Http2.ClientConn.Runs.{Peer, Sent, spend, more_for, IsPaid, as_sent}
use req.Http2.ClientConn.Within.{win, Within, Holds, stream_at-All, Falls-All}
use req.Http2.Flow.{Outflow, available}
use req.Http2.ClientConn.WindowUpdates.{change_at-Falls}
use req.Base.{if-cases}

-- The window of a stream behind a take.
paid-WithinStream :
    (initial : ℕ) (offset flow conn n : ℤ)
    → initial < 2 ^ 31
    → Takes flow conn n
    → WithinStream (pos initial) offset flow
    → WithinStream (pos initial) (offset +ℤ (pos 0 -ℤ n)) (flow -ℤ n)
paid-WithinStream initial offset flow conn n small t w = record {
  int = omega (int_laws, t.not_negative, t.of_stream, w.int, one_part (flow -ℤ n), one_part flow);
  below = omega (int_laws, w.below);
  not_far = omega (int_laws, t.of_stream, small);
}

paid_conn :
    (flow conn window n : ℤ)
    → Takes flow conn n
    → IsInt32 conn
    → conn ≤ℤ window
    → IsInt32 (conn -ℤ n) × (conn -ℤ n ≤ℤ window -ℤ n)
paid_conn flow conn window n t int below = (
  omega (int_laws, t.not_negative, t.of_conn, int, one_part (conn -ℤ n), one_part conn),
  omega (int_laws, below),
)

drawn_own :
    (id j : ℕ) (flow n : ℤ) (p : Peer)
    → (j == id) ≡ true
    → WithinStream p.initial (p.offset id +ℤ (pos 0 -ℤ n)) flow
    → WithinStream p.initial (more_for id (pos 0 -ℤ n) p.offset j) flow
drawn_own id j flow n p e w = rw e (
    subst (λ i. WithinStream p.initial (p.offset i +ℤ (pos 0 -ℤ n)) flow) (sym ((==_iff j id).0 e))
      w)

module _ {B : Type 0} where
  -- The connection behind a take of `n` for a stream.
  abbrev drawn : ClientStream B → ℤ → ClientConn B → ClientConn B
  drawn cs n conn =
      change_stream cs.id (λ s. record s { flow = cs.flow -ℤ n })
        (record conn { flow = conn.flow -ℤ n })

  drawn_streams :
      (id : ℕ) (flow n : ℤ) (p : Peer) (ss : List (ClientStream B))
      → WithinStream p.initial (p.offset id +ℤ (pos 0 -ℤ n)) flow
      → All (λ w. WithinStream p.initial (p.offset w.0) w.1) (map win ss)
      → All
          (λ w. WithinStream p.initial (more_for id (pos 0 -ℤ n) p.offset w.0) w.1)
          (map win (change_at id (λ s. record s { flow = flow }) ss))
  unfolding change_at
  drawn_streams id flow n p [] w h = tt
  drawn_streams id flow n p (s ∷ ss) w h = elim (Bool-cases (s.id == id)) [
    | inl e ↦ rw e (drawn_own id s.id flow n p e w, drawn_streams id flow n p ss w h.1)
    | inr e ↦ rw e (rw e h.0, drawn_streams id flow n p ss w h.1)
  ]

  drawn-Within :
      (cs : ClientStream B) (n : ℤ) (conn : ClientConn B) (p : Peer)
      → cs.id < conn.next_stream_id
      → Takes cs.flow conn.flow n
      → WithinStream p.initial (p.offset cs.id) cs.flow
      → Within conn p
      → Within (drawn cs n conn) (spend (some (cs.id, n)) p)
  drawn-Within cs n conn p old t of_stream w =
      let (int, below) = paid_conn cs.flow conn.flow p.window n t w.conn_int w.conn_below in
      let left : WithinStream p.initial (p.offset cs.id +ℤ (pos 0 -ℤ n)) (cs.flow -ℤ n) =
        rw w.initial_same (
          paid-WithinStream conn.initial_window_size (p.offset cs.id) cs.flow conn.flow n
            w.initial_int t
            (subst (λ i. WithinStream i (p.offset cs.id) cs.flow) w.initial_same of_stream)) in
      record {
        frame_size = w.frame_size;
        conn_int = int;
        conn_below = below;
        initial_int = w.initial_int;
        initial_same = w.initial_same;
        of_streams = drawn_streams cs.id (cs.flow -ℤ n) n p conn.streams left w.of_streams;
        of_others = λ j le.
            let other : (j == cs.id) ≡ false = ground (arith, le, old) in
            rw other (w.of_others j le);
      }

  drawn-Holds :
      (cs : ClientStream B) (n : ℤ) (conn : ClientConn B) (p : Peer)
      → cs.id < conn.next_stream_id
      → Takes cs.flow conn.flow n
      → WithinStream p.initial (p.offset cs.id) cs.flow
      → Within conn p
      → Holds conn p
      → Holds (drawn cs n conn) (spend (some (cs.id, n)) p)
  drawn-Holds cs n conn p old t of_stream w h = record {
    falls =
        change_at-Falls (λ s. record s { flow = cs.flow -ℤ n }) conn.next_stream_id cs.id
          conn.streams (λ s. refl) h.falls;
    next_pos = h.next_pos;
    within = inr (drawn-Within cs n conn p old t of_stream w);
  }

  -- What is sent, with the state behind it.
  abbrev pub Paid : ℕ → Peer → Option (Taken × ClientConn B) → Type 0
  Paid id p r =
      (sent : Sent) × (conn' : ClientConn B) × (as_sent id r ≡ some (sent, conn'))
      × IsPaid sent p
      × Holds conn' (spend sent p)

  take_window-Paid :
      (max_bytes : ℕ) (cs : ClientStream B) (conn : ClientConn B) (p : Peer)
      → cs.id < conn.next_stream_id
      → WithinStream p.initial (p.offset cs.id) cs.flow
      → Within conn p
      → Holds conn p
      → Paid cs.id p (take_window max_bytes cs conn)
  unfolding take_window take_both
  take_window-Paid max_bytes cs conn p old of_stream w h =
      let f : Outflow = record { n = cs.flow; conn = some conn.flow } in
      let n = limit_take (available f) max_bytes conn.max_frame_size in
      elim (Bool-cases (ltb_ℤ (pos 0) (available f))) [
        | inr e ↦ rw e (none, conn, refl, tt, h)
        | inl e ↦
            let t : Takes cs.flow conn.flow n =
              take-Takes cs.flow conn.flow max_bytes conn.max_frame_size of_stream.int w.conn_int
                w.frame_size e in
            rw (e, t.runs)
              (
                some (cs.id, n),
                drawn cs n conn,
                refl,
                (
                  t.not_negative,
                  omega (int_laws, t.of_conn, w.conn_below),
                  omega (int_laws, t.of_stream, of_stream.below),
                ),
                drawn-Holds cs n conn p old t of_stream w h,
              )
      ]

  unless_over-Paid :
      (e canceled : Option Cause) (max_bytes : ℕ) (cs : ClientStream B) (conn : ClientConn B)
      (p : Peer)
      → Holds conn p
      → Paid cs.id p (take_window max_bytes cs conn)
      → Paid cs.id p (elim e [
        | some e ↦ some (aborted e, conn)
        | none ↦ elim canceled [
          | some e ↦ some (aborted e, conn)
          | none ↦ take_window max_bytes cs conn
        ]
      ])
  unless_over-Paid (some e) canceled max_bytes cs conn p h q = (none, conn, refl, tt, h)
  unless_over-Paid none (some e) max_bytes cs conn p h q = (none, conn, refl, tt, h)
  unless_over-Paid none none max_bytes cs conn p h q = q

  open-Paid :
      (canceled : Option Cause) (max_bytes : ℕ) (cs : ClientStream B) (conn : ClientConn B)
      (p : Peer)
      → Holds conn p
      → (conn.closed ≡ false → Paid cs.id p (take_window max_bytes cs conn))
      → Paid cs.id p (await_flow_control canceled max_bytes cs conn)
  unfolding await_flow_control
  open-Paid canceled max_bytes cs conn p h take =
      let still : (r : Taken)
          → as_sent cs.id (some (r, conn)) ≡ some (none, conn)
          → Paid cs.id p (some (r, conn)) =
        λ r e. (none, conn, e, tt, h) in
      if-cases (Paid cs.id p) conn.closed (some (conn_closed, conn)) _ (λ e. still conn_closed refl)
        (λ is_open.
          if-cases (Paid cs.id p) cs.req_body_closed (some (stop_body_write, conn)) _
            (λ e. still stop_body_write refl)
            (λ e. unless_over-Paid cs.abort canceled max_bytes cs conn p h (take is_open)))

  pub want-Paid :
      (canceled : Option Cause) (max_bytes id : ℕ) (cs : ClientStream B) (conn : ClientConn B)
      (p : Peer)
      → stream_at id conn.streams ≡ some cs
      → Holds conn p
      → Paid cs.id p (await_flow_control canceled max_bytes cs conn)
  want-Paid canceled max_bytes id cs conn p found h =
      let (same, old) =
        stream_at-All (λ w. w.0 < conn.next_stream_id) id conn.streams cs
          (Falls-All conn.next_stream_id (map win conn.streams) h.falls) found in
      open-Paid canceled max_bytes cs conn p h (λ is_open. elim h.within [
        | inl c ↦ absurd (ground (arith, c, is_open))
        | inr w ↦
            let (ignored, of_stream) =
              stream_at-All (λ x. WithinStream p.initial (p.offset x.0) x.1) id conn.streams cs
                w.of_streams found in
            take_window-Paid max_bytes cs conn p old of_stream w h
      ])
