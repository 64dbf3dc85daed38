-- ===== src/Http2/ClientConn/Opens.antt =====
-- internal/http2/transport.go: lemmas on opening, forgetting and closing.
use req.Base.{
  if-either, ℕ, ◌+◌, ◌-◌, ◌%◌, ◌^◌, ◌<◌, ◌≡◌, refl, Bool, true, false, ◌||◌, ◌==◌, ==_refl, Option,
  none, some, inl, inr, if◌then◌else◌, ◌∷◌, length, arith,
}
use req.Http2.ClientConn.{
  Cause, ClientStream, ClientConn, abort_stream, stream_at, delete_at, can_take_new_request,
  reserve_new_request, decr_stream_reservations,
}
use req.Http2.ClientConn.Streams.{
  Slot, unusable, free, busy, open_slot, opened, add_stream, take_slot, start_request,
  resume_unless, resume_request, close_if_last, forget_stream_id, close_if_idle, close_for_error,
  clean_up,
}
use req.Http2.ClientConn.Windows.{WithinStream, open-WithinStream}
use req.Http2.ClientConn.Runs.{Peer}
use req.Http2.ClientConn.Within.{
  win, Within, Holds, Alike, Alike-Holds, map-win, delete_at-All, delete_at-Falls, delete_at_above,
  length-delete_at,
}

module _ {B : Type 0} where
  open_slot-free :
      (too_idle : Bool) (conn : ClientConn B)
      → open_slot too_idle conn ≡ free
      → (conn.closed ≡ false) × (conn.next_stream_id < 2 ^ 31 - 1)
  unfolding open_slot can_take_new_request
  open_slot-free too_idle conn e = ground arith

  opened-Within :
      (cs : ClientStream B) (conn : ClientConn B) (p : Peer)
      → Within conn p
      → WithinStream p.initial (p.offset conn.next_stream_id) (opened conn cs).flow
  unfolding opened
  opened-Within cs conn p w = rw w.initial_same (
      open-WithinStream conn.initial_window_size (p.offset conn.next_stream_id) w.initial_int
        (w.of_others conn.next_stream_id (omega arith)))

  -- A connection with one more stream.
  abbrev with_stream : Bool → ClientStream B → ClientConn B → ClientConn B
  with_stream close cs conn = record conn {
    next_stream_id = (conn.next_stream_id + 2) % 2 ^ 32;
    streams = opened conn cs ∷ delete_at conn.next_stream_id conn.streams;
    do_not_reuse = conn.do_not_reuse || close;
  }

  with_stream-Holds :
      (close : Bool) (cs : ClientStream B) (conn : ClientConn B) (p : Peer)
      → conn.closed ≡ false
      → conn.next_stream_id < 2 ^ 31 - 1
      → Holds conn p
      → Holds (with_stream close cs conn) p
  unfolding opened
  with_stream-Holds close cs conn p is_open room h =
      let next = conn.next_stream_id in
      let same = delete_at_above next next conn.streams (omega arith) h.falls in
      record {
        falls = rw same (omega (arith, room), h.next_pos, h.falls);
        next_pos = omega arith;
        within = elim h.within [
          | inl c ↦ inl c
          | inr w ↦ inr (record {
            frame_size = w.frame_size;
            conn_int = w.conn_int;
            conn_below = w.conn_below;
            initial_int = w.initial_int;
            initial_same = w.initial_same;
            of_streams = rw same (opened-Within cs conn p w, w.of_streams);
            of_others = λ id le. w.of_others id (omega (arith, room, le));
          })
        ];
      }

  take_slot-Holds :
      (slot : Slot) (close : Bool) (cs : ClientStream B) (conn : ClientConn B) (p : Peer)
      → (slot ≡ free → (conn.closed ≡ false) × (conn.next_stream_id < 2 ^ 31 - 1))
      → Holds conn p
      → (conn' : ClientConn B) × (take_slot slot close cs conn ≡ some (slot, conn')) × Holds conn' p
  unfolding take_slot add_stream
  take_slot-Holds unusable close cs conn p room h = (conn, refl, h)
  take_slot-Holds busy close cs conn p room h =
      let c = record conn { pending_requests = conn.pending_requests + 1 } in
      (
        c,
        refl,
        Alike-Holds conn c p
            (record {
              next = refl;
              flow = refl;
              initial = refl;
              frame = refl;
              wins = refl;
              closed = λ e. e;
            })
            h,
      )
  take_slot-Holds free close cs conn p room h =
      let (is_open, small) = room refl in
      let some_id : (conn.next_stream_id == 0) ≡ false = ground (arith, h.next_pos) in
      (
        with_stream close cs conn,
        rw some_id refl,
        with_stream-Holds close cs conn p is_open small h,
      )

  pub start_request-Holds :
      (too_idle close : Bool) (cs : ClientStream B) (conn : ClientConn B) (p : Peer)
      → Holds conn p
      → (slot : Slot) × (conn' : ClientConn B) × (start_request too_idle close cs conn
          ≡ some (slot, conn'))
        × Holds conn' p
  unfolding start_request decr_stream_reservations
  start_request-Holds too_idle close cs conn p h =
      let c = decr_stream_reservations conn in
      let alike : Alike conn c = record {
        next = refl;
        flow = refl;
        initial = refl;
        frame = refl;
        wins = refl;
        closed = λ e. e;
      } in
      let slot = open_slot too_idle c in
      let (c', e, h') =
        take_slot-Holds slot close cs c p (open_slot-free too_idle c)
          (Alike-Holds conn c p alike h) in
      (slot, c', e, h')

  resume_unless-Holds :
      (e : Option Cause) (too_idle close : Bool) (cs : ClientStream B) (conn : ClientConn B)
      (p : Peer)
      → Holds conn p
      → (slot : Slot) × (conn' : ClientConn B) × (resume_unless e too_idle close cs conn
          ≡ some (slot, conn'))
        × Holds conn' p
  unfolding resume_unless
  resume_unless-Holds (some e) too_idle close cs conn p h = (unusable, conn, refl, h)
  resume_unless-Holds none too_idle close cs conn p h =
      let slot = open_slot too_idle conn in
      let (c', e, h') = take_slot-Holds slot close cs conn p (open_slot-free too_idle conn) h in
      (slot, c', e, h')

  pub resume_request-Holds :
      (too_idle close : Bool) (cs : ClientStream B) (conn : ClientConn B) (p : Peer)
      → Holds conn p
      → (slot : Slot) × (conn' : ClientConn B) × (resume_request too_idle close cs conn
          ≡ some (slot, conn'))
        × Holds conn' p
  unfolding resume_request
  resume_request-Holds too_idle close cs conn p h =
      let c : ClientConn B = record conn { pending_requests = conn.pending_requests - 1 } in
      let alike : Alike conn c = record {
        next = refl;
        flow = refl;
        initial = refl;
        frame = refl;
        wins = refl;
        closed = λ e. e;
      } in
      resume_unless-Holds cs.abort too_idle close cs c p (Alike-Holds conn c p alike h)

  -- A connection that is closed, or not.
  closing-Alike : (conn : ClientConn B) → Alike conn (record conn { closed = true })
  closing-Alike conn = record {
    next = refl;
    flow = refl;
    initial = refl;
    frame = refl;
    wins = refl;
    closed = λ e. refl;
  }

  pub Alike-refl : (conn : ClientConn B) → Alike conn conn
  Alike-refl conn = record {
    next = refl;
    flow = refl;
    initial = refl;
    frame = refl;
    wins = refl;
    closed = λ e. e;
  }

  close_if_last-Alike : (conn : ClientConn B) → Alike conn (close_if_last conn)
  unfolding close_if_last
  close_if_last-Alike conn =
      if-either (Alike conn) _ (record conn { closed = true }) conn (closing-Alike conn)
        (Alike-refl conn)

  pub forget_stream_id-Holds :
      (id : ℕ) (cs : ClientStream B) (conn : ClientConn B) (p : Peer)
      → stream_at id conn.streams ≡ some cs
      → Holds conn p
      → (conn' : ClientConn B) × (forget_stream_id id conn ≡ some conn') × Holds conn' p
  unfolding forget_stream_id
  forget_stream_id-Holds id cs conn p found h =
      let c : ClientConn B = record conn { streams = delete_at id conn.streams } in
      let one = length-delete_at conn.next_stream_id id conn.streams cs h.falls found in
      let still : Holds c p = record {
        falls = delete_at-Falls conn.next_stream_id id conn.streams h.falls;
        next_pos = h.next_pos;
        within = elim h.within [
          | inl e ↦ inl e
          | inr w ↦ inr (record {
            frame_size = w.frame_size;
            conn_int = w.conn_int;
            conn_below = w.conn_below;
            initial_int = w.initial_int;
            initial_same = w.initial_same;
            of_streams =
                delete_at-All (λ x. WithinStream p.initial (p.offset x.0) x.1) id conn.streams
                  w.of_streams;
            of_others = w.of_others;
          })
        ];
      } in
      (
        close_if_last c,
        rw (one, ==_refl (length conn.streams)) refl,
        Alike-Holds c (close_if_last c) p (close_if_last-Alike c) still,
      )

  -- The other calls of this side.
  pub reserve_new_request-Alike :
      (too_idle : Bool) (conn : ClientConn B) → Alike conn (reserve_new_request too_idle conn).1
  unfolding reserve_new_request
  reserve_new_request-Alike too_idle conn =
      if-either (λ (q : Bool × ClientConn B). Alike conn q.1) (can_take_new_request too_idle conn)
        (true, record conn { streams_reserved = conn.streams_reserved + 1 }) (false, conn)
        (record {
          next = refl;
          flow = refl;
          initial = refl;
          frame = refl;
          wins = refl;
          closed = λ e. e;
        })
        (Alike-refl conn)

  pub close_if_idle-Alike : (conn : ClientConn B) → Alike conn (close_if_idle conn)
  unfolding close_if_idle
  close_if_idle-Alike conn =
      if-either (Alike conn) _ conn (record conn { closed = true }) (Alike-refl conn)
        (closing-Alike conn)

  pub abort_stream-win : (e : Cause) (cs : ClientStream B) → win (abort_stream e cs) ≡ win cs
  unfolding abort_stream
  abort_stream-win e cs = refl

  pub close_for_error-Alike :
      (e : Cause) (conn : ClientConn B) → Alike conn (close_for_error e conn)
  unfolding close_for_error
  close_for_error-Alike e conn = record {
    next = refl;
    flow = refl;
    initial = refl;
    frame = refl;
    wins = map-win (abort_stream e) conn.streams (abort_stream-win e);
    closed = λ c. refl;
  }

  clean_up_stream :
      (e : Cause) (cs : ClientStream B)
      → win (if cs.read_closed then cs else abort_stream e cs) ≡ win cs
  clean_up_stream e cs =
      if-either (λ x. win x ≡ win cs) cs.read_closed cs (abort_stream e cs) refl
        (abort_stream-win e cs)

  pub clean_up-Alike : (e : Cause) (conn : ClientConn B) → Alike conn (clean_up e conn)
  unfolding clean_up
  clean_up-Alike e conn = record {
    next = refl;
    flow = refl;
    initial = refl;
    frame = refl;
    wins =
        map-win (λ cs. if cs.read_closed then cs else abort_stream e cs) conn.streams
          (clean_up_stream e);
    closed = λ c. refl;
  }
