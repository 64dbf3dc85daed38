-- ===== src/Http2/ClientConn/Paid.antt =====
-- internal/http2/transport.go: each call and frame against the windows of the peer, and runs of them.
use req.Base.{
  ℕ, ◌≡◌, refl, Bool, Option, none, some, List, arith, ◌==◌, if◌then◌else◌, true, zero, suc, inl,
  [], ◌∷◌, All, false, if-cases, inr, ◌^◌, ◌<◌, ◌+◌, ◌*◌, ◌%◌, ==_iff, ◌⊎◌,
}
use req.Base.Int.{◌+ℤ◌, signed}
use req.Http2.ClientConn.{
  Cause, ClientStream, ClientConn, stream_at, reserve_new_request, decr_stream_reservations, Config,
  new_client_conn, initial_stream_id, own_max_frame_size, after_priorities, setting_max_frame_size,
}
use req.Http2.ClientConn.Control.{
  set_go_away, process_reset_stream, process_settings, process_window_update, Processed, processed,
  deadlock,
}
use req.Http2.ClientConn.Runs.{
  Peer, Sent, Event, spend, grant, IsPaid, IsMild, on_error, silent, want_at, forget_at, step,
  AllPaid, reserve, drop_reservation, mark_used, shut_down, close_idle, start, resume, forget, want,
  settings, window_update, reset_stream, go_away, force_close, read_failed, new_peer, run, Step,
  panics, stuck, goes, End, panicked, blocked, ended, stepped, on_window, StepPaid, then_run,
  Overflows,
}
use req.Http2.ClientConn.Within.{Holds, Alike, Alike-Holds}
use req.Http2.ClientConn.Opens.{
  clean_up-Alike, start_request-Holds, resume_request-Holds, forget_stream_id-Holds,
  reserve_new_request-Alike, close_if_idle-Alike, close_for_error-Alike,
}
use req.Http2.ClientConn.WindowUpdates.{
  Framed, window_update_conn-Framed, window_update_stream-Framed, WindowFramed,
}
use req.Http2.Errors.{Error}
use req.Http2.ClientConn.Streams.{
  set_do_not_reuse, Slot, start_request, resume_request, close_if_idle, send_go_away,
  close_for_error, clean_up,
}
use req.Http2.ClientConn.Taking.{want-Paid}
use req.Http2.ClientConn.NewSettings.{settings_ack-Framed, new_settings-Framed, AllMild}
use req.Http2.Flow.{add_outflow}
use req.Http2.Frame.{Setting}
use req.Http2.ClientConn.Resets.{set_go_away-Alike, used-Alike, reset_stream-Holds}

module _ {B : Type 0} where
  closing_down-Alike : (conn : ClientConn B) → Alike conn (send_go_away conn)
  unfolding send_go_away
  closing_down-Alike conn = record {
    next = refl;
    flow = refl;
    initial = refl;
    frame = refl;
    wins = refl;
    closed = λ c. c;
  }

  unreserved-Alike : (conn : ClientConn B) → Alike conn (decr_stream_reservations conn)
  unfolding decr_stream_reservations
  unreserved-Alike conn = record {
    next = refl;
    flow = refl;
    initial = refl;
    frame = refl;
    wins = refl;
    closed = λ c. c;
  }

  -- What a call gives: no panic, nothing that is not paid for, and a state that holds.
  abbrev Good : Peer → (Peer → Peer) → Option (Sent × ClientConn B) → Type 0
  Good p more r =
      (sent : Sent) × (conn' : ClientConn B) × (r ≡ some (sent, conn'))
      × IsPaid sent p
      × Holds conn' (more (spend sent p))

  still : (conn : ClientConn B) (p : Peer) → Holds conn p → Good p (λ q. q) (some (none, conn))
  still conn p h = (none, conn, refl, tt, h)

  slot-Good :
      (p : Peer) (r : Option (Slot × ClientConn B))
      → (slot : Slot) × (conn' : ClientConn B) × (r ≡ some (slot, conn')) × Holds conn' p
      → Good p (λ q. q) (silent r)
  slot-Good p r (slot, conn', e, h) = rw e (still conn' p h)

  -- A frame that is an error closes the connection.
  frame-Good :
      (e : Cause) (p : Peer) (more : Peer → Peer) (r : Option Error × ClientConn B)
      → Framed (more p) r
      → Good p more (on_error e r)
  frame-Good e p more (none, conn) h = (none, conn, refl, tt, h)
  frame-Good e p more (some error, conn) ids =
      let c : ClientConn B = record conn { closed = true } in
      let closed : Holds c (more p) = record {
        falls = ids.0;
        next_pos = ids.1;
        within = inl refl;
      } in
      let alike : Alike c (clean_up e conn) = record {
        next = (clean_up-Alike e conn).next;
        flow = (clean_up-Alike e conn).flow;
        initial = (clean_up-Alike e conn).initial;
        frame = (clean_up-Alike e conn).frame;
        wins = (clean_up-Alike e conn).wins;
        closed = λ ignored. unfold clean_up in refl;
      } in
      (none, clean_up e conn, refl, tt, Alike-Holds c (clean_up e conn) (more p) alike closed)

  want-Good :
      (canceled : Option Cause) (id n : ℕ) (o : Option (ClientStream B)) (conn : ClientConn B)
      (p : Peer)
      → stream_at id conn.streams ≡ o
      → Holds conn p
      → Good p (λ q. q) (want_at canceled n o conn)
  want-Good canceled id n none conn p e h = still conn p h
  want-Good canceled id n (some cs) conn p e h = want-Paid canceled n id cs conn p e h

  forget-Good :
      (id : ℕ) (o : Option (ClientStream B)) (conn : ClientConn B) (p : Peer)
      → stream_at id conn.streams ≡ o
      → Holds conn p
      → Good p (λ q. q) (forget_at id o conn)
  forget-Good id none conn p e h = still conn p h
  forget-Good id (some cs) conn p e h =
      let (conn', runs, h') = forget_stream_id-Holds id cs conn p e h in rw runs (still conn' p h')

  -- The same of an event, which may block.
  abbrev pub StepHolds : Event B → ClientConn B → Peer → Step B → Type 0
  StepHolds v conn p r = StepPaid v conn p Holds r

  stepped-Holds :
      (v : Event B) (conn : ClientConn B) (p : Peer) (r : Option (Sent × ClientConn B))
      → Good p (grant v) r
      → StepHolds v conn p (stepped r)
  stepped-Holds v conn p r (sent, conn', e, paid, h) = rw e (paid, h)

  window-Holds :
      (e : Cause) (v : Event B) (conn : ClientConn B) (p : Peer) (r : Processed B)
      → WindowFramed (grant v p) (λ c. (conn.closed ≡ true) ⊎ Overflows v p) r
      → StepHolds v conn p (on_window e r)
  window-Holds e v conn p (processed r) f =
      stepped-Holds v conn p (on_error e r) (frame-Good e p (grant v) r f)
  window-Holds e v conn p (deadlock c) over = over

  no_overflow :
      (e : Cause) (v : Event B) (conn : ClientConn B) (p : Peer) (r : Processed B)
      → WindowFramed (grant v p) (λ c. ⊥) r
      → StepHolds v conn p (on_window e r)
  no_overflow e v conn p (processed r) f =
      stepped-Holds v conn p (on_error e r) (frame-Good e p (grant v) r f)
  no_overflow e v conn p (deadlock c) over = absurd over

  pub step-Good :
      (close : Cause → B → B) (e : Cause) (v : Event B) (conn : ClientConn B) (p : Peer)
      → IsMild v
      → Holds conn p
      → StepHolds v conn p (step close e v conn)
  step-Good close e (reserve too_idle) conn p mild h = stepped-Holds (reserve too_idle) conn p _ (
      still (reserve_new_request too_idle conn).1 p (
        Alike-Holds conn (reserve_new_request too_idle conn).1 p
          (reserve_new_request-Alike too_idle conn) h))
  step-Good close e drop_reservation conn p mild h = stepped-Holds drop_reservation conn p _ (
      still (decr_stream_reservations conn) p
        (Alike-Holds conn (decr_stream_reservations conn) p (unreserved-Alike conn) h))
  step-Good close e mark_used conn p mild h = stepped-Holds mark_used conn p _ (
      still (set_do_not_reuse conn) p
        (Alike-Holds conn (set_do_not_reuse conn) p (used-Alike conn) h))
  step-Good close e shut_down conn p mild h = stepped-Holds shut_down conn p _ (
      still (send_go_away conn) p
        (Alike-Holds conn (send_go_away conn) p (closing_down-Alike conn) h))
  step-Good close e close_idle conn p mild h = stepped-Holds close_idle conn p _ (
      still (close_if_idle conn) p
        (Alike-Holds conn (close_if_idle conn) p (close_if_idle-Alike conn) h))
  step-Good close e (start too_idle last cs) conn p mild h =
      stepped-Holds (start too_idle last cs) conn p _ (
        slot-Good p (start_request too_idle last cs conn)
          (start_request-Holds too_idle last cs conn p h))
  step-Good close e (resume too_idle last cs) conn p mild h =
      stepped-Holds (resume too_idle last cs) conn p _ (
        slot-Good p (resume_request too_idle last cs conn)
          (resume_request-Holds too_idle last cs conn p h))
  step-Good close e (forget id) conn p mild h =
      stepped-Holds (forget id) conn p _ (forget-Good id (stream_at id conn.streams) conn p refl h)
  step-Good close e (want canceled id n) conn p mild h =
      stepped-Holds (want canceled id n) conn p _
        (want-Good canceled id n (stream_at id conn.streams) conn p refl h)
  step-Good close e (settings true b) conn p mild h = stepped-Holds (settings true b) conn p _ (
      frame-Good e p (grant {B = B} (settings true b)) (process_settings true b conn)
        (settings_ack-Framed b conn p h))
  step-Good close e (settings false b) conn p mild h = stepped-Holds (settings false b) conn p _ (
      frame-Good e p (grant {B = B} (settings false b)) (process_settings false b conn)
        (new_settings-Framed b conn p mild h))
  step-Good close e (reset_stream id code) conn p mild h =
      stepped-Holds (reset_stream id code) conn p _ (
        still (process_reset_stream close id code conn) p
          (reset_stream-Holds close id code conn p h))
  step-Good close e (go_away f) conn p mild h = stepped-Holds (go_away f) conn p _ (
      still (set_go_away f conn) p
        (Alike-Holds conn (set_go_away f conn) p (set_go_away-Alike f conn) h))
  step-Good close e (force_close c) conn p mild h = stepped-Holds (force_close c) conn p _ (
      still (close_for_error c conn) p
        (Alike-Holds conn (close_for_error c conn) p (close_for_error-Alike c conn) h))
  step-Good close e (read_failed c) conn p mild h =
      stepped-Holds (read_failed c) conn p _
        (still (clean_up c conn) p (Alike-Holds conn (clean_up c conn) p (clean_up-Alike c conn) h))
  step-Good close e (window_update zero n) conn p mild h =
      no_overflow e (window_update zero n) conn p (process_window_update 0 n conn)
        (window_update_conn-Framed n conn p mild h)
  step-Good close e (window_update (suc id) n) conn p mild h =
      window-Holds e (window_update (suc id) n) conn p (process_window_update (suc id) n conn)
        (window_update_stream-Framed id n conn p mild h)

  run_paid :
      (v : Event B) (conn : ClientConn B) (p : Peer) (later : ClientConn B → Peer → Type 0)
      (r : Step B)
      → StepHolds v conn p r
      → ((c : ClientConn B) (q : Peer) → Holds c q → later c q)
      → StepPaid v conn p later r
  run_paid v conn p later panics h f = absurd h
  run_paid v conn p later (stuck c) h f = h
  run_paid v conn p later (goes sent c) h f = (h.0, f c (grant v (spend sent p)) h.1)

  run_from :
      (close : Cause → B → B) (e : Cause) (es : List (Event B)) (conn : ClientConn B) (p : Peer)
      → All IsMild es
      → Holds conn p
      → AllPaid close e es conn p
  run_from close e [] conn p mild h = tt
  run_from close e (v ∷ es) conn p mild h =
      run_paid v conn p (AllPaid close e es) (step close e v conn)
        (step-Good close e v conn p mild.0 h) (λ c q k. run_from close e es c q mild.1 k)

  -- A run that does not panic, to a state where something holds, or till it blocks.
  abbrev pub OnEnd : (ClientConn B → Type 0) → End B → Type 0
  OnEnd P panicked = ⊥
  OnEnd P (blocked conn) = Unit
  OnEnd P (ended conn) = P conn

  then_OnEnd :
      (v : Event B) (conn : ClientConn B) (p : Peer) (P : ClientConn B → Type 0)
      (later : ClientConn B → End B) (r : Step B)
      → StepHolds v conn p r
      → ((c : ClientConn B) (q : Peer) → Holds c q → OnEnd P (later c))
      → OnEnd P (then_run later r)
  then_OnEnd v conn p P later panics h f = absurd h
  then_OnEnd v conn p P later (stuck c) h f = tt
  then_OnEnd v conn p P later (goes sent c) h f = f c (grant v (spend sent p)) h.1

  pub run_from-OnEnd :
      (close : Cause → B → B) (e : Cause) (es : List (Event B)) (conn : ClientConn B) (p : Peer)
      (P : ClientConn B → Type 0)
      → All IsMild es
      → ((c : ClientConn B) (q : Peer) → Holds c q → P c)
      → Holds conn p
      → OnEnd P (run close e es conn)
  run_from-OnEnd close e [] conn p P mild f h = f conn p h
  run_from-OnEnd close e (v ∷ es) conn p P mild f h =
      then_OnEnd v conn p P (run close e es) (step close e v conn)
        (step-Good close e v conn p mild.0 h) (λ c q k. run_from-OnEnd close e es c q P mild.1 f k)

own_max_frame_size_small :
    (ss : List Setting) (n : ℕ) → AllMild ss → n < 2 ^ 31 → own_max_frame_size ss n < 2 ^ 31
unfolding own_max_frame_size
own_max_frame_size_small [] n mild h = h
own_max_frame_size_small (s ∷ ss) n mild h =
    own_max_frame_size_small ss (if s.id == setting_max_frame_size then s.val else n) mild.1 (
      if-cases (λ x. x < 2 ^ 31) (s.id == setting_max_frame_size) s.val n
        (λ e. mild.0 ((==_iff s.id setting_max_frame_size).0 e)) (λ e. h))

initial_stream_id_pos : (id : ℕ) → 0 < initial_stream_id id
unfolding initial_stream_id
initial_stream_id_pos id = ground arith

after_priorities_pos :
    (ids : List ℕ) (n : ℕ) → All (λ id. id < 2 ^ 31) ids → 0 < n → 0 < after_priorities ids n
unfolding after_priorities
after_priorities_pos [] n small h = h
after_priorities_pos (id ∷ ids) n small h =
    after_priorities_pos ids ((id + 2) % 2 ^ 32) small.1 (ground (arith, small.0))

pub new_client_conn-Holds :
    {B : Type 0} (c : Config) (single_use : Bool)
    → AllMild c.settings
    → All (λ id. id < 2 ^ 31) c.priority_streams
    → Holds (new_client_conn {B = B} c single_use) new_peer
unfolding new_client_conn add_outflow signed ◌+ℤ◌
new_client_conn-Holds c single_use mild small = record {
  falls = tt;
  next_pos =
      after_priorities_pos c.priority_streams (initial_stream_id c.stream_id) small
        (initial_stream_id_pos c.stream_id);
  within = inr (record {
    frame_size = own_max_frame_size_small c.settings (16 * 2 ^ 10) mild (omega arith);
    conn_int = omega arith;
    conn_below = omega arith;
    initial_int = omega arith;
    initial_same = refl;
    of_streams = tt;
    of_others = λ id le. omega arith;
  });
}

-- If the SETTINGS_MAX_FRAME_SIZE that the transport sends and each one that the peer sends is below
-- 2^31, the priority streams are below 2^31 and increments of windows are of 31 bits, then no call
-- of any run from a new connection panics, with any order of requests that start, wait, send and
-- end, of calls that close the connection, and of SETTINGS, WINDOW_UPDATE, RST_STREAM and GOAWAY
-- frames; whatever awaitFlowControl takes is not negative and within both the connection's and the
-- stream's window as the peer counts them; and a call blocks for ever only if the connection is
-- closed or the call handles a WINDOW_UPDATE that takes the stream's window, as the peer counts it,
-- over 2^31 - 1.
pub run-AllPaid :
    {B : Type 0} (close : Cause → B → B) (e : Cause) (c : Config) (single_use : Bool)
    (es : List (Event B))
    → AllMild c.settings
    → All (λ id. id < 2 ^ 31) c.priority_streams
    → All IsMild es
    → AllPaid close e es (new_client_conn c single_use) new_peer
run-AllPaid close e c single_use es own small mild =
    run_from close e es (new_client_conn c single_use) new_peer mild
      (new_client_conn-Holds c single_use own small)
