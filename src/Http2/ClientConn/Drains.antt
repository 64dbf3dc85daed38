-- ===== src/Http2/ClientConn/Drains.antt =====
-- internal/http2/transport.go: the same under the frames of the peer, and in runs.
use req.Base.{
  ℕ, ◌+◌, ◌≡◌, refl, Bool, true, false, ◌==◌, if-either, Option, none, some, arith, if◌then◌else◌,
  not, ◌&&◌, leb,
}
use req.Http2.Errors.{ErrCode, Error, err_code_protocol, err_code_no}
use req.Http2.ClientConn.{
  Cause, from_peer, ClientStream, ClientConn, abort_stream, change_stream, stream_at,
  reserve_new_request, decr_stream_reservations, can_take_new_request, GoAway, go_away_code,
  got_go_away,
}
use req.Http2.ClientConn.Streams.{
  set_do_not_reuse, close_if_idle, send_go_away, close_for_error, clean_up, start_request,
  resume_request,
}
use req.Http2.ClientConn.Control.{
  stream_by_id, set_go_away, process_settings, update_window, process_window_update, reset_found,
  process_reset_stream, Processed, processed, deadlock, go_away_stream, merge_go_away,
}
use req.Http2.ClientConn.Runs.{
  Event, Sent, on_error, step, reserve, drop_reservation, mark_used, shut_down, close_idle, start,
  resume, forget, want, settings, window_update, reset_stream, go_away, force_close, read_failed,
  Step, panics, stuck, goes, stepped, on_window, silent, want_at, forget_at,
}
use req.Http2.ClientConn.Drained.{
  stopped, Keeps, Kept, SameFields, same-Keeps, start-Kept, resume-Kept, silent-Kept, forget-Kept,
  want-Kept,
}
use req.Http2.ClientConn.Marks.{
  Stable, Marked, Aborts, unchanged, abort_stream-Aborts, map-Marked, change_at-Marked,
  stream_at-Marked,
}
use req.Http2.ClientConn.FrameKeeps.{process_settings-same, AfterWindow, update_window-same}
use req.Http2.ClientConn.Silence.{
  Unsent, UnsentBy, silent-Unsent, on_error-Unsent, forget-Unsent, want-Unsent,
}

module _ {B : Type 0} (g : ℕ → Option Cause → Type 0) (stable : Stable g) where
  close-Aborts :
      (e : Cause) (cs : ClientStream B)
      → Aborts cs (if cs.read_closed then cs else abort_stream e cs)
  close-Aborts e cs =
      if-either (Aborts cs) cs.read_closed cs (abort_stream e cs) (unchanged cs)
        (abort_stream-Aborts e cs)

  clean_up-Marked :
      (e : Cause) (conn : ClientConn B) → Marked g conn.streams → Marked g (clean_up e conn).streams
  unfolding clean_up
  clean_up-Marked e conn =
      map-Marked g (λ cs. if cs.read_closed then cs else abort_stream e cs) conn.streams stable
        (close-Aborts e)

  on_error-Kept :
      (e : Cause) (conn : ClientConn B) (r : Option Error × ClientConn B)
      → Keeps g conn r.1
      → Kept g conn (on_error e r)
  unfolding clean_up
  on_error-Kept e conn (none, conn') k = k
  on_error-Kept e conn (some error, conn') k = record {
    next = k.next;
    stays = refl;
    marks = λ m. clean_up-Marked e conn' (k.marks m);
  }

  -- A step on a connection that has stopped.
  abbrev pub StepKeeps : ClientConn B → Step B → Type 0
  StepKeeps conn panics = Unit
  StepKeeps conn (stuck c) = Keeps g conn c
  StepKeeps conn (goes sent c) = Keeps g conn c × (Marked g conn.streams → Unsent g sent)

  stepped-Keeps :
      (conn : ClientConn B) (r : Option (Sent × ClientConn B))
      → Kept g conn r
      → (Marked g conn.streams → UnsentBy g r)
      → StepKeeps conn (stepped r)
  stepped-Keeps conn none k u = tt
  stepped-Keeps conn (some (sent, c)) k u = (k, u)

  on_window-Keeps :
      (e : Cause) (conn : ClientConn B) (r : Processed B)
      → AfterWindow g stable conn r
      → stopped conn ≡ true
      → StepKeeps conn (on_window e r)
  on_window-Keeps e conn (processed r) same h =
      stepped-Keeps conn (on_error e r) (on_error-Kept e conn r (same-Keeps g conn r.1 same h))
        (λ m. on_error-Unsent g e r)
  on_window-Keeps e conn (deadlock c) same h = same-Keeps g conn c same h

  -- A stream that is reset.
  reset_found-Keeps :
      (close : Cause → B → B) (o : Option (ClientStream B)) (id : ℕ) (code : ErrCode)
      (conn : ClientConn B)
      → stopped conn ≡ true
      → Keeps g conn (reset_found close o id code conn)
  unfolding reset_found set_do_not_reuse
  reset_found-Keeps close none id code conn h = same-Keeps g conn conn (refl, refl, λ m. m) h
  reset_found-Keeps close (some cs) id code conn h =
      let e = from_peer id code in
      let change : ClientStream B → ClientStream B =
        λ s. abort_stream e (record s { buf_pipe = close e s.buf_pipe }) in
      let marks =
        change_at-Marked g id change conn.streams stable
          (λ s. abort_stream-Aborts e (record s { buf_pipe = close e s.buf_pipe })) in
      if-either (λ c. Keeps g conn (change_stream id change c)) (code == err_code_protocol)
        (set_do_not_reuse conn) conn (record { next = refl; stays = ground arith; marks = marks })
        (record { next = refl; stays = h; marks = marks })

  pub go_away_stream-Aborts :
      (last : ℕ) (code : ErrCode) (cs : ClientStream B) → Aborts cs (go_away_stream last code cs)
  unfolding go_away_stream
  go_away_stream-Aborts last code cs =
      let e = if cs.id == 1 && not (code == err_code_no) then go_away_code code else got_go_away in
      if-either (Aborts cs) (leb cs.id last) cs (abort_stream e cs) (unchanged cs)
        (abort_stream-Aborts e cs)

  pub set_go_away-Keeps : (f : GoAway) (conn : ClientConn B) → Keeps g conn (set_go_away f conn)
  unfolding set_go_away
  set_go_away-Keeps f conn = record {
    next = refl;
    stays = ground arith;
    marks =
        let code = (merge_go_away conn.go_away f).err_code in
        map-Marked g (go_away_stream f.last_stream_id code) conn.streams stable
          (go_away_stream-Aborts f.last_stream_id code);
  }

  reserve-same :
      (too_idle : Bool) (conn : ClientConn B)
      → SameFields g conn (reserve_new_request too_idle conn).1
  unfolding reserve_new_request
  reserve-same too_idle conn =
      if-either (λ (q : Bool × ClientConn B). SameFields g conn q.1)
        (can_take_new_request too_idle conn)
        (true, record conn { streams_reserved = conn.streams_reserved + 1 }) (false, conn)
        (refl, refl, λ m. m) (refl, refl, λ m. m)

  close_if_idle-Keeps :
      (conn : ClientConn B) → stopped conn ≡ true → Keeps g conn (close_if_idle conn)
  unfolding close_if_idle
  close_if_idle-Keeps conn h =
      if-either (Keeps g conn) _ conn (record conn { closed = true })
        (same-Keeps g conn conn (refl, refl, λ m. m) h)
        (record { next = refl; stays = refl; marks = λ m. m })

  pub step-Keeps :
      (close : Cause → B → B) (e : Cause) (v : Event B) (conn : ClientConn B)
      → stopped conn ≡ true
      → StepKeeps conn (step close e v conn)
  unfolding decr_stream_reservations set_do_not_reuse send_go_away close_for_error set_go_away
      process_window_update process_reset_stream clean_up
  step-Keeps close e (reserve too_idle) conn h = (
    same-Keeps g conn (reserve_new_request too_idle conn).1 (reserve-same too_idle conn) h,
    λ m. tt,
  )
  step-Keeps close e drop_reservation conn h =
      (record { next = refl; stays = h; marks = λ m. m }, λ m. tt)
  step-Keeps close e mark_used conn h =
      (record { next = refl; stays = ground arith; marks = λ m. m }, λ m. tt)
  step-Keeps close e shut_down conn h =
      (record { next = refl; stays = ground arith; marks = λ m. m }, λ m. tt)
  step-Keeps close e close_idle conn h = (close_if_idle-Keeps conn h, λ m. tt)
  step-Keeps close e (start too_idle last cs) conn h =
      let r = start_request too_idle last cs conn in
      stepped-Keeps conn (silent r)
        (silent-Kept g stable conn r (start-Kept g stable too_idle last cs conn h))
        (λ m. silent-Unsent g r)
  step-Keeps close e (resume too_idle last cs) conn h =
      let r = resume_request too_idle last cs conn in
      stepped-Keeps conn (silent r)
        (silent-Kept g stable conn r (resume-Kept g stable too_idle last cs conn h))
        (λ m. silent-Unsent g r)
  step-Keeps close e (forget id) conn h =
      let o = stream_at id conn.streams in
      stepped-Keeps conn (forget_at id o conn) (forget-Kept g stable id o conn h)
        (λ m. forget-Unsent g id o conn)
  step-Keeps close e (want canceled id n) conn h =
      let o = stream_at id conn.streams in
      stepped-Keeps conn (want_at canceled n o conn) (want-Kept g stable canceled n o conn h)
        (λ m. want-Unsent g canceled n o conn (stream_at-Marked g id conn.streams m))
  step-Keeps close e (settings ack b) conn h =
      let r = process_settings ack b conn in
      stepped-Keeps conn (on_error e r)
        (on_error-Kept e conn r
          (same-Keeps g conn r.1 (process_settings-same g stable ack b conn) h))
        (λ m. on_error-Unsent g e r)
  step-Keeps close e (window_update id n) conn h =
      on_window-Keeps e conn (update_window (stream_by_id id conn) id n conn)
        (update_window-same g stable (stream_by_id id conn) id n conn) h
  step-Keeps close e (reset_stream id code) conn h =
      (reset_found-Keeps close (stream_by_id id conn) id code conn h, λ m. tt)
  step-Keeps close e (go_away f) conn h = (set_go_away-Keeps f conn, λ m. tt)
  step-Keeps close e (force_close c) conn h = (
    record {
      next = refl;
      stays = refl;
      marks = map-Marked g (abort_stream c) conn.streams stable (abort_stream-Aborts c);
    },
    λ m. tt,
  )
  step-Keeps close e (read_failed c) conn h =
      (record { next = refl; stays = refl; marks = clean_up-Marked c conn }, λ m. tt)
