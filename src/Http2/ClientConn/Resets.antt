-- ===== src/Http2/ClientConn/Resets.antt =====
-- internal/http2/transport.go: lemmas on GOAWAY and RST_STREAM frames.
use req.Base.{ℕ, ◌≡◌, refl, Option, none, some, if-either, leb, ◌==◌, ◌&&◌, not, if◌then◌else◌}
use req.Http2.ClientConn.{
  Cause, ClientStream, ClientConn, GoAway, abort_stream, change_stream, go_away_code, got_go_away,
  from_peer,
}
use req.Http2.ClientConn.Control.{
  set_go_away, go_away_stream, process_reset_stream, reset_found, merge_go_away, stream_by_id,
}
use req.Http2.ClientConn.Runs.{Peer}
use req.Http2.ClientConn.Within.{win, Holds, Alike, Alike-Holds, map-win, change_at-win}
use req.Http2.ClientConn.Opens.{abort_stream-win}
use req.Http2.Errors.{ErrCode, err_code_no, err_code_protocol}
use req.Http2.ClientConn.Streams.{set_do_not_reuse}

module _ {B : Type 0} where
  pub go_away_stream-win :
      (last : ℕ) (code : ErrCode) (cs : ClientStream B) → win (go_away_stream last code cs) ≡ win cs
  unfolding go_away_stream
  go_away_stream-win last code cs =
      if-either (λ x. win x ≡ win cs) (leb cs.id last) cs
        (abort_stream
          (if cs.id == 1 && not (code == err_code_no) then go_away_code code else got_go_away) cs)
        refl
        (abort_stream-win
          (if cs.id == 1 && not (code == err_code_no) then go_away_code code else got_go_away) cs)

  pub set_go_away-Alike : (f : GoAway) (conn : ClientConn B) → Alike conn (set_go_away f conn)
  unfolding set_go_away
  set_go_away-Alike f conn =
      let kept = merge_go_away conn.go_away f in
      record {
        next = refl;
        flow = refl;
        initial = refl;
        frame = refl;
        wins =
            map-win (go_away_stream f.last_stream_id kept.err_code) conn.streams
              (go_away_stream-win f.last_stream_id kept.err_code);
        closed = λ c. c;
      }

  reset_stream-win :
      (close : Cause → B → B) (e : Cause) (cs : ClientStream B)
      → win (abort_stream e (record cs { buf_pipe = close e cs.buf_pipe })) ≡ win cs
  unfolding abort_stream
  reset_stream-win close e cs = refl

  reset_all-Alike :
      (close : Cause → B → B) (id : ℕ) (e : Cause) (conn : ClientConn B)
      → Alike conn
          (change_stream id (λ s. abort_stream e (record s { buf_pipe = close e s.buf_pipe })) conn)
  reset_all-Alike close id e conn = record {
    next = refl;
    flow = refl;
    initial = refl;
    frame = refl;
    wins =
        change_at-win id (λ s. abort_stream e (record s { buf_pipe = close e s.buf_pipe }))
          conn.streams (reset_stream-win close e);
    closed = λ c. c;
  }

  pub used-Alike : (conn : ClientConn B) → Alike conn (set_do_not_reuse conn)
  unfolding set_do_not_reuse
  used-Alike conn = record {
    next = refl;
    flow = refl;
    initial = refl;
    frame = refl;
    wins = refl;
    closed = λ c. c;
  }

  reset_found-Holds :
      (close : Cause → B → B) (o : Option (ClientStream B)) (id : ℕ) (code : ErrCode)
      (conn : ClientConn B) (p : Peer)
      → Holds conn p
      → Holds (reset_found close o id code conn) p
  unfolding reset_found
  reset_found-Holds close none id code conn p h = h
  reset_found-Holds close (some cs) id code conn p h =
      let c = if code == err_code_protocol then set_do_not_reuse conn else conn in
      let hc : Holds c p =
        if-either (λ x. Holds x p) (code == err_code_protocol) (set_do_not_reuse conn) conn
          (Alike-Holds conn (set_do_not_reuse conn) p (used-Alike conn) h) h in
      Alike-Holds c
        (change_stream id
          (λ s.
            abort_stream (from_peer id code)
              (record s { buf_pipe = close (from_peer id code) s.buf_pipe }))
          c)
        p (reset_all-Alike close id (from_peer id code) c) hc

  pub reset_stream-Holds :
      (close : Cause → B → B) (id : ℕ) (code : ErrCode) (conn : ClientConn B) (p : Peer)
      → Holds conn p
      → Holds (process_reset_stream close id code conn) p
  unfolding process_reset_stream
  reset_stream-Holds close id code conn p h =
      reset_found-Holds close (stream_by_id id conn) id code conn p h
