-- ===== src/Http2/ClientConn/Control.antt =====
-- internal/http2/transport.go: what the read loop makes of the frames that control a connection, and
-- `awaitFlowControl`, which takes what a stream may send.
use req.Base.{
  ℕ, zero, suc, ◌-◌, ◌^◌, Bool, true, false, not, ◌&&◌, ◌==◌, ltb, leb, Option, none, some,
  if◌then◌else◌, [], ◌∷◌, map,
}
use req.Base.Bytes.{Bytes}
use req.Base.Int.{ℤ, pos, ◌-ℤ◌, ltb_ℤ, int32}
use req.Http2.Errors.{
  ErrCode, Error, connection, err_code_no, err_code_protocol, err_code_flow_control,
}
use req.Http2.Frame.{Setting, setting_initial_window_size}
use req.Http2.Frame.Settings.{foreach_setting}
use req.Http2.Flow.{Outflow, available, take_outflow, add_outflow}
use req.Http2.ClientConn.{
  setting_max_concurrent_streams, setting_max_frame_size, setting_max_header_list_size,
  default_max_concurrent_streams, Cause, got_go_away, go_away_code, from_peer, ClientStream, GoAway,
  ClientConn, abort_stream, stream_at, change_stream,
}
use req.Http2.ClientConn.Streams.{set_do_not_reuse}

-- The frame that is kept, with the code of the one before if that was an error.
unfoldable pub merge_go_away : Option GoAway → GoAway → GoAway
merge_go_away none f = f
merge_go_away (some old) f = record f {
  err_code = if old.err_code == err_code_no then f.err_code else old.err_code;
  debug = elim old.debug [ [] ↦ f.debug | b ∷ bs ↦ b ∷ bs ];
}

-- What `awaitFlowControl` takes of what is available.
unfoldable pub limit_take : ℤ → ℕ → ℕ → ℤ
limit_take a max_bytes max_frame_size =
    let take = if ltb_ℤ (pos max_bytes) a then int32 (pos max_bytes) else a in
    if ltb_ℤ (int32 (pos max_frame_size)) take then int32 (pos max_frame_size) else take

-- What a round of `awaitFlowControl` gives: bytes to send, an error, or that it waits.
pub data Taken : Type 0 where
  taken : ℤ → Taken
  conn_closed stop_body_write no_window : Taken
  aborted : Cause → Taken

-- How the read loop leaves a frame: with an error or none, or blocked for ever, with `cc.mu` held.
pub data Processed (B : Type 0) : Type 0 where
  processed : Option Error × ClientConn B → Processed B
  deadlock : ClientConn B → Processed B

module _ {B : Type 0} where
  -- `streamByID`
  unfoldable pub live : Option (ClientStream B) → Option (ClientStream B)
  live none = none
  live (some cs) = if cs.read_aborted then none else some cs

  unfoldable pub stream_by_id : ℕ → ClientConn B → Option (ClientStream B)
  unfolding live stream_at
  stream_by_id id conn = live (stream_at id conn.streams)

  -- `endStreamError`
  unfoldable pub end_stream_error : Cause → ClientStream B → ClientStream B
  unfolding abort_stream
  end_stream_error e cs = abort_stream e (record cs { read_aborted = true })

  -- What becomes of a stream.
  unfoldable pub go_away_stream : ℕ → ErrCode → ClientStream B → ClientStream B
  unfolding abort_stream
  go_away_stream last code cs =
      if leb cs.id last
      then cs
      else abort_stream
          (if cs.id == 1 && not (code == err_code_no) then go_away_code code else got_go_away) cs

  -- `setGoAway`
  unfoldable pub set_go_away : GoAway → ClientConn B → ClientConn B
  unfolding merge_go_away go_away_stream
  set_go_away f conn =
      let kept = merge_go_away conn.go_away f in
      record conn {
        go_away = some kept;
        streams = map (go_away_stream f.last_stream_id kept.err_code) conn.streams;
      }

  -- `cs.flow.add(delta)`, whose answer is ignored.
  unfoldable pub shift_flow : ℤ → ClientStream B → ClientStream B
  unfolding add_outflow
  shift_flow delta cs = record cs {
    flow = (add_outflow delta (record { n = cs.flow; conn = none })).1.n;
  }

  -- The function that `processSettingsNoWrite` calls on each setting, with `seenMaxConcurrentStreams`.
  unfoldable pub apply_setting :
      Setting → Bool × ClientConn B → Option Error × (Bool × ClientConn B)
  unfolding shift_flow
  apply_setting s (seen, conn) =
      let delta = int32 (int32 (pos s.val) -ℤ int32 (pos conn.initial_window_size)) in
      if s.id == setting_max_frame_size
      then (none, (seen, record conn { max_frame_size = s.val }))
      else if s.id == setting_max_concurrent_streams
      then (none, (true, record conn { max_concurrent_streams = s.val }))
      else if s.id == setting_max_header_list_size
      then (none, (seen, record conn { peer_max_header_list_size = s.val }))
      else if not (s.id == setting_initial_window_size)
      then (none, (seen, conn))
      else if ltb (2 ^ 31 - 1) s.val
      then (some (connection err_code_flow_control), (seen, conn))
      else (
        none,
        (
          seen,
          record conn {
            streams = map (shift_flow delta) conn.streams;
            initial_window_size = s.val;
          },
        ),
      )

  -- What follows the loop over the settings.
  unfoldable pub end_settings : Option Error × (Bool × ClientConn B) → Option Error × ClientConn B
  end_settings (some e, (seen, conn)) = (some e, conn)
  end_settings (none, (seen, conn)) = if conn.seen_settings then (none, conn) else (
    none,
    record conn {
      max_concurrent_streams =
          if seen then conn.max_concurrent_streams else default_max_concurrent_streams;
      seen_settings = true;
    },
  )

  -- `processSettingsNoWrite` on a frame with the ACK flag or not.
  unfoldable pub process_settings : Bool → Bytes → ClientConn B → Option Error × ClientConn B
  unfolding apply_setting end_settings foreach_setting
  process_settings ack p conn =
      if ack
      then (if conn.want_settings_ack
          then (none, record conn { want_settings_ack = false })
          else (some (connection err_code_protocol), conn))
      else end_settings (foreach_setting p apply_setting (false, conn))

  -- The window of a stream, and of the connection.
  unfoldable pub grow_stream : ℕ → ClientStream B → ClientStream B
  unfolding add_outflow
  grow_stream increment cs = record cs {
    flow = (add_outflow (int32 (pos increment)) (record { n = cs.flow; conn = none })).1.n;
  }

  unfoldable pub grow_conn : ℕ → ClientConn B → Option Error × ClientConn B
  unfolding add_outflow
  grow_conn increment conn =
      let (ok, f) = add_outflow (int32 (pos increment)) (record { n = conn.flow; conn = none }) in
      if ok
      then (none, record conn { flow = f.n })
      else (some (connection err_code_flow_control), conn)

  -- `processWindowUpdate`, with the stream that is found. For a stream whose window overflows,
  -- `abortStream` locks `cc.mu` again.
  unfoldable pub update_window : Option (ClientStream B) → ℕ → ℕ → ClientConn B → Processed B
  unfolding grow_stream grow_conn
  update_window (some cs) id increment conn =
      let (ok, f) = add_outflow (int32 (pos increment)) (record { n = cs.flow; conn = none }) in
      if ok
      then processed (none, change_stream id (grow_stream increment) conn)
      else deadlock (change_stream id (λ s. record s { read_aborted = true }) conn)
  update_window none zero increment conn = processed (grow_conn increment conn)
  update_window none (suc id) increment conn = processed (none, conn)

  unfoldable pub process_window_update : ℕ → ℕ → ClientConn B → Processed B
  unfolding stream_by_id update_window
  process_window_update id increment conn = update_window (stream_by_id id conn) id increment conn

  -- `processResetStream`, with the stream that is found; `close` is `CloseWithError` of the pipe.
  unfoldable pub reset_found :
      (Cause → B → B) → Option (ClientStream B) → ℕ → ErrCode → ClientConn B → ClientConn B
  unfolding abort_stream set_do_not_reuse
  reset_found close none id code conn = conn
  reset_found close (some cs) id code conn =
      let e = from_peer id code in
      change_stream id (λ s. abort_stream e (record s { buf_pipe = close e s.buf_pipe }))
        (if code == err_code_protocol then set_do_not_reuse conn else conn)

  unfoldable pub process_reset_stream : (Cause → B → B) → ℕ → ErrCode → ClientConn B → ClientConn B
  unfolding stream_by_id reset_found
  process_reset_stream close id code conn = reset_found close (stream_by_id id conn) id code conn

  -- The windows behind a take, which `outflow.take` takes from both.
  unfoldable pub take_both : ℕ → ℤ → Option Outflow → ClientConn B → Option (Taken × ClientConn B)
  take_both id n none conn = none
  take_both id n (some f) conn =
      let flow : ℤ = elim f.conn [ none ↦ conn.flow | some c ↦ c ] in
      some (taken n, change_stream id (λ s. record s { flow = f.n }) (record conn { flow = flow }))

  unfoldable pub take_window : ℕ → ClientStream B → ClientConn B → Option (Taken × ClientConn B)
  unfolding available limit_take take_both take_outflow
  take_window max_bytes cs conn =
      let f : Outflow = record { n = cs.flow; conn = some conn.flow } in
      let n = limit_take (available f) max_bytes conn.max_frame_size in
      if ltb_ℤ (pos 0) (available f)
      then take_both cs.id n (take_outflow n f) conn
      else some (no_window, conn)

  -- A round of `awaitFlowControl`, where `canceled` is why the request is over, if it is. If the
  -- stream is aborted as well, either error may be returned.
  unfoldable pub await_flow_control :
      Option Cause → ℕ → ClientStream B → ClientConn B → Option (Taken × ClientConn B)
  unfolding take_window
  await_flow_control canceled max_bytes cs conn =
      if conn.closed
      then some (conn_closed, conn)
      else if cs.req_body_closed
      then some (stop_body_write, conn)
      else elim cs.abort [
        | some e ↦ some (aborted e, conn)
        | none ↦ elim canceled [
          | some e ↦ some (aborted e, conn)
          | none ↦ take_window max_bytes cs conn
        ]
      ]
