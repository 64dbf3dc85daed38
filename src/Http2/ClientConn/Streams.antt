-- ===== src/Http2/ClientConn/Streams.antt =====
-- internal/http2/transport.go: how streams are opened and forgotten, and how a connection is closed.
use req.Base.{
  ℕ, suc, ◌+◌, ◌-◌, ◌%◌, ◌^◌, Bool, true, false, not, ◌&&◌, ◌||◌, ◌==◌, ltb, Option, none, some,
  ◌>>=?◌, if◌then◌else◌, ◌∷◌, map, length,
}
use req.Base.Int.{pos, int32}
use req.Http2.Flow.{init_inflow, add_outflow}
use req.Http2.ClientConn.{
  transport_default_stream_flow, Cause, ClientStream, ClientConn, abort_stream, delete_at,
  can_take_new_request, decr_stream_reservations,
}

-- What a round of `awaitOpenSlotForStreamLocked` finds: `errClientConnUnusable`, a free slot, or
-- that it has to wait.
pub data Slot : Type 0 where
  unusable free busy : Slot

module _ {B : Type 0} where
  unfoldable pub open_slot : Bool → ClientConn B → Slot
  unfolding can_take_new_request
  open_slot too_idle conn =
      if conn.closed || not (can_take_new_request too_idle conn)
      then unusable
      else if ltb (length conn.streams) conn.max_concurrent_streams
      then free
      else busy

  -- The stream that `addStreamLocked` makes of `cs`, whose windows are the zero values.
  unfoldable pub opened : ClientConn B → ClientStream B → ClientStream B
  unfolding add_outflow init_inflow
  opened conn cs = record cs {
    flow =
        (add_outflow (int32 (pos conn.initial_window_size))
          (record { n = pos 0; conn = none })).1.n;
    inflow = init_inflow (pos transport_default_stream_flow);
    id = conn.next_stream_id;
  }

  -- `addStreamLocked`
  unfoldable pub add_stream : ClientStream B → ClientConn B → Option (ClientConn B)
  unfolding opened delete_at
  add_stream cs conn =
      if conn.next_stream_id == 0
      then none
      else some (record conn {
        next_stream_id = (conn.next_stream_id + 2) % 2 ^ 32;
        streams = opened conn cs ∷ delete_at conn.next_stream_id conn.streams;
      })

  -- `close` is `isConnectionCloseRequest`. A request that waits is counted until it is woken.
  unfoldable pub take_slot :
      Slot → Bool → ClientStream B → ClientConn B → Option (Slot × ClientConn B)
  unfolding add_stream
  take_slot unusable close cs conn = some (unusable, conn)
  take_slot busy close cs conn =
      some (busy, record conn { pending_requests = conn.pending_requests + 1 })
  take_slot free close cs conn =
      add_stream cs conn >>=? λ c. some (free, record c { do_not_reuse = c.do_not_reuse || close })

  -- `writeRequest` with `cc.mu` held, up to the first wait.
  unfoldable pub start_request :
      Bool → Bool → ClientStream B → ClientConn B → Option (Slot × ClientConn B)
  unfolding take_slot open_slot decr_stream_reservations
  start_request too_idle close cs conn =
      let c = decr_stream_reservations conn in take_slot (open_slot too_idle c) close cs c

  -- The next round of a request that waits, after `cc.cond.Wait()`, with the stream's `abort`.
  unfoldable pub resume_unless :
      Option Cause → Bool → Bool → ClientStream B → ClientConn B → Option (Slot × ClientConn B)
  unfolding take_slot open_slot
  resume_unless (some e) too_idle close cs conn = some (unusable, conn)
  resume_unless none too_idle close cs conn = take_slot (open_slot too_idle conn) close cs conn

  unfoldable pub resume_request :
      Bool → Bool → ClientStream B → ClientConn B → Option (Slot × ClientConn B)
  unfolding resume_unless
  resume_request too_idle close cs conn =
      resume_unless cs.abort too_idle close cs
        (record conn { pending_requests = conn.pending_requests - 1 })

  -- The end of `forgetStreamID`: a connection that takes no more requests is closed when idle.
  unfoldable pub close_if_last : ClientConn B → ClientConn B
  close_if_last conn =
      let last =
        conn.single_use
        || conn.do_not_reuse
        || conn.disable_keep_alives
        || elim conn.go_away [ none ↦ false | some f ↦ true ] in
      if last && conn.streams_reserved == 0 && length conn.streams == 0
      then record conn { closed = true }
      else conn

  -- `forgetStreamID`
  unfoldable pub forget_stream_id : ℕ → ClientConn B → Option (ClientConn B)
  unfolding delete_at close_if_last
  forget_stream_id id conn =
      let c = record conn { streams = delete_at id conn.streams } in
      if suc (length c.streams) == length conn.streams then some (close_if_last c) else none

  -- `closeIfIdle`, `SetDoNotReuse`, and the state that `sendGoAway` and `closeForError` leave.
  unfoldable pub close_if_idle : ClientConn B → ClientConn B
  close_if_idle conn =
      if ltb 0 (length conn.streams) || ltb 0 conn.streams_reserved
      then conn
      else record conn { closed = true }

  unfoldable pub set_do_not_reuse : ClientConn B → ClientConn B
  set_do_not_reuse conn = record conn { do_not_reuse = true }

  unfoldable pub send_go_away : ClientConn B → ClientConn B
  send_go_away conn = record conn { closing = true }

  unfoldable pub close_for_error : Cause → ClientConn B → ClientConn B
  unfolding abort_stream
  close_for_error e conn = record conn {
    closed = true;
    streams = map (abort_stream e) conn.streams;
  }

  -- The state that `cleanup` of the read loop leaves. `peerClosed` is closed with `readClosed` set.
  unfoldable pub clean_up : Cause → ClientConn B → ClientConn B
  unfolding abort_stream
  clean_up e conn = record conn {
    closed = true;
    streams = map (λ cs. if cs.read_closed then cs else abort_stream e cs) conn.streams;
  }
