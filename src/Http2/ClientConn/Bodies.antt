-- ===== src/Http2/ClientConn/Bodies.antt =====
-- internal/http2/transport.go: what DATA frames, reads of a body and its `Close` do to the inbound
-- windows of the stream and of the connection. `E` are the errors of the pipe and `F` what it may run
-- before it returns one. `eof` is `io.EOF`, and `copy` is `cs.copyTrailers`.
-- A result has the increments of the WINDOW_UPDATE frames that are sent, where 0 sends none.
use req.Base.{
  ℕ, ◌-◌, ◌+◌, Bool, true, false, not, ◌&&◌, ◌||◌, ◌==◌, ltb, leb, Option, none, some, ◌>>=?◌,
  if◌then◌else◌, take, length,
}
use req.Base.Bytes.{Bytes}
use req.Base.Int.{ℤ, pos}
use req.Http2.Errors.{Error, connection, err_code_protocol, err_code_flow_control}
use req.Http2.Flow.{Inflow, add_inflow, take_inflow, take_inflows}
use req.Http2.Pipe.{PipeBuffer, Outcome, bytes, count, error, waits, write_closed, Pipe, is_some}
use req.Http2.Pipe
use req.Http2.ClientConn.{Cause, stream_error, other, ClientStream, abort_stream}
use req.Http2.ClientConn.Control.{end_stream_error}

-- The errors of `pipe.Write`, the one of `Close`, and the one of a body that is longer than declared.
abbrev pub err_pipe_write : Cause
err_pipe_write = other 0

abbrev pub err_closed_response_body : Cause
err_closed_response_body = other 1

abbrev pub err_truncated : Cause
err_truncated = other 2

pub data FrameEnd : Type 0 where
  handled : FrameEnd
  closes : Error → FrameEnd

-- The windows of a connection and a stream, with the increments sent.
pub record Windows (B : Type 0) : Type 0 where
  pub conn : Inflow
  pub cs : ClientStream B
  pub conn_update : ℤ
  pub stream_update : ℤ

abbrev pub unchanged : {B : Type 0} → Inflow → ClientStream B → Windows B
unchanged conn cs = record { conn = conn; cs = cs; conn_update = pos 0; stream_update = pos 0 }

-- `inflow.add` on the connection alone, and on both.
unfoldable pub credit_conn : {B : Type 0} → ℕ → Inflow → ClientStream B → Option (Windows B)
unfolding add_inflow
credit_conn n conn cs =
    add_inflow (pos n) conn >>=? λ c. some (record (unchanged c.1 cs) { conn_update = c.0 })

unfoldable pub credit_both : {B : Type 0} → ℕ → Inflow → ClientStream B → Option (Windows B)
unfolding add_inflow
credit_both n conn cs = add_inflow (pos n) conn >>=? λ c. add_inflow (pos n) cs.inflow >>=? λ s.
    some (record {
      conn = c.1;
      cs = record cs { inflow = s.1 };
      conn_update = c.0;
      stream_update = s.0;
    })

-- `processData` on a stream that is not there, of which `next` is the next identifier.
unfoldable pub process_data_gone : ℕ → ℕ → ℕ → Inflow → Option (FrameEnd × (ℤ × Inflow))
unfolding take_inflow add_inflow
process_data_gone id next size conn =
    if leb next id
    then some (closes (connection err_code_protocol), (pos 0, conn))
    else if ltb 0 size
    then (let (ok, c) = take_inflow size conn in
        add_inflow (pos size) c >>=? λ r.
        some
          (if ok then (handled, r) else (closes (connection err_code_flow_control), (pos 0, r.1))))
    else some (handled, (pos 0, conn))

module _ (lib : PipeBuffer) (E F : Type 0) where
  -- What is read of a body: `cs.readErr`, and `cs.bytesRemain` if it is known.
  pub record Body : Type 0 where
    pub read_err : Option E
    pub bytes_remain : Option ℕ

  -- What `Read` returns.
  pub data ReadEnd : Type 0 where
    got : Bytes → ReadEnd
    truncated : Bytes → ReadEnd
    ends : E → ReadEnd
    blocks : ReadEnd

  -- `endStream`
  unfoldable pub end_stream : E → F → ClientStream (Pipe lib E F) → ClientStream (Pipe lib E F)
  end_stream eof copy cs = if cs.read_closed then cs else record cs {
    read_closed = true;
    buf_pipe = Pipe.close_with_error_and_code lib E F eof (some copy) cs.buf_pipe;
  }

  -- `cs.bufPipe.Write(data)`, if there are data: the error, and the stream with the pipe.
  unfoldable pub refused : Outcome E F → Option Cause
  refused (count n) = none
  refused o = some err_pipe_write

  unfoldable pub write_body :
      Bytes → ClientStream (Pipe lib E F) → Option Cause × ClientStream (Pipe lib E F)
  unfolding refused Pipe.write
  write_body payload cs =
      if ltb 0 (length payload)
      then (let (o, p) = Pipe.write lib E F payload cs.buf_pipe in
          (refused o, record cs { buf_pipe = p }))
      else (none, cs)

  -- What is given back of a frame at once: padding, and data that the pipe does not take.
  unfoldable pub settle :
      ℕ → ℕ → Inflow → Option Cause × ClientStream (Pipe lib E F) → Option (Windows (Pipe lib E F))
  unfolding credit_both credit_conn end_stream_error
  settle pad size conn (none, cs) = credit_both pad conn cs
  settle pad size conn (some e, cs) =
      credit_conn (pad + size) conn cs >>=? λ w. some (record w { cs = end_stream_error e w.cs })

  unfoldable pub end_if :
      E → F → Bool → Option Cause → Windows (Pipe lib E F) → Windows (Pipe lib E F)
  unfolding end_stream
  end_if eof copy ended (some e) w = w
  end_if eof copy ended none w = if ended then record w { cs = end_stream eof copy w.cs } else w

  -- The part of `processData` behind the tests of the stream, for a frame that has a length.
  unfoldable pub take_data :
      E
      → F
      → ℕ
      → Bytes
      → Bool
      → Inflow
      → ClientStream (Pipe lib E F)
      → Option (FrameEnd × Windows (Pipe lib E F))
  unfolding take_inflows write_body settle end_if
  take_data eof copy size payload ended conn cs =
      let (ok, c, s) = take_inflows conn cs.inflow size in
      let written = write_body payload (record cs { inflow = s }) in
      let settled = settle (size - length payload) (length payload) c written in
      let result = settled >>=? λ w. some (handled, end_if eof copy ended written.0 w) in
      if ok then result else some (closes (connection err_code_flow_control), unchanged conn cs)

  -- `processData` on a stream that is found. `size` is the length of the frame, padding included.
  unfoldable pub process_data :
      E
      → F
      → ℕ
      → Bytes
      → Bool
      → Inflow
      → ClientStream (Pipe lib E F)
      → Option (FrameEnd × Windows (Pipe lib E F))
  unfolding take_data end_if end_stream_error
  process_data eof copy size payload ended conn cs =
      let fails = end_stream_error (stream_error cs.id err_code_protocol) cs in
      if cs.read_closed || not cs.past_headers
      then some (handled, unchanged conn fails)
      else if size == 0
      then some (handled, end_if eof copy ended none (unchanged conn cs))
      else if cs.is_head && ltb 0 (length payload)
      then some (handled, unchanged conn fails)
      else take_data eof copy size payload ended conn cs

  -- `Read` of the body, behind what the pipe gives. `unexpected` is `io.ErrUnexpectedEOF`.
  unfoldable pub read_end :
      (E → Bool)
      → E
      → E
      → Outcome E F
      → Body
      → Inflow
      → ClientStream (Pipe lib E F)
      → Option (ReadEnd × Body × Windows (Pipe lib E F))
  unfolding credit_both abort_stream
  read_end is_eof unexpected too_long (bytes q) body conn cs =
      let n = length q in
      let left : Option ℕ = elim body.bytes_remain [ none ↦ none | some m ↦ some (m - n) ] in
      let limit : ℕ = elim body.bytes_remain [ none ↦ n | some m ↦ m ] in
      if ltb limit n
      then some (
        truncated (take limit q),
        record body { read_err = some too_long },
        unchanged conn (abort_stream err_truncated cs),
      )
      else if n == 0
      then some (got q, record body { bytes_remain = left }, unchanged conn cs)
      else credit_both n conn cs >>=? λ w. some (got q, record body { bytes_remain = left }, w)
  read_end is_eof unexpected too_long (error e fn) body conn cs =
      let left : Bool = elim body.bytes_remain [ none ↦ false | some m ↦ ltb 0 m ] in
      let short = is_eof e && left in
      if short
      then some (ends unexpected, record body { read_err = some unexpected }, unchanged conn cs)
      else some (ends e, body, unchanged conn cs)
  read_end is_eof unexpected too_long o body conn cs = some (blocks, body, unchanged conn cs)

  unfoldable pub read_body :
      (E → Bool)
      → E
      → E
      → ℕ
      → Body
      → Inflow
      → ClientStream (Pipe lib E F)
      → Option (ReadEnd × Body × Windows (Pipe lib E F))
  unfolding read_end Pipe.read
  read_body is_eof unexpected too_long k body conn cs = elim body.read_err [
    | some e ↦ some (ends e, body, unchanged conn cs)
    | none ↦
        let (o, p) = Pipe.read lib E F k cs.buf_pipe in
        read_end is_eof unexpected too_long o body conn (record cs { buf_pipe = p })
  ]

  -- `Close` of the body, with the error that it gives to the pipe.
  unfoldable pub close_body :
      E → Inflow → ClientStream (Pipe lib E F) → Option (Windows (Pipe lib E F))
  unfolding Pipe.break_with_error Pipe.len abort_stream credit_conn
  close_body closed conn cs =
      let p = Pipe.break_with_error lib E F closed cs.buf_pipe in
      let s = abort_stream err_closed_response_body (record cs { buf_pipe = p }) in
      let unread = Pipe.len lib E F p in
      if ltb 0 unread then credit_conn unread conn s else some (unchanged conn s)
