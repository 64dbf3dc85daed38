-- ===== src/Http2/ClientConn/Accounts.antt =====
-- internal/http2/transport.go: runs of one stream's DATA frames, of the reads of its body and of its
-- `Close`, with what the peer has sent and was granted on the connection.
use req.Base.{
  ℕ, ◌+◌, ◌-◌, ◌<◌, ◌≤◌, Bool, true, false, ◌&&◌, ltb, Option, none, some, ◌>>=?◌, if◌then◌else◌,
  List, [], ◌∷◌, length,
}
use req.Base.Bytes.{Bytes}
use req.Base.Int.{ℤ, pos_part}
use req.Http2.Flow.{Inflow}
use req.Http2.Pipe.{PipeBuffer, Pipe, is_some}
use req.Http2.Pipe
use req.Http2.ClientConn.{ClientStream}
use req.Http2.ClientConn.Bodies.{
  FrameEnd, handled, closes, Windows, process_data_gone, Body, ReadEnd, truncated, process_data,
  read_body, close_body,
}
use req.Base.{not, ◌||◌}
use req.Base.{◌^◌, All}

-- A DATA frame of the stream, or of a stream that is gone, a read of so many bytes, and `Close`.
pub data Op : Type 0 where
  frame : (size : ℕ) (payload : Bytes) (ended : Bool) → Op
  gone : (size : ℕ) → Op
  read : ℕ → Op
  close : Op

-- What the peer sent of DATA frames and was granted on the connection. `dropped` is what came in
-- frames that are errors of the stream, and `cut` what was read beyond the declared length.
pub record Ledger : Type 0 where
  pub received : ℕ
  pub granted : ℕ
  pub dropped : ℕ
  pub cut : ℕ

abbrev pub new_ledger : Ledger
new_ledger = record { received = 0; granted = 0; dropped = 0; cut = 0 }

module _ (lib : PipeBuffer) (E F : Type 0) where
  pub record Account : Type 0 where
    pub conn : Inflow
    pub cs : ClientStream (Pipe lib E F)
    pub body : Body lib E F
    pub book : Ledger

  -- What the pipe holds until it is read or the body is closed.
  abbrev pub held : ClientStream (Pipe lib E F) → ℕ
  held cs = if is_some cs.buf_pipe.break_err then 0 else Pipe.len lib E F cs.buf_pipe

  -- A frame that is an error of the stream gives nothing to the pipe.
  abbrev pub is_dropped : ℕ → Bytes → ClientStream (Pipe lib E F) → Bool
  is_dropped size payload cs =
      cs.read_closed || not cs.past_headers || ltb 0 size && cs.is_head && ltb 0 (length payload)

  abbrev pub cut_of : ReadEnd lib E F → ℕ → ℕ
  cut_of (truncated q) n = n
  cut_of r n = 0

  -- The account behind a frame, a read and `Close`, with whether the connection goes on.
  abbrev pub book_frame :
      ℕ → ℕ → Account → Option (FrameEnd × Windows (Pipe lib E F)) → Option (Bool × Account)
  book_frame size lost s none = none
  book_frame size lost s (some (closes e, w)) = some (false, s)
  book_frame size lost s (some (handled, w)) = some (
    true,
    record s {
      conn = w.conn;
      cs = w.cs;
      book = record s.book {
        received = s.book.received + size;
        granted = s.book.granted + pos_part w.conn_update;
        dropped = s.book.dropped + lost;
      };
    },
  )

  abbrev pub book_gone : ℕ → Account → Option (FrameEnd × (ℤ × Inflow)) → Option (Bool × Account)
  book_gone size s none = none
  book_gone size s (some (closes e, r)) = some (false, s)
  book_gone size s (some (handled, (sent, conn))) = some (
    true,
    record s {
      conn = conn;
      book = record s.book {
        received = s.book.received + size;
        granted = s.book.granted + pos_part sent;
      };
    },
  )

  abbrev pub book_read :
      Account
      → Option (ReadEnd lib E F × Body lib E F × Windows (Pipe lib E F))
      → Option (Bool × Account)
  book_read s none = none
  book_read s (some (r, body, w)) = some (
    true,
    record s {
      conn = w.conn;
      cs = w.cs;
      body = body;
      book = record s.book {
        granted = s.book.granted + pos_part w.conn_update;
        cut = s.book.cut + cut_of r (held s.cs - held w.cs);
      };
    },
  )

  abbrev pub book_close : Account → Option (Windows (Pipe lib E F)) → Option (Bool × Account)
  book_close s none = none
  book_close s (some w) = some (
    true,
    record s {
      conn = w.conn;
      cs = w.cs;
      book = record s.book { granted = s.book.granted + pos_part w.conn_update };
    },
  )

-- The errors of the pipe that the code knows: `io.EOF` with its test, `io.ErrUnexpectedEOF`, the one
-- for too long a body and the one of `Close`; and `cs.copyTrailers`.
pub record Errors (E F : Type 0) : Type 0 where
  pub is_eof : E → Bool
  pub eof : E
  pub unexpected : E
  pub too_long : E
  pub closed : E
  pub copy : F

module _ (lib : PipeBuffer) (E F : Type 0) (errs : Errors E F) where
  -- A stream that was aborted by the read loop is not found.
  abbrev pub step : Op → Account lib E F → Option (Bool × Account lib E F)
  step (frame size payload ended) s =
      let lost = if is_dropped lib E F size payload s.cs then size else 0 in
      if s.cs.read_aborted
      then book_gone lib E F size s (process_data_gone 0 1 size s.conn)
      else book_frame lib E F size lost s
          (process_data lib E F errs.eof errs.copy size payload ended s.conn s.cs)
  step (gone size) s = book_gone lib E F size s (process_data_gone 0 1 size s.conn)
  step (read k) s =
      book_read lib E F s
        (read_body lib E F errs.is_eof errs.unexpected errs.too_long k s.body s.conn s.cs)
  step close s = book_close lib E F s (close_body lib E F errs.closed s.conn s.cs)

  -- A run, up to the frame that closes the connection.
  abbrev pub run : List Op → Account lib E F → Option (Bool × Account lib E F)
  run [] s = some (true, s)
  run (op ∷ ops) s = step op s >>=? λ r. if r.0 then run ops r.1 else some r

-- The lengths of frames; and `Close` comes once.
abbrev pub IsFrame : Op → Type 0
IsFrame (frame size payload ended) = (size < 2 ^ 24) × (length payload ≤ size)
IsFrame (gone size) = size < 2 ^ 24
IsFrame _ = Unit

abbrev pub IsNotClose : Op → Type 0
IsNotClose close = ⊥
IsNotClose _ = Unit

abbrev pub ClosesOnce : List Op → Type 0
ClosesOnce [] = Unit
ClosesOnce (close ∷ ops) = All IsNotClose ops
ClosesOnce (_ ∷ ops) = ClosesOnce ops
