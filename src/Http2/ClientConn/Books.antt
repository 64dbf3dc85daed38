-- ===== src/Http2/ClientConn/Books.antt =====
-- internal/http2/transport.go: the books of a run from a new stream with a body.
use req.Base.{
  ℕ, ◌+◌, ◌^◌, ◌≤◌, ◌≡◌, refl, ap, Bool, true, false, if-either, Option, some, ◌>>=?◌,
  if◌then◌else◌, List, [], ◌∷◌, All, arith,
}
use req.Base.Int.{pos_part}
use req.Http2.Flow.{max_window}
use req.Http2.Flow.Inbound.{window}
use req.Http2.Pipe.{PipeBuffer, Pipe, new_pipe, set_buffer}
use req.Http2.Pipe.Spec.{new_promise}
use req.Http2.Pipe.Refine.{set_buffer-Holds}
use req.Http2.ClientConn.{ClientStream}
use req.Http2.ClientConn.Bodies.{Body}
use req.Http2.ClientConn.Accounts.{
  Account, held, Errors, Op, frame, gone, read, close, IsFrame, IsNotClose, ClosesOnce, new_ledger,
  run, step,
}
use req.Http2.ClientConn.Balance.{Balances, Steps}
use req.Http2.ClientConn.ReadBalance.{held-kept}
use req.Http2.ClientConn.Ledgers.{gone-Steps, frame-Steps, read-Steps, close-Steps}
use req.Base.{length}
use req.Base.Bytes.{Bytes}
use req.Base.Int.{ℤ}
use req.Http2.DataBuffer.{new_data_buffer}
use req.Http2.Pipe.Body.{data_buffer, new_data_buffer-IsBuffer, no_content}

module _ (lib : PipeBuffer) (E F : Type 0) (errs : Errors E F) where
  -- The inbound window of a connection, and what it is as the peer counts.
  pub record Accounted (start : ℕ) (s : Account lib E F) : Type 0 where
    pub whole :
        pos_part s.conn.avail + pos_part s.conn.unsent + held lib E F s.cs + s.book.cut ≡ start
    pub peer : pos_part s.conn.avail + s.book.received ≡ start + s.book.granted + s.book.dropped

  Balances-Accounted :
      (start : ℕ) (unbroken : Bool) (s : Account lib E F)
      → Balances lib E F start unbroken s
      → Accounted start s
  Balances-Accounted start unbroken s h =
      let avail : pos_part s.conn.avail ≡ h.a = ap (λ w. pos_part w.avail) h.conn_is in
      let unsent : pos_part s.conn.unsent ≡ h.u = ap (λ w. pos_part w.unsent) h.conn_is in
      record {
        whole = omega (arith, h.whole, avail, unsent, held-kept lib E F s.cs h.promise h.holds);
        peer = omega (arith, h.known, avail);
      }

  abbrev pub Ends : ℕ → Option (Bool × Account lib E F) → Type 0
  Ends start r = (goes : Bool) × (s : Account lib E F) × (r ≡ some (goes, s)) × Accounted start s

  go_on :
      (start : ℕ) (unbroken : Bool) (r : Option (Bool × Account lib E F))
      (later : Account lib E F → Option (Bool × Account lib E F))
      → Steps lib E F start unbroken r
      → ((s : Account lib E F) → Balances lib E F start unbroken s → Ends start (later s))
      → Ends start (r >>=? λ x. if x.0 then later x.1 else some x)
  go_on start unbroken r later (goes, s, e, h) ends = rw e (
      if-either (Ends start) goes (later s) (some (goes, s)) (ends s h)
        (goes, s, refl, Balances-Accounted start unbroken s h))

  step-Steps :
      (start : ℕ) (unbroken : Bool) (op : Op) (s : Account lib E F)
      → start + 2 ^ 24 ≤ max_window
      → IsFrame op
      → IsNotClose op
      → Balances lib E F start unbroken s
      → Steps lib E F start unbroken (step lib E F errs op s)
  step-Steps start unbroken (frame size payload ended) s fits is open_still h =
      frame-Steps lib E F errs start unbroken size payload ended s h fits is
  step-Steps start unbroken (gone size) s fits is open_still h =
      gone-Steps lib E F errs start unbroken size s h fits is
  step-Steps start unbroken (read k) s fits is open_still h =
      read-Steps lib E F errs start unbroken k s h fits
  step-Steps start unbroken close s fits is open_still h = absurd open_still

  run_closed :
      (start : ℕ) (ops : List Op) (s : Account lib E F)
      → start + 2 ^ 24 ≤ max_window
      → All IsFrame ops
      → All IsNotClose ops
      → Balances lib E F start false s
      → Ends start (run lib E F errs ops s)
  run_closed start [] s fits is still h = (true, s, refl, Balances-Accounted start false s h)
  run_closed start (op ∷ ops) s fits is still h =
      go_on start false (step lib E F errs op s) (run lib E F errs ops)
        (step-Steps start false op s fits is.0 still.0 h)
        (λ s' h'. run_closed start ops s' fits is.1 still.1 h')

  run_open :
      (start : ℕ) (ops : List Op) (s : Account lib E F)
      → start + 2 ^ 24 ≤ max_window
      → All IsFrame ops
      → ClosesOnce ops
      → Balances lib E F start true s
      → Ends start (run lib E F errs ops s)
  run_open start [] s fits is once h = (true, s, refl, Balances-Accounted start true s h)
  run_open start (frame size payload ended ∷ ops) s fits is once h =
      go_on start true (step lib E F errs (frame size payload ended) s) (run lib E F errs ops)
        (step-Steps start true (frame size payload ended) s fits is.0 tt h)
        (λ s' h'. run_open start ops s' fits is.1 once h')
  run_open start (gone size ∷ ops) s fits is once h =
      go_on start true (step lib E F errs (gone size) s) (run lib E F errs ops)
        (step-Steps start true (gone size) s fits is.0 tt h)
        (λ s' h'. run_open start ops s' fits is.1 once h')
  run_open start (read k ∷ ops) s fits is once h =
      go_on start true (step lib E F errs (read k) s) (run lib E F errs ops)
        (step-Steps start true (read k) s fits is.0 tt h)
        (λ s' h'. run_open start ops s' fits is.1 once h')
  run_open start (close ∷ ops) s fits is once h =
      go_on start false (step lib E F errs close s) (run lib E F errs ops)
        (close-Steps lib E F errs start s h fits)
        (λ s' h'. run_closed start ops s' fits is.1 once h')

  -- A connection with a stream whose pipe has an empty buffer.
  abbrev pub opening :
      ℕ → ℕ → lib.Buffer → ClientStream (Pipe lib E F) → Body lib E F → Account lib E F
  opening start b buffer cs body = record {
    conn = window start 0;
    cs = record cs { inflow = window b 0; buf_pipe = set_buffer lib E F buffer (new_pipe lib E F) };
    body = body;
    book = new_ledger;
  }

  account_lem :
      (start b : ℕ) (buffer : lib.Buffer) (cs : ClientStream (Pipe lib E F)) (body : Body lib E F)
      (ops : List Op)
      → lib.IsGood buffer
      → lib.buffered buffer ≡ []
      → start + 2 ^ 24 ≤ max_window
      → b ≤ max_window
      → All IsFrame ops
      → ClosesOnce ops
      → Ends start (run lib E F errs ops (opening start b buffer cs body))
  account_lem start b buffer cs body ops good empty fits fits' is once =
      run_open start ops (opening start b buffer cs body) fits is once (record {
        a = start;
        u = 0;
        b = b;
        v = 0;
        promise = new_promise E F;
        conn_is = refl;
        stream_is = refl;
        holds = set_buffer-Holds lib E F buffer good empty;
        known = omega arith;
        whole = omega arith;
        stream_fits = omega (arith, fits');
        open_until = λ o. refl;
      })

module _ (pool : ℕ → Bytes) (pool_sized : (n : ℕ) → length (pool n) ≡ n) where
  -- For any pool that gives arrays of the size asked for, an initial connection window of at most
  -- 2^31 - 1 - 2^24 and a stream window within 2^31 - 1: in any run of DATA frames of a stream with
  -- a data buffer, each shorter than 2^24 and no shorter than its payload, of DATA frames of
  -- streams that are gone, of reads of the body and of at most one Close, no call panics, and up to
  -- the frame that closes the connection every byte has its place: the connection's window, known
  -- to the peer or waiting to be sent, what the pipe holds until the body is closed, and what a
  -- read took that passes the declared length make up the initial window; and what the peer sent is
  -- what it was granted, at the start and by WINDOW_UPDATE frames, less the window, and plus what
  -- came in frames that are errors of the stream, which processData neither counts nor gives back.
  pub run-Accounted :
      (E F : Type 0) (errs : Errors E F) (start b : ℕ) (expected : ℤ)
      (cs : ClientStream (Pipe (data_buffer pool pool_sized) E F))
      (body : Body (data_buffer pool pool_sized) E F) (ops : List Op)
      → start + 2 ^ 24 ≤ max_window
      → b ≤ max_window
      → All IsFrame ops
      → ClosesOnce ops
      → let lib = data_buffer pool pool_sized in
        Ends lib E F errs start
          (run lib E F errs ops (opening lib E F errs start b (new_data_buffer expected) cs body))
  run-Accounted E F errs start b expected cs body ops =
      account_lem (data_buffer pool pool_sized) E F errs start b (new_data_buffer expected) cs body
        ops (new_data_buffer-IsBuffer expected) (no_content expected)
