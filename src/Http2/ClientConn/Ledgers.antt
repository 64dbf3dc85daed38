-- ===== src/Http2/ClientConn/Ledgers.antt =====
-- internal/http2/transport.go: lemmas on accounts, one for each operation.
use req.Base.{
  ℕ, ◌+◌, ◌^◌, ◌≤◌, ◌≡◌, refl, ap, sym, subst, Bool, true, false, if-cases, Option, none, some,
  if◌then◌else◌, arith, ◌<◌,
}
use req.Base.Bytes.{Bytes}
use req.Base.Int.{pos_part}
use req.Http2.Flow.{max_window}
use req.Http2.Pipe.{PipeBuffer, Pipe}
use req.Http2.ClientConn.Bodies.{Windows, read_body, close_body, process_data, process_data_gone}
use req.Http2.ClientConn.Accounts
use req.Http2.ClientConn.Accounts.{
  Account, held, Errors, Op, frame, gone, read, close, IsFrame, IsNotClose, ClosesOnce, is_dropped,
  book_close, book_gone, book_frame, book_read, run,
}
use req.Http2.ClientConn.Balance.{GoneGives, gone_window, Balances, Steps, book_gone-Steps}
use req.Http2.ClientConn.FrameBalance.{FrameGives, book_frame-Steps}
use req.Http2.ClientConn.DataFrames.{Ready, process_data-FrameGives}
use req.Http2.ClientConn.ReadBalance.{ReadGives, book_read-Steps}
use req.Http2.ClientConn.Accounted.{CloseGives, read_body-ReadGives, close_body-CloseGives}

module _ (lib : PipeBuffer) (E F : Type 0) (errs : Errors E F) where
  book_close-Steps :
      (start : ℕ) (unbroken : Bool) (s : Account lib E F) (h : Balances lib E F start unbroken s)
      (r : Option (Windows (Pipe lib E F)))
      → CloseGives lib E F errs h.a h.u h.promise r
      → Steps lib E F start false (book_close lib E F s r)
  book_close-Steps start unbroken s h none g = absurd g
  book_close-Steps start unbroken s h (some w) g =
      let granted : pos_part w.conn_update ≡ g.sent = ap pos_part g.update_is in
      (
        true,
        record s {
          conn = w.conn;
          cs = w.cs;
          book = record s.book { granted = s.book.granted + pos_part w.conn_update };
        },
        refl,
        record {
          a = g.a';
          u = g.u';
          b = g.b';
          v = g.v';
          promise = g.promise';
          conn_is = g.conn_is;
          stream_is = g.stream_is;
          holds = g.holds;
          known = omega (arith, h.known, g.known, granted);
          whole = omega (arith, h.whole, g.whole);
          stream_fits = g.stream_fits;
          open_until = g.open_until;
        },
      )

  ready :
      (start : ℕ) (unbroken : Bool) (s : Account lib E F) (h : Balances lib E F start unbroken s)
      → start ≤ max_window
      → Ready lib E F h.a h.u h.b h.v h.promise unbroken s.cs
  ready start unbroken s h fits = record {
    stream_is = h.stream_is;
    holds = h.holds;
    conn_fits = omega (arith, h.whole, fits);
    stream_fits = h.stream_fits;
    open_until = h.open_until;
  }

  pub gone-Steps :
      (start : ℕ) (unbroken : Bool) (size : ℕ) (s : Account lib E F)
      → Balances lib E F start unbroken s
      → start + 2 ^ 24 ≤ max_window
      → size < 2 ^ 24
      → Steps lib E F start unbroken (book_gone lib E F size s (process_data_gone 0 1 size s.conn))
  gone-Steps start unbroken size s h fits small =
      book_gone-Steps lib E F start unbroken size s h (process_data_gone 0 1 size s.conn) (
        subst (λ i. GoneGives h.a h.u size (process_data_gone 0 1 size i)) (sym h.conn_is)
          (gone_window size h.a h.u small (omega (arith, h.whole, fits, small))))

  pub frame-Steps :
      (start : ℕ) (unbroken : Bool) (size : ℕ) (payload : Bytes) (ended : Bool)
      (s : Account lib E F)
      → Balances lib E F start unbroken s
      → start + 2 ^ 24 ≤ max_window
      → IsFrame (frame size payload ended)
      → Steps lib E F start unbroken (Accounts.step lib E F errs (frame size payload ended) s)
  frame-Steps start unbroken size payload ended s h fits small =
      let lost : ℕ = if is_dropped lib E F size payload s.cs then size else 0 in
      if-cases (Steps lib E F start unbroken) s.cs.read_aborted
        (book_gone lib E F size s (process_data_gone 0 1 size s.conn))
        (book_frame lib E F size lost s
          (process_data lib E F errs.eof errs.copy size payload ended s.conn s.cs))
        (λ e. gone-Steps start unbroken size s h fits small.0)
        (λ e.
          book_frame-Steps lib E F start unbroken size lost s h
            (process_data lib E F errs.eof errs.copy size payload ended s.conn s.cs)
            (subst
              (λ i.
                FrameGives lib E F h.a h.u h.promise unbroken size lost
                  (process_data lib E F errs.eof errs.copy size payload ended i s.cs))
              (sym h.conn_is)
              (process_data-FrameGives lib E F errs.eof errs.copy size payload ended h.a h.u h.b h.v
                h.promise unbroken s.cs small.0 small.1
                (ready start unbroken s h (omega (arith, fits))))))

  pub read-Steps :
      (start : ℕ) (unbroken : Bool) (k : ℕ) (s : Account lib E F)
      → Balances lib E F start unbroken s
      → start + 2 ^ 24 ≤ max_window
      → Steps lib E F start unbroken (Accounts.step lib E F errs (read k) s)
  read-Steps start unbroken k s h fits =
      book_read-Steps lib E F start unbroken s h
        (read_body lib E F errs.is_eof errs.unexpected errs.too_long k s.body s.conn s.cs)
        (subst
          (λ i.
            ReadGives lib E F h.a h.u h.promise unbroken (held lib E F s.cs)
              (read_body lib E F errs.is_eof errs.unexpected errs.too_long k s.body i s.cs))
          (sym h.conn_is)
          (read_body-ReadGives lib E F errs k s.body h.a h.u h.b h.v h.promise unbroken s.cs
            (ready start unbroken s h (omega (arith, fits)))))

  pub close-Steps :
      (start : ℕ) (s : Account lib E F)
      → Balances lib E F start true s
      → start + 2 ^ 24 ≤ max_window
      → Steps lib E F start false (Accounts.step lib E F errs close s)
  close-Steps start s h fits =
      book_close-Steps start true s h (close_body lib E F errs.closed s.conn s.cs) (
        subst
          (λ i. CloseGives lib E F errs h.a h.u h.promise (close_body lib E F errs.closed i s.cs))
          (sym h.conn_is)
          (close_body-CloseGives lib E F errs h.a h.u h.b h.v h.promise s.cs
            (ready start true s h (omega (arith, fits)))))
