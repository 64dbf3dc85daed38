-- ===== src/Http2/ClientConn/Accounted.antt =====
-- internal/http2/transport.go: lemmas on accounts, for reads of a body and its `Close`.
use req.Base.{
  ℕ, ◌≤◌, ◌≡◌, refl, sym, ◌∙◌, subst, Bool, true, false, ltb, if-cases, Option, none, some, length,
  arith,
}
use req.Base.Bytes.{Bytes}
use req.Http2.Flow.Inbound.{window}
use req.Http2.Pipe.{
  PipeBuffer, Pipe, is_some, read_call, break_call, Outcome, step, bytes, waits, error, nothing,
  fails, write_closed, write_uninitialized, count, current_err, channel,
}
use req.Http2.Pipe
use req.Http2.Pipe.Spec.{Promise, promise}
use req.Http2.Pipe.Refine.{len_of, step-Simulates}
use req.Http2.ClientConn.{ClientStream, abort_stream}
use req.Http2.ClientConn.Bodies.{
  Windows, unchanged, credit_conn, err_closed_response_body, Body, ends, read_end, read_body,
  close_body,
}
use req.Http2.ClientConn.Accounts.{held, Errors}
use req.Http2.ClientConn.Balance.{credit_window, kept}
use req.Http2.ClientConn.FrameBalance.{Handled}
use req.Http2.ClientConn.DataFrames.{Ready}
use req.Http2.ClientConn.ReadBalance.{
  held-kept, Reads, promise_Reads, ReadGives, same-ReadGives, read_end-ReadGives,
}

module _ (lib : PipeBuffer) (E F : Type 0) (errs : Errors E F) where
  Reads-less :
      (s p : Promise E F) (o : Outcome E F)
      → Reads lib E F s o p
      → (kept lib E F p ≤ kept lib E F s) × (p.broken ≡ s.broken)
  Reads-less s p (bytes q) h = (omega (arith, h.0), h.1)
  Reads-less s p nothing h = (omega (arith, h.0), h.1)
  Reads-less s p waits h = (omega (arith, h.0), h.1)
  Reads-less s p fails h = (omega (arith, h.0), h.1)
  Reads-less s p write_closed h = (omega (arith, h.0), h.1)
  Reads-less s p write_uninitialized h = (omega (arith, h.0), h.1)
  Reads-less s p (count m) h = (omega (arith, h.0), h.1)
  Reads-less s p (error e fn) h = (omega (arith, h.0), h.1)
  Reads-less s p (current_err e) h = (omega (arith, h.0), h.1)
  Reads-less s p (channel m) h = (omega (arith, h.0), h.1)

  read_unless-ReadGives :
      (e : Option E) (k : ℕ) (body : Body lib E F) (a u b v : ℕ) (s : Promise E F) (unbroken : Bool)
      (cs : ClientStream (Pipe lib E F))
      → Ready lib E F a u b v s unbroken cs
      → ReadGives lib E F a u s unbroken (held lib E F cs) (elim e [
        | some x ↦ some (ends x, body, unchanged (window a u) cs)
        | none ↦
            let (o, p) = Pipe.read lib E F k cs.buf_pipe in
            read_end lib E F errs.is_eof errs.unexpected errs.too_long o body
              (window a u)
              (record cs { buf_pipe = p })
      ])
  unfolding step
  read_unless-ReadGives (some x) k body a u b v s unbroken cs h =
      same-ReadGives lib E F a u b v s s unbroken (held lib E F cs) cs (ends x) body h (omega arith)
  read_unless-ReadGives none k body a u b v s unbroken cs h =
      let sim = step-Simulates lib E F (read_call k) cs.buf_pipe s h.holds in
      let p = (promise E F (read_call k) s).1 in
      let took : Reads lib E F s (Pipe.read lib E F k cs.buf_pipe).0 p =
        subst (λ o. Reads lib E F s o p) (sym sim.0) (promise_Reads lib E F k s) in
      let less = Reads-less s p (Pipe.read lib E F k cs.buf_pipe).0 took in
      read_end-ReadGives lib E F errs.is_eof errs.unexpected errs.too_long
        (Pipe.read lib E F k cs.buf_pipe).0 body a u b v s p unbroken (held lib E F cs)
        (record cs { buf_pipe = (Pipe.read lib E F k cs.buf_pipe).1 })
        (held-kept lib E F cs s h.holds) h.conn_fits h.stream_fits took
        (record {
          stream_is = h.stream_is;
          holds = sim.1;
          conn_fits = omega (arith, h.conn_fits, less.0);
          stream_fits = omega (arith, h.stream_fits, less.0);
          open_until = λ o. less.1 ∙ h.open_until o;
        })

  pub read_body-ReadGives :
      (k : ℕ) (body : Body lib E F) (a u b v : ℕ) (s : Promise E F) (unbroken : Bool)
      (cs : ClientStream (Pipe lib E F))
      → Ready lib E F a u b v s unbroken cs
      → ReadGives lib E F a u s unbroken
          (held lib E F cs)
          (read_body lib E F errs.is_eof errs.unexpected errs.too_long k body (window a u) cs)
  unfolding read_body
  read_body-ReadGives k body a u b v s unbroken cs h =
      read_unless-ReadGives body.read_err k body a u b v s unbroken cs h

  -- `Close`
  broken_lem :
      (e : E) (left : Bytes) (closed broken : Option E) (code : Option F)
      → broken ≡ none
      → let s : Promise E F = record {
        left = left;
        closed = closed;
        broken = broken;
        code = code;
      } in
        let p = (promise E F (break_call e) s).1 in
        (kept lib E F p ≡ 0) × (length p.left ≡ kept lib E F s)
  broken_lem e left closed none code h = (refl, refl)
  broken_lem e left closed (some x) code h = absurd (ground arith)

  abbrev pub CloseGives : ℕ → ℕ → Promise E F → Option (Windows (Pipe lib E F)) → Type 0
  CloseGives a u s none = ⊥
  CloseGives a u s (some w) = Handled lib E F a u s false 0 0 0 w

  pub close_body-CloseGives :
      (a u b v : ℕ) (s : Promise E F) (cs : ClientStream (Pipe lib E F))
      → Ready lib E F a u b v s true cs
      → CloseGives a u s (close_body lib E F errs.closed (window a u) cs)
  unfolding close_body step credit_conn abort_stream
  close_body-CloseGives a u b v s cs h =
      let q = Pipe.break_with_error lib E F errs.closed cs.buf_pipe in
      let p = (promise E F (break_call errs.closed) s).1 in
      let sim = step-Simulates lib E F (break_call errs.closed) cs.buf_pipe s h.holds in
      let (gone_now, was) =
        broken_lem errs.closed s.left s.closed s.broken s.code (h.open_until refl) in
      let unread = len_of lib E F q p sim.1 in
      let x = abort_stream err_closed_response_body (record cs { buf_pipe = q }) in
      if-cases (CloseGives a u s) (ltb 0 (Pipe.len lib E F q))
        (credit_conn (Pipe.len lib E F q) (window a u) x) (some (unchanged (window a u) x))
        (λ e.
          let (sent, a', u', runs, c) =
            credit_window (Pipe.len lib E F q) 0 a a u (omega arith)
              (omega (arith, unread, was, h.conn_fits)) (omega (arith, unread, was, h.conn_fits)) in
          rw runs (record {
            a' = a';
            u' = u';
            b' = b;
            v' = v;
            sent = sent;
            promise' = p;
            conn_is = refl;
            stream_is = h.stream_is;
            update_is = refl;
            holds = sim.1;
            known = omega (arith, c.known);
            whole = omega (arith, c.whole, unread, was, gone_now);
            stream_fits = omega (arith, h.stream_fits, gone_now);
            open_until = λ o. absurd (ground arith);
          }))
        (λ e. record {
          a' = a;
          u' = u;
          b' = b;
          v' = v;
          sent = 0;
          promise' = p;
          conn_is = refl;
          stream_is = h.stream_is;
          update_is = refl;
          holds = sim.1;
          known = omega arith;
          whole = ground (arith, e, unread, was, gone_now);
          stream_fits = omega (arith, h.stream_fits, gone_now);
          open_until = λ o. absurd (ground arith);
        })
