-- ===== src/Http2/ClientConn/ReadBalance.antt =====
-- internal/http2/transport.go: lemmas on accounts, for what a read takes of the pipe.
use req.Base.{
  ℕ, ◌+◌, ◌-◌, ◌≤◌, ◌≡◌, refl, ap, sym, subst, Bool, true, false, ◌&&◌, ◌==◌, ltb, if-either,
  if-cases, Option, none, some, ◌>>=?◌, length, length-drop, [], ◌∷◌, take, drop, arith,
  length-take,
}
use req.Base.Bytes.{Bytes}
use req.Base.Int.{pos, pos_part}
use req.Http2.Flow.{max_window, add_inflow}
use req.Http2.Flow.Inbound.{window}
use req.Http2.Pipe.{
  PipeBuffer, Pipe, is_some, read_call, break_call, Outcome, bytes, waits, error, step, nothing,
  fails, write_closed, write_uninitialized, count, current_err, channel,
}
use req.Http2.Pipe
use req.Http2.Pipe.Spec.{Promise, promise, read_promise, read_left}
use req.Http2.Pipe.Holds.{Holds}
use req.Http2.Pipe.Refine.{len_of}
use req.Http2.ClientConn.{Cause, ClientStream, abort_stream}
use req.Http2.ClientConn.Bodies.{
  Windows, unchanged, credit_both, err_truncated, Body, ReadEnd, got, truncated, ends, blocks,
  read_end,
}
use req.Http2.ClientConn.Accounts.{Account, held, cut_of, book_read}
use req.Http2.ClientConn.Balance.{Credits, credit_window, kept, Balances, Steps}
use req.Http2.ClientConn.FrameBalance.{Handled}
use req.Http2.ClientConn.DataFrames.{Ready}

module _ (lib : PipeBuffer) (E F : Type 0) where
  pub held-kept :
      (cs : ClientStream (Pipe lib E F)) (s : Promise E F)
      → Holds lib E F cs.buf_pipe s
      → held lib E F cs ≡ kept lib E F s
  unfolding Pipe.len
  held-kept cs s h = rw (h.same_break, len_of lib E F cs.buf_pipe s h) refl

  -- What a read takes out of the pipe.
  abbrev pub Reads : Promise E F → Outcome E F → Promise E F → Type 0
  Reads s (bytes q) p = (kept lib E F p + length q ≡ kept lib E F s) × (p.broken ≡ s.broken)
  Reads s o p = (kept lib E F p ≡ kept lib E F s) × (p.broken ≡ s.broken)

  left_Reads :
      (k : ℕ) (left : Bytes) (closed broken : Option E) (code : Option F)
      → broken ≡ none
      → let s : Promise E F = record {
        left = left;
        closed = closed;
        broken = broken;
        code = code;
      } in
        let q = read_left E F k left closed s in Reads s q.0 q.1
  left_Reads k [] none broken code e = (refl, refl)
  left_Reads k [] (some x) broken code e = (refl, refl)
  left_Reads k (b ∷ left) closed broken code e =
      let parts : length (drop k (b ∷ left)) + length (take k (b ∷ left)) ≡ length (b ∷ left) =
        omega (arith, length-take k (b ∷ left), length-drop k (b ∷ left)) in
      (rw e parts, refl)

  broken_Reads :
      (k : ℕ) (left : Bytes) (closed broken : Option E) (code : Option F)
      → let s : Promise E F = record {
        left = left;
        closed = closed;
        broken = broken;
        code = code;
      } in
        let q = read_promise E F k broken s in Reads s q.0 q.1
  broken_Reads k left closed none code = left_Reads k left closed none code refl
  broken_Reads k left closed (some e) code = (refl, refl)

  pub promise_Reads :
      (k : ℕ) (s : Promise E F)
      → Reads s (promise E F (read_call k) s).0 (promise E F (read_call k) s).1
  promise_Reads k s = broken_Reads k s.left s.closed s.broken s.code

  abbrev pub ReadGives :
      ℕ
      → ℕ
      → Promise E F
      → Bool
      → ℕ
      → Option (ReadEnd lib E F × Body lib E F × Windows (Pipe lib E F))
      → Type 0
  ReadGives a u s unbroken before none = ⊥
  ReadGives a u s unbroken before (some (r, body, w)) =
      Handled lib E F a u s unbroken 0 0 (cut_of lib E F r (before - held lib E F w.cs)) w

  pub book_read-Steps :
      (start : ℕ) (unbroken : Bool) (s : Account lib E F) (h : Balances lib E F start unbroken s)
      (r : Option (ReadEnd lib E F × Body lib E F × Windows (Pipe lib E F)))
      → ReadGives h.a h.u h.promise unbroken (held lib E F s.cs) r
      → Steps lib E F start unbroken (book_read lib E F s r)
  book_read-Steps start unbroken s h none g = absurd g
  book_read-Steps start unbroken s h (some (r, body, w)) g =
      let granted : pos_part w.conn_update ≡ g.sent = ap pos_part g.update_is in
      (
        true,
        record s {
          conn = w.conn;
          cs = w.cs;
          body = body;
          book = record s.book {
            granted = s.book.granted + pos_part w.conn_update;
            cut = s.book.cut + cut_of lib E F r (held lib E F s.cs - held lib E F w.cs);
          };
        },
        refl,
        record {
          a = g.a';
          u = g.u';
          b = g.b';
          v = g.v';
          promise = g.promise';
          conn_is = g.conn_is;
          stream_is = g.stream_is;
          holds = g.holds;
          known = omega (arith, h.known, g.known, granted);
          whole = omega (arith, h.whole, g.whole);
          stream_fits = g.stream_fits;
          open_until = g.open_until;
        },
      )

  pub same-ReadGives :
      (a u b v : ℕ) (s p : Promise E F) (unbroken : Bool) (before : ℕ)
      (cs : ClientStream (Pipe lib E F)) (r : ReadEnd lib E F) (body : Body lib E F)
      → Ready lib E F a u b v p unbroken cs
      → kept lib E F p + cut_of lib E F r (before - held lib E F cs) ≡ kept lib E F s
      → ReadGives a u s unbroken before (some (r, body, unchanged (window a u) cs))
  same-ReadGives a u b v s p unbroken before cs r body h e = record {
    a' = a;
    u' = u;
    b' = b;
    v' = v;
    sent = 0;
    promise' = p;
    conn_is = refl;
    stream_is = h.stream_is;
    update_is = refl;
    holds = h.holds;
    known = omega arith;
    whole = omega (arith, e);
    stream_fits = h.stream_fits;
    open_until = h.open_until;
  }

  credit-ReadGives :
      (a u b v n : ℕ) (s p : Promise E F) (unbroken : Bool) (before : ℕ)
      (cs : ClientStream (Pipe lib E F)) (q : Bytes) (body : Body lib E F)
      → Ready lib E F a u b v p unbroken cs
      → kept lib E F p + n ≡ kept lib E F s
      → a + u + kept lib E F s ≤ max_window
      → b + v + kept lib E F s ≤ max_window
      → ReadGives a u s unbroken before
          (credit_both n (window a u) cs >>=? λ w. some (got q, body, w))
  unfolding credit_both
  credit-ReadGives a u b v n s p unbroken before cs q body h part fits fits' =
      let (sent, a', u', e, c) =
        credit_window n 0 a a u (omega arith) (omega (arith, part, fits))
          (omega (arith, part, fits)) in
      let (sent', b', v', e', c') =
        subst (λ i. Credits b v 0 n (add_inflow (pos n) i)) (sym h.stream_is)
          (credit_window n 0 b b v (omega arith) (omega (arith, part, fits'))
            (omega (arith, part, fits'))) in
      rw (e, e')
        (record {
          a' = a';
          u' = u';
          b' = b';
          v' = v';
          sent = sent;
          promise' = p;
          conn_is = refl;
          stream_is = refl;
          update_is = refl;
          holds = h.holds;
          known = omega (arith, c.known);
          whole = omega (arith, c.whole, part);
          stream_fits = omega (arith, c'.whole, part, fits');
          open_until = h.open_until;
        })

  pub abort-Ready :
      (a u b v : ℕ) (p : Promise E F) (unbroken : Bool) (e : Cause)
      (cs : ClientStream (Pipe lib E F))
      → Ready lib E F a u b v p unbroken cs
      → Ready lib E F a u b v p unbroken (abort_stream e cs)
  unfolding abort_stream
  abort-Ready a u b v p unbroken e cs h = record {
    stream_is = h.stream_is;
    holds = h.holds;
    conn_fits = h.conn_fits;
    stream_fits = h.stream_fits;
    open_until = h.open_until;
  }

  pub read_end-ReadGives :
      (is_eof : E → Bool) (unexpected too_long : E) (o : Outcome E F) (body : Body lib E F)
      (a u b v : ℕ) (s p : Promise E F) (unbroken : Bool) (before : ℕ)
      (cs : ClientStream (Pipe lib E F))
      → before ≡ kept lib E F s
      → a + u + kept lib E F s ≤ max_window
      → b + v + kept lib E F s ≤ max_window
      → Reads s o p
      → Ready lib E F a u b v p unbroken cs
      → ReadGives a u s unbroken before
          (read_end lib E F is_eof unexpected too_long o body (window a u) cs)
  unfolding read_end
  read_end-ReadGives is_eof unexpected too_long (bytes q) body a u b v s p unbroken before cs was
        fits fits' took h =
      let n = length q in
      let left : Option ℕ = elim body.bytes_remain [ none ↦ none | some m ↦ some (m - n) ] in
      let limit : ℕ = elim body.bytes_remain [ none ↦ n | some m ↦ m ] in
      let aborted = abort_stream err_truncated cs in
      let aborted_ready = abort-Ready a u b v p unbroken err_truncated cs h in
      let kept_left = held-kept aborted p aborted_ready.holds in
      if-cases (ReadGives a u s unbroken before) (ltb limit n)
        (some (
          truncated (take limit q),
          record body { read_err = some too_long },
          unchanged (window a u) aborted,
        ))
        _
        (λ e.
          same-ReadGives a u b v s p unbroken before aborted (truncated (take limit q))
            (record body { read_err = some too_long }) aborted_ready
            (omega (arith, was, took.0, kept_left)))
        (λ e.
          if-cases (ReadGives a u s unbroken before) (n == 0)
            (some (got q, record body { bytes_remain = left }, unchanged (window a u) cs)) _
            (λ z.
              same-ReadGives a u b v s p unbroken before cs (got q)
                (record body { bytes_remain = left }) h (ground (arith, z, took.0)))
            (λ z.
              credit-ReadGives a u b v n s p unbroken before cs q
                (record body { bytes_remain = left }) h took.0 fits fits'))
  read_end-ReadGives is_eof unexpected too_long (error x fn) body a u b v s p unbroken before cs was
        fits fits' took h =
      let left : Bool = elim body.bytes_remain [ none ↦ false | some m ↦ ltb 0 m ] in
      if-either (ReadGives a u s unbroken before) (is_eof x && left)
        (some
          (ends unexpected, record body { read_err = some unexpected }, unchanged (window a u) cs))
        (some (ends x, body, unchanged (window a u) cs))
        (same-ReadGives a u b v s p unbroken before cs (ends unexpected)
          (record body { read_err = some unexpected }) h (omega (arith, took.0)))
        (same-ReadGives a u b v s p unbroken before cs (ends x) body h (omega (arith, took.0)))
  read_end-ReadGives is_eof unexpected too_long waits body a u b v s p unbroken before cs was fits
        fits' took h =
      same-ReadGives a u b v s p unbroken before cs blocks body h (omega (arith, took.0))
  read_end-ReadGives is_eof unexpected too_long nothing body a u b v s p unbroken before cs was fits
        fits' took h =
      same-ReadGives a u b v s p unbroken before cs blocks body h (omega (arith, took.0))
  read_end-ReadGives is_eof unexpected too_long fails body a u b v s p unbroken before cs was fits
        fits' took h =
      same-ReadGives a u b v s p unbroken before cs blocks body h (omega (arith, took.0))
  read_end-ReadGives is_eof unexpected too_long write_closed body a u b v s p unbroken before cs was
        fits fits' took h =
      same-ReadGives a u b v s p unbroken before cs blocks body h (omega (arith, took.0))
  read_end-ReadGives is_eof unexpected too_long write_uninitialized body a u b v s p unbroken before
        cs was fits fits' took h =
      same-ReadGives a u b v s p unbroken before cs blocks body h (omega (arith, took.0))
  read_end-ReadGives is_eof unexpected too_long (count m) body a u b v s p unbroken before cs was
        fits fits' took h =
      same-ReadGives a u b v s p unbroken before cs blocks body h (omega (arith, took.0))
  read_end-ReadGives is_eof unexpected too_long (current_err m) body a u b v s p unbroken before cs
        was fits fits' took h =
      same-ReadGives a u b v s p unbroken before cs blocks body h (omega (arith, took.0))
  read_end-ReadGives is_eof unexpected too_long (channel m) body a u b v s p unbroken before cs was
        fits fits' took h =
      same-ReadGives a u b v s p unbroken before cs blocks body h (omega (arith, took.0))
