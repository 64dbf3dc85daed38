-- ===== src/Http2/ClientConn/FrameBalance.antt =====
-- internal/http2/transport.go: lemmas on accounts, for a DATA frame that the windows have taken.
use req.Base.{
  ℕ, ◌+◌, ◌-◌, ◌^◌, ◌<◌, ◌≤◌, ◌≡◌, refl, ap, sym, ◌∙◌, subst, Bool, true, false, ltb, Bool-cases,
  if-either, if-cases, Option, none, some, ◌⊎◌, inl, inr, if◌then◌else◌, length, length-append,
  arith, ◌++◌,
}
use req.Base.Bytes.{Bytes}
use req.Base.Int.{pos, pos_part}
use req.Http2.Flow.{max_window, add_inflow}
use req.Http2.Flow.Inbound.{window}
use req.Http2.Pipe.{PipeBuffer, Pipe, is_some, write_call, Outcome, count, write_closed, step}
use req.Http2.Pipe.Spec.{Promise, over, promise}
use req.Http2.Pipe.Holds.{Holds}
use req.Http2.Pipe.Refine.{step-Simulates}
use req.Http2.ClientConn.{Cause, ClientStream}
use req.Http2.ClientConn.Bodies.{
  FrameEnd, handled, closes, Windows, err_pipe_write, credit_conn, credit_both, refused, write_body,
  settle,
}
use req.Http2.ClientConn.Accounts.{Account, book_frame}
use req.Http2.ClientConn.Balance.{Credits, credit_window, kept, Balances, Steps}
use req.Http2.ClientConn.{abort_stream}
use req.Http2.ClientConn.Control.{end_stream_error}

module _ (lib : PipeBuffer) (E F : Type 0) where
  -- The windows and the pipe behind `taken` bytes of the peer, of which `lost` are not counted, and
  -- with `cut` bytes that are gone from the pipe.
  pub record Handled (a u : ℕ) (s : Promise E F) (unbroken : Bool) (taken lost cut : ℕ)
      (w : Windows (Pipe lib E F)) : Type 0 where
    pub a' : ℕ
    pub u' : ℕ
    pub b' : ℕ
    pub v' : ℕ
    pub sent : ℕ
    pub promise' : Promise E F
    pub conn_is : w.conn ≡ window a' u'
    pub stream_is : w.cs.inflow ≡ window b' v'
    pub update_is : w.conn_update ≡ pos sent
    pub holds : Holds lib E F w.cs.buf_pipe promise'
    pub known : a' + taken ≡ a + sent + lost
    pub whole : a' + u' + kept lib E F promise' + cut ≡ a + u + kept lib E F s
    pub stream_fits : b' + v' + kept lib E F promise' ≤ max_window
    pub open_until : unbroken ≡ true → promise'.broken ≡ none

  abbrev pub FrameGives :
      ℕ → ℕ → Promise E F → Bool → ℕ → ℕ → Option (FrameEnd × Windows (Pipe lib E F)) → Type 0
  FrameGives a u s unbroken size lost none = ⊥
  FrameGives a u s unbroken size lost (some (closes e, w)) = Unit
  FrameGives a u s unbroken size lost (some (handled, w)) = Handled a u s unbroken size lost 0 w

  pub book_frame-Steps :
      (start : ℕ) (unbroken : Bool) (size lost : ℕ) (s : Account lib E F)
      (h : Balances lib E F start unbroken s) (r : Option (FrameEnd × Windows (Pipe lib E F)))
      → FrameGives h.a h.u h.promise unbroken size lost r
      → Steps lib E F start unbroken (book_frame lib E F size lost s r)
  book_frame-Steps start unbroken size lost s h none g = absurd g
  book_frame-Steps start unbroken size lost s h (some (closes e, w)) g = (false, s, refl, h)
  book_frame-Steps start unbroken size lost s h (some (handled, w)) g =
      let granted : pos_part w.conn_update ≡ g.sent = ap pos_part g.update_is in
      (
        true,
        record s {
          conn = w.conn;
          cs = w.cs;
          book = record s.book {
            received = s.book.received + size;
            granted = s.book.granted + pos_part w.conn_update;
            dropped = s.book.dropped + lost;
          };
        },
        refl,
        record {
          a = g.a';
          u = g.u';
          b = g.b';
          v = g.v';
          promise = g.promise';
          conn_is = g.conn_is;
          stream_is = g.stream_is;
          holds = g.holds;
          known = omega (arith, h.known, g.known, granted);
          whole = omega (arith, h.whole, g.whole);
          stream_fits = g.stream_fits;
          open_until = g.open_until;
        },
      )

  abbrev pub Adds : Promise E F → ℕ → Option Cause → Promise E F → Type 0
  Adds s n e p =
      ((e ≡ none) × (kept lib E F p ≡ kept lib E F s + n))
      ⊎ ((e ≡ some err_pipe_write) × (kept lib E F p ≡ kept lib E F s))

  kept_write :
      (payload left : Bytes) (broken : Bool)
      → broken ≡ false
      → (if broken then 0 else length (left ++ payload))
        ≡ (if broken then 0 else length left) + length payload
  kept_write payload left broken e = rw e (length-append left payload)

  promise-Adds :
      (payload : Bytes) (s : Promise E F)
      → let q = promise E F (write_call payload) s in
        Adds s (length payload) (refused lib E F q.0) q.1
  unfolding refused
  promise-Adds payload s =
      if-cases
        (λ (q : Outcome E F × Promise E F). Adds s (length payload) (refused lib E F q.0) q.1)
        (over E F s) (write_closed, s)
        (count (length payload), record s { left = s.left ++ payload }) (λ e. inr (refl, refl))
        (λ e. inl (refl, kept_write payload s.left (is_some s.broken) (ground arith)))

  -- What the pipe takes of a frame.
  pub record Writes (cs : ClientStream (Pipe lib E F)) (s : Promise E F) (n : ℕ)
      (r : Option Cause × ClientStream (Pipe lib E F)) : Type 0 where
    pub promise' : Promise E F
    pub holds : Holds lib E F r.1.buf_pipe promise'
    pub broken : promise'.broken ≡ s.broken
    pub inflow : r.1.inflow ≡ cs.inflow
    pub adds :
        ((r.0 ≡ none) × (kept lib E F promise' ≡ kept lib E F s + n))
        ⊎ ((r.0 ≡ some err_pipe_write) × (kept lib E F promise' ≡ kept lib E F s))

  pub write_body-Writes :
      (payload : Bytes) (cs : ClientStream (Pipe lib E F)) (s : Promise E F)
      → Holds lib E F cs.buf_pipe s
      → Writes cs s (length payload) (write_body lib E F payload cs)
  unfolding write_body refused step
  write_body-Writes payload cs s h =
      let sim = step-Simulates lib E F (write_call payload) cs.buf_pipe s h in
      elim (Bool-cases (ltb 0 (length payload))) [
        | inr e ↦ rw e (record {
          promise' = s;
          holds = h;
          broken = refl;
          inflow = refl;
          adds = inl (refl, ground (arith, e));
        })
        | inl e ↦ rw e (record {
          promise' = (promise E F (write_call payload) s).1;
          holds = sim.1;
          broken =
              if-either (λ (q : Outcome E F × Promise E F). q.1.broken ≡ s.broken) (over E F s)
                (write_closed, s) (count (length payload), record s { left = s.left ++ payload })
                refl refl;
          inflow = refl;
          adds =
              subst
                (λ o.
                  Adds s (length payload) (refused lib E F o)
                    (promise E F (write_call payload) s).1)
                (sym sim.0) (promise-Adds payload s);
        })
      ]

  -- Windows that have taken a frame: of what is left, `pad` bytes are given back.
  pub record Taken (a u b v size pad n : ℕ) (s : Promise E F) (unbroken : Bool) : Type 0 where
    pub parts : size ≡ pad + n
    pub of_conn : size ≤ a
    pub of_stream : size ≤ b
    pub small : size < 2 ^ 24
    pub conn_fits : a + u + kept lib E F s ≤ max_window
    pub stream_fits : b + v + kept lib E F s ≤ max_window
    pub open_until : unbroken ≡ true → s.broken ≡ none

  abbrev pub Settles : ℕ → ℕ → Promise E F → Bool → ℕ → Option (Windows (Pipe lib E F)) → Type 0
  Settles a u s unbroken size none = ⊥
  Settles a u s unbroken size (some w) = Handled a u s unbroken size 0 0 w

  pub settle_kept :
      (a u b v size pad n : ℕ) (s p : Promise E F) (unbroken : Bool)
      (x : ClientStream (Pipe lib E F))
      → Taken a u b v size pad n s unbroken
      → x.inflow ≡ window (b - size) v
      → Holds lib E F x.buf_pipe p
      → p.broken ≡ s.broken
      → kept lib E F p ≡ kept lib E F s + n
      → Settles a u s unbroken size (settle lib E F pad n (window (a - size) u) (none, x))
  unfolding settle credit_both
  settle_kept a u b v size pad n s p unbroken x t inflow h broken adds =
      let (sent, a', u', e, c) =
        credit_window pad size a (a - size) u (omega (arith, t.of_conn))
          (omega (arith, t.parts, t.small)) (omega (arith, t.parts, t.conn_fits, t.of_conn)) in
      let (sent', b', v', e', c') =
        subst (λ i. Credits b v size pad (add_inflow (pos pad) i)) (sym inflow)
          (credit_window pad size b (b - size) v (omega (arith, t.of_stream))
            (omega (arith, t.parts, t.small))
            (omega (arith, t.parts, t.stream_fits, t.of_stream))) in
      rw (e, e')
        (record {
          a' = a';
          u' = u';
          b' = b';
          v' = v';
          sent = sent;
          promise' = p;
          conn_is = refl;
          stream_is = refl;
          update_is = refl;
          holds = h;
          known = omega (arith, c.known);
          whole = omega (arith, c.whole, adds, t.parts);
          stream_fits = omega (arith, c'.whole, adds, t.parts, t.stream_fits);
          open_until = λ o. broken ∙ t.open_until o;
        })

  pub settle_refused :
      (a u b v size pad n : ℕ) (s p : Promise E F) (unbroken : Bool) (err : Cause)
      (x : ClientStream (Pipe lib E F))
      → Taken a u b v size pad n s unbroken
      → x.inflow ≡ window (b - size) v
      → Holds lib E F x.buf_pipe p
      → p.broken ≡ s.broken
      → kept lib E F p ≡ kept lib E F s
      → Settles a u s unbroken size (settle lib E F pad n (window (a - size) u) (some err, x))
  unfolding settle credit_conn end_stream_error abort_stream
  settle_refused a u b v size pad n s p unbroken err x t inflow h broken same =
      let (sent, a', u', e, c) =
        credit_window (pad + n) size a (a - size) u (omega (arith, t.of_conn))
          (omega (arith, t.parts, t.small)) (omega (arith, t.parts, t.conn_fits, t.of_conn)) in
      rw e (record {
        a' = a';
        u' = u';
        b' = b - size;
        v' = v;
        sent = sent;
        promise' = p;
        conn_is = refl;
        stream_is = inflow;
        update_is = refl;
        holds = h;
        known = omega (arith, c.known);
        whole = omega (arith, c.whole, same, t.parts);
        stream_fits = omega (arith, same, t.stream_fits);
        open_until = λ o. broken ∙ t.open_until o;
      })
