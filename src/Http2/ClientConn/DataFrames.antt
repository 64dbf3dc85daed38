-- ===== src/Http2/ClientConn/DataFrames.antt =====
-- internal/http2/transport.go: lemmas on accounts, for `processData` on a stream that is found.
use req.Base.{
  ℕ, ◌+◌, ◌-◌, ◌^◌, ◌<◌, ◌≤◌, ◌≡◌, refl, sym, ◌∙◌, subst, min, Bool, true, false, not, ◌&&◌, ◌||◌,
  ◌==◌, ltb, Bool-cases, if-either, if-cases, Option, none, some, ◌>>=?◌, inl, inr, if◌then◌else◌,
  length, arith,
}
use req.Base.Bytes.{Bytes}
use req.Http2.Errors.{err_code_protocol}
use req.Http2.Flow.{max_window, take_inflows}
use req.Http2.Flow.Inbound.{window, take_inflows-window}
use req.Http2.Pipe.{PipeBuffer, Pipe, is_some, close_code_call, Outcome, step}
use req.Http2.Pipe
use req.Http2.Pipe.Spec.{Promise, promise}
use req.Http2.Pipe.Holds.{Holds}
use req.Http2.Pipe.Refine.{step-Simulates}
use req.Http2.ClientConn.{Cause, ClientStream, stream_error, abort_stream}
use req.Http2.ClientConn.Control.{end_stream_error}
use req.Http2.ClientConn.Bodies.{
  handled, Windows, unchanged, write_body, settle, end_stream, end_if, take_data, process_data,
}
use req.Http2.ClientConn.Accounts.{is_dropped}
use req.Http2.ClientConn.Balance.{kept}
use req.Http2.ClientConn.FrameBalance.{
  Handled, FrameGives, Settles, Taken, Writes, write_body-Writes, settle_kept, settle_refused,
}

module _ (lib : PipeBuffer) (E F : Type 0) where
  settle-Settles :
      (a u b v size pad n : ℕ) (s : Promise E F) (unbroken : Bool)
      (cs : ClientStream (Pipe lib E F)) (r : Option Cause × ClientStream (Pipe lib E F))
      → Taken lib E F a u b v size pad n s unbroken
      → cs.inflow ≡ window (b - size) v
      → Writes lib E F cs s n r
      → Settles lib E F a u s unbroken size (settle lib E F pad n (window (a - size) u) r)
  settle-Settles a u b v size pad n s unbroken cs (none, x) t inflow w = elim w.adds [
    | inl adds ↦
        settle_kept lib E F a u b v size pad n s w.promise' unbroken x t (w.inflow ∙ inflow) w.holds
          w.broken adds.1
    | inr adds ↦ absurd (ground (arith, adds))
  ]
  settle-Settles a u b v size pad n s unbroken cs (some e, x) t inflow w = elim w.adds [
    | inl adds ↦ absurd (ground (arith, adds))
    | inr adds ↦
        settle_refused lib E F a u b v size pad n s w.promise' unbroken e x t (w.inflow ∙ inflow)
          w.holds w.broken adds.1
  ]

  close_kept :
      (eof : E) (copy : F) (s : Promise E F)
      → let p = (promise E F (close_code_call eof copy) s).1 in
        (kept lib E F p ≡ kept lib E F s) × (p.broken ≡ s.broken)
  close_kept eof copy s =
      if-either (λ p. (kept lib E F p ≡ kept lib E F s) × (p.broken ≡ s.broken)) (is_some s.closed)
        s (record s { closed = some eof; code = some copy }) (refl, refl) (refl, refl)

  -- The end of a stream.
  end_stream-Handled :
      (eof : E) (copy : F) (a u : ℕ) (s : Promise E F) (unbroken : Bool) (size lost : ℕ)
      (w : Windows (Pipe lib E F))
      → Handled lib E F a u s unbroken size lost 0 w
      → Handled lib E F a u s unbroken size lost 0
          (record w { cs = end_stream lib E F eof copy w.cs })
  unfolding end_stream step
  end_stream-Handled eof copy a u s unbroken size lost w h =
      let (same, broken) = close_kept eof copy h.promise' in
      if-either (λ c. Handled lib E F a u s unbroken size lost 0 (record w { cs = c }))
        w.cs.read_closed w.cs
        (record w.cs {
          read_closed = true;
          buf_pipe = Pipe.close_with_error_and_code lib E F eof (some copy) w.cs.buf_pipe;
        })
        h
        (record {
          a' = h.a';
          u' = h.u';
          b' = h.b';
          v' = h.v';
          sent = h.sent;
          promise' = (promise E F (close_code_call eof copy) h.promise').1;
          conn_is = h.conn_is;
          stream_is = h.stream_is;
          update_is = h.update_is;
          holds =
              (step-Simulates lib E F (close_code_call eof copy) w.cs.buf_pipe h.promise'
                h.holds).1;
          known = h.known;
          whole = omega (arith, h.whole, same);
          stream_fits = omega (arith, h.stream_fits, same);
          open_until = λ o. broken ∙ h.open_until o;
        })

  end_if-Handled :
      (eof : E) (copy : F) (ended : Bool) (e : Option Cause) (a u : ℕ) (s : Promise E F)
      (unbroken : Bool) (size lost : ℕ) (w : Windows (Pipe lib E F))
      → Handled lib E F a u s unbroken size lost 0 w
      → Handled lib E F a u s unbroken size lost 0 (end_if lib E F eof copy ended e w)
  unfolding end_if
  end_if-Handled eof copy ended (some e) a u s unbroken size lost w h = h
  end_if-Handled eof copy ended none a u s unbroken size lost w h =
      if-either (Handled lib E F a u s unbroken size lost 0) ended
        (record w { cs = end_stream lib E F eof copy w.cs }) w
        (end_stream-Handled eof copy a u s unbroken size lost w h) h

  settled-FrameGives :
      (eof : E) (copy : F) (ended : Bool) (e : Option Cause) (a u : ℕ) (s : Promise E F)
      (unbroken : Bool) (size : ℕ) (r : Option (Windows (Pipe lib E F)))
      → Settles lib E F a u s unbroken size r
      → FrameGives lib E F a u s unbroken size 0
          (r >>=? λ w. some (handled, end_if lib E F eof copy ended e w))
  settled-FrameGives eof copy ended e a u s unbroken size none g = absurd g
  settled-FrameGives eof copy ended e a u s unbroken size (some w) g =
      end_if-Handled eof copy ended e a u s unbroken size 0 w g

  -- What holds before a frame.
  pub record Ready (a u b v : ℕ) (s : Promise E F) (unbroken : Bool)
      (cs : ClientStream (Pipe lib E F)) : Type 0 where
    pub stream_is : cs.inflow ≡ window b v
    pub holds : Holds lib E F cs.buf_pipe s
    pub conn_fits : a + u + kept lib E F s ≤ max_window
    pub stream_fits : b + v + kept lib E F s ≤ max_window
    pub open_until : unbroken ≡ true → s.broken ≡ none

  take_data-FrameGives :
      (eof : E) (copy : F) (size : ℕ) (payload : Bytes) (ended : Bool) (a u b v : ℕ)
      (s : Promise E F) (unbroken : Bool) (cs : ClientStream (Pipe lib E F))
      → size < 2 ^ 24
      → length payload ≤ size
      → Ready a u b v s unbroken cs
      → FrameGives lib E F a u s unbroken size 0
          (take_data lib E F eof copy size payload ended (window a u) cs)
  unfolding take_data
  take_data-FrameGives eof copy size payload ended a u b v s unbroken cs small fits h =
      let took : take_inflows (window a u) cs.inflow size ≡ (
          if ltb (min a b) size
          then (false, window a u, window b v)
          else (true, window (a - size) u, window (b - size) v)) =
        subst
          (λ i. take_inflows (window a u) i size ≡ (
            if ltb (min a b) size
            then (false, window a u, window b v)
            else (true, window (a - size) u, window (b - size) v)))
          (sym h.stream_is)
          (take_inflows-window size a u b v (omega (arith, small)) (omega (arith, h.conn_fits))
            (omega (arith, h.stream_fits))) in
      elim (Bool-cases (ltb (min a b) size)) [
        | inl e ↦ rw (took, e) tt
        | inr e ↦
            let cs' : ClientStream (Pipe lib E F) = record cs { inflow = window (b - size) v } in
            let written = write_body lib E F payload cs' in
            rw (took, e)
              (settled-FrameGives eof copy ended written.0 a u s unbroken size
                (settle lib E F (size - length payload) (length payload) (window (a - size) u)
                  written)
                (settle-Settles a u b v size (size - length payload) (length payload) s unbroken cs'
                  written
                  (record {
                    parts = omega (arith, fits);
                    of_conn = ground (arith, e);
                    of_stream = ground (arith, e);
                    small = small;
                    conn_fits = h.conn_fits;
                    stream_fits = h.stream_fits;
                    open_until = h.open_until;
                  })
                  refl (write_body-Writes lib E F payload cs' s h.holds)))
      ]

  pub unchanged-Handled :
      (a u b v : ℕ) (s : Promise E F) (unbroken : Bool) (cs : ClientStream (Pipe lib E F))
      (size lost : ℕ)
      → size ≡ lost
      → Ready a u b v s unbroken cs
      → Handled lib E F a u s unbroken size lost 0 (unchanged (window a u) cs)
  unchanged-Handled a u b v s unbroken cs size lost e h = record {
    a' = a;
    u' = u;
    b' = b;
    v' = v;
    sent = 0;
    promise' = s;
    conn_is = refl;
    stream_is = h.stream_is;
    update_is = refl;
    holds = h.holds;
    known = omega (arith, e);
    whole = omega arith;
    stream_fits = h.stream_fits;
    open_until = h.open_until;
  }

  pub failed-Ready :
      (a u b v : ℕ) (s : Promise E F) (unbroken : Bool) (e : Cause)
      (cs : ClientStream (Pipe lib E F))
      → Ready a u b v s unbroken cs
      → Ready a u b v s unbroken (end_stream_error e cs)
  unfolding end_stream_error abort_stream
  failed-Ready a u b v s unbroken e cs h = record {
    stream_is = h.stream_is;
    holds = h.holds;
    conn_fits = h.conn_fits;
    stream_fits = h.stream_fits;
    open_until = h.open_until;
  }

  pub process_data-FrameGives :
      (eof : E) (copy : F) (size : ℕ) (payload : Bytes) (ended : Bool) (a u b v : ℕ)
      (s : Promise E F) (unbroken : Bool) (cs : ClientStream (Pipe lib E F))
      → size < 2 ^ 24
      → length payload ≤ size
      → Ready a u b v s unbroken cs
      → FrameGives lib E F a u s unbroken size
          (if is_dropped lib E F size payload cs then size else 0)
          (process_data lib E F eof copy size payload ended (window a u) cs)
  unfolding process_data
  process_data-FrameGives eof copy size payload ended a u b v s unbroken cs small fits h =
      let err = stream_error cs.id err_code_protocol in
      let failed = end_stream_error err cs in
      let lost : ℕ = if is_dropped lib E F size payload cs then size else 0 in
      let refuses : size ≡ lost
          → FrameGives lib E F a u s unbroken size lost
              (some (handled, unchanged (window a u) failed)) =
        λ e.
          unchanged-Handled a u b v s unbroken failed size lost e
            (failed-Ready a u b v s unbroken err cs h) in
      if-cases (FrameGives lib E F a u s unbroken size lost) (cs.read_closed || not cs.past_headers)
        (some (handled, unchanged (window a u) failed)) _ (λ e. refuses (ground (arith, e)))
        (λ e1.
          if-cases (FrameGives lib E F a u s unbroken size lost) (size == 0)
            (some (handled, end_if lib E F eof copy ended none (unchanged (window a u) cs))) _
            (λ e2.
              end_if-Handled eof copy ended none a u s unbroken size lost
                (unchanged (window a u) cs)
                (unchanged-Handled a u b v s unbroken cs size lost (ground (arith, e1, e2)) h))
            (λ e2.
              if-cases (FrameGives lib E F a u s unbroken size lost)
                (cs.is_head && ltb 0 (length payload))
                (some (handled, unchanged (window a u) failed)) _
                (λ e3. refuses (ground (arith, e1, e2, e3)))
                (λ e3.
                  let none_lost : lost ≡ 0 = ground (arith, e1, e2, e3) in
                  subst
                    (λ l.
                      FrameGives lib E F a u s unbroken size l
                        (take_data lib E F eof copy size payload ended (window a u) cs))
                    (sym none_lost)
                    (take_data-FrameGives eof copy size payload ended a u b v s unbroken cs small
                      fits h))))
