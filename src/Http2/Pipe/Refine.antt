-- ===== src/Http2/Pipe/Refine.antt =====
-- The pipe of internal/http2/pipe.go keeps its promise, call by call.
use req.Base.{
  ℕ, ◌+◌, ◌≡◌, refl, sym, ap, ◌∙◌, subst, Bool, true, false, ◌||◌, Option, none, some,
  if◌then◌else◌, List, [], ◌∷◌, length, arith,
}
use req.Base.Bytes.{Bytes}
use req.Http2.Pipe.{
  PipeBuffer, Outcome, count, current_err, channel, Call, read_call, write_call, close_call,
  break_call, close_code_call, len_call, err_call, done_call, is_some, Pipe, new_pipe, set_buffer,
  len, close_done_locked, close_with_error_and_code, break_with_error, current, done, step,
}
use req.Http2.Pipe.Spec.{Promise, new_promise, err_promise, promise}
use req.Http2.Pipe.Holds.{
  BufferHolds, ChannelHolds, Holds, pipe_of, promise_of, Simulates, held_by, read-Simulates,
  write-Simulates,
}

or_true : (b : Bool) → (b || true) ≡ true
or_true true = refl
or_true false = refl

module _ (lib : PipeBuffer) (E F : Type 0) where
  open lib use {Buffer, buffered, IsGood}

  -- The channel after an error has been set.
  close_done-Holds :
      (b : Option Buffer) (unread : ℕ) (donec : Option Bool) (s : Promise E F)
      → BufferHolds lib E F b unread s.left s.closed s.broken
      → (is_some s.closed || is_some s.broken) ≡ true
      → Holds lib E F (close_done_locked lib E F (pipe_of lib E F b unread donec s)) s
  unfolding close_done_locked
  close_done-Holds b unread none s h ended = held_by lib E F b unread none s h tt
  close_done-Holds b unread (some c) s h ended =
      held_by lib E F b unread (some true) s h (sym ended)

  close-Holds :
      (e : E) (fn : Option F) (b : Option Buffer) (unread : ℕ) (donec : Option Bool) (left : Bytes)
      (closed broken : Option E) (code : Option F)
      → BufferHolds lib E F b unread left closed broken
      → ChannelHolds lib E F donec (is_some closed || is_some broken)
      → Holds lib E F
          (close_with_error_and_code lib E F e fn
            (pipe_of lib E F b unread donec (promise_of lib E F left closed broken code)))
          (if is_some closed
            then promise_of lib E F left closed broken code
            else promise_of lib E F left (some e) broken fn)
  unfolding close_with_error_and_code
  close-Holds e fn b unread donec left (some x) broken code h told =
      held_by lib E F b unread donec (promise_of lib E F left (some x) broken code) h told
  close-Holds e fn (some b) unread donec left none broken code h told =
      close_done-Holds (some b) unread donec (promise_of lib E F left (some e) broken fn) h refl
  close-Holds e fn none unread donec left none broken code h told =
      close_done-Holds none unread donec (promise_of lib E F left (some e) broken fn)
        (refl, h.1, h.2) refl

  break-Holds :
      (e : E) (b : Option Buffer) (unread : ℕ) (donec : Option Bool) (left : Bytes)
      (closed broken : Option E) (code : Option F)
      → BufferHolds lib E F b unread left closed broken
      → ChannelHolds lib E F donec (is_some closed || is_some broken)
      → Holds lib E F
          (break_with_error lib E F e
            (pipe_of lib E F b unread donec (promise_of lib E F left closed broken code)))
          (if is_some broken
            then promise_of lib E F left closed broken code
            else promise_of lib E F left closed (some e) none)
  unfolding break_with_error
  break-Holds e b unread donec left closed (some x) code h told =
      held_by lib E F b unread donec (promise_of lib E F left closed (some x) code) h told
  break-Holds e (some b) unread donec left closed none code h told =
      close_done-Holds none (unread + lib.len b) donec
        (promise_of lib E F left closed (some e) none)
        (
          or_true (is_some closed),
          omega (arith, lib.len_law b h.0, ap length h.1, h.3),
          λ x. absurd (ground arith),
        )
        (or_true (is_some closed))
  break-Holds e none unread donec left closed none code h told =
      close_done-Holds none unread donec (promise_of lib E F left closed (some e) none)
        (or_true (is_some closed), h.1, λ x. absurd (ground arith)) (or_true (is_some closed))

  pub len-left :
      (b : Option Buffer) (unread : ℕ) (donec : Option Bool) (s : Promise E F)
      → BufferHolds lib E F b unread s.left s.closed s.broken
      → len lib E F (pipe_of lib E F b unread donec s) ≡ length s.left
  unfolding len
  len-left none unread donec s h = sym h.1
  len-left (some b) unread donec s h = lib.len_law b h.0 ∙ ap length h.1

  current-err_promise :
      (b : Option Buffer) (unread : ℕ) (donec : Option Bool) (left : Bytes)
      (closed broken : Option E) (code : Option F)
      → current lib E F
          (pipe_of lib E F b unread donec (promise_of lib E F left closed broken code))
        ≡ err_promise broken closed
  unfolding current
  current-err_promise b unread donec left closed none code = refl
  current-err_promise b unread donec left closed (some e) code = refl

  done-Simulates :
      (b : Option Buffer) (unread : ℕ) (donec : Option Bool) (s : Promise E F)
      → BufferHolds lib E F b unread s.left s.closed s.broken
      → ChannelHolds lib E F donec (is_some s.closed || is_some s.broken)
      → Simulates lib E F
          (step lib E F done_call (pipe_of lib E F b unread donec s))
          (promise E F done_call s)
  unfolding step done
  done-Simulates b unread none s h told =
      (refl, held_by lib E F b unread (some (is_some s.closed || is_some s.broken)) s h refl)
  done-Simulates b unread (some c) s h told =
      (ap channel told, held_by lib E F b unread (some c) s h told)

  step_at :
      (c : Call E F) (b : Option Buffer) (unread : ℕ) (donec : Option Bool) (s : Promise E F)
      → BufferHolds lib E F b unread s.left s.closed s.broken
      → ChannelHolds lib E F donec (is_some s.closed || is_some s.broken)
      → Simulates lib E F (step lib E F c (pipe_of lib E F b unread donec s)) (promise E F c s)
  unfolding step
  step_at (read_call k) b unread donec s h told =
      read-Simulates lib E F k b unread donec s.left s.closed s.broken s.code h told
  step_at (write_call d) b unread donec s h told =
      write-Simulates lib E F d b unread donec s.left s.closed s.broken s.code h told
  step_at (close_call e) b unread donec s h told =
      (refl, close-Holds e none b unread donec s.left s.closed s.broken s.code h told)
  step_at (close_code_call e f) b unread donec s h told =
      (refl, close-Holds e (some f) b unread donec s.left s.closed s.broken s.code h told)
  step_at (break_call e) b unread donec s h told =
      (refl, break-Holds e b unread donec s.left s.closed s.broken s.code h told)
  step_at len_call b unread donec s h told =
      (ap count (len-left b unread donec s h), held_by lib E F b unread donec s h told)
  step_at err_call b unread donec s h told = (
    ap current_err (current-err_promise b unread donec s.left s.closed s.broken s.code),
    held_by lib E F b unread donec s h told,
  )
  step_at done_call b unread donec s h told = done-Simulates b unread donec s h told

  -- A pipe is the one that its promise describes.
  as_pipe_of :
      (p : Pipe lib E F) (s : Promise E F)
      → Holds lib E F p s
      → p ≡ pipe_of lib E F p.b p.unread p.donec s
  as_pipe_of p s h = λ i. record {
    b = p.b;
    unread = p.unread;
    err = h.same_err i;
    break_err = h.same_break i;
    donec = p.donec;
    read_fn = h.same_code i;
  }

  pub step-Simulates :
      (c : Call E F) (p : Pipe lib E F) (s : Promise E F)
      → Holds lib E F p s
      → Simulates lib E F (step lib E F c p) (promise E F c s)
  step-Simulates c p s h =
      subst (λ x. Simulates lib E F (step lib E F c x) (promise E F c s)) (sym (as_pipe_of p s h))
        (step_at c p.b p.unread p.donec s h.held h.told)

  -- The outcomes of calls one after the other, of a pipe and by its promise.
  abbrev pub outcomes : List (Call E F) → Pipe lib E F → List (Outcome E F)
  outcomes [] p = []
  outcomes (c ∷ cs) p = (step lib E F c p).0 ∷ outcomes cs (step lib E F c p).1

  abbrev pub promised : List (Call E F) → Promise E F → List (Outcome E F)
  promised [] s = []
  promised (c ∷ cs) s = (promise E F c s).0 ∷ promised cs (promise E F c s).1

  pub outcomes_lem :
      (cs : List (Call E F)) (p : Pipe lib E F) (s : Promise E F)
      → Holds lib E F p s
      → outcomes cs p ≡ promised cs s
  outcomes_lem [] p s h = refl
  outcomes_lem (c ∷ cs) p s h =
      let (same, h') = step-Simulates c p s h in
      let rest = outcomes_lem cs (step lib E F c p).1 (promise E F c s).1 h' in λ i. same i ∷ rest i

  pub set_buffer-Holds :
      (b : Buffer)
      → IsGood b
      → buffered b ≡ []
      → Holds lib E F (set_buffer lib E F b (new_pipe lib E F)) (new_promise E F)
  unfolding set_buffer
  set_buffer-Holds b good empty = record {
    same_err = refl;
    same_break = refl;
    same_code = refl;
    held = (good, empty, refl, refl);
    told = tt;
  }

  pub len_of :
      (p : Pipe lib E F) (s : Promise E F) → Holds lib E F p s → len lib E F p ≡ length s.left
  len_of p s h =
      subst (λ x. len lib E F x ≡ length s.left) (sym (as_pipe_of p s h))
        (len-left p.b p.unread p.donec s h.held)

  pub outcomes-promised :
      (b : Buffer) (cs : List (Call E F))
      → IsGood b
      → buffered b ≡ []
      → outcomes cs (set_buffer lib E F b (new_pipe lib E F)) ≡ promised cs (new_promise E F)
  outcomes-promised b cs good empty =
      outcomes_lem cs (set_buffer lib E F b (new_pipe lib E F)) (new_promise E F)
        (set_buffer-Holds b good empty)
