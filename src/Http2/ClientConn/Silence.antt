-- ===== src/Http2/ClientConn/Silence.antt =====
-- internal/http2/transport.go: what is sent by a stream that is aborted, which is nothing.
use req.Base.{ℕ, if-either, Option, none, some, ◌>>=?◌, if◌then◌else◌}
use req.Http2.Errors.{Error}
use req.Http2.ClientConn.{Cause, ClientStream, ClientConn}
use req.Http2.ClientConn.Streams.{forget_stream_id}
use req.Http2.ClientConn.Control.{
  Taken, taken, conn_closed, stop_body_write, no_window, aborted, await_flow_control, take_window,
}
use req.Http2.ClientConn.Runs.{Sent, on_error, silent, as_sent, want_at, forget_at}
use req.Http2.ClientConn.Marks.{MarkedIn}

-- Nothing is sent by a stream that the mark forbids.
abbrev pub Unsent : (ℕ → Option Cause → Type 0) → Sent → Type 0
Unsent g none = Unit
Unsent g (some (id, n)) = g id none

module _ {B : Type 0} (g : ℕ → Option Cause → Type 0) where
  abbrev pub UnsentBy : Option (Sent × ClientConn B) → Type 0
  UnsentBy none = Unit
  UnsentBy (some (sent, conn)) = Unsent g sent

  pub silent-Unsent : {A : Type 0} (r : Option (A × ClientConn B)) → UnsentBy (silent r)
  silent-Unsent none = tt
  silent-Unsent (some (a, conn)) = tt

  pub on_error-Unsent : (e : Cause) (r : Option Error × ClientConn B) → UnsentBy (on_error e r)
  on_error-Unsent e (none, conn) = tt
  on_error-Unsent e (some error, conn) = tt

  pub forget-Unsent :
      (id : ℕ) (o : Option (ClientStream B)) (conn : ClientConn B) → UnsentBy (forget_at id o conn)
  unfolding forget_stream_id
  forget-Unsent id none conn = tt
  forget-Unsent id (some cs) conn = after (forget_stream_id id conn)
    where
      after : (r : Option (ClientConn B)) → UnsentBy (r >>=? λ c. some (none, c))
      after none = tt
      after (some c) = tt

  as_sent-Unsent :
      (id : ℕ) (r : Option (Taken × ClientConn B)) → g id none → UnsentBy (as_sent id r)
  as_sent-Unsent id none m = tt
  as_sent-Unsent id (some (taken n, conn)) m = m
  as_sent-Unsent id (some (conn_closed, conn)) m = tt
  as_sent-Unsent id (some (stop_body_write, conn)) m = tt
  as_sent-Unsent id (some (no_window, conn)) m = tt
  as_sent-Unsent id (some (aborted e, conn)) m = tt

  -- A stream that is aborted sends nothing.
  await-Unsent :
      (canceled : Option Cause) (n : ℕ) (cs : ClientStream B) (conn : ClientConn B)
      → g cs.id cs.abort
      → UnsentBy (as_sent cs.id (await_flow_control canceled n cs conn))
  unfolding await_flow_control
  await-Unsent canceled n cs conn m = by_abort cs.abort m
    where
      by_abort :
          (a : Option Cause)
          → g cs.id a
          → UnsentBy (
              as_sent cs.id (
                if conn.closed
                then some (conn_closed, conn)
                else if cs.req_body_closed
                then some (stop_body_write, conn)
                else elim a [
                  | some e ↦ some (aborted e, conn)
                  | none ↦ elim canceled [
                    | some e ↦ some (aborted e, conn)
                    | none ↦ take_window n cs conn
                  ]
                ]))
      by_abort none m = as_sent-Unsent cs.id _ m
      by_abort (some e) m =
          if-either (λ r. UnsentBy (as_sent cs.id r)) conn.closed (some (conn_closed, conn)) _ tt
            (if-either (λ r. UnsentBy (as_sent cs.id r)) cs.req_body_closed
              (some (stop_body_write, conn)) (some (aborted e, conn)) tt tt)

  pub want-Unsent :
      (canceled : Option Cause) (n : ℕ) (o : Option (ClientStream B)) (conn : ClientConn B)
      → MarkedIn g o
      → UnsentBy (want_at canceled n o conn)
  want-Unsent canceled n none conn m = tt
  want-Unsent canceled n (some cs) conn m = await-Unsent canceled n cs conn m
