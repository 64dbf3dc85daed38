-- ===== src/Http2/ClientConn/GoAways.antt =====
-- internal/http2/transport.go: what a GOAWAY frame does to a connection and to its streams, in runs.
use req.Base.{ℕ, ◌≤◌, ◌<◌, ◌≡◌, some, List, ◌∷◌, All, ◌⊎◌}
use req.Http2.ClientConn.{Cause, ClientStream, ClientConn, GoAway, stream_at}
use req.Http2.ClientConn.Control.{merge_go_away, set_go_away}
use req.Http2.ClientConn.Marks.{or_earlier}
use req.Http2.ClientConn.Afterwards.{Afterwards}
use req.Http2.ClientConn.GoneAway.{not_processed, SentUpTo, NotBy}
use req.Http2.ClientConn.Runs.{Event, Sent, go_away}

module _ {B : Type 0} where
  -- Each stream of an identifier has an error.
  abbrev pub HasFailed : ℕ → Cause → ClientConn B → Type 0
  HasFailed id e conn = All (λ s. s.id ≡ id → s.abort ≡ some e) conn.streams

  -- What becomes of a stream behind the frame, in a run.
  abbrev pub Fate :
      (Cause → B → B) → Cause → GoAway → List (Event B) → ClientConn B → ClientStream B → Type 0
  Fate close e f after conn cs =
      let code = (merge_go_away conn.go_away f).err_code in
      let failed = or_earlier cs.abort (not_processed cs.id code) in
      ((cs.id ≤ f.last_stream_id) × (stream_at cs.id (set_go_away f conn).streams ≡ some cs))
      ⊎ ((f.last_stream_id < cs.id)
          × ((cs' : ClientStream B) × (stream_at cs.id (set_go_away f conn).streams ≡ some cs')
              × (cs'.abort ≡ some failed))
          × Afterwards close e (λ sent c. NotBy cs.id sent × HasFailed cs.id failed c)
              (go_away f ∷ after) conn)

  -- What a connection does behind a GOAWAY frame.
  abbrev pub OnlyUpTo : ℕ → ClientConn B → Sent → ClientConn B → Type 0
  OnlyUpTo last conn sent c = SentUpTo last sent × (c.next_stream_id ≡ conn.next_stream_id)
