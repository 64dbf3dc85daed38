-- ===== src/Http2/ClientConn/Afterwards.antt =====
-- internal/http2/transport.go: what holds behind each event of a run, and runs of a connection that has
-- stopped.
use req.Base.{ℕ, ◌≡◌, true, Option, none, List, ◌∷◌, [], All, ◌∙◌}
use req.Http2.ClientConn.{Cause, ClientConn}
use req.Http2.ClientConn.Marks.{Stable, Marked}
use req.Http2.ClientConn.Drained.{stopped, Keeps}
use req.Http2.ClientConn.Silence.{Unsent}
use req.Http2.ClientConn.Drains.{StepKeeps, step-Keeps}
use req.Http2.ClientConn.Within.{Holds}
use req.Http2.ClientConn.Runs.{
  Event, Sent, Step, panics, stuck, goes, Peer, step, spend, grant, IsMild,
}
use req.Http2.ClientConn.Paid.{StepHolds, step-Good}

-- What holds behind each event of a run that does not panic: of what the event sent, and of the
-- connection.
module _ {B : Type 0} where
  abbrev pub AfterStep : (Sent → ClientConn B → Type 0) → (ClientConn B → Type 0) → Step B → Type 0
  AfterStep P later panics = ⊥
  AfterStep P later (stuck conn) = P none conn
  AfterStep P later (goes sent conn) = P sent conn × later conn

module _ {B : Type 0} (close : Cause → B → B) where
  abbrev pub Afterwards :
      Cause → (Sent → ClientConn B → Type 0) → List (Event B) → ClientConn B → Type 0
  Afterwards e P [] conn = Unit
  Afterwards e P (v ∷ vs) conn = AfterStep P (Afterwards e P vs) (step close e v conn)

-- The runs of a connection that has stopped.
module _ {B : Type 0} (g : ℕ → Option Cause → Type 0) (stable : Stable g) where
  drained_step :
      (v : Event B) (conn : ClientConn B) (p : Peer) (P : Sent → ClientConn B → Type 0)
      (later : ClientConn B → Type 0) (r : Step B)
      → StepHolds v conn p r
      → StepKeeps g stable conn r
      → Marked g conn.streams
      → ((sent : Sent) (c : ClientConn B)
          → Unsent g sent
          → c.next_stream_id ≡ conn.next_stream_id
          → Marked g c.streams
          → P sent c)
      → ((c : ClientConn B) (q : Peer) → Holds c q → Keeps g conn c → later c)
      → AfterStep P later r
  drained_step v conn p P later panics h k m f go_on = absurd h
  drained_step v conn p P later (stuck c) h k m f go_on = f none c tt k.next (k.marks m)
  drained_step v conn p P later (goes sent c) h k m f go_on =
      (f sent c (k.1 m) k.0.next (k.0.marks m), go_on c (grant v (spend sent p)) h.1 k.0)

  pub drained-Afterwards :
      (close : Cause → B → B) (e : Cause) (es : List (Event B)) (conn : ClientConn B) (p : Peer)
      (P : Sent → ClientConn B → Type 0)
      → All IsMild es
      → Holds conn p
      → stopped conn ≡ true
      → Marked g conn.streams
      → ((sent : Sent) (c : ClientConn B)
          → Unsent g sent
          → c.next_stream_id ≡ conn.next_stream_id
          → Marked g c.streams
          → P sent c)
      → Afterwards close e P es conn
  drained-Afterwards close e [] conn p P mild h s m f = tt
  drained-Afterwards close e (v ∷ es) conn p P mild h s m f =
      drained_step v conn p P (Afterwards close e P es) (step close e v conn)
        (step-Good close e v conn p mild.0 h) (step-Keeps g stable close e v conn s) m f
        (λ c q h' k.
          drained-Afterwards close e es c q P mild.1 h' k.stays (k.marks m)
            (λ sent c' u n. f sent c' u (n ∙ k.next)))
