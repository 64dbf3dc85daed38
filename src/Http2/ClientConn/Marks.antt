-- ===== src/Http2/ClientConn/Marks.antt =====
-- internal/http2/transport.go: what holds of the errors that streams are aborted with, and still holds
-- whatever calls follow.
use req.Base.{
  ◌∷◌, map, inl, inr, ◌==◌, Option, ℕ, some, ◌≡◌, List, ◌⊎◌, All, if-either, none, [], refl,
}
use req.Http2.ClientConn.{abort_stream, stream_at, change_at, delete_at, Cause, ClientStream}

-- The first error stands.
abbrev pub or_earlier : Option Cause → Cause → Cause
or_earlier none e = e
or_earlier (some first) e = first

-- What an error of a stream, or none, is marked by, where a later error changes nothing.
abbrev pub Stable : (ℕ → Option Cause → Type 0) → Type 0
Stable g = (id : ℕ) (a : Option Cause) (e : Cause) → g id a → g id (some (or_earlier a e))

pub abort_stream-abort :
    {B : Type 0} (e : Cause) (cs : ClientStream B)
    → (abort_stream e cs).abort ≡ some (or_earlier cs.abort e)
unfolding abort_stream
abort_stream-abort e cs = earlier cs.abort
  where
    earlier :
        (o : Option Cause)
        → elim o as (λ x. Option Cause) [ none ↦ some e | some first ↦ some first ]
          ≡ some (or_earlier o e)
    earlier none = refl
    earlier (some first) = refl

-- A change of a stream that leaves its error, or aborts it.
abbrev pub Aborts : {B : Type 0} → ClientStream B → ClientStream B → Type 0
Aborts cs cs' =
    (cs'.id ≡ cs.id)
    × ((cs'.abort ≡ cs.abort) ⊎ ((e : Cause) × (cs'.abort ≡ some (or_earlier cs.abort e))))

pub abort_stream-Aborts :
    {B : Type 0} (e : Cause) (cs : ClientStream B) → Aborts cs (abort_stream e cs)
abort_stream-Aborts e cs = (unfold abort_stream in refl, inr (e, abort_stream-abort e cs))

pub unchanged : {B : Type 0} (cs : ClientStream B) → Aborts cs cs
unchanged cs = (refl, inl refl)

module _ {B : Type 0} (g : ℕ → Option Cause → Type 0) where
  abbrev pub Marked : List (ClientStream B) → Type 0
  Marked ss = All (λ cs. g cs.id cs.abort) ss

  abbrev pub MarkedIn : Option (ClientStream B) → Type 0
  MarkedIn none = Unit
  MarkedIn (some cs) = g cs.id cs.abort

  pub stream_at-Marked :
      (id : ℕ) (ss : List (ClientStream B)) → Marked ss → MarkedIn (stream_at id ss)
  unfolding stream_at
  stream_at-Marked id [] m = tt
  stream_at-Marked id (cs ∷ ss) m =
      if-either MarkedIn (cs.id == id) (some cs) (stream_at id ss) m.0 (stream_at-Marked id ss m.1)

  pub delete_at-Marked :
      (id : ℕ) (ss : List (ClientStream B)) → Marked ss → Marked (delete_at id ss)
  unfolding delete_at
  delete_at-Marked id [] m = tt
  delete_at-Marked id (cs ∷ ss) m =
      let rest = delete_at-Marked id ss m.1 in
      if-either Marked (cs.id == id) (delete_at id ss) (cs ∷ delete_at id ss) rest (m.0, rest)

  pub Aborts-marked :
      (cs cs' : ClientStream B) → Stable g → Aborts cs cs' → g cs.id cs.abort → g cs'.id cs'.abort
  Aborts-marked cs cs' stable (same, inl e) m = rw (same, e) m
  Aborts-marked cs cs' stable (same, inr (first, e)) m =
      rw (same, e) (stable cs.id cs.abort first m)

  pub map-Marked :
      (f : ClientStream B → ClientStream B) (ss : List (ClientStream B))
      → Stable g
      → ((cs : ClientStream B) → Aborts cs (f cs))
      → Marked ss
      → Marked (map f ss)
  map-Marked f [] stable h m = tt
  map-Marked f (cs ∷ ss) stable h m =
      (Aborts-marked cs (f cs) stable (h cs) m.0, map-Marked f ss stable h m.1)

  pub change_at-Marked :
      (id : ℕ) (f : ClientStream B → ClientStream B) (ss : List (ClientStream B))
      → Stable g
      → ((cs : ClientStream B) → Aborts cs (f cs))
      → Marked ss
      → Marked (change_at id f ss)
  unfolding change_at
  change_at-Marked id f [] stable h m = tt
  change_at-Marked id f (cs ∷ ss) stable h m = (
    if-either (λ s. g s.id s.abort) (cs.id == id) (f cs) cs
        (Aborts-marked cs (f cs) stable (h cs) m.0) m.0,
    change_at-Marked id f ss stable h m.1,
  )
