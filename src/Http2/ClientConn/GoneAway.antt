-- ===== src/Http2/ClientConn/GoneAway.antt =====
-- internal/http2/transport.go: what `setGoAway` does to each stream, and what it marks them by.
use req.Base.{
  ℕ, ◌≤◌, ◌<◌, ◌≡◌, refl, sym, ap, not, ◌&&◌, ◌==◌, ==_iff, leb, if◌then◌else◌, Option, none, some,
  List, ◌∷◌, [], All, map, arith, inl, inr, Bool-cases, if-cases, ◌∙◌, subst,
}
use req.Http2.Errors.{ErrCode, err_code_no}
use req.Http2.ClientConn.{Cause, got_go_away, go_away_code, ClientStream, abort_stream, stream_at}
use req.Http2.ClientConn.Control.{go_away_stream}
use req.Http2.ClientConn.Marks.{or_earlier, Stable, Marked, abort_stream-abort}
use req.Http2.ClientConn.Silence.{Unsent}
use req.Http2.ClientConn.Within.{Falls, win}
use req.Http2.ClientConn.Runs.{Sent}
use req.Http2.ClientConn.Resets.{go_away_stream-win}

-- The error of a stream that the server did not process.
abbrev pub not_processed : ℕ → ErrCode → Cause
not_processed id code =
    if id == 1 && not (code == err_code_no) then go_away_code code else got_go_away

-- What is sent is of a stream up to the last one, or not of a stream.
abbrev pub SentUpTo : ℕ → Sent → Type 0
SentUpTo last none = Unit
SentUpTo last (some (id, n)) = id ≤ last

abbrev pub NotBy : ℕ → Sent → Type 0
NotBy id none = Unit
NotBy id (some (j, n)) = ¬ (j ≡ id)

abbrev pub BehindIsAborted : ℕ → ℕ → Option Cause → Type 0
BehindIsAborted last id none = id ≤ last
BehindIsAborted last id (some e) = Unit

pub BehindIsAborted-Stable : (last : ℕ) → Stable (BehindIsAborted last)
BehindIsAborted-Stable last id a e h = tt

pub BehindIsAborted-Unsent :
    (last : ℕ) (sent : Sent) → Unsent (BehindIsAborted last) sent → SentUpTo last sent
BehindIsAborted-Unsent last none u = tt
BehindIsAborted-Unsent last (some (id, n)) u = u

abbrev pub HasError : ℕ → Cause → ℕ → Option Cause → Type 0
HasError id e j a = j ≡ id → a ≡ some e

pub HasError-Stable : (id : ℕ) (e : Cause) → Stable (HasError id e)
HasError-Stable id e j a later h same = rw (h same) refl

pub HasError-Unsent :
    (id : ℕ) (e : Cause) (sent : Sent) → Unsent (HasError id e) sent → NotBy id sent
HasError-Unsent id e none u = tt
HasError-Unsent id e (some (j, n)) u = λ same. absurd (ground (arith, u same))

module _ {B : Type 0} where
  go_away_stream-behind :
      (last : ℕ) (code : ErrCode) (cs : ClientStream B)
      → BehindIsAborted last (go_away_stream last code cs).id (go_away_stream last code cs).abort
  unfolding go_away_stream
  go_away_stream-behind last code cs =
      let e = not_processed cs.id code in
      let abort : ClientStream B = abort_stream e cs in
      if-cases (λ s. BehindIsAborted last s.id s.abort) (leb cs.id last) cs abort
        (λ le. up_to cs.abort (ground (arith, le)))
        (λ gt. subst (BehindIsAborted last abort.id) (sym (abort_stream-abort e cs)) tt)
    where
      up_to : (a : Option Cause) → cs.id ≤ last → BehindIsAborted last cs.id a
      up_to none le = le
      up_to (some e) le = tt

  pub set_go_away-behind :
      (last : ℕ) (code : ErrCode) (ss : List (ClientStream B))
      → Marked (BehindIsAborted last) (map (go_away_stream last code) ss)
  set_go_away-behind last code [] = tt
  set_go_away-behind last code (cs ∷ ss) =
      (go_away_stream-behind last code cs, set_go_away-behind last code ss)

  pub go_away_stream-id :
      (last : ℕ) (code : ErrCode) (cs : ClientStream B) → (go_away_stream last code cs).id ≡ cs.id
  go_away_stream-id last code cs = ap (λ w. w.0) (go_away_stream-win last code cs)

  -- The streams are changed where they stand.
  pub stream_at-map :
      (f : ClientStream B → ClientStream B) (id : ℕ) (ss : List (ClientStream B))
      (cs : ClientStream B)
      → ((s : ClientStream B) → (f s).id ≡ s.id)
      → stream_at id ss ≡ some cs
      → stream_at id (map f ss) ≡ some (f cs)
  unfolding stream_at
  stream_at-map f id [] cs same h = absurd (ground arith)
  stream_at-map f id (s ∷ ss) cs same h =
      let test : ((f s).id == id) ≡ (s.id == id) = ap (λ j. j == id) (same s) in
      elim (Bool-cases (s.id == id)) [
        | inl e ↦ let found : s ≡ cs = cc (rw e at h) in rw (test ∙ e) (ap (λ x. some (f x)) found)
        | inr e ↦ rw (test ∙ e) (stream_at-map f id ss cs same (rw e at h))
      ]

  -- No two streams have one identifier.
  below-others :
      (id n : ℕ) (ss : List (ClientStream B)) (P : ClientStream B → Type 0)
      → n ≤ id
      → Falls n (map win ss)
      → All (λ s. s.id ≡ id → P s) ss
  below-others id n [] P le h = tt
  below-others id n (s ∷ ss) P le h =
      (λ same. absurd (omega (arith, h.0)), below-others id s.id ss P (omega (arith, h.0)) h.2)

  pub stream_at-only :
      (id n : ℕ) (ss : List (ClientStream B)) (cs : ClientStream B)
      → Falls n (map win ss)
      → stream_at id ss ≡ some cs
      → All (λ s. s.id ≡ id → s ≡ cs) ss
  unfolding stream_at
  stream_at-only id n [] cs h e = tt
  stream_at-only id n (s ∷ ss) cs h e = elim (Bool-cases (s.id == id)) [
    | inl is ↦
        let same : s ≡ cs = cc (rw is at e) in
        let here : s.id ≡ id = (==_iff s.id id).0 is in
        (λ x. same, below-others id s.id ss (λ t. t ≡ cs) (omega arith) h.2)
    | inr is ↦ (λ x. absurd (ground (arith, is, x)), stream_at-only id s.id ss cs h.2 (rw is at e))
  ]

  pub go_away_stream-aborts :
      (last : ℕ) (code : ErrCode) (cs : ClientStream B)
      → last < cs.id
      → (go_away_stream last code cs).abort ≡ some (or_earlier cs.abort (not_processed cs.id code))
  unfolding go_away_stream
  go_away_stream-aborts last code cs lt =
      let e = not_processed cs.id code in
      if-cases (λ s. s.abort ≡ some (or_earlier cs.abort e)) (leb cs.id last) cs (abort_stream e cs)
        (λ le. absurd (ground (arith, le, lt))) (λ gt. abort_stream-abort e cs)

  pub only-HasError :
      (last : ℕ) (code : ErrCode) (ss : List (ClientStream B)) (cs : ClientStream B)
      → last < cs.id
      → All (λ s. s.id ≡ cs.id → s ≡ cs) ss
      → Marked
          (HasError cs.id (or_earlier cs.abort (not_processed cs.id code)))
          (map (go_away_stream last code) ss)
  only-HasError last code [] cs lt h = tt
  only-HasError last code (s ∷ ss) cs lt h = (
    λ same.
        let it : s ≡ cs = h.0 (sym (go_away_stream-id last code s) ∙ same) in
        ap (λ x. (go_away_stream last code x).abort) it ∙ go_away_stream-aborts last code cs lt,
    only-HasError last code ss cs lt h.1,
  )
