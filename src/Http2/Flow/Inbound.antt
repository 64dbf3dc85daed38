-- ===== src/Http2/Flow/Inbound.antt =====
-- The inbound window of internal/http2/flow.go: nothing wraps around, and no credit is lost.
use req.Base.{
  ℕ, ◌+◌, ◌-◌, ◌^◌, ◌≤◌, ◌<◌, ◌≡◌, true, false, ◌&&◌, ltb, Option, none, some, if◌then◌else◌, arith,
}
use req.Base.Int.{ℤ, pos, ◌+ℤ◌, ◌-ℤ◌, int64, signed, unsigned}
use req.Http2.Flow.{Inflow, max_window, add_inflow, take_inflow, take_inflows}
use req.Base.{min, List, [], ◌∷◌}
use req.Base.{All, subst}
use mathlib.Core.Option.{some-injective}
use req.Base.Int.{neg_part, pos_part}
use req.Base.{◌>>=?◌, >>=?-eq-some}

-- A window of `a` bytes that the peer knows of and `u` that it does not know of yet.
abbrev pub window : ℕ → ℕ → Inflow
window a u = record { avail = pos a; unsent = pos u }

-- `inflow.add` without machine arithmetic: too large a window panics; a small credit waits; any
-- other is sent with what waited.
abbrev pub add_window : ℕ → ℕ → ℕ → Option (ℤ × Inflow)
add_window n a u =
    if ltb (2 ^ 31 - 1) (a + u + n)
    then none
    else if ltb (u + n) 4096 && ltb (u + n) a
    then some (pos 0, window a (u + n))
    else some (pos (u + n), window (a + u + n) 0)

int64-pos : (n : ℕ) → n < 2 ^ 63 → int64 (pos n) ≡ pos n
unfolding signed unsigned
int64-pos n h = ground arith

-- For a credit below 2^62 and a window within 2^31 - 1, inflow.add computes without wrap-around: it
-- panics exactly if the window would pass 2^31 - 1, lets a credit wait if, with what waits already,
-- it is below 4096 and below the window that the peer knows of, and otherwise sends it with what
-- waited.
pub add_inflow-add_window :
    (n a u : ℕ)
    → n < 2 ^ 62
    → a + u ≤ max_window
    → add_inflow (pos n) (window a u) ≡ add_window n a u
unfolding add_inflow signed unsigned ◌+ℤ◌
add_inflow-add_window n a u hn h = ground arith

pub take_inflow-window :
    (n a u : ℕ)
    → n < 2 ^ 32
    → a + u ≤ max_window
    → take_inflow n (window a u)
      ≡ (if ltb a n then (false, window a u) else (true, window (a - n) u))
unfolding take_inflow signed unsigned ◌-ℤ◌
take_inflow-window n a u hn h = ground arith

-- For a uint32 and windows within 2^31 - 1, takeInflows takes the bytes from both windows if the
-- smaller one has them, and else changes neither.
pub take_inflows-window :
    (n a1 u1 a2 u2 : ℕ)
    → n < 2 ^ 32
    → a1 + u1 ≤ max_window
    → a2 + u2 ≤ max_window
    → take_inflows (window a1 u1) (window a2 u2) n ≡ (
        if ltb (min a1 a2) n
        then (false, window a1 u1, window a2 u2)
        else (true, window (a1 - n) u1, window (a2 - n) u2))
unfolding take_inflows signed unsigned ◌-ℤ◌
take_inflows-window n a1 u1 a2 u2 hn h1 h2 = ground arith

-- What happens to a window: the user consumes bytes, or the peer sends some.
pub data Event : Type 0 where
  credit : ℕ → Event
  receive : ℕ → Event

-- The window with the bytes accepted from the peer and those credited by the user so far.
pub record Ledger : Type 0 where
  pub flow : Inflow
  pub accepted : ℕ
  pub credited : ℕ

-- One event; a refused receipt accepts nothing, and a panic is `none`.
unfoldable pub happen : Event → Ledger → Option Ledger
happen (credit n) l = elim (add_inflow (pos n) l.flow) [
  | none ↦ none
  | some (sent, f) ↦ some (record l { flow = f; credited = l.credited + n })
]
happen (receive n) l =
    let (taken, f) = take_inflow n l.flow in
    some (record l { flow = f; accepted = if taken then l.accepted + n else l.accepted })

unfoldable pub run : List Event → Ledger → Option Ledger
run [] l = some l
run (e ∷ es) l = happen e l >>=? run es

-- The sizes that an int and a uint32 of the program can have.
abbrev pub IsEvent : Event → Type 0
IsEvent (credit n) = n < 2 ^ 62
IsEvent (receive n) = n < 2 ^ 32

-- The balance of a ledger: the window, known to the peer or not, and what was accepted make up the
-- initial window and what was credited. The window is within the protocol's limit.
pub record Balances (start : ℕ) (l : Ledger) : Type 0 where
  pub known : neg_part l.flow.avail ≡ 0
  pub waiting : neg_part l.flow.unsent ≡ 0
  pub fits : pos_part l.flow.avail + pos_part l.flow.unsent ≤ max_window
  pub balance : pos_part l.flow.avail + pos_part l.flow.unsent + l.accepted ≡ start + l.credited

as_window :
    (f : Inflow)
    → neg_part f.avail ≡ 0
    → neg_part f.unsent ≡ 0
    → f ≡ window (pos_part f.avail) (pos_part f.unsent)
as_window f h k = ground arith

happen-Balances :
    (start : ℕ) (e : Event) (l l' : Ledger)
    → IsEvent e
    → Balances start l
    → happen e l ≡ some l'
    → Balances start l'
unfolding happen
happen-Balances start (credit n) l l' h b e = ground (
  arith,
  as_window l.flow b.known b.waiting,
  add_inflow-add_window n (pos_part l.flow.avail) (pos_part l.flow.unsent) h b.fits,
)
happen-Balances start (receive n) l l' h b e = ground (
  arith,
  as_window l.flow b.known b.waiting,
  take_inflow-window n (pos_part l.flow.avail) (pos_part l.flow.unsent) h b.fits,
)

-- Whatever the user consumes and the peer sends, in sizes that an int below 2^62 and a uint32 hold,
-- unless the code panics: the inbound window, known to the peer or waiting, and the bytes accepted
-- make up the initial window and the bytes credited, and the window stays within 2^31 - 1.
pub run-Balances :
    (start : ℕ) (es : List Event) (l l' : Ledger)
    → All IsEvent es
    → Balances start l
    → run es l ≡ some l'
    → Balances start l'
unfolding run
run-Balances start [] l l' h b e = subst (Balances start) (some-injective l l' e) b
run-Balances start (x ∷ es) l l' (hx, hes) b e =
    let (m, first, later) = >>=?-eq-some (happen x l) (run es) e in
    run-Balances start es m l' hes (happen-Balances start x l m hx b first) later
