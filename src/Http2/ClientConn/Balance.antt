-- ===== src/Http2/ClientConn/Balance.antt =====
-- internal/http2/transport.go: what an account keeps, and lemmas on the connection's window.
use req.Base.{
  ℕ, ◌+◌, ◌-◌, ◌^◌, ◌<◌, ◌≤◌, ◌≡◌, refl, ap, Bool, true, false, ◌&&◌, ltb, Bool-cases, if-either,
  Option, none, some, ◌>>=?◌, inl, inr, if◌then◌else◌, length, arith,
}
use req.Base.Int.{ℤ, pos, pos_part}
use req.Http2.Flow.{Inflow, max_window, add_inflow}
use req.Http2.Flow.Inbound.{window, add_inflow-add_window, take_inflow-window}
use req.Http2.Pipe.{PipeBuffer, is_some}
use req.Http2.Pipe.Spec.{Promise}
use req.Http2.Pipe.Holds.{Holds}
use req.Http2.ClientConn.Bodies.{FrameEnd, handled, closes, process_data_gone}
use req.Http2.ClientConn.Accounts.{Account, book_gone}
use req.Http2.Errors.{Error, connection, err_code_flow_control}
use mathlib.Core.Option.{some-injective}

-- A window behind `taken` bytes of the peer and `given` of the user, with the increment sent.
pub record Credited (a u taken given sent a' u' : ℕ) : Type 0 where
  pub known : a' + taken ≡ a + sent
  pub whole : a' + u' + taken ≡ a + u + given

abbrev pub Credits : ℕ → ℕ → ℕ → ℕ → Option (ℤ × Inflow) → Type 0
Credits a u taken given r =
    (sent : ℕ) × (a' : ℕ) × (u' : ℕ) × (r ≡ some (pos sent, window a' u'))
    × Credited a u taken given sent a' u'

pub credit_window :
    (n taken a c u : ℕ)
    → c + taken ≡ a
    → n < 2 ^ 62
    → c + u + n ≤ max_window
    → Credits a u taken n (add_inflow (pos n) (window c u))
credit_window n taken a c u same small fits =
    let no_panic : ltb (2 ^ 31 - 1) (c + u + n) ≡ false = ground (arith, fits) in
    rw (add_inflow-add_window n c u small (omega (arith, fits)), no_panic)
      (if-either (Credits a u taken n) (ltb (u + n) 4096 && ltb (u + n) c)
        (some (pos 0, window c (u + n))) (some (pos (u + n), window (c + u + n) 0))
        (0, c, u + n, refl, record { known = omega (arith, same); whole = omega (arith, same) })
        (
          u + n,
          c + u + n,
          0,
          refl,
          record { known = omega (arith, same); whole = omega (arith, same) },
        ))

-- A frame of a stream that is gone.
abbrev pub GoneGives : ℕ → ℕ → ℕ → Option (FrameEnd × (ℤ × Inflow)) → Type 0
GoneGives a u size none = ⊥
GoneGives a u size (some (handled, r)) = Credits a u size size (some r)
GoneGives a u size (some (closes e, r)) = Unit

gone_refused :
    (size a u : ℕ) (e : Error) (r : Option (ℤ × Inflow))
    → Credits a u 0 size r
    → GoneGives a u size (r >>=? λ x. some (closes e, (pos 0, x.1)))
gone_refused size a u e none (sent, a', u', goes, c) = absurd (ground arith)
gone_refused size a u e (some x) c = tt

gone_taken :
    (size a u : ℕ) (r : Option (ℤ × Inflow))
    → Credits a u size size r
    → GoneGives a u size (r >>=? λ x. some (handled, x))
gone_taken size a u none (sent, a', u', goes, c) = absurd (ground arith)
gone_taken size a u (some x) c = c

pub gone_window :
    (size a u : ℕ)
    → size < 2 ^ 24
    → a + u + size ≤ max_window
    → GoneGives a u size (process_data_gone 0 1 size (window a u))
unfolding process_data_gone
gone_window size a u small fits = elim (Bool-cases (ltb 0 size)) [
  | inr e ↦ rw e (0, a, u, refl, record { known = ground (arith, e); whole = ground (arith, e) })
  | inl e ↦
      let take = take_inflow-window size a u (omega (arith, small)) (omega (arith, fits)) in
      elim (Bool-cases (ltb a size)) [
        | inl f ↦
            rw (e, take, f)
              (gone_refused size a u (connection err_code_flow_control)
                (add_inflow (pos size) (window a u))
                (credit_window size 0 a a u (omega arith) (omega (arith, small))
                  (omega (arith, fits))))
        | inr f ↦
            rw (e, take, f)
              (gone_taken size a u (add_inflow (pos size) (window (a - size) u)) (
                credit_window size size a (a - size) u (ground (arith, f)) (omega (arith, small))
                  (ground (arith, f, fits))))
      ]
]

module _ (lib : PipeBuffer) (E F : Type 0) where
  -- What is in the pipe for the reader.
  abbrev pub kept : Promise E F → ℕ
  kept s = if is_some s.broken then 0 else length s.left

  pub record Balances (start : ℕ) (unbroken : Bool) (s : Account lib E F) : Type 0 where
    pub a : ℕ
    pub u : ℕ
    pub b : ℕ
    pub v : ℕ
    pub promise : Promise E F
    pub conn_is : s.conn ≡ window a u
    pub stream_is : s.cs.inflow ≡ window b v
    pub holds : Holds lib E F s.cs.buf_pipe promise
    pub known : a + s.book.received ≡ start + s.book.granted + s.book.dropped
    pub whole : a + u + kept promise + s.book.cut ≡ start
    pub stream_fits : b + v + kept promise ≤ max_window
    pub open_until : unbroken ≡ true → promise.broken ≡ none

  -- What a step keeps.
  abbrev pub Steps : ℕ → Bool → Option (Bool × Account lib E F) → Type 0
  Steps start unbroken r =
      (goes : Bool) × (s : Account lib E F) × (r ≡ some (goes, s)) × Balances start unbroken s

  pub book_gone-Steps :
      (start : ℕ) (unbroken : Bool) (size : ℕ) (s : Account lib E F) (h : Balances start unbroken s)
      (r : Option (FrameEnd × (ℤ × Inflow)))
      → GoneGives h.a h.u size r
      → Steps start unbroken (book_gone lib E F size s r)
  book_gone-Steps start unbroken size s h none g = absurd g
  book_gone-Steps start unbroken size s h (some (closes e, r)) g = (false, s, refl, h)
  book_gone-Steps start unbroken size s h (some (handled, r)) (sent, a', u', e, c) =
      let same : r ≡ (pos sent, window a' u') = some-injective r (pos sent, window a' u') e in
      let granted : pos_part r.0 ≡ sent = ap (λ x. pos_part x.0) same in
      (
        true,
        record s {
          conn = r.1;
          book = record s.book {
            received = s.book.received + size;
            granted = s.book.granted + pos_part r.0;
          };
        },
        refl,
        record {
          a = a';
          u = u';
          b = h.b;
          v = h.v;
          promise = h.promise;
          conn_is = ap (λ x. x.1) same;
          stream_is = h.stream_is;
          holds = h.holds;
          known = omega (arith, h.known, c.known, granted);
          whole = omega (arith, h.whole, c.whole);
          stream_fits = h.stream_fits;
          open_until = h.open_until;
        },
      )
