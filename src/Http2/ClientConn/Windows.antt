-- ===== src/Http2/ClientConn/Windows.antt =====
-- internal/http2/transport.go: the arithmetic of the outbound windows, against windows that are
-- integers of any size.
use req.Base.{
  min, ◌⊎◌, ℕ, ◌-◌, ◌^◌, ◌<◌, ◌≤◌, ◌≡◌, refl, ◌∙◌, true, false, Bool-cases, none, some, inl, inr,
  arith, if◌then◌else◌,
}
use req.Base.Int.{
  ℤ, pos, negsuc, pos_part, neg_part, ◌+ℤ◌, ◌-ℤ◌, ◌≤ℤ◌, ltb_ℤ, int32, signed, unsigned, IsInt32,
  int_laws, one_part,
}
use req.Http2.Flow.{Outflow, available, take_outflow, add_outflow}
use req.Http2.Flow.Outbound.{min_window, fits_int32, add_outflow_exact, take_outflow_exact}
use req.Http2.ClientConn.Control.{limit_take}

-- A stream's window `flow` against the windows that the peer gives: `initial` to each stream, and
-- `offset` more, or less, to this one.
pub record WithinStream (initial offset flow : ℤ) : Type 0 where
  pub int : IsInt32 flow
  pub below : flow ≤ℤ initial +ℤ offset
  pub not_far : initial ≤ℤ flow +ℤ pos (2 ^ 31 - 1)

abbrev stream_window : ℤ → Outflow
stream_window n = record { n = n; conn = none }

int32-pos : (n : ℕ) → n < 2 ^ 31 → int32 (pos n) ≡ pos n
unfolding signed unsigned
int32-pos n h = ground arith

open_window :
    (n : ℕ) → n < 2 ^ 31 → (add_outflow (int32 (pos n)) (stream_window (pos 0))).1.n ≡ pos n
unfolding add_outflow signed unsigned ◌+ℤ◌
open_window n h = ground arith

pub open-WithinStream :
    (n : ℕ) (offset : ℤ)
    → n < 2 ^ 31
    → pos 0 ≤ℤ offset
    → WithinStream (pos n) offset ((add_outflow (int32 (pos n)) (stream_window (pos 0))).1.n)
open-WithinStream n offset h fresh =
    rw (open_window n h)
      (record { int = omega arith; below = omega int_laws; not_far = omega int_laws })

-- What an addition leaves, with or without room for it.
added :
    (flow n : ℤ)
    → IsInt32 flow
    → IsInt32 n
    → add_outflow n (stream_window flow) ≡ (
        if fits_int32 (flow +ℤ n)
        then (true, stream_window (flow +ℤ n))
        else (false, stream_window flow))
added flow n hf hn = add_outflow_exact (stream_window flow) n hf hn

fits : (a : ℤ) → fits_int32 a ≡ true → IsInt32 a
fits a h = ground arith

outside : (a : ℤ) → fits_int32 a ≡ false → (2 ^ 31 ≤ pos_part a) ⊎ (2 ^ 31 < neg_part a)
outside a h = ground arith

delta_lem :
    (new old : ℕ)
    → new < 2 ^ 31
    → old < 2 ^ 31
    → int32 (int32 (pos new) -ℤ int32 (pos old)) ≡ pos new -ℤ pos old
unfolding signed unsigned ◌-ℤ◌
delta_lem new old hn ho = ground arith

delta_int : (new old : ℕ) → new < 2 ^ 31 → old < 2 ^ 31 → IsInt32 (pos new -ℤ pos old)
unfolding ◌-ℤ◌
delta_int new old hn ho = ground arith

-- A new initial window, with the old one's difference added to a window.
pub shift-WithinStream :
    (new old : ℕ) (offset flow : ℤ)
    → new < 2 ^ 31
    → old < 2 ^ 31
    → WithinStream (pos old) offset flow
    → WithinStream
        (pos new)
        offset
        ((add_outflow (int32 (int32 (pos new) -ℤ int32 (pos old))) (stream_window flow)).1.n)
shift-WithinStream new old offset flow hn ho w =
    let delta = pos new -ℤ pos old in
    let d : IsInt32 delta = delta_int new old hn ho in
    elim (Bool-cases (fits_int32 (flow +ℤ delta))) [
      | inl e ↦
          rw (delta_lem new old hn ho, added flow delta w.int d, e)
            (record {
              int = fits (flow +ℤ delta) e;
              below = omega (int_laws, w.below);
              not_far = omega (int_laws, w.not_far);
            })
      | inr e ↦
          rw (delta_lem new old hn ho, added flow delta w.int d, e)
            (elim (outside (flow +ℤ delta) e) [
              | inl big ↦ record {
                int = w.int;
                below =
                    omega (int_laws, w.below, w.int, big, one_part (flow +ℤ delta), one_part flow);
                not_far =
                    omega
                      (int_laws, w.not_far, w.int, big, one_part (flow +ℤ delta), one_part flow);
              }
              | inr small ↦ absurd (
                  omega
                    (int_laws, w.not_far, w.int, small, one_part (flow +ℤ delta), one_part flow))
            ])
    ]

-- An increment of the peer, which the window takes up or not.
pub grow-WithinStream :
    (increment : ℕ) (initial offset flow : ℤ)
    → increment < 2 ^ 31
    → WithinStream initial offset flow
    → WithinStream initial
        (offset +ℤ pos increment)
        ((add_outflow (int32 (pos increment)) (stream_window flow)).1.n)
      × WithinStream initial (offset +ℤ pos increment) flow
grow-WithinStream increment initial offset flow h w =
    let still : WithinStream initial (offset +ℤ pos increment) flow = record {
      int = w.int;
      below = omega (int_laws, w.below);
      not_far = w.not_far;
    } in
    let d : IsInt32 (pos increment) = (h, omega arith) in
    (
      elim (Bool-cases (fits_int32 (flow +ℤ pos increment))) [
        | inl e ↦
            rw (int32-pos increment h, added flow (pos increment) w.int d, e)
              (record {
                int = fits (flow +ℤ pos increment) e;
                below = omega (int_laws, w.below);
                not_far = omega (int_laws, w.not_far);
              })
        | inr e ↦ rw (int32-pos increment h, added flow (pos increment) w.int d, e) still
      ],
      still,
    )

pub refused_window :
    (increment : ℕ) (flow : ℤ)
    → increment < 2 ^ 31
    → IsInt32 flow
    → (add_outflow (int32 (pos increment)) (stream_window flow)).0 ≡ false
    → pos (2 ^ 31) ≤ℤ flow +ℤ pos increment
refused_window increment flow h int refused =
    let d : IsInt32 (pos increment) = (h, omega arith) in
    elim (Bool-cases (fits_int32 (flow +ℤ pos increment))) [
      | inl e ↦
          absurd (cc (rw (int32-pos increment h, added flow (pos increment) int d, e) at refused))
      | inr e ↦ elim (outside (flow +ℤ pos increment) e) [
        | inl big ↦ omega (int_laws, big, one_part (flow +ℤ pos increment))
        | inr small ↦
            absurd (omega (int_laws, int, small, one_part (flow +ℤ pos increment), one_part flow))
      ]
    ]

pub grow_conn_window :
    (increment : ℕ) (flow window : ℤ)
    → increment < 2 ^ 31
    → IsInt32 flow
    → flow ≤ℤ window
    → let f = (add_outflow (int32 (pos increment)) (stream_window flow)).1.n in
      IsInt32 f × (f ≤ℤ window +ℤ pos increment)
grow_conn_window increment flow window h int below =
    let d : IsInt32 (pos increment) = (h, omega arith) in
    elim (Bool-cases (fits_int32 (flow +ℤ pos increment))) [
      | inl e ↦
          rw (int32-pos increment h, added flow (pos increment) int d, e)
            (fits (flow +ℤ pos increment) e, omega int_laws)
      | inr e ↦
          rw (int32-pos increment h, added flow (pos increment) int d, e) (int, omega int_laws)
    ]

-- What is taken is not negative, and fits both windows.
pub record Takes (flow conn n : ℤ) : Type 0 where
  pub not_negative : pos 0 ≤ℤ n
  pub of_stream : n ≤ℤ flow
  pub of_conn : n ≤ℤ conn
  pub runs :
      take_outflow n (record { n = flow; conn = some conn })
      ≡ some (record { n = flow -ℤ n; conn = some (conn -ℤ n) })

limit_take-min :
    (a max_bytes max_frame : ℕ)
    → a < 2 ^ 31
    → max_frame < 2 ^ 31
    → limit_take (pos a) max_bytes max_frame ≡ pos (min a (min max_bytes max_frame))
unfolding limit_take signed unsigned
limit_take-min a max_bytes max_frame h hm = ground arith

available_pos :
    (flow c : ℤ)
    → IsInt32 flow
    → IsInt32 c
    → ltb_ℤ (pos 0) (available (record { n = flow; conn = some c })) ≡ true
    → (a : ℕ) × (available (record { n = flow; conn = some c }) ≡ pos a)
      × (a < 2 ^ 31)
      × (pos a ≤ℤ flow)
      × (pos a ≤ℤ c)
unfolding available
available_pos (pos f) (pos c) hf hc h =
    (min f c, ground arith, omega arith, omega arith, omega arith)
available_pos (negsuc f) (pos c) hf hc h = absurd (ground arith)
available_pos (pos f) (negsuc c) hf hc h = absurd (ground arith)
available_pos (negsuc f) (negsuc c) hf hc h = absurd (ground arith)

not_smaller :
    (flow c : ℤ) (m : ℕ)
    → pos m ≤ℤ flow
    → pos m ≤ℤ c
    → ltb_ℤ (min_window (record { n = flow; conn = some c })) (pos m) ≡ false
not_smaller flow c m hf hc = ground arith

pub take-Takes :
    (flow c : ℤ) (max_bytes max_frame : ℕ)
    → IsInt32 flow
    → IsInt32 c
    → max_frame < 2 ^ 31
    → ltb_ℤ (pos 0) (available (record { n = flow; conn = some c })) ≡ true
    → Takes flow c (limit_take (available (record { n = flow; conn = some c })) max_bytes max_frame)
take-Takes flow c max_bytes max_frame hf hc hm some_left =
    let (a, e, small, in_flow, in_conn) = available_pos flow c hf hc some_left in
    let m = min a (min max_bytes max_frame) in
    let fits_both : ltb_ℤ (min_window (record { n = flow; conn = some c })) (pos m) ≡ false =
      not_smaller flow c m (omega (arith, in_flow)) (omega (arith, in_conn)) in
    rw (e, limit_take-min a max_bytes max_frame small hm)
      (record {
        not_negative = omega arith;
        of_stream = omega (arith, in_flow);
        of_conn = omega (arith, in_conn);
        runs =
            take_outflow_exact (record { n = flow; conn = some c }) m (omega (arith, small)) hf hc
            ∙ rw fits_both refl;
      })
