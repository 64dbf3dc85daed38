-- ===== src/Http2/Flow/Outbound.antt =====
-- The outbound windows of internal/http2/flow.go.
use req.Base.{ℕ, ◌^◌, ◌<◌, ◌≡◌, Bool, true, false, ltb, Option, none, some, if◌then◌else◌, arith}
use req.Base.Int.{ℤ, pos, pos_part, neg_part, ◌+ℤ◌, ◌-ℤ◌, ltb_ℤ, signed, unsigned, IsInt32}
use req.Http2.Flow.{Outflow, take_outflow, add_outflow}
use req.Base.{◌&&◌, leb}

-- Whether an int32 holds an integer.
abbrev pub fits_int32 : ℤ → Bool
fits_int32 a = ltb (pos_part a) (2 ^ 31) && leb (neg_part a) (2 ^ 31)

-- For an int32 window and an int32 increment of either sign, outflow.add decides by the wrapped sum
-- alone whether an int32 holds the true sum: if so the window becomes the true sum, and if not it
-- is left as it was.
pub add_outflow_exact :
    (f : Outflow) (n : ℤ)
    → IsInt32 f.n
    → IsInt32 n
    → add_outflow n f
      ≡ (if fits_int32 (f.n +ℤ n) then (true, record f { n = f.n +ℤ n }) else (false, f))
unfolding add_outflow signed unsigned ◌+ℤ◌
add_outflow_exact f n hf hn = ground arith

-- The smaller of the two windows.
abbrev pub min_window : Outflow → ℤ
min_window f = elim f.conn [ none ↦ f.n | some c ↦ if ltb_ℤ f.n c then f.n else c ]

abbrev pub IsConn : Option ℤ → Type 0
IsConn none = Unit
IsConn (some c) = IsInt32 c

-- For a request of 0 to 2^31 - 1 and int32 windows, outflow.take panics exactly if the stream's
-- window or the connection's is smaller, and otherwise takes the request from both without wrap-
-- around.
pub take_outflow_exact :
    (f : Outflow) (n : ℕ)
    → n < 2 ^ 31
    → IsInt32 f.n
    → IsConn f.conn
    → take_outflow (pos n) f ≡ (
        if ltb_ℤ (min_window f) (pos n)
        then none
        else some (record {
          n = f.n -ℤ pos n;
          conn = elim f.conn [ none ↦ none | some c ↦ some (c -ℤ pos n) ];
        }))
unfolding take_outflow signed unsigned ◌-ℤ◌
take_outflow_exact f n hn hf hc = ground arith
