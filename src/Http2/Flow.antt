-- ===== src/Http2/Flow.antt =====
-- internal/http2/flow.go: the flow control windows. An int32 is an integer, and what is assigned to
-- one goes through `int32`. `none` is a panic.
pub mod Inbound
pub mod Outbound
mod Examples
use req.Base.{ℕ, ◌^◌, ◌-◌, Bool, true, false, ◌&&◌, ◌||◌, ltb, Option, none, some, if◌then◌else◌}
use req.Base.Int.{ℤ, pos, negsuc, ◌+ℤ◌, ◌-ℤ◌, ltb_ℤ, int32, int64, uint32_of}

abbrev pub inflow_min_refresh : ℕ
inflow_min_refresh = 4096

abbrev pub max_window : ℕ
max_window = 2 ^ 31 - 1

pub record Inflow : Type 0 where
  pub avail : ℤ
  pub unsent : ℤ

-- `inflow.init` on a zero value
unfoldable pub init_inflow : ℤ → Inflow
init_inflow n = record { avail = n; unsent = pos 0 }

-- The end of `inflow.add`, where `unsent` is the sum: send nothing yet, or all of it.
unfoldable pub refresh : ℤ → Inflow → ℤ × Inflow
refresh unsent f =
    let u = int32 unsent in
    if ltb_ℤ u (pos inflow_min_refresh) && ltb_ℤ u f.avail
    then (pos 0, record f { unsent = u })
    else (u, record { avail = int32 (f.avail +ℤ u); unsent = pos 0 })

-- `inflow.add`
unfoldable pub add_inflow : ℤ → Inflow → Option (ℤ × Inflow)
unfolding refresh
add_inflow n f =
    let unsent = int64 (f.unsent +ℤ n) in
    if ltb_ℤ n (pos 0)
    then none
    else if ltb_ℤ (pos max_window) (int64 (unsent +ℤ f.avail))
    then none
    else some (refresh unsent f)

-- `inflow.take`
unfoldable pub take_inflow : ℕ → Inflow → Bool × Inflow
take_inflow n f =
    if ltb (uint32_of f.avail) n
    then (false, f)
    else (true, record f { avail = int32 (f.avail -ℤ int32 (pos n)) })

unfoldable pub take_inflows : Inflow → Inflow → ℕ → Bool × Inflow × Inflow
take_inflows f1 f2 n =
    if ltb (uint32_of f1.avail) n || ltb (uint32_of f2.avail) n then (false, f1, f2) else (
      true,
      record f1 { avail = int32 (f1.avail -ℤ int32 (pos n)) },
      record f2 { avail = int32 (f2.avail -ℤ int32 (pos n)) },
    )

-- The window of a stream with what `conn` points to, or of the connection with `conn` nil.
pub record Outflow : Type 0 where
  pub n : ℤ
  pub conn : Option ℤ

-- `outflow.available`
unfoldable pub available : Outflow → ℤ
available f = elim f.conn [ none ↦ f.n | some c ↦ if ltb_ℤ c f.n then c else f.n ]

-- `outflow.take`
unfoldable pub take_outflow : ℤ → Outflow → Option Outflow
unfolding available
take_outflow n f =
    if ltb_ℤ (available f) n
    then none
    else some (record {
      n = int32 (f.n -ℤ n);
      conn = elim f.conn [ none ↦ none | some c ↦ some (int32 (c -ℤ n)) ];
    })

unfoldable pub same_bool : Bool → Bool → Bool
same_bool true b = b
same_bool false true = false
same_bool false false = true

-- `outflow.add`
unfoldable pub add_outflow : ℤ → Outflow → Bool × Outflow
unfolding same_bool
add_outflow n f =
    let sum = int32 (f.n +ℤ n) in
    if same_bool (ltb_ℤ n sum) (ltb_ℤ (pos 0) f.n) then (true, record f { n = sum }) else (false, f)
