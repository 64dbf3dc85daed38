-- ===== src/Http2/Pipe/Spec.antt =====
-- What the pipe of internal/http2/pipe.go promises: bytes in the order in which they were written,
-- an error of the writer behind them, an error of `BreakWithError` at once.
use req.Base.{ℕ, Bool, ◌||◌, Option, none, some, if◌then◌else◌, [], ◌∷◌, ◌++◌, length, take, drop}
use req.Base.Bytes.{Bytes}
use req.Http2.Pipe.{
  Outcome, nothing, waits, write_closed, count, bytes, error, current_err, channel, Call, read_call,
  write_call, close_call, break_call, close_code_call, len_call, err_call, done_call, is_some,
}

abbrev pub err_promise : {E : Type 0} → Option E → Option E → Option E
err_promise (some e) closed = some e
err_promise none closed = closed

module _ (E F : Type 0) where
  -- The bytes written and not read, the errors, and the function to run before an error.
  pub record Promise : Type 0 where
    pub left : Bytes
    pub closed : Option E
    pub broken : Option E
    pub code : Option F

  abbrev pub new_promise : Promise
  new_promise = record { left = []; closed = none; broken = none; code = none }

  abbrev pub over : Promise → Bool
  over s = is_some s.closed || is_some s.broken

  abbrev pub read_left : ℕ → Bytes → Option E → Promise → Outcome E F × Promise
  read_left k (b ∷ q) closed s = (bytes (take k (b ∷ q)), record s { left = drop k (b ∷ q) })
  read_left k [] none s = (waits, s)
  read_left k [] (some e) s = (error e s.code, record s { code = none })

  abbrev pub read_promise : ℕ → Option E → Promise → Outcome E F × Promise
  read_promise k (some e) s = (error e none, s)
  read_promise k none s = read_left k s.left s.closed s

  abbrev pub promise : Call E F → Promise → Outcome E F × Promise
  promise (read_call k) s = read_promise k s.broken s
  promise (write_call d) s =
      if over s then (write_closed, s) else (count (length d), record s { left = s.left ++ d })
  promise (close_call e) s =
      (nothing, if is_some s.closed then s else record s { closed = some e; code = none })
  promise (close_code_call e f) s =
      (nothing, if is_some s.closed then s else record s { closed = some e; code = some f })
  promise (break_call e) s =
      (nothing, if is_some s.broken then s else record s { broken = some e; code = none })
  promise len_call s = (count (length s.left), s)
  promise err_call s = (current_err (err_promise s.broken s.closed), s)
  promise done_call s = (channel (over s), s)
