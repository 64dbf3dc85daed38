-- ===== src/Http2/Pipe.antt =====
-- internal/http2/pipe.go: the pipe between the frames of a stream and the reader of its body.
-- The mutex makes each method one step. A `Read` that has to wait gives up the mutex: it is a step
-- that changes nothing, taken again after a signal. `donec` is `none` before the channel is made,
-- and then whether it is closed. `E` are the errors and `F` what `readFn` may be.
pub mod Spec
pub mod Holds
pub mod Refine
pub mod Account
pub mod Body
mod Examples
use req.Base.{
  ℕ, ◌+◌, ◌≡◌, ◌≢◌, Bool, true, false, ◌||◌, ltb, Option, none, some, if◌then◌else◌, List, [], ◌++◌,
  length, take, drop,
}
use req.Base.Bytes.{Bytes}

-- `pipeBuffer`: its methods, of which `none` is a panic or an error, and what a pipe relies on. `buffered` is
-- what a buffer holds.
pub record PipeBuffer : Type 1 where
  pub Buffer : Type 0
  pub len : Buffer → ℕ
  pub write : Bytes → Buffer → Option (ℕ × Buffer)
  pub read : ℕ → Buffer → Option (Bytes × Buffer)
  pub buffered : Buffer → Bytes
  pub IsGood : Buffer → Type 0
  pub len_law : (b : Buffer) → IsGood b → len b ≡ length (buffered b)
  pub write_law :
      (p : Bytes) (b : Buffer)
      → IsGood b
      → (b' : Buffer) × (write p b ≡ some (length p, b'))
        × IsGood b'
        × (buffered b' ≡ buffered b ++ p)
  pub read_law :
      (k : ℕ) (b : Buffer)
      → IsGood b
      → buffered b ≢ []
      → (b' : Buffer) × (read k b ≡ some (take k (buffered b), b'))
        × IsGood b'
        × (buffered b' ≡ drop k (buffered b))

-- What a call returns. A `Read` has the bytes, or the error with the function that it has run.
pub data Outcome (E F : Type 0) : Type 0 where
  nothing waits fails write_closed write_uninitialized : Outcome E F
  count : ℕ → Outcome E F
  bytes : Bytes → Outcome E F
  error : E → Option F → Outcome E F
  current_err : Option E → Outcome E F
  channel : Bool → Outcome E F

pub data Call (E F : Type 0) : Type 0 where
  read_call : ℕ → Call E F
  write_call : Bytes → Call E F
  close_call break_call : E → Call E F
  close_code_call : E → F → Call E F
  len_call err_call done_call : Call E F

abbrev pub is_some {ℓ} : {A : Type ℓ} → Option A → Bool
is_some none = false
is_some (some a) = true

module _ (lib : PipeBuffer) (E F : Type 0) where
  pub record Pipe : Type 0 where
    pub b : Option lib.Buffer
    pub unread : ℕ
    pub err : Option E
    pub break_err : Option E
    pub donec : Option Bool
    pub read_fn : Option F

  -- The zero value.
  abbrev pub new_pipe : Pipe
  new_pipe = record {
    b = none;
    unread = 0;
    err = none;
    break_err = none;
    donec = none;
    read_fn = none;
  }

  -- `setBuffer`
  unfoldable pub set_buffer : lib.Buffer → Pipe → Pipe
  set_buffer b p = if is_some p.err || is_some p.break_err then p else record p { b = some b }

  -- `Len`
  unfoldable pub len : Pipe → ℕ
  len p = elim p.b [ none ↦ p.unread | some b ↦ lib.len b ]

  -- What `p.b.Read(d)` gives, and what `p.b.Write(d)`.
  unfoldable pub read_result : Option (Bytes × lib.Buffer) → Pipe → Outcome E F × Pipe
  read_result none p = (fails, p)
  read_result (some (q, b)) p = (bytes q, record p { b = some b })

  unfoldable pub write_result : Option (ℕ × lib.Buffer) → Pipe → Outcome E F × Pipe
  write_result none p = (fails, p)
  write_result (some (n, b)) p = (count n, record p { b = some b })

  -- `Read` behind the test of the buffer.
  unfoldable pub read_end : Option E → Pipe → Outcome E F × Pipe
  read_end none p = (waits, p)
  read_end (some e) p = (error e p.read_fn, record p { b = none; read_fn = none })

  unfoldable pub read_buffer : ℕ → Option lib.Buffer → Pipe → Outcome E F × Pipe
  unfolding read_result read_end
  read_buffer k none p = read_end p.err p
  read_buffer k (some b) p =
      if ltb 0 (lib.len b) then read_result (lib.read k b) p else read_end p.err p

  -- `Read`
  unfoldable pub read : ℕ → Pipe → Outcome E F × Pipe
  unfolding read_buffer
  read k p = elim p.break_err [ some e ↦ (error e none, p) | none ↦ read_buffer k p.b p ]

  unfoldable pub write_buffer : Bytes → Option lib.Buffer → Pipe → Outcome E F × Pipe
  unfolding write_result
  write_buffer d none p = (write_uninitialized, p)
  write_buffer d (some b) p = write_result (lib.write d b) p

  -- `Write`
  unfoldable pub write : Bytes → Pipe → Outcome E F × Pipe
  unfolding write_buffer
  write d p =
      if is_some p.err || is_some p.break_err then (write_closed, p) else write_buffer d p.b p

  -- `closeDoneLocked`
  unfoldable pub close_done_locked : Pipe → Pipe
  close_done_locked p = elim p.donec [ none ↦ p | some closed ↦ record p { donec = some true } ]

  -- `closeWithError` on `p.err`, and on `p.breakErr`.
  unfoldable pub close_with_error_and_code : E → Option F → Pipe → Pipe
  unfolding close_done_locked
  close_with_error_and_code e fn p =
      if is_some p.err then p else close_done_locked (record p { read_fn = fn; err = some e })

  unfoldable pub break_with_error : E → Pipe → Pipe
  unfolding close_done_locked
  break_with_error e p =
      if is_some p.break_err
      then p
      else close_done_locked (record p {
        read_fn = none;
        unread = elim p.b [ none ↦ p.unread | some b ↦ p.unread + lib.len b ];
        b = none;
        break_err = some e;
      })

  -- `Err`
  unfoldable pub current : Pipe → Option E
  current p = elim p.break_err [ some e ↦ some e | none ↦ p.err ]

  -- `Done`: whether the channel that it returns is closed.
  unfoldable pub done : Pipe → Bool × Pipe
  done p = elim p.donec [
    | some closed ↦ (closed, p)
    | none ↦
        let closed = is_some p.err || is_some p.break_err in
        (closed, record p { donec = some closed })
  ]

  -- One call, as any goroutine may make it.
  unfoldable pub step : Call E F → Pipe → Outcome E F × Pipe
  unfolding read write close_with_error_and_code break_with_error len current done
  step (read_call k) p = read k p
  step (write_call d) p = write d p
  step (close_call e) p = (nothing, close_with_error_and_code e none p)
  step (close_code_call e fn) p = (nothing, close_with_error_and_code e (some fn) p)
  step (break_call e) p = (nothing, break_with_error e p)
  step len_call p = (count (len p), p)
  step err_call p = (current_err (current p), p)
  step done_call p = let (closed, p') = done p in (channel closed, p')
