-- ===== src/Http2/Pipe/Body.antt =====
-- The pipe of internal/http2/pipe.go over the buffer of databuffer.go, as a stream's body has it.
use req.Base.{
  ℕ, ◌≡◌, ◌≢◌, refl, ap, Option, none, some, inl, inr, List, [], ◌++◌, length, take, drop,
}
use req.Base.Bytes.{Bytes}
use req.Base.Int.{ℤ}
use req.Http2.DataBuffer
use req.Http2.DataBuffer.{DataBuffer, new_data_buffer, ReadResult, read_empty, fault, got}
use req.Http2.DataBuffer.View.{content, IsBuffer}
use req.Http2.DataBuffer.Append.{write-Appends}
use req.Http2.DataBuffer.Drain.{read-Drains}
use req.Http2.Pipe.{PipeBuffer, Call, new_pipe, set_buffer, len}
use req.Http2.Pipe.Spec.{new_promise}
use req.Http2.Pipe.Refine.{outcomes, promised, outcomes-promised}
use req.Http2.Pipe.Account.{after, written, received, written-received}

abbrev pub as_option : ReadResult → Option (Bytes × DataBuffer)
as_option (got p b) = some (p, b)
as_option read_empty = none
as_option fault = none

pub new_data_buffer-IsBuffer : (expected : ℤ) → IsBuffer (new_data_buffer expected)
unfolding DataBuffer.new_data_buffer
new_data_buffer-IsBuffer expected = record { sized = refl; chunked = tt; started = refl }

pub no_content : (expected : ℤ) → content (new_data_buffer expected) ≡ []
unfolding DataBuffer.new_data_buffer
no_content expected = refl

module _ (pool : ℕ → Bytes) (pool_sized : (n : ℕ) → length (pool n) ≡ n) where
  pub len_law : (b : DataBuffer) → IsBuffer b → DataBuffer.len b ≡ length (content b)
  unfolding DataBuffer.len
  len_law b h = h.sized

  pub read_law :
      (k : ℕ) (b : DataBuffer)
      → IsBuffer b
      → content b ≢ []
      → (b' : DataBuffer) × (as_option (DataBuffer.read k b) ≡ some (take k (content b), b'))
        × IsBuffer b'
        × (content b' ≡ drop k (content b))
  read_law k b h filled = elim (read-Drains k b h) [
    | inl (e, empty) ↦ absurd (filled empty)
    | inr (some_left, (b', e, h', rest)) ↦ (b', ap as_option e, h', rest)
  ]

  abbrev pub data_buffer : PipeBuffer
  data_buffer = record {
    Buffer = DataBuffer;
    len = DataBuffer.len;
    write = DataBuffer.write pool;
    read = λ k b. as_option (DataBuffer.read k b);
    buffered = content;
    IsGood = IsBuffer;
    len_law = len_law;
    write_law = write-Appends pool pool_sized;
    read_law = read_law;
  }

  module _ (E F : Type 0) (expected : ℤ) (cs : List (Call E F)) where
    -- Calls of Read, Write, CloseWithError, closeWithErrorAndCode, BreakWithError, Len, Err and
    -- Done, in any order, on a pipe with a new data buffer whose pool gives arrays of the size
    -- asked for, have the outcomes of a queue of bytes with two errors: Read gives the oldest
    -- bytes, waits if there are none, gives the error of the first close behind the bytes, running
    -- its code once, and the error of the first break at once; Write fails after either; Len counts
    -- the bytes left, those lost to a break included; Done's channel is closed once there is an
    -- error.
    pub body_outcomes-promised :
        outcomes data_buffer E F cs
          (set_buffer data_buffer E F (new_data_buffer expected) (new_pipe data_buffer E F))
        ≡ promised data_buffer E F cs (new_promise E F)
    body_outcomes-promised =
        outcomes-promised data_buffer E F (new_data_buffer expected) cs
          (new_data_buffer-IsBuffer expected) (no_content expected)

    -- After any calls on a pipe with a new data buffer whose pool gives arrays of the size asked
    -- for, the bytes that Write has accepted are those that Read has returned, in order, and then
    -- as many as Len counts.
    pub body_written-received :
        let p = set_buffer data_buffer E F (new_data_buffer expected) (new_pipe data_buffer E F) in
        let os = outcomes data_buffer E F cs p in
        (rest : Bytes) × (written data_buffer E F cs os ≡ received data_buffer E F os ++ rest)
        × (len data_buffer E F (after data_buffer E F cs p) ≡ length rest)
    body_written-received =
        written-received data_buffer E F (new_data_buffer expected) cs
          (new_data_buffer-IsBuffer expected) (no_content expected)
