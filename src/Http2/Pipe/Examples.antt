-- ===== src/Http2/Pipe/Examples.antt =====
-- internal/http2/pipe.go: a body that is written, closed and read, and one that is broken off.
use req.Base.{ℕ, ◌≡◌, List, [], ◌∷◌, ◌++◌, length, replicate, length-replicate}
use req.Base.Bytes.{Bytes}
use req.Base.Int.{pos}
use req.Http2.DataBuffer.{new_data_buffer}
use req.Http2.Pipe.{
  Call, read_call, write_call, close_call, break_call, len_call, done_call, new_pipe, set_buffer,
  len,
}
use req.Http2.Pipe.Spec.{new_promise}
use req.Http2.Pipe.Refine.{outcomes, promised}
use req.Http2.Pipe.Account.{after, written, received}
use req.Http2.Pipe.Body.{data_buffer, body_outcomes-promised, body_written-received}

abbrev fresh : ℕ → Bytes
fresh n = replicate n 0

fresh_sized : (n : ℕ) → length (fresh n) ≡ n
fresh_sized n = length-replicate n 0

abbrev calls : List (Call ℕ ℕ)
calls =
    write_call (7 ∷ 8 ∷ 9 ∷ [])
    ∷ read_call 2
    ∷ close_call 1
    ∷ read_call 2
    ∷ read_call 2
    ∷ done_call
    ∷ []

body_outcomes-promised_example :
    outcomes (data_buffer fresh fresh_sized) ℕ ℕ calls (
      set_buffer
        (data_buffer fresh fresh_sized)
        ℕ
        ℕ
        (new_data_buffer (pos 3))
        (new_pipe (data_buffer fresh fresh_sized) ℕ ℕ))
    ≡ promised (data_buffer fresh fresh_sized) ℕ ℕ calls (new_promise ℕ ℕ)
body_outcomes-promised_example = body_outcomes-promised fresh fresh_sized ℕ ℕ (pos 3) calls

abbrev broken_calls : List (Call ℕ ℕ)
broken_calls =
    write_call (7 ∷ 8 ∷ 9 ∷ []) ∷ read_call 1 ∷ break_call 4 ∷ read_call 2 ∷ len_call ∷ []

body_written-received_example :
    let lib = data_buffer fresh fresh_sized in
    let p = set_buffer lib ℕ ℕ (new_data_buffer (pos 3)) (new_pipe lib ℕ ℕ) in
    let os = outcomes lib ℕ ℕ broken_calls p in
    (rest : Bytes) × (written lib ℕ ℕ broken_calls os ≡ received lib ℕ ℕ os ++ rest)
    × (len lib ℕ ℕ (after lib ℕ ℕ broken_calls p) ≡ length rest)
body_written-received_example = body_written-received fresh fresh_sized ℕ ℕ (pos 3) broken_calls
