-- ===== src/Http2/ClientConn/BodyExamples.antt =====
-- A body that is received, read and closed, with its books.
use req.Base.{
  ℕ, ◌≡◌, ◌==◌, false, true, none, List, [], ◌∷◌, length, replicate, length-replicate, arith,
}
use req.Base.Bytes.{Bytes}
use req.Base.Int.{pos}
use req.Http2.DataBuffer.{new_data_buffer}
use req.Http2.Flow.{init_inflow}
use req.Http2.Pipe.{Pipe, new_pipe}
use req.Http2.Pipe.Body.{data_buffer}
use req.Http2.ClientConn.{ClientStream}
use req.Http2.ClientConn.Bodies.{Body}
use req.Http2.ClientConn.Accounts.{Errors, Op, frame, gone, read, close, run}
use req.Http2.ClientConn.Books.{Ends, opening, run-Accounted}
use req.Base.{◌^◌, ◌≤◌}
use req.Base.Int.{negsuc}
use req.Http2.ClientConn.Scratch.{
  frame_scratch_buffer_len, buf_pool_index, OfPool, frame_scratch_buffer_len-buf_pool_index,
}

abbrev fresh : ℕ → Bytes
fresh n = replicate n 0

fresh_sized : (n : ℕ) → length (fresh n) ≡ n
fresh_sized n = length-replicate n 0

abbrev errors : Errors ℕ ℕ
errors = record {
  is_eof = λ e. e == 1;
  eof = 1;
  unexpected = 2;
  too_long = 3;
  closed = 4;
  copy = 0;
}

abbrev body_stream : ClientStream (Pipe (data_buffer fresh fresh_sized) ℕ ℕ)
body_stream = record {
  id = 1;
  flow = pos 0;
  inflow = init_inflow (pos 0);
  abort = none;
  has_req_body = false;
  req_body_closed = false;
  is_head = false;
  past_headers = true;
  read_closed = false;
  read_aborted = false;
  buf_pipe = new_pipe (data_buffer fresh fresh_sized) ℕ ℕ;
}

abbrev body : Body (data_buffer fresh fresh_sized) ℕ ℕ
body = record { read_err = none; bytes_remain = none }

-- A padded frame, one of another stream, a read of some, `Close`, and a frame that comes too late.
abbrev ops : List Op
ops =
    frame 8 (7 ∷ 8 ∷ 9 ∷ []) false
    ∷ gone 100
    ∷ read 2
    ∷ close
    ∷ frame 4 (1 ∷ 2 ∷ 3 ∷ 4 ∷ []) true
    ∷ []

run-Accounted_example :
    let lib = data_buffer fresh fresh_sized in
    Ends lib ℕ ℕ errors 65535 (
      run lib ℕ ℕ errors ops
        (opening lib ℕ ℕ errors 65535 1000 (new_data_buffer (pos 3)) body_stream body))
run-Accounted_example =
    run-Accounted fresh fresh_sized ℕ ℕ errors 65535 1000 (pos 3) body_stream body ops (omega arith)
      (omega arith)
      ((omega arith, omega arith), (omega arith, (tt, (tt, ((omega arith, omega arith), tt)))))
      (tt, tt)

-- A peer that takes large frames, and a body of unknown length.
frame_scratch_buffer_len-buf_pool_index_example :
    (n : ℕ) × (frame_scratch_buffer_len (negsuc 0) (2 ^ 24) ≡ pos n)
    × (1 ≤ n)
    × (n ≤ 2 ^ 19)
    × (buf_pool_index n ≤ 5)
    × OfPool n (buf_pool_index n)
frame_scratch_buffer_len-buf_pool_index_example =
    frame_scratch_buffer_len-buf_pool_index (negsuc 0) (2 ^ 24)
