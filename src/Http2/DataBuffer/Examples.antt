-- ===== src/Http2/DataBuffer/Examples.antt =====
-- internal/http2/databuffer.go: runs of the model.
use req.Base.{
  arith, ℕ, ◌≡◌, refl, ◌⊎◌, ◌≢◌, [], ◌∷◌, ◌++◌, take, drop, replicate, length-replicate, some,
}
use req.Base.Bytes.{Bytes}
use req.Base.Int.{pos}
use req.Http2.DataBuffer.{DataBuffer, new_data_buffer, read, write, read_empty, got}
use req.Http2.DataBuffer.View.{content, IsBuffer}
use req.Http2.DataBuffer.Append.{write-Appends}
use req.Http2.DataBuffer.Drain.{read-Drains}
use req.Http2.DataBuffer.Queue.{
  write_op, read_op, len_op, outcomes, queue_outcomes, outcomes-queue_outcomes,
}

-- A pool of fresh arrays.
abbrev fresh : ℕ → Bytes
fresh n = replicate n 0

abbrev two_bytes_left : DataBuffer
two_bytes_left = record {
  chunks = (1 ∷ 2 ∷ 3 ∷ replicate 1021 0) ∷ [];
  r = 1;
  w = 3;
  size = 2;
  expected = pos 0;
}

two_bytes_left-IsBuffer : IsBuffer two_bytes_left
two_bytes_left-IsBuffer = record {
  sized = refl;
  chunked = (refl, omega arith);
  started = (omega arith, omega arith);
}

write-Appends_example :
    (b' : DataBuffer) × (write fresh (4 ∷ 5 ∷ []) two_bytes_left ≡ some (2, b'))
    × IsBuffer b'
    × (content b' ≡ content two_bytes_left ++ (4 ∷ 5 ∷ []))
write-Appends_example =
    write-Appends fresh (λ n. length-replicate n 0) (4 ∷ 5 ∷ []) two_bytes_left
      two_bytes_left-IsBuffer

read-Drains_example :
    ((read 5 two_bytes_left ≡ read_empty) × (content two_bytes_left ≡ []))
    ⊎ ((content two_bytes_left ≢ [])
        × ((b' : DataBuffer) × (read 5 two_bytes_left ≡ got (take 5 (content two_bytes_left)) b')
            × IsBuffer b'
            × (content b' ≡ drop 5 (content two_bytes_left))))
read-Drains_example = read-Drains 5 two_bytes_left two_bytes_left-IsBuffer

outcomes_example :
    outcomes fresh
      (write_op (7 ∷ 8 ∷ 9 ∷ []) ∷ read_op 2 ∷ len_op ∷ read_op 2 ∷ read_op 1 ∷ [])
      (new_data_buffer (pos 3))
    ≡ queue_outcomes
        (write_op (7 ∷ 8 ∷ 9 ∷ []) ∷ read_op 2 ∷ len_op ∷ read_op 2 ∷ read_op 1 ∷ [])
        []
outcomes_example =
    outcomes-queue_outcomes fresh (λ n. length-replicate n 0) (pos 3)
      (write_op (7 ∷ 8 ∷ 9 ∷ []) ∷ read_op 2 ∷ len_op ∷ read_op 2 ∷ read_op 1 ∷ [])
