-- ===== src/Http2/DataBuffer.antt =====
-- internal/http2/databuffer.go: the chunked buffer between the frames of a stream and its reader.
-- A chunk is a list as long as the array. `pool` is what `sync.Pool` hands out for a size class: an
-- array of that length, with whatever an earlier user left in it. An int64 that falls below zero is
-- an integer.
pub mod View
pub mod Append
pub mod Drain
pub mod Queue
mod Examples
use req.Base.{
  ℕ, zero, suc, ◌+◌, ◌-◌, min, Bool, true, false, ◌||◌, ltb, ◌==◌, Option, none, some, ◌>>=?◌,
  if◌then◌else◌, List, [], ◌∷◌, ◌++◌, length, take, drop,
}
use req.Base.Bytes.{Bytes}
use req.Base.Int.{ℤ, pos, ◌-ℤ◌, ltb_ℤ}

pub record DataBuffer : Type 0 where
  pub chunks : List Bytes
  pub r : ℕ
  pub w : ℕ
  pub size : ℕ
  pub expected : ℤ

-- A buffer as `&dataBuffer{expected: n}` makes it.
unfoldable pub new_data_buffer : ℤ → DataBuffer
new_data_buffer expected = record { chunks = []; r = 0; w = 0; size = 0; expected = expected }

-- `Len`
unfoldable pub len : DataBuffer → ℕ
len b = b.size

-- The length of the array that `getDataBufferChunk` picks.
unfoldable pub size_class : ℤ → ℕ
size_class size =
    if ltb_ℤ (pos 16384) size
    then 16384
    else if ltb_ℤ (pos 8192) size
    then 16384
    else if ltb_ℤ (pos 4096) size
    then 8192
    else if ltb_ℤ (pos 2048) size
    then 4096
    else if ltb_ℤ (pos 1024) size
    then 2048
    else 1024

-- `putDataBufferChunk` panics on an array of any other length.
abbrev pub is_class : ℕ → Bool
is_class n = n == 1024 || n == 2048 || n == 4096 || n == 8192 || n == 16384

-- `len(chunk[b.w:])` of the last chunk, 0 if there is none.
unfoldable pub room : ℕ → List Bytes → ℕ
room w [] = 0
room w (c ∷ []) = length c - w
room w (c ∷ d ∷ cs) = room w (d ∷ cs)

-- `copy(chunk[b.w:], p)` into the last chunk, of bytes that fit.
unfoldable pub fill_last : ℕ → Bytes → List Bytes → List Bytes
fill_last w q [] = []
fill_last w q (c ∷ []) = (take w c ++ (q ++ drop (w + length q) c)) ∷ []
fill_last w q (c ∷ d ∷ cs) = c ∷ fill_last w q (d ∷ cs)

-- `p[lo:hi]` panics if the bounds are out of order or out of range.
unfoldable pub slice : ℕ → ℕ → Bytes → Option Bytes
slice lo hi p = if ltb hi lo || ltb (length p) hi then none else some (drop lo (take hi p))

-- `bytesFromFirstChunk`
unfoldable pub bytes_from_first_chunk : DataBuffer → Bytes → List Bytes → Option Bytes
unfolding slice
bytes_from_first_chunk b c [] = slice b.r b.w c
bytes_from_first_chunk b c (d ∷ cs) = slice b.r (length c) c

-- The first chunk goes back to the pool when it has been read to its end.
unfoldable pub advance : DataBuffer → Bytes → List Bytes → Option DataBuffer
advance b c cs =
    if b.r == length c
    then (if is_class (length c) then some (record b { chunks = cs; r = 0 }) else none)
    else some b

-- One round of the loop of `Read`, for `k` bytes wanted.
unfoldable pub read_round : ℕ → DataBuffer → List Bytes → Option (Bytes × DataBuffer)
read_round k b [] = none
read_round k b (c ∷ cs) = bytes_from_first_chunk b c cs >>=? λ p.
    let n = min k (length p) in
    advance (record b { r = b.r + n; size = b.size - n }) c cs >>=? λ b'. some (take n p, b')

-- The loop of `Read`, with fuel for its rounds; `none` is a panic or the end of the fuel.
unfoldable pub read_loop : ℕ → ℕ → DataBuffer → Option (Bytes × DataBuffer)
read_loop fuel zero b = some ([], b)
read_loop zero (suc k) b = if b.size == 0 then some ([], b) else none
read_loop (suc fuel) (suc k) b =
    let rest = read_round (suc k) b b.chunks >>=? λ s.
    read_loop fuel (suc k - length s.0) s.1 >>=? λ t. some (s.0 ++ t.0, t.1) in
    if b.size == 0 then some ([], b) else rest

pub data ReadResult : Type 0 where
  read_empty : ReadResult
  fault : ReadResult
  got : Bytes → DataBuffer → ReadResult

unfoldable pub as_result : Option (Bytes × DataBuffer) → ReadResult
as_result none = fault
as_result (some (p, b)) = got p b

-- `Read` into a buffer of `k` bytes. Each round copies at least one, so `k` rounds are enough.
unfoldable pub read : ℕ → DataBuffer → ReadResult
unfolding as_result
read k b = if b.size == 0 then read_empty else as_result (read_loop k k b)

-- What one round of the loop of `Write` copies, behind `lastChunkOrAlloc`.
unfoldable pub copy_in : Bytes → DataBuffer → Bytes × DataBuffer
copy_in p b =
    let n = min (room b.w b.chunks) (length p) in
    (
      drop n p,
      record b {
        chunks = fill_last b.w (take n p) b.chunks;
        w = b.w + n;
        size = b.size + n;
        expected = b.expected -ℤ pos n;
      },
    )

unfoldable pub wanted : Bytes → DataBuffer → ℤ
wanted p b = if ltb_ℤ (pos (length p)) b.expected then b.expected else pos (length p)

module _ (pool : ℕ → Bytes) where
  -- `lastChunkOrAlloc`, which leaves the chunk to write to at the end of `chunks`.
  unfoldable pub last_chunk_or_alloc : ℤ → DataBuffer → DataBuffer
  last_chunk_or_alloc want b =
      if room b.w b.chunks == 0
      then record b { chunks = b.chunks ++ pool (size_class want) ∷ []; w = 0 }
      else b

  unfoldable pub write_round : Bytes → DataBuffer → Bytes × DataBuffer
  write_round p b = copy_in p (last_chunk_or_alloc (wanted p b) b)

  -- The loop of `Write`, with fuel for its rounds; `none` is the end of the fuel.
  unfoldable pub write_loop : ℕ → Bytes → DataBuffer → Option DataBuffer
  write_loop fuel [] b = some b
  write_loop zero (x ∷ p) b = none
  write_loop (suc fuel) (x ∷ p) b = let (q, b') = write_round (x ∷ p) b in write_loop fuel q b'

  -- `Write`. Each round copies at least one byte, so `len(p)` rounds are enough.
  unfoldable pub write : Bytes → DataBuffer → Option (ℕ × DataBuffer)
  write p b = write_loop (length p) p b >>=? λ b'. some (length p, b')
