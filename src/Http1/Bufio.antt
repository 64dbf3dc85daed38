-- ===== src/Http1/Bufio.antt =====
-- What internal/chunked.go uses of the standard library's `bufio.Reader`. The reader under it hands
-- out `source`, one piece for each call of `Read` (a part of it where the room is smaller), and then
-- returns `failure`, which is io.EOF or another error, from each call and with no bytes; a piece is
-- not empty. `buf` holds what is buffered and not read, at most `cap` bytes.
pub mod Remaining
pub mod Lines
use req.Base.{
  ℕ, zero, suc, ◌+◌, ◌-◌, ◌<◌, ◌≤◌, Bool, true, false, ◌||◌, ◌==◌, ltb, leb, Option, none, some,
  if◌then◌else◌, List, [], ◌∷◌, ◌++◌, length, take, drop, All,
}
use req.Base.Bytes.{Bytes}

-- The errors of the readers and writers of internal/chunked.go; `foreign` is one of the reader or the
-- wire below.
pub data Error : Type 0 where
  eof unexpected_eof buffer_full line_too_long malformed : Error
  invalid_byte length_too_large short_write : Error
  foreign : ℕ → Error

pub record BufReader : Type 0 where
  pub cap : ℕ
  pub buf : Bytes
  pub source : List Bytes
  pub failure : Error

abbrev pub concat : List Bytes → Bytes
concat [] = []
concat (p ∷ ps) = p ++ concat ps

-- All bytes that are still to come.
abbrev pub remaining : BufReader → Bytes
remaining r = r.buf ++ concat r.source

-- What of a reader no call changes.
abbrev pub nature : BufReader → ℕ × Error
nature r = (r.cap, r.failure)

abbrev pub IsReader : BufReader → Type 0
IsReader r = (0 < r.cap) × (length r.buf ≤ r.cap) × All (λ p. 0 < length p) r.source

-- One `Read` of the reader below, for `k` bytes; `none` is its end.
unfoldable pub pull : ℕ → List Bytes → Option (Bytes × List Bytes)
pull k [] = none
pull k (p ∷ ps) = if leb (length p) k then some (p, ps) else some (take k p, drop k p ∷ ps)

-- Into the buffer, and from there to the caller.
unfoldable pub through_buffer :
    ℕ → BufReader → Option (Bytes × List Bytes) → Option (Bytes × BufReader)
through_buffer k r none = none
through_buffer k r (some (p, ps)) = some (take k p, record r { buf = drop k p; source = ps })

unfoldable pub past_buffer : BufReader → Option (Bytes × List Bytes) → Option (Bytes × BufReader)
past_buffer r none = none
past_buffer r (some (p, ps)) = some (p, record r { buf = []; source = ps })

-- `Read` for `k` bytes, `none` at the end of the input. A read as large as the buffer goes past it.
unfoldable pub read_buf : ℕ → BufReader → Option (Bytes × BufReader)
unfolding pull through_buffer past_buffer
read_buf k r = elim r.buf [
  | [] ↦
      if leb r.cap k
      then past_buffer r (pull k r.source)
      else through_buffer k r (pull r.cap r.source)
  | b ∷ bs ↦ some (take k (b ∷ bs), record r { buf = drop k (b ∷ bs) })
]

-- `io.ReadFull` of two bytes.
pub data Full : Type 0 where
  full : ℕ → ℕ → BufReader → Full
  short : Error → BufReader → Full

-- The error behind one byte.
unfoldable pub unexpected : Error → Error
unexpected eof = unexpected_eof
unexpected e = e

unfoldable pub second_byte : ℕ → BufReader → Option (Bytes × BufReader) → Full
unfolding unexpected
second_byte b r (some (c ∷ [], r')) = full b c r'
second_byte b r _ = short (unexpected r.failure) r

unfoldable pub first_bytes : BufReader → Option (Bytes × BufReader) → Full
unfolding second_byte read_buf
first_bytes r (some (b ∷ [], r')) = second_byte b r' (read_buf 1 r')
first_bytes r (some (b ∷ c ∷ [], r')) = full b c r'
first_bytes r _ = short r.failure r

unfoldable pub read_full_2 : BufReader → Full
unfolding first_bytes read_buf
read_full_2 r = first_bytes r (read_buf 2 r)

-- The bytes up to the first newline, with it, and those behind.
unfoldable pub cut_line : Bytes → Option (Bytes × Bytes)
cut_line [] = none
cut_line (b ∷ s) =
    if b == 10
    then some (b ∷ [], s)
    else elim (cut_line s) [ none ↦ none | some (line, rest) ↦ some (b ∷ line, rest) ]

pub data Slice : Type 0 where
  slice : Bytes → BufReader → Slice
  no_slice : Error → BufReader → Slice

-- The line in the buffer, or what the search goes on with.
unfoldable pub in_buffer : BufReader → Bytes → List Bytes → Option (Bytes × Bytes) → Slice → Slice
in_buffer r buf ps (some (line, rest)) next = slice line (record r { buf = rest; source = ps })
in_buffer r buf ps none next =
    if leb r.cap (length buf)
    then no_slice buffer_full (record r { buf = []; source = ps })
    else next

-- `ReadSlice('\n')`: the buffer is filled, a piece at a time, until the line is in it. A piece for
-- which there is no room fills it up, which ends the search.
unfoldable pub read_slice : BufReader → Bytes → List Bytes → Slice
unfolding cut_line in_buffer
read_slice r buf [] =
    in_buffer r buf [] (cut_line buf) (no_slice r.failure (record r { buf = []; source = [] }))
read_slice r buf (p ∷ ps) =
    let room = r.cap - length buf in
    let rest = read_slice r (buf ++ p) ps in
    let filled =
      in_buffer r (buf ++ take room p) (drop room p ∷ ps) (cut_line (buf ++ take room p))
        (no_slice buffer_full (record r { buf = []; source = drop room p ∷ ps })) in
    in_buffer r buf (p ∷ ps) (cut_line buf) (if leb (length p) room then rest else filled)
