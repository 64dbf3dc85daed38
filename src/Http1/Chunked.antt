-- ===== src/Http1/Chunked.antt =====
-- internal/chunked.go: the reader of the chunked transfer coding, with the parser of its lines.
pub mod Writer
pub mod Sizes
pub mod Decode
pub mod Goes
pub mod Begins
pub mod Rounds
pub mod Reads
pub mod RoundTrip
mod Examples
use req.Base.{
  ℕ, zero, suc, ◌+◌, ◌-◌, ◌*◌, ◌%◌, ◌^◌, min, Bool, true, false, not, ◌&&◌, ◌||◌, ◌==◌, ltb, leb,
  Option, none, some, if◌then◌else◌, List, [], ◌∷◌, ◌++◌, length,
}
use req.Base.Bytes.{Bytes}
use req.Http1.Bufio.{
  BufReader, remaining, Error, eof, unexpected_eof, buffer_full, line_too_long, malformed,
  invalid_byte, length_too_large, read_buf, Full, full, short, read_full_2, cut_line, Slice, slice,
  no_slice, read_slice,
}

pub data Result {ℓ} (A : Type ℓ) : Type ℓ where
  ok : A → Result A
  err : Error → Result A

abbrev pub max_line_length : ℕ
max_line_length = 4096

unfoldable pub is_ascii_space : ℕ → Bool
is_ascii_space b = b == 32 || b == 9 || b == 10 || b == 13

-- The bytes without the white space at their end.
unfoldable pub trim_trailing_whitespace : Bytes → Bytes
unfolding is_ascii_space
trim_trailing_whitespace [] = []
trim_trailing_whitespace (b ∷ s) = elim (trim_trailing_whitespace s) [
  | [] ↦ if is_ascii_space b then [] else b ∷ []
  | c ∷ t ↦ b ∷ c ∷ t
]

-- `bytes.Cut(p, semi)`, its part before.
unfoldable pub remove_chunk_extension : Bytes → Bytes
remove_chunk_extension [] = []
remove_chunk_extension (b ∷ s) = if b == 59 then [] else b ∷ remove_chunk_extension s

unfoldable pub hex_digit : ℕ → Option ℕ
hex_digit b =
    if leb 48 b && leb b 57
    then some (b - 48)
    else if leb 97 b && leb b 102
    then some (b - 97 + 10)
    else if leb 65 b && leb b 70
    then some (b - 65 + 10)
    else none

-- The errors of a byte, and the seventeenth digit.
unfoldable pub add_digit : Option ℕ → Bool → (ℕ → Result ℕ) → Result ℕ
add_digit none too_many next = err invalid_byte
add_digit (some d) true next = err length_too_large
add_digit (some d) false next = next d

-- The loop of `parseHexUint` at index `i`. After `n <<= 4` the low four bits are clear, so that `|`
-- with a digit is `+`.
unfoldable pub parse_hex_from : ℕ → ℕ → Bytes → Result ℕ
unfolding hex_digit add_digit
parse_hex_from i n [] = ok n
parse_hex_from i n (b ∷ v) =
    add_digit (hex_digit b) (i == 16) (λ d. parse_hex_from (i + 1) (n * 16 % 2 ^ 64 + d) v)

-- `parseHexUint`
unfoldable pub parse_hex_uint : Bytes → Result ℕ
unfolding parse_hex_from
parse_hex_uint v = parse_hex_from 0 0 v

-- What `readChunkLine` makes of a line that `ReadSlice` has found.
unfoldable pub chunk_line : Bytes → Result Bytes
unfolding trim_trailing_whitespace remove_chunk_extension
chunk_line p =
    if leb max_line_length (length p)
    then err line_too_long
    else ok (remove_chunk_extension (trim_trailing_whitespace p))

unfoldable pub line_error : Error → Error
line_error eof = unexpected_eof
line_error buffer_full = line_too_long
line_error e = e

unfoldable pub of_slice : Slice → Result Bytes × BufReader
unfolding chunk_line line_error
of_slice (slice p r) = (chunk_line p, r)
of_slice (no_slice e r) = (err (line_error e), r)

-- `readChunkLine`
unfoldable pub read_chunk_line : BufReader → Result Bytes × BufReader
unfolding of_slice read_slice
read_chunk_line r = of_slice (read_slice r r.buf r.source)

pub record ChunkedReader : Type 0 where
  pub r : BufReader
  pub n : ℕ
  pub error : Option Error
  pub check_end : Bool

-- `NewChunkedReader` on a buffered reader.
abbrev pub new_chunked_reader : BufReader → ChunkedReader
new_chunked_reader r = record { r = r; n = 0; error = none; check_end = false }

unfoldable pub set_size : Result ℕ → ChunkedReader → ChunkedReader
set_size (err e) cr = record cr { n = 0; error = some e }
set_size (ok zero) cr = record cr { n = 0; error = some eof }
set_size (ok (suc n)) cr = record cr { n = suc n }

unfoldable pub take_line : Result Bytes × BufReader → ChunkedReader → ChunkedReader
unfolding set_size parse_hex_uint
take_line (err e, r) cr = record cr { r = r; error = some e }
take_line (ok line, r) cr = set_size (parse_hex_uint line) (record cr { r = r })

-- `beginChunk`
unfoldable pub begin_chunk : ChunkedReader → ChunkedReader
unfolding take_line read_chunk_line
begin_chunk cr = take_line (read_chunk_line cr.r) cr

-- `chunkHeaderAvailable`
unfoldable pub chunk_header_available : ChunkedReader → Bool
unfolding cut_line
chunk_header_available cr = elim (cut_line cr.r.buf) [ none ↦ false | some p ↦ true ]

unfoldable pub at_eof : Error → Error
at_eof eof = unexpected_eof
at_eof e = e

-- The two bytes behind a chunk.
unfoldable pub end_chunk : Full → ChunkedReader → ChunkedReader
unfolding at_eof
end_chunk (full a b r) cr =
    if a == 13 && b == 10
    then record cr { r = r; check_end = false }
    else record cr { r = r; error = some malformed }
end_chunk (short e r) cr = record cr { r = r; error = some (at_eof e) }

-- A read of at most `k` bytes of the chunk.
unfoldable pub take_bytes : Option (Bytes × BufReader) → ChunkedReader → Bytes × ChunkedReader
unfolding at_eof
take_bytes none cr = ([], record cr { error = some (at_eof cr.r.failure) })
take_bytes (some (p, r)) cr =
    let left = cr.n - length p in
    (p, record cr { r = r; n = left; check_end = if left == 0 then true else cr.check_end })

-- What a round of the loop of `Read` does: stop, or go on with some bytes read.
pub data Round : Type 0 where
  stop : Round
  go_on : Bytes → ChunkedReader → Round

abbrev pub is_empty : Bytes → Bool
is_empty [] = true
is_empty (b ∷ s) = false

-- A round behind the check of the chunk's end, for `k` bytes, with `got` read so far.
unfoldable pub round_chunk : ℕ → Bytes → ChunkedReader → Round
unfolding take_bytes read_buf begin_chunk chunk_header_available
round_chunk k got cr =
    if cr.n == 0
    then (if not (is_empty got) && not (chunk_header_available cr)
        then stop
        else go_on [] (begin_chunk cr))
    else if k == 0
    then stop
    else let (p, cr') = take_bytes (read_buf (min k cr.n) cr.r) cr in go_on p cr'

-- One round of the loop, up to its next test of `cr.err`.
unfoldable pub round : ℕ → Bytes → ChunkedReader → Round
unfolding end_chunk read_full_2 round_chunk
round k got cr =
    if cr.check_end
    then (if not (is_empty got) && ltb (length cr.r.buf) 2
        then stop
        else go_on [] (end_chunk (read_full_2 cr.r) cr))
    else round_chunk k got cr

-- What follows the test of `cr.err` at the head of the loop.
unfoldable pub on_round {ℓ} :
    {A : Type ℓ} → Option Error → Round → A → (Bytes → ChunkedReader → A) → A
on_round (some e) q here next = here
on_round none stop here next = here
on_round none (go_on p cr') here next = next p cr'

-- The loop of `Read`, with fuel for its rounds; `none` is the end of the fuel.
unfoldable pub read_loop : ℕ → ℕ → Bytes → ChunkedReader → Option (Bytes × ChunkedReader)
unfolding round on_round
read_loop zero k got cr = none
read_loop (suc fuel) k got cr =
    on_round cr.error (round k got cr) (some (got, cr))
      (λ p cr'. read_loop fuel (k - length p) (got ++ p) cr')

-- `Read` into `k` bytes, which returns `cr.err` beside the bytes. Each round takes bytes off the
-- input or sets the error.
unfoldable pub read : ℕ → ChunkedReader → Option (Bytes × ChunkedReader)
unfolding read_loop
read k cr = read_loop (length (remaining cr.r) + 2) k [] cr
