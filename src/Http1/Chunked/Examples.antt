-- ===== src/Http1/Chunked/Examples.antt =====
-- internal/chunked.go: runs of the model.
use req.Base.{ℕ, ◌≡◌, refl, ◌<◌, Option, none, some, [], ◌∷◌, ◌++◌, length, arith, ap}
use req.Base.Bytes.{Bytes, codes}
use req.Http1.Bufio.{BufReader, remaining, Error, eof, foreign}
use req.Http1.Chunked.{new_chunked_reader}
use req.Http1.Chunked.Writer.{write_all, TakesAll, hex_digits, hex_char}
use req.Http1.Chunked.Decode.{decode, header, failed}
use req.Http1.Chunked.Reads.{read_all, read_all-decode}
use req.Http1.Chunked.RoundTrip.{write_all-read_all}
use req.Http1.Chunked.Goes.{ending_of}

-- A wire in memory.
abbrev append_to : Bytes → Bytes → (ℕ × Option Error) × Bytes
append_to b w = ((length b, none), w ++ b)

append_to-TakesAll : TakesAll append_to none (λ w. w)
append_to-TakesAll = record {
  taken = λ b w. refl;
  shown = λ b w. refl;
  flushed = λ f e w. absurd (ground arith);
}

-- "3\r\nabc\r\n0\r\n" and a byte more, in two deliveries.
abbrev two_pieces : BufReader
two_pieces = record {
  cap = 4096;
  buf = [];
  source = (51 ∷ 13 ∷ 10 ∷ 97 ∷ 98 ∷ []) ∷ (99 ∷ 13 ∷ 10 ∷ 48 ∷ 13 ∷ 10 ∷ 33 ∷ []) ∷ [];
  failure = eof;
}

abbrev two_at_once : ℕ → ℕ
two_at_once i = 2

abc_written :
    (write_all append_to none ((97 ∷ 98 ∷ 99 ∷ []) ∷ [] ∷ []) []).1 ≡ codes "3\r\nabc\r\n0\r\n"
unfolding write_all hex_digits hex_char
abc_written = refl

two_pieces_written :
    remaining two_pieces
    ≡ (write_all append_to none ((97 ∷ 98 ∷ 99 ∷ []) ∷ [] ∷ []) []).1 ++ 33 ∷ []
unfolding write_all hex_digits hex_char
two_pieces_written = refl

write_all-read_all_example :
    ((write_all append_to none ((97 ∷ 98 ∷ 99 ∷ []) ∷ [] ∷ []) []).0 ≡ none)
    × ((r' : BufReader) × (read_all 4 two_at_once 0 (new_chunked_reader two_pieces)
          ≡ some (97 ∷ 98 ∷ 99 ∷ [], eof, r'))
        × (remaining r' ≡ 33 ∷ []))
write_all-read_all_example =
    write_all-read_all append_to none (λ w. w) [] ((97 ∷ 98 ∷ 99 ∷ []) ∷ [] ∷ []) two_pieces
      (33 ∷ []) two_at_once 4 append_to-TakesAll refl (omega arith) (omega arith) (omega arith)
      two_pieces_written (λ j. omega arith) (omega arith)

-- "4\r\nabcd", where the connection breaks.
abbrev broken_off : BufReader
broken_off = record {
  cap = 4096;
  buf = [];
  source = (52 ∷ 13 ∷ 10 ∷ 97 ∷ 98 ∷ 99 ∷ 100 ∷ []) ∷ [];
  failure = foreign 7;
}

broken_off_decoded :
    decode (4096, foreign 7) (header 4096 []) (remaining broken_off)
    ≡ (97 ∷ 98 ∷ 99 ∷ 100 ∷ [], failed (foreign 7))
unfolding decode req.Http1.Chunked.chunk_line req.Http1.Chunked.parse_hex_uint
broken_off_decoded = refl

four_bytes : length (decode (4096, foreign 7) (header 4096 []) (remaining broken_off)).0 < 5
four_bytes = omega (arith, ap (λ q. length q.0) broken_off_decoded)

read_all-decode_example :
    (e : Error) × (r' : BufReader) × (read_all 5 two_at_once 0 (new_chunked_reader broken_off)
      ≡ some ((decode (4096, foreign 7) (header 4096 []) (remaining broken_off)).0, e, r'))
    × (ending_of e (remaining r')
        ≡ (decode (4096, foreign 7) (header 4096 []) (remaining broken_off)).1)
read_all-decode_example =
    read_all-decode 5 two_at_once broken_off (λ j. omega arith) (omega arith) four_bytes
