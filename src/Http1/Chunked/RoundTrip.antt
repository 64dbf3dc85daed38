-- ===== src/Http1/Chunked/RoundTrip.antt =====
-- What the writer of internal/chunked.go has written, its reader reads.
use req.Base.{
  ℕ, ◌-◌, ◌≤◌, ◌<◌, ◌≡◌, ◌^◌, refl, ap, ◌∙◌, Option, none, some, List, [], ◌∷◌, ◌++◌, append_assoc,
  length, All, arith,
}
use req.Base.Bytes.{Bytes}
use req.Http1.Bufio.{
  BufReader, remaining, concat, IsReader, Error, eof, unexpected_eof, buffer_full, line_too_long,
  malformed, invalid_byte, length_too_large, short_write, foreign, cut_line, nature,
}
use req.Http1.Chunked.{
  new_chunked_reader, ok, chunk_line, parse_hex_uint, trim_trailing_whitespace, is_ascii_space,
  remove_chunk_extension, parse_hex_from, add_digit, hex_digit,
}
use req.Http1.Chunked.Writer.{
  write_all, size_line, encode_chunk, encode, TakesAll, write_all-encode,
}
use req.Http1.Chunked.Sizes.{line_size-size_line, cut_line-size_line}
use req.Http1.Chunked.Decode.{
  finished, prepend, line_size, after_size, decode, header, body, inside, decode-inside,
  decode-header,
}
use req.Http1.Chunked.Reads.{read_all, read_all-decode}
use req.Http1.Chunked.Goes.{ending_of, footer_ok}

abbrev Sized : List Bytes → Type 0
Sized = All (λ p. length p < 2 ^ 64)

decode-last :
    (src : ℕ × Error) (rest : Bytes)
    → 18 ≤ src.0
    → decode src (header src.0 []) (48 ∷ 13 ∷ 10 ∷ rest) ≡ ([], finished rest)
unfolding cut_line line_size chunk_line parse_hex_uint trim_trailing_whitespace is_ascii_space
    remove_chunk_extension parse_hex_from add_digit hex_digit
decode-last src rest h =
    decode-header src src.0 [] (48 ∷ 13 ∷ 10 ∷ rest) (48 ∷ 13 ∷ 10 ∷ []) rest last_line
      (omega arith)
    ∙ ap (λ x. after_size x rest (λ n. decode src (body n) rest)) last_size
  where
    last_line : cut_line (48 ∷ 13 ∷ 10 ∷ rest) ≡ some (48 ∷ 13 ∷ 10 ∷ [], rest)
    last_line = refl

    last_size : line_size (48 ∷ 13 ∷ 10 ∷ []) ≡ ok 0
    last_size = refl

decode-chunk :
    (src : ℕ × Error) (b : ℕ) (p s : Bytes)
    → 18 ≤ src.0
    → length (b ∷ p) < 2 ^ 64
    → decode src (header src.0 []) (encode_chunk (b ∷ p) ++ s)
      ≡ prepend (b ∷ p) (decode src (header src.0 []) s)
decode-chunk src b p s h small =
    let n = length (b ∷ p) in
    let tail = (b ∷ p) ++ (13 ∷ 10 ∷ s) in
    let shape : encode_chunk (b ∷ p) ++ s ≡ size_line n ++ tail =
      append_assoc (size_line n) ((b ∷ p) ++ 13 ∷ 10 ∷ []) s
      ∙ ap (λ x. size_line n ++ x) (append_assoc (b ∷ p) (13 ∷ 10 ∷ []) s) in
    let (line, short) = cut_line-size_line n tail in
    let none_left : n - length (b ∷ p) ≡ 0 = omega arith in
    ap (decode src (header src.0 [])) shape
    ∙ decode-header src src.0 [] (size_line n ++ tail) (size_line n) tail line
        (omega (arith, short))
    ∙ ap (λ x. after_size x tail (λ m. decode src (body m) tail)) (line_size-size_line n small)
    ∙ decode-inside src n (b ∷ p) (13 ∷ 10 ∷ s) (omega arith)
    ∙ ap (λ k. prepend (b ∷ p) (decode src (inside k) (13 ∷ 10 ∷ s))) none_left
    ∙ ap (prepend (b ∷ p)) (footer_ok src 13 10 s refl)

decode-encode :
    (src : ℕ × Error) (ps : List Bytes) (rest : Bytes)
    → 18 ≤ src.0
    → Sized ps
    → decode src (header src.0 []) (encode ps ++ rest) ≡ (concat ps, finished rest)
decode-encode src [] rest h small = decode-last src rest h
decode-encode src ([] ∷ ps) rest h small = decode-encode src ps rest h small.1
decode-encode src ((b ∷ p) ∷ ps) rest h small =
    ap (decode src (header src.0 [])) (append_assoc (encode_chunk (b ∷ p)) (encode ps) rest)
    ∙ decode-chunk src b p (encode ps ++ rest) h small.0
    ∙ ap (prepend (b ∷ p)) (decode-encode src ps rest h small.1)

-- Only the end of the message ends without an error.
finished_eof : (e : Error) (s rest : Bytes) → ending_of e s ≡ finished rest → (e ≡ eof) × (s ≡ rest)
finished_eof eof s rest h = ground arith
finished_eof unexpected_eof s rest h = absurd (ground arith)
finished_eof buffer_full s rest h = absurd (ground arith)
finished_eof line_too_long s rest h = absurd (ground arith)
finished_eof malformed s rest h = absurd (ground arith)
finished_eof invalid_byte s rest h = absurd (ground arith)
finished_eof length_too_large s rest h = absurd (ground arith)
finished_eof short_write s rest h = absurd (ground arith)
finished_eof (foreign n) s rest h = absurd (ground arith)

-- If a wire takes all bytes and each piece is shorter than 2^64 bytes, writing the pieces with the
-- chunked writer and closing it ends without an error; and a chunked reader whose bufio buffer
-- holds 18 bytes or more and whose source hands out these bytes and any rest, in parts of any
-- sizes, gives back the concatenated pieces and then io.EOF, with the rest unread, whatever
-- positive numbers of bytes its calls ask for, within one call more than there are bytes.
pub write_all-read_all :
    {W : Type 0} (wire : Bytes → W → (ℕ × Option Error) × W) (flush : Option (W → Option Error × W))
    (seen : W → Bytes) (w : W) (ps : List Bytes) (r : BufReader) (rest : Bytes) (sizes : ℕ → ℕ)
    (fuel : ℕ)
    → TakesAll wire flush seen
    → seen w ≡ []
    → All (λ p. length p < 2 ^ 64) ps
    → IsReader r
    → 18 ≤ r.cap
    → remaining r ≡ seen (write_all wire flush ps w).1 ++ rest
    → ((j : ℕ) → 0 < sizes j)
    → length (concat ps) < fuel
    → ((write_all wire flush ps w).0 ≡ none)
      × ((r' : BufReader) × (read_all fuel sizes 0 (new_chunked_reader r)
            ≡ some (concat ps, eof, r'))
          × (remaining r' ≡ rest))
write_all-read_all wire flush seen w ps r rest sizes fuel takes start small h room same pos enough =
    let (fine, wrote) = write_all-encode wire flush seen takes ps w in
    let all : remaining r ≡ encode ps ++ rest =
      same ∙ ap (λ x. x ++ rest) (wrote ∙ ap (λ x. x ++ encode ps) start) in
    let d : decode (nature r) (header r.cap []) (remaining r) ≡ (concat ps, finished rest) =
      ap (decode (nature r) (header r.cap [])) all ∙ decode-encode (nature r) ps rest room small in
    let (e, r', runs, ends) =
      read_all-decode fuel sizes r pos h (omega (arith, ap (λ q. length q.0) d)) in
    let (is_eof, left) = finished_eof e (remaining r') rest (ends ∙ ap (λ q. q.1) d) in
    (
      fine,
      (r', runs ∙ ap (λ q. some (q.0, e, r')) d ∙ ap (λ x. some (concat ps, x, r')) is_eof, left),
    )
